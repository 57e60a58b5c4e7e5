-- ===== src/Worker/Handlers/Authentication.antt =====
-- crates/session-sync-worker/src/api.rs: the authentication of a request by its token.
use attached.Common.{
  Bool, true, false, [], ◌∷◌, Bytes, bytes_eq, bytes_eq_iff, if◌then◌else◌, Option, none, some,
  Result, ok, err, ◌≡◌, refl,
}
use attached.Account.Tokens.{parse_authorization}
use attached.Account.Bundles.{AccountError}
use attached.Worker.Account.{ApiKeyScope, StoredAccount, authenticate}
use attached.Worker.Storage.Rows.{StoreError}
use attached.Worker.Storage.Session.{Storage}
use attached.Worker.Storage.Operations.{load_account}
use attached.Worker.Storage.Keeping.{load_account-Keeps}
use attached.Worker.Http.{HeaderValue}
use attached.Worker.Handlers.{
  AuthenticationError, unauthorized, authentication_unavailable, Crates, authenticate_account,
  authenticate_token, authenticate_request,
}

-- The header has a token of the account that is loaded, for the scope.
pub record Grants (crates : Crates) (header : HeaderValue) (account_id : Bytes)
    (scope : ApiKeyScope) (s : Storage) : Type 0 where
  pub value : Bytes
  pub token : Bytes
  pub account : StoredAccount
  pub after : Storage
  pub one_header : header ≡ some (some value)
  pub bearer : parse_authorization crates.base64 (value ∷ []) ≡ ok token
  pub loaded : load_account crates.uuid s ≡ (ok (some account), after)
  pub same_account : account.account_id ≡ account_id
  pub granted : authenticate account (crates.service_hash token) scope ≡ true

-- Authentication leaves the tables, and it succeeds with such a token only.
abbrev pub Authenticates :
    (crates : Crates)
    → HeaderValue
    → Bytes
    → ApiKeyScope
    → Storage
    → Result AuthenticationError (Unit {0}) × Storage
    → Type 0
Authenticates crates header account_id scope s (ok _, s') =
    (s'.tables ≡ s.tables) × Grants crates header account_id scope s
Authenticates crates header account_id scope s (err _, s') = s'.tables ≡ s.tables

module _ (crates : Crates) (account_id : Bytes) (scope : ApiKeyScope) (s : Storage) where
  loaded_cases :
      (value token : Bytes)
      → parse_authorization crates.base64 (value ∷ []) ≡ ok token
      → (x : Result StoreError (Option StoredAccount) × Storage) → load_account crates.uuid s ≡ x
      → x.1.tables ≡ s.tables
      → Authenticates crates
          (some (some value))
          account_id
          scope
          s
          (authenticate_account crates account_id scope token x.0, x.1)
  unfolding authenticate_account
  loaded_cases value token h (err e, s') k same = same
  loaded_cases value token h (ok none, s') k same = same
  loaded_cases value token h (ok (some account), s') k same =
      by_tests (bytes_eq account.account_id account_id)
        (authenticate account (crates.service_hash token) scope) refl refl
    where
      by_tests :
          (own may : Bool)
          → bytes_eq account.account_id account_id ≡ own
          → authenticate account (crates.service_hash token) scope ≡ may
          → Authenticates crates (some (some value)) account_id scope s (
            if own
                then (if may then ok tt else err unauthorized)
                else err authentication_unavailable,
            s',
          )
      by_tests false may p q = same
      by_tests true false p q = same
      by_tests true true p q = (
        same,
        record {
          value = value;
          token = token;
          account = account;
          after = s';
          one_header = refl;
          bearer = h;
          loaded = k;
          same_account = (bytes_eq_iff account.account_id account_id).0 p;
          granted = q;
        },
      )

  token_cases :
      (value : Bytes) (r : Result AccountError Bytes)
      → parse_authorization crates.base64 (value ∷ []) ≡ r
      → Authenticates crates
          (some (some value))
          account_id
          scope
          s
          (authenticate_token crates account_id scope r s)
  unfolding authenticate_token
  token_cases value (err e) h = refl
  token_cases value (ok token) h =
      loaded_cases value token h (load_account crates.uuid s) refl
        (load_account-Keeps crates.uuid s)

  pub authenticate_request-Authenticates :
      (header : HeaderValue)
      → Authenticates crates header account_id scope s
          (authenticate_request crates header account_id scope s)
  unfolding authenticate_request
  authenticate_request-Authenticates none = refl
  authenticate_request-Authenticates (some none) = refl
  authenticate_request-Authenticates (some (some value)) = token_cases value _ refl
