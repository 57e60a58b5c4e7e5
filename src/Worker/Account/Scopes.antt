-- ===== src/Worker/Account/Scopes.antt =====
-- crates/session-sync-worker/src/model.rs: the two scopes of an account are kept apart.
use attached.Common.{true, false, ◌≡◌, refl, sym, ◌∙◌, Bytes, bytes_eq, bytes_eq_iff, ok, arith}
use attached.Worker.Account.{
  StoredAccount, UuidCrate, ApiKeyScope, publish, download, authenticate, validate_account, decode,
}
use attached.Worker.Account.Encoding.{decode_account_iff}

module _ (uuid : UuidCrate) (a : StoredAccount) where
  hashes_differ :
      validate_account uuid a ≡ ok tt
      → bytes_eq a.publish_api_token_hash a.download_api_token_hash ≡ false
  unfolding validate_account
  hashes_differ h = ground arith

  no_shared_hash :
      (hash : Bytes)
      → validate_account uuid a ≡ ok tt
      → authenticate a hash publish ≡ true
      → authenticate a hash download ≡ true
      → publish ≡ download
  unfolding authenticate
  no_shared_hash hash valid p q =
      let same : a.publish_api_token_hash ≡ a.download_api_token_hash =
        (bytes_eq_iff a.publish_api_token_hash hash).0 p
        ∙ sym ((bytes_eq_iff a.download_api_token_hash hash).0 q) in
      cc (
        hashes_differ valid,
        (bytes_eq_iff a.publish_api_token_hash a.download_api_token_hash).1 same,
      )

-- A token hash is accepted for one scope at most of an account that was decoded.
pub scopes_are_separate :
    (uuid : UuidCrate) (bs : Bytes) (a : StoredAccount) (hash : Bytes) (s t : ApiKeyScope)
    → decode uuid bs ≡ ok a
    → authenticate a hash s ≡ true
    → authenticate a hash t ≡ true
    → s ≡ t
scopes_are_separate uuid bs a hash publish publish h p q = refl
scopes_are_separate uuid bs a hash download download h p q = refl
scopes_are_separate uuid bs a hash publish download h p q =
    no_shared_hash uuid a hash ((decode_account_iff uuid bs a).0 h).2 p q
scopes_are_separate uuid bs a hash download publish h p q =
    sym (no_shared_hash uuid a hash ((decode_account_iff uuid bs a).0 h).2 q p)
