-- ===== src/Worker/Account.antt =====
-- crates/session-sync-worker/src/model.rs: stored accounts and their fixed transport encoding.
pub mod Encoding
mod Scopes
mod Examples
use attached.Common.{
  ℕ, zero, suc, ◌+◌, Bool, true, false, not, ◌&&◌, ◌||◌, ◌==◌, if◌then◌else◌, [], ◌∷◌, ◌++◌, length,
  take, drop, Bytes, bytes_eq, Result, ok, err, ◌>>=◌, ◌>>◌, Option,
}

pub data MutationError : Type 0 where
  invalid_request live_quota_exceeded revision_overflow invalid_storage : MutationError

-- What the crate uuid tells of 16 bytes.
pub record UuidCrate : Type 0 where
  -- `get_version() == Some(Version::SortRand)`
  pub is_sort_rand : Bytes → Bool
  -- `get_variant() == Variant::RFC4122`
  pub is_rfc4122 : Bytes → Bool
  -- `Uuid::parse_str`
  pub parse_str : Bytes → Option Bytes
  -- `hyphenated().to_string()`
  pub hyphenated : Bytes → Bytes

unfoldable pub is_uuid_v7 : UuidCrate → Bytes → Bool
is_uuid_v7 uuid id = uuid.is_sort_rand id && uuid.is_rfc4122 id

pub data ApiKeyScope : Type 0 where
  publish download : ApiKeyScope

pub record StoredAccount : Type 0 where
  pub account_id : Bytes
  pub publish_api_token_hash : Bytes
  pub download_api_token_hash : Bytes

-- `expected == supplied_hash` for the hash of the scope.
unfoldable pub authenticate : StoredAccount → Bytes → ApiKeyScope → Bool
authenticate account supplied_hash publish = bytes_eq account.publish_api_token_hash supplied_hash
authenticate account supplied_hash download = bytes_eq account.download_api_token_hash supplied_hash

abbrev pub encoded_account_bytes : ℕ
encoded_account_bytes = 80

-- `[0_u8; n]`
unfoldable pub zeros : ℕ → Bytes
zeros zero = []
zeros (suc n) = 0 ∷ zeros n

-- `buffer[start..start + bytes.len()].copy_from_slice(bytes)`
unfoldable pub copy_at : ℕ → Bytes → Bytes → Bytes
copy_at start bytes buffer = take start buffer ++ bytes ++ drop (start + length bytes) buffer

unfoldable pub encode : StoredAccount → Bytes
encode account =
    let encoded = zeros encoded_account_bytes in
    let encoded = copy_at 0 account.account_id encoded in
    let encoded = copy_at 16 account.publish_api_token_hash encoded in
    copy_at 48 account.download_api_token_hash encoded

module _ (uuid : UuidCrate) where
  unfoldable pub validate_account : StoredAccount → Result MutationError (Unit {0})
  validate_account account =
      if not (is_uuid_v7 uuid account.account_id)
        || bytes_eq account.publish_api_token_hash account.download_api_token_hash
      then err invalid_storage
      else ok tt

  unfoldable pub new_account : Bytes → Bytes → Bytes → Result MutationError StoredAccount
  new_account account_id publish_api_token_hash download_api_token_hash = do
    let account : StoredAccount = record {
      account_id = account_id;
      publish_api_token_hash = publish_api_token_hash;
      download_api_token_hash = download_api_token_hash;
    }
    validate_account account
    ok account

  -- The slices have the lengths that `try_into` expects.
  unfoldable pub decode : Bytes → Result MutationError StoredAccount
  decode encoded =
      if not (length encoded == encoded_account_bytes)
      then err invalid_storage
      else new_account (take 16 encoded) (take 32 (drop 16 encoded)) (drop 48 encoded)
