-- ===== src/Account/Tokens.antt =====
-- crates/session-sync-protocol/src/account.rs: identifiers and bearer tokens as text.
pub mod Parsing
pub mod Identifiers
mod Examples
use attached.Common.{
  ℕ, Bool, true, false, not, ◌&&◌, ◌||◌, ◌==◌, if◌then◌else◌, List, [], ◌∷◌, ◌++◌, length, take,
  drop, all_of, Option, none, some, Bytes, bytes_eq, is_utf8, Result, ok, err, ◌>>=◌, ◌>>◌, ensure,
}
use attached.Api.Wire.{Base64}
use attached.Descriptor.Model.{is_ascii_alphanumeric}
use attached.Worker.Account.{UuidCrate, is_uuid_v7}
use attached.Account.Bundles.{
  AccountError, invalid_identifier, invalid_bearer, invalid_authorization,
}

abbrev pub secret_text_len : ℕ
secret_text_len = 43

abbrev pub identifier_text_len : ℕ
identifier_text_len = 22

-- `map_err` on what a decoder returns.
abbrev pub decoded_or : AccountError → Option Bytes → Result AccountError Bytes
decoded_or e none = err e
decoded_or e (some bytes) = ok bytes

abbrev pub is_base64_byte : ℕ → Bool
is_base64_byte byte = is_ascii_alphanumeric byte || (byte == b'-' || byte == b'_')

-- `!value.as_bytes().contains(&b'=')`
abbrev pub is_unpadded : Bytes → Bool
is_unpadded value = all_of (λ byte. not (byte == b'=')) value

-- `b"Bearer "`
abbrev pub bearer : Bytes
bearer = b'B' ∷ b'e' ∷ b'a' ∷ b'r' ∷ b'e' ∷ b'r' ∷ b' ' ∷ []

-- `AccountId::parse`
unfoldable pub parse_account_id : UuidCrate → Bytes → Result AccountError Bytes
parse_account_id uuid value = do
  ensure (length value == 36) invalid_identifier
  id ← decoded_or invalid_identifier (uuid.parse_str value)
  ensure (bytes_eq (uuid.hyphenated id) value && is_uuid_v7 uuid id) invalid_identifier
  ok id

-- `map_err(|_| InvalidAuthorization)`
abbrev pub as_authorization : Result AccountError Bytes → Result AccountError Bytes
as_authorization (ok token) = ok token
as_authorization (err _) = err invalid_authorization

module _ (base64 : Base64) where
  -- `RecordId::parse`
  unfoldable pub parse_record_id : Bytes → Result AccountError Bytes
  parse_record_id value = do
    ensure (length value == identifier_text_len && is_unpadded value) invalid_identifier
    decoded ← decoded_or invalid_identifier (base64.decode value)
    ensure (length decoded == 16) invalid_identifier
    ensure (bytes_eq (base64.encode decoded) value) invalid_identifier
    ok decoded

  unfoldable pub decode_api_token : Bytes → Result AccountError Bytes
  decode_api_token input = do
    ensure (length input == secret_text_len && all_of is_base64_byte input) invalid_bearer
    decoded ← decoded_or invalid_bearer (base64.decode_slice input 32)
    ensure (length decoded == 32 && bytes_eq (base64.encode decoded) input) invalid_bearer
    ok decoded

  unfoldable pub parse_authorization_value : Bytes → Result AccountError Bytes
  parse_authorization_value value = do
    ensure (length value == 50 && bytes_eq (take 7 value) bearer) invalid_authorization
    ensure (is_utf8 (drop 7 value)) invalid_authorization
    as_authorization (decode_api_token (drop 7 value))

  unfoldable pub parse_authorization : List Bytes → Result AccountError Bytes
  parse_authorization [] = err invalid_authorization
  parse_authorization (value ∷ []) = parse_authorization_value value
  parse_authorization (_ ∷ _ ∷ _) = err invalid_authorization
