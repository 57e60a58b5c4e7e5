-- ===== src/LocalEncryption.antt =====
-- crates/cli/src/local_encryption.rs: the envelopes of local secrets.
pub mod Opening
pub mod Purposes
pub mod Keys
pub mod Examples
use attached.Common.{
  ℕ, ◌+◌, ◌^◌, Bool, true, false, ◌||◌, leb, ltb, ◌==◌, if◌then◌else◌, List, [], ◌∷◌, ◌++◌, length,
  get_elem?, take, drop, Option, none, some, Bytes, bytes_eq, Result, ok, err, ◌>>=◌, ◌>>◌, ensure,
}

abbrev pub magic : Bytes
magic = b'A' ∷ b'T' ∷ b'S' ∷ b'E' ∷ b'C' ∷ b'R' ∷ b'0' ∷ b'1' ∷ []

abbrev pub version : ℕ
version = 1

abbrev pub nonce_bytes : ℕ
nonce_bytes = 12

abbrev pub tag_bytes : ℕ
tag_bytes = 16

-- 8 + 1 + 12
abbrev pub header_bytes : ℕ
header_bytes = 21

-- The messages of the errors.
pub data SecretError : Type 0 where
  size_limit_invalid : SecretError
  exceeds_limit : SecretError
  truncated : SecretError
  invalid_format : SecretError
  unsupported_version : SecretError
  authentication_failed : SecretError
  plaintext_exceeds_limit : SecretError
  randomness_unavailable : SecretError
  encryption_failed : SecretError

pub data Purpose : Type 0 where
  admin_identity : Purpose
  sync_account : Purpose
  sync_catalog : Purpose
  ssh_host : Purpose

-- `attached/local-secret/v1/`
abbrev pub purpose_prefix : Bytes
purpose_prefix =
    b'a' ∷ b't' ∷ b't' ∷ b'a' ∷ b'c' ∷ b'h' ∷ b'e' ∷ b'd' ∷ b'/' ∷ b'l' ∷ b'o' ∷ b'c' ∷ b'a' ∷ b'l'
    ∷ b'-' ∷ b's' ∷ b'e' ∷ b'c' ∷ b'r' ∷ b'e' ∷ b't' ∷ b'/' ∷ b'v' ∷ b'1' ∷ b'/' ∷ []

unfoldable pub aad : Purpose → Bytes
aad admin_identity =
    purpose_prefix
    ++ b'a' ∷ b'd' ∷ b'm' ∷ b'i' ∷ b'n' ∷ b'-' ∷ b'i' ∷ b'd' ∷ b'e' ∷ b'n' ∷ b't' ∷ b'i' ∷ b't'
      ∷ b'y' ∷ []
aad sync_account =
    purpose_prefix
    ++ b's' ∷ b'y' ∷ b'n' ∷ b'c' ∷ b'-' ∷ b'a' ∷ b'c' ∷ b'c' ∷ b'o' ∷ b'u' ∷ b'n' ∷ b't' ∷ []
aad sync_catalog =
    purpose_prefix
    ++ b's' ∷ b'y' ∷ b'n' ∷ b'c' ∷ b'-' ∷ b'c' ∷ b'a' ∷ b't' ∷ b'a' ∷ b'l' ∷ b'o' ∷ b'g' ∷ []
aad ssh_host = purpose_prefix ++ b's' ∷ b's' ∷ b'h' ∷ b'-' ∷ b'h' ∷ b'o' ∷ b's' ∷ b't' ∷ []

unfoldable pub associated_data : Purpose → Bytes
associated_data purpose = magic ++ version ∷ aad purpose

-- `stored_limit`: the length of the envelope of a plaintext at the limit.
unfoldable pub stored_limit : ℕ → ℕ
stored_limit plaintext_limit = header_bytes + plaintext_limit + tag_bytes

unfoldable pub is_envelope : Bytes → Bool
is_envelope bytes = bytes_eq (take 8 bytes) magic

unfoldable pub has_envelope_shape : Bytes → Bool
has_envelope_shape bytes = is_envelope bytes || leb (header_bytes + tag_bytes) (length bytes)

-- The crate chacha20poly1305: of a key, a nonce and associated data.
pub record Aead : Type 0 where
  pub encrypt_in_place : Bytes → Bytes → Bytes → Bytes → Option Bytes
  pub decrypt_in_place : Bytes → Bytes → Bytes → Bytes → Option Bytes

-- `ok_or`, and `context` on an `Option`
abbrev pub context {ℓ} : {A : Type ℓ} → Option A → SecretError → Result SecretError A
context (some a) e = ok a
context none e = err e

-- `usize::checked_add`
abbrev pub checked_add : ℕ → ℕ → Option ℕ
checked_add a b = if ltb (a + b) (2 ^ 64) then some (a + b) else none

-- `HEADER_BYTES.checked_add(…).and_then(…)`
unfoldable pub maximum_length : ℕ → Option ℕ
maximum_length plaintext_limit = elim (checked_add header_bytes plaintext_limit) [
  | none ↦ none
  | some total ↦ checked_add total tag_bytes
]

-- `envelope[MAGIC.len()] == VERSION`, an index that is in range
abbrev pub has_version : Option ℕ → Bool
has_version (some v) = v == version
has_version none = false

unfoldable pub envelope_bytes : Bytes → Bytes → Bytes
envelope_bytes nonce ciphertext = magic ++ version ∷ nonce ++ ciphertext

module _ (aead : Aead) where
  -- `random` is what `getrandom::fill` makes of the nonce.
  unfoldable pub seal : Option Bytes → Bytes → Purpose → Bytes → ℕ → Result SecretError Bytes
  seal random key purpose plaintext plaintext_limit = do
    ensure (leb (length plaintext) plaintext_limit) plaintext_exceeds_limit
    nonce ← context random randomness_unavailable
    ciphertext ←
        context (aead.encrypt_in_place key nonce (associated_data purpose) plaintext)
          encryption_failed
    ok (envelope_bytes nonce ciphertext)

  -- `local_encryption::open`
  unfoldable pub open_secret : Bytes → Purpose → Bytes → ℕ → Result SecretError Bytes
  open_secret key purpose envelope plaintext_limit = do
    maximum ← context (maximum_length plaintext_limit) size_limit_invalid
    ensure (leb (length envelope) maximum) exceeds_limit
    ensure (leb (header_bytes + tag_bytes) (length envelope)) truncated
    ensure (bytes_eq (take 8 envelope) magic) invalid_format
    ensure (has_version (get_elem? envelope 8)) unsupported_version
    let nonce = take nonce_bytes (drop 9 envelope)
    plaintext ←
        context
          (aead.decrypt_in_place key nonce (associated_data purpose) (drop header_bytes envelope))
          authentication_failed
    ensure (leb (length plaintext) plaintext_limit) plaintext_exceeds_limit
    ok plaintext
