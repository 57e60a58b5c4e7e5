-- ===== src/Sealing.antt =====
-- crates/session-sync-protocol/src/crypto.rs: descriptors sealed in envelopes.
pub mod Making
pub mod Opening
pub mod Binding
pub mod Small
mod Examples
use attached.Common.{
  ℕ, Bool, not, ◌&&◌, ◌||◌, ltb, if◌then◌else◌, List, [], ◌∷◌, ◌++◌, length, Option, Bytes,
  to_be_bytes, Result, ok, err, ◌>>=◌, ◌>>◌, ensure,
}
use attached.Api.Envelope.{max_ciphertext_bytes}
use attached.Descriptor.Cbor.{
  HostAccessError, limit, invalid_field, decryption, expired, nonce_reuse,
}
use attached.Descriptor.Outside.{Outside}
use attached.Descriptor.Model.{HostAccessDescriptor, ok_or, encode_host_access_descriptor}
use attached.Descriptor.Decoding.{decode_host_access_descriptor}

abbrev pub envelope_version : ℕ
envelope_version = 1

abbrev pub max_future_clock_skew : ℕ
max_future_clock_skew = 60

abbrev pub key_info : Bytes
key_info =
    b'a' ∷ b't' ∷ b't' ∷ b'a' ∷ b'c' ∷ b'h' ∷ b'e' ∷ b'd' ∷ b'/' ∷ b'h' ∷ b'o' ∷ b's' ∷ b't' ∷ b'-'
    ∷ b's' ∷ b'y' ∷ b'n' ∷ b'c' ∷ b'/' ∷ b'd' ∷ b'e' ∷ b's' ∷ b'c' ∷ b'r' ∷ b'i' ∷ b'p' ∷ b't'
    ∷ b'o' ∷ b'r' ∷ b'-' ∷ b'a' ∷ b'e' ∷ b'a' ∷ b'd' ∷ b'-' ∷ b'k' ∷ b'e' ∷ b'y' ∷ b'/' ∷ b'v'
    ∷ b'1' ∷ 0 ∷ []

abbrev pub aad_domain : Bytes
aad_domain =
    b'a' ∷ b't' ∷ b't' ∷ b'a' ∷ b'c' ∷ b'h' ∷ b'e' ∷ b'd' ∷ b'/' ∷ b'h' ∷ b'o' ∷ b's' ∷ b't' ∷ b'-'
    ∷ b's' ∷ b'y' ∷ b'n' ∷ b'c' ∷ b'/' ∷ b'e' ∷ b'n' ∷ b'v' ∷ b'e' ∷ b'l' ∷ b'o' ∷ b'p' ∷ b'e'
    ∷ b'-' ∷ b'a' ∷ b'a' ∷ b'd' ∷ b'/' ∷ b'v' ∷ b'1' ∷ 0 ∷ []

pub record Envelope : Type 0 where
  pub nonce : Bytes
  pub ciphertext : Bytes

-- `Envelope::new`
unfoldable pub envelope_of : Bytes → Bytes → Result HostAccessError Envelope
envelope_of nonce ciphertext =
    if ltb max_ciphertext_bytes (length ciphertext)
    then err limit
    else ok (record { nonce = nonce; ciphertext = ciphertext })

-- The crates hkdf and chacha20poly1305.
pub record Cipher : Type 0 where
  -- `Hkdf::<Sha256>::new(Some(salt), key).expand(info, …)` to 32 bytes
  pub expand : Bytes → Bytes → Bytes → Option Bytes
  -- of a key, a nonce and associated data
  pub encrypt_in_place : Bytes → Bytes → Bytes → Bytes → Option Bytes
  pub decrypt_in_place : Bytes → Bytes → Bytes → Bytes → Option Bytes

unfoldable pub derive_host_access_descriptor_key :
    Cipher → Bytes → Bytes → Result HostAccessError Bytes
derive_host_access_descriptor_key cipher account_root_key account_id =
    ok_or (cipher.expand account_id account_root_key key_info) invalid_field

unfoldable pub envelope_aad : Bytes → Bytes → Bytes
envelope_aad account_id record_id =
    aad_domain ++ account_id ++ record_id ++ to_be_bytes 2 envelope_version

pub record VerificationContext (o : Outside) : Type 0 where
  pub account_id : Bytes
  pub record_id : Bytes
  pub now : o.DateTime

-- `checked_add_signed`, by seconds.
abbrev pub CheckedAdd : Outside → Type 0
CheckedAdd o = o.DateTime → ℕ → Option o.DateTime

module _ (o : Outside) (cipher : Cipher) where
  unfoldable pub seal_host_access_descriptor_with_nonce :
      HostAccessDescriptor o → Bytes → Bytes → Bytes → Bytes → Result HostAccessError Envelope
  seal_host_access_descriptor_with_nonce descriptor account_root_key account_id record_id nonce = do
    plaintext ← encode_host_access_descriptor o descriptor
    key ← derive_host_access_descriptor_key cipher account_root_key account_id
    ciphertext ←
        ok_or (cipher.encrypt_in_place key nonce (envelope_aad account_id record_id) plaintext)
          decryption
    envelope_of nonce ciphertext

  -- On the nonce that `try_generate` gives.
  unfoldable pub seal_host_access_descriptor :
      Option Bytes
      → HostAccessDescriptor o
      → Bytes
      → Bytes
      → Bytes
      → Result HostAccessError Envelope
  seal_host_access_descriptor generated descriptor account_root_key account_id record_id = do
    nonce ← ok_or generated nonce_reuse
    seal_host_access_descriptor_with_nonce descriptor account_root_key account_id record_id nonce

  -- `issued_at > maximum_issued_at || now >= expires_at`; chrono orders all times.
  unfoldable pub is_out_of_time : HostAccessDescriptor o → o.DateTime → o.DateTime → Bool
  is_out_of_time descriptor maximum_issued_at now =
      not (o.is_ge maximum_issued_at descriptor.issued_at) || o.is_ge now descriptor.expires_at

  unfoldable pub open_host_access_descriptor :
      CheckedAdd o
      → Envelope
      → Bytes
      → VerificationContext o
      → Result HostAccessError (HostAccessDescriptor o)
  open_host_access_descriptor checked_add envelope account_root_key context = do
    ensure (not (ltb max_ciphertext_bytes (length envelope.ciphertext))) limit
    key ← derive_host_access_descriptor_key cipher account_root_key context.account_id
    plaintext ←
        ok_or
          (cipher.decrypt_in_place key envelope.nonce
            (envelope_aad context.account_id context.record_id) envelope.ciphertext)
          decryption
    descriptor ← decode_host_access_descriptor o plaintext
    maximum_issued_at ← ok_or (checked_add context.now max_future_clock_skew) invalid_field
    ensure (not (is_out_of_time descriptor maximum_issued_at context.now)) expired
    ok descriptor
