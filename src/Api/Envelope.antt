-- ===== src/Api/Envelope.antt =====
-- crates/session-sync-protocol/src/api.rs: encrypted envelopes.
use attached.Common.{ℕ, ltb, if◌then◌else◌, length, Bytes, Result, ok, err}

abbrev pub max_ciphertext_bytes : ℕ
max_ciphertext_bytes = 65_792

pub data ApiError : Type 0 where
  invalid_request too_large : ApiError

pub record Envelope : Type 0 where
  pub envelope_version : ℕ
  pub nonce : Bytes
  pub ciphertext : Bytes

-- `Envelope::new`
unfoldable pub new_envelope : Bytes → Bytes → Result ApiError Envelope
new_envelope nonce ciphertext =
    if ltb max_ciphertext_bytes (length ciphertext)
    then err too_large
    else ok (record { envelope_version = 1; nonce = nonce; ciphertext = ciphertext })
