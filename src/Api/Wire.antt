-- ===== src/Api/Wire.antt =====
-- crates/session-sync-protocol/src/api.rs: the text form of an envelope, in base64 without padding.
pub mod Decoding
pub mod Padded
use attached.Common.{
  ℕ, ◌*◌, ◌/◌, ◌^◌, Bool, not, ltb, ◌==◌, if◌then◌else◌, length, Bytes, bytes_eq, Option, none,
  some, Result, ok, err, ◌>>=◌, ◌>>◌, ensure,
}
use attached.Api.Envelope.{
  ApiError, invalid_request, too_large, Envelope, new_envelope, max_ciphertext_bytes,
}

-- `URL_SAFE_NO_PAD` of the crate base64.
pub record Base64 : Type 0 where
  pub encode : Bytes → Bytes
  -- what `decode_slice` writes to a buffer of the given length
  pub decode_slice : Bytes → ℕ → Option Bytes
  -- what `decode` returns
  pub decode : Bytes → Option Bytes

abbrev pub nonce_bytes : ℕ
nonce_bytes = 24

-- `(MAX_CIPHERTEXT_BYTES * 4).div_ceil(3)`
abbrev pub max_ciphertext_text_len : ℕ
max_ciphertext_text_len = 87_723

pub record EnvelopeWire : Type 0 where
  pub version : ℕ
  pub nonce : Bytes
  pub ciphertext : Bytes

-- `map_err(|_| InvalidRequest)?`
abbrev pub or_invalid : Option Bytes → Result ApiError Bytes
or_invalid (some bytes) = ok bytes
or_invalid none = err invalid_request

abbrev pub max_api_body_bytes : ℕ
max_api_body_bytes = 98_304

-- `map_err` on what the JSON crate returns.
abbrev pub parsed : Option EnvelopeWire → Result ApiError EnvelopeWire
parsed (some wire) = ok wire
parsed none = err invalid_request

-- `parse_bounded`, over the JSON crate on the fields of an envelope.
unfoldable pub parse_bounded : (Bytes → Option EnvelopeWire) → Bytes → Result ApiError EnvelopeWire
parse_bounded json input = do
  ensure (not (ltb max_api_body_bytes (length input))) too_large
  parsed (json input)

module _ (base64 : Base64) where
  unfoldable pub canonical_matches : Bytes → Bytes → Bool
  canonical_matches value bytes = bytes_eq (base64.encode bytes) value

  unfoldable pub decode_fixed : ℕ → Bytes → Result ApiError Bytes
  decode_fixed n value = do
    decoded ← or_invalid (base64.decode_slice value n)
    ensure (length decoded == n) invalid_request
    ensure (canonical_matches value decoded) invalid_request
    ok decoded

  -- `checked_mul` on `usize`, of 64 bits.
  unfoldable pub decode_vec : Bytes → ℕ → Result ApiError Bytes
  decode_vec value max = do
    ensure (ltb (length value * 3) (2 ^ 64)) too_large
    let upper = length value * 3 / 4
    ensure (not (ltb max upper)) too_large
    decoded ← or_invalid (base64.decode_slice value upper)
    ensure (canonical_matches value decoded) invalid_request
    ok decoded

  unfoldable pub decode_wire : EnvelopeWire → Result ApiError Envelope
  decode_wire wire = do
    ensure (wire.version == 1) invalid_request
    nonce ← decode_fixed nonce_bytes wire.nonce
    ensure (not (ltb max_ciphertext_text_len (length wire.ciphertext))) too_large
    ciphertext ← decode_vec wire.ciphertext max_ciphertext_bytes
    new_envelope nonce ciphertext

  -- `Envelope::parse_json`
  unfoldable pub parse_json : (Bytes → Option EnvelopeWire) → Bytes → Result ApiError Envelope
  parse_json json input = do wire ← parse_bounded json input; decode_wire wire
