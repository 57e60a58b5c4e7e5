-- ===== src/Api/Wire/Decoding.antt =====
-- crates/session-sync-protocol/src/api.rs: each envelope has one accepted text form.
use mathlib.Core.Path.{subst}
use attached.Common.{
  ℕ, ◌+◌, ◌*◌, ◌/◌, ◌^◌, ◌<◌, ◌≤◌, true, not, ltb, ◌==◌, ==→eq, eq→==, lt→ltb, le→ltb_false, length,
  Bytes, bytes_eq_iff, bytes_eq_refl, ◌≡◌, ◌↔◌, refl, sym, ap, ◌∙◌, some, ok, ensure, bind-eq-ok,
  ensure-eq-ok, arith,
}
use attached.Api.Envelope.{invalid_request, too_large, Envelope, new_envelope, max_ciphertext_bytes}
use attached.Api.Wire.{
  Base64, nonce_bytes, max_ciphertext_text_len, EnvelopeWire, or_invalid, canonical_matches,
  decode_fixed, decode_vec, decode_wire,
}

-- Base64 without padding writes four characters for three bytes, and reads what it writes into a
-- buffer that is long enough.
pub record Base64Laws (base64 : Base64) : Type 0 where
  pub decode_encode :
      (bytes : Bytes) (room : ℕ)
      → length bytes ≤ room
      → base64.decode_slice (base64.encode bytes) room ≡ some bytes
  pub decode_whole : (bytes : Bytes) → base64.decode (base64.encode bytes) ≡ some bytes
  pub encode_length : (bytes : Bytes) → length (base64.encode bytes) ≡ (length bytes * 4 + 2) / 3

module _ {base64 : Base64} (laws : Base64Laws base64) where
  canonical-eq :
      (value bytes : Bytes)
      → canonical_matches base64 value bytes ≡ true
      → value ≡ base64.encode bytes
  unfolding canonical_matches
  canonical-eq value bytes h = sym ((bytes_eq_iff (base64.encode bytes) value).0 h)

  canonical_written : (bytes : Bytes) → canonical_matches base64 (base64.encode bytes) bytes ≡ true
  unfolding canonical_matches
  canonical_written bytes = bytes_eq_refl (base64.encode bytes)

  decode_fixed-eq-ok :
      (n : ℕ) (value bytes : Bytes)
      → decode_fixed base64 n value ≡ ok bytes
      → (value ≡ base64.encode bytes) × (length bytes ≡ n)
  unfolding decode_fixed
  decode_fixed-eq-ok n value bytes h =
      let (decoded, _, h₁) = bind-eq-ok (or_invalid (base64.decode_slice value n)) _ h in
      let (_, len, h₂) = bind-eq-ok (ensure (length decoded == n) invalid_request) _ h₁ in
      let (_, same, h₃) =
        bind-eq-ok (ensure (canonical_matches base64 value decoded) invalid_request) _ h₂ in
      let returned : decoded ≡ bytes = cc in
      (
        canonical-eq value decoded (ensure-eq-ok _ invalid_request same)
            ∙ ap base64.encode returned,
        ap length (sym returned) ∙ ==→eq (length decoded) n (ensure-eq-ok _ invalid_request len),
      )

  decode_fixed_ok :
      (bytes : Bytes) → decode_fixed base64 (length bytes) (base64.encode bytes) ≡ ok bytes
  unfolding decode_fixed
  decode_fixed_ok bytes =
      rw
        (
          laws.decode_encode bytes (length bytes) (omega arith),
          eq→== (length bytes) (length bytes) refl,
          canonical_written bytes,
        )
        refl

  decode_vec-eq-ok :
      (value : Bytes) (max : ℕ) (bytes : Bytes)
      → decode_vec base64 value max ≡ ok bytes
      → (value ≡ base64.encode bytes) × (length bytes ≤ max)
  unfolding decode_vec
  decode_vec-eq-ok value max bytes h =
      let (_, _, h₁) = bind-eq-ok (ensure (ltb (length value * 3) (2 ^ 64)) too_large) _ h in
      let (_, room, h₂) =
        bind-eq-ok (ensure (not (ltb max (length value * 3 / 4))) too_large) _ h₁ in
      let (decoded, _, h₃) =
        bind-eq-ok (or_invalid (base64.decode_slice value (length value * 3 / 4))) _ h₂ in
      let (_, same, h₄) =
        bind-eq-ok (ensure (canonical_matches base64 value decoded) invalid_request) _ h₃ in
      let returned : decoded ≡ bytes = cc in
      let written : value ≡ base64.encode bytes =
        canonical-eq value decoded (ensure-eq-ok _ invalid_request same)
        ∙ ap base64.encode returned in
      let len : length value ≡ (length bytes * 4 + 2) / 3 =
        ap length written ∙ laws.encode_length bytes in
      let fits : length value * 3 / 4 ≤ max = ground (arith, ensure-eq-ok _ too_large room) in
      (written, omega arith)

  decode_vec_ok :
      (bytes : Bytes) (max : ℕ)
      → length bytes ≤ max
      → max < 2 ^ 60
      → decode_vec base64 (base64.encode bytes) max ≡ ok bytes
  unfolding decode_vec
  decode_vec_ok bytes max fits small =
      let len = laws.encode_length bytes in
      let upper : length (base64.encode bytes) * 3 / 4 ≡ length bytes = omega arith in
      rw
        (
          lt→ltb (length (base64.encode bytes) * 3) (2 ^ 64) (omega arith),
          upper,
          le→ltb_false max (length bytes) fits,
          laws.decode_encode bytes (length bytes) (omega arith),
          canonical_written bytes,
        )
        refl

-- The text forms of an envelope: the fields that `Serialize` writes.
pub record IsTextOf (base64 : Base64) (wire : EnvelopeWire) (e : Envelope) : Type 0 where
  pub wire_version : wire.version ≡ 1
  pub envelope_version : e.envelope_version ≡ 1
  pub nonce_text : wire.nonce ≡ base64.encode e.nonce
  pub ciphertext_text : wire.ciphertext ≡ base64.encode e.ciphertext
  pub nonce_len : length e.nonce ≡ nonce_bytes
  pub ciphertext_len : length e.ciphertext ≤ max_ciphertext_bytes

module _ {base64 : Base64} (laws : Base64Laws base64) (wire : EnvelopeWire) (e : Envelope) where
  decode_wire-eq-ok : decode_wire base64 wire ≡ ok e → IsTextOf base64 wire e
  unfolding decode_wire new_envelope
  decode_wire-eq-ok h =
      let (_, version, h₁) = bind-eq-ok (ensure (wire.version == 1) invalid_request) _ h in
      let (nonce, n, h₂) = bind-eq-ok (decode_fixed base64 nonce_bytes wire.nonce) _ h₁ in
      let (_, _, h₃) =
        bind-eq-ok (ensure (not (ltb max_ciphertext_text_len (length wire.ciphertext))) too_large) _
          h₂ in
      let (ciphertext, c, h₄) =
        bind-eq-ok (decode_vec base64 wire.ciphertext max_ciphertext_bytes) _ h₃ in
      let (n_text, n_len) = decode_fixed-eq-ok laws nonce_bytes wire.nonce nonce n in
      let (c_text, c_len) =
        decode_vec-eq-ok laws wire.ciphertext max_ciphertext_bytes ciphertext c in
      let made : record { envelope_version = 1; nonce = nonce; ciphertext = ciphertext } ≡ e =
        ground arith in
      subst (IsTextOf base64 wire) made (record {
        wire_version = ==→eq wire.version 1 (ensure-eq-ok _ invalid_request version);
        envelope_version = refl;
        nonce_text = n_text;
        ciphertext_text = c_text;
        nonce_len = n_len;
        ciphertext_len = c_len;
      })

  decode_wire_ok : IsTextOf base64 wire e → decode_wire base64 wire ≡ ok e
  unfolding decode_wire new_envelope
  decode_wire_ok t =
      let nonce : decode_fixed base64 nonce_bytes wire.nonce ≡ ok e.nonce =
        ap (λ (n : ℕ). decode_fixed base64 n wire.nonce) (sym t.nonce_len)
        ∙ ap (decode_fixed base64 (length e.nonce)) t.nonce_text
        ∙ decode_fixed_ok laws e.nonce in
      let ciphertext : decode_vec base64 wire.ciphertext max_ciphertext_bytes ≡ ok e.ciphertext =
        ap (λ (c : Bytes). decode_vec base64 c max_ciphertext_bytes) t.ciphertext_text
        ∙ decode_vec_ok laws e.ciphertext max_ciphertext_bytes t.ciphertext_len (omega arith) in
      let len : length wire.ciphertext ≡ (length e.ciphertext * 4 + 2) / 3 =
        ap length t.ciphertext_text ∙ laws.encode_length e.ciphertext in
      let most = t.ciphertext_len in
      rw
        (
          t.wire_version,
          nonce,
          le→ltb_false max_ciphertext_text_len (length wire.ciphertext) (omega arith),
          ciphertext,
          le→ltb_false max_ciphertext_bytes (length e.ciphertext) most,
        )
        (λ i. ok (record {
          envelope_version = sym t.envelope_version i;
          nonce = e.nonce;
          ciphertext = e.ciphertext;
        }))

-- The text of an envelope is accepted exactly when its version is 1 and its two fields are the
-- base64 of a nonce of 24 bytes and of a ciphertext within the limit: no other spelling is.
pub decode_wire_iff :
    {base64 : Base64} (laws : Base64Laws base64) (wire : EnvelopeWire) (e : Envelope)
    → (decode_wire base64 wire ≡ ok e) ↔ IsTextOf base64 wire e
decode_wire_iff laws wire e = (decode_wire-eq-ok laws wire e, decode_wire_ok laws wire e)
