-- ===== src/Account/Tokens/Identifiers.antt =====
-- crates/session-sync-protocol/src/account.rs: the one text of a record identifier.
use attached.Common.{
  true, ◌&&◌, ◌==◌, ==→eq, eq→==, length, some, Bytes, bytes_eq, bytes_eq_iff, ok, ensure,
  bind-eq-ok, ensure-eq-ok, ◌≡◌, ◌↔◌, refl, sym, ap, ◌∙◌, arith,
}
use attached.Api.Wire.{Base64}
use attached.Api.Wire.Decoding.{Base64Laws}
use attached.Account.Bundles.{invalid_identifier}
use attached.Account.Tokens.{decoded_or, is_unpadded, parse_record_id}

-- The text is the base64 of 16 bytes, without padding.
pub record IsRecordText (base64 : Base64) (text id : Bytes) : Type 0 where
  pub encoded : text ≡ base64.encode id
  pub unpadded : is_unpadded text ≡ true
  pub id_len : length id ≡ 16

module _ {base64 : Base64} (laws : Base64Laws base64) where
  parse_record_id-eq-ok :
      (text id : Bytes) → parse_record_id base64 text ≡ ok id → IsRecordText base64 text id
  unfolding parse_record_id
  parse_record_id-eq-ok text id h =
      let (_, shape, h₁) =
        bind-eq-ok (ensure (length text == 22 && is_unpadded text) invalid_identifier) _ h in
      let (decoded, _, h₂) = bind-eq-ok (decoded_or invalid_identifier (base64.decode text)) _ h₁ in
      let (_, sized, h₃) = bind-eq-ok (ensure (length decoded == 16) invalid_identifier) _ h₂ in
      let (_, same, h₄) =
        bind-eq-ok (ensure (bytes_eq (base64.encode decoded) text) invalid_identifier) _ h₃ in
      let returned : decoded ≡ id = cc in
      let shape' = ensure-eq-ok _ invalid_identifier shape in
      record {
        encoded =
            sym (
              (bytes_eq_iff (base64.encode decoded) text).0
                (ensure-eq-ok _ invalid_identifier same))
            ∙ ap base64.encode returned;
        unpadded = ground arith;
        id_len =
            ap length (sym returned)
            ∙ ==→eq (length decoded) 16 (ensure-eq-ok _ invalid_identifier sized);
      }

  parse_record_id_ok :
      (text id : Bytes) → IsRecordText base64 text id → parse_record_id base64 text ≡ ok id
  unfolding parse_record_id
  parse_record_id_ok text id t =
      let len : length text ≡ 22 =
        ap length t.encoded ∙ laws.encode_length id ∙ omega (arith, t.id_len) in
      let read : base64.decode text ≡ some id = ap base64.decode t.encoded ∙ laws.decode_whole id in
      let again : bytes_eq (base64.encode id) text ≡ true =
        (bytes_eq_iff (base64.encode id) text).1 (sym t.encoded) in
      rw (eq→== (length text) 22 len, t.unpadded, read, eq→== (length id) 16 t.id_len, again) refl

  -- A record identifier is read from a text exactly when the text is the base64 of its 16 bytes and
  -- has no padding: no other text is accepted.
  pub parse_record_id_iff :
      (text id : Bytes) → (parse_record_id base64 text ≡ ok id) ↔ IsRecordText base64 text id
  parse_record_id_iff text id = (parse_record_id-eq-ok text id, parse_record_id_ok text id)
