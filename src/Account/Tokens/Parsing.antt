-- ===== src/Account/Tokens/Parsing.antt =====
-- crates/session-sync-protocol/src/account.rs: the texts that identifiers and tokens are read from.
use attached.Common.{
  ℕ, true, ◌&&◌, ◌==◌, ==→eq, eq→==, ltb, List, [], ◌∷◌, ◌++◌, length, take, drop, take-append-drop,
  all_of, some, Bytes, bytes_eq, bytes_eq_iff, is_utf8, Result, ok, err, ensure, bind-eq-ok,
  ensure-eq-ok, ◌≡◌, ◌↔◌, refl, sym, ap, ◌∙◌, arith,
}
use attached.Api.Wire.{Base64}
use attached.Api.Wire.Decoding.{Base64Laws}
use attached.Descriptor.Model.{is_ascii}
use attached.Descriptor.Validity.{is_ascii-is_utf8}
use attached.Account.Bundles.{AccountError, invalid_bearer, invalid_authorization}
use attached.Account.Tokens.{
  decoded_or, is_base64_byte, bearer, decode_api_token, as_authorization, parse_authorization_value,
  parse_authorization,
}

-- The text of a token: its base64, of the letters, digits, `-` and `_`.
pub record IsTokenText (base64 : Base64) (text token : Bytes) : Type 0 where
  pub encoded : text ≡ base64.encode token
  pub letters : all_of is_base64_byte text ≡ true
  pub token_len : length token ≡ 32

base64_byte-ascii : (b : ℕ) → is_base64_byte b ≡ true → ltb b 128 ≡ true
base64_byte-ascii b h = ground arith

letters-ascii : (text : Bytes) → all_of is_base64_byte text ≡ true → is_ascii text ≡ true
unfolding is_ascii
letters-ascii [] h = refl
letters-ascii (b ∷ text) h = ground (arith, letters-ascii text)

as_authorization-eq-ok :
    (r : Result AccountError Bytes) (token : Bytes) → as_authorization r ≡ ok token → r ≡ ok token
as_authorization-eq-ok (ok t) token h = h
as_authorization-eq-ok (err e) token h = cc

module _ {base64 : Base64} (laws : Base64Laws base64) where
  decode_api_token-eq-ok :
      (text token : Bytes) → decode_api_token base64 text ≡ ok token → IsTokenText base64 text token
  unfolding decode_api_token
  decode_api_token-eq-ok text token h =
      let (_, shape, h₁) =
        bind-eq-ok (ensure (length text == 43 && all_of is_base64_byte text) invalid_bearer) _ h in
      let (decoded, _, h₂) =
        bind-eq-ok (decoded_or invalid_bearer (base64.decode_slice text 32)) _ h₁ in
      let (_, same, h₃) =
        bind-eq-ok
          (ensure (length decoded == 32 && bytes_eq (base64.encode decoded) text) invalid_bearer) _
          h₂ in
      let returned : decoded ≡ token = cc in
      let shape' = ensure-eq-ok _ invalid_bearer shape in
      let same' = ensure-eq-ok _ invalid_bearer same in
      record {
        encoded =
            sym ((bytes_eq_iff (base64.encode decoded) text).0 (ground arith))
            ∙ ap base64.encode returned;
        letters = ground arith;
        token_len = ap length (sym returned) ∙ ==→eq (length decoded) 32 (ground arith);
      }

  decode_api_token_ok :
      (text token : Bytes) → IsTokenText base64 text token → decode_api_token base64 text ≡ ok token
  unfolding decode_api_token
  decode_api_token_ok text token t =
      let len : length text ≡ 43 =
        ap length t.encoded ∙ laws.encode_length token ∙ omega (arith, t.token_len) in
      let read : base64.decode_slice text 32 ≡ some token =
        ap (λ (x : Bytes). base64.decode_slice x 32) t.encoded
        ∙ laws.decode_encode token 32 (omega (arith, t.token_len)) in
      let again : bytes_eq (base64.encode token) text ≡ true =
        (bytes_eq_iff (base64.encode token) text).1 (sym t.encoded) in
      rw (eq→== (length text) 43 len, t.letters, read, eq→== (length token) 32 t.token_len, again)
        refl

  parse_value-eq-ok :
      (value token : Bytes)
      → parse_authorization_value base64 value ≡ ok token
      → (text : Bytes) × (value ≡ bearer ++ text) × IsTokenText base64 text token
  unfolding parse_authorization_value
  parse_value-eq-ok value token h =
      let (_, shape, h₁) =
        bind-eq-ok
          (ensure (length value == 50 && bytes_eq (take 7 value) bearer) invalid_authorization) _
          h in
      let (_, _, h₂) = bind-eq-ok (ensure (is_utf8 (drop 7 value)) invalid_authorization) _ h₁ in
      let shape' = ensure-eq-ok _ invalid_authorization shape in
      let front : take 7 value ≡ bearer = (bytes_eq_iff (take 7 value) bearer).0 (ground arith) in
      let bare = as_authorization-eq-ok (decode_api_token base64 (drop 7 value)) token h₂ in
      (
        drop 7 value,
        sym (take-append-drop 7 value) ∙ ap (λ (x : Bytes). x ++ drop 7 value) front,
        decode_api_token-eq-ok (drop 7 value) token bare,
      )

  parse_value_ok :
      (text token : Bytes)
      → IsTokenText base64 text token
      → parse_authorization_value base64 (bearer ++ text) ≡ ok token
  unfolding parse_authorization_value bytes_eq
  parse_value_ok text token t =
      let len : length text ≡ 43 =
        ap length t.encoded ∙ laws.encode_length token ∙ omega (arith, t.token_len) in
      let whole : length (bearer ++ text) ≡ 50 = omega arith in
      rw
        (
          eq→== (length (bearer ++ text)) 50 whole,
          is_ascii-is_utf8 text (letters-ascii text t.letters),
        )
        (ap as_authorization (decode_api_token_ok text token t))

  one_value :
      (values : List Bytes) (token : Bytes)
      → parse_authorization base64 values ≡ ok token
      → (text : Bytes) × (values ≡ (bearer ++ text) ∷ []) × IsTokenText base64 text token
  unfolding parse_authorization
  one_value [] token h = cc
  one_value (value ∷ []) token h =
      let (text, same, t) = parse_value-eq-ok value token h in
      (text, ap (λ (x : Bytes). x ∷ []) same, t)
  one_value (_ ∷ _ ∷ _) token h = cc

  -- A token is read from header values exactly when there is one value, which is `Bearer ` and the
  -- text of the token: its base64, of letters, digits, `-` and `_`, for a token of 32 bytes.
  pub parse_authorization_iff :
      (values : List Bytes) (token : Bytes)
      → (parse_authorization base64 values ≡ ok token)
        ↔ ((text : Bytes) × (values ≡ (bearer ++ text) ∷ []) × IsTokenText base64 text token)
  unfolding parse_authorization
  parse_authorization_iff values token = (
    one_value values token,
    λ h.
        let (text, same, t) = h in
        ap (parse_authorization base64) same ∙ parse_value_ok text token t,
  )
