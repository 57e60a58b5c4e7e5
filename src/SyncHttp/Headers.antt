-- ===== src/SyncHttp/Headers.antt =====
-- crates/cli/src/sync/http.rs: the ETag and the envelope of an answer.
use attached.Common.{
  ℕ, ◌^◌, ◌≤◌, ◌<◌, Bool, true, false, not, ◌||◌, ltb, ◌==◌, le→ltb_false, if◌then◌else◌, [], ◌∷◌,
  ◌++◌, length, all_of, Option, none, some, Bytes, within, print_decimal-IsNumeral, ok, ensure,
  bind-eq-ok, ◌≡◌, refl, sym, ap, ◌∙◌, arith,
}
use attached.Api.Envelope.{too_large, Envelope}
use attached.Api.Wire.{parsed as read, EnvelopeWire, max_api_body_bytes, parse_json, parse_bounded}
use attached.Api.Wire.Decoding.{Base64Laws, IsTextOf, decode_wire_iff}
use attached.SyncHttp.{missing_etag, invalid_etag, HttpResponse, Web}
use attached.SyncHttp.Reading.{present, response_revision}
use attached.SyncHttp.Revision.{quoted, present-eq-ok, revision_of_iff}

-- `is_visible_ascii` of the crate http
abbrev pub is_visible : ℕ → Bool
is_visible b = within 32 126 b || b == 9

-- What the crates http and base64 document: a header value is a text if all its bytes are visible.
pub record WebLaws (web : Web) : Type 0 where
  pub visible :
      (value : Bytes) → web.to_str value ≡ (if all_of is_visible value then some value else none)
  pub base64 : Base64Laws web.base64

quoted_visible : (n : ℕ) → 1 ≤ n → n < 2 ^ 63 → all_of is_visible (quoted n) ≡ true
quoted_visible n some_n small =
    let v = print_decimal-IsNumeral 19 n some_n (omega arith) in
    rw v.shape (shown v.first v.others v.low v.high v.digits)
  where
    quote_after :
        (ds : Bytes)
        → all_of (within b'0' b'9') ds ≡ true
        → all_of is_visible (ds ++ b'"' ∷ []) ≡ true
    quote_after [] h = refl
    quote_after (d ∷ ds) h = ground (arith, quote_after ds)

    shown :
        (b : ℕ) (ds : Bytes)
        → 49 ≤ b
        → b ≤ 57
        → all_of (within b'0' b'9') ds ≡ true
        → all_of is_visible (b'"' ∷ (b ∷ ds ++ b'"' ∷ [])) ≡ true
    shown b ds low high h = ground (arith, quote_after ds h)

module _ {web : Web} (laws : WebLaws web) (response : HttpResponse) where
  to_str-eq : (value text : Bytes) → web.to_str value ≡ some text → value ≡ text
  to_str-eq value text h = by_test (all_of is_visible value) (sym (laws.visible value) ∙ h)
    where
      by_test : (b : Bool) → (if b then some value else none) ≡ some text → value ≡ text
      by_test true e = cc
      by_test false e = cc

  pub response_revision-eq-ok :
      (n : ℕ)
      → response_revision web response ≡ ok n
      → (response.etag ≡ some (quoted n)) × (1 ≤ n) × (n < 2 ^ 63)
  unfolding response_revision
  response_revision-eq-ok n h =
      let (header, there, h₁) = bind-eq-ok (present response.etag missing_etag) _ h in
      let (value, text, h₂) = bind-eq-ok (present (web.to_str header) invalid_etag) _ h₁ in
      let (value_eq, some_n, small) = (revision_of_iff value n).0 h₂ in
      let same = to_str-eq header value (present-eq-ok _ invalid_etag value text) in
      (present-eq-ok _ missing_etag header there ∙ ap some (same ∙ value_eq), some_n, small)

  pub response_revision_ok :
      (n : ℕ)
      → response.etag ≡ some (quoted n)
      → 1 ≤ n
      → n < 2 ^ 63
      → response_revision web response ≡ ok n
  unfolding response_revision
  response_revision_ok n there some_n small =
      let text : web.to_str (quoted n) ≡ some (quoted n) =
        laws.visible (quoted n) ∙ rw (quoted_visible n some_n small) refl in
      rw (there, text) ((revision_of_iff (quoted n) n).1 (refl, some_n, small))

  pub parse_json-eq-ok :
      (body : Bytes) (e : Envelope)
      → parse_json web.base64 web.envelope_json body ≡ ok e
      → (wire : EnvelopeWire) × (web.envelope_json body ≡ some wire) × IsTextOf web.base64 wire e
  unfolding parse_json parse_bounded
  parse_json-eq-ok body e h =
      let (wire, bounded, h₁) = bind-eq-ok (parse_bounded web.envelope_json body) _ h in
      let (_, _, h₂) =
        bind-eq-ok (ensure (not (ltb max_api_body_bytes (length body))) too_large) _ bounded in
      (
        wire,
        parsed-eq-ok (web.envelope_json body) wire h₂,
        (decode_wire_iff laws.base64 wire e).0 h₁,
      )
    where
      parsed-eq-ok :
          (x : Option EnvelopeWire) (wire : EnvelopeWire) → read x ≡ ok wire → x ≡ some wire
      parsed-eq-ok none wire h = cc
      parsed-eq-ok (some w) wire h = cc

  pub parse_json_ok :
      (body : Bytes) (wire : EnvelopeWire) (e : Envelope)
      → length body ≤ max_api_body_bytes
      → web.envelope_json body ≡ some wire
      → IsTextOf web.base64 wire e
      → parse_json web.base64 web.envelope_json body ≡ ok e
  unfolding parse_json parse_bounded
  parse_json_ok body wire e fits there text =
      rw (le→ltb_false max_api_body_bytes (length body) fits, there)
        ((decode_wire_iff laws.base64 wire e).1 text)
