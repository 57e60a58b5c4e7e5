-- ===== src/SyncHttp/Fetched.antt =====
-- crates/cli/src/sync/http.rs: the answers from which a record is fetched.
use mathlib.Core.Path.{subst}
use attached.Common.{
  ℕ, ◌^◌, ◌≤◌, ◌<◌, true, ◌==◌, ==→eq, Bool-cases, inl, inr, Option, none, some, Bytes, Result, ok,
  err, ensure, bind-eq-ok, ensure-eq-ok, ◌≡◌, ◌≢◌, ◌↔◌, refl, sym, ◌∙◌, arith,
}
use attached.Api.Envelope.{ApiError, Envelope}
use attached.Api.Wire.{parsed as read, EnvelopeWire, max_api_body_bytes, parse_json}
use attached.Api.Wire.Decoding.{IsTextOf}
use attached.Catalog.Fetch.{FetchedRecord}
use attached.SyncHttp.{HttpError, unexpected_content_type, HttpResponse, Web}
use attached.SyncHttp.Reading.{
  bounded_response, has_json, ensure_json, response_revision, service_error,
}
use attached.SyncHttp.Calls.{parsed, get_found, found, get_response}
use attached.SyncHttp.Revision.{quoted}
use attached.SyncHttp.Bodies.{IsBody, bounded_response_iff}
use attached.SyncHttp.Headers.{
  WebLaws, response_revision-eq-ok, response_revision_ok, parse_json-eq-ok, parse_json_ok,
}

module _ (web : Web) where
  -- The answers that a record is read from.
  pub record IsFetched (response : HttpResponse) (f : FetchedRecord) : Type 0 where
    pub found_status : response.status ≡ 200
    pub json : has_json web response ≡ true
    pub tagged : response.etag ≡ some (quoted f.revision)
    pub revision_some : 1 ≤ f.revision
    pub revision_small : f.revision < 2 ^ 63
    pub body : Bytes
    pub whole_body : IsBody response max_api_body_bytes body
    pub wire : EnvelopeWire
    pub read : web.envelope_json body ≡ some wire
    pub text : IsTextOf web.base64 wire f.envelope

module _ {web : Web} (laws : WebLaws web) (response : HttpResponse) where
  get_found-eq-ok :
      (f : FetchedRecord)
      → response.status ≡ 200
      → get_found web response ≡ ok f
      → IsFetched web response f
  unfolding get_found ensure_json
  get_found-eq-ok f status h =
      let (_, json, h₁) = bind-eq-ok (ensure (has_json web response) unexpected_content_type) _ h in
      let (n, tag, h₂) = bind-eq-ok (response_revision web response) _ h₁ in
      let (body, bounded, h₃) = bind-eq-ok (bounded_response response max_api_body_bytes) _ h₂ in
      let (e, envelope, h₄) =
        bind-eq-ok (parsed (parse_json web.base64 web.envelope_json body)) _ h₃ in
      let (tagged, some_n, small) = response_revision-eq-ok laws response n tag in
      let (wire, read, text) = parse_json-eq-ok laws response body e (parsed-eq-ok _ e envelope) in
      subst (IsFetched web response) (made e n h₄) (record {
        found_status = status;
        json = ensure-eq-ok _ unexpected_content_type json;
        tagged = tagged;
        revision_some = some_n;
        revision_small = small;
        body = body;
        whole_body =
            (bounded_response_iff response max_api_body_bytes body (omega arith)).0 bounded;
        wire = wire;
        read = read;
        text = text;
      })
    where
      parsed-eq-ok : (x : Result ApiError Envelope) (e : Envelope) → parsed x ≡ ok e → x ≡ ok e
      parsed-eq-ok (ok a) e h = cc
      parsed-eq-ok (err a) e h = cc

      made :
          (e : Envelope) (n : ℕ)
          → Path
              (Result HttpError FetchedRecord)
              (ok (record { envelope = e; revision = n }))
              (ok f)
          → record { envelope = e; revision = n } ≡ f
      made e n h = cc

  get_found_ok : (f : FetchedRecord) → IsFetched web response f → get_found web response ≡ ok f
  unfolding get_found ensure_json
  get_found_ok f v =
      rw
        (
          v.json,
          response_revision_ok laws response f.revision v.tagged v.revision_some v.revision_small,
          (bounded_response_iff response max_api_body_bytes v.body (omega arith)).1 v.whole_body,
          parse_json_ok laws response v.body v.wire f.envelope v.whole_body.fits v.read v.text,
        )
        refl

  found-eq-ok :
      (x : Result HttpError FetchedRecord) (f : FetchedRecord)
      → found web x ≡ ok (some f)
      → x ≡ ok f
  found-eq-ok (ok g) f h = cc
  found-eq-ok (err e) f h = cc

  found-ne-none : (x : Result HttpError FetchedRecord) → found web x ≢ ok none
  found-ne-none (ok g) h = cc
  found-ne-none (err e) h = cc

  -- The answer to a GET is read as no record exactly under the status 404, and as a record exactly
  -- if it has the status 200 and the JSON content type, its ETag is the revision, which is positive
  -- and below 2^63, and its whole body, within the limit, is the JSON of an envelope in its one
  -- accepted text form.
  pub get_response_iff :
      ((get_response web response ≡ ok none) ↔ (response.status ≡ 404))
      × ((f : FetchedRecord) → (get_response web response ≡ ok (some f)) ↔ IsFetched web response f)
  unfolding get_response
  get_response_iff = elim (Bool-cases (response.status == 404)) [
    | inl gone ↦ (
      (λ _. ==→eq response.status 404 gone, λ _. rw gone refl),
      λ f. (
        λ h. absurd (none_is_no_record f (sym (rw gone refl) ∙ h)),
        λ v. absurd (omega (arith, v.found_status, ==→eq response.status 404 gone)),
      ),
    )
    | inr there ↦ elim (Bool-cases (response.status == 200)) [
      | inl good ↦ (
        (
          λ h. absurd (found-ne-none (get_found web response) (sym (rw (there, good) refl) ∙ h)),
          λ e. absurd (omega (arith, e, ==→eq response.status 200 good)),
        ),
        λ f. (
          λ h.
              get_found-eq-ok f (==→eq response.status 200 good)
                (found-eq-ok (get_found web response) f (sym (rw (there, good) refl) ∙ h)),
          λ v. rw (there, good, get_found_ok f v) refl,
        ),
      )
      | inr bad ↦ (
        (
          λ h. absurd (error_is_no_answer none (sym (rw (there, bad) refl) ∙ h)),
          λ e. absurd (ground arith),
        ),
        λ f. (
          λ h. absurd (error_is_no_answer (some f) (sym (rw (there, bad) refl) ∙ h)),
          λ v. absurd (ground (arith, v.found_status)),
        ),
      )
    ]
  ]
    where
      none_is_no_record :
          (f : FetchedRecord)
          → Path (Result HttpError (Option FetchedRecord)) (ok none) (ok (some f))
          → ⊥
      none_is_no_record f h = absurd cc

      error_is_no_answer :
          (x : Option FetchedRecord)
          → Path (Result HttpError (Option FetchedRecord)) (err (service_error web response)) (ok x)
          → ⊥
      error_is_no_answer x h = absurd cc
