-- ===== src/SyncHttp/Published.antt =====
-- crates/cli/src/sync/http.rs against crates/session-sync-worker/src/api.rs: what a publisher has put
-- is what a consumer gets.
use mathlib.Core.Path.{subst}
use attached.Common.{
  ℕ, ◌^◌, ◌≤◌, ◌<◌, false, not, ◌||◌, ◌==◌, Bool-cases, inl, inr, [], length, Option, none, some,
  Bytes, Result, ok, err, ensure, bind-eq-ok, ◌≡◌, refl, sym, ap, ◌∙◌, arith,
}
use attached.Api.Envelope.{Envelope, max_ciphertext_bytes}
use attached.Api.Wire.{max_api_body_bytes, parse_json}
use attached.Worker.Records.{MutationOutcome, created, updated, StoredRecord, into_envelope}
use attached.Worker.Storage.Sql.{lookup}
use attached.Worker.Storage.Rows.{StoreError, mutation, unavailable}
use attached.Worker.Storage.Session.{Storage}
use attached.Worker.Storage.Keys.{IsRow, All-lookup}
use attached.Worker.Storage.Reading.{IsValid}
use attached.Worker.Http.{Request, Response, read_bounded_body, mutation_success_response}
use attached.Worker.Handlers.{Reply, Crates, envelope_response, put_answer, put_handler, get_record}
use attached.Worker.Handlers.PutGet.{outcome_revision, error_status, put_reply, get_after_put}
use attached.SyncHttp.{
  HttpError, publish_key_required, encoding_failed, service_returned, HttpRequest, HttpResponse,
  Credentials, Web,
}
use attached.SyncHttp.Reading.{present, response_revision}
use attached.SyncHttp.Calls.{
  wire_of, is_download, authorization, put_request, put_response, get_response,
}
use attached.SyncHttp.Revision.{quoted, present-eq-ok, revision_of_iff}
use attached.SyncHttp.Headers.{WebLaws, response_revision-eq-ok, parse_json_ok}
use attached.SyncHttp.Delivered.{
  JsonLaws, Carries, answer_to, get_record-answer, etag_in, text_fits, wire_of-IsTextOf,
  envelope_delivered,
}

-- The crates of the worker, the same as those of the client.
abbrev pub service_crates : Web → Crates
service_crates web = record {
  uuid = web.uuid;
  base64 = web.base64;
  service_hash = web.service_hash;
  envelope_json = web.envelope_json;
}

quoted-injective : (m n : ℕ) → 1 ≤ m → m < 2 ^ 63 → 1 ≤ n → n < 2 ^ 63 → quoted m ≡ quoted n → m ≡ n
quoted-injective m n some_m small_m some_n small_n e = ok-injective m n (
    sym ((revision_of_iff (quoted m) m).1 (refl, some_m, small_m))
    ∙ (revision_of_iff (quoted m) n).1 (e, some_n, small_n))
  where
    ok-injective : (m n : ℕ) → Path (Result HttpError ℕ) (ok m) (ok n) → m ≡ n
    ok-injective m n h = cc

put_request-eq-ok :
    (web : Web) (account : Credentials) (id : Bytes) (e : Envelope) (q : HttpRequest)
    → put_request web account id e ≡ ok q
    → web.to_vec (wire_of web e) ≡ some q.body
unfolding put_request
put_request-eq-ok web account id e q h =
    let (_, _, h₁) =
      bind-eq-ok (ensure (not (is_download web account.api_key_scope)) publish_key_required) _ h in
    let (body, written, h₂) =
      bind-eq-ok (present (web.to_vec (wire_of web e)) encoding_failed) _ h₁ in
    let (header, _, h₃) = bind-eq-ok (authorization web account) _ h₂ in
    present-eq-ok _ encoding_failed body written ∙ ap some (body_of _ q h₃)
  where
    body_of :
        (p q : HttpRequest) → Path (Result HttpError HttpRequest) (ok p) (ok q) → p.body ≡ q.body
    body_of p q k = let same : p ≡ q = cc in ap (λ (x : HttpRequest). x.body) same

put_response-eq-ok :
    (web : Web) (c : HttpResponse) (n : ℕ)
    → put_response web c ≡ ok n
    → (c.status ≤ 204) × (response_revision web c ≡ ok n)
unfolding put_response
put_response-eq-ok web c n h = elim (Bool-cases (c.status == 201 || c.status == 204)) [
  | inl stored ↦ (ground arith, sym (rw stored refl) ∙ h)
  | inr other ↦ absurd (no_revision (service_returned c.status none) (sym (rw other refl) ∙ h))
]
  where
    no_revision : (e : HttpError) → Path (Result HttpError ℕ) (err e) (ok n) → ⊥
    no_revision e k = absurd cc

some-injective : (a b : Response) → some a ≡ some b → a ≡ b
some-injective a b e = cc

success_etag :
    (o : MutationOutcome)
    → etag_in (mutation_success_response o).headers ≡ some (outcome_revision o)
success_etag (created n) = refl
success_etag (updated n) = refl

error_answer :
    (x : StoreError) (s : Storage) (r : Response)
    → (put_answer (err x, s)).0 ≡ some r
    → 400 ≤ r.status
error_answer (mutation m) s r h =
    let same = ap (λ (x : Response). x.status) (some-injective _ r h) in
    omega (arith, same, error_status m)
error_answer unavailable s r h =
    let same : ◌≡◌ {A = ℕ} 503 r.status = ap (λ (x : Response). x.status) (some-injective _ r h) in
    omega (arith, same)

-- A revision that a GET answers with is positive and below 2^63.
answered_revision :
    (id : Bytes) (s : Storage) (e : Envelope) (n : ℕ)
    → IsValid s.tables
    → s.outages ≡ []
    → (get_record id s).0 ≡ some (envelope_response (e, n))
    → (1 ≤ n) × (n < 2 ^ 63)
unfolding into_envelope
answered_revision id s e n v calm gets =
    by_row (lookup id s.tables.records) refl
      (get_record-answer id s (envelope_response (e, n)) v calm gets)
  where
    by_row :
        (found : Option StoredRecord)
        → lookup id s.tables.records ≡ found
        → answer_to found ≡ envelope_response (e, n)
        → (1 ≤ n) × (n < 2 ^ 63)
    by_row none k h =
        let status : ◌≡◌ {A = ℕ} 404 200 = ap (λ (x : Response). x.status) h in
        absurd (omega (arith, status))
    by_row (some row) k h =
        let stored = (All-lookup IsRow id s.tables.records v.rows k).storable in
        let same = tag_of (into_envelope row).1 n (ap (λ (x : Response). etag_in x.headers) h) in
        (omega (arith, same, stored.revision_some), omega (arith, same, stored.revision_most))
      where
        tag_of : (a b : ℕ) → some a ≡ some b → a ≡ b
        tag_of a b k = cc

module _ {web : Web} (laws : WebLaws web) (json : JsonLaws web) (account : Credentials) (id : Bytes)
    (e : Envelope) (q : HttpRequest) (request : Request) (s : Storage) where
  -- When a client publishes an envelope under an identifier, the account object, with valid tables and
  -- no outage, has the body of its request, and the answer that the client has is read as a revision,
  -- then the answer to a GET of the identifier that comes next is read as that envelope at that
  -- revision.
  pub published_is_fetched :
      (r : Response) (stored : HttpResponse) (n : ℕ) (got : Response) (answer : HttpResponse)
      → length id ≡ 16
      → e.envelope_version ≡ 1
      → length e.nonce ≡ 24
      → length e.ciphertext ≤ max_ciphertext_bytes
      → IsValid s.tables
      → s.outages ≡ []
      → put_request web account id e ≡ ok q
      → request.oversized ≡ some false
      → read_bounded_body request max_api_body_bytes ≡ ok q.body
      → (put_handler (service_crates web) request id s).0 ≡ some r
      → Carries web r stored
      → put_response web stored ≡ ok n
      → (get_record id (put_handler (service_crates web) request id s).1).0 ≡ some got
      → Carries web got answer
      → get_response web answer ≡ ok (some (record { envelope = e; revision = n }))
  published_is_fetched r stored n got answer id_len version nonce_len short v calm sent marker body
        replied carries_put accepted gets carries_get =
      let written = put_request-eq-ok web account id e q sent in
      let reads =
        parse_json_ok laws stored q.body (wire_of web e) e
          (text_fits laws json e q.body nonce_len short written) (json.reads_back e q.body written)
          (wire_of-IsTextOf laws json e version nonce_len short) in
      let (x, s', eq, v', calm') =
        put_reply crates request id q.body e s id_len nonce_len v calm marker body reads in
      let here = sym (ap (λ (y : Reply). y.1) eq) in
      by_outcome reads (subst (λ (t : Storage). IsValid t.tables) here v')
        (subst (λ (t : Storage). t.outages ≡ []) here calm') x s'
        (sym (ap (λ (y : Reply). y.0) eq) ∙ replied) (ap (λ (y : Reply). y.0) eq)
    where
      crates : Crates
      crates = service_crates web

      after : Storage
      after = (put_handler crates request id s).1

      tag_of : (a b : Bytes) → some a ≡ some b → a ≡ b
      tag_of a b k = cc

      by_outcome :
          parse_json web.base64 web.envelope_json q.body ≡ ok e
          → IsValid after.tables
          → after.outages ≡ []
          → (x : Result StoreError MutationOutcome) (s' : Storage) → (put_answer (x, s')).0 ≡ some r
          → (put_handler crates request id s).0 ≡ (put_answer (x, s')).0
          → get_response web answer ≡ ok (some (record { envelope = e; revision = n }))
      by_outcome reads v' calm' (err m) s' h k =
          let (low, _) = put_response-eq-ok web stored n accepted in
          absurd (omega (arith, low, carries_put.same_status, error_answer m s' r h))
      by_outcome reads v' calm' (ok o) s' h k =
          let (_, revises) = put_response-eq-ok web stored n accepted in
          let (tagged, some_n, small_n) = response_revision-eq-ok laws stored n revises in
          let success = some-injective (mutation_success_response o) r h in
          let gets_e =
            get_after_put crates request id q.body e o s id_len nonce_len v calm marker body reads
              k in
          let (some_o, small_o) =
            answered_revision id after e (outcome_revision o) v' calm' gets_e in
          let tagged_o =
            carries_put.tag (outcome_revision o)
              (sym (ap (λ (y : Response). etag_in y.headers) success) ∙ success_etag o) in
          let same =
            quoted-injective n (outcome_revision o) some_n small_n some_o small_o
              (tag_of _ _ (sym tagged ∙ tagged_o)) in
          let response =
            ap (λ (k : ℕ). envelope_response (e, k)) same
            ∙ some-injective _ got (sym gets_e ∙ gets) in
          envelope_delivered laws json e n answer version nonce_len short some_n small_n
            (subst (λ (y : Response). Carries web y answer) (sym response) carries_get)
