-- ===== src/Worker/Handlers/PutGet.antt =====
-- crates/session-sync-worker/src/api.rs: a record that was put is what is got.
use mathlib.Core.Path.{subst}
use attached.Common.{
  ℕ, ◌+◌, ◌≤◌, ◌≢◌, false, [], ◌∷◌, length, Bytes, bytes_eq_refl, Option, none, some, Result, ok,
  err, ◌≡◌, inl, inr, Bool-cases, refl, sym, ap, ◌∙◌, arith,
}
use attached.Api.Envelope.{Envelope}
use attached.Api.Wire.{max_api_body_bytes, parse_json}
use attached.Worker.Account.{MutationError, live_quota_exceeded, revision_overflow, invalid_storage}
use attached.Worker.Records.{MutationOutcome, created, updated, StoredRecord, put, into_envelope}
use attached.Worker.Records.History.{put_iff, replacement, outcome_of}
use attached.Worker.Storage.Sql.{Tables, lookup}
use attached.Worker.Storage.Rows.{StoreError, mutation, unavailable}
use attached.Worker.Storage.Session.{Storage}
use attached.Worker.Storage.Session.Steps.{gives, fails}
use attached.Worker.Storage.Keys.{lookup-upsert}
use attached.Worker.Storage.Operations.{put_record}
use attached.Worker.Storage.Reading.{IsValid, load_record-Reads}
use attached.Worker.Storage.Writing.{
  put_spec, put_result, over_quota, spec_full, spec_room, done, failed, put_record-Implements,
}
use attached.Worker.Storage.Runs.{put_spec-IsValid}
use attached.Worker.Http.{
  Request, read_bounded_body, Response, etag_header, mutation_success_response,
  mutation_error_response,
}
use attached.Worker.Handlers.{
  Reply, Crates, envelope_response, put_answer, get_answer, put_handler, put_marked, put_body,
  put_envelope, get_record,
}

abbrev pub outcome_revision : MutationOutcome → ℕ
outcome_revision (created revision) = revision
outcome_revision (updated revision) = revision

-- The `etag` of a response to a put.
abbrev etag_of : Option Response → ℕ
etag_of none = 0
etag_of (some response) = elim response.headers [ _ ∷ etag_header revision ∷ [] ↦ revision | _ ↦ 0 ]

abbrev status_of : Option Response → ℕ
status_of none = 0
status_of (some response) = response.status

success_status : (o : MutationOutcome) → (mutation_success_response o).status ≤ 204
success_status (created _) = omega arith
success_status (updated _) = omega arith

pub error_status : (m : MutationError) → 400 ≤ (mutation_error_response m).status
error_status MutationError.invalid_request = omega arith
error_status live_quota_exceeded = omega arith
error_status revision_overflow = omega arith
error_status invalid_storage = omega arith

error_is_no_success :
    (m : MutationError) (o : MutationOutcome)
    → some (mutation_error_response m) ≢ some (mutation_success_response o)
error_is_no_success m o h =
    let same : (mutation_error_response m).status ≡ (mutation_success_response o).status =
      ap status_of h in
    omega (arith, error_status m, success_status o)

etag-success :
    (o : MutationOutcome) → etag_of (some (mutation_success_response o)) ≡ outcome_revision o
etag-success (created _) = refl
etag-success (updated _) = refl

into_envelope-replacement :
    (current : Option StoredRecord) (e : Envelope)
    → e.envelope_version ≡ 1
    → into_envelope (replacement current e) ≡ (e, outcome_revision (outcome_of current))
unfolding into_envelope
into_envelope-replacement none e h = λ i. (record e { envelope_version = sym h i }, 1)
into_envelope-replacement (some old) e h =
    λ i. (record e { envelope_version = sym h i }, old.revision + 1)

-- The row that a key has.
pub get_record-row :
    (id : Bytes) (r : StoredRecord) (s : Storage)
    → IsValid s.tables
    → s.outages ≡ []
    → lookup id s.tables.records ≡ some r
    → (get_record id s).0 ≡ some (envelope_response (into_envelope r))
unfolding get_record
get_record-row id r s v calm h = elim (load_record-Reads id s v) [
  | fails (_, _, _, outage) ↦ absurd (outage calm)
  | gives s₁ eq _ ↦ ap (λ x. (get_answer x).0) eq ∙ ap (λ found. (get_answer (ok found, s₁)).0) h
]

module _ (id : Bytes) (e : Envelope) (o : MutationOutcome) (s s' : Storage)
    (id_len : length id ≡ 16) (nonce_len : length e.nonce ≡ 24) (v : IsValid s.tables)
    (calm : s'.outages ≡ []) where
  stored_cases :
      (p : Result MutationError (StoredRecord × MutationOutcome))
      → over_quota id s.tables ≡ false
      → put (lookup id s.tables.records) e ≡ p
      → s'.tables ≡ (put_result id s.tables p).1
      → IsValid s'.tables
      → (put_answer ((put_result id s.tables p).0, s')).0 ≡ some (mutation_success_response o)
      → (get_record id s').0 ≡ some (envelope_response (e, outcome_revision o))
  stored_cases (err m) room h same v' answer = absurd (error_is_no_success m o answer)
  stored_cases (ok (r, o')) room h same v' answer =
      let (version, r_eq, o_eq, _) = (put_iff (lookup id s.tables.records) e r o').0 h in
      let here : lookup id s'.tables.records ≡ some r =
        ap (λ (t : Tables). lookup id t.records) same
        ∙ lookup-upsert id id r s.tables.records
        ∙ rw (bytes_eq_refl id) refl in
      let revision : outcome_revision (outcome_of (lookup id s.tables.records))
          ≡ outcome_revision o =
        ap outcome_revision (sym o_eq)
        ∙ sym (etag-success o')
        ∙ ap etag_of answer
        ∙ etag-success o in
      get_record-row id r s' v' calm here
      ∙ ap (λ (x : StoredRecord). some (envelope_response (into_envelope x))) r_eq
      ∙ ap (λ x. some (envelope_response x)) (into_envelope-replacement _ e version)
      ∙ ap (λ n. some (envelope_response (e, n))) revision

  answered :
      s'.tables ≡ (put_spec id e s.tables).1
      → (put_answer ((put_spec id e s.tables).0, s')).0 ≡ some (mutation_success_response o)
      → (get_record id s').0 ≡ some (envelope_response (e, outcome_revision o))
  answered same answer =
      let v' = subst IsValid (sym same) (put_spec-IsValid id e id_len nonce_len s.tables v) in
      let p = put (lookup id s.tables.records) e in
      elim (Bool-cases (over_quota id s.tables)) [
        | inl full ↦ absurd (
            error_is_no_success live_quota_exceeded o
              (ap (λ x. (put_answer (x.0, s')).0) (sym (spec_full id e s.tables full)) ∙ answer))
        | inr room ↦
            let spec = spec_room id e s.tables p room refl in
            stored_cases p room refl (same ∙ ap (λ x. x.1) spec) v'
              (ap (λ x. (put_answer (x.0, s')).0) (sym spec) ∙ answer)
      ]

handler_reply :
    (crates : Crates) (request : Request) (id body : Bytes) (e : Envelope) (s : Storage)
    → request.oversized ≡ some false
    → read_bounded_body request max_api_body_bytes ≡ ok body
    → parse_json crates.base64 crates.envelope_json body ≡ ok e
    → put_handler crates request id s ≡ put_answer (put_record id e s)
unfolding put_handler put_marked put_body put_envelope
handler_reply crates request id body e s marker h k = simp (marker, h, k)

-- On valid tables and with no outage, after a PUT that is answered with success, a GET of the same
-- record gives the envelope that the body of the PUT was read as, under the etag of its answer.
pub get_after_put :
    (crates : Crates) (request : Request) (id body : Bytes) (e : Envelope) (o : MutationOutcome)
    (s : Storage)
    → length id ≡ 16
    → length e.nonce ≡ 24
    → IsValid s.tables
    → s.outages ≡ []
    → request.oversized ≡ some false
    → read_bounded_body request max_api_body_bytes ≡ ok body
    → parse_json crates.base64 crates.envelope_json body ≡ ok e
    → (put_handler crates request id s).0 ≡ some (mutation_success_response o)
    → (get_record id (put_handler crates request id s).1).0
      ≡ some (envelope_response (e, outcome_revision o))
get_after_put crates request id body e o s id_len nonce_len v calm marker h k success =
    let reply = handler_reply crates request id body e s marker h k in
    elim (put_record-Implements id e s id_len nonce_len v) [
      | failed (_, _, _, outage) ↦ absurd (outage calm)
      | done s' eq same still ↦
          let reply' = reply ∙ ap put_answer eq in
          after (put_spec id e s.tables).0 s' reply'
            (answered id e o s s' id_len nonce_len v (still calm) same)
    ]
  where
    after :
        (x : Result StoreError MutationOutcome) (s' : Storage)
        → put_handler crates request id s ≡ put_answer (x, s')
        → ((put_answer (x, s')).0 ≡ some (mutation_success_response o)
            → (get_record id s').0 ≡ some (envelope_response (e, outcome_revision o)))
        → (get_record id (put_handler crates request id s).1).0
          ≡ some (envelope_response (e, outcome_revision o))
    after x s' p f =
        ap (λ (y : Reply). (get_record id y.1).0) p
        ∙ ap (λ (y : Storage). (get_record id y).0) (storage_of x)
        ∙ f (sym (ap (λ (y : Reply). y.0) p) ∙ success)
      where
        storage_of : (x : Result StoreError MutationOutcome) → (put_answer (x, s')).1 ≡ s'
        storage_of (ok _) = refl
        storage_of (err (mutation _)) = refl
        storage_of (err unavailable) = refl

-- With no outage, a PUT whose body is an envelope is answered as its outcome says, and leaves valid
-- tables.
pub put_reply :
    (crates : Crates) (request : Request) (id body : Bytes) (e : Envelope) (s : Storage)
    → length id ≡ 16
    → length e.nonce ≡ 24
    → IsValid s.tables
    → s.outages ≡ []
    → request.oversized ≡ some false
    → read_bounded_body request max_api_body_bytes ≡ ok body
    → parse_json crates.base64 crates.envelope_json body ≡ ok e
    → (x : Result StoreError MutationOutcome) × (s' : Storage) × (put_handler crates request id s
        ≡ ((put_answer (x, s')).0, s'))
      × IsValid s'.tables
      × (s'.outages ≡ [])
put_reply crates request id body e s id_len nonce_len v calm marker h k =
    elim (put_record-Implements id e s id_len nonce_len v) [
      | failed (_, _, _, outage) ↦ absurd (outage calm)
      | done s' eq same still ↦ (
        (put_spec id e s.tables).0,
        s',
        handler_reply crates request id body e s marker h k
            ∙ ap put_answer eq
            ∙ split (put_spec id e s.tables).0 s',
        subst IsValid (sym same) (put_spec-IsValid id e id_len nonce_len s.tables v),
        still calm,
      )
    ]
  where
    split :
        (x : Result StoreError MutationOutcome) (s' : Storage)
        → put_answer (x, s') ≡ ((put_answer (x, s')).0, s')
    split (ok _) s' = refl
    split (err (mutation _)) s' = refl
    split (err unavailable) s' = refl
