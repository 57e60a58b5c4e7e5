-- ===== src/SyncHttp/Accepted.antt =====
-- crates/cli/src/sync/refresh.rs behind crates/cli/src/sync/http.rs: a host that was sealed and
-- published, in the catalog of a consumer.
use mathlib.Core.Path.{subst}
use attached.Common.{
  ℕ, ◌≤◌, le→ltb_false, [], ◌∷◌, ◌++◌, List, length, some, Bytes, false, ok, ◌≡◌, refl, sym, ap,
  ◌∙◌, arith,
}
use attached.Api.Envelope.{Envelope, new_envelope, max_ciphertext_bytes}
use attached.Api.Sequence.{LiveRecordIndexEntry}
use attached.Api.Wire.{max_api_body_bytes}
use attached.Descriptor.Outside.{Outside, ChronoLaws}
use attached.Descriptor.Model.{HostAccessDescriptor, endpoint_identity}
use attached.Descriptor.Agreement.{HasTypes}
use attached.Sealing.{
  Envelope as CryptoEnvelope, Cipher, CheckedAdd, envelope_of,
  seal_host_access_descriptor_with_nonce,
}
use attached.Sealing.Making.{CipherLaws}
use attached.Sealing.Opening.{IsCurrent, open_iff_seal}
use attached.Catalog.Model.{AccountCredentials, CatalogRecord, from_opened}
use attached.Catalog.Fetch.{FetchedRecord}
use attached.Catalog.Refresh.{
  RefreshWarning, context_of, identified, accept_opened, open_fetched, accept_fetched,
}
use attached.Worker.Storage.Session.{Storage}
use attached.Worker.Storage.Reading.{IsValid}
use attached.Worker.Http.{Request, Response, read_bounded_body}
use attached.Worker.Handlers.{put_handler, get_record}
use attached.SyncHttp.{HttpError, HttpRequest, HttpResponse, Credentials, Web}
use attached.SyncHttp.Calls.{put_request, put_response, get_response}
use attached.SyncHttp.Headers.{WebLaws}
use attached.SyncHttp.Delivered.{JsonLaws, Carries}
use attached.SyncHttp.Published.{service_crates, published_is_fetched}
mod Examples

-- The parts of an envelope that was accepted.
new_envelope-eq-ok :
    (nonce ciphertext : Bytes) (e : Envelope)
    → new_envelope nonce ciphertext ≡ ok e
    → (record { envelope_version = 1; nonce = nonce; ciphertext = ciphertext } ≡ e)
      × (length ciphertext ≤ max_ciphertext_bytes)
unfolding new_envelope
new_envelope-eq-ok nonce ciphertext e h = (ground arith, ground arith)

module _ {o : Outside} {cipher : Cipher} (chrono : ChronoLaws o) (aead : CipherLaws cipher)
    (checked_add : CheckedAdd o) (account : AccountCredentials) (now : o.DateTime)
    (d : HostAccessDescriptor o) (types : HasTypes d) (sealed : CryptoEnvelope)
    (entry : LiveRecordIndexEntry) where
  accepts :
      (e : Envelope) (n : ℕ) (identity : Bytes) (accepted : List (CatalogRecord o))
      (warnings : List RefreshWarning)
      → new_envelope sealed.nonce sealed.ciphertext ≡ ok e
      → seal_host_access_descriptor_with_nonce o cipher d account.account_root_key
          account.account_id entry.record_id sealed.nonce
        ≡ ok sealed
      → IsCurrent checked_add d now
      → endpoint_identity o d ≡ some identity
      → accept_fetched cipher checked_add account now {Failure = HttpError}
          (accepted, warnings)
          entry
          (ok (some (record { envelope = e; revision = n })))
        ≡ ok (accepted ++ from_opened o entry.record_id n d identity ∷ [], warnings)
  unfolding accept_fetched accept_opened open_fetched identified envelope_of
  accepts e n identity accepted warnings wrapped seals current identified_by =
      let (parts, short) = new_envelope-eq-ok sealed.nonce sealed.ciphertext e wrapped in
      let opens =
        (open_iff_seal chrono aead checked_add d types sealed account.account_root_key
            (context_of cipher checked_add account now entry.record_id)).1
          (seals, current) in
      subst
        (λ (x : Envelope).
          accept_fetched cipher checked_add account now {Failure = HttpError} (accepted, warnings)
            entry (ok (some (record { envelope = x; revision = n })))
          ≡ ok (accepted ++ from_opened o entry.record_id n d identity ∷ [], warnings))
        parts
        (rw
          (le→ltb_false max_ciphertext_bytes (length sealed.ciphertext) short, opens, identified_by)
          refl)

  -- When a host has sealed its descriptor for the account and published it under the identifier of
  -- the entry, with valid tables, no outage and a revision as the answer, then a consumer that gets
  -- the record while the descriptor is current adds to its catalog the host's record, with the
  -- fields of the descriptor and the revision that was answered.
  pub published_host_accepted :
      {web : Web} (laws : WebLaws web) (json : JsonLaws web) (credentials : Credentials)
      (e : Envelope) (q : HttpRequest) (request : Request) (s : Storage) (r : Response)
      (stored : HttpResponse) (n : ℕ) (got : Response) (answer : HttpResponse) (identity : Bytes)
      (accepted : List (CatalogRecord o)) (warnings : List RefreshWarning)
      → seal_host_access_descriptor_with_nonce o cipher d account.account_root_key
          account.account_id entry.record_id sealed.nonce
        ≡ ok sealed
      → new_envelope sealed.nonce sealed.ciphertext ≡ ok e
      → length entry.record_id ≡ 16
      → length sealed.nonce ≡ 24
      → IsValid s.tables
      → s.outages ≡ []
      → put_request web credentials entry.record_id e ≡ ok q
      → request.oversized ≡ some false
      → read_bounded_body request max_api_body_bytes ≡ ok q.body
      → (put_handler (service_crates web) request entry.record_id s).0 ≡ some r
      → Carries web r stored
      → put_response web stored ≡ ok n
      → (get_record entry.record_id
          (put_handler (service_crates web) request entry.record_id s).1).0
        ≡ some got
      → Carries web got answer
      → IsCurrent checked_add d now
      → endpoint_identity o d ≡ some identity
      → (f : FetchedRecord) × (get_response web answer ≡ ok (some f))
        × (accept_fetched cipher checked_add account now {Failure = HttpError}
              (accepted, warnings)
              entry
              (ok (some f))
            ≡ ok (accepted ++ from_opened o entry.record_id n d identity ∷ [], warnings))
  published_host_accepted laws json credentials e q request s r stored n got answer identity
        accepted warnings seals wrapped id_len nonce_len v calm sent marker body replied carries_put
        answered gets carries_get current identified_by =
      let (parts, short) = new_envelope-eq-ok sealed.nonce sealed.ciphertext e wrapped in
      let version = ap (λ (x : Envelope). x.envelope_version) (sym parts) in
      let nonce = ap (λ (x : Envelope). x.nonce) (sym parts) in
      let ciphertext = ap (λ (x : Envelope). x.ciphertext) (sym parts) in
      (
        record { envelope = e; revision = n },
        published_is_fetched laws json credentials entry.record_id e q request s r stored n got
            answer id_len version (ap length nonce ∙ nonce_len)
            (omega (arith, ap length ciphertext, short)) v calm sent marker body replied carries_put
            answered gets carries_get,
        accepts e n identity accepted warnings wrapped seals current identified_by,
      )
