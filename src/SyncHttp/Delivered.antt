-- ===== src/SyncHttp/Delivered.antt =====
-- crates/cli/src/sync/http.rs against crates/session-sync-worker/src/api.rs: what the client reads of
-- the answers of an account object.
use mathlib.Core.Path.{subst}
use attached.Common.{
  ℕ, ◌+◌, ◌^◌, ◌≤◌, ◌<◌, true, false, le→ltb_false, List, [], ◌∷◌, length, Option, none, some,
  Bytes, ok, ◌≡◌, ◌⊎◌, inl, inr, refl, sym, ap, ◌∙◌, arith,
}
use attached.Api.Envelope.{Envelope, max_ciphertext_bytes}
use attached.Api.Wire.{max_api_body_bytes}
use attached.Api.Wire.Decoding.{IsTextOf}
use attached.Worker.Records.{StoredRecord, into_envelope}
use attached.Worker.Storage.Sql.{lookup}
use attached.Worker.Storage.Session.{Storage}
use attached.Worker.Storage.Session.Steps.{gives, fails}
use attached.Worker.Storage.Keys.{IsRow, All-lookup}
use attached.Worker.Storage.Reading.{IsValid, load_record-Reads}
use attached.Worker.Http.{
  ResponseHeader, etag_header, ResponseBody, envelope_body, Response, error_response,
  code_invalid_request,
}
use attached.Worker.Http.Body.{concat, whole}
use attached.Worker.Handlers.{envelope_response, get_answer, get_record}
use attached.Catalog.Fetch.{FetchedRecord}
use attached.SyncHttp.{HttpResponse, Web}
use attached.SyncHttp.Reading.{has_json, declares_over}
use attached.SyncHttp.Calls.{wire_of, get_response}
use attached.SyncHttp.Revision.{quoted}
use attached.SyncHttp.Bodies.{IsBody}
use attached.SyncHttp.Headers.{WebLaws}
use attached.SyncHttp.Fetched.{get_response_iff}

abbrev pub etag_in : List ResponseHeader → Option ℕ
etag_in [] = none
etag_in (header ∷ headers) = elim header [ etag_header n ↦ some n | _ ↦ etag_in headers ]

abbrev pub envelope_in : ResponseBody → Option Envelope
envelope_in body = elim body [ envelope_body e ↦ some e | _ ↦ none ]

-- What serde_json documents of the object that is written of an envelope: it is read back, and has
-- its two texts and at most 64 other bytes.
pub record JsonLaws (web : Web) : Type 0 where
  pub reads_back :
      (e : Envelope) (text : Bytes)
      → web.to_vec (wire_of web e) ≡ some text
      → web.envelope_json text ≡ some (wire_of web e)
  pub size :
      (e : Envelope) (text : Bytes)
      → web.to_vec (wire_of web e) ≡ some text
      → length text ≤ length (wire_of web e).nonce + length (wire_of web e).ciphertext + 64

-- The chunks of a text, whose length may be declared.
pub record HasText (c : HttpResponse) (text : Bytes) : Type 0 where
  pub pieces : List Bytes
  pub unbroken : c.chunks ≡ whole pieces
  pub joined : concat pieces ≡ text
  pub declared : (c.content_length ≡ none) ⊎ (c.content_length ≡ some (length text))

-- The client has an answer that the platform delivers whole: its status, the text of its ETag, and
-- the JSON of an envelope, with its content type.
pub record Carries (web : Web) (r : Response) (c : HttpResponse) : Type 0 where
  pub same_status : c.status ≡ r.status
  pub tag : (n : ℕ) → etag_in r.headers ≡ some n → c.etag ≡ some (quoted n)
  pub json : (e : Envelope) → envelope_in r.body ≡ some e → has_json web c ≡ true
  pub text :
      (e : Envelope)
      → envelope_in r.body ≡ some e
      → (text : Bytes) × (web.to_vec (wire_of web e) ≡ some text) × HasText c text

-- A stored record as the client has it.
abbrev pub shown : StoredRecord → FetchedRecord
unfolding into_envelope
shown r = record { envelope = (into_envelope r).0; revision = (into_envelope r).1 }

abbrev pub shown_of : Option StoredRecord → Option FetchedRecord
shown_of none = none
shown_of (some r) = some (shown r)

-- The answer to a GET, by what is stored.
abbrev pub answer_to : Option StoredRecord → Response
answer_to none = error_response 404 code_invalid_request
answer_to (some r) = envelope_response (into_envelope r)

pub get_record-answer :
    (id : Bytes) (s : Storage) (r : Response)
    → IsValid s.tables
    → s.outages ≡ []
    → (get_record id s).0 ≡ some r
    → answer_to (lookup id s.tables.records) ≡ r
unfolding get_record
get_record-answer id s r v calm answer = elim (load_record-Reads id s v) [
  | fails (_, _, _, outage) ↦ absurd (outage calm)
  | gives s₁ eq _ ↦
      same_response (lookup id s.tables.records) s₁ (sym (ap (λ x. (get_answer x).0) eq) ∙ answer)
]
  where
    some-injective : (a b : Response) → some a ≡ some b → a ≡ b
    some-injective a b e = cc

    same_response :
        (found : Option StoredRecord) (t : Storage)
        → (get_answer (ok found, t)).0 ≡ some r
        → answer_to found ≡ r
    same_response none t h = some-injective _ r h
    same_response (some row) t h = some-injective _ r h

module _ {web : Web} (laws : WebLaws web) (json : JsonLaws web) where
  pub text_fits :
      (e : Envelope) (text : Bytes)
      → length e.nonce ≡ 24
      → length e.ciphertext ≤ max_ciphertext_bytes
      → web.to_vec (wire_of web e) ≡ some text
      → length text ≤ max_api_body_bytes
  unfolding wire_of
  text_fits e text nonce_len short written = omega (
    arith,
    json.size e text written,
    laws.base64.encode_length e.nonce,
    laws.base64.encode_length e.ciphertext,
  )

  pub wire_of-IsTextOf :
      (e : Envelope)
      → e.envelope_version ≡ 1
      → length e.nonce ≡ 24
      → length e.ciphertext ≤ max_ciphertext_bytes
      → IsTextOf web.base64 (wire_of web e) e
  unfolding wire_of
  wire_of-IsTextOf e version nonce_len short = record {
    wire_version = version;
    envelope_version = version;
    nonce_text = refl;
    ciphertext_text = refl;
    nonce_len = nonce_len;
    ciphertext_len = short;
  }

  has_text-IsBody :
      (c : HttpResponse) (text : Bytes)
      → length text ≤ max_api_body_bytes
      → HasText c text
      → IsBody c max_api_body_bytes text
  has_text-IsBody c text fits t = record {
    declared = by_length t.declared;
    pieces = t.pieces;
    unbroken = t.unbroken;
    joined = t.joined;
    fits = fits;
  }
    where
      by_length :
          (c.content_length ≡ none) ⊎ (c.content_length ≡ some (length text))
          → declares_over max_api_body_bytes c.content_length ≡ false
      by_length (inl e) = rw e refl
      by_length (inr e) = rw (e, le→ltb_false max_api_body_bytes (length text) fits) refl

  pub envelope_delivered :
      (e : Envelope) (n : ℕ) (c : HttpResponse)
      → e.envelope_version ≡ 1
      → length e.nonce ≡ 24
      → length e.ciphertext ≤ max_ciphertext_bytes
      → 1 ≤ n
      → n < 2 ^ 63
      → Carries web (envelope_response (e, n)) c
      → get_response web c ≡ ok (some (record { envelope = e; revision = n }))
  unfolding wire_of
  envelope_delivered e n c version nonce_len short some_n small carries =
      let (text, written, has) = carries.text e refl in
      let f : FetchedRecord = record { envelope = e; revision = n } in
      ((get_response_iff laws c).1 f).1 (record {
        found_status = carries.same_status;
        json = carries.json e refl;
        tagged = carries.tag n refl;
        revision_some = some_n;
        revision_small = small;
        body = text;
        whole_body = has_text-IsBody c text (text_fits e text nonce_len short written) has;
        wire = wire_of web e;
        read = json.reads_back e text written;
        text = wire_of-IsTextOf e version nonce_len short;
      })

  row_delivered :
      (id : Bytes) (r : StoredRecord) (c : HttpResponse)
      → IsRow (id, r)
      → Carries web (envelope_response (into_envelope r)) c
      → get_response web c ≡ ok (some (shown r))
  unfolding into_envelope
  row_delivered id r c row carries =
      envelope_delivered (into_envelope r).0 r.revision c refl row.nonce_len
        row.storable.ciphertext_most row.storable.revision_some
        (omega (arith, row.storable.revision_most)) carries

  -- On valid tables and with no outage, what the client reads of the answer to a GET is the record
  -- that is stored under the identifier, with its revision, or that there is none.
  pub fetched_is_stored :
      (id : Bytes) (s : Storage) (r : Response) (c : HttpResponse)
      → IsValid s.tables
      → s.outages ≡ []
      → (get_record id s).0 ≡ some r
      → Carries web r c
      → get_response web c ≡ ok (shown_of (lookup id s.tables.records))
  fetched_is_stored id s r c v calm answer carries =
      by_row (lookup id s.tables.records) refl (get_record-answer id s r v calm answer)
    where
      by_row :
          (found : Option StoredRecord)
          → lookup id s.tables.records ≡ found
          → answer_to found ≡ r
          → get_response web c ≡ ok (shown_of found)
      by_row none e same =
          (get_response_iff laws c).0.1
            (carries.same_status ∙ sym (ap (λ (x : Response). x.status) same))
      by_row (some row) e same =
          row_delivered id row c (All-lookup IsRow id s.tables.records v.rows e)
            (subst (λ (x : Response). Carries web x c) (sym same) carries)
