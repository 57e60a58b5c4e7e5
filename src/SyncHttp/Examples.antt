-- ===== src/SyncHttp/Examples.antt =====
-- The client of crates/cli/src/sync/http.rs against an account object of
-- crates/session-sync-worker/src/api.rs, at concrete records.
use attached.Common.{
  ℕ, ◌+◌, true, false, if◌then◌else◌, List, [], ◌∷◌, ◌++◌, append-nil, length, length-append, take,
  drop, take-append, drop-append, all_of, Option, none, some, Bytes, bytes_eq, parse_unsigned,
  parse_onto, print_decimal, ok, ◌≡◌, ◌↔◌, inl, refl, sym, ap, ◌∙◌, arith,
}
use attached.Api.Envelope.{new_envelope, Envelope}
use attached.Api.Sequence.{is_less}
use attached.Api.Wire.{
  EnvelopeWire, max_api_body_bytes, parse_json, parse_bounded, decode_wire, decode_fixed,
  decode_vec, canonical_matches,
}
use attached.Api.Wire.Padded.{padded, padded_laws, padding}
use attached.Worker.Account.{publish, download}
use attached.Worker.Records.{created, put, revise, from_storage, validate_record, into_envelope}
use attached.Worker.Storage.Small.{key, envelope, account, row, filled, filled-IsValid}
use attached.Worker.Storage.Operations.{
  put_record, load_record, live_record_count, put_current, write_record, write_statement,
  from_mutation, count_of_text,
}
use attached.Worker.Storage.Session.{exec, exec_on, delivered, ◌>>=◌}
use attached.Worker.Storage.Rows.{
  present, optional_row, required_row, single_value, single_text, revision_text, stored_revision,
  sql_text, parse_record, fixed_blob, variable_blob, or_unavailable, traverse,
}
use attached.Worker.Storage.Sql.{
  cast_text, select_record, select_count, lookup, record_rows, insert_record, record_checks, upsert,
}
use attached.Worker.Http.{
  method_put, Request, Response, declared_too_large, grows_too_large, read_chunks, read_stream,
  read_declared, read_bounded_body, mutation_success_response,
}
use attached.Worker.Handlers.{
  envelope_response, put_handler, put_marked, put_body, put_envelope, get_record,
}
use attached.Worker.Handlers.PutGet.{get_record-row, get_after_put}
use attached.Worker.Handlers.Small.{uuid_texts, token}
use attached.Catalog.Fetch.{FetchedRecord}
use attached.SyncHttp.{HttpRequest, HttpResponse, Credentials, Web}
use attached.SyncHttp.Reading.{
  has_json, is_json_content_type, is_json_text, json_type, eq_ignore_ascii_case, ascii_lower,
  media_type, trim_start, trim_end, response_revision, revision_of, unquoted, strip_suffix,
  is_canonical,
}
use attached.SyncHttp.Calls.{
  wire_of, bearer_value, record_url, authorization, put_request, put_response, get_response,
}
use attached.SyncHttp.Calls
use attached.SyncHttp.Revision.{quoted}
use attached.SyncHttp.Headers.{is_visible, WebLaws}
use attached.SyncHttp.Fetched.{IsFetched, get_response_iff}
use attached.SyncHttp.Delivered.{
  JsonLaws, Carries, etag_in, envelope_in, shown_of, fetched_is_stored,
}
use attached.SyncHttp.Published.{service_crates, published_is_fetched}

-- A text of the fields: the version, the length of the nonce and the two texts.
abbrev pub text_of : EnvelopeWire → Bytes
text_of wire = wire.version ∷ length wire.nonce ∷ (wire.nonce ++ wire.ciphertext)

abbrev wire_from : Bytes → Option EnvelopeWire
wire_from [] = none
wire_from (version ∷ []) = none
wire_from (version ∷ n ∷ text) =
    some (record { version = version; nonce = take n text; ciphertext = drop n text })

-- The text of an envelope.
abbrev envelope_text : Envelope → Bytes
envelope_text e = text_of (record {
  version = e.envelope_version;
  nonce = padded.encode e.nonce;
  ciphertext = padded.encode e.ciphertext;
})

-- An answer that is delivered whole, in one chunk.
abbrev tagged : Option ℕ → Option Bytes
tagged none = none
tagged (some n) = some (quoted n)

abbrev chunks_of : Option Envelope → List (Option Bytes)
chunks_of none = []
chunks_of (some e) = some (envelope_text e) ∷ []

abbrev pub deliver : Response → HttpResponse
deliver r = record {
  status = r.status;
  content_type = some json_type;
  etag = tagged (etag_in r.headers);
  cache_control = none;
  content_length = none;
  chunks = chunks_of (envelope_in r.body);
}

-- Every request is answered with the third record.
abbrev pub web : Web
web = record {
  W = Unit {0};
  send = λ request w. (w, some (deliver (envelope_response (envelope 3, 1))));
  to_str = λ value. if all_of is_visible value then some value else none;
  from_bytes = λ value. some value;
  to_vec = λ wire. some (text_of wire);
  envelope_json = wire_from;
  error_json = λ _. none;
  index_json = λ _. none;
  account_json = λ _. none;
  service_hash = λ _. (account 1).publish_api_token_hash;
  base64 = padded;
  uuid = uuid_texts;
}

reads_wire : (wire : EnvelopeWire) → wire_from (text_of wire) ≡ some wire
reads_wire wire = λ i. some (record {
  version = wire.version;
  nonce = take-append wire.nonce wire.ciphertext i;
  ciphertext = drop-append wire.nonce wire.ciphertext i;
})

length-text_of :
    (wire : EnvelopeWire) → length (text_of wire) ≡ length wire.nonce + length wire.ciphertext + 2
length-text_of wire = omega (arith, length-append wire.nonce wire.ciphertext)

same_text : (a b : Bytes) → some a ≡ some b → a ≡ b
same_text a b h = cc

pub laws : WebLaws web
laws = record { visible = λ value. refl; base64 = padded_laws }

pub json : JsonLaws web
json = record {
  reads_back = λ e text h. ap wire_from (sym (same_text _ text h)) ∙ reads_wire (wire_of web e);
  size = λ e text h. omega (arith, length-text_of (wire_of web e), ap length (same_text _ text h));
}

pub deliver-Carries : (r : Response) → Carries web r (deliver r)
unfolding wire_of has_json is_json_content_type is_json_text eq_ignore_ascii_case ascii_lower
    media_type trim_start trim_end bytes_eq
deliver-Carries r = record {
  same_status = refl;
  tag = λ n h. ap tagged h;
  json = λ e h. refl;
  text = λ e h. (
    envelope_text e,
    refl,
    record {
      pieces = envelope_text e ∷ [];
      unbroken = ap chunks_of h;
      joined = append-nil (envelope_text e);
      declared = inl refl;
    },
  );
}

get_response_iff_example :
    ((get_response web (deliver (envelope_response (envelope 3, 1))) ≡ ok none)
      ↔ ((deliver (envelope_response (envelope 3, 1))).status ≡ 404))
    × ((f : FetchedRecord)
        → (get_response web (deliver (envelope_response (envelope 3, 1))) ≡ ok (some f))
          ↔ IsFetched web (deliver (envelope_response (envelope 3, 1))) f)
get_response_iff_example = get_response_iff laws (deliver (envelope_response (envelope 3, 1)))

row_there : lookup (key 5) filled.tables.records ≡ some (row 5)
unfolding lookup bytes_eq
row_there = refl

row_answered : (get_record (key 5) filled).0 ≡ some (envelope_response (envelope 5, 4))
unfolding into_envelope
row_answered = get_record-row (key 5) (row 5) filled filled-IsValid refl row_there

fetched_is_stored_example :
    get_response web (deliver (envelope_response (envelope 5, 4)))
    ≡ ok (shown_of (lookup (key 5) filled.tables.records))
fetched_is_stored_example =
    fetched_is_stored laws json (key 5) filled (envelope_response (envelope 5, 4))
      (deliver (envelope_response (envelope 5, 4))) filled-IsValid refl row_answered
      (deliver-Carries (envelope_response (envelope 5, 4)))

-- A publisher of the account puts a third record.
abbrev pub credentials : Credentials
credentials = record {
  service_origin = b'h' ∷ [];
  account_id = (account 1).account_id;
  api_key_scope = publish;
  api_token = token;
}

abbrev sent : HttpRequest
unfolding wire_of bearer_value record_url
sent = record {
  method = method_put;
  url = record_url web credentials (key 3);
  authorization = some (bearer_value web credentials);
  content_type = some json_type;
  body = text_of (wire_of web (envelope 3));
}

sent_request : put_request web credentials (key 3) (envelope 3) ≡ ok sent
unfolding put_request sent authorization
sent_request = refl

abbrev pub request_of : Bytes → Request
request_of text = record {
  method = method_put;
  account_id = some ((account 1).account_id ++ padding 20);
  record_id = some (padded.encode (key 3));
  authorization = some (some (bearer_value web credentials));
  content_length = some none;
  oversized = some false;
  body = some (record { opens = true; chunks = some text ∷ [] });
  cancels = true;
}

abbrev request : Request
request = request_of sent.body

received : read_bounded_body request max_api_body_bytes ≡ ok sent.body
unfolding sent wire_of read_bounded_body read_declared read_stream read_chunks grows_too_large
    declared_too_large
received = refl

stored :
    (put_handler (service_crates web) request (key 3) filled).0
    ≡ some (mutation_success_response (created 1))
unfolding sent wire_of put_handler put_marked put_body put_envelope parse_json parse_bounded
    decode_wire decode_fixed decode_vec canonical_matches bytes_eq new_envelope read_bounded_body
    read_declared read_stream read_chunks grows_too_large declared_too_large put_record load_record
    live_record_count put_current write_record write_statement from_mutation put revise from_storage
    validate_record exec exec_on delivered ◌>>=◌ optional_row required_row single_value single_text
    revision_text stored_revision sql_text cast_text parse_record fixed_blob variable_blob
    select_record select_count lookup record_rows insert_record record_checks upsert is_less
    or_unavailable traverse count_of_text present parse_unsigned print_decimal parse_onto
stored = refl

pub accepted : put_response web (deliver (mutation_success_response (created 1))) ≡ ok 1
unfolding put_response response_revision revision_of unquoted strip_suffix is_canonical bytes_eq
    parse_unsigned parse_onto print_decimal
accepted = refl

parsed_body : parse_json padded wire_from sent.body ≡ ok (envelope 3)
unfolding sent wire_of parse_json parse_bounded decode_wire decode_fixed decode_vec
    canonical_matches bytes_eq new_envelope
parsed_body = refl

gets :
    (get_record (key 3) (put_handler (service_crates web) request (key 3) filled).1).0
    ≡ some (envelope_response (envelope 3, 1))
gets =
    get_after_put (service_crates web) request (key 3) sent.body (envelope 3) (created 1) filled
      refl refl filled-IsValid refl refl received parsed_body stored

published_is_fetched_example :
    get_response web (deliver (envelope_response (envelope 3, 1)))
    ≡ ok (some (record { envelope = envelope 3; revision = 1 }))
published_is_fetched_example =
    published_is_fetched laws json credentials (key 3) (envelope 3) sent request filled
      (mutation_success_response (created 1)) (deliver (mutation_success_response (created 1))) 1
      (envelope_response (envelope 3, 1)) (deliver (envelope_response (envelope 3, 1))) refl refl
      refl (omega arith) filled-IsValid refl sent_request refl received stored
      (deliver-Carries (mutation_success_response (created 1))) accepted gets
      (deliver-Carries (envelope_response (envelope 3, 1)))

-- A consumer of the account.
abbrev consumer : Credentials
consumer = record credentials { api_key_scope = download }
