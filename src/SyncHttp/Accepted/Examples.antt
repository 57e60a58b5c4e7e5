-- ===== src/SyncHttp/Accepted/Examples.antt =====
-- A host of crates/cli/src/sync/refresh.rs that seals, publishes and is found, at a concrete account.
use attached.Common.{
  ◌+◌, [], ◌∷◌, ◌++◌, some, bytes_eq, parse_unsigned, parse_onto, print_decimal, ok, ◌≡◌, refl,
  arith,
}
use attached.Api.Envelope.{new_envelope, Envelope}
use attached.Api.Sequence.{is_less, LiveRecordIndexEntry}
use attached.Api.Wire.{
  max_api_body_bytes, parse_json, parse_bounded, decode_wire, decode_fixed, decode_vec,
  canonical_matches,
}
use attached.Api.Wire.Padded.{padded}
use attached.Descriptor.Small.{
  outside, laws as chrono, descriptor, descriptor_types, descriptor_encodes, encoded, eight,
}
use attached.Descriptor.Model.{endpoint_identity}
use attached.Sealing.{
  Envelope as CryptoEnvelope, CheckedAdd, derive_host_access_descriptor_key,
  seal_host_access_descriptor_with_nonce,
}
use attached.Sealing.Small.{tag, cipher, cipher_laws}
use attached.Sealing.Making.{seal_ok}
use attached.Sealing.Opening.{IsCurrent}
use attached.Catalog.Model.{AccountCredentials, from_opened}
use attached.Catalog.Fetch.{FetchedRecord}
use attached.Catalog.Refresh.{accept_fetched}
use attached.Worker.Records.{created, put, revise, from_storage, validate_record}
use attached.Worker.Storage.Small.{key, account as stored_account, filled, filled-IsValid}
use attached.Worker.Storage.Operations.{
  put_record, load_record, live_record_count, put_current, write_record, write_statement,
  from_mutation, count_of_text,
}
use attached.Worker.Storage.Session.{exec, exec_on, delivered, ◌>>=◌}
use attached.Worker.Storage.Rows.{
  present, optional_row, required_row, single_value, single_text, revision_text, stored_revision,
  sql_text, parse_record, fixed_blob, variable_blob, or_unavailable, traverse,
}
use attached.Worker.Storage.Sql.{
  cast_text, select_record, select_count, lookup, record_rows, insert_record, record_checks, upsert,
}
use attached.Worker.Http.{
  method_put, Request, declared_too_large, grows_too_large, read_chunks, read_stream, read_declared,
  read_bounded_body, mutation_success_response,
}
use attached.Worker.Handlers.{
  envelope_response, put_handler, put_marked, put_body, put_envelope, get_record,
}
use attached.Worker.Handlers.PutGet.{get_after_put}
use attached.SyncHttp.{HttpRequest, HttpError}
use attached.SyncHttp.Reading.{json_type}
use attached.SyncHttp.Calls.{
  wire_of, bearer_value, record_url, authorization, put_request, get_response,
}
use attached.SyncHttp.Published.{service_crates}
use attached.SyncHttp.Accepted.{published_host_accepted}
use attached.SyncHttp.Examples.{
  text_of, web, laws, json, deliver, deliver-Carries, credentials, request_of, accepted,
}

abbrev account : AccountCredentials
account = record {
  service_origin = b'h' ∷ [];
  account_id = (stored_account 1).account_id;
  account_root_key = eight 6;
}

abbrev checked_add : CheckedAdd outside
checked_add = λ t s. some (t + s)

abbrev entry : LiveRecordIndexEntry
entry = record { record_id = key 3; revision = 1 }

abbrev sealed : CryptoEnvelope
sealed = record { nonce = eight 5 ++ eight 5 ++ eight 5; ciphertext = encoded ++ tag }

abbrev published : Envelope
published = record { envelope_version = 1; nonce = sealed.nonce; ciphertext = sealed.ciphertext }

seals :
    seal_host_access_descriptor_with_nonce outside cipher descriptor
      (eight 6)
      account.account_id
      (key 3)
      sealed.nonce
    ≡ ok sealed
unfolding derive_host_access_descriptor_key
seals = seal_ok descriptor (eight 6) account.account_id (key 3) sealed (record {
  plaintext = encoded;
  key = eight 6;
  encoded = descriptor_encodes;
  derived = refl;
  encrypted = refl;
  short = omega arith;
})

wrapped : new_envelope sealed.nonce sealed.ciphertext ≡ ok published
unfolding new_envelope
wrapped = refl

identified_by : endpoint_identity outside descriptor ≡ some (7 ∷ [])
unfolding endpoint_identity
identified_by = refl

abbrev sent : HttpRequest
unfolding wire_of bearer_value record_url
sent = record {
  method = method_put;
  url = record_url web credentials (key 3);
  authorization = some (bearer_value web credentials);
  content_type = some json_type;
  body = text_of (wire_of web published);
}

sent_request : put_request web credentials (key 3) published ≡ ok sent
unfolding put_request sent authorization
sent_request = refl

abbrev request : Request
request = request_of sent.body

received : read_bounded_body request max_api_body_bytes ≡ ok sent.body
unfolding sent wire_of read_bounded_body read_declared read_stream read_chunks grows_too_large
    declared_too_large
received = refl

stored :
    (put_handler (service_crates web) request (key 3) filled).0
    ≡ some (mutation_success_response (created 1))
unfolding sent wire_of put_handler put_marked put_body put_envelope parse_json parse_bounded
    decode_wire decode_fixed decode_vec canonical_matches bytes_eq new_envelope read_bounded_body
    read_declared read_stream read_chunks grows_too_large declared_too_large put_record load_record
    live_record_count put_current write_record write_statement from_mutation put revise from_storage
    validate_record exec exec_on delivered ◌>>=◌ optional_row required_row single_value single_text
    revision_text stored_revision sql_text cast_text parse_record fixed_blob variable_blob
    select_record select_count lookup record_rows insert_record record_checks upsert is_less
    or_unavailable traverse count_of_text present parse_unsigned print_decimal parse_onto
stored = refl

parsed_body : parse_json padded web.envelope_json sent.body ≡ ok published
unfolding sent wire_of parse_json parse_bounded decode_wire decode_fixed decode_vec
    canonical_matches bytes_eq new_envelope
parsed_body = refl

gets :
    (get_record (key 3) (put_handler (service_crates web) request (key 3) filled).1).0
    ≡ some (envelope_response (published, 1))
gets =
    get_after_put (service_crates web) request (key 3) sent.body published (created 1) filled refl
      refl filled-IsValid refl refl received parsed_body stored

current : IsCurrent checked_add descriptor 960
current = record { latest = 1020; latest_eq = refl; issued = refl; expires = refl }

published_host_accepted_example :
    (f : FetchedRecord) × (get_response web (deliver (envelope_response (published, 1)))
      ≡ ok (some f))
    × (accept_fetched cipher checked_add account 960 {Failure = HttpError}
          ([], [])
          entry
          (ok (some f))
        ≡ ok (from_opened outside (key 3) 1 descriptor (7 ∷ []) ∷ [], []))
published_host_accepted_example =
    published_host_accepted chrono cipher_laws checked_add account 960 descriptor descriptor_types
      sealed entry laws json credentials published sent request filled
      (mutation_success_response (created 1)) (deliver (mutation_success_response (created 1))) 1
      (envelope_response (published, 1)) (deliver (envelope_response (published, 1))) (7 ∷ []) [] []
      seals wrapped refl refl filled-IsValid refl sent_request refl received stored
      (deliver-Carries (mutation_success_response (created 1))) accepted gets
      (deliver-Carries (envelope_response (published, 1))) current identified_by
