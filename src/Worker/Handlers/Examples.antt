-- ===== src/Worker/Handlers/Examples.antt =====
-- The handlers of crates/session-sync-worker/src/api.rs at a small account.
use attached.Common.{print_decimal, parse_onto, bytes_eq, some, ok, parse_unsigned, ◌≡◌, refl}
use attached.Api.Wire.{
  parse_json, parse_bounded, decode_wire, decode_fixed, decode_vec, canonical_matches,
}
use attached.Api.Wire.Padded.{padded}
use attached.Api.Envelope.{new_envelope}
use attached.Worker.Records.{created, put, revise, from_storage, validate_record}
use attached.Worker.Storage.Small.{key, envelope, filled, filled-IsValid}
use attached.Worker.Storage.Operations.{
  put_record, load_record, live_record_count, put_current, write_record, write_statement,
  from_mutation, count_of_text,
}
use attached.Worker.Storage.Session.{exec, exec_on, delivered, ◌>>=◌}
use attached.Worker.Storage.Rows.{
  present, optional_row, required_row, single_value, single_text, revision_text, stored_revision,
  sql_text, parse_record, fixed_blob, variable_blob, or_unavailable, traverse,
}
use attached.Worker.Storage.Sql.{
  cast_text, select_record, select_count, lookup, record_rows, insert_record, record_checks, upsert,
}
use attached.Api.Sequence.{is_less}
use attached.Worker.Http.{
  declared_too_large, grows_too_large, read_chunks, read_stream, read_declared, read_bounded_body,
  mutation_success_response,
}
use attached.Worker.Http.Body.{concat}
use attached.Worker.Handlers.{
  put_handler, put_marked, put_body, put_envelope, get_record, route_account_request, fetched,
  envelope_response,
}
use attached.Worker.Handlers.Authorization.{Allowed, route_account_request-Allowed}
use attached.Worker.Handlers.PutGet.{get_after_put}
use attached.Worker.Handlers.Small.{wire, crates, chunks, put_request, body_read}

parsed_body : parse_json padded (λ _. some wire) (concat chunks) ≡ ok (envelope 3)
unfolding parse_json parse_bounded decode_wire decode_fixed decode_vec canonical_matches bytes_eq
    new_envelope
parsed_body = refl

route_account_request-Allowed_example :
    Allowed crates put_request filled (fetched (route_account_request crates put_request filled))
route_account_request-Allowed_example = route_account_request-Allowed crates put_request filled

stored :
    (put_handler crates put_request (key 3) filled).0 ≡ some (mutation_success_response (created 1))
unfolding put_handler put_marked put_body put_envelope parse_json parse_bounded decode_wire
    decode_fixed decode_vec canonical_matches bytes_eq new_envelope read_bounded_body read_declared
    read_stream read_chunks grows_too_large declared_too_large put_record load_record
    live_record_count put_current write_record write_statement from_mutation put revise from_storage
    validate_record exec exec_on delivered ◌>>=◌ optional_row required_row single_value single_text
    revision_text stored_revision sql_text cast_text parse_record fixed_blob variable_blob
    select_record select_count lookup record_rows insert_record record_checks upsert is_less
    or_unavailable traverse count_of_text present parse_unsigned print_decimal parse_onto
stored = refl

get_after_put_example :
    (get_record (key 3) (put_handler crates put_request (key 3) filled).1).0
    ≡ some (envelope_response (envelope 3, 1))
get_after_put_example =
    get_after_put crates put_request (key 3) (concat chunks) (envelope 3) (created 1) filled refl
      refl filled-IsValid refl refl body_read parsed_body stored
