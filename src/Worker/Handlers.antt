-- ===== src/Worker/Handlers.antt =====
-- crates/session-sync-worker/src/api.rs: the handlers of an account object. Building a response
-- does not fail: its header names and values are fixed texts and numbers.
pub mod Authentication
pub mod Authorization
pub mod PutGet
pub mod Small
mod Examples
use attached.Common.{
  ℕ, Bool, true, false, if◌then◌else◌, [], ◌∷◌, Bytes, bytes_eq, Option, none, some, Result, ok,
  err,
}
use attached.Api.Envelope.{ApiError, too_large, Envelope}
use attached.Api.Sequence.{LiveRecordIndex}
use attached.Api.Wire.{Base64, EnvelopeWire, max_api_body_bytes, parse_json}
use attached.Account.Tokens.{parse_account_id, parse_record_id, parse_authorization}
use attached.Account.Bundles.{AccountError}
use attached.Worker.Account.{
  MutationError, UuidCrate, ApiKeyScope, publish, download, StoredAccount, authenticate,
  encoded_account_bytes, decode,
}
use attached.Worker.Records.{MutationOutcome, StoredRecord, into_envelope}
use attached.Worker.Storage.Rows.{StoreError, unavailable, mutation}
use attached.Worker.Storage.Session.{Storage}
use attached.Worker.Storage.Operations.{
  InitializeOutcome, initialized, already_exists, initialize, load_account, load_index, load_record,
  put_record,
}
use attached.Worker.Http.{
  Method, method_get, method_put, method_post, method_other, HeaderValue, Request, BodyStream,
  BodyReadError, body_too_large, body_unavailable, read_bounded_body, code_invalid_request,
  code_too_large, index_body, envelope_body, Response, json_response, empty_response,
  error_response, etag_response, unauthorized_response, unavailable_response,
  mutation_success_response, mutation_error_response,
}

-- `worker::Result<Response>`, and the storage afterwards.
abbrev pub Reply : Type 0
Reply = Option Response × Storage

pub data AuthenticationError : Type 0 where
  unauthorized authentication_unavailable : AuthenticationError

pub data AccountOperation : Type 0 where
  list_records_operation : AccountOperation
  get_record_operation put_record_operation : (record_id : Bytes) → AccountOperation

-- `cancel_request_body(&request).await?`, and what follows.
abbrev pub cancelled : Option BodyStream → Bool → Reply → Storage → Reply
cancelled none cancels reply s = reply
cancelled (some _) true reply s = reply
cancelled (some _) false reply s = (none, s)

unfoldable pub cancel_request_body : Request → Reply → Storage → Reply
cancel_request_body request reply s = cancelled request.body request.cancels reply s

-- The answer of `list_records` to what the storage returns.
abbrev pub list_answer : Result StoreError LiveRecordIndex × Storage → Reply
list_answer (ok index, s) = (some (json_response 200 (index_body index)), s)
list_answer (err _, s) = (some unavailable_response, s)

unfoldable pub list_records : Storage → Reply
list_records s = list_answer (load_index s)

abbrev pub envelope_response : Envelope × ℕ → Response
envelope_response (envelope, revision) =
    etag_response (json_response 200 (envelope_body envelope)) revision

abbrev pub get_answer : Result StoreError (Option StoredRecord) × Storage → Reply
get_answer (ok (some stored), s) = (some (envelope_response (into_envelope stored)), s)
get_answer (ok none, s) = (some (error_response 404 code_invalid_request), s)
get_answer (err _, s) = (some unavailable_response, s)

unfoldable pub get_record : Bytes → Storage → Reply
get_record record_id s = get_answer (load_record record_id s)

abbrev pub put_answer : Result StoreError MutationOutcome × Storage → Reply
put_answer (ok outcome, s) = (some (mutation_success_response outcome), s)
put_answer (err (mutation error), s) = (some (mutation_error_response error), s)
put_answer (err unavailable, s) = (some unavailable_response, s)

-- Behind `Envelope::parse_json`.
unfoldable pub put_envelope : Bytes → Result ApiError Envelope → Storage → Reply
put_envelope record_id (ok envelope) s = put_answer (put_record record_id envelope s)
put_envelope record_id (err too_large) s = (some (error_response 413 code_too_large), s)
put_envelope record_id (err ApiError.invalid_request) s =
    (some (error_response 400 code_invalid_request), s)

abbrev pub initialize_answer : Result StoreError InitializeOutcome × Storage → Reply
initialize_answer (ok initialized, s) = (some (empty_response 204), s)
initialize_answer (ok already_exists, s) = (some (empty_response 409), s)
initialize_answer (err _, s) = (some unavailable_response, s)

-- Behind `StoredAccount::decode`.
abbrev pub initialize_decoded : Result MutationError StoredAccount → Storage → Reply
initialize_decoded (ok account) s = initialize_answer (initialize account s)
initialize_decoded (err _) s = (some unavailable_response, s)

abbrev pub initialize_encoded : UuidCrate → Result BodyReadError Bytes → Storage → Reply
initialize_encoded uuid (ok encoded) s = initialize_decoded (decode uuid encoded) s
initialize_encoded uuid (err _) s = (some unavailable_response, s)

unfoldable pub initialize_account : UuidCrate → Request → Storage → Reply
initialize_account uuid request s =
    initialize_encoded uuid (read_bounded_body request encoded_account_bytes) s

-- `match operation`, for the scope.
unfoldable pub required_scope : AccountOperation → ApiKeyScope
required_scope list_records_operation = download
required_scope (get_record_operation _) = download
required_scope (put_record_operation _) = publish

-- `.ok()`
abbrev pub parsed_or_none : Result AccountError Bytes → Option Bytes
parsed_or_none (ok id) = some id
parsed_or_none (err _) = none

-- What the handlers call of other crates: UUIDs, base64, the hash of a token, and the JSON reader of the
-- fields of an envelope.
pub record Crates : Type 0 where
  pub uuid : UuidCrate
  pub base64 : Base64
  pub service_hash : Bytes → Bytes
  pub envelope_json : Bytes → Option EnvelopeWire

module _ (crates : Crates) where
  unfoldable pub put_body : Bytes → Result BodyReadError Bytes → Storage → Reply
  put_body record_id (ok body) s =
      put_envelope record_id (parse_json crates.base64 crates.envelope_json body) s
  put_body record_id (err body_too_large) s = (some (error_response 413 code_too_large), s)
  put_body record_id (err body_unavailable) s = (some unavailable_response, s)

  -- By the marker of an oversized body.
  unfoldable pub put_marked : Request → Bytes → Option Bool → Storage → Reply
  put_marked request record_id none s = (none, s)
  put_marked request record_id (some true) s =
      cancel_request_body request (some (error_response 413 code_too_large), s) s
  put_marked request record_id (some false) s =
      put_body record_id (read_bounded_body request max_api_body_bytes) s

  unfoldable pub put_handler : Request → Bytes → Storage → Reply
  put_handler request record_id s = put_marked request record_id request.oversized s

  -- The tests on the account that was loaded.
  unfoldable pub authenticate_account :
      Bytes
      → ApiKeyScope
      → Bytes
      → Result StoreError (Option StoredAccount)
      → Result AuthenticationError (Unit {0})
  authenticate_account account_id scope token (err _) = err authentication_unavailable
  authenticate_account account_id scope token (ok none) = err unauthorized
  authenticate_account account_id scope token (ok (some account)) =
      if bytes_eq account.account_id account_id
      then (if authenticate account (crates.service_hash token) scope
          then ok tt
          else err unauthorized)
      else err authentication_unavailable

  -- Behind `parse_authorization`.
  unfoldable pub authenticate_token :
      Bytes
      → ApiKeyScope
      → Result AccountError Bytes
      → Storage
      → Result AuthenticationError (Unit {0}) × Storage
  authenticate_token account_id scope (err _) s = (err unauthorized, s)
  authenticate_token account_id scope (ok token) s =
      let (loaded, s') = load_account crates.uuid s in
      (authenticate_account account_id scope token loaded, s')

  unfoldable pub authenticate_request :
      HeaderValue → Bytes → ApiKeyScope → Storage → Result AuthenticationError (Unit {0}) × Storage
  authenticate_request none account_id scope s = (err unauthorized, s)
  authenticate_request (some none) account_id scope s = (err unauthorized, s)
  authenticate_request (some (some value)) account_id scope s =
      authenticate_token account_id scope (parse_authorization crates.base64 (value ∷ [])) s

  -- The operation behind its authentication; only an accepted put keeps its body.
  unfoldable pub authenticated :
      Request → AccountOperation → Result AuthenticationError (Unit {0}) × Storage → Reply
  authenticated request operation (err unauthorized, s) =
      cancel_request_body request (some unauthorized_response, s) s
  authenticated request operation (err authentication_unavailable, s) =
      cancel_request_body request (some unavailable_response, s) s
  authenticated request list_records_operation (ok _, s) =
      cancel_request_body request (list_records s) s
  authenticated request (get_record_operation record_id) (ok _, s) =
      cancel_request_body request (get_record record_id s) s
  authenticated request (put_record_operation record_id) (ok _, s) = put_handler request record_id s

  -- `record_id_param(&context)` for the operation.
  abbrev pub record_operation :
      (Bytes → AccountOperation) → Option Bytes → Result Response AccountOperation
  record_operation operation none = err (error_response 400 code_invalid_request)
  record_operation operation (some record_id) = ok (operation record_id)

  abbrev record_id_param : Bytes → Option Bytes
  record_id_param value = parsed_or_none (parse_record_id crates.base64 value)

  -- `match (request.method(), context.param("record_id"))`, with the response of a request that is
  -- no operation.
  unfoldable pub operation_of : Method → Option Bytes → Result Response AccountOperation
  operation_of method_get none = ok list_records_operation
  operation_of method_get (some value) =
      record_operation get_record_operation (record_id_param value)
  operation_of method_put none = err (error_response 404 code_invalid_request)
  operation_of method_put (some value) =
      record_operation put_record_operation (record_id_param value)
  operation_of method_post _ = err (error_response 404 code_invalid_request)
  operation_of method_other _ = err (error_response 404 code_invalid_request)

  unfoldable pub route_operation :
      Request → Bytes → Result Response AccountOperation → Storage → Reply
  route_operation request account_id (err response) s = (some response, s)
  route_operation request account_id (ok operation) s =
      authenticated request operation
        (authenticate_request request.authorization account_id (required_scope operation) s)

  -- Behind `account_id_param(&context)`.
  unfoldable pub route_account : Request → Option Bytes → Storage → Reply
  route_account request none s = (some (error_response 400 code_invalid_request), s)
  route_account request (some account_id) s =
      route_operation request account_id (operation_of request.method request.record_id) s

  unfoldable pub route_parameter : Request → Option Bytes → Storage → Reply
  route_parameter request none s = (some (error_response 404 code_invalid_request), s)
  route_parameter request (some []) s = (some (error_response 404 code_invalid_request), s)
  route_parameter request (some (c ∷ value)) s =
      route_account request (parsed_or_none (parse_account_id crates.uuid (c ∷ value))) s

  unfoldable pub route_account_request : Request → Storage → Reply
  route_account_request request s = route_parameter request request.account_id s

-- `AccountObject::fetch` on the reply of its handler.
unfoldable pub fetched : Reply → Response × Storage
fetched (some response, s) = (response, s)
fetched (none, s) = (unavailable_response, s)
