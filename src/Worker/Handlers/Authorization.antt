-- ===== src/Worker/Handlers/Authorization.antt =====
-- crates/session-sync-worker/src/api.rs: what the object does for requests without a token of it.
use attached.Common.{
  ◌≤◌, Bool, true, false, [], ◌∷◌, Bytes, Option, none, some, Result, ok, err, ◌≡◌, refl, ◌∙◌,
  arith,
}
use attached.Account.Tokens.{parse_account_id}
use attached.Account.Bundles.{AccountError}
use attached.Worker.Account.{publish, download}
use attached.Worker.Storage.Rows.{StoreError}
use attached.Worker.Storage.Session.{Storage}
use attached.Worker.Storage.Operations.{load_index, load_record}
use attached.Worker.Storage.Keeping.{load_index-Keeps, load_record-Keeps}
use attached.Api.Sequence.{LiveRecordIndex}
use attached.Worker.Records.{StoredRecord}
use attached.Worker.Http.{
  Method, method_get, method_put, method_post, method_other, Request, BodyStream, Response,
  unauthorized_response, unavailable_response,
}
use attached.Worker.Handlers.Authentication.{
  Grants, Authenticates, authenticate_request-Authenticates,
}
use attached.Worker.Handlers.{
  Reply, AuthenticationError, unauthorized, authentication_unavailable, AccountOperation,
  list_records_operation, get_record_operation, put_record_operation, cancelled,
  cancel_request_body, list_answer, list_records, get_answer, get_record, required_scope,
  parsed_or_none, Crates, authenticated, record_operation, operation_of, route_operation,
  route_account, route_parameter, route_account_request, fetched,
}

-- The account that the path of the request names.
abbrev pub Names : Crates → Request → Bytes → Type 0
Names crates request account_id =
    (text : Bytes) × (request.account_id ≡ some text)
    × (parse_account_id crates.uuid text ≡ ok account_id)

-- What a request may have done: nothing, or a read or a write that its token allows.
pub data Allowed (crates : Crates) (request : Request) (s : Storage) (r : Response × Storage)
    : Type 0 where
  refused : r.1.tables ≡ s.tables → 400 ≤ r.0.status → Allowed crates request s r
  read :
      (account_id : Bytes)
      → request.method ≡ method_get
      → Names crates request account_id
      → Grants crates request.authorization account_id download s
      → r.1.tables ≡ s.tables
      → Allowed crates request s r
  written :
      (account_id : Bytes)
      → request.method ≡ method_put
      → Names crates request account_id
      → Grants crates request.authorization account_id publish s
      → Allowed crates request s r

tables-cancelled :
    (request : Request) (reply : Reply) (s s' : Storage)
    → reply.1.tables ≡ s.tables
    → s'.tables ≡ s.tables
    → (fetched (cancel_request_body request reply s')).1.tables ≡ s.tables
unfolding fetched cancel_request_body
tables-cancelled request reply s s' h k = by_cases request.body request.cancels reply h
  where
    by_cases :
        (body : Option BodyStream) (cancels : Bool) (reply : Reply)
        → reply.1.tables ≡ s.tables
        → (fetched (cancelled body cancels reply s')).1.tables ≡ s.tables
    by_cases none cancels (some r, s₁) h = h
    by_cases none cancels (none, s₁) h = h
    by_cases (some _) true (some r, s₁) h = h
    by_cases (some _) true (none, s₁) h = h
    by_cases (some _) false reply h = k

status-cancelled :
    (request : Request) (response : Response) (s : Storage)
    → 400 ≤ response.status
    → 400 ≤ (fetched (cancel_request_body request (some response, s) s)).0.status
unfolding fetched cancel_request_body
status-cancelled request response s h = by_cases request.body request.cancels
  where
    by_cases :
        (body : Option BodyStream) (cancels : Bool)
        → 400 ≤ (fetched (cancelled body cancels (some response, s) s)).0.status
    by_cases none cancels = h
    by_cases (some _) true = h
    by_cases (some _) false = omega arith

tables-list_records : (s : Storage) → (list_records s).1.tables ≡ s.tables
unfolding list_records
tables-list_records s = answered (load_index s) ∙ load_index-Keeps s
  where
    answered :
        (x : Result StoreError LiveRecordIndex × Storage) → (list_answer x).1.tables ≡ x.1.tables
    answered (ok index, s') = refl
    answered (err e, s') = refl

tables-get_record : (id : Bytes) (s : Storage) → (get_record id s).1.tables ≡ s.tables
unfolding get_record
tables-get_record id s = answered (load_record id s) ∙ load_record-Keeps id s
  where
    answered :
        (x : Result StoreError (Option StoredRecord) × Storage)
        → (get_answer x).1.tables ≡ x.1.tables
    answered (ok (some r), s') = refl
    answered (ok none, s') = refl
    answered (err e, s') = refl

-- The method of an operation.
abbrev method_for : AccountOperation → Method
method_for list_records_operation = method_get
method_for (get_record_operation _) = method_get
method_for (put_record_operation _) = method_put

module _ (crates : Crates) (request : Request) (s : Storage) where
  authenticated_lem :
      (account_id : Bytes) (operation : AccountOperation)
      → Names crates request account_id
      → request.method ≡ method_for operation
      → (x : Result AuthenticationError (Unit {0}) × Storage)
      → Authenticates crates request.authorization account_id (required_scope operation) s x
      → Allowed crates request s (fetched (authenticated crates request operation x))
  unfolding authenticated required_scope
  authenticated_lem id operation names m (err unauthorized, s') same =
      refused (tables-cancelled request (some unauthorized_response, s') s s' same same)
        (status-cancelled request unauthorized_response s' (omega arith))
  authenticated_lem id operation names m (err authentication_unavailable, s') same =
      refused (tables-cancelled request (some unavailable_response, s') s s' same same)
        (status-cancelled request unavailable_response s' (omega arith))
  authenticated_lem id list_records_operation names m (ok _, s') (same, grants) =
      read id m names grants
        (tables-cancelled request (list_records s') s s' (tables-list_records s' ∙ same) same)
  authenticated_lem id (get_record_operation record_id) names m (ok _, s') (same, grants) =
      read id m names grants (
        tables-cancelled request (get_record record_id s') s s'
          (tables-get_record record_id s' ∙ same) same)
  authenticated_lem id (put_record_operation record_id) names m (ok _, s') (same, grants) =
      written id m names grants

  record_operation_cases :
      (f : Bytes → AccountOperation) (account_id : Bytes) (o : Option Bytes)
      → Names crates request account_id
      → ((id : Bytes) → request.method ≡ method_for (f id))
      → Allowed crates request s
          (fetched (route_operation crates request account_id (record_operation crates f o) s))
  unfolding route_operation fetched
  record_operation_cases f account_id none names m = refused refl (omega arith)
  record_operation_cases f account_id (some id) names m =
      authenticated_lem account_id (f id) names (m id) _ (
        authenticate_request-Authenticates crates account_id (required_scope (f id)) s
          request.authorization)

  operation_cases :
      (account_id : Bytes) (method : Method) (record_id : Option Bytes)
      → Names crates request account_id
      → request.method ≡ method
      → Allowed crates request s (
          fetched
            (route_operation crates request account_id (operation_of crates method record_id) s))
  unfolding operation_of route_operation fetched
  operation_cases account_id method_get none names m =
      authenticated_lem account_id list_records_operation names m _ (
        authenticate_request-Authenticates crates account_id (required_scope list_records_operation)
          s request.authorization)
  operation_cases account_id method_get (some value) names m =
      record_operation_cases get_record_operation account_id _ names (λ id. m)
  operation_cases account_id method_put none names m = refused refl (omega arith)
  operation_cases account_id method_put (some value) names m =
      record_operation_cases put_record_operation account_id _ names (λ id. m)
  operation_cases account_id method_post record_id names m = refused refl (omega arith)
  operation_cases account_id method_other record_id names m = refused refl (omega arith)

  account_cases :
      (text : Bytes) (r : Result AccountError Bytes)
      → request.account_id ≡ some text
      → parse_account_id crates.uuid text ≡ r
      → Allowed crates request s (fetched (route_account crates request (parsed_or_none r) s))
  unfolding route_account fetched
  account_cases text (err e) h k = refused refl (omega arith)
  account_cases text (ok account_id) h k =
      operation_cases account_id request.method request.record_id (text, h, k) refl

  parameter_cases :
      (parameter : Option Bytes)
      → request.account_id ≡ parameter
      → Allowed crates request s (fetched (route_parameter crates request parameter s))
  unfolding route_parameter fetched
  parameter_cases none h = refused refl (omega arith)
  parameter_cases (some []) h = refused refl (omega arith)
  parameter_cases (some (c ∷ value)) h = account_cases (c ∷ value) _ h refl

  -- A request to an account object is refused with an error status and leaves the tables, or it is
  -- a GET with a download token of the account that the object stores and the path names, and leaves
  -- the tables, or it is a PUT with a publish token of that account.
  pub route_account_request-Allowed :
      Allowed crates request s (fetched (route_account_request crates request s))
  unfolding route_account_request
  route_account_request-Allowed = parameter_cases request.account_id refl
