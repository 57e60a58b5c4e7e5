-- ===== src/Worker/Forward.antt =====
-- crates/session-sync-worker/src/api.rs: the public Worker in front of the account objects. The
-- platform hands the bytes of a new request to its reader.
pub mod Alike
pub mod Transparent
pub mod Small
mod Examples
use attached.Common.{
  Bool, true, false, if◌then◌else◌, [], ◌∷◌, List, Bytes, bytes_eq, Option, none, some, Result, ok,
  err,
}
use attached.Api.Wire.{max_api_body_bytes}
use attached.Account.Tokens.{parse_account_id, parse_record_id}
use attached.Worker.Storage.Session.{Storage}
use attached.Worker.Http.{
  Method, method_get, method_put, method_post, method_other, HeaderValue, Request, BodyStream,
  BodyReadError, body_too_large, body_unavailable, read_bounded_body, code_invalid_request,
  Response, error_response, method_not_allowed_response, unavailable_response,
}
use attached.Worker.Http.Body.{whole}
use attached.Worker.Handlers.{Reply, Crates, parsed_or_none, route_account_request, fetched}

-- The reader's view of a request that the Worker made of some bytes: its length header, and its chunks.
pub record Platform : Type 0 where
  pub length_header : Bytes → Option Bytes
  pub chunks : Bytes → List Bytes

-- `none` is an error. The URL of the request, which the router has read, keeps its parameters.
abbrev pub with_authorization : HeaderValue → Request → Option Request
with_authorization none forwarded = none
with_authorization (some value) forwarded = some (record forwarded { authorization = some value })

unfoldable pub forwarded_get_request : Request → Option Request
forwarded_get_request request = with_authorization request.authorization (record {
  method = method_get;
  account_id = request.account_id;
  record_id = request.record_id;
  authorization = some none;
  content_length = some none;
  oversized = some false;
  body = none;
  cancels = true;
})

module _ (platform : Platform) where
  -- The new request of a PUT, on a body and the marker.
  unfoldable pub put_request_of : Request → Bytes → Bool → Option Request
  put_request_of request body too_large = with_authorization request.authorization (record {
    method = method_put;
    account_id = request.account_id;
    record_id = request.record_id;
    authorization = some none;
    content_length = some (platform.length_header body);
    oversized = some too_large;
    body = some (record { opens = true; chunks = whole (platform.chunks body) });
    cancels = true;
  })

  abbrev pub buffered : Request → Result BodyReadError Bytes → Option Request
  buffered request (ok body) = put_request_of request body false
  buffered request (err body_too_large) = put_request_of request [] true
  buffered request (err body_unavailable) = none

  unfoldable pub buffered_put_request : Request → Option Request
  buffered_put_request request = buffered request (read_bounded_body request max_api_body_bytes)

  -- By the method; other methods were refused.
  unfoldable pub forwarded_request : Method → Request → Option Request
  forwarded_request method_get request = forwarded_get_request request
  forwarded_request method_put request = buffered_put_request request
  forwarded_request method_post request = none
  forwarded_request method_other request = none

-- What `fetch_with_request` on the stub of an object does: a call that is lost may have been served.
pub data Fetch : Type 0 where
  delivered lost_before lost_after : Fetch

pub record Link : Type 0 where
  -- whether the binding and the stub are there
  pub bound : Bool
  pub fetch : Fetch

-- The objects by the name of their account.
abbrev pub Objects : Type 0
Objects = Bytes → Storage

abbrev pub stored_object : Bytes → Storage → Objects → Objects
stored_object name s objects other = if bytes_eq name other then s else objects other

-- The answer of an object, and the objects afterwards; `none` is a lost call.
abbrev pub fetch_object :
    Fetch → (Storage → Response × Storage) → Bytes → Objects → Option Response × Objects
fetch_object delivered serve name objects =
    (some (serve (objects name)).0, stored_object name (serve (objects name)).1 objects)
fetch_object lost_before serve name objects = (none, objects)
fetch_object lost_after serve name objects =
    (none, stored_object name (serve (objects name)).1 objects)

-- `Err(_) => unavailable_response()`
abbrev pub or_unavailable_response : Option Response × Objects → Option Response × Objects
or_unavailable_response (some response, objects) = (some response, objects)
or_unavailable_response (none, objects) = (some unavailable_response, objects)

module _ (platform : Platform) (crates : Crates) where
  abbrev pub serve : Request → Storage → Response × Storage
  serve request s = fetched (route_account_request crates request s)

  abbrev pub sent : Link → Bytes → Option Request → Objects → Option Response × Objects
  sent link account_id none objects = (some unavailable_response, objects)
  sent link account_id (some request) objects =
      if link.bound
      then or_unavailable_response (fetch_object link.fetch (serve request) account_id objects)
      else (none, objects)

  unfoldable pub forward_account_request :
      Link → Request → Bytes → Objects → Option Response × Objects
  forward_account_request link request account_id objects =
      sent link account_id (forwarded_request platform request.method request) objects

  -- The methods that a path allows.
  abbrev pub allowed : Option Bytes → List Method
  allowed none = method_get ∷ []
  allowed (some _) = method_get ∷ method_put ∷ []

  unfoldable pub is_allowed : Method → Option Bytes → Bool
  is_allowed method_get record_id = true
  is_allowed method_put none = false
  is_allowed method_put (some _) = true
  is_allowed method_post record_id = false
  is_allowed method_other record_id = false

  -- `record_route && record_id_param(&context).is_none()`
  unfoldable pub record_id_is_invalid : Option Bytes → Bool
  record_id_is_invalid none = false
  record_id_is_invalid (some value) = elim (parse_record_id crates.base64 value) [
    | ok _ ↦ false
    | err _ ↦ true
  ]

  -- Behind `account_id_param`.
  unfoldable pub route_public_account :
      Link → Request → Option Bytes → Objects → Option Response × Objects
  route_public_account link request none objects =
      (some (error_response 400 code_invalid_request), objects)
  route_public_account link request (some account_id) objects =
      if record_id_is_invalid request.record_id
      then (some (error_response 400 code_invalid_request), objects)
      else forward_account_request link request account_id objects

  unfoldable pub route_public_parameter :
      Link → Request → Option Bytes → Objects → Option Response × Objects
  route_public_parameter link request none objects =
      (some (error_response 404 code_invalid_request), objects)
  route_public_parameter link request (some []) objects =
      (some (error_response 404 code_invalid_request), objects)
  route_public_parameter link request (some (c ∷ value)) objects =
      if is_allowed request.method request.record_id
      then route_public_account link request
          (parsed_or_none (parse_account_id crates.uuid (c ∷ value))) objects
      else (some (method_not_allowed_response (allowed request.record_id)), objects)

  unfoldable pub route_public_account_request : Link → Request → Objects → Option Response × Objects
  route_public_account_request link request objects =
      route_public_parameter link request request.account_id objects
