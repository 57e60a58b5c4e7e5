-- ===== src/Worker/Http.antt =====
-- crates/session-sync-worker/src/api.rs: requests as far as the handlers of an account object read
-- them, the bounded body, and the responses. The texts of header values are symbols.
pub mod Body
use attached.Common.{
  ℕ, ◌+◌, ◌^◌, Bool, true, false, not, ◌||◌, ltb, if◌then◌else◌, List, [], ◌∷◌, ◌++◌, length,
  Option, none, some, Bytes, parse_unsigned, Result, ok, err,
}
use attached.Api.Envelope.{Envelope}
use attached.Api.Sequence.{LiveRecordIndex}
use attached.Worker.Account.{MutationError, live_quota_exceeded, revision_overflow, invalid_storage}
use attached.Worker.Records.{MutationOutcome, created, updated}

pub data Method : Type 0 where
  method_get method_put method_post method_other : Method

-- What `headers.get` returns; the outer `none` is its error.
abbrev pub HeaderValue : Type 0
HeaderValue = Option (Option Bytes)

-- A body: whether its stream opens, and its chunks, `none` where the stream breaks.
pub record BodyStream : Type 0 where
  pub opens : Bool
  pub chunks : List (Option Bytes)

pub record Request : Type 0 where
  pub method : Method
  pub account_id : Option Bytes
  pub record_id : Option Bytes
  pub authorization : HeaderValue
  pub content_length : HeaderValue
  -- `has` of the private marker of an oversized body
  pub oversized : Option Bool
  pub body : Option BodyStream
  -- whether cancelling the body succeeds
  pub cancels : Bool

pub data BodyReadError : Type 0 where
  body_too_large body_unavailable : BodyReadError

abbrev pub over_limit : ℕ → Option ℕ → Bool
over_limit limit none = false
over_limit limit (some n) = ltb limit n

-- The test of `content-length`.
unfoldable pub declared_too_large : ℕ → Option Bytes → Bool
declared_too_large limit none = false
declared_too_large limit (some text) = over_limit limit (parse_unsigned (2 ^ 64) text)

-- `next > limit`, or the sum overflows: `usize` has 32 bits on this platform.
unfoldable pub grows_too_large : ℕ → Bytes → Bytes → Bool
grows_too_large limit output chunk =
    not (ltb (length output + length chunk) (2 ^ 32)) || ltb limit (length output + length chunk)

-- The loop over the stream.
unfoldable pub read_chunks : ℕ → Bool → Bytes → List (Option Bytes) → Result BodyReadError Bytes
read_chunks limit too_large output [] = if too_large then err body_too_large else ok output
read_chunks limit too_large output (none ∷ chunks) = err body_unavailable
read_chunks limit true output (some chunk ∷ chunks) = read_chunks limit true output chunks
read_chunks limit false output (some chunk ∷ chunks) =
    read_chunks limit (grows_too_large limit output chunk)
      (if grows_too_large limit output chunk then [] else output ++ chunk) chunks

unfoldable pub read_stream : ℕ → Bool → Option BodyStream → Result BodyReadError Bytes
read_stream limit too_large none = if too_large then err body_too_large else ok []
read_stream limit too_large (some stream) =
    if stream.opens then read_chunks limit too_large [] stream.chunks else err body_unavailable

unfoldable pub read_declared : ℕ → HeaderValue → Option BodyStream → Result BodyReadError Bytes
read_declared limit none body = err body_unavailable
read_declared limit (some value) body = read_stream limit (declared_too_large limit value) body

unfoldable pub read_bounded_body : Request → ℕ → Result BodyReadError Bytes
read_bounded_body request limit = read_declared limit request.content_length request.body

pub data ErrorCode : Type 0 where
  code_invalid_request code_unauthorized code_too_large code_quota_exceeded code_rate_limited
        code_unavailable :
      ErrorCode

pub data ResponseHeader : Type 0 where
  no_store_header www_authenticate_header : ResponseHeader
  retry_after_header etag_header : ℕ → ResponseHeader
  allow_header : List Method → ResponseHeader

pub data ResponseBody : Type 0 where
  no_body : ResponseBody
  error_body : ErrorCode → ResponseBody
  envelope_body : Envelope → ResponseBody
  index_body : LiveRecordIndex → ResponseBody
  -- the fields of CreateAccountResponse
  account_body : (account_id publish_api_token download_api_token : Bytes) → ResponseBody

pub record Response : Type 0 where
  pub status : ℕ
  pub headers : List ResponseHeader
  pub body : ResponseBody

abbrev pub set_header : Response → ResponseHeader → Response
set_header response header = record response { headers = response.headers ++ header ∷ [] }

abbrev pub no_store : Response → Response
no_store response = set_header response no_store_header

abbrev pub json_response : ℕ → ResponseBody → Response
json_response status body = no_store (record { status = status; headers = []; body = body })

abbrev pub empty_response : ℕ → Response
empty_response status = no_store (record { status = status; headers = []; body = no_body })

abbrev pub error_response : ℕ → ErrorCode → Response
error_response status code = json_response status (error_body code)

abbrev pub etag_response : Response → ℕ → Response
etag_response response revision = set_header response (etag_header revision)

abbrev pub unauthorized_response : Response
unauthorized_response = set_header (empty_response 401) www_authenticate_header

abbrev pub unavailable_response : Response
unavailable_response = set_header (error_response 503 code_unavailable) (retry_after_header 1)

abbrev pub mutation_success_response : MutationOutcome → Response
mutation_success_response (created revision) = etag_response (empty_response 201) revision
mutation_success_response (updated revision) = etag_response (empty_response 204) revision

abbrev pub mutation_error_response : MutationError → Response
mutation_error_response MutationError.invalid_request = error_response 400 code_invalid_request
mutation_error_response live_quota_exceeded =
    set_header (error_response 429 code_quota_exceeded) (retry_after_header 60)
mutation_error_response revision_overflow = unavailable_response
mutation_error_response invalid_storage = unavailable_response

abbrev pub method_not_allowed_response : List Method → Response
method_not_allowed_response allow =
    set_header (error_response 405 code_invalid_request) (allow_header allow)
