-- ===== src/SyncHttp.antt =====
-- crates/cli/src/sync/http.rs: the requests and answers of the synchronization client.
pub mod Reading
pub mod Calls
pub mod Revision
pub mod Bodies
pub mod Headers
pub mod Fetched
pub mod Delivered
pub mod Published
pub mod Refreshing
pub mod Accepted
mod Examples
use attached.Common.{ℕ, List, Option, Bytes}
use attached.Api.Wire.{Base64, EnvelopeWire}
use attached.Api.Sequence.{LiveRecordIndexEntry}
use attached.Worker.Account.{UuidCrate, ApiKeyScope}
use attached.Worker.Http.{Method, ErrorCode}

pub data HttpError : Type 0 where
  download_key_required publish_key_required invalid_credential encoding_failed not_sent
        unexpected_content_type not_no_store missing_etag invalid_etag malformed_etag
        non_canonical_etag revision_overflow exceeds_limit length_overflow body_broken
        invalid_body :
      HttpError
  service_returned : (status : ℕ) → Option ErrorCode → HttpError

-- `reqwest::Response`; a chunk is `none` where the stream breaks.
pub record HttpResponse : Type 0 where
  pub status : ℕ
  pub content_type : Option Bytes
  pub etag : Option Bytes
  pub cache_control : Option Bytes
  pub content_length : Option ℕ
  pub chunks : List (Option Bytes)

pub record HttpRequest : Type 0 where
  pub method : Method
  pub url : Bytes
  pub authorization : Option Bytes
  pub content_type : Option Bytes
  pub body : Bytes

-- Of crates/cli/src/sync/state.rs, the fields of AccountCredentials that requests are made of.
pub record Credentials : Type 0 where
  pub service_origin : Bytes
  pub account_id : Bytes
  pub api_key_scope : ApiKeyScope
  pub api_token : Bytes

-- The crates reqwest, http, serde_json, base64 and uuid, over a world in which requests are answered.
pub record Web : Type 1 where
  pub W : Type 0
  pub send : HttpRequest → W → W × Option HttpResponse
  -- `HeaderValue::to_str` and `HeaderValue::from_bytes`
  pub to_str : Bytes → Option Bytes
  pub from_bytes : Bytes → Option Bytes
  pub to_vec : EnvelopeWire → Option Bytes
  pub envelope_json : Bytes → Option EnvelopeWire
  pub error_json : Bytes → Option ErrorCode
  -- the entries of a live record index
  pub index_json : Bytes → Option (List LiveRecordIndexEntry)
  -- the three texts of an account-creation response
  pub account_json : Bytes → Option (Bytes × Bytes × Bytes)
  -- `ApiToken::service_hash`, by the crate sha2
  pub service_hash : Bytes → Bytes
  pub base64 : Base64
  pub uuid : UuidCrate
