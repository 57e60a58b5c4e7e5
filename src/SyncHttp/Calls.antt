-- ===== src/SyncHttp/Calls.antt =====
-- crates/cli/src/sync/http.rs: the requests of the client and what it returns of their answers.
use attached.Common.{
  ℕ, Bool, true, false, not, ◌&&◌, ◌||◌, ltb, ◌==◌, if◌then◌else◌, [], ◌∷◌, ◌++◌, length, take,
  Option, none, some, Bytes, bytes_eq, Result, ok, err, ◌>>=◌, ◌>>◌, ensure,
}
use attached.Api.Envelope.{ApiError, Envelope}
use attached.Api.Wire.{EnvelopeWire, max_api_body_bytes, parse_json}
use attached.Api.Sequence.{LiveRecordIndex, new_index}
use attached.Account.Tokens.{bearer, parse_account_id, decode_api_token}
use attached.Account.Bundles.{AccountError}
use attached.Worker.Account.{is_uuid_v7, ApiKeyScope, publish, download}
use attached.Worker.Http.{method_get, method_put, method_post}
use attached.Catalog.Fetch.{FetchedRecord}
use attached.SyncHttp.{
  HttpError, download_key_required, publish_key_required, invalid_credential, encoding_failed,
  not_sent, not_no_store, invalid_body, service_returned, HttpResponse, HttpRequest, Credentials,
  Web,
}
use attached.SyncHttp.Reading.{
  present, bounded_response, ensure_json, response_revision, service_error, json_type,
}

-- `map_err` on what a parser of this protocol returns.
abbrev pub parsed {ℓ} : {A : Type ℓ} → Result ApiError A → Result HttpError A
parsed (ok a) = ok a
parsed (err e) = err invalid_body

abbrev pub account_parsed {ℓ} : {A : Type ℓ} → Result AccountError A → Result HttpError A
account_parsed (ok a) = ok a
account_parsed (err e) = err invalid_body

-- `/v1/accounts/`
abbrev pub accounts_path : Bytes
accounts_path =
    b'/' ∷ b'v' ∷ b'1' ∷ b'/' ∷ b'a' ∷ b'c' ∷ b'c' ∷ b'o' ∷ b'u' ∷ b'n' ∷ b't' ∷ b's' ∷ b'/' ∷ []

-- `/v1/accounts`
abbrev pub creation_path : Bytes
creation_path = take 12 accounts_path

-- `no-store`
abbrev pub cache_control_value : Bytes
cache_control_value = b'n' ∷ b'o' ∷ b'-' ∷ b's' ∷ b't' ∷ b'o' ∷ b'r' ∷ b'e' ∷ []

-- `/records/`
abbrev pub records_path : Bytes
records_path = b'/' ∷ b'r' ∷ b'e' ∷ b'c' ∷ b'o' ∷ b'r' ∷ b'd' ∷ b's' ∷ b'/' ∷ []

module _ (web : Web) where
  open web use {
    W, send, to_str, from_bytes, to_vec, envelope_json, error_json, index_json, account_json,
    service_hash, base64, uuid,
  }

  unfoldable pub bearer_value : Credentials → Bytes
  bearer_value account = bearer ++ base64.encode account.api_token

  unfoldable pub authorization : Credentials → Result HttpError Bytes
  authorization account = present (from_bytes (bearer_value account)) invalid_credential

  -- The URL of a record.
  unfoldable pub record_url : Credentials → Bytes → Bytes
  record_url account record_id =
      account.service_origin
      ++ (accounts_path
          ++ (uuid.hyphenated account.account_id ++ (records_path ++ base64.encode record_id)))

  -- What `Serialize` writes of an envelope.
  unfoldable pub wire_of : Envelope → EnvelopeWire
  wire_of e = record {
    version = e.envelope_version;
    nonce = base64.encode e.nonce;
    ciphertext = base64.encode e.ciphertext;
  }

  -- Behind `send().await`.
  unfoldable pub answered :
      {A : Type 0}
      → (HttpResponse → Result HttpError A)
      → W × Option HttpResponse
      → W × Result HttpError A
  answered read (w, none) = (w, err not_sent)
  answered read (w, some response) = (w, read response)

  -- A request that could be built is sent.
  unfoldable pub requested :
      {A : Type 0}
      → (HttpResponse → Result HttpError A)
      → Result HttpError HttpRequest
      → W
      → W × Result HttpError A
  requested read (err e) w = (w, err e)
  requested read (ok request) w = answered read (send request w)

  -- A record, under the status 200.
  unfoldable pub get_found : HttpResponse → Result HttpError FetchedRecord
  get_found response = do
    ensure_json web response
    revision ← response_revision web response
    body ← bounded_response response max_api_body_bytes
    envelope ← parsed (parse_json base64 envelope_json body)
    ok (record { envelope = envelope; revision = revision })

  abbrev pub found : Result HttpError FetchedRecord → Result HttpError (Option FetchedRecord)
  found (ok record_found) = ok (some record_found)
  found (err e) = err e

  unfoldable pub get_response : HttpResponse → Result HttpError (Option FetchedRecord)
  get_response response =
      if response.status == 404
      then ok none
      else if response.status == 200
      then found (get_found response)
      else err (service_error web response)

  abbrev pub is_download : ApiKeyScope → Bool
  is_download download = true
  is_download publish = false

  unfoldable pub get_request : Credentials → Bytes → Result HttpError HttpRequest
  get_request account record_id = do
    ensure (is_download account.api_key_scope) download_key_required
    header ← authorization account
    ok (record {
      method = method_get;
      url = record_url account record_id;
      authorization = some header;
      content_type = none;
      body = [];
    })

  unfoldable pub get_record : Credentials → Bytes → W → W × Result HttpError (Option FetchedRecord)
  get_record account record_id = requested get_response (get_request account record_id)

  unfoldable pub put_response : HttpResponse → Result HttpError ℕ
  put_response response =
      if response.status == 201 || response.status == 204
      then response_revision web response
      else err (service_returned response.status none)

  unfoldable pub put_request : Credentials → Bytes → Envelope → Result HttpError HttpRequest
  put_request account record_id envelope = do
    ensure (not (is_download account.api_key_scope)) publish_key_required
    body ← present (to_vec (wire_of envelope)) encoding_failed
    header ← authorization account
    ok (record {
      method = method_put;
      url = record_url account record_id;
      authorization = some header;
      content_type = some json_type;
      body = body;
    })

  unfoldable pub put_record : Credentials → Bytes → Envelope → W → W × Result HttpError ℕ
  put_record account record_id envelope =
      requested put_response (put_request account record_id envelope)

  -- `parse_live_record_index`
  unfoldable pub parse_live_record_index : Bytes → Result HttpError LiveRecordIndex
  parse_live_record_index body = do
    ensure (not (ltb max_api_body_bytes (length body))) invalid_body
    records ← present (index_json body) invalid_body
    parsed (new_index records)

  unfoldable pub list_found : HttpResponse → Result HttpError LiveRecordIndex
  list_found response = do
    ensure_json web response
    body ← bounded_response response max_api_body_bytes
    parse_live_record_index body

  unfoldable pub list_response : HttpResponse → Result HttpError LiveRecordIndex
  list_response response =
      if response.status == 200 then list_found response else err (service_error web response)

  unfoldable pub list_request : Credentials → Result HttpError HttpRequest
  list_request account = do
    ensure (is_download account.api_key_scope) download_key_required
    header ← authorization account
    ok (record {
      method = method_get;
      url =
          account.service_origin
          ++ (accounts_path ++ (uuid.hyphenated account.account_id ++ take 8 records_path));
      authorization = some header;
      content_type = none;
      body = [];
    })

  unfoldable pub list_records : Credentials → W → W × Result HttpError LiveRecordIndex
  list_records account = requested list_response (list_request account)

  pub record CreateAccountResponse : Type 0 where
    pub account_id : Bytes
    pub publish_api_token : Bytes
    pub download_api_token : Bytes

  -- `CreateAccountResponse::new`
  unfoldable pub new_account_response :
      Bytes → Bytes → Bytes → Result HttpError CreateAccountResponse
  new_account_response account_id publish_token download_token = do
    ensure
        (is_uuid_v7 uuid account_id
          && not (bytes_eq (service_hash publish_token) (service_hash download_token)))
        invalid_body
    ok (record {
      account_id = account_id;
      publish_api_token = publish_token;
      download_api_token = download_token;
    })

  unfoldable pub account_of_wire : Bytes × Bytes × Bytes → Result HttpError CreateAccountResponse
  account_of_wire (id, publish_text, download_text) = do
    account_id ← account_parsed (parse_account_id uuid id)
    publish_token ← account_parsed (decode_api_token base64 publish_text)
    download_token ← account_parsed (decode_api_token base64 download_text)
    new_account_response account_id publish_token download_token

  -- `CreateAccountResponse::parse_json`
  unfoldable pub parse_account_json : Bytes → Result HttpError CreateAccountResponse
  parse_account_json body = do
    ensure (not (ltb max_api_body_bytes (length body))) invalid_body
    wire ← present (account_json body) invalid_body
    account_of_wire wire

  abbrev pub is_no_store : Option Bytes → Bool
  is_no_store none = false
  is_no_store (some value) = bytes_eq value cache_control_value

  unfoldable pub created_account : HttpResponse → Result HttpError CreateAccountResponse
  created_account response = do
    ensure_json web response
    ensure (is_no_store response.cache_control) not_no_store
    body ← bounded_response response max_api_body_bytes
    parse_account_json body

  unfoldable pub create_response : HttpResponse → Result HttpError CreateAccountResponse
  create_response response =
      if response.status == 201 then created_account response else err (service_error web response)

  unfoldable pub create_account : Bytes → W → W × Result HttpError CreateAccountResponse
  create_account service_origin w = answered create_response (
      send
        (record {
          method = method_post;
          url = service_origin ++ creation_path;
          authorization = none;
          content_type = none;
          body = [];
        })
        w)
