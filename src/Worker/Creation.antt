-- ===== src/Worker/Creation.antt =====
-- crates/session-sync-worker/src/issuance.rs and api.rs: the creation of accounts.
pub mod Tokens
pub mod Fresh
pub mod Guarded
mod Examples
use attached.Common.{
  ℕ, zero, suc, Bool, true, false, if◌then◌else◌, ◌==◌, [], ◌∷◌, List, take, drop, Bytes, bytes_eq,
  Option, none, some, Result, ok, err,
}
use attached.Api.Wire.{max_api_body_bytes}
use attached.Worker.Account.{MutationError, StoredAccount, new_account, encode}
use attached.Worker.Http.{
  Method, method_get, method_put, method_post, method_other, Request, BodyReadError, body_too_large,
  body_unavailable, read_bounded_body, Response, account_body, code_invalid_request, code_too_large,
  code_rate_limited, retry_after_header, set_header, json_response, empty_response, error_response,
  method_not_allowed_response, unavailable_response,
}
use attached.Worker.Http.Body.{whole}
use attached.Worker.Handlers.{Crates, initialize_account, fetched}
use attached.Worker.Forward.{Platform, Link, Objects, fetch_object}

pub data IssuanceError : Type 0 where
  entropy_unavailable : IssuanceError

-- The loop, over what the source of randomness gives, `none` where it fails: the two tokens, or that
-- the loop draws on behind the list.
unfoldable pub distinct_tokens :
    (Bytes → Bytes) → List (Option Bytes) → Option (Result IssuanceError (Bytes × Bytes))
distinct_tokens service_hash [] = none
distinct_tokens service_hash (none ∷ draws) = some (err entropy_unavailable)
distinct_tokens service_hash (some bytes ∷ draws) =
    let rest = distinct_tokens service_hash draws in
    if bytes_eq (service_hash (take 32 bytes)) (service_hash (drop 32 bytes))
    then rest
    else some (ok (take 32 bytes, drop 32 bytes))

pub record IssuedAccount : Type 0 where
  pub account_id : Bytes
  pub publish_token : Bytes
  pub download_token : Bytes

abbrev max_account_issuance_attempts : ℕ
max_account_issuance_attempts = 4

module _ (platform : Platform) (crates : Crates) (link : Link)
    (issue : ℕ → Result IssuanceError IssuedAccount) where
  -- The request of `initialize_remote_account`.
  abbrev pub initialize_request : Bytes → Request
  initialize_request encoded = record {
    method = method_post;
    account_id = none;
    record_id = none;
    authorization = some none;
    content_length = some (platform.length_header encoded);
    oversized = some false;
    body = some (record { opens = true; chunks = whole (platform.chunks encoded) });
    cancels = true;
  }

  unfoldable pub initialize_remote_account :
      Bytes → StoredAccount → Objects → Option Response × Objects
  initialize_remote_account account_id account objects =
      if link.bound
      then fetch_object link.fetch
          (λ s. fetched (initialize_account crates.uuid (initialize_request (encode account)) s))
          account_id objects
      else (none, objects)

  -- By the status of the answer. The response has been checked by `StoredAccount::new`.
  abbrev pub initialized_remote :
      IssuedAccount
      → (Objects → Option Response × Objects)
      → Option Response × Objects
      → Option Response × Objects
  initialized_remote issued again (none, objects) = (none, objects)
  initialized_remote issued again (some response, objects) =
      let next = again objects in
      if response.status == 204
      then (
        some (
            json_response 201
              (account_body issued.account_id issued.publish_token issued.download_token)),
        objects,
      )
      else if response.status == 409
      then next
      else (none, objects)

  abbrev pub stored_remote :
      IssuedAccount
      → (Objects → Option Response × Objects)
      → Result MutationError StoredAccount
      → Objects
      → Option Response × Objects
  stored_remote issued again (err _) objects = (some unavailable_response, objects)
  stored_remote issued again (ok account) objects =
      initialized_remote issued again (initialize_remote_account issued.account_id account objects)

  abbrev pub issued_remote :
      (Objects → Option Response × Objects)
      → Result IssuanceError IssuedAccount
      → Objects
      → Option Response × Objects
  issued_remote again (err _) objects = (some unavailable_response, objects)
  issued_remote again (ok issued) objects =
      stored_remote issued again
        (new_account crates.uuid issued.account_id (crates.service_hash issued.publish_token)
          (crates.service_hash issued.download_token))
        objects

  -- The attempts that are left; each draws its own account.
  unfoldable pub create_attempts : ℕ → Objects → Option Response × Objects
  create_attempts zero objects = (some unavailable_response, objects)
  create_attempts (suc n) objects =
      issued_remote (λ objects'. create_attempts n objects') (issue n) objects

  unfoldable pub create_account : Objects → Option Response × Objects
  create_account objects = create_attempts max_account_issuance_attempts objects

  -- `discard_request_body(&mut request).await?`, and the answer.
  abbrev pub discarded : Result BodyReadError Bytes → Response → Option Response
  discarded (ok _) response = some response
  discarded (err body_too_large) response = some response
  discarded (err body_unavailable) response = none

  unfoldable pub discard_request_body : Request → Response → Option Response
  discard_request_body request response = discarded (read_bounded_body request 0) response

  unfoldable pub accounts_body : Result BodyReadError Bytes → Objects → Option Response × Objects
  accounts_body (ok []) objects = create_account objects
  accounts_body (ok (_ ∷ _)) objects = (some (error_response 400 code_invalid_request), objects)
  accounts_body (err body_too_large) objects = (some (error_response 413 code_too_large), objects)
  accounts_body (err body_unavailable) objects = (some unavailable_response, objects)

  abbrev pub rate_limited_response : Response
  rate_limited_response = set_header (error_response 429 code_rate_limited) (retry_after_header 60)

  -- By what the rate limiter tells, `none` where it fails.
  unfoldable pub limited_accounts : Option Bool → Request → Objects → Option Response × Objects
  limited_accounts (some true) request objects =
      accounts_body (read_bounded_body request max_api_body_bytes) objects
  limited_accounts (some false) request objects =
      (discard_request_body request rate_limited_response, objects)
  limited_accounts none request objects =
      (discard_request_body request unavailable_response, objects)

  unfoldable pub accounts_method :
      Method → Option Bool → Request → Objects → Option Response × Objects
  accounts_method method_post limit request objects = limited_accounts limit request objects
  accounts_method method_get limit request objects =
      (some (method_not_allowed_response (method_post ∷ [])), objects)
  accounts_method method_put limit request objects =
      (some (method_not_allowed_response (method_post ∷ [])), objects)
  accounts_method method_other limit request objects =
      (some (method_not_allowed_response (method_post ∷ [])), objects)

  unfoldable pub handle_accounts : Option Bool → Request → Objects → Option Response × Objects
  handle_accounts limit request objects = accounts_method request.method limit request objects

unfoldable pub handle_health : Method → Response
handle_health method_get = empty_response 204
handle_health method_put = method_not_allowed_response (method_get ∷ [])
handle_health method_post = method_not_allowed_response (method_get ∷ [])
handle_health method_other = method_not_allowed_response (method_get ∷ [])
