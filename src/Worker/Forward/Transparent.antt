-- ===== src/Worker/Forward/Transparent.antt =====
-- crates/session-sync-worker/src/api.rs: an object serves a forwarded request as it would serve the
-- request itself.
use attached.Common.{
  ℕ, ◌≤◌, Bool, true, false, ltb, le→ltb_false, if◌then◌else◌, [], length, Option, none, some,
  Bytes, Result, ok, err, ◌≡◌, ◌≢◌, ◌⊎◌, inl, inr, refl, sym, ap, ◌∙◌, arith,
}
use attached.Api.Wire.{max_api_body_bytes}
use attached.Worker.Storage.Session.{Storage}
use attached.Worker.Http.{
  Method, method_get, method_put, Request, BodyReadError, body_too_large, body_unavailable,
  declared_too_large, read_bounded_body, Response, error_response, code_too_large,
}
use attached.Worker.Http.Body.{concat, whole, read_bounded_body-concat, read_bounded_body-eq-ok}
use attached.Worker.Handlers.{Crates, put_handler, put_marked, put_body, fetched}
use attached.Worker.Forward.Alike.{cancel_lem, Alike, same_route}
use attached.Worker.Forward.{
  Platform, forwarded_get_request, put_request_of, buffered_put_request, forwarded_request, Link,
  delivered, Objects, stored_object, serve, sent, forward_account_request, buffered,
  with_authorization,
}

-- The platform hands over the bytes it was given, and declares no more than their length.
pub record PlatformLaws (platform : Platform) : Type 0 where
  pub all_bytes : (body : Bytes) → concat (platform.chunks body) ≡ body
  pub honest :
      (body : Bytes) (limit : ℕ)
      → length body ≤ limit
      → declared_too_large limit (platform.length_header body) ≡ false

module _ {platform : Platform} (laws : PlatformLaws platform) (crates : Crates) (request : Request)
    (authorization : Option Bytes) (header : request.authorization ≡ some authorization)
    (unmarked : request.oversized ≡ some false) (cancels : request.cancels ≡ true) where
  -- The request that is sent, on the three ways that the body is read.
  abbrev forwarded : Bytes → Bool → Request
  forwarded body too_large = record {
    method = method_put;
    account_id = request.account_id;
    record_id = request.record_id;
    authorization = some authorization;
    content_length = some (platform.length_header body);
    oversized = some too_large;
    body = some (record { opens = true; chunks = whole (platform.chunks body) });
    cancels = true;
  }

  read_forwarded :
      (body : Bytes) (too_large : Bool)
      → length body ≤ max_api_body_bytes
      → read_bounded_body (forwarded body too_large) max_api_body_bytes ≡ ok body
  read_forwarded body too_large fits =
      read_bounded_body-concat (forwarded body too_large) (platform.length_header body)
        (platform.chunks body) max_api_body_bytes (omega arith) refl refl
      ∙ ap
          (λ (bytes : Bytes).
            if declared_too_large max_api_body_bytes (platform.length_header body)
            then err body_too_large
            else if ltb max_api_body_bytes (length bytes)
            then err body_too_large
            else ok bytes)
          (laws.all_bytes body)
      ∙ rw
          (
            laws.honest body max_api_body_bytes fits,
            le→ltb_false max_api_body_bytes (length body) fits,
          )
          refl

  put_handler-read :
      (read : Result BodyReadError Bytes) (id : Bytes) (s : Storage)
      → read_bounded_body request max_api_body_bytes ≡ read
      → put_handler crates request id s ≡ put_body crates id read s
  unfolding put_handler put_marked
  put_handler-read read id s h =
      ap (λ marker. put_marked crates request id marker s) unmarked
      ∙ ap (λ x. put_body crates id x s) h

  forwarded_ok :
      (body : Bytes)
      → request.method ≡ method_put
      → read_bounded_body request max_api_body_bytes ≡ ok body
      → Alike crates request (forwarded body false)
  unfolding put_handler put_marked
  forwarded_ok body m h = record {
    method = m;
    account = refl;
    record_id = refl;
    authorization = header;
    cancels = cancels;
    cancels' = refl;
    puts = λ _ id s.
        put_handler-read (ok body) id s h
        ∙ ap (λ x. put_body crates id x s)
            (sym (read_forwarded body false (read_bounded_body-eq-ok request _ body h)));
  }

  forwarded_over :
      request.method ≡ method_put
      → read_bounded_body request max_api_body_bytes ≡ err body_too_large
      → Alike crates request (forwarded [] true)
  unfolding put_handler put_marked put_body
  forwarded_over m h = record {
    method = m;
    account = refl;
    record_id = refl;
    authorization = header;
    cancels = cancels;
    cancels' = refl;
    puts = λ _ id s.
        put_handler-read (err body_too_large) id s h
        ∙ sym (cancel_lem (forwarded [] true) (some (error_response 413 code_too_large), s) s refl);
  }

  abbrev forwarded_get : Request
  forwarded_get = record {
    method = method_get;
    account_id = request.account_id;
    record_id = request.record_id;
    authorization = some authorization;
    content_length = some none;
    oversized = some false;
    body = none;
    cancels = true;
  }

  get-Alike : request.method ≡ method_get → Alike crates request forwarded_get
  get-Alike m = record {
    method = m;
    account = refl;
    record_id = refl;
    authorization = header;
    cancels = cancels;
    cancels' = refl;
    puts = λ p. absurd (get_is_no_put (sym m ∙ p));
  }
    where
      get_is_no_put : method_get ≢ method_put
      get_is_no_put h = cc

  module _ (account_id : Bytes) (objects : Objects) where
    abbrev link : Link
    link = record { bound = true; fetch = delivered }

    abbrev answer_of : Response × Storage → Option Response × Objects
    answer_of (response, s) = (some response, stored_object account_id s objects)

    -- Before its authorization is set.
    abbrev bare : Request → Request
    bare f = record f { authorization = some none }

    sent-Alike :
        (f : Request)
        → Alike crates request f
        → sent platform crates link account_id (some f) objects
          ≡ answer_of (serve platform crates request (objects account_id))
    sent-Alike f alike =
        ap (λ x. answer_of (fetched x))
          (sym (same_route crates request f alike (objects account_id)))

    sent_put :
        (read : Result BodyReadError Bytes)
        → request.method ≡ method_put
        → read_bounded_body request max_api_body_bytes ≡ read
        → read ≢ err body_unavailable
        → sent platform crates link account_id (buffered platform request read) objects
          ≡ answer_of (serve platform crates request (objects account_id))
    unfolding put_request_of
    sent_put (ok body) m h served =
        ap
          (λ v.
            sent platform crates link account_id
              (with_authorization v (bare (forwarded body false))) objects)
          header
        ∙ sent-Alike (forwarded body false) (forwarded_ok body m h)
    sent_put (err body_too_large) m h served =
        ap
          (λ v.
            sent platform crates link account_id (with_authorization v (bare (forwarded [] true)))
              objects)
          header
        ∙ sent-Alike (forwarded [] true) (forwarded_over m h)
    sent_put (err body_unavailable) m h served = absurd (served refl)

    -- When its call is delivered, a forwarded GET, or a PUT whose body could be read or was found too
    -- large, is answered as the object would answer the request itself, and the object is left as it
    -- would be, however the platform cuts the new body. The request has a readable authorization, no
    -- marker of the Worker and a body that can be cancelled; the platform hands over all bytes of a
    -- body that it is given, and does not declare that it is over a limit that it is within.
    pub forward_account_request_lem :
        (request.method ≡ method_get)
          ⊎ ((request.method ≡ method_put)
              × (read_bounded_body request max_api_body_bytes ≢ err body_unavailable))
        → forward_account_request platform crates link request account_id objects ≡ (
          some (serve platform crates request (objects account_id)).0,
          stored_object account_id (serve platform crates request (objects account_id)).1 objects,
        )
    unfolding forward_account_request forwarded_request forwarded_get_request buffered_put_request
    forward_account_request_lem (inl m) =
        ap
          (λ (method : Method).
            sent platform crates link account_id (forwarded_request platform method request)
              objects)
          m
        ∙ ap
            (λ v.
              sent platform crates link account_id (with_authorization v (bare forwarded_get))
                objects)
            header
        ∙ sent-Alike forwarded_get (get-Alike m)
    forward_account_request_lem (inr (m, served)) =
        ap
          (λ (method : Method).
            sent platform crates link account_id (forwarded_request platform method request)
              objects)
          m
        ∙ sent_put (read_bounded_body request max_api_body_bytes) m refl served
