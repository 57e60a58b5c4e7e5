-- ===== src/Worker/Forward/Alike.antt =====
-- crates/session-sync-worker/src/api.rs: requests that an object serves alike.
use attached.Common.{
  true, [], ◌∷◌, Option, none, some, Bytes, Result, ok, err, ◌≡◌, refl, sym, ap, ◌∙◌,
}
use attached.Worker.Storage.Session.{Storage}
use attached.Worker.Http.{
  Method, method_get, method_put, method_post, method_other, HeaderValue, Request, BodyStream,
  Response,
}
use attached.Worker.Handlers.{
  Reply, AuthenticationError, unauthorized, authentication_unavailable, AccountOperation,
  list_records_operation, get_record_operation, put_record_operation, cancelled,
  cancel_request_body, required_scope, Crates, put_handler, authenticate_request, authenticated,
  operation_of, record_operation, route_operation, route_account, route_parameter,
  route_account_request,
}

pub cancel_lem :
    (request : Request) (reply : Reply) (s : Storage)
    → request.cancels ≡ true
    → cancel_request_body request reply s ≡ reply
unfolding cancel_request_body
cancel_lem request reply s h =
    ap (λ cancels. cancelled request.body cancels reply s) h ∙ by_body request.body
  where
    by_body : (body : Option BodyStream) → cancelled body true reply s ≡ reply
    by_body none = refl
    by_body (some _) = refl

-- Requests that an object cannot tell apart.
pub record Alike (crates : Crates) (r f : Request) : Type 0 where
  pub method : r.method ≡ f.method
  pub account : r.account_id ≡ f.account_id
  pub record_id : r.record_id ≡ f.record_id
  pub authorization : r.authorization ≡ f.authorization
  pub cancels : r.cancels ≡ true
  pub cancels' : f.cancels ≡ true
  pub puts :
      r.method ≡ method_put
      → (id : Bytes) (s : Storage) → put_handler crates r id s ≡ put_handler crates f id s

module _ (crates : Crates) (r f : Request) (alike : Alike crates r f) where
  abbrev PutsAlike : AccountOperation → Type 0
  PutsAlike list_records_operation = Unit {0}
  PutsAlike (get_record_operation _) = Unit {0}
  PutsAlike (put_record_operation id) =
      (s : Storage) → put_handler crates r id s ≡ put_handler crates f id s

  abbrev ResultAlike : Result Response AccountOperation → Type 0
  ResultAlike (ok operation) = PutsAlike operation
  ResultAlike (err _) = Unit {0}

  same_cancel :
      (reply : Reply) (s : Storage) → cancel_request_body r reply s ≡ cancel_request_body f reply s
  same_cancel reply s =
      cancel_lem r reply s alike.cancels ∙ sym (cancel_lem f reply s alike.cancels')

  same_authenticated :
      (operation : AccountOperation) (x : Result AuthenticationError (Unit {0}) × Storage)
      → PutsAlike operation
      → authenticated crates r operation x ≡ authenticated crates f operation x
  unfolding authenticated
  same_authenticated operation (err unauthorized, s) p = same_cancel _ s
  same_authenticated operation (err authentication_unavailable, s) p = same_cancel _ s
  same_authenticated list_records_operation (ok _, s) p = same_cancel _ s
  same_authenticated (get_record_operation _) (ok _, s) p = same_cancel _ s
  same_authenticated (put_record_operation id) (ok _, s) p = p s

  same_operation :
      (account_id : Bytes) (operation : Result Response AccountOperation) (s : Storage)
      → ResultAlike operation
      → route_operation crates r account_id operation s
        ≡ route_operation crates f account_id operation s
  unfolding route_operation
  same_operation account_id (err response) s p = refl
  same_operation account_id (ok operation) s p =
      same_authenticated operation _ p
      ∙ ap
          (λ (header : HeaderValue).
            authenticated crates f operation
              (authenticate_request crates header account_id (required_scope operation) s))
          alike.authorization

  record_operation-ResultAlike :
      (operation : Bytes → AccountOperation) (id : Option Bytes)
      → ((id : Bytes) → PutsAlike (operation id))
      → ResultAlike (record_operation crates operation id)
  record_operation-ResultAlike operation none p = tt
  record_operation-ResultAlike operation (some id) p = p id

  operation_of-ResultAlike :
      (method : Method) (record_id : Option Bytes)
      → r.method ≡ method
      → ResultAlike (operation_of crates method record_id)
  unfolding operation_of
  operation_of-ResultAlike method_get none h = tt
  operation_of-ResultAlike method_get (some value) h =
      record_operation-ResultAlike get_record_operation _ (λ id. tt)
  operation_of-ResultAlike method_put none h = tt
  operation_of-ResultAlike method_put (some value) h =
      record_operation-ResultAlike put_record_operation _ (alike.puts h)
  operation_of-ResultAlike method_post record_id h = tt
  operation_of-ResultAlike method_other record_id h = tt

  same_account :
      (account_id : Option Bytes) (s : Storage)
      → route_account crates r account_id s ≡ route_account crates f account_id s
  unfolding route_account
  same_account none s = refl
  same_account (some account_id) s =
      same_operation account_id _ s (operation_of-ResultAlike r.method r.record_id refl) ∙ λ i.
      route_operation crates f account_id (operation_of crates (alike.method i) (alike.record_id i))
        s

  same_parameter :
      (account_id : Option Bytes) (s : Storage)
      → route_parameter crates r account_id s ≡ route_parameter crates f account_id s
  unfolding route_parameter
  same_parameter none s = refl
  same_parameter (some []) s = refl
  same_parameter (some (c ∷ value)) s = same_account _ s

  pub same_route :
      (s : Storage) → route_account_request crates r s ≡ route_account_request crates f s
  unfolding route_account_request
  same_route s =
      same_parameter r.account_id s
      ∙ ap (λ (p : Option Bytes). route_parameter crates f p s) alike.account
