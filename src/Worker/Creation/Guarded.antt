-- ===== src/Worker/Creation/Guarded.antt =====
-- crates/session-sync-worker/src/api.rs: what it takes to create an account.
use attached.Common.{
  ℕ, Bool, true, false, [], ◌∷◌, Bytes, Option, none, some, Result, ok, err, ◌≡◌, ◌⊎◌, inl, inr,
  refl,
}
use attached.Api.Wire.{max_api_body_bytes}
use attached.Worker.Http.{
  Method, method_get, method_put, method_post, method_other, Request, BodyReadError, body_too_large,
  body_unavailable, read_bounded_body, Response,
}
use attached.Worker.Handlers.{Crates}
use attached.Worker.Forward.{Platform, Link, Objects}
use attached.Worker.Creation.{
  IssuanceError, IssuedAccount, create_account, accounts_body, limited_accounts, accounts_method,
  handle_accounts,
}

module _ (platform : Platform) (crates : Crates) (link : Link)
    (issue : ℕ → Result IssuanceError IssuedAccount) (request : Request) (objects : Objects) where
  -- The request is a POST without a body that the rate limiter let through, and it is answered by an
  -- attempt to create an account.
  abbrev pub Creates : Option Bool → Option Response × Objects → Type 0
  Creates limit x =
      (request.method ≡ method_post)
      × (limit ≡ some true)
      × (read_bounded_body request max_api_body_bytes ≡ ok [])
      × (x ≡ create_account platform crates link issue objects)

  body_cases :
      (read : Result BodyReadError Bytes)
      → request.method ≡ method_post
      → read_bounded_body request max_api_body_bytes ≡ read
      → ((accounts_body platform crates link issue read objects).1 ≡ objects)
        ⊎ Creates (some true) (accounts_body platform crates link issue read objects)
  unfolding accounts_body
  body_cases (ok []) m h = inr (m, refl, h, refl)
  body_cases (ok (_ ∷ _)) m h = inl refl
  body_cases (err body_too_large) m h = inl refl
  body_cases (err body_unavailable) m h = inl refl

  limit_cases :
      (limit : Option Bool)
      → request.method ≡ method_post
      → ((limited_accounts platform crates link issue limit request objects).1 ≡ objects)
        ⊎ Creates limit (limited_accounts platform crates link issue limit request objects)
  unfolding limited_accounts
  limit_cases (some true) m = body_cases (read_bounded_body request max_api_body_bytes) m refl
  limit_cases (some false) m = inl refl
  limit_cases none m = inl refl

  method_cases :
      (method : Method) (limit : Option Bool)
      → request.method ≡ method
      → ((accounts_method platform crates link issue method limit request objects).1 ≡ objects)
        ⊎ Creates limit (accounts_method platform crates link issue method limit request objects)
  unfolding accounts_method
  method_cases method_post limit m = limit_cases limit m
  method_cases method_get limit m = inl refl
  method_cases method_put limit m = inl refl
  method_cases method_other limit m = inl refl

  -- A request to the accounts resource leaves every account object, or it is a POST without a body that
  -- the rate limiter let through: a limiter that refuses or fails never lets an account be created.
  pub handle_accounts_guarded :
      (limit : Option Bool)
      → ((handle_accounts platform crates link issue limit request objects).1 ≡ objects)
        ⊎ Creates limit (handle_accounts platform crates link issue limit request objects)
  unfolding handle_accounts
  handle_accounts_guarded limit = method_cases request.method limit refl
