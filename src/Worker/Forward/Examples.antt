-- ===== src/Worker/Forward/Examples.antt =====
-- The PUT of a small account, forwarded by the public Worker of crates/session-sync-worker/src/api.rs.
use attached.Common.{true, some, refl, ◌≡◌, ◌≢◌, inr, err}
use attached.Worker.Storage.Small.{account, filled}
use attached.Api.Wire.{max_api_body_bytes}
use attached.Worker.Http.{body_unavailable, read_bounded_body}
use attached.Worker.Handlers.Small.{crates, put_request, body_read}
use attached.Worker.Forward.{Objects, delivered, stored_object, serve, forward_account_request}
use attached.Worker.Forward.Transparent.{forward_account_request_lem}
use attached.Worker.Forward.Small.{platform, platform_laws}

abbrev objects : Objects
objects = λ _. filled

body_served : read_bounded_body put_request max_api_body_bytes ≢ err body_unavailable
body_served h = cc (h, body_read)

forward_account_request_lem_example :
    forward_account_request platform crates
      (record { bound = true; fetch = delivered })
      put_request
      (account 1).account_id
      objects
    ≡ (
      some (serve platform crates put_request filled).0,
      stored_object (account 1).account_id (serve platform crates put_request filled).1 objects,
    )
forward_account_request_lem_example =
    forward_account_request_lem platform_laws crates put_request _ refl refl refl
      (account 1).account_id objects (inr (refl, body_served))
