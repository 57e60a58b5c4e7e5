-- ===== src/Worker/Creation/Fresh.antt =====
-- crates/session-sync-worker/src/api.rs: an account that was created can be loaded.
use attached.Common.{
  ℕ, true, ◌^◌, ◌≤◌, suc, ltb, le→ltb_false, if◌then◌else◌, length, Bytes, Option, some, Result, ok,
  err, ◌≡◌, refl, ap, ◌∙◌, arith,
}
use attached.Worker.Account.{
  StoredAccount, new_account, validate_account, encode, encoded_account_bytes,
}
use attached.Worker.Account.Encoding.{HasLengths, decode_account_iff, length-encode}
use attached.Worker.Storage.Session.{Storage}
use attached.Worker.Storage.Operations.{load_account}
use attached.Worker.Storage.Initial.{unused, opened, first_account_stays}
use attached.Worker.Http.{
  account_body, json_response, Response, empty_response, body_too_large, read_bounded_body,
  declared_too_large,
}
use attached.Worker.Http.Body.{read_bounded_body-concat}
use attached.Worker.Handlers.{
  Crates, initialize_answer, initialize_decoded, initialize_encoded, initialize_account, fetched,
}
use attached.Worker.Forward.{Platform, Link, delivered, Objects, stored_object, fetch_object}
use attached.Worker.Forward.Transparent.{PlatformLaws}
use attached.Worker.Creation.{
  IssuanceError, IssuedAccount, initialize_request, initialize_remote_account, initialized_remote,
  stored_remote, issued_remote, create_attempts,
}

-- A body that the Worker made, within the limit.
read_made :
    {platform : Platform} (laws : PlatformLaws platform) (crates : Crates) (link : Link)
    (issue : ℕ → Result IssuanceError IssuedAccount) (body : Bytes) (limit : ℕ)
    → length body ≤ limit
    → limit ≤ 2 ^ 16
    → read_bounded_body (initialize_request platform crates link issue body) limit ≡ ok body
read_made {platform} laws crates link issue body limit fits small =
    read_bounded_body-concat (initialize_request platform crates link issue body)
      (platform.length_header body) (platform.chunks body) limit (omega arith) refl refl
    ∙ ap
        (λ (bytes : Bytes).
          if declared_too_large limit (platform.length_header body)
          then err body_too_large
          else if ltb limit (length bytes)
          then err body_too_large
          else ok bytes)
        (laws.all_bytes body)
    ∙ rw (laws.honest body limit fits, le→ltb_false limit (length body) fits) refl

module _ {platform : Platform} (laws : PlatformLaws platform) (crates : Crates)
    (issue : ℕ → Result IssuanceError IssuedAccount) (issued : IssuedAccount)
    (account : StoredAccount) (lengths : HasLengths account)
    (valid : validate_account crates.uuid account ≡ ok tt)
    (made : new_account crates.uuid issued.account_id
        (crates.service_hash issued.publish_token)
        (crates.service_hash issued.download_token)
      ≡ ok account) where
  abbrev link : Link
  link = record { bound = true; fetch = delivered }

  served :
      fetched (
        initialize_account crates.uuid
          (initialize_request platform crates link issue (encode account))
          unused)
      ≡ (empty_response 204, opened account)
  unfolding initialize_account fetched
  served =
      let read =
        read_made laws crates link issue (encode account) encoded_account_bytes
          (omega (arith, length-encode account lengths)) (omega arith) in
      ap (λ x. fetched (initialize_encoded crates.uuid x unused)) read
      ∙ ap (λ x. fetched (initialize_decoded x unused))
          ((decode_account_iff crates.uuid (encode account) account).1 (lengths, refl, valid))
      ∙ ap (λ x. fetched (initialize_answer x))
          (first_account_stays crates.uuid account account lengths valid lengths valid).0

  -- When an attempt issues a valid account whose object is unused, and its call is delivered, the
  -- account is answered with its tokens, its object holds it with the hashes of the tokens and no
  -- other object has changed, and it can be loaded.
  pub create_attempts_fresh :
      (n : ℕ) (objects : Objects)
      → issue n ≡ ok issued
      → objects issued.account_id ≡ unused
      → (create_attempts platform crates link issue (suc n) objects ≡ (
        some (
            json_response 201
              (account_body issued.account_id issued.publish_token issued.download_token)),
        stored_object issued.account_id (opened account) objects,
      ))
        × (load_account crates.uuid (opened account) ≡ (ok (some account), opened account))
  unfolding create_attempts initialize_remote_account
  create_attempts_fresh n objects drawn empty =
      let again : Objects → Option Response × Objects =
        λ objects'. create_attempts platform crates link issue n objects' in
      (
        ap (λ x. issued_remote platform crates link issue again x objects) drawn
            ∙ ap (λ x. stored_remote platform crates link issue issued again x objects) made
            ∙ ap
                (λ (s : Storage). initialized_remote platform crates link issue issued again (
                  fetch_object delivered
                    (λ _. fetched (
                      initialize_account crates.uuid
                        (initialize_request platform crates link issue (encode account)) s))
                    issued.account_id objects))
                empty
            ∙ ap
                (λ (x : Response × Storage).
                  initialized_remote platform crates link issue issued again
                    (some x.0, stored_object issued.account_id x.1 objects))
                served,
        (first_account_stays crates.uuid account account lengths valid lengths valid).2,
      )
