-- ===== src/Worker/Creation/Examples.antt =====
-- A small account that the Worker of crates/session-sync-worker creates.
use attached.Common.{
  Result, ◌⊎◌, ℕ, true, [], ◌∷◌, ◌++◌, List, Bytes, Option, none, some, ok, All, take, bytes_eq,
  ◌≡◌, ◌↔◌, refl,
}
use attached.Worker.Account.{validate_account, is_uuid_v7, new_account}
use attached.Worker.Storage.Small.{account, account_lengths, eight}
use attached.Worker.Storage.Operations.{load_account}
use attached.Worker.Storage.Initial.{unused, opened}
use attached.Worker.Http.{Request, account_body, json_response}
use attached.Worker.Handlers.{Crates}
use attached.Worker.Handlers.Small.{crates}
use attached.Worker.Forward.{Link, delivered, Objects, stored_object}
use attached.Worker.Forward.Small.{platform, platform_laws}
use attached.Worker.Creation.Guarded.{Creates, handle_accounts_guarded}
use attached.Worker.Creation.{
  IssuanceError, initialize_request, handle_accounts, IssuedAccount, distinct_tokens,
  create_attempts,
}
use attached.Worker.Creation.Tokens.{Collides, distinct_tokens_iff}
use attached.Worker.Creation.Fresh.{create_attempts_fresh}

abbrev four : ℕ → Bytes
four b = eight b ++ eight b ++ eight b ++ eight b

-- A hash that keeps the token.
abbrev kept : Bytes → Bytes
kept token = token

abbrev draws : List (Option Bytes)
draws = some (four 1 ++ four 1) ∷ some (four 1 ++ four 2) ∷ []

drawn : distinct_tokens kept draws ≡ some (ok (four 1, four 2))
unfolding distinct_tokens bytes_eq
drawn = refl

distinct_tokens_iff_example :
    (distinct_tokens kept (take 1 draws) ≡ none) ↔ All (Collides kept) (take 1 draws)
distinct_tokens_iff_example = distinct_tokens_iff kept (take 1 draws)

abbrev keeping : Crates
keeping = record crates { service_hash = kept }

abbrev issued : IssuedAccount
issued = record {
  account_id = (account 1).account_id;
  publish_token = (account 1).publish_api_token_hash;
  download_token = (account 1).download_api_token_hash;
}

abbrev objects : Objects
objects = λ _. unused

valid : validate_account keeping.uuid (account 1) ≡ ok tt
unfolding validate_account is_uuid_v7 bytes_eq
valid = refl

made :
    new_account keeping.uuid issued.account_id
      (kept issued.publish_token)
      (kept issued.download_token)
    ≡ ok (account 1)
unfolding new_account validate_account is_uuid_v7 bytes_eq
made = refl

create_attempts_fresh_example :
    (create_attempts platform keeping
        (record { bound = true; fetch = delivered })
        (λ _. ok issued)
        4
        objects
      ≡ (
        some (
            json_response 201
              (account_body issued.account_id issued.publish_token issued.download_token)),
        stored_object issued.account_id (opened (account 1)) objects,
      ))
    × (load_account keeping.uuid (opened (account 1)) ≡ (ok (some (account 1)), opened (account 1)))
create_attempts_fresh_example =
    create_attempts_fresh platform_laws keeping (λ _. ok issued) issued (account 1)
      (account_lengths 1) valid made 3 objects refl refl

abbrev link : Link
link = record { bound = true; fetch = delivered }

abbrev issue : ℕ → Result IssuanceError IssuedAccount
issue = λ _. ok issued

abbrev post_request : Request
post_request = initialize_request platform keeping link issue []

handle_accounts_guarded_example :
    ((handle_accounts platform keeping link issue (some true) post_request objects).1 ≡ objects)
    ⊎ Creates platform keeping link issue post_request objects
        (some true)
        (handle_accounts platform keeping link issue (some true) post_request objects)
handle_accounts_guarded_example =
    handle_accounts_guarded platform keeping link issue post_request objects (some true)
