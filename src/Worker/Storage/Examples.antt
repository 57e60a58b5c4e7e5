-- ===== src/Worker/Storage/Examples.antt =====
-- The operations on a small account in the tables of crates/session-sync-worker/src/storage.rs.
use attached.Common.{[], ◌∷◌, ◌≡◌, refl, bytes_eq, some, ok, List}
use attached.Worker.Account.{is_uuid_v7, validate_account}
use attached.Worker.Storage.Operations.{
  initialized, already_exists, initialize, load_account, put_record,
}
use attached.Worker.Storage.Reading.{IsValid}
use attached.Worker.Storage.Writing.{Implements, put_spec, put_record-Implements}
use attached.Worker.Storage.Runs.{Request, view, puts, replay, puts_refine}
use attached.Worker.Storage.Initial.{unused, opened, first_account_stays}
use attached.Worker.Storage.Small.{
  uuid, account, account_lengths, key, envelope, filled, filled-IsValid,
}

first_account_stays_example :
    (initialize (account 1) unused ≡ (ok initialized, opened (account 1)))
    × IsValid (opened (account 1)).tables
    × (load_account uuid (opened (account 1)) ≡ (ok (some (account 1)), opened (account 1)))
    × (initialize (account 3) (opened (account 1)) ≡ (ok already_exists, opened (account 1)))
unfolding validate_account is_uuid_v7 bytes_eq
first_account_stays_example =
    first_account_stays uuid (account 1) (account 3) (account_lengths 1) refl (account_lengths 3)
      refl

put_record-Implements_example :
    Implements filled
      (put_spec (key 3) (envelope 3) filled.tables)
      (put_record (key 3) (envelope 3) filled)
put_record-Implements_example =
    put_record-Implements (key 3) (envelope 3) filled refl refl filled-IsValid

abbrev requests : List Request
requests =
    record { id = key 3; envelope = envelope 3 } ∷ record { id = key 2; envelope = envelope 9 } ∷ []

puts_refine_example :
    IsValid (puts requests filled).tables
    × (view (puts requests filled).tables ≡ replay requests (view filled.tables))
puts_refine_example =
    puts_refine requests filled refl
      (record { id_len = refl; nonce_len = refl }, (record { id_len = refl; nonce_len = refl }, tt))
      filled-IsValid
