-- ===== src/Worker/Storage/Initial.antt =====
-- crates/session-sync-worker/src/storage.rs: the first account that is initialized stays.
use attached.Common.{
  true, false, eq→==, length, [], bytes_eq, none, some, ok, print_decimal, ◌≡◌, refl, arith,
}
use attached.Worker.Account.{StoredAccount, UuidCrate, validate_account, new_account}
use attached.Worker.Account.Encoding.{HasLengths}
use attached.Worker.Storage.Sql.{
  account_checks, create_schema, insert_account, select_schema, select_account, cast_text,
}
use attached.Worker.Storage.Rows.{
  optional_row, single_value, single_text, sql_text, traverse, parse_account, or_unavailable,
  fixed_blob, variable_blob,
}
use attached.Worker.Storage.Session.{Storage, ◌>>=◌, delivered, exec, exec_on}
use attached.Worker.Storage.Operations.{
  initialized, already_exists, initialize, initialized_row, schema_row, schema_exists, load_present,
  load_account,
}
use attached.Worker.Storage.Reading.{IsValid}

-- The database of an object that was never used, with no outage.
abbrev pub unused : Storage
unused = record {
  tables = record { schema = false; account_state = none; records = [] };
  outages = [];
}

abbrev pub opened : StoredAccount → Storage
opened a = record {
  tables = record { schema = true; account_state = some a; records = [] };
  outages = [];
}

module _ (uuid : UuidCrate) (a : StoredAccount) (lengths : HasLengths a)
    (valid : validate_account uuid a ≡ ok tt) where
  checked : account_checks a ≡ true
  unfolding account_checks validate_account
  checked =
      let id = eq→== (length a.account_id) 16 lengths.id in
      let p = eq→== (length a.publish_api_token_hash) 32 lengths.publish_hash in
      let d = eq→== (length a.download_api_token_hash) 32 lengths.download_hash in ground arith

  initialize_first : initialize a unused ≡ (ok initialized, opened a)
  unfolding initialize create_schema insert_account exec exec_on ◌>>=◌ delivered optional_row
      initialized_row single_text single_value sql_text cast_text print_decimal bytes_eq
  initialize_first = simp checked

  initialize_again :
      (b : StoredAccount)
      → account_checks b ≡ true
      → initialize b (opened a) ≡ (ok already_exists, opened a)
  unfolding initialize create_schema insert_account exec exec_on ◌>>=◌ delivered optional_row
      initialized_row
  initialize_again b h = simp h

  load_opened : load_account uuid (opened a) ≡ (ok (some a), opened a)
  unfolding load_account schema_exists load_present select_schema select_account exec exec_on ◌>>=◌
      delivered optional_row schema_row single_text single_value sql_text bytes_eq traverse
      parse_account or_unavailable fixed_blob variable_blob new_account validate_account
  load_opened = simp (
    eq→== (length a.account_id) 16 lengths.id,
    eq→== (length a.publish_api_token_hash) 32 lengths.publish_hash,
    eq→== (length a.download_api_token_hash) 32 lengths.download_hash,
    valid,
  )

  opened-IsValid : IsValid (opened a).tables
  opened-IsValid = record {
    schema = refl;
    account = refl;
    at_most = omega arith;
    rows = tt;
    sorted = tt;
  }

-- On an unused database a valid account is initialized: the tables are valid, the account is
-- loaded back, and another valid account is answered that one exists and changes nothing.
pub first_account_stays :
    (uuid : UuidCrate) (a b : StoredAccount)
    → HasLengths a
    → validate_account uuid a ≡ ok tt
    → HasLengths b
    → validate_account uuid b ≡ ok tt
    → (initialize a unused ≡ (ok initialized, opened a))
      × IsValid (opened a).tables
      × (load_account uuid (opened a) ≡ (ok (some a), opened a))
      × (initialize b (opened a) ≡ (ok already_exists, opened a))
first_account_stays uuid a b lengths valid lengths' valid' = (
  initialize_first uuid a lengths valid,
  opened-IsValid uuid a lengths valid,
  load_opened uuid a lengths valid,
  initialize_again uuid a lengths valid b (checked uuid b lengths' valid'),
)
