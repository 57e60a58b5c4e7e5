-- ===== src/Worker/Storage/Operations.antt =====
-- crates/session-sync-worker/src/storage.rs: the operations on the storage of an account object.
use attached.Common.{
  ℕ, ◌+◌, ◌^◌, Bool, true, false, not, ◌&&◌, ltb, ◌==◌, if◌then◌else◌, [], ◌∷◌, Option, none, some,
  Bytes, bytes_eq, parse_unsigned, Result, ok, err, ensure,
}
use attached.Api.Envelope.{Envelope}
use attached.Api.Sequence.{LiveRecordIndex, max_live_records, new_index}
use attached.Worker.Account.{MutationError, live_quota_exceeded, UuidCrate, StoredAccount}
use attached.Worker.Records.{MutationOutcome, created, updated, StoredRecord, put}
use attached.Worker.Storage.Sql.{
  Statement, Row, is_some, create_schema, insert_account, select_schema, select_account,
  select_index, select_record, select_count, insert_record, update_record,
}
use attached.Worker.Storage.Rows.{
  StoreError, unavailable, mutation, or_unavailable, optional_row, required_row, single_value,
  single_text, revision_text, parse_record, parse_account, index_entries, traverse,
}
use attached.Worker.Storage.Session.{Session, ◌>>=◌, ◌>>◌, lift, exec}

pub data InitializeOutcome : Type 0 where
  initialized already_exists : InitializeOutcome

-- `singleton == "1"` on the row that the insertion returns.
unfoldable pub initialized_row : Option Row → Result StoreError InitializeOutcome
initialized_row none = ok already_exists
initialized_row (some row) = elim (single_text row) [
  | err e ↦ err e
  | ok singleton ↦ if bytes_eq singleton (b'1' ∷ []) then ok initialized else err unavailable
]

unfoldable pub initialize : StoredAccount → Session InitializeOutcome
initialize account = do
  _ ← exec create_schema
  cursor ← exec (insert_account account)
  row ← lift (optional_row cursor)
  lift (initialized_row row)

abbrev pub account_state_name : Bytes
account_state_name =
    b'a' ∷ b'c' ∷ b'c' ∷ b'o' ∷ b'u' ∷ b'n' ∷ b't' ∷ b'_' ∷ b's' ∷ b't' ∷ b'a' ∷ b't' ∷ b'e' ∷ []

unfoldable pub schema_row : Option Row → Result StoreError Bool
schema_row none = ok false
schema_row (some row) = elim (single_text row) [
  | err e ↦ err e
  | ok name ↦ ok (bytes_eq name account_state_name)
]

unfoldable pub schema_exists : Session Bool
schema_exists = do
  cursor ← exec (select_schema account_state_name)
  row ← lift (optional_row cursor)
  lift (schema_row row)

-- Behind `if !schema_exists(storage)? { return Ok(None); }`.
unfoldable pub load_present : UuidCrate → Bool → Session (Option StoredAccount)
load_present uuid false = lift (ok none)
load_present uuid true = do
  cursor ← exec select_account
  row ← lift (optional_row cursor)
  lift (traverse (parse_account uuid) row)

unfoldable pub load_account : UuidCrate → Session (Option StoredAccount)
load_account uuid = do exists ← schema_exists; load_present uuid exists

unfoldable pub load_index : Session LiveRecordIndex
load_index = do
  cursor ← exec (select_index (max_live_records + 1))
  records ← lift (index_entries 0 cursor)
  lift (or_unavailable (new_index records))

unfoldable pub load_record : Bytes → Session (Option StoredRecord)
load_record record_id = do
  cursor ← exec (select_record record_id)
  row ← lift (optional_row cursor)
  lift (traverse parse_record row)

-- `map_err` of `parse::<usize>()`
abbrev pub parsed : Option ℕ → Result StoreError ℕ
parsed none = err unavailable
parsed (some count) = ok count

-- `parse::<usize>()`: 32 bits on the platform of the service.
unfoldable pub count_of_text : Bytes → Result StoreError ℕ
count_of_text text = parsed (parse_unsigned (2 ^ 32) text)

unfoldable pub live_record_count : Session ℕ
live_record_count = do
  cursor ← exec select_count
  row ← lift (required_row cursor)
  text ← lift (single_text row)
  lift (count_of_text text)

-- `From<MutationError>`, by `?`.
unfoldable pub from_mutation : {A : Type 0} → Result MutationError A → Result StoreError A
from_mutation (ok a) = ok a
from_mutation (err e) = err (mutation e)

-- The statement of the `match outcome`.
unfoldable pub write_statement : Bytes → StoredRecord → MutationOutcome → Statement
write_statement record_id stored (created _) =
    insert_record record_id stored.envelope_nonce stored.envelope_ciphertext
write_statement record_id stored (updated _) =
    update_record record_id stored.envelope_nonce stored.envelope_ciphertext

-- The write, and the revision that it returns.
unfoldable pub write_record : Bytes → StoredRecord → MutationOutcome → Session MutationOutcome
write_record record_id stored outcome = do
  cursor ← exec (write_statement record_id stored outcome)
  row ← lift (required_row cursor)
  value ← lift (single_value row)
  stored_revision ← lift (revision_text value)
  lift (ensure (stored_revision == stored.revision) unavailable)
  lift (ok outcome)

-- Behind the two reads.
unfoldable pub put_current : Bytes → Envelope → Option StoredRecord → ℕ → Session MutationOutcome
put_current record_id envelope current live_records = do
  lift (ensure (not (ltb max_live_records live_records)) unavailable)
  lift (
      ensure (not (not (is_some current) && live_records == max_live_records))
        (mutation live_quota_exceeded))
  (stored, outcome) ← lift (from_mutation (put current envelope))
  write_record record_id stored outcome

unfoldable pub put_record : Bytes → Envelope → Session MutationOutcome
put_record record_id envelope = do
  current ← load_record record_id
  live_records ← live_record_count
  put_current record_id envelope current live_records
