-- ===== src/Worker/Storage/Rows.antt =====
-- crates/session-sync-worker/src/storage.rs: what the rows of a cursor are read as.
use attached.Common.{
  ℕ, ◌+◌, ◌^◌, ◌&&◌, ltb, leb, ◌==◌, if◌then◌else◌, List, [], ◌∷◌, length, Option, none, some,
  Bytes, parse_unsigned, Result, ok, err, ◌>>=◌, ◌>>◌, ensure,
}
use attached.Api.Sequence.{LiveRecordIndexEntry, max_live_records}
use attached.Worker.Account.{MutationError, UuidCrate, StoredAccount, new_account}
use attached.Worker.Records.{StoredRecord, max_revision, from_storage}
use attached.Worker.Storage.Sql.{SqlStorageValue, blob, string, other, Row}

pub data StoreError : Type 0 where
  unavailable : StoreError
  mutation : MutationError → StoreError

-- The rows that `raw()` gives; `none` is an error of the cursor.
abbrev pub Cursor : Type 0
Cursor = List (Option Row)

-- `map_err(|_| Unavailable)`
unfoldable pub or_unavailable : {E A : Type 0} → Result E A → Result StoreError A
or_unavailable (ok a) = ok a
or_unavailable (err _) = err unavailable

unfoldable pub optional_row : Cursor → Result StoreError (Option Row)
optional_row [] = ok none
optional_row (none ∷ _) = err unavailable
optional_row (some row ∷ []) = ok (some row)
optional_row (some row ∷ _ ∷ _) = err unavailable

-- `ok_or(Unavailable)`
unfoldable pub present : Option Row → Result StoreError Row
present none = err unavailable
present (some row) = ok row

unfoldable pub required_row : Cursor → Result StoreError Row
required_row cursor = do row ← optional_row cursor; present row

unfoldable pub single_value : Row → Result StoreError SqlStorageValue
single_value [] = err unavailable
single_value (value ∷ []) = ok value
single_value (_ ∷ _ ∷ _) = err unavailable

unfoldable pub sql_text : SqlStorageValue → Result StoreError Bytes
sql_text (string value) = ok value
sql_text (blob _) = err unavailable
sql_text other = err unavailable

unfoldable pub single_text : Row → Result StoreError Bytes
single_text row = do value ← single_value row; sql_text value

unfoldable pub variable_blob : SqlStorageValue → Result StoreError Bytes
variable_blob (blob bytes) = ok bytes
variable_blob (string _) = err unavailable
variable_blob other = err unavailable

unfoldable pub fixed_blob : ℕ → SqlStorageValue → Result StoreError Bytes
fixed_blob n value = do
  bytes ← variable_blob value
  ensure (length bytes == n) unavailable
  ok bytes

-- The filter behind `parse::<u64>().ok()`.
unfoldable pub stored_revision : Option ℕ → Result StoreError ℕ
stored_revision none = err unavailable
stored_revision (some revision) =
    if ltb 0 revision && leb revision max_revision then ok revision else err unavailable

unfoldable pub revision_text : SqlStorageValue → Result StoreError ℕ
revision_text value = do text ← sql_text value; stored_revision (parse_unsigned (2 ^ 64) text)

unfoldable pub parse_record : Row → Result StoreError StoredRecord
parse_record [] = err unavailable
parse_record (_ ∷ []) = err unavailable
parse_record (_ ∷ _ ∷ []) = err unavailable
parse_record (revision ∷ nonce ∷ ciphertext ∷ []) = do
  revision ← revision_text revision
  nonce ← fixed_blob 24 nonce
  ciphertext ← variable_blob ciphertext
  or_unavailable (from_storage revision nonce ciphertext)
parse_record (_ ∷ _ ∷ _ ∷ _ ∷ _) = err unavailable

unfoldable pub parse_account : UuidCrate → Row → Result StoreError StoredAccount
parse_account uuid [] = err unavailable
parse_account uuid (_ ∷ []) = err unavailable
parse_account uuid (_ ∷ _ ∷ []) = err unavailable
parse_account uuid (account_id ∷ publish_hash ∷ download_hash ∷ []) = do
  account_id ← fixed_blob 16 account_id
  publish_hash ← fixed_blob 32 publish_hash
  download_hash ← fixed_blob 32 download_hash
  or_unavailable (new_account uuid account_id publish_hash download_hash)
parse_account uuid (_ ∷ _ ∷ _ ∷ _ ∷ _) = err unavailable

-- The body of the loop of `load_index`.
unfoldable pub index_entry : Row → Result StoreError LiveRecordIndexEntry
index_entry [] = err unavailable
index_entry (_ ∷ []) = err unavailable
index_entry (record_id ∷ revision ∷ []) = do
  record_id ← fixed_blob 16 record_id
  revision ← revision_text revision
  ok (record { record_id = record_id; revision = revision })
index_entry (_ ∷ _ ∷ _ ∷ _) = err unavailable

-- The loop, with `pushed` entries before.
unfoldable pub index_entries : ℕ → Cursor → Result StoreError (List LiveRecordIndexEntry)
index_entries pushed [] = ok []
index_entries pushed (none ∷ _) = err unavailable
index_entries pushed (some row ∷ rows) = do
  entry ← index_entry row
  ensure (leb (pushed + 1) max_live_records) unavailable
  entries ← index_entries (pushed + 1) rows
  ok (entry ∷ entries)

-- `transpose` behind `map`
unfoldable pub traverse :
    {A : Type 0} → (Row → Result StoreError A) → Option Row → Result StoreError (Option A)
traverse f none = ok none
traverse f (some row) = do a ← f row; ok (some a)
