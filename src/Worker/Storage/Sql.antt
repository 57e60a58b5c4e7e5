-- ===== src/Worker/Storage/Sql.antt =====
-- crates/session-sync-worker/src/storage.rs: the tables of the schema, its constraints and its
-- trigger, and each SQL statement of the file as a function on the tables.
use attached.Common.{
  ℕ, ◌+◌, Bool, true, false, not, ◌&&◌, ◌||◌, ltb, leb, ◌==◌, if◌then◌else◌, List, [], ◌∷◌, length,
  take, Option, none, some, Bytes, bytes_eq, print_decimal,
}
use attached.Api.Envelope.{max_ciphertext_bytes}
use attached.Api.Sequence.{max_live_records, is_less}
use attached.Worker.Account.{StoredAccount}
use attached.Worker.Records.{StoredRecord, max_revision}

-- `worker::SqlStorageValue`; the kinds of value that no statement here returns are `other`.
pub data SqlStorageValue : Type 0 where
  blob string : Bytes → SqlStorageValue
  other : SqlStorageValue

abbrev pub Row : Type 0
Row = List SqlStorageValue

-- A row of `records`, by its primary key. The list stands in the order of the key.
abbrev pub Records : Type 0
Records = List (Bytes × StoredRecord)

-- The account is at most one row, since `singleton` is a primary key that must be 1.
pub record Tables : Type 0 where
  pub schema : Bool
  pub account_state : Option StoredAccount
  pub records : Records

-- `CAST(… AS TEXT)` of an integer, which has at most 19 digits.
unfoldable pub cast_text : ℕ → SqlStorageValue
cast_text n = string (print_decimal 20 n)

-- A failed statement is `none`: a table that is not there, a constraint or a trigger.
abbrev pub Statement : Type 0
Statement = Tables → Option (List Row × Tables)

-- CREATE TABLE IF NOT EXISTS …; CREATE TRIGGER IF NOT EXISTS …
unfoldable pub create_schema : Statement
create_schema t = some ([], record t { schema = true })

unfoldable pub account_checks : StoredAccount → Bool
account_checks a =
    length a.account_id == 16
    && length a.publish_api_token_hash == 32
    && length a.download_api_token_hash == 32
    && not (bytes_eq a.publish_api_token_hash a.download_api_token_hash)

-- INSERT INTO account_state … ON CONFLICT (singleton) DO NOTHING RETURNING CAST(singleton AS TEXT)
unfoldable pub insert_account : StoredAccount → Statement
insert_account account t =
    if not t.schema || not (account_checks account) then none else elim t.account_state [
      | some _ ↦ some ([], t)
      | none ↦ some ((cast_text 1 ∷ []) ∷ [], record t { account_state = some account })
    ]

-- SELECT name FROM sqlite_schema WHERE type = 'table' AND name = 'account_state'
unfoldable pub select_schema : Bytes → Statement
select_schema name t = some (if t.schema then (string name ∷ []) ∷ [] else [], t)

-- SELECT account_id, publish_api_token_hash, download_api_token_hash FROM account_state
-- WHERE singleton = 1
unfoldable pub select_account : Statement
select_account t =
    if t.schema
    then elim t.account_state [
      | none ↦ some ([], t)
      | some a ↦ some (
        (blob a.account_id ∷ blob a.publish_api_token_hash ∷ blob a.download_api_token_hash ∷ [])
            ∷ [],
        t,
      )
    ]
    else none

abbrev pub index_row : Bytes × StoredRecord → Row
index_row (id, r) = blob id ∷ cast_text r.revision ∷ []

unfoldable pub index_rows : Records → List Row
index_rows [] = []
index_rows (r ∷ records) = index_row r ∷ index_rows records

-- SELECT record_id, CAST(revision AS TEXT) FROM records ORDER BY record_id LIMIT ?
unfoldable pub select_index : ℕ → Statement
select_index limit t = if t.schema then some (take limit (index_rows t.records), t) else none

unfoldable pub lookup : Bytes → Records → Option StoredRecord
lookup id [] = none
lookup id ((key, r) ∷ records) = if bytes_eq key id then some r else lookup id records

abbrev pub record_row : StoredRecord → Row
record_row r = cast_text r.revision ∷ blob r.envelope_nonce ∷ blob r.envelope_ciphertext ∷ []

unfoldable pub record_rows : Option StoredRecord → List Row
record_rows none = []
record_rows (some r) = record_row r ∷ []

-- SELECT CAST(revision AS TEXT), envelope_nonce, envelope_ciphertext FROM records
-- WHERE record_id = ?
unfoldable pub select_record : Bytes → Statement
select_record id t = if t.schema then some (record_rows (lookup id t.records), t) else none

-- SELECT CAST(COUNT(*) AS TEXT) FROM records
unfoldable pub select_count : Statement
select_count t = if t.schema then some ((cast_text (length t.records) ∷ []) ∷ [], t) else none

-- The row for a key, in the order of the keys; it replaces the row that the key has.
unfoldable pub upsert : Bytes → StoredRecord → Records → Records
upsert id r [] = (id, r) ∷ []
upsert id r ((key, old) ∷ records) =
    let rest = upsert id r records in
    if bytes_eq key id
    then (id, r) ∷ records
    else if is_less id key
    then (id, r) ∷ (key, old) ∷ records
    else (key, old) ∷ rest

unfoldable pub record_checks : Bytes → StoredRecord → Bool
record_checks id r =
    length id == 16
    && ltb 0 r.revision
    && length r.envelope_nonce == 24
    && leb (length r.envelope_ciphertext) max_ciphertext_bytes

-- `Option::is_some`
abbrev pub is_some {ℓ} : {A : Type ℓ} → Option A → Bool
is_some none = false
is_some (some _) = true

-- INSERT INTO records … SELECT ?, 1, ?, ? WHERE EXISTS (SELECT 1 FROM account_state …)
-- RETURNING CAST(revision AS TEXT), under the primary key and the trigger records_live_quota
unfoldable pub insert_record : Bytes → Bytes → Bytes → Statement
insert_record id nonce ciphertext t =
    let row : StoredRecord = record {
      revision = 1;
      envelope_nonce = nonce;
      envelope_ciphertext = ciphertext;
    } in
    if not t.schema
    then none
    else if not (is_some t.account_state)
    then some ([], t)
    else if leb max_live_records (length t.records)
        || is_some (lookup id t.records)
        || not (record_checks id row)
    then none
    else some ((cast_text 1 ∷ []) ∷ [], record t { records = upsert id row t.records })

-- UPDATE records SET revision = revision + 1, … WHERE record_id = ? AND revision <
-- 9223372036854775807 RETURNING CAST(revision AS TEXT)
unfoldable pub update_record : Bytes → Bytes → Bytes → Statement
update_record id nonce ciphertext t =
    if t.schema
    then elim (lookup id t.records) [
      | none ↦ some ([], t)
      | some old ↦
          let row : StoredRecord = record {
            revision = old.revision + 1;
            envelope_nonce = nonce;
            envelope_ciphertext = ciphertext;
          } in
          if not (ltb old.revision max_revision)
          then some ([], t)
          else if not (record_checks id row)
          then none
          else some
              ((cast_text row.revision ∷ []) ∷ [], record t { records = upsert id row t.records })
    ]
    else none
