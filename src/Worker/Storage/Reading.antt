-- ===== src/Worker/Storage/Reading.antt =====
-- crates/session-sync-worker/src/storage.rs: what the reading operations give on valid tables.
use attached.Common.{
  ℕ, ◌^◌, ◌≤◌, ◌<◌, true, eq→==, le→leb, lt→ltb, length, [], ◌∷◌, All, Bytes, Option, none, some,
  ok, print_decimal, parse_unsigned-print_decimal, ◌≡◌, refl, ap, ◌∙◌, arith,
}
use attached.Api.Sequence.{max_live_records}
use attached.Worker.Records.{StoredRecord, max_revision}
use attached.Worker.Records.History.{from_storage_ok}
use attached.Worker.Storage.Sql.{
  Row, Tables, Records, blob, cast_text, lookup, record_row, record_rows, select_record,
  select_count, is_some,
}
use attached.Worker.Storage.Rows.{
  or_unavailable, optional_row, required_row, present, single_value, single_text, sql_text,
  fixed_blob, variable_blob, stored_revision, revision_text, parse_record, traverse,
}
use attached.Worker.Storage.Session.{Storage, delivered, exec, lift}
use attached.Worker.Storage.Session.Steps.{Reads, exec-Reads, >>=-Reads, lift-Reads}
use attached.Worker.Storage.Keys.{IsRow, Sorted, All-lookup}
use attached.Worker.Storage.Operations.{load_record, parsed, live_record_count, count_of_text}

-- The tables of an account that was initialized.
pub record IsValid (t : Tables) : Type 0 where
  pub schema : t.schema ≡ true
  pub account : is_some t.account_state ≡ true
  pub at_most : length t.records ≤ max_live_records
  pub rows : All IsRow t.records
  pub sorted : Sorted t.records

decimal_bound : (n : ℕ) → n ≤ max_revision → n < 10 ^ 20
decimal_bound n h = omega arith

pub revision_text-cast_text :
    (n : ℕ) → 1 ≤ n → n ≤ max_revision → revision_text (cast_text n) ≡ ok n
unfolding revision_text stored_revision cast_text sql_text
revision_text-cast_text n some_n most =
    ap stored_revision (parse_unsigned-print_decimal (2 ^ 64) 19 n (omega arith) (omega arith))
    ∙ rw (lt→ltb 0 n (omega arith), le→leb n max_revision most) refl

pub fixed_blob-blob :
    (n : ℕ) (bytes : Bytes) → length bytes ≡ n → fixed_blob n (blob bytes) ≡ ok bytes
unfolding fixed_blob variable_blob
fixed_blob-blob n bytes h = rw (eq→== (length bytes) n h) refl

parse_record-row :
    (id : Bytes) (r : StoredRecord) → IsRow (id, r) → parse_record (record_row r) ≡ ok r
unfolding parse_record variable_blob or_unavailable
parse_record-row id r h =
    rw
      (
        revision_text-cast_text r.revision h.storable.revision_some h.storable.revision_most,
        fixed_blob-blob 24 r.envelope_nonce h.nonce_len,
        from_storage_ok r h.storable,
      )
      refl

row_of : Option StoredRecord → Option Row
row_of none = none
row_of (some r) = some (record_row r)

single_row :
    (found : Option StoredRecord) → optional_row (delivered (record_rows found)) ≡ ok (row_of found)
unfolding optional_row delivered record_rows row_of
single_row none = refl
single_row (some r) = refl

found_row :
    (id : Bytes) (records : Records) (found : Option StoredRecord)
    → All IsRow records
    → lookup id records ≡ found
    → traverse parse_record (row_of found) ≡ ok found
unfolding traverse row_of
found_row id records none rows h = refl
found_row id records (some r) rows h =
    rw (parse_record-row id r (All-lookup IsRow id records rows h)) refl

-- The record of a key, or that there is none.
pub load_record-Reads :
    (id : Bytes) (s : Storage)
    → IsValid s.tables
    → Reads s (lookup id s.tables.records) (load_record id s)
unfolding load_record select_record
load_record-Reads id s v =
    let found = lookup id s.tables.records in
    >>=-Reads (exec (select_record id)) _
      (exec-Reads (select_record id) s (record_rows found) (rw v.schema refl))
      (λ s₁ _.
        >>=-Reads (lift (optional_row (delivered (record_rows found)))) _
          (lift-Reads _ s₁ (single_row found))
          (λ s₂ _.
            lift-Reads (traverse parse_record (row_of found)) s₂
              (found_row id s.tables.records found v.rows refl)))

count_of_text-cast : (n : ℕ) → n ≤ max_live_records → count_of_text (print_decimal 20 n) ≡ ok n
unfolding count_of_text
count_of_text-cast n h =
    ap parsed (parse_unsigned-print_decimal (2 ^ 32) 19 n (omega arith) (omega arith))

count_row : (n : ℕ) → required_row (delivered ((cast_text n ∷ []) ∷ [])) ≡ ok (cast_text n ∷ [])
unfolding required_row optional_row present delivered
count_row n = refl

count_text : (n : ℕ) → single_text (cast_text n ∷ []) ≡ ok (print_decimal 20 n)
unfolding single_text single_value sql_text cast_text
count_text n = refl

pub live_record_count-Reads :
    (s : Storage) → IsValid s.tables → Reads s (length s.tables.records) (live_record_count s)
unfolding live_record_count select_count cast_text
live_record_count-Reads s v =
    let n = length s.tables.records in
    >>=-Reads (exec select_count) _ (exec-Reads select_count s _ (rw v.schema refl)) (λ s₁ _.
      >>=-Reads (lift (required_row (delivered ((cast_text n ∷ []) ∷ [])))) _
        (lift-Reads _ s₁ (count_row n))
        (λ s₂ _.
          >>=-Reads (lift (single_text (cast_text n ∷ []))) _ (lift-Reads _ s₂ (count_text n))
            (λ s₃ _.
              lift-Reads (count_of_text (print_decimal 20 n)) s₃ (count_of_text-cast n v.at_most))))
