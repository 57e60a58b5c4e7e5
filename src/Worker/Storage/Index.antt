-- ===== src/Worker/Storage/Index.antt =====
-- crates/session-sync-worker/src/storage.rs: `load_index` gives the keys and revisions of the table.
use attached.Common.{
  ℕ, zero, suc, ◌+◌, ◌≤◌, true, le→leb, length, List, [], ◌∷◌, All, take, Bytes, ok, ◌≡◌, refl, ap,
  arith,
}
use attached.Api.Sequence.{
  LiveRecordIndexEntry, LiveRecordIndex, max_live_records, is_less, new_index,
}
use attached.Api.Sequence.Ascending.{Ascends, new_index_iff}
use attached.Worker.Records.{StoredRecord}
use attached.Worker.Storage.Sql.{Records, select_index, index_row, index_rows}
use attached.Worker.Storage.Rows.{or_unavailable, index_entry, index_entries}
use attached.Worker.Storage.Session.{Storage, delivered, exec, lift}
use attached.Worker.Storage.Session.Steps.{Reads, exec-Reads, >>=-Reads, lift-Reads}
use attached.Worker.Storage.Keys.{IsRow, Sorted}
use attached.Worker.Storage.Operations.{load_index}
use attached.Worker.Storage.Reading.{IsValid, revision_text-cast_text, fixed_blob-blob}

abbrev pub entries_of : Records → List LiveRecordIndexEntry
entries_of [] = []
entries_of ((id, r) ∷ records) =
    record { record_id = id; revision = r.revision } ∷ entries_of records

length-entries_of : (records : Records) → length (entries_of records) ≡ length records
length-entries_of [] = refl
length-entries_of (_ ∷ records) = ap suc (length-entries_of records)

entries_revised :
    (records : Records) → All IsRow records → All (λ e. 1 ≤ e.revision) (entries_of records)
entries_revised [] h = tt
entries_revised (x ∷ records) (h, hs) = (h.storable.revision_some, entries_revised records hs)

entries_above :
    (key : Bytes) (r : StoredRecord) (records : Records)
    → All (λ x. is_less key x.0 ≡ true) records
    → All (λ b. is_less key b.record_id ≡ true) (entries_of records)
entries_above key r [] h = tt
entries_above key r (x ∷ records) (h, hs) = (h, entries_above key r records hs)

Sorted-Ascends : (records : Records) → Sorted records → Ascends (entries_of records)
Sorted-Ascends [] h = tt
Sorted-Ascends ((key, r) ∷ records) (above, rest) =
    (entries_above key r records above, Sorted-Ascends records rest)

take_all {ℓ} : {A : Type ℓ} (n : ℕ) (xs : List A) → length xs ≤ n → take n xs ≡ xs
take_all zero [] h = refl
take_all zero (x ∷ xs) h = absurd (omega arith)
take_all (suc n) [] h = refl
take_all (suc n) (x ∷ xs) h = ap (◌∷◌ x) (take_all n xs (omega arith))

length-index_rows : (records : Records) → length (index_rows records) ≡ length records
unfolding index_rows
length-index_rows [] = refl
length-index_rows (_ ∷ records) = ap suc (length-index_rows records)

index_entry-index_row :
    (id : Bytes) (r : StoredRecord)
    → IsRow (id, r)
    → index_entry (index_row (id, r)) ≡ ok (record { record_id = id; revision = r.revision })
unfolding index_entry
index_entry-index_row id r h =
    rw
      (
        fixed_blob-blob 16 id h.id_len,
        revision_text-cast_text r.revision h.storable.revision_some h.storable.revision_most,
      )
      refl

index_entries-index_rows :
    (pushed : ℕ) (records : Records)
    → pushed + length records ≤ max_live_records
    → All IsRow records
    → index_entries pushed (delivered (index_rows records)) ≡ ok (entries_of records)
unfolding index_entries delivered index_rows
index_entries-index_rows pushed [] room h = refl
index_entries-index_rows pushed ((id, r) ∷ records) room (h, hs) =
    rw
      (
        index_entry-index_row id r h,
        le→leb (pushed + 1) max_live_records (omega arith),
        index_entries-index_rows (pushed + 1) records (omega arith) hs,
      )
      refl

new_index-entries_of :
    (records : Records)
    → length records ≤ max_live_records
    → All IsRow records
    → Sorted records
    → or_unavailable (new_index (entries_of records)) ≡ ok (record { records = entries_of records })
unfolding or_unavailable
new_index-entries_of records most rows sorted =
    let index : LiveRecordIndex = record { records = entries_of records } in
    ap or_unavailable (
      (new_index_iff (entries_of records) index).1 (
        refl,
        record {
          at_most = omega (arith, length-entries_of records);
          revised = entries_revised records rows;
          ascends = Sorted-Ascends records sorted;
        },
      ))

-- On valid tables `load_index` gives an entry for each record, in the order of the keys, and
-- leaves the tables; it fails in an outage of the database only.
pub load_index_lem :
    (s : Storage)
    → IsValid s.tables
    → Reads s (record { records = entries_of s.tables.records }) (load_index s)
unfolding load_index select_index
load_index_lem s v =
    let records = s.tables.records in
    let most = v.at_most in
    let whole =
      take_all (max_live_records + 1) (index_rows records)
        (omega (arith, length-index_rows records)) in
    >>=-Reads (exec (select_index (max_live_records + 1))) _
      (exec-Reads (select_index (max_live_records + 1)) s (index_rows records)
        (rw (v.schema, whole) refl))
      (λ s₁ _.
        >>=-Reads (lift (index_entries 0 (delivered (index_rows records)))) _
          (lift-Reads _ s₁ (index_entries-index_rows 0 records (omega arith) v.rows))
          (λ s₂ _.
            lift-Reads (or_unavailable (new_index (entries_of records))) s₂
              (new_index-entries_of records most v.rows v.sorted)))
