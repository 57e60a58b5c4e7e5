-- ===== src/Catalog/Fetch/Changed.antt =====
-- crates/cli/src/sync/refresh.rs: what every record that fetch_changed_records gives has been checked
-- against.
use attached.Common.{ℕ, ◌+◌, inl, inr, List, [], ◌∷◌, All, Option, some, Result, ok, ◌≡◌}
use attached.Api.Sequence.{LiveRecordIndexEntry}
use attached.Catalog.Fetch.{
  FetchedRecord, Client, FetchError, fetch_consistent_record, fetch_changed_records,
}
use attached.Catalog.Fetch.Requests.{Calls, in_a_row, later_answer, later_index}
use attached.Catalog.Fetch.Attempts.{IsConsistent, fetch_attempts-Ends}

module _ {Failure : Type 0} (client : Client Failure) where
  -- What is consistent behind some requests is consistent from where they were sent.
  later-IsConsistent :
      {s u : client.State} {n : ℕ} {entry : LiveRecordIndexEntry} {f : FetchedRecord}
      → Calls client s n u
      → IsConsistent client u entry f
      → IsConsistent client s entry f
  later-IsConsistent reached c = record {
    not_back = c.not_back;
    served = later_answer client reached c.served;
    confirmed = elim c.confirmed [
      | inl at_entry ↦ inl at_entry
      | inr listed ↦ inr (later_index client reached listed)
    ];
  }

  -- An entry that P holds of, with what came of it: a record, if there is one, is consistent.
  abbrev pub IsOf :
      (LiveRecordIndexEntry → Type 0)
      → client.State
      → LiveRecordIndexEntry × Result (FetchError Failure) (Option FetchedRecord)
      → Type 0
  IsOf P s x = P x.0 × ((f : FetchedRecord) → x.1 ≡ ok (some f) → IsConsistent client s x.0 f)

  pub fetch_changed_records-IsOf :
      (P : LiveRecordIndexEntry → Type 0) (s u : client.State) (n : ℕ)
      (entries : List LiveRecordIndexEntry)
      → Calls client s n u
      → All P entries
      → All (IsOf P s) (fetch_changed_records client entries u).1
  unfolding fetch_changed_records fetch_consistent_record
  fetch_changed_records-IsOf P s u n [] reached h = tt
  fetch_changed_records-IsOf P s u n (entry ∷ entries) reached (p, h) =
      let e = fetch_attempts-Ends client 3 entry u in
      (
        (p, λ f returned. later-IsConsistent reached (e.consistent f returned)),
        fetch_changed_records-IsOf P s (fetch_consistent_record client entry u).0 (n + e.calls)
            entries (in_a_row client reached e.reached) h,
      )
