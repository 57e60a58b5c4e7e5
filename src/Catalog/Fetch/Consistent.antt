-- ===== src/Catalog/Fetch/Consistent.antt =====
-- crates/cli/src/sync/refresh.rs: what a record that is fetched has been checked against.

use attached.Common.{
  ℕ, ◌≤◌, ◌==◌, eq→==, le→ltb_false, Bool-cases, inl, inr, List, Option, some, Result, ok, ◌≡◌,
  refl, ap, arith,
}
use attached.Api.Sequence.{LiveRecordIndexEntry}
use attached.Catalog.Fetch.{
  FetchedRecord, Client, find_entry, recheck, with_index, with_fetched, fetch_attempts,
  fetch_consistent_record,
}
use attached.Catalog.Fetch.Counted.{Asked, fetch_attempts-IsWithin}
use attached.Catalog.Fetch.Attempts.{IsConsistent, fetch_attempts-Ends}

module _ {Failure : Type 0} (client : Client Failure) where
  open client use {State, get_record, list_records}

  -- A record that is returned has been answered to a GET of its identifier, its revision is not below that of
  -- the entry it was fetched for, and it is the revision of this entry or of an index that was
  -- listed on the way.
  pub fetch_consistent_record_lem :
      (entry : LiveRecordIndexEntry) (s s' : State) (f : FetchedRecord)
      → fetch_consistent_record client entry s ≡ (s', ok (some f))
      → IsConsistent client s entry f
  unfolding fetch_consistent_record
  fetch_consistent_record_lem entry s s' f h =
      (fetch_attempts-Ends client 3 entry s).consistent f (ap (λ x. x.1) h)

  -- Whatever the service answers, a record is fetched with at most three GETs of the identifier of
  -- its entry and at most three indexes, and no other request.
  pub fetch_requests_bounded :
      (entry : LiveRecordIndexEntry) (s : State)
      → (gets : ℕ) × (lists : ℕ) × (gets ≤ 3)
        × (lists ≤ 3)
        × Asked client entry.record_id s gets lists (fetch_consistent_record client entry s).0
  unfolding fetch_consistent_record
  fetch_requests_bounded entry s =
      let w = fetch_attempts-IsWithin client 3 entry s in
      (w.gets, w.lists, w.gets_bound, w.lists_bound, w.asked)

  -- When every GET of a record answers with one revision, not below the entry's, and every index lists
  -- it, the record is fetched.
  pub quiet_record_fetched :
      (entry current : LiveRecordIndexEntry) (f : FetchedRecord)
      (entries : List LiveRecordIndexEntry) (s : State)
      → ((u : State) → (get_record entry.record_id u).1 ≡ ok (some f))
      → ((u : State) → (list_records u).1 ≡ ok entries)
      → find_entry entry.record_id entries ≡ some current
      → current.revision ≡ f.revision
      → entry.revision ≤ f.revision
      → (fetch_consistent_record client entry s).1 ≡ ok (some f)
  unfolding fetch_consistent_record fetch_attempts with_fetched with_index recheck
  quiet_record_fetched entry current f entries s gets lists found same newer =
      by_get (get_record entry.record_id s) (gets s)
    where
      by_list :
          (y : State × Result Failure (List LiveRecordIndexEntry))
          → y.1 ≡ ok entries
          → (with_index client (fetch_attempts client 2) entry f y).1 ≡ ok (some f)
      by_list (v, r) e =
          rw
            (
              e,
              found,
              same,
              le→ltb_false f.revision f.revision (omega arith),
              eq→== f.revision f.revision refl,
            )
            refl

      by_get :
          (x : State × Result Failure (Option FetchedRecord))
          → x.1 ≡ ok (some f)
          → (with_fetched client (fetch_attempts client 2) entry x).1 ≡ ok (some f)
      by_get (u, r) e = elim (Bool-cases (f.revision == entry.revision)) [
        | inl at_entry ↦ rw (e, le→ltb_false f.revision entry.revision newer, at_entry) refl
        | inr other ↦
            rw (e, le→ltb_false f.revision entry.revision newer, other)
              (by_list (list_records u) (lists u))
      ]
