-- ===== src/Catalog/Fetch/Counted.antt =====
-- crates/cli/src/sync/refresh.rs: how many requests of each kind the attempts at a record send.
use mathlib.Core.Path.{subst}
use attached.Common.{
  ℕ, zero, suc, ◌≤◌, ltb, ◌==◌, Bool-cases, inl, inr, List, Option, none, some, Bytes, Result, ok,
  err, ◌≡◌, refl, arith,
}
use attached.Api.Sequence.{LiveRecordIndexEntry}
use attached.Catalog.Fetch.{
  FetchedRecord, Client, find_entry, Again, recheck, with_index, with_fetched, fetch_attempts,
}
use attached.Catalog.Fetch.Attempts.{find_entry-id}

module _ {Failure : Type 0} (client : Client Failure) where
  open client use {State, get_record, list_records}

  -- A number of GETs of the identifier and a number of indexes, and no other request.
  pub data Asked (id : Bytes) : State → ℕ → ℕ → State → Type 0 where
    none_asked : {s : State} → Asked id s 0 0 s
    asked_get :
        {s s' : State} {gets lists : ℕ}
        → Asked id (get_record id s).0 gets lists s'
        → Asked id s (suc gets) lists s'
    asked_list :
        {s s' : State} {gets lists : ℕ}
        → Asked id (list_records s).0 gets lists s'
        → Asked id s gets (suc lists) s'

  pub record IsWithin (id : Bytes) (most_gets most_lists : ℕ) (s s' : State) : Type 0 where
    pub gets : ℕ
    pub lists : ℕ
    pub gets_bound : gets ≤ most_gets
    pub lists_bound : lists ≤ most_lists
    pub asked : Asked id s gets lists s'

  at_rest : (id : Bytes) (n m : ℕ) (s : State) → IsWithin id n m s s
  at_rest id n m s = record {
    gets = 0;
    lists = 0;
    gets_bound = omega arith;
    lists_bound = omega arith;
    asked = none_asked;
  }

  -- One more GET, or one more index, in front.
  behind_get :
      (id : Bytes) (n m : ℕ) (s s' : State)
      → IsWithin id n m (get_record id s).0 s'
      → IsWithin id (suc n) m s s'
  behind_get id n m s s' w = record {
    gets = suc w.gets;
    lists = w.lists;
    gets_bound = omega (arith, w.gets_bound);
    lists_bound = w.lists_bound;
    asked = asked_get w.asked;
  }

  behind_list :
      (id : Bytes) (n m : ℕ) (s s' : State)
      → IsWithin id n m (list_records s).0 s'
      → IsWithin id n (suc m) s s'
  behind_list id n m s s' w = record {
    gets = w.gets;
    lists = suc w.lists;
    gets_bound = w.gets_bound;
    lists_bound = omega (arith, w.lists_bound);
    asked = asked_list w.asked;
  }

  -- The next attempt is for the entry that the index has, which is of the same identifier.
  module _ (again : Again client) (n : ℕ)
      (ih : (entry : LiveRecordIndexEntry) (s : State)
        → IsWithin entry.record_id n n s (again entry s).0) where
    recheck-IsWithin :
        (id : Bytes) (f : FetchedRecord) (o : Option LiveRecordIndexEntry) (s : State)
        → ((current : LiveRecordIndexEntry) → o ≡ some current → current.record_id ≡ id)
        → IsWithin id n n s (recheck client again f o s).0
    unfolding recheck
    recheck-IsWithin id f none s same = at_rest id n n s
    recheck-IsWithin id f (some current) s same =
        elim (Bool-cases (ltb current.revision f.revision)) [
          | inl back ↦ rw back (at_rest id n n s)
          | inr not_back ↦ elim (Bool-cases (current.revision == f.revision)) [
            | inl equal ↦ rw (not_back, equal) (at_rest id n n s)
            | inr other ↦
                rw (not_back, other)
                  (subst (λ x. IsWithin x n n s (again current s).0) (same current refl)
                    (ih current s))
          ]
        ]

    with_index-IsWithin :
        (entry : LiveRecordIndexEntry) (f : FetchedRecord)
        (x : State × Result Failure (List LiveRecordIndexEntry))
        → IsWithin entry.record_id n n x.0 (with_index client again entry f x).0
    unfolding with_index
    with_index-IsWithin entry f (s, err e) = at_rest entry.record_id n n s
    with_index-IsWithin entry f (s, ok entries) =
        recheck-IsWithin entry.record_id f (find_entry entry.record_id entries) s
          (λ current found. find_entry-id entry.record_id entries current found)

    with_fetched-IsWithin :
        (entry : LiveRecordIndexEntry) (x : State × Result Failure (Option FetchedRecord))
        → IsWithin entry.record_id n (suc n) x.0 (with_fetched client again entry x).0
    unfolding with_fetched
    with_fetched-IsWithin entry (s, err e) = at_rest entry.record_id n (suc n) s
    with_fetched-IsWithin entry (s, ok none) = at_rest entry.record_id n (suc n) s
    with_fetched-IsWithin entry (s, ok (some f)) =
        elim (Bool-cases (ltb f.revision entry.revision)) [
          | inl back ↦ rw back (at_rest entry.record_id n (suc n) s)
          | inr not_back ↦ elim (Bool-cases (f.revision == entry.revision)) [
            | inl equal ↦ rw (not_back, equal) (at_rest entry.record_id n (suc n) s)
            | inr other ↦
                rw (not_back, other)
                  (behind_list entry.record_id n n s _
                    (with_index-IsWithin entry f (list_records s)))
          ]
        ]

  pub fetch_attempts-IsWithin :
      (n : ℕ) (entry : LiveRecordIndexEntry) (s : State)
      → IsWithin entry.record_id n n s (fetch_attempts client n entry s).0
  unfolding fetch_attempts
  fetch_attempts-IsWithin zero entry s = at_rest entry.record_id 0 0 s
  fetch_attempts-IsWithin (suc n) entry s = behind_get entry.record_id n (suc n) s _ (
      with_fetched-IsWithin (fetch_attempts client n) n (λ e t. fetch_attempts-IsWithin n e t) entry
        (get_record entry.record_id s))
