-- ===== src/Catalog/Fetch/Attempts.antt =====
-- crates/cli/src/sync/refresh.rs: the attempts at a record, request by request.
use mathlib.Core.Path.{subst}
use attached.Common.{
  ℕ, zero, suc, ◌+◌, ◌≤◌, ◌⊎◌, false, ltb, ◌==◌, ==→eq, Bool-cases, inl, inr, List, [], ◌∷◌, Option,
  none, some, Bytes, bytes_eq, bytes_eq_iff, Result, ok, err, ◌≡◌, refl, sym, ap, ◌∙◌, arith,
}
use attached.Api.Sequence.{LiveRecordIndexEntry}
use attached.Catalog.Fetch.{
  FetchedRecord, Client, FetchError, get_failed, recheck_failed, record_moved_backwards,
  index_moved_backwards, kept_changing, find_entry, Fetch, Again, recheck, with_index, with_fetched,
  fetch_attempts,
}
use attached.Catalog.Fetch.Requests.{
  Calls, IsServed, IsListed, none_yet, got, indexed, in_a_row, later_answer, later_index,
  same_index,
}

pub find_entry-id :
    (id : Bytes) (entries : List LiveRecordIndexEntry) (e : LiveRecordIndexEntry)
    → find_entry id entries ≡ some e
    → e.record_id ≡ id
unfolding find_entry
find_entry-id id [] e h = absurd cc
find_entry-id id (x ∷ entries) e h = elim (Bool-cases (bytes_eq x.record_id id)) [
  | inl same ↦
      let found : x ≡ e = some-injective x e (sym (rw same refl) ∙ h) in
      ap (λ (y : LiveRecordIndexEntry). y.record_id) (sym found)
      ∙ (bytes_eq_iff x.record_id id).0 same
  | inr other ↦ find_entry-id id entries e (sym (rw other refl) ∙ h)
]
  where
    some-injective : (a b : LiveRecordIndexEntry) → some a ≡ some b → a ≡ b
    some-injective a b e = cc

module _ {Failure : Type 0} (client : Client Failure) where
  open client use {State, get_record, list_records}

  pub record IsConsistent (s : State) (entry : LiveRecordIndexEntry) (f : FetchedRecord)
      : Type 0 where
    pub not_back : entry.revision ≤ f.revision
    pub served : IsServed client s entry.record_id f
    pub confirmed : (f.revision ≡ entry.revision) ⊎ IsListed client s entry.record_id f.revision

  -- What every outcome satisfies: it is behind some requests, and a record that is returned is
  -- consistent.
  pub record Ends (s : State) (entry : LiveRecordIndexEntry) (x : Fetch client) : Type 0 where
    pub calls : ℕ
    pub reached : Calls client s calls x.0
    pub consistent : (f : FetchedRecord) → x.1 ≡ ok (some f) → IsConsistent s entry f

  no_record :
      (s : State) (entry : LiveRecordIndexEntry) (calls : ℕ) (s' : State)
      (r : Result (FetchError Failure) (Option FetchedRecord))
      → Calls client s calls s'
      → ((f : FetchedRecord) → r ≡ ok (some f) → ⊥)
      → Ends s entry (s', r)
  no_record s entry calls s' r c never = record {
    calls = calls;
    reached = c;
    consistent = λ f e. absurd (never f e);
  }

  -- The next attempt, behind the two requests of one that found a newer index entry.
  next-Ends :
      (s u : State) (entry current : LiveRecordIndexEntry) (x : Fetch client)
      → Calls client s 2 u
      → current.record_id ≡ entry.record_id
      → entry.revision ≤ current.revision
      → IsListed client s entry.record_id current.revision
      → Ends u current x
      → Ends s entry x
  next-Ends s u entry current x two same newer listed e = record {
    calls = 2 + e.calls;
    reached = in_a_row client two e.reached;
    consistent = λ f returned.
        let c = e.consistent f returned in
        record {
          not_back = omega (arith, c.not_back);
          served = later_answer client two (subst (λ id. IsServed client u id f) same c.served);
          confirmed = elim c.confirmed [
            | inl at_current ↦ inr (same_index client (sym at_current) listed)
            | inr later ↦
                inr (
                  later_index client two (subst (λ id. IsListed client u id f.revision) same later))
          ];
        };
  }

  returned-Ends :
      (s s' : State) (entry : LiveRecordIndexEntry) (calls : ℕ) (f : FetchedRecord)
      → Calls client s calls s'
      → IsConsistent s entry f
      → Ends s entry (s', ok (some f))
  returned-Ends s s' entry calls f c consistent = record {
    calls = calls;
    reached = c;
    consistent = λ g e. subst (IsConsistent s entry) (same f g e) consistent;
  }
    where
      same :
          (f g : FetchedRecord)
          → Path (Result (FetchError Failure) (Option FetchedRecord)) (ok (some f)) (ok (some g))
          → f ≡ g
      same f g e = cc

  module _ (again : Again client)
      (ih : (entry : LiveRecordIndexEntry) (s : State) → Ends s entry (again entry s)) (s : State)
      (entry : LiveRecordIndexEntry) where
    not_returned :
        (e : FetchError Failure) (f : FetchedRecord)
        → Path (Result (FetchError Failure) (Option FetchedRecord)) (err e) (ok (some f))
        → ⊥
    not_returned e f h = cc

    absent :
        (f : FetchedRecord)
        → Path (Result (FetchError Failure) (Option FetchedRecord)) (ok none) (ok (some f))
        → ⊥
    absent f h = cc

    recheck-Ends :
        (u v : State) (f : FetchedRecord) (entries : List LiveRecordIndexEntry)
        (o : Option LiveRecordIndexEntry)
        → Calls client s 1 u
        → Calls client s 2 v
        → (list_records u).1 ≡ ok entries
        → find_entry entry.record_id entries ≡ o
        → IsServed client s entry.record_id f
        → entry.revision ≤ f.revision
        → Ends s entry (recheck client again f o v)
    unfolding recheck
    recheck-Ends u v f entries none one two answer found served newer =
        no_record s entry 2 v (ok none) two absent
    recheck-Ends u v f entries (some current) one two answer found served newer =
        let listed : IsListed client s entry.record_id current.revision = record {
          calls = 1;
          before = u;
          reached = one;
          entries = entries;
          answer = answer;
          entry = current;
          found = found;
          same_revision = refl;
        } in
        elim (Bool-cases (ltb current.revision f.revision)) [
          | inl back ↦ rw back (
              no_record s entry 2 v (err index_moved_backwards) two
                (not_returned index_moved_backwards))
          | inr not_back ↦ elim (Bool-cases (current.revision == f.revision)) [
            | inl same ↦
                rw (not_back, same)
                  (returned-Ends s v entry 2 f two (record {
                    not_back = newer;
                    served = served;
                    confirmed =
                        inr (same_index client (==→eq current.revision f.revision same) listed);
                  }))
            | inr other ↦
                rw (not_back, other)
                  (next-Ends s v entry current (again current v) two
                    (find_entry-id entry.record_id entries current found)
                    (at_least current.revision f.revision entry.revision not_back newer) listed
                    (ih current v))
          ]
        ]
      where
        at_least : (c f e : ℕ) → ltb c f ≡ false → e ≤ f → e ≤ c
        at_least c f e h k = ground arith

    with_index-Ends :
        (u : State) (f : FetchedRecord) (x : State × Result Failure (List LiveRecordIndexEntry))
        → Calls client s 1 u
        → list_records u ≡ x
        → IsServed client s entry.record_id f
        → entry.revision ≤ f.revision
        → Ends s entry (with_index client again entry f x)
    unfolding with_index
    with_index-Ends u f (v, err e) one answer served newer =
        no_record s entry 2 v (err (recheck_failed e))
          (subst (λ x. Calls client s 2 x.0) answer (in_a_row client one (indexed none_yet)))
          (not_returned (recheck_failed e))
    with_index-Ends u f (v, ok entries) one answer served newer =
        recheck-Ends u v f entries (find_entry entry.record_id entries) one
          (subst (λ x. Calls client s 2 x.0) answer (in_a_row client one (indexed none_yet)))
          (ap (λ x. x.1) answer) refl served newer

    with_fetched-Ends :
        (x : State × Result Failure (Option FetchedRecord))
        → get_record entry.record_id s ≡ x
        → Ends s entry (with_fetched client again entry x)
    unfolding with_fetched
    with_fetched-Ends (u, err e) answer =
        no_record s entry 1 u (err (get_failed e))
          (subst (λ x. Calls client s 1 x.0) answer (got entry.record_id none_yet))
          (not_returned (get_failed e))
    with_fetched-Ends (u, ok none) answer =
        no_record s entry 1 u (ok none)
          (subst (λ x. Calls client s 1 x.0) answer (got entry.record_id none_yet)) absent
    with_fetched-Ends (u, ok (some f)) answer =
        let one = subst (λ x. Calls client s 1 x.0) answer (got entry.record_id none_yet) in
        let served : IsServed client s entry.record_id f = record {
          calls = 0;
          before = s;
          reached = none_yet;
          answer = ap (λ x. x.1) answer;
        } in
        elim (Bool-cases (ltb f.revision entry.revision)) [
          | inl back ↦ rw back (
              no_record s entry 1 u (err record_moved_backwards) one
                (not_returned record_moved_backwards))
          | inr not_back ↦
              let newer = at_least f.revision entry.revision not_back in
              elim (Bool-cases (f.revision == entry.revision)) [
                | inl same ↦
                    rw (not_back, same)
                      (returned-Ends s u entry 1 f one (record {
                        not_back = newer;
                        served = served;
                        confirmed = inl (==→eq f.revision entry.revision same);
                      }))
                | inr other ↦
                    rw (not_back, other)
                      (with_index-Ends u f (list_records u) one refl served newer)
              ]
        ]
      where
        at_least : (f e : ℕ) → ltb f e ≡ false → e ≤ f
        at_least f e h = ground arith

  pub fetch_attempts-Ends :
      (n : ℕ) (entry : LiveRecordIndexEntry) (s : State)
      → Ends s entry (fetch_attempts client n entry s)
  unfolding fetch_attempts
  fetch_attempts-Ends zero entry s = no_record s entry 0 s (err kept_changing) none_yet λ f h. cc
  fetch_attempts-Ends (suc n) entry s =
      with_fetched-Ends (fetch_attempts client n) (λ e t. fetch_attempts-Ends n e t) s entry
        (get_record entry.record_id s) refl
