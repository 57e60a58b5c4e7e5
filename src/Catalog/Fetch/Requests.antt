-- ===== src/Catalog/Fetch/Requests.antt =====
-- crates/cli/src/sync/refresh.rs: the requests that are sent in a row, and what they answered.
use mathlib.Core.Path.{subst}
use attached.Common.{ℕ, suc, ◌+◌, List, some, Bytes, ok, ◌≡◌, arith}
use attached.Api.Sequence.{LiveRecordIndexEntry}
use attached.Catalog.Fetch.{FetchedRecord, Client, find_entry}

module _ {Failure : Type 0} (client : Client Failure) where
  open client use {State, get_record, list_records}

  -- A number of requests in a row.
  pub data Calls : State → ℕ → State → Type 0 where
    none_yet : {s : State} → Calls s 0 s
    got : {s s' : State} {n : ℕ} (id : Bytes) → Calls (get_record id s).0 n s' → Calls s (suc n) s'
    indexed : {s s' : State} {n : ℕ} → Calls (list_records s).0 n s' → Calls s (suc n) s'

  -- A GET of the identifier has answered with the record.
  pub record IsServed (s : State) (id : Bytes) (f : FetchedRecord) : Type 0 where
    pub calls : ℕ
    pub before : State
    pub reached : Calls s calls before
    pub answer : (get_record id before).1 ≡ ok (some f)

  -- An index that was listed has the identifier at the revision.
  pub record IsListed (s : State) (id : Bytes) (revision : ℕ) : Type 0 where
    pub calls : ℕ
    pub before : State
    pub reached : Calls s calls before
    pub entries : List LiveRecordIndexEntry
    pub answer : (list_records before).1 ≡ ok entries
    pub entry : LiveRecordIndexEntry
    pub found : find_entry id entries ≡ some entry
    pub same_revision : entry.revision ≡ revision

  pub in_a_row : {s u t : State} {m n : ℕ} → Calls s m u → Calls u n t → Calls s (m + n) t
  in_a_row {s = s} {t = t} {n = n} none_yet d =
      let sum : n ≡ 0 + n = omega arith in subst (λ k. Calls s k t) sum d
  in_a_row {s = s} {t = t} {m = suc m} {n = n} (got id c) d =
      let sum : suc (m + n) ≡ suc m + n = omega arith in
      subst (λ k. Calls s k t) sum (got id (in_a_row c d))
  in_a_row {s = s} {t = t} {m = suc m} {n = n} (indexed c) d =
      let sum : suc (m + n) ≡ suc m + n = omega arith in
      subst (λ k. Calls s k t) sum (indexed (in_a_row c d))

  pub later_answer :
      {s u : State} {n : ℕ} {id : Bytes} {f : FetchedRecord}
      → Calls s n u
      → IsServed u id f
      → IsServed s id f
  later_answer {n = n} c v = record {
    calls = n + v.calls;
    before = v.before;
    reached = in_a_row c v.reached;
    answer = v.answer;
  }

  pub later_index :
      {s u : State} {n revision : ℕ} {id : Bytes}
      → Calls s n u
      → IsListed u id revision
      → IsListed s id revision
  later_index {n = n} c v = record {
    calls = n + v.calls;
    before = v.before;
    reached = in_a_row c v.reached;
    entries = v.entries;
    answer = v.answer;
    entry = v.entry;
    found = v.found;
    same_revision = v.same_revision;
  }

  pub same_index : {s : State} {id : Bytes} {m n : ℕ} → m ≡ n → IsListed s id m → IsListed s id n
  same_index {s = s} {id = id} e l = subst (IsListed s id) e l
