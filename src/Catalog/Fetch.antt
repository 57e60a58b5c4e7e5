-- ===== src/Catalog/Fetch.antt =====
-- crates/cli/src/sync/refresh.rs: how one record is fetched while others publish it.
pub mod Requests
pub mod Attempts
pub mod Counted
pub mod Changed
pub mod Consistent
use attached.Common.{
  ℕ, zero, suc, Bool, true, false, ltb, ◌==◌, if◌then◌else◌, List, [], ◌∷◌, Option, none, some,
  Bytes, bytes_eq, Result, ok, err,
}
use attached.Api.Envelope.{Envelope}
use attached.Api.Sequence.{LiveRecordIndexEntry}

-- Of crates/cli/src/sync/http.rs.
pub record FetchedRecord : Type 0 where
  pub envelope : Envelope
  pub revision : ℕ

-- `SyncHttpClient`, on a state of the world in which others publish too.
pub record Client (Failure : Type 0) : Type 1 where
  pub State : Type 0
  pub get_record : Bytes → State → State × Result Failure (Option FetchedRecord)
  pub list_records : State → State × Result Failure (List LiveRecordIndexEntry)

pub data FetchError (Failure : Type 0) : Type 0 where
  get_failed : Failure → FetchError Failure
  recheck_failed : Failure → FetchError Failure
  record_moved_backwards : FetchError Failure
  index_moved_backwards : FetchError Failure
  kept_changing : FetchError Failure

abbrev pub max_record_fetch_attempts : ℕ
max_record_fetch_attempts = 3

-- `find(|entry| entry.record_id == record_id)`
unfoldable pub find_entry : Bytes → List LiveRecordIndexEntry → Option LiveRecordIndexEntry
find_entry record_id [] = none
find_entry record_id (entry ∷ entries) =
    let rest = find_entry record_id entries in
    if bytes_eq entry.record_id record_id then some entry else rest

module _ {Failure : Type 0} (client : Client Failure) where
  open client use {State, get_record, list_records}

  abbrev pub Fetch : Type 0
  Fetch = State × Result (FetchError Failure) (Option FetchedRecord)

  -- `again` is the next attempt.
  abbrev pub Again : Type 0
  Again = LiveRecordIndexEntry → State → Fetch

  unfoldable pub recheck : Again → FetchedRecord → Option LiveRecordIndexEntry → State → Fetch
  recheck again fetched none s = (s, ok none)
  recheck again fetched (some current) s =
      if ltb current.revision fetched.revision
      then (s, err index_moved_backwards)
      else if current.revision == fetched.revision
      then (s, ok (some fetched))
      else again current s

  unfoldable pub with_index :
      Again
      → LiveRecordIndexEntry
      → FetchedRecord
      → State × Result Failure (List LiveRecordIndexEntry)
      → Fetch
  with_index again indexed fetched (s, err e) = (s, err (recheck_failed e))
  with_index again indexed fetched (s, ok records) =
      recheck again fetched (find_entry indexed.record_id records) s

  unfoldable pub with_fetched :
      Again → LiveRecordIndexEntry → State × Result Failure (Option FetchedRecord) → Fetch
  with_fetched again indexed (s, err e) = (s, err (get_failed e))
  with_fetched again indexed (s, ok none) = (s, ok none)
  with_fetched again indexed (s, ok (some fetched)) =
      if ltb fetched.revision indexed.revision
      then (s, err record_moved_backwards)
      else if fetched.revision == indexed.revision
      then (s, ok (some fetched))
      else with_index again indexed fetched (list_records s)

  -- The loop, on the number of attempts that are left.
  unfoldable pub fetch_attempts : ℕ → LiveRecordIndexEntry → State → Fetch
  fetch_attempts zero indexed s = (s, err kept_changing)
  fetch_attempts (suc n) indexed s =
      with_fetched (fetch_attempts n) indexed (get_record indexed.record_id s)

  unfoldable pub fetch_consistent_record : LiveRecordIndexEntry → State → Fetch
  fetch_consistent_record = fetch_attempts max_record_fetch_attempts

  -- `fetch_changed_records`, one after the other.
  unfoldable pub fetch_changed_records :
      List LiveRecordIndexEntry
      → State
      → State × List (LiveRecordIndexEntry × Result (FetchError Failure) (Option FetchedRecord))
  fetch_changed_records [] s = (s, [])
  fetch_changed_records (entry ∷ entries) s =
      let (s', fetched) = fetch_consistent_record entry s in
      let (s'', rest) = fetch_changed_records entries s' in (s'', (entry, fetched) ∷ rest)
