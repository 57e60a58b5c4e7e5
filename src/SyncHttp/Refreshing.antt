-- ===== src/SyncHttp/Refreshing.antt =====
-- crates/cli/src/sync/refresh.rs over crates/cli/src/sync/http.rs: the HTTP client that a refresh
-- fetches its records with.
use attached.Common.{ℕ, List, some, Bytes, Result, ok, err, ◌≡◌}
use attached.Api.Sequence.{LiveRecordIndexEntry, LiveRecordIndex}
use attached.Catalog.Fetch.{FetchedRecord, Client}
use attached.Catalog.Fetch.Requests.{Calls}
use attached.SyncHttp.{HttpError, HttpRequest, HttpResponse, Credentials, Web}
use attached.SyncHttp.Calls.{get_request, get_record, list_records}
use attached.SyncHttp.Fetched.{IsFetched}

-- The records of an index
abbrev pub entries_of :
    Result HttpError LiveRecordIndex → Result HttpError (List LiveRecordIndexEntry)
entries_of (ok index) = ok index.records
entries_of (err e) = err e

module _ (web : Web) (account : Credentials) where
  abbrev pub http_client : Client HttpError
  http_client = record {
    State = web.W;
    get_record = get_record web account;
    list_records = λ w. let (w', index) = list_records web account w in (w', entries_of index);
  }

  -- An answer that was sent to the GET of an identifier, and from which the record was read.
  pub record WasRead (w : web.W) (id : Bytes) (f : FetchedRecord) : Type 0 where
    pub calls : ℕ
    pub before : web.W
    pub reached : Calls http_client w calls before
    pub request : HttpRequest
    pub requests : get_request web account id ≡ ok request
    pub response : HttpResponse
    pub sent : (web.send request before).1 ≡ some response
    pub fetched : IsFetched web response f
