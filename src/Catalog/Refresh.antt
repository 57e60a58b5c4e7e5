-- ===== src/Catalog/Refresh.antt =====
-- crates/cli/src/sync/refresh.rs: a refresh of the catalog against the record index.
pub mod Current
pub mod Sources
pub mod Origin
pub mod Attachment
mod Examples
use attached.Common.{
  ℕ, Bool, true, false, not, ltb, ◌==◌, if◌then◌else◌, List, [], ◌∷◌, ◌++◌, Option, none, some,
  Bytes, bytes_eq, Result, ok, err, ◌>>=◌, ◌>>◌, ensure,
}
use attached.Api.Envelope.{Envelope}
use attached.Api.Sequence.{LiveRecordIndexEntry}
use attached.Maps.{get, remove}
use attached.Descriptor.Outside.{Outside}
use attached.Descriptor.Cbor.{HostAccessError}
use attached.Descriptor.Model.{HostAccessDescriptor, endpoint_identity}
use attached.Sealing.{
  Envelope as CryptoEnvelope, Cipher, CheckedAdd, VerificationContext, envelope_of,
  open_host_access_descriptor,
}
use attached.Catalog.Model.{
  CatalogError, empty, AccountCredentials, CatalogRecord, Catalog, HostConnection, is_expired_at,
  from_opened, ssh_attachment,
}
use attached.Catalog.Merge.{Held, Baseline, collect_onto, sort_records}
use attached.Catalog.Fetch.{FetchedRecord, Client, FetchError, get_failed, fetch_changed_records}

-- Why a record is not in the refreshed catalog, with its identifier; the texts are left out.
pub data RefreshWarning : Type 0 where
  catalog_rebuilt : RefreshWarning
  record_discarded : Bytes → RefreshWarning
  record_unavailable : Bytes → RefreshWarning
  endpoint_registry_unavailable : RefreshWarning

unfoldable pub is_verbose_only : RefreshWarning → Bool
is_verbose_only catalog_rebuilt = false
is_verbose_only (record_discarded id) = true
is_verbose_only (record_unavailable id) = false
is_verbose_only endpoint_registry_unavailable = false

unfoldable pub mentions_registry : List RefreshWarning → Bool
mentions_registry [] = false
mentions_registry (endpoint_registry_unavailable ∷ warnings) = true
mentions_registry (catalog_rebuilt ∷ warnings) = mentions_registry warnings
mentions_registry (record_discarded id ∷ warnings) = mentions_registry warnings
mentions_registry (record_unavailable id ∷ warnings) = mentions_registry warnings

unfoldable pub push_registry_warning : List RefreshWarning → List RefreshWarning
push_registry_warning warnings =
    if mentions_registry warnings then warnings else warnings ++ endpoint_registry_unavailable ∷ []

-- The warnings of `finish_refresh`.
unfoldable pub finish_refresh : Bool → List RefreshWarning → List RefreshWarning
finish_refresh registry_unavailable warnings =
    if registry_unavailable then push_registry_warning warnings else warnings

unfoldable pub baseline_revisions : {o : Outside} → List (CatalogRecord o) → Baseline
baseline_revisions [] = []
baseline_revisions (r ∷ records) = (r.record_id, r.service_revision) ∷ baseline_revisions records

-- The catalog to start from; one that cannot be loaded is rebuilt.
unfoldable pub catalog_or_empty :
    {o : Outside}
    → AccountCredentials
    → Result CatalogError (Catalog o)
    → Catalog o × List RefreshWarning
catalog_or_empty account (ok catalog) = (catalog, [])
catalog_or_empty {o} account (err e) = (empty o account, catalog_rebuilt ∷ [])

-- What the loops of `refresh_unlocked_at` have put together.
pub record Progress (o : Outside) : Type 0 where
  pub accepted : List (CatalogRecord o)
  pub changed : List LiveRecordIndexEntry
  pub warnings : List RefreshWarning

module _ {o : Outside} (now : o.DateTime) where
  -- One entry of the index, with what was stored for it, in front of the later entries.
  unfoldable pub reuse : LiveRecordIndexEntry → Option (CatalogRecord o) → Progress o → Progress o
  reuse entry none rest = record rest { changed = entry ∷ rest.changed }
  reuse entry (some previous) rest =
      if previous.service_revision == entry.revision
      then if is_expired_at o previous now
        then record rest { warnings = record_discarded entry.record_id ∷ rest.warnings }
        else record rest { accepted = previous ∷ rest.accepted }
      else record rest { changed = entry ∷ rest.changed }

  -- The loop over the index.
  unfoldable pub partition : Held o → List LiveRecordIndexEntry → Progress o
  partition existing [] = record { accepted = []; changed = []; warnings = [] }
  partition existing (entry ∷ entries) =
      reuse entry (get entry.record_id existing)
        (partition (remove entry.record_id existing) entries)

-- A refresh fails whole on an envelope that is too long; `identity` is a panic of `expect`.
pub data RefreshError : Type 0 where
  envelope_invalid : RefreshError
  panicked : RefreshError

-- `with_context`
abbrev pub or_invalid {ℓ} : {A : Type ℓ} → Result HostAccessError A → Result RefreshError A
or_invalid (ok a) = ok a
or_invalid (err e) = err envelope_invalid

module _ {o : Outside} (cipher : Cipher) (checked_add : CheckedAdd o) (account : AccountCredentials)
    (now : o.DateTime) where
  abbrev pub context_of : Bytes → VerificationContext o
  context_of record_id = record {
    account_id = account.account_id;
    record_id = record_id;
    now = now;
  }

  unfoldable pub identified :
      Bytes → ℕ → HostAccessDescriptor o → Option Bytes → Result RefreshError (CatalogRecord o)
  identified record_id revision descriptor none = err panicked
  identified record_id revision descriptor (some identity) =
      ok (from_opened o record_id revision descriptor identity)

  -- A record with what opening its envelope gave, behind the earlier ones.
  unfoldable pub accept_opened :
      Bytes
      → ℕ
      → List (CatalogRecord o) × List RefreshWarning
      → Result HostAccessError (HostAccessDescriptor o)
      → Result RefreshError (List (CatalogRecord o) × List RefreshWarning)
  accept_opened record_id revision (accepted, warnings) (err e) =
      ok (accepted, warnings ++ record_discarded record_id ∷ [])
  accept_opened record_id revision (accepted, warnings) (ok descriptor) = do
    r ← identified record_id revision descriptor (endpoint_identity o descriptor)
    ok (accepted ++ r ∷ [], warnings)

  unfoldable pub open_fetched :
      Bytes → CryptoEnvelope → Result HostAccessError (HostAccessDescriptor o)
  open_fetched record_id envelope =
      open_host_access_descriptor o cipher checked_add envelope account.account_root_key
        (context_of record_id)

  unfoldable pub accept_fetched :
      {Failure : Type 0}
      → List (CatalogRecord o) × List RefreshWarning
      → LiveRecordIndexEntry
      → Result (FetchError Failure) (Option FetchedRecord)
      → Result RefreshError (List (CatalogRecord o) × List RefreshWarning)
  accept_fetched (accepted, warnings) entry (err e) =
      ok (accepted, warnings ++ record_unavailable entry.record_id ∷ [])
  accept_fetched (accepted, warnings) entry (ok none) =
      ok (accepted, warnings ++ record_unavailable entry.record_id ∷ [])
  accept_fetched before entry (ok (some fetched)) = do
    envelope ← or_invalid (envelope_of fetched.envelope.nonce fetched.envelope.ciphertext)
    accept_opened entry.record_id fetched.revision before (open_fetched entry.record_id envelope)

  module _ {Failure : Type 0} (client : Client Failure) where
    unfoldable pub accept_all :
        List (CatalogRecord o) × List RefreshWarning
        → List (LiveRecordIndexEntry × Result (FetchError Failure) (Option FetchedRecord))
        → Result RefreshError (List (CatalogRecord o) × List RefreshWarning)
    accept_all before [] = ok before
    accept_all before ((entry, fetched) ∷ rest) =
        accept_fetched before entry fetched >>= λ next. accept_all next rest

    -- The refreshed catalog of `refresh_unlocked_at`, from the catalog it starts from, the warnings so
    -- far and the index.
    unfoldable pub refresh_catalog :
        Catalog o
        → List RefreshWarning
        → List LiveRecordIndexEntry
        → client.State
        → Result RefreshError (Catalog o × List RefreshWarning)
    refresh_catalog catalog before entries s = do
      let progress = partition now (collect_onto [] catalog.records) entries
      (accepted, warnings) ←
          accept_all (progress.accepted, before ++ progress.warnings)
            (fetch_changed_records client progress.changed s).1
      ok (record catalog { records = sort_records accepted }, warnings)
