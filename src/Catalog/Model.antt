-- ===== src/Catalog/Model.antt =====
-- crates/cli/src/sync/state_catalog.rs: catalogs, their validation and what is read from them.
use attached.Common.{
  ℕ, Bool, true, false, not, ◌&&◌, ◌||◌, leb, ltb, ◌==◌, if◌then◌else◌, List, [], ◌∷◌, length,
  Option, none, some, Bytes, bytes_eq, Result, ok, err, ◌>>=◌, ◌>>◌, ensure,
}
use attached.Api.Sequence.{max_live_records, is_less}
use attached.Descriptor.Outside.{Outside}
use attached.Descriptor.Model.{
  DescriptorVersion, HostAccessDescriptor, validate_host_label, is_negative, ok_or,
  ticket_length_is_invalid,
}

-- The messages of the errors.
pub data CatalogError : Type 0 where
  account_mismatch : CatalogError
  service_mismatch : CatalogError
  too_many_records : CatalogError
  duplicate_record : CatalogError
  invalid_revision : CatalogError
  invalid_label : CatalogError
  invalid_expiration : CatalogError
  invalid_publication_time : CatalogError
  invalid_endpoint : CatalogError
  publisher_not_found : CatalogError
  ambiguous_label : CatalogError
  generation_exhausted : CatalogError
  invalid_catalog : CatalogError
  exceeds_limit : CatalogError
  concurrently_installed : CatalogError
  state_unavailable : CatalogError

-- Of crates/cli/src/sync/state.rs, the fields that a catalog is bound to.
pub record AccountCredentials : Type 0 where
  pub service_origin : Bytes
  pub account_id : Bytes
  pub account_root_key : Bytes

-- Whether an identifier is among those of the records that the loop has passed.
unfoldable pub contains : Bytes → List Bytes → Bool
contains id [] = false
contains id (x ∷ xs) = bytes_eq x id || contains id xs

module _ (o : Outside) where
  open o use {
    DateTime, timestamp, timestamp_subsec_nanos, is_ge, ticket_from_str, ticket_to_string,
    ticket_id,
  }

  pub record CatalogRecord : Type 0 where
    pub record_id : Bytes
    pub service_revision : ℕ
    pub host_label : Bytes
    pub published_at : Option DateTime
    pub expires_at : DateTime
    pub endpoint_ticket : Bytes
    pub endpoint_identity : Bytes
    pub attach_capability : Bytes
    pub attached_version : DescriptorVersion
    pub ssh_enabled : Bool

  pub record Catalog : Type 0 where
    pub account_id : Bytes
    pub service_origin : Bytes
    pub generation : ℕ
    pub records : List CatalogRecord

  pub record HostConnection : Type 0 where
    pub record_id : Bytes
    pub service_revision : ℕ
    pub endpoint_ticket : Bytes
    pub endpoint_identity : Bytes
    pub attach_capability : Bytes
    pub attached_version : DescriptorVersion
    pub expires_at : DateTime
    pub ssh_enabled : Bool

  pub record SyncedHost : Type 0 where
    pub target : Bytes
    pub host : Bytes
    pub attached_version : DescriptorVersion
    pub published_at : Option DateTime

  unfoldable pub empty : AccountCredentials → Catalog
  empty account = record {
    account_id = account.account_id;
    service_origin = account.service_origin;
    generation = 0;
    records = [];
  }

  unfoldable pub is_expired_at : CatalogRecord → DateTime → Bool
  is_expired_at r now = is_ge now r.expires_at

  unfoldable pub ssh_attachment : CatalogRecord → HostConnection
  ssh_attachment r = record {
    record_id = r.record_id;
    service_revision = r.service_revision;
    endpoint_ticket = r.endpoint_ticket;
    endpoint_identity = r.endpoint_identity;
    attach_capability = r.attach_capability;
    attached_version = r.attached_version;
    expires_at = r.expires_at;
    ssh_enabled = r.ssh_enabled;
  }

  -- The identity is what `opened.descriptor().endpoint_identity()` gives.
  unfoldable pub from_opened : Bytes → ℕ → HostAccessDescriptor o → Bytes → CatalogRecord
  from_opened record_id service_revision descriptor identity = record {
    record_id = record_id;
    service_revision = service_revision;
    host_label = descriptor.host_label;
    published_at = some descriptor.issued_at;
    expires_at = descriptor.expires_at;
    endpoint_ticket = descriptor.endpoint_ticket;
    endpoint_identity = identity;
    attach_capability = descriptor.attach_capability;
    attached_version = descriptor.attached_version;
    ssh_enabled = descriptor.ssh_enabled;
  }

  unfoldable pub is_whole : DateTime → Bool
  is_whole t = not (is_negative (timestamp t)) && timestamp_subsec_nanos t == 0

  unfoldable pub is_publication : DateTime → Option DateTime → Bool
  is_publication expires_at none = true
  is_publication expires_at (some published_at) =
      is_whole published_at && is_ge expires_at published_at

  -- One round of the loop of `validate`, behind its test for a duplicate.
  unfoldable pub validate_catalog_record : CatalogRecord → Result CatalogError (Unit {0})
  validate_catalog_record r = do
    ensure (ltb 0 r.service_revision) invalid_revision
    ensure (validate_host_label r.host_label) invalid_label
    ensure (is_whole r.expires_at) invalid_expiration
    ensure (is_publication r.expires_at r.published_at) invalid_publication_time
    ensure (not (ticket_length_is_invalid r.endpoint_ticket)) invalid_endpoint
    ticket ← ok_or (ticket_from_str r.endpoint_ticket) invalid_endpoint
    ensure
        (bytes_eq (ticket_to_string ticket) r.endpoint_ticket
          && bytes_eq (ticket_id ticket) r.endpoint_identity)
        invalid_endpoint

  unfoldable pub validate_records : List Bytes → List CatalogRecord → Result CatalogError (Unit {0})
  validate_records record_ids [] = ok tt
  validate_records record_ids (r ∷ records) = do
    let rest = validate_records (r.record_id ∷ record_ids) records
    ensure (not (contains r.record_id record_ids)) duplicate_record
    validate_catalog_record r
    rest

  -- `validate` of state_catalog.rs
  unfoldable pub validate_catalog : Catalog → AccountCredentials → Result CatalogError (Unit {0})
  validate_catalog catalog account = do
    ensure (bytes_eq catalog.account_id account.account_id) account_mismatch
    ensure (bytes_eq catalog.service_origin account.service_origin) service_mismatch
    ensure (leb (length catalog.records) max_live_records) too_many_records
    validate_records [] catalog.records

  -- The filter of `host`: an identity that the target spells, or else a label.
  unfoldable pub names : Option Bytes → Bytes → CatalogRecord → Bool
  names (some identity) target r = bytes_eq r.endpoint_identity identity
  names none target r = bytes_eq r.host_label target

  unfoldable pub matches : Option Bytes → Bytes → DateTime → List CatalogRecord → List CatalogRecord
  matches identity target now [] = []
  matches identity target now (r ∷ records) =
      let rest = matches identity target now records in
      if not (is_expired_at r now) && names identity target r then r ∷ rest else rest

  -- The only match
  unfoldable pub only : List CatalogRecord → Result CatalogError HostConnection
  only [] = err publisher_not_found
  only (r ∷ []) = ok (ssh_attachment r)
  only (r ∷ s ∷ records) = err ambiguous_label

  -- `host` of the catalog that `load` gives, with what `target.parse::<EndpointId>()` makes of the
  -- target.
  unfoldable pub host :
      Option Bytes → Catalog → Bytes → DateTime → Result CatalogError HostConnection
  host identity catalog target now = only (matches identity target now catalog.records)

  module _ (print_endpoint : Bytes → Bytes) where
    -- `EndpointId::from_bytes(…).to_string()`
    unfoldable pub synced_host : CatalogRecord → SyncedHost
    synced_host r = record {
      target = print_endpoint r.endpoint_identity;
      host = r.host_label;
      attached_version = r.attached_version;
      published_at = r.published_at;
    }

    -- `left.host.cmp(&right.host).then(left.target.cmp(&right.target))` is `Less`.
    unfoldable pub host_before : SyncedHost → SyncedHost → Bool
    host_before left right =
        is_less left.host right.host
        || (bytes_eq left.host right.host && is_less left.target right.target)

    -- A stable sort: behind those that are smaller.
    unfoldable pub insert_host : SyncedHost → List SyncedHost → List SyncedHost
    insert_host h [] = h ∷ []
    insert_host h (x ∷ hosts) =
        let rest = insert_host h hosts in if host_before x h then x ∷ rest else h ∷ x ∷ hosts

    unfoldable pub sort_hosts : List SyncedHost → List SyncedHost
    sort_hosts [] = []
    sort_hosts (h ∷ hosts) = insert_host h (sort_hosts hosts)

    unfoldable pub is_listed : DateTime → (CatalogRecord → Bool) → CatalogRecord → Bool
    is_listed now suppress r = r.ssh_enabled && not (is_ge now r.expires_at) && not (suppress r)

    unfoldable pub listed : DateTime → (CatalogRecord → Bool) → List CatalogRecord → List SyncedHost
    listed now suppress [] = []
    listed now suppress (r ∷ records) =
        let rest = listed now suppress records in
        if is_listed now suppress r then synced_host r ∷ rest else rest

    unfoldable pub hosts_with_filter : Catalog → DateTime → (CatalogRecord → Bool) → List SyncedHost
    hosts_with_filter catalog now suppress = sort_hosts (listed now suppress catalog.records)

    unfoldable pub all_ssh_hosts : Catalog → DateTime → List SyncedHost
    all_ssh_hosts catalog now = hosts_with_filter catalog now (λ _. false)
