-- ===== src/Catalog/Examples.antt =====
-- The catalogs of crates/cli/src/sync/state_catalog.rs and the refresh of refresh.rs at concrete
-- records.
use attached.Common.{ℕ, true, List, [], ◌∷◌, none, some, Bytes, ok, ◌≡◌, ◌↔◌, refl, bytes_eq, ◌++◌}
use attached.Api.Sequence.{is_less}
use attached.Maps.{get, contains_key, insert, remove}
use attached.Descriptor.Small.{outside, eight}
use attached.Descriptor.Model.{validate_host_label, ticket_length_is_invalid, is_ascii}
use attached.Catalog.Model.{
  AccountCredentials, CatalogRecord, Catalog, HostConnection, empty, ssh_attachment, is_whole,
  is_publication, validate_catalog_record, contains, validate_records, validate_catalog, host,
}
use attached.Catalog.Validity.{IsCatalog, Distinct, validate_catalog_iff}
use attached.Catalog.Merge.{
  Baseline, in_baseline, next_generation, collect_onto, into_values, select, is_skipped, rest_of,
  push, merge, unknown, insert_record, sort_records, extended, reconcile, reconciled,
}
use attached.Catalog.Merge.Finding.{find}
use attached.Catalog.Merge.Order.{IsReconciled, Advances, reconciled_lem, refresh-Advances}
use attached.Catalog.Lookup.{IsOnly, host_iff}

abbrev pub id_of : ℕ → Bytes
id_of n = eight 0 ++ eight n

abbrev pub account : AccountCredentials
account = record {
  service_origin = b'h' ∷ [];
  account_id = eight 1 ++ eight 2;
  account_root_key = eight 6;
}

-- Every ticket belongs to the identity 7.
abbrev pub record_of : ℕ → ℕ → CatalogRecord outside
record_of n revision = record {
  record_id = id_of n;
  service_revision = revision;
  host_label = b'h' ∷ b'1' ∷ [];
  published_at = some 1000;
  expires_at = 1900;
  endpoint_ticket = b't' ∷ [];
  endpoint_identity = 7 ∷ [];
  attach_capability = eight 3;
  attached_version = record { major = 0; minor = 2; patch = 0 };
  ssh_enabled = true;
}

abbrev pub catalog_of : ℕ → List (CatalogRecord outside) → Catalog outside
catalog_of generation records = record {
  account_id = account.account_id;
  service_origin = account.service_origin;
  generation = generation;
  records = records;
}

validate_catalog_iff_example :
    (validate_catalog outside (catalog_of 4 (record_of 1 1 ∷ record_of 2 5 ∷ [])) account ≡ ok tt)
    ↔ IsCatalog (catalog_of 4 (record_of 1 1 ∷ record_of 2 5 ∷ [])) account
validate_catalog_iff_example =
    validate_catalog_iff (catalog_of 4 (record_of 1 1 ∷ record_of 2 5 ∷ [])) account

-- The refresh started from generation 4 with the records 1 and 2; meanwhile 1 was published anew,
-- 2 was removed and 3 was added.
abbrev baseline : Baseline
baseline = (id_of 1, 1) ∷ (id_of 2, 5) ∷ []

abbrev current : Catalog outside
current = catalog_of 5 (record_of 1 7 ∷ record_of 3 1 ∷ [])

abbrev refreshed : Catalog outside
refreshed = catalog_of 4 (record_of 1 2 ∷ record_of 2 5 ∷ [])

abbrev next : Catalog outside
next = catalog_of 6 (record_of 1 7 ∷ record_of 3 1 ∷ [])

distinct : Distinct current.records
unfolding bytes_eq
distinct = ((refl, tt), (tt, tt))

saved : reconciled account baseline current refreshed ≡ ok next
unfolding reconciled next_generation reconcile merge is_skipped contains_key get rest_of remove
    collect_onto insert select push extended unknown into_values in_baseline sort_records
    insert_record validate_catalog validate_records validate_catalog_record contains is_whole
    is_publication validate_host_label ticket_length_is_invalid is_ascii empty bytes_eq is_less
saved = refl

reconciled_lem_example : IsReconciled account baseline current refreshed next
reconciled_lem_example = reconciled_lem account baseline current refreshed next distinct saved

found_first : find (id_of 1) current.records ≡ some (record_of 1 7)
unfolding find bytes_eq
found_first = refl

refresh-Advances_example :
    Advances baseline
      (record_of 1 7)
      (find (id_of 1) refreshed.records)
      (find (id_of 1) next.records)
refresh-Advances_example =
    refresh-Advances account baseline current refreshed next (id_of 1) (record_of 1 7) distinct
      saved found_first

gone_second : find (id_of 2) current.records ≡ none
unfolding find bytes_eq
gone_second = refl

-- The label of a second publisher spells nothing here; the target spells the identity 7.
abbrev target : Bytes
target = 7 ∷ []

abbrev connection : HostConnection outside
unfolding ssh_attachment
connection = ssh_attachment outside (record_of 1 7)

host_iff_example :
    (host outside (some target) (catalog_of 4 (record_of 1 7 ∷ [])) target 1500 ≡ ok connection) ↔ (
      (r : CatalogRecord outside) × IsOnly (some target) target 1500 r (record_of 1 7 ∷ [])
      × (ssh_attachment outside r ≡ connection))
host_iff_example = host_iff (some target) (catalog_of 4 (record_of 1 7 ∷ [])) target 1500 connection
