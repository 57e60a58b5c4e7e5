-- ===== src/Catalog/Merge/Pointwise.antt =====
-- crates/cli/src/sync/state_catalog.rs: which record a reconciled catalog has for an identifier.

use attached.Common.{
  Bool, true, false, not, ltb, ◌==◌, if◌then◌else◌, List, [], Option, none, some, Bytes, ◌≡◌, refl,
  ap, ◌∙◌,
}
use attached.Maps.{get}
use attached.Descriptor.Outside.{Outside}
use attached.Catalog.Model.{CatalogRecord, Catalog}
use attached.Catalog.Validity.{Distinct}
use attached.Catalog.Merge.{
  Baseline, in_baseline, Held, collect_onto, into_values, select, unknown, extended, reconcile,
}
use attached.Catalog.Merge.Finding.{
  find, or_else, kept, find-append, find-sort_records, find-unknown, get-collect_onto,
  Keyed-collect_onto, Sorted-collect_onto,
}
use attached.Catalog.Merge.Loop.{chosen, left_of, IsMerged, merge-IsMerged}

module _ {o : Outside} where
  -- The record that a reconciled catalog has for an identifier: of the current record and the
  -- refreshed one the refreshed, unless the current one has a larger revision; a refreshed one alone, if no
  -- newer refresh has been stored; a current one alone, unless the refresh started from it.
  abbrev pub outcome :
      Bool
      → Baseline
      → Option (CatalogRecord o)
      → Option (CatalogRecord o)
      → Option (CatalogRecord o)
  outcome differs baseline none none = none
  outcome differs baseline none (some c) = if differs then none else some c
  outcome differs baseline (some r) none =
      if in_baseline r.record_id r.service_revision baseline then none else some r
  outcome differs baseline (some r) (some c) =
      some (if ltb c.service_revision r.service_revision then r else c)

  chosen-kept :
      (differs : Bool) (baseline : Baseline) (current refreshed : Option (CatalogRecord o))
      → or_else (chosen differs current refreshed) (kept baseline (left_of current refreshed))
        ≡ outcome differs baseline current refreshed
  unfolding select
  chosen-kept differs baseline none none = refl
  chosen-kept true baseline none (some c) = refl
  chosen-kept false baseline none (some c) = refl
  chosen-kept differs baseline (some r) none = refl
  chosen-kept differs baseline (some r) (some c) = refl

  find-extended :
      (id : Bytes) (baseline : Baseline) (differs : Bool) (map : Held o)
      (candidates : List (CatalogRecord o)) (merged : List (CatalogRecord o) × Held o)
      → IsMerged differs id map candidates merged
      → find id (extended baseline merged)
        ≡ or_else
            (chosen differs (get id map) (find id candidates))
            (kept baseline (left_of (get id map) (find id candidates)))
  unfolding extended
  find-extended id baseline differs map candidates (records, left) m =
      find-append id records (unknown baseline (into_values left))
      ∙ ap (λ x. or_else x (find id (unknown baseline (into_values left)))) m.selected
      ∙ ap (or_else (chosen differs (get id map) (find id candidates)))
          (find-unknown id baseline left m.sorted m.keyed ∙ ap (kept baseline) m.leaves)

  -- For every identifier, the records that `save_refresh` reconciles from a current catalog with
  -- distinct identifiers and a refreshed one hold what the two say of the identifier.
  pub find-reconcile :
      (id : Bytes) (baseline : Baseline) (current refreshed : Catalog o)
      → Distinct current.records
      → find id (reconcile baseline current refreshed)
        ≡ outcome
            (not (current.generation == refreshed.generation))
            baseline
            (find id current.records)
            (find id refreshed.records)
  unfolding reconcile get
  find-reconcile id baseline current refreshed d =
      let differs = not (current.generation == refreshed.generation) in
      let map : Held o = collect_onto [] current.records in
      let held : get id map ≡ find id current.records =
        get-collect_onto id [] current.records d ∙ or_else-none (find id current.records) in
      let merged =
        merge-IsMerged differs id map refreshed.records
          (Sorted-collect_onto [] current.records tt, Keyed-collect_onto [] current.records tt) in
      find-sort_records id _
      ∙ find-extended id baseline differs map refreshed.records _ merged
      ∙ chosen-kept differs baseline (get id map) (find id refreshed.records)
      ∙ ap (λ x. outcome differs baseline x (find id refreshed.records)) held
    where
      or_else-none : (x : Option (CatalogRecord o)) → or_else x none ≡ x
      or_else-none none = refl
      or_else-none (some r) = refl
