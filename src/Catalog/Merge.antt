-- ===== src/Catalog/Merge.antt =====
-- crates/cli/src/sync/state_catalog.rs: how `save_refresh` reconciles a refresh with the catalog that
-- is stored.
pub mod Finding
pub mod Loop
pub mod Pointwise
pub mod Order
use attached.Common.{
  ℕ, ◌+◌, ◌^◌, Bool, true, false, not, ◌&&◌, ◌||◌, ltb, ◌==◌, if◌then◌else◌, List, [], ◌∷◌, ◌++◌,
  Option, none, some, Bytes, bytes_eq, Result, ok, err, ◌>>=◌, ◌>>◌,
}
use attached.Api.Sequence.{is_less}
use attached.Maps.{get, contains_key, insert, remove}
use attached.Descriptor.Outside.{Outside}
use attached.Catalog.Model.{
  CatalogError, generation_exhausted, AccountCredentials, CatalogRecord, Catalog, empty,
  validate_catalog,
}

-- `baseline_revisions`
abbrev pub Baseline : Type 0
Baseline = List (Bytes × ℕ)

unfoldable pub in_baseline : Bytes → ℕ → Baseline → Bool
in_baseline id revision [] = false
in_baseline id revision ((i, n) ∷ baseline) =
    bytes_eq i id && n == revision || in_baseline id revision baseline

-- `checked_add(1)` of a `u64`
unfoldable pub next_generation : ℕ → Result CatalogError ℕ
next_generation n = if ltb (n + 1) (2 ^ 64) then ok (n + 1) else err generation_exhausted

-- `current_records`
abbrev pub Held : Outside → Type 0
Held o = List (Bytes × CatalogRecord o)

module _ {o : Outside} where
  unfoldable pub collect_onto : Held o → List (CatalogRecord o) → Held o
  collect_onto map [] = map
  collect_onto map (r ∷ records) = collect_onto (insert r.record_id r map) records

  unfoldable pub into_values : Held o → List (CatalogRecord o)
  into_values [] = []
  into_values ((key, r) ∷ map) = r ∷ into_values map

  unfoldable pub select : Option (CatalogRecord o) → CatalogRecord o → CatalogRecord o
  select none candidate = candidate
  select (some current) candidate =
      if ltb candidate.service_revision current.service_revision then current else candidate

  -- Whether a candidate is skipped; `differs` says whether the generations differ.
  unfoldable pub is_skipped : Bool → Held o → CatalogRecord o → Bool
  is_skipped differs map candidate = differs && not (contains_key candidate.record_id map)

  unfoldable pub rest_of : Bool → Held o → CatalogRecord o → Held o
  rest_of skipped map candidate = if skipped then map else remove candidate.record_id map

  -- What the candidate pushes in front of what the later ones push.
  unfoldable pub push :
      Bool → CatalogRecord o → List (CatalogRecord o) × Held o → List (CatalogRecord o) × Held o
  push skipped selected (records, left) =
      if skipped then (records, left) else (selected ∷ records, left)

  -- The loop over the candidates: the records that it selects, and those that are left.
  unfoldable pub merge : Bool → Held o → List (CatalogRecord o) → List (CatalogRecord o) × Held o
  merge differs map [] = ([], map)
  merge differs map (candidate ∷ candidates) =
      push (is_skipped differs map candidate) (select (get candidate.record_id map) candidate)
        (merge differs (rest_of (is_skipped differs map candidate) map candidate) candidates)

  -- The records that the refresh did not know.
  unfoldable pub unknown : Baseline → List (CatalogRecord o) → List (CatalogRecord o)
  unknown baseline [] = []
  unknown baseline (r ∷ records) =
      let rest = unknown baseline records in
      if in_baseline r.record_id r.service_revision baseline then rest else r ∷ rest

  -- `sort_by_key`, a stable sort: behind the records with a smaller identifier.
  unfoldable pub insert_record : CatalogRecord o → List (CatalogRecord o) → List (CatalogRecord o)
  insert_record r [] = r ∷ []
  insert_record r (s ∷ records) =
      let rest = insert_record r records in
      if is_less s.record_id r.record_id then s ∷ rest else r ∷ s ∷ records

  unfoldable pub sort_records : List (CatalogRecord o) → List (CatalogRecord o)
  sort_records [] = []
  sort_records (r ∷ records) = insert_record r (sort_records records)

  unfoldable pub extended : Baseline → List (CatalogRecord o) × Held o → List (CatalogRecord o)
  extended baseline (records, left) = records ++ unknown baseline (into_values left)

  unfoldable pub reconcile : Baseline → Catalog o → Catalog o → List (CatalogRecord o)
  reconcile baseline current refreshed = sort_records (
      extended baseline (
        merge (not (current.generation == refreshed.generation)) (collect_onto [] current.records)
          refreshed.records))

  -- What `save_refresh` writes over the current catalog.
  unfoldable pub reconciled :
      AccountCredentials → Baseline → Catalog o → Catalog o → Result CatalogError (Catalog o)
  reconciled account baseline current refreshed = do
    generation ← next_generation current.generation
    let catalog = record (empty o account) {
      generation = generation;
      records = reconcile baseline current refreshed;
    }
    validate_catalog o catalog account
    ok catalog
