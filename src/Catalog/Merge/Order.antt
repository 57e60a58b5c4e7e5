-- ===== src/Catalog/Merge/Order.antt =====
-- crates/cli/src/sync/state_catalog.rs: the order of the records of a reconciled catalog, and what
-- it never does.
use mathlib.Core.Path.{subst}
use attached.Common.{
  ℕ, ◌+◌, ◌^◌, ◌≤◌, ◌<◌, Bool, true, false, not, ltb, ◌==◌, Bool-cases, inl, inr, List, [], ◌∷◌,
  All, Option, none, some, Bytes, bytes_eq, bytes_eq_iff, Result, ok, bind-eq-ok, ◌≡◌, refl, sym,
  ap, ◌∙◌, arith,
}
use attached.Api.Sequence.{is_less}
use attached.Api.Sequence.Ascending.{is_less_trans, is_less_irrefl}
use attached.Maps.{is_less_total, bytes_eq_sym}
use attached.Descriptor.Outside.{Outside}
use attached.Catalog.Model.{
  CatalogError, AccountCredentials, CatalogRecord, Catalog, empty, validate_catalog,
}
use attached.Catalog.Validity.{Distinct, IsCatalog, validate_catalog_iff}
use attached.Catalog.Merge.{
  Baseline, in_baseline, next_generation, insert_record, sort_records, reconcile, reconciled,
}
use attached.Catalog.Merge.Finding.{find}
use attached.Catalog.Merge.Pointwise.{outcome, find-reconcile}

less_asym : (x y : Bytes) → is_less x y ≡ true → is_less y x ≡ false
less_asym x y h = elim (Bool-cases (is_less y x)) [
  | inl k ↦ absurd (cc (is_less_trans x y x h k, is_less_irrefl x))
  | inr k ↦ k
]

-- The order "not smaller" is transitive.
not_less_trans : (x y z : Bytes) → is_less y x ≡ false → is_less z y ≡ false → is_less z x ≡ false
not_less_trans x y z h k = elim (Bool-cases (is_less z x)) [
  | inr n ↦ n
  | inl below ↦ elim (Bool-cases (bytes_eq y x)) [
    | inl same ↦ ap (is_less z) (sym ((bytes_eq_iff y x).0 same)) ∙ k
    | inr other ↦ absurd (cc (is_less_trans z x y below (is_less_total y x h other), k))
  ]
]

next_generation-eq-ok : (n g : ℕ) → next_generation n ≡ ok g → (g ≡ n + 1) × (g < 2 ^ 64)
unfolding next_generation
next_generation-eq-ok n g h = ground arith

module _ {o : Outside} where
  -- No record has a smaller identifier than one before it.
  abbrev Ordered : List (CatalogRecord o) → Type 0
  Ordered [] = Unit
  Ordered (r ∷ records) =
      All (λ s. is_less s.record_id r.record_id ≡ false) records × Ordered records

  -- Every record has a smaller identifier than all records behind it.
  abbrev pub Ascends : List (CatalogRecord o) → Type 0
  Ascends [] = Unit
  Ascends (r ∷ records) =
      All (λ s. is_less r.record_id s.record_id ≡ true) records × Ascends records

  All-insert_record :
      (P : CatalogRecord o → Type 0) (r : CatalogRecord o) (records : List (CatalogRecord o))
      → P r
      → All P records
      → All P (insert_record r records)
  unfolding insert_record
  All-insert_record P r [] p h = (p, tt)
  All-insert_record P r (s ∷ records) p (q, h) =
      elim (Bool-cases (is_less s.record_id r.record_id)) [
        | inl below ↦ rw below (q, All-insert_record P r records p h)
        | inr above ↦ rw above (p, (q, h))
      ]

  All-not_less :
      (x y : Bytes) (records : List (CatalogRecord o))
      → is_less y x ≡ false
      → All (λ s. is_less s.record_id y ≡ false) records
      → All (λ s. is_less s.record_id x ≡ false) records
  All-not_less x y [] h k = tt
  All-not_less x y (s ∷ records) h (k, ks) =
      (not_less_trans x y s.record_id h k, All-not_less x y records h ks)

  Ordered-insert_record :
      (r : CatalogRecord o) (records : List (CatalogRecord o))
      → Ordered records
      → Ordered (insert_record r records)
  unfolding insert_record
  Ordered-insert_record r [] h = (tt, tt)
  Ordered-insert_record r (s ∷ records) (h, hs) =
      elim (Bool-cases (is_less s.record_id r.record_id)) [
        | inl below ↦ rw below (
          All-insert_record (λ t. is_less t.record_id s.record_id ≡ false) r records
              (less_asym s.record_id r.record_id below) h,
          Ordered-insert_record r records hs,
        )
        | inr above ↦
            rw above ((above, All-not_less r.record_id s.record_id records above h), (h, hs))
      ]

  sort_records-Ordered : (records : List (CatalogRecord o)) → Ordered (sort_records records)
  unfolding sort_records
  sort_records-Ordered [] = tt
  sort_records-Ordered (r ∷ records) =
      Ordered-insert_record r (sort_records records) (sort_records-Ordered records)

  All-less :
      (id : Bytes) (records : List (CatalogRecord o))
      → All (λ s. is_less s.record_id id ≡ false) records
      → All (λ s. bytes_eq id s.record_id ≡ false) records
      → All (λ s. is_less id s.record_id ≡ true) records
  All-less id [] h k = tt
  All-less id (s ∷ records) (h, hs) (k, ks) =
      (is_less_total s.record_id id h (bytes_eq_sym s.record_id id ∙ k), All-less id records hs ks)

  Ordered-Ascends :
      (records : List (CatalogRecord o)) → Ordered records → Distinct records → Ascends records
  Ordered-Ascends [] h d = tt
  Ordered-Ascends (r ∷ records) (h, hs) (d, ds) =
      (All-less r.record_id records h d, Ordered-Ascends records hs ds)

  pub All-sort_records :
      (P : CatalogRecord o → Type 0) (records : List (CatalogRecord o))
      → All P records
      → All P (sort_records records)
  unfolding sort_records
  All-sort_records P [] h = tt
  All-sort_records P (r ∷ records) (p, h) =
      All-insert_record P r (sort_records records) p (All-sort_records P records h)

  reconcile-Ordered :
      (baseline : Baseline) (current refreshed : Catalog o)
      → Ordered (reconcile baseline current refreshed)
  unfolding reconcile
  reconcile-Ordered baseline current refreshed = sort_records-Ordered _

  -- A reconciled catalog
  pub record IsReconciled (account : AccountCredentials) (baseline : Baseline)
      (current refreshed next : Catalog o) : Type 0 where
    pub valid : IsCatalog next account
    pub ascends : Ascends next.records
    pub generation_eq : next.generation ≡ current.generation + 1
    pub generation_bound : next.generation < 2 ^ 64
    pub holds :
        (id : Bytes)
        → find id next.records
          ≡ outcome
              (not (current.generation == refreshed.generation))
              baseline
              (find id current.records)
              (find id refreshed.records)

  -- What `save_refresh` writes over a current catalog with distinct identifiers is a valid catalog in
  -- ascending order of the identifiers, its generation is the next one below 2^64, and for every
  -- identifier it holds what the current and the refreshed catalog say of it.
  pub reconciled_lem :
      (account : AccountCredentials) (baseline : Baseline) (current refreshed next : Catalog o)
      → Distinct current.records
      → reconciled account baseline current refreshed ≡ ok next
      → IsReconciled account baseline current refreshed next
  unfolding reconciled
  reconciled_lem account baseline current refreshed next d h =
      let (g, bound, h₁) = bind-eq-ok (next_generation current.generation) _ h in
      let catalog = record (empty o account) {
        generation = g;
        records = reconcile baseline current refreshed;
      } in
      let (_, checked, h₂) = bind-eq-ok (validate_catalog o catalog account) _ h₁ in
      let same : catalog ≡ next = ok-injective catalog next h₂ in
      let (g_eq, g_bound) = next_generation-eq-ok current.generation g bound in
      let valid = (validate_catalog_iff catalog account).0 checked in
      subst (IsReconciled account baseline current refreshed) same (record {
        valid = valid;
        ascends =
            Ordered-Ascends catalog.records (reconcile-Ordered baseline current refreshed)
              valid.distinct;
        generation_eq = g_eq;
        generation_bound = g_bound;
        holds = λ id. find-reconcile id baseline current refreshed d;
      })
    where
      ok-injective :
          (a b : Catalog o) → Path (Result CatalogError (Catalog o)) (ok a) (ok b) → a ≡ b
      ok-injective a b e = cc

  -- What became of a record of the current catalog: it has the same revision or a larger one, or the
  -- refresh started from this revision and no longer has the record.
  abbrev pub Advances :
      Baseline → CatalogRecord o → Option (CatalogRecord o) → Option (CatalogRecord o) → Type 0
  Advances baseline r refreshed (some s) = r.service_revision ≤ s.service_revision
  Advances baseline r refreshed none =
      (in_baseline r.record_id r.service_revision baseline ≡ true) × (refreshed ≡ none)

  outcome-Advances :
      (differs : Bool) (baseline : Baseline) (r : CatalogRecord o)
      (refreshed : Option (CatalogRecord o))
      → Advances baseline r refreshed (outcome differs baseline (some r) refreshed)
  outcome-Advances differs baseline r none =
      elim (Bool-cases (in_baseline r.record_id r.service_revision baseline)) [
        | inl known ↦ rw known (known, refl)
        | inr new ↦ rw new (omega arith)
      ]
  outcome-Advances differs baseline r (some c) =
      elim (Bool-cases (ltb c.service_revision r.service_revision)) [
        | inl older ↦ rw older (omega arith)
        | inr newer ↦ rw newer (not_below newer)
      ]
    where
      not_below :
          ltb c.service_revision r.service_revision ≡ false
          → r.service_revision ≤ c.service_revision
      not_below e = ground arith

  -- Saving a refresh over a current catalog with distinct identifiers never moves a record of it
  -- back, and drops none that the refresh did not start from or that it still has.
  pub refresh-Advances :
      (account : AccountCredentials) (baseline : Baseline) (current refreshed next : Catalog o)
      (id : Bytes) (r : CatalogRecord o)
      → Distinct current.records
      → reconciled account baseline current refreshed ≡ ok next
      → find id current.records ≡ some r
      → Advances baseline r (find id refreshed.records) (find id next.records)
  refresh-Advances account baseline current refreshed next id r d h e =
      let same = (reconciled_lem account baseline current refreshed next d h).holds id in
      let differs = not (current.generation == refreshed.generation) in
      subst (Advances baseline r (find id refreshed.records))
        (sym (same ∙ ap (λ x. outcome differs baseline x (find id refreshed.records)) e))
        (outcome-Advances differs baseline r (find id refreshed.records))

  outcome-gone :
      (baseline : Baseline) (x : Option (CatalogRecord o)) → outcome true baseline none x ≡ none
  outcome-gone baseline none = refl
  outcome-gone baseline (some c) = refl

  -- A refresh that is saved over a catalog of another generation than it started from brings back no
  -- record that is gone from that catalog.
  pub refresh_stays_gone :
      (account : AccountCredentials) (baseline : Baseline) (current refreshed next : Catalog o)
      (id : Bytes)
      → Distinct current.records
      → reconciled account baseline current refreshed ≡ ok next
      → (current.generation == refreshed.generation) ≡ false
      → find id current.records ≡ none
      → find id next.records ≡ none
  refresh_stays_gone account baseline current refreshed next id d h moved gone =
      let same = (reconciled_lem account baseline current refreshed next d h).holds id in
      let differs = not (current.generation == refreshed.generation) in
      same
      ∙ ap (λ x. outcome differs baseline x (find id refreshed.records)) gone
      ∙ ap (λ b. outcome (not b) baseline none (find id refreshed.records)) moved
      ∙ outcome-gone baseline (find id refreshed.records)
