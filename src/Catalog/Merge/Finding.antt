-- ===== src/Catalog/Merge/Finding.antt =====
-- crates/cli/src/sync/state_catalog.rs: the record of an identifier in lists and maps of records.
use mathlib.Core.Path.{subst}
use attached.Common.{
  true, false, if◌then◌else◌, Bool-cases, inl, inr, List, [], ◌∷◌, ◌++◌, All, Option, none, some,
  Bytes, bytes_eq, bytes_eq_iff, ◌≡◌, refl, sym, ap, ◌∙◌, arith,
}
use attached.Api.Sequence.{is_less}
use attached.Maps.{
  get, insert, Sorted, get-insert, All-insert, Sorted-insert, get-before, less-differ, bytes_eq_sym,
}
use attached.Descriptor.Outside.{Outside}
use attached.Catalog.Model.{CatalogRecord}
use attached.Catalog.Validity.{Distinct}
use attached.Catalog.Merge.{
  Baseline, in_baseline, Held, collect_onto, into_values, unknown, insert_record, sort_records,
}

module _ {o : Outside} where
  -- The record of an identifier, the first if there are more.
  unfoldable pub find : Bytes → List (CatalogRecord o) → Option (CatalogRecord o)
  find id [] = none
  find id (r ∷ records) =
      let rest = find id records in if bytes_eq r.record_id id then some r else rest

  abbrev pub or_else :
      Option (CatalogRecord o) → Option (CatalogRecord o) → Option (CatalogRecord o)
  or_else (some r) other = some r
  or_else none other = other

  pub find-append :
      (id : Bytes) (xs ys : List (CatalogRecord o))
      → find id (xs ++ ys) ≡ or_else (find id xs) (find id ys)
  unfolding find
  find-append id [] ys = refl
  find-append id (r ∷ xs) ys = elim (Bool-cases (bytes_eq r.record_id id)) [
    | inl same ↦ rw same refl
    | inr other ↦ rw other (find-append id xs ys)
  ]

  pub find-insert_record :
      (id : Bytes) (r : CatalogRecord o) (records : List (CatalogRecord o))
      → find id (insert_record r records)
        ≡ (if bytes_eq r.record_id id then some r else find id records)
  unfolding find insert_record
  find-insert_record id r [] = refl
  find-insert_record id r (s ∷ records) = ground (
    arith,
    bytes_eq_iff r.record_id id,
    bytes_eq_iff s.record_id id,
    bytes_eq_iff s.record_id r.record_id,
    less-differ s.record_id r.record_id,
    find-insert_record id r records,
  )

  pub find-sort_records :
      (id : Bytes) (records : List (CatalogRecord o))
      → find id (sort_records records) ≡ find id records
  unfolding find sort_records
  find-sort_records id [] = refl
  find-sort_records id (r ∷ records) =
      find-insert_record id r (sort_records records)
      ∙ ap (λ x. if bytes_eq r.record_id id then some r else x) (find-sort_records id records)

  -- Every record stands under its identifier.
  abbrev pub Keyed : Held o → Type 0
  Keyed map = All (λ x. x.1.record_id ≡ x.0) map

  pub get-Keyed :
      (id : Bytes) (map : Held o) (r : CatalogRecord o)
      → Keyed map
      → get id map ≡ some r
      → r.record_id ≡ id
  unfolding get
  get-Keyed id [] r h e = cc
  get-Keyed id ((key, s) ∷ map) r (h, hs) e = elim (Bool-cases (bytes_eq key id)) [
    | inl same ↦
        let found : s ≡ r = ground arith in
        ap (λ (x : CatalogRecord o). x.record_id) (sym found) ∙ h ∙ (bytes_eq_iff key id).0 same
    | inr other ↦ get-Keyed id map r hs (ground arith)
  ]

  -- Distinct records are collected as they are found.
  pub get-collect_onto :
      (id : Bytes) (map : Held o) (records : List (CatalogRecord o))
      → Distinct records
      → get id (collect_onto map records) ≡ or_else (find id records) (get id map)
  unfolding find collect_onto
  get-collect_onto id map [] d = refl
  get-collect_onto id map (r ∷ records) (d, ds) =
      get-collect_onto id (insert r.record_id r map) records ds
      ∙ ap (or_else (find id records)) (get-insert r.record_id id r map)
      ∙ elim (Bool-cases (bytes_eq r.record_id id)) [
        | inl same ↦ rw (same, absent id r.record_id records ((bytes_eq_iff _ _).0 same) d) refl
        | inr other ↦ rw other refl
      ]
    where
      absent :
          (id key : Bytes) (records : List (CatalogRecord o))
          → key ≡ id
          → All (λ s. bytes_eq key s.record_id ≡ false) records
          → find id records ≡ none
      absent id key [] e h = refl
      absent id key (s ∷ records) e (h, hs) =
          let differs : bytes_eq s.record_id id ≡ false =
            bytes_eq_sym s.record_id id ∙ ap (λ k. bytes_eq k s.record_id) (sym e) ∙ h in
          rw differs (absent id key records e hs)

  pub Keyed-collect_onto :
      (map : Held o) (records : List (CatalogRecord o))
      → Keyed map
      → Keyed (collect_onto map records)
  unfolding collect_onto
  Keyed-collect_onto map [] h = h
  Keyed-collect_onto map (r ∷ records) h =
      Keyed-collect_onto (insert r.record_id r map) records
        (All-insert (λ x. x.1.record_id ≡ x.0) r.record_id r map refl h)

  pub Sorted-collect_onto :
      (map : Held o) (records : List (CatalogRecord o))
      → Sorted map
      → Sorted (collect_onto map records)
  unfolding collect_onto
  Sorted-collect_onto map [] h = h
  Sorted-collect_onto map (r ∷ records) h =
      Sorted-collect_onto (insert r.record_id r map) records (Sorted-insert r.record_id r map h)

  abbrev pub kept : Baseline → Option (CatalogRecord o) → Option (CatalogRecord o)
  kept baseline none = none
  kept baseline (some r) =
      if in_baseline r.record_id r.service_revision baseline then none else some r

  pub find-unknown :
      (id : Bytes) (baseline : Baseline) (map : Held o)
      → Sorted map
      → Keyed map
      → find id (unknown baseline (into_values map)) ≡ kept baseline (get id map)
  unfolding find unknown into_values get
  find-unknown id baseline [] s k = refl
  find-unknown id baseline ((key, r) ∷ map) (above, s) (k, ks) =
      let rest = find-unknown id baseline map s ks in
      elim (Bool-cases (bytes_eq key id)) [
        | inl same ↦
            let key_eq : key ≡ id = (bytes_eq_iff key id).0 same in
            let id_eq : bytes_eq r.record_id id ≡ true = (bytes_eq_iff _ _).1 (k ∙ key_eq) in
            let gone : find id (unknown baseline (into_values map)) ≡ none =
              rest
              ∙ ap (kept baseline) (
                  get-before id map
                    (subst (λ x. All (λ y. is_less x y.0 ≡ true) map) key_eq above)) in
            elim (Bool-cases (in_baseline r.record_id r.service_revision baseline)) [
              | inl known ↦ rw (same, known) gone
              | inr new ↦ rw (same, new, id_eq) refl
            ]
        | inr other ↦
            let id_neq : bytes_eq r.record_id id ≡ false = ap (λ x. bytes_eq x id) k ∙ other in
            elim (Bool-cases (in_baseline r.record_id r.service_revision baseline)) [
              | inl known ↦ rw (other, known) rest
              | inr new ↦ rw (other, new, id_neq) rest
            ]
      ]
