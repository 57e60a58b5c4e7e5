-- ===== src/Catalog/Merge/Loop.antt =====
-- crates/cli/src/sync/state_catalog.rs: what the loop of `save_refresh` over the candidates selects and
-- leaves.
use mathlib.Core.Path.{subst}
use attached.Common.{
  Bool, true, false, not, ◌&&◌, ltb, if◌then◌else◌, Bool-cases, inl, inr, List, [], ◌∷◌, Option,
  none, some, Bytes, bytes_eq, bytes_eq_iff, ◌≡◌, refl, sym, ap, ◌∙◌,
}
use attached.Maps.{get, is_some, contains_key, Sorted, get-remove, All-remove, Sorted-remove}
use attached.Descriptor.Outside.{Outside}
use attached.Catalog.Model.{CatalogRecord}
use attached.Catalog.Merge.{Held, select, is_skipped, rest_of, push, merge}
use attached.Catalog.Merge.Finding.{find, Keyed, get-Keyed}

module _ {o : Outside} where
  -- What the loop selects of the current record and the candidate of an identifier.
  abbrev pub chosen :
      Bool → Option (CatalogRecord o) → Option (CatalogRecord o) → Option (CatalogRecord o)
  chosen differs current none = none
  chosen differs none (some candidate) = if differs then none else some candidate
  chosen differs (some current) (some candidate) = some (select (some current) candidate)

  -- What it leaves.
  abbrev pub left_of :
      Option (CatalogRecord o) → Option (CatalogRecord o) → Option (CatalogRecord o)
  left_of current none = current
  left_of current (some candidate) = none

  select-id :
      (map : Held o) (c : CatalogRecord o)
      → Keyed map
      → (select (get c.record_id map) c).record_id ≡ c.record_id
  unfolding select
  select-id map c k = by_current (get c.record_id map) refl
    where
      by_current :
          (current : Option (CatalogRecord o))
          → get c.record_id map ≡ current
          → (select current c).record_id ≡ c.record_id
      by_current none e = refl
      by_current (some r) e = elim (Bool-cases (ltb c.service_revision r.service_revision)) [
        | inl newer ↦ rw newer (get-Keyed c.record_id map r k e)
        | inr older ↦ rw older refl
      ]

  pub record IsMerged (differs : Bool) (id : Bytes) (map : Held o)
      (candidates : List (CatalogRecord o)) (merged : List (CatalogRecord o) × Held o)
      : Type 0 where
    pub selected : find id merged.0 ≡ chosen differs (get id map) (find id candidates)
    pub leaves : get id merged.1 ≡ left_of (get id map) (find id candidates)
    pub sorted : Sorted merged.1
    pub keyed : Keyed merged.1

  rest_of-Keyed :
      (skipped : Bool) (map : Held o) (c : CatalogRecord o)
      → Sorted map × Keyed map
      → Sorted (rest_of skipped map c) × Keyed (rest_of skipped map c)
  unfolding rest_of
  rest_of-Keyed true map c h = h
  rest_of-Keyed false map c h =
      (Sorted-remove c.record_id map h.0, All-remove (λ x. x.1.record_id ≡ x.0) c.record_id map h.1)

  pub get-rest_of :
      (skipped : Bool) (id : Bytes) (map : Held o) (c : CatalogRecord o)
      → get id (rest_of skipped map c)
        ≡ (if skipped then get id map else if bytes_eq c.record_id id then none else get id map)
  unfolding rest_of
  get-rest_of true id map c = refl
  get-rest_of false id map c = get-remove c.record_id id map

  push-left :
      (skipped : Bool) (x : CatalogRecord o) (merged : List (CatalogRecord o) × Held o)
      → (push skipped x merged).1 ≡ merged.1
  unfolding push
  push-left true x (records, left) = refl
  push-left false x (records, left) = refl

  pub find-push_other :
      (skipped : Bool) (id : Bytes) (x : CatalogRecord o) (merged : List (CatalogRecord o) × Held o)
      → bytes_eq x.record_id id ≡ false
      → find id (push skipped x merged).0 ≡ find id merged.0
  unfolding push find
  find-push_other true id x (records, left) other = refl
  find-push_other false id x (records, left) other = rw other refl

  pub find-push_same :
      (id : Bytes) (x : CatalogRecord o) (merged : List (CatalogRecord o) × Held o)
      → bytes_eq x.record_id id ≡ true
      → find id (push false x merged).0 ≡ some x
  unfolding push find
  find-push_same id x (records, left) same = rw same refl

  chosen-none : (next : Option (CatalogRecord o)) → chosen true none next ≡ none
  chosen-none none = refl
  chosen-none (some c) = refl

  left_of-none : (next : Option (CatalogRecord o)) → left_of none next ≡ none
  left_of-none none = refl
  left_of-none (some c) = refl

  abbrev pub skips : Bool → Option (CatalogRecord o) → Bool
  skips differs current = differs && not (is_some current)

  is_skipped-eq :
      (differs : Bool) (map : Held o) (c : CatalogRecord o) (current : Option (CatalogRecord o))
      → get c.record_id map ≡ current
      → is_skipped differs map c ≡ skips differs current
  unfolding is_skipped contains_key
  is_skipped-eq differs map c current e = ap (skips differs) e

  -- The candidate of the identifier, by what is held and whether the generations differ.
  same_step :
      (differs : Bool) (current next : Option (CatalogRecord o)) (id : Bytes) (c : CatalogRecord o)
      (merged : List (CatalogRecord o) × Held o)
      → bytes_eq (select current c).record_id id ≡ true
      → find id merged.0 ≡ chosen differs none next
      → find id (push (skips differs current) (select current c) merged).0
        ≡ chosen differs current (some c)
  unfolding push select
  same_step true none next id c merged s h = h ∙ chosen-none next
  same_step false none next id c merged s h = find-push_same id c merged s
  same_step true (some r) next id c merged s h = find-push_same id (select (some r) c) merged s
  same_step false (some r) next id c merged s h = find-push_same id (select (some r) c) merged s

  module _ (differs : Bool) (id : Bytes) (map : Held o) (c : CatalogRecord o)
      (candidates : List (CatalogRecord o)) (merged : List (CatalogRecord o) × Held o)
      (keyed : Keyed map)
      (after : IsMerged differs id
        (rest_of (is_skipped differs map c) map c)
        candidates
        merged) where
    abbrev skipped : Bool
    skipped = is_skipped differs map c

    -- The record of the identifier is held no more.
    get-rest : bytes_eq c.record_id id ≡ true → get id (rest_of skipped map c) ≡ none
    get-rest same =
        get-rest_of skipped id map c
        ∙ ap (λ b. if b then get id map else if bytes_eq c.record_id id then none else get id map)
            (is_skipped-eq differs map c (get c.record_id map) refl)
        ∙ by_current differs (get c.record_id map)
            (ap (λ k. get k map) (sym ((bytes_eq_iff c.record_id id).0 same)))
      where
        by_current :
            (b : Bool) (current : Option (CatalogRecord o))
            → get id map ≡ current
            → (if skips b current
                then get id map
                else if bytes_eq c.record_id id
                then none
                else get id map)
              ≡ none
        by_current true none e = e
        by_current false none e = rw same refl
        by_current true (some r) e = rw same refl
        by_current false (some r) e = rw same refl

    step_same_id :
        bytes_eq c.record_id id ≡ true
        → IsMerged differs id map
            (c ∷ candidates)
            (push skipped (select (get c.record_id map) c) merged)
    unfolding find
    step_same_id same =
        let current = get c.record_id map in
        let id_eq = (bytes_eq_iff c.record_id id).0 same in
        let current_eq : current ≡ get id map = ap (λ k. get k map) id_eq in
        let found : find id (c ∷ candidates) ≡ some c = rw same refl in
        let selected_id : bytes_eq (select current c).record_id id ≡ true =
          (bytes_eq_iff _ _).1 (select-id map c keyed ∙ id_eq) in
        let none_next : find id merged.0 ≡ chosen differs none (find id candidates) =
          after.selected ∙ ap (λ x. chosen differs x (find id candidates)) (get-rest same) in
        record {
          selected =
              ap (λ b. find id (push b (select current c) merged).0)
                (is_skipped-eq differs map c current refl)
              ∙ same_step differs current (find id candidates) id c merged selected_id none_next
              ∙ ap (λ x. chosen differs x (some c)) current_eq
              ∙ ap (chosen differs (get id map)) (sym found);
          leaves =
              ap (get id) (push-left skipped (select current c) merged)
              ∙ after.leaves
              ∙ ap (λ x. left_of x (find id candidates)) (get-rest same)
              ∙ left_of-none (find id candidates)
              ∙ ap (left_of (get id map)) (sym found);
          sorted = subst Sorted (sym (push-left skipped (select current c) merged)) after.sorted;
          keyed = subst Keyed (sym (push-left skipped (select current c) merged)) after.keyed;
        }

    step_other_id :
        bytes_eq c.record_id id ≡ false
        → IsMerged differs id map
            (c ∷ candidates)
            (push skipped (select (get c.record_id map) c) merged)
    unfolding find
    step_other_id other =
        let current = get c.record_id map in
        let found : find id (c ∷ candidates) ≡ find id candidates = rw other refl in
        let selected_id : bytes_eq (select current c).record_id id ≡ false =
          ap (λ k. bytes_eq k id) (select-id map c keyed) ∙ other in
        let still : get id (rest_of skipped map c) ≡ get id map =
          get-rest_of skipped id map c ∙ unchanged skipped in
        record {
          selected =
              find-push_other skipped id (select current c) merged selected_id
              ∙ after.selected
              ∙ ap (λ x. chosen differs x (find id candidates)) still
              ∙ ap (chosen differs (get id map)) (sym found);
          leaves =
              ap (get id) (push-left skipped (select current c) merged)
              ∙ after.leaves
              ∙ ap (λ x. left_of x (find id candidates)) still
              ∙ ap (left_of (get id map)) (sym found);
          sorted = subst Sorted (sym (push-left skipped (select current c) merged)) after.sorted;
          keyed = subst Keyed (sym (push-left skipped (select current c) merged)) after.keyed;
        }
      where
        unchanged :
            (b : Bool)
            → (if b then get id map else if bytes_eq c.record_id id then none else get id map)
              ≡ get id map
        unchanged true = refl
        unchanged false = rw other refl

  pub merge-IsMerged :
      (differs : Bool) (id : Bytes) (map : Held o) (candidates : List (CatalogRecord o))
      → Sorted map × Keyed map
      → IsMerged differs id map candidates (merge differs map candidates)
  unfolding merge find
  merge-IsMerged differs id map [] h = record {
    selected = refl;
    leaves = refl;
    sorted = h.0;
    keyed = h.1;
  }
  merge-IsMerged differs id map (c ∷ candidates) h =
      let skipped = is_skipped differs map c in
      let after =
        merge-IsMerged differs id (rest_of skipped map c) candidates
          (rest_of-Keyed skipped map c h) in
      elim (Bool-cases (bytes_eq c.record_id id)) [
        | inl same ↦ step_same_id differs id map c candidates _ h.1 after same
        | inr other ↦ step_other_id differs id map c candidates _ h.1 after other
      ]
