-- ===== src/Catalog/Lookup.antt =====
-- crates/cli/src/sync/state_catalog.rs: how a publisher is resolved, and the hosts that are listed.
use attached.Common.{
  none, Bool, true, false, not, ◌&&◌, Bool-cases, inl, inr, List, [], ◌∷◌, ◌++◌, All, Option, some,
  Bytes, bytes_eq_iff, Result, ok, ◌≡◌, ◌↔◌, refl, sym, ap, ◌∙◌, arith,
}
use attached.Descriptor.Outside.{Outside}
use attached.Catalog.Model.{
  CatalogError, CatalogRecord, Catalog, HostConnection, is_expired_at, ssh_attachment, names,
  matches, only, host,
}

module _ {o : Outside} where
  -- The record is not expired and the target names it.
  abbrev pub answers : Option Bytes → Bytes → o.DateTime → CatalogRecord o → Bool
  answers identity target now r = not (is_expired_at o r now) && names o identity target r

  -- The same, as a proposition: the identity that the target spells is the record's, or without one
  -- the label is the target.
  abbrev pub IsNamed : Option Bytes → Bytes → CatalogRecord o → Type 0
  IsNamed (some identity) target r = r.endpoint_identity ≡ identity
  IsNamed none target r = r.host_label ≡ target

  abbrev pub Answers : Option Bytes → Bytes → o.DateTime → CatalogRecord o → Type 0
  Answers identity target now r = (o.is_ge now r.expires_at ≡ false) × IsNamed identity target r

  answers_iff :
      (identity : Option Bytes) (target : Bytes) (now : o.DateTime) (r : CatalogRecord o)
      → (answers identity target now r ≡ true) ↔ Answers identity target now r
  unfolding names is_expired_at
  answers_iff (some identity) target now r = (
    λ h. (ground arith, ground (arith, bytes_eq_iff r.endpoint_identity identity)),
    λ (h, k). rw (h, (bytes_eq_iff r.endpoint_identity identity).1 k) refl,
  )
  answers_iff none target now r = (
    λ h. (ground arith, ground (arith, bytes_eq_iff r.host_label target)),
    λ (h, k). rw (h, (bytes_eq_iff r.host_label target).1 k) refl,
  )

  -- A record that answers, the only one in the list.
  pub record IsOnly (identity : Option Bytes) (target : Bytes) (now : o.DateTime)
      (r : CatalogRecord o) (records : List (CatalogRecord o)) : Type 0 where
    pub before : List (CatalogRecord o)
    pub behind : List (CatalogRecord o)
    pub split : records ≡ before ++ r ∷ behind
    pub answered : Answers identity target now r
    pub none_before : All (λ s. ¬ Answers identity target now s) before
    pub none_behind : All (λ s. ¬ Answers identity target now s) behind

  module _ (identity : Option Bytes) (target : Bytes) (now : o.DateTime) where
    none_answer :
        (records : List (CatalogRecord o))
        → matches o identity target now records ≡ []
        → All (λ s. answers identity target now s ≡ false) records
    unfolding matches
    none_answer [] h = tt
    none_answer (s ∷ records) h = elim (Bool-cases (answers identity target now s)) [
      | inl found ↦
          absurd (nonempty s (matches o identity target now records) (sym (rw found refl) ∙ h))
      | inr other ↦ (other, none_answer records (sym (rw other refl) ∙ h))
    ]
      where
        nonempty : (x : CatalogRecord o) (xs : List (CatalogRecord o)) → x ∷ xs ≡ [] → ⊥
        nonempty x xs e = cc

    no_matches :
        (records : List (CatalogRecord o))
        → All (λ s. answers identity target now s ≡ false) records
        → matches o identity target now records ≡ []
    unfolding matches
    no_matches [] h = refl
    no_matches (s ∷ records) (h, hs) = rw h (no_matches records hs)

    record IsOnlyMatch (r : CatalogRecord o) (records : List (CatalogRecord o)) : Type 0 where
      pub before : List (CatalogRecord o)
      pub behind : List (CatalogRecord o)
      pub split : records ≡ before ++ r ∷ behind
      pub answered : answers identity target now r ≡ true
      pub none_before : All (λ s. answers identity target now s ≡ false) before
      pub none_behind : All (λ s. answers identity target now s ≡ false) behind

    one_match :
        (r : CatalogRecord o) (records : List (CatalogRecord o))
        → matches o identity target now records ≡ r ∷ []
        → IsOnlyMatch r records
    unfolding matches
    one_match r [] h = absurd cc
    one_match r (s ∷ records) h = elim (Bool-cases (answers identity target now s)) [
      | inl found ↦
          let whole : s ∷ matches o identity target now records ≡ r ∷ [] =
            sym (rw found refl) ∙ h in
          let (same, rest) = cons-injective s r _ [] whole in
          record {
            before = [];
            behind = records;
            split = ap (λ x. x ∷ records) same;
            answered = ap (answers identity target now) (sym same) ∙ found;
            none_before = tt;
            none_behind = none_answer records rest;
          }
      | inr other ↦
          let here = one_match r records (sym (rw other refl) ∙ h) in
          record {
            before = s ∷ here.before;
            behind = here.behind;
            split = ap (◌∷◌ s) here.split;
            answered = here.answered;
            none_before = (other, here.none_before);
            none_behind = here.none_behind;
          }
    ]
      where
        cons-injective :
            (x y : CatalogRecord o) (xs ys : List (CatalogRecord o))
            → x ∷ xs ≡ y ∷ ys
            → (x ≡ y) × (xs ≡ ys)
        cons-injective x y xs ys e = (cc, cc)

    only_match :
        (r : CatalogRecord o) (before behind : List (CatalogRecord o))
        → answers identity target now r ≡ true
        → All (λ s. answers identity target now s ≡ false) before
        → All (λ s. answers identity target now s ≡ false) behind
        → matches o identity target now (before ++ r ∷ behind) ≡ r ∷ []
    unfolding matches
    only_match r [] behind a h k = rw (a, no_matches behind k) refl
    only_match r (s ∷ before) behind a (h, hs) k = rw h (only_match r before behind a hs k)

    only-eq-ok :
        (records : List (CatalogRecord o)) (c : HostConnection o)
        → only o records ≡ ok c
        → (r : CatalogRecord o) × (records ≡ r ∷ []) × (ssh_attachment o r ≡ c)
    unfolding only
    only-eq-ok [] c h = absurd cc
    only-eq-ok (r ∷ []) c h = (r, refl, ok-injective (ssh_attachment o r) c h)
      where
        ok-injective :
            (a b : HostConnection o)
            → Path (Result CatalogError (HostConnection o)) (ok a) (ok b)
            → a ≡ b
        ok-injective a b e = cc
    only-eq-ok (r ∷ s ∷ records) c h = absurd cc

  none_answers_iff :
      (identity : Option Bytes) (target : Bytes) (now : o.DateTime)
      (records : List (CatalogRecord o))
      → All (λ s. answers identity target now s ≡ false) records
        ↔ All (λ s. ¬ Answers identity target now s) records
  none_answers_iff identity target now [] = (λ _. tt, λ _. tt)
  none_answers_iff identity target now (s ∷ records) =
      let (here, there) = answers_iff identity target now s in
      let (rest, rest') = none_answers_iff identity target now records in
      (
        λ (h, hs). (λ a. absurd (true_false (sym (there a) ∙ h)), rest hs),
        λ (h, hs). (not_true _ (λ e. h (here e)), rest' hs),
      )
    where
      true_false : true ≡ false → ⊥
      true_false e = cc

      not_true : (b : Bool) → ¬ (b ≡ true) → b ≡ false
      not_true false h = refl
      not_true true h = absurd (h refl)

  -- A target resolves to a connection exactly when one record of the catalog, and one alone, is not
  -- expired and is named by the target: by its identity, if the target spells one, and by its label
  -- if not. The connection is that record's.
  pub host_iff :
      (identity : Option Bytes) (catalog : Catalog o) (target : Bytes) (now : o.DateTime)
      (c : HostConnection o)
      → (host o identity catalog target now ≡ ok c) ↔ (
          (r : CatalogRecord o) × IsOnly identity target now r catalog.records
          × (ssh_attachment o r ≡ c))
  unfolding host only
  host_iff identity catalog target now c = (
    λ h.
        let (r, one, same) =
          only-eq-ok identity target now (matches o identity target now catalog.records) c h in
        let i = one_match identity target now r catalog.records one in
        (
          r,
          record {
            before = i.before;
            behind = i.behind;
            split = i.split;
            answered = (answers_iff identity target now r).0 i.answered;
            none_before = (none_answers_iff identity target now i.before).0 i.none_before;
            none_behind = (none_answers_iff identity target now i.behind).0 i.none_behind;
          },
          same,
        ),
    λ (r, i, same).
        rw
          (
            i.split,
            only_match identity target now r i.before i.behind
                ((answers_iff identity target now r).1 i.answered)
                ((none_answers_iff identity target now i.before).1 i.none_before)
                ((none_answers_iff identity target now i.behind).1 i.none_behind),
          )
          (ap ok same),
  )

  -- A target that spells an identity resolves to a publisher of that identity only, whatever the labels of
  -- the catalog are.
  pub host_identity :
      (identity : Bytes) (catalog : Catalog o) (target : Bytes) (now : o.DateTime)
      (c : HostConnection o)
      → host o (some identity) catalog target now ≡ ok c
      → (c.endpoint_identity ≡ identity) × (o.is_ge now c.expires_at ≡ false)
  unfolding names is_expired_at ssh_attachment
  host_identity identity catalog target now c h =
      let (r, i, same) = (host_iff (some identity) catalog target now c).0 h in
      let (fresh, named) = i.answered in
      (
        ap (λ (x : HostConnection o). x.endpoint_identity) (sym same) ∙ named,
        ap (λ (x : HostConnection o). o.is_ge now x.expires_at) (sym same) ∙ fresh,
      )
