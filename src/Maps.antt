-- ===== src/Maps.antt =====
-- Ordered maps from byte strings, the `BTreeMap` of crates/cli and crates/herdr-plugin: an
-- association list in key order.
use mathlib.Core.Path.{subst}
use attached.Common.{
  true, false, Bool, if◌then◌else◌, Bool-cases, inl, inr, List, [], ◌∷◌, All, Bytes, bytes_eq,
  bytes_eq_iff, Option, none, some, ◌≡◌, refl, ap, arith,
}
use attached.Api.Sequence.{is_less}
use attached.Api.Sequence.Ascending.{is_less_trans, is_less_irrefl}

pub is_less_total :
    (xs ys : Bytes) → is_less xs ys ≡ false → bytes_eq xs ys ≡ false → is_less ys xs ≡ true
unfolding is_less bytes_eq
is_less_total [] [] h k = cc
is_less_total (x ∷ xs) [] h k = refl
is_less_total [] (y ∷ ys) h k = cc
is_less_total (x ∷ xs) (y ∷ ys) h k = ground (arith, is_less_total xs ys)

pub less-differ : (xs ys : Bytes) → is_less xs ys ≡ true → bytes_eq xs ys ≡ false
less-differ xs ys h = ground (arith, bytes_eq_iff xs ys, is_less_irrefl xs, ap (is_less xs))

pub bytes_eq_sym : (a b : Bytes) → bytes_eq a b ≡ bytes_eq b a
bytes_eq_sym a b = ground (arith, bytes_eq_iff a b, bytes_eq_iff b a)

module _ {ℓ} {A : Type ℓ} where
  abbrev pub is_some : Option A → Bool
  is_some none = false
  is_some (some a) = true

  unfoldable pub get : Bytes → List (Bytes × A) → Option A
  get id [] = none
  get id ((key, a) ∷ map) = let rest = get id map in if bytes_eq key id then some a else rest

  unfoldable pub contains_key : Bytes → List (Bytes × A) → Bool
  contains_key id map = is_some (get id map)

  unfoldable pub insert : Bytes → A → List (Bytes × A) → List (Bytes × A)
  insert id a [] = (id, a) ∷ []
  insert id a ((key, b) ∷ map) =
      let rest = insert id a map in
      if bytes_eq key id
      then (id, a) ∷ map
      else if is_less id key
      then (id, a) ∷ (key, b) ∷ map
      else (key, b) ∷ rest

  unfoldable pub remove : Bytes → List (Bytes × A) → List (Bytes × A)
  remove id [] = []
  remove id ((key, a) ∷ map) =
      let rest = remove id map in if bytes_eq key id then rest else (key, a) ∷ rest

  -- Every key is smaller than all keys behind it.
  abbrev pub Sorted : List (Bytes × A) → Type ℓ
  Sorted [] = Unit {ℓ}
  Sorted ((key, a) ∷ map) = All (λ x. is_less key x.0 ≡ true) map × Sorted map

  pub get-insert :
      (id j : Bytes) (a : A) (map : List (Bytes × A))
      → get j (insert id a map) ≡ (if bytes_eq id j then some a else get j map)
  unfolding get insert
  get-insert id j a [] = refl
  get-insert id j a ((key, b) ∷ map) =
      ground
        (arith, bytes_eq_iff key id, bytes_eq_iff key j, bytes_eq_iff id j, get-insert id j a map)

  pub get-remove :
      (id j : Bytes) (map : List (Bytes × A))
      → get j (remove id map) ≡ (if bytes_eq id j then none else get j map)
  unfolding get remove
  get-remove id j [] = ground arith
  get-remove id j ((key, b) ∷ map) =
      ground
        (arith, bytes_eq_iff key id, bytes_eq_iff key j, bytes_eq_iff id j, get-remove id j map)

  All-less :
      (a b : Bytes) (map : List (Bytes × A))
      → is_less a b ≡ true
      → All (λ x. is_less b x.0 ≡ true) map
      → All (λ x. is_less a x.0 ≡ true) map
  All-less a b [] h k = tt
  All-less a b ((key, r) ∷ map) h (k, ks) = (is_less_trans a b key h k, All-less a b map h ks)

  pub All-insert {κ} :
      (P : Bytes × A → Type κ) (id : Bytes) (a : A) (map : List (Bytes × A))
      → P (id, a)
      → All P map
      → All P (insert id a map)
  unfolding insert
  All-insert P id a [] p h = (p, tt)
  All-insert P id a ((key, old) ∷ map) p (q, h) = elim (Bool-cases (bytes_eq key id)) [
    | inl same ↦ rw same (p, h)
    | inr other ↦ elim (Bool-cases (is_less id key)) [
      | inl before ↦ rw (other, before) (p, (q, h))
      | inr after ↦ rw (other, after) (q, All-insert P id a map p h)
    ]
  ]

  pub All-remove {κ} :
      (P : Bytes × A → Type κ) (id : Bytes) (map : List (Bytes × A))
      → All P map
      → All P (remove id map)
  unfolding remove
  All-remove P id [] h = tt
  All-remove P id ((key, old) ∷ map) (q, h) = elim (Bool-cases (bytes_eq key id)) [
    | inl same ↦ rw same (All-remove P id map h)
    | inr other ↦ rw other (q, All-remove P id map h)
  ]

  pub Sorted-remove : (id : Bytes) (map : List (Bytes × A)) → Sorted map → Sorted (remove id map)
  unfolding remove
  Sorted-remove id [] h = tt
  Sorted-remove id ((key, old) ∷ map) (above, rest) = elim (Bool-cases (bytes_eq key id)) [
    | inl same ↦ rw same (Sorted-remove id map rest)
    | inr other ↦
        rw other (All-remove (λ x. is_less key x.0 ≡ true) id map above, Sorted-remove id map rest)
  ]

  pub Sorted-insert :
      (id : Bytes) (a : A) (map : List (Bytes × A)) → Sorted map → Sorted (insert id a map)
  unfolding insert
  Sorted-insert id a [] h = (tt, tt)
  Sorted-insert id a ((key, old) ∷ map) (above, rest) = elim (Bool-cases (bytes_eq key id)) [
    | inl same ↦
        let key_eq : key ≡ id = (bytes_eq_iff key id).0 same in
        rw same (subst (λ k. All (λ x. is_less k x.0 ≡ true) map) key_eq above, rest)
    | inr other ↦ elim (Bool-cases (is_less id key)) [
      | inl before ↦ rw (other, before) ((before, All-less id key map before above), (above, rest))
      | inr after ↦
          let less : is_less key id ≡ true =
            is_less_total id key after (rw (bytes_eq_sym id key) other) in
          rw (other, after)
            (
              All-insert (λ x. is_less key x.0 ≡ true) id a map less above,
              Sorted-insert id a map rest,
            )
    ]
  ]

  -- No key behind a larger one.
  pub get-before :
      (id : Bytes) (map : List (Bytes × A))
      → All (λ x. is_less id x.0 ≡ true) map
      → get id map ≡ none
  unfolding get
  get-before id [] h = refl
  get-before id ((key, r) ∷ map) (h, hs) =
      rw (bytes_eq_sym key id) (rw (less-differ id key h) (get-before id map hs))
