-- ===== src/Worker/Storage/Keys.antt =====
-- crates/session-sync-worker/src/storage.rs: the table `records` as a finite map in key order.
use mathlib.Core.Path.{subst}
use attached.Common.{
  ◌+◌, true, false, if◌then◌else◌, Bool-cases, inl, inr, length, [], ◌∷◌, All, Bytes, bytes_eq,
  bytes_eq_iff, none, some, ◌≡◌, refl, ap, arith,
}
use attached.Api.Sequence.{is_less}
use attached.Api.Sequence.Ascending.{is_less_trans, is_less_irrefl}
use attached.Worker.Records.{StoredRecord}
use attached.Worker.Records.History.{IsStorable}
use attached.Worker.Storage.Sql.{Records, lookup, upsert, is_some}

is_less_total :
    (xs ys : Bytes) → is_less xs ys ≡ false → bytes_eq xs ys ≡ false → is_less ys xs ≡ true
unfolding is_less bytes_eq
is_less_total [] [] h k = cc
is_less_total (x ∷ xs) [] h k = refl
is_less_total [] (y ∷ ys) h k = cc
is_less_total (x ∷ xs) (y ∷ ys) h k = ground (arith, is_less_total xs ys)

-- Every key is smaller than all keys behind it.
abbrev pub Sorted : Records → Type 0
Sorted [] = Unit
Sorted ((key, r) ∷ rest) = All (λ x. is_less key x.0 ≡ true) rest × Sorted rest

pub record IsRow (x : Bytes × StoredRecord) : Type 0 where
  pub id_len : length x.0 ≡ 16
  pub nonce_len : length x.1.envelope_nonce ≡ 24
  pub storable : IsStorable x.1

pub lookup-upsert :
    (id j : Bytes) (r : StoredRecord) (records : Records)
    → lookup j (upsert id r records) ≡ (if bytes_eq id j then some r else lookup j records)
unfolding lookup upsert
lookup-upsert id j r [] = refl
lookup-upsert id j r ((key, old) ∷ records) = ground (
  arith,
  bytes_eq_iff key id,
  bytes_eq_iff key j,
  bytes_eq_iff id j,
  lookup-upsert id j r records,
)

pub All-upsert :
    (P : Bytes × StoredRecord → Type 0) (id : Bytes) (r : StoredRecord) (records : Records)
    → P (id, r)
    → All P records
    → All P (upsert id r records)
unfolding upsert
All-upsert P id r [] p h = (p, tt)
All-upsert P id r ((key, old) ∷ records) p (q, h) = elim (Bool-cases (bytes_eq key id)) [
  | inl same ↦ rw same (p, h)
  | inr other ↦ elim (Bool-cases (is_less id key)) [
    | inl before ↦ rw (other, before) (p, (q, h))
    | inr after ↦ rw (other, after) (q, All-upsert P id r records p h)
  ]
]

All-less :
    (a b : Bytes) (records : Records)
    → is_less a b ≡ true
    → All (λ x. is_less b x.0 ≡ true) records
    → All (λ x. is_less a x.0 ≡ true) records
All-less a b [] h k = tt
All-less a b ((key, r) ∷ records) h (k, ks) = (is_less_trans a b key h k, All-less a b records h ks)

bytes_neq : (a b : Bytes) → bytes_eq a b ≡ false → bytes_eq b a ≡ false
bytes_neq a b h = ground (arith, bytes_eq_iff a b, bytes_eq_iff b a)

pub Sorted-upsert :
    (id : Bytes) (r : StoredRecord) (records : Records)
    → Sorted records
    → Sorted (upsert id r records)
unfolding upsert
Sorted-upsert id r [] h = (tt, tt)
Sorted-upsert id r ((key, old) ∷ records) (above, rest) = elim (Bool-cases (bytes_eq key id)) [
  | inl same ↦
      let key_eq : key ≡ id = (bytes_eq_iff key id).0 same in
      rw same (subst (λ k. All (λ x. is_less k x.0 ≡ true) records) key_eq above, rest)
  | inr other ↦ elim (Bool-cases (is_less id key)) [
    | inl before ↦
        rw (other, before) ((before, All-less id key records before above), (above, rest))
    | inr after ↦
        let less : is_less key id ≡ true = is_less_total id key after (bytes_neq key id other) in
        rw (other, after)
          (
            All-upsert (λ x. is_less key x.0 ≡ true) id r records less above,
            Sorted-upsert id r records rest,
          )
  ]
]

-- No key behind a larger one.
lookup-before :
    (id : Bytes) (records : Records)
    → All (λ x. is_less id x.0 ≡ true) records
    → lookup id records ≡ none
unfolding lookup
lookup-before id [] h = refl
lookup-before id ((key, r) ∷ records) (h, hs) =
    let differ : bytes_eq key id ≡ false =
      ground (arith, bytes_eq_iff key id, is_less_irrefl id, ap (is_less id)) in
    rw differ (lookup-before id records hs)

pub length-upsert :
    (id : Bytes) (r : StoredRecord) (records : Records)
    → Sorted records
    → length (upsert id r records)
      ≡ (if is_some (lookup id records) then length records else length records + 1)
unfolding lookup upsert
length-upsert id r [] h = refl
length-upsert id r ((key, old) ∷ records) (above, rest) = elim (Bool-cases (bytes_eq key id)) [
  | inl same ↦ rw same refl
  | inr other ↦ elim (Bool-cases (is_less id key)) [
    | inl before ↦
        rw (other, before, lookup-before id records (All-less id key records before above))
          (omega arith)
    | inr after ↦ rw (other, after) (ground (arith, length-upsert id r records rest))
  ]
]

-- What is found satisfies what every row does.
pub All-lookup :
    (P : Bytes × StoredRecord → Type 0) (id : Bytes) (records : Records) {r : StoredRecord}
    → All P records
    → lookup id records ≡ some r
    → P (id, r)
unfolding lookup
All-lookup P id [] h k = cc
All-lookup P id ((key, old) ∷ records) {r = r} (p, h) k = elim (Bool-cases (bytes_eq key id)) [
  | inl same ↦
      let key_eq : key ≡ id = (bytes_eq_iff key id).0 same in
      let row_eq : old ≡ r = ground arith in subst P (λ i. (key_eq i, row_eq i)) p
  | inr other ↦ All-lookup P id records h (ground arith)
]
