-- ===== src/Api/Sequence/Ascending.antt =====
-- crates/session-sync-protocol/src/api.rs: what a live record index that is accepted looks like.
use attached.Common.{
  ◌≤◌, le→ltb_false, true, false, length, List, [], ◌∷◌, All, Bytes, ok, ◌≡◌, ◌↔◌, refl, sym, ap,
  arith,
}
use attached.Api.Sequence.{
  max_live_records, LiveRecordIndexEntry, LiveRecordIndex, is_less, any_unrevised, any_descent,
  any_disorder, validate_index, new_index,
}

pub is_less_trans :
    (xs ys zs : Bytes) → is_less xs ys ≡ true → is_less ys zs ≡ true → is_less xs zs ≡ true
unfolding is_less
is_less_trans xs ys [] h k = k
is_less_trans [] ys (z ∷ zs) h k = refl
is_less_trans (x ∷ xs) [] (z ∷ zs) h k = absurd cc
is_less_trans (x ∷ xs) (y ∷ ys) (z ∷ zs) h k = ground (arith, is_less_trans xs ys zs)

pub is_less_irrefl : (xs : Bytes) → is_less xs xs ≡ false
unfolding is_less
is_less_irrefl [] = refl
is_less_irrefl (x ∷ xs) = ground (arith, is_less_irrefl xs)

-- Every entry has a smaller identifier than every entry behind it.
abbrev pub Ascends : List LiveRecordIndexEntry → Type 0
Ascends [] = Unit
Ascends (a ∷ rest) = All (λ b. is_less a.record_id b.record_id ≡ true) rest × Ascends rest

pub record IsIndex (records : List LiveRecordIndexEntry) : Type 0 where
  pub at_most : length records ≤ max_live_records
  pub revised : All (λ r. 1 ≤ r.revision) records
  pub ascends : Ascends records

above_trans :
    (a b : LiveRecordIndexEntry) (rest : List LiveRecordIndexEntry)
    → is_less a.record_id b.record_id ≡ true
    → All (λ c. is_less b.record_id c.record_id ≡ true) rest
    → All (λ c. is_less a.record_id c.record_id ≡ true) rest
above_trans a b [] h k = tt
above_trans a b (c ∷ rest) h (k, ks) =
    (is_less_trans a.record_id b.record_id c.record_id h k, above_trans a b rest h ks)

ordered-Ascends :
    (a : LiveRecordIndexEntry) (rest : List LiveRecordIndexEntry)
    → any_descent a rest ≡ false
    → Ascends (a ∷ rest)
unfolding any_descent
ordered-Ascends a [] h = (tt, tt)
ordered-Ascends a (b ∷ rest) h =
    let first : is_less a.record_id b.record_id ≡ true = ground arith in
    let behind : any_descent b rest ≡ false = ground arith in
    let tail = ordered-Ascends b rest behind in ((first, above_trans a b rest first tail.0), tail)

Ascends-ordered :
    (a : LiveRecordIndexEntry) (rest : List LiveRecordIndexEntry)
    → Ascends (a ∷ rest)
    → any_descent a rest ≡ false
unfolding any_descent
Ascends-ordered a [] h = refl
Ascends-ordered a (b ∷ rest) (above, tail) =
    let first = above.0 in let behind = Ascends-ordered b rest tail in rw (first, behind) refl

positive_revisions :
    (records : List LiveRecordIndexEntry)
    → any_unrevised records ≡ false
    → All (λ r. 1 ≤ r.revision) records
unfolding any_unrevised
positive_revisions [] h = tt
positive_revisions (r ∷ records) h = (ground arith, positive_revisions records (ground arith))

none_unrevised :
    (records : List LiveRecordIndexEntry)
    → All (λ r. 1 ≤ r.revision) records
    → any_unrevised records ≡ false
unfolding any_unrevised
none_unrevised [] h = refl
none_unrevised (r ∷ records) (h, hs) = let behind = none_unrevised records hs in ground arith

ordered_index :
    (records : List LiveRecordIndexEntry) → any_disorder records ≡ false → Ascends records
unfolding any_disorder
ordered_index [] h = tt
ordered_index (a ∷ rest) h = ordered-Ascends a rest h

index_ordered :
    (records : List LiveRecordIndexEntry) → Ascends records → any_disorder records ≡ false
unfolding any_disorder
index_ordered [] h = refl
index_ordered (a ∷ rest) h = Ascends-ordered a rest h

-- A live record index is made of a list of entries exactly when there are at most 128 of them,
-- with positive revisions, and each has a smaller identifier than all entries behind it. The
-- index has these entries.
pub new_index_iff :
    (records : List LiveRecordIndexEntry) (index : LiveRecordIndex)
    → (new_index records ≡ ok index) ↔ ((index.records ≡ records) × IsIndex records)
unfolding new_index validate_index
new_index_iff records index = (
  λ h.
      let at_most : length records ≤ max_live_records = ground arith in
      let revised : any_unrevised records ≡ false = ground arith in
      let ordered : any_disorder records ≡ false = ground arith in
      let same : record { records = records } ≡ index = ground arith in
      (
        ap (λ (t : LiveRecordIndex). t.records) (sym same),
        record {
          at_most = at_most;
          revised = positive_revisions records revised;
          ascends = ordered_index records ordered;
        },
      ),
  λ h.
      let (same, i) = h in
      rw
        (
          le→ltb_false max_live_records (length records) i.at_most,
          none_unrevised records i.revised,
          index_ordered records i.ascends,
        )
        (λ j. ok (record { records = sym same j })),
)
