-- ===== src/Api/Sequence/Visitor/Bounded.antt =====
-- crates/session-sync-protocol/src/api.rs: the bounded visitor reads whole sequences or none.

use attached.Action.Steps.{>>=-ok}
use native.Mathlib.Decide.{dec_le}
use attached.Common.{
  ℕ, Option-cases, Bool-cases, inl, inr, zero, suc, ltb, leb, le→leb, lt→leb_false, true, false,
  if◌then◌else◌, length, List, [], ◌∷◌, ◌++◌, append_assoc, append-nil, ◌≡◌, refl, sym, ap, ◌∙◌,
  none, some, Result, ok, err, arith,
}
use attached.Api.Sequence.Visitor.{
  SeqError, too_many_items, SeqAccess, visit_from, hint_exceeds, visit_seq,
}

-- A parser that holds given elements, and whose hint, if it gives one, is their number.
pub record Holds {S A : Type 0} (seq : SeqAccess S A) : Type 0 where
  pub at : List A → S
  pub next_some : (x : A) (xs : List A) → seq.next_element (at (x ∷ xs)) ≡ ok (some x, at xs)
  pub next_none : seq.next_element (at []) ≡ ok (none, at [])
  pub ignored_some : (x : A) (xs : List A) → seq.next_ignored (at (x ∷ xs)) ≡ ok (some tt, at xs)
  pub ignored_none : seq.next_ignored (at []) ≡ ok (none, at [])
  pub hint_exact : (xs : List A) (n : ℕ) → seq.size_hint (at xs) ≡ some n → n ≡ length xs

module _ {S A : Type 0} {seq : SeqAccess S A} (holds : Holds seq) where
  -- The answer of the loop.
  abbrev answer : ℕ → List A → List A → Result SeqError (List A × S)
  answer left out xs =
      if leb (length xs) left then ok (out ++ xs, holds.at []) else err too_many_items

  visit_from_lem :
      (left : ℕ) (out xs : List A) → visit_from seq left out (holds.at xs) ≡ answer left out xs
  unfolding visit_from
  visit_from_lem zero out [] =
      >>=-ok seq.next_ignored _ _ holds.ignored_none
      ∙ ap (λ (t : List A). ok (t, holds.at [])) (sym (append-nil out))
  visit_from_lem zero out (x ∷ xs) =
      >>=-ok seq.next_ignored _ _ (holds.ignored_some x xs)
      ∙ sym (rw (lt→leb_false (length (x ∷ xs)) 0 (omega arith)) refl)
  visit_from_lem (suc left) out [] =
      >>=-ok seq.next_element _ _ holds.next_none
      ∙ ap (λ (t : List A). ok (t, holds.at [])) (sym (append-nil out))
      ∙ sym (rw (le→leb 0 (suc left) (omega arith)) refl)
  visit_from_lem (suc left) out (x ∷ xs) =
      >>=-ok seq.next_element _ _ (holds.next_some x xs)
      ∙ visit_from_lem left (out ++ x ∷ []) xs
      ∙ elim (dec_le (length xs) left) [
        | yes p ↦
            rw (le→leb (length xs) left p, le→leb (suc (length xs)) (suc left) (omega arith))
              (ap (λ (t : List A). ok (t, holds.at [])) (append_assoc out (x ∷ []) xs))
        | no p ↦
            rw
              (
                lt→leb_false (length xs) left (omega arith),
                lt→leb_false (suc (length xs)) (suc left) (omega arith),
              )
              refl
      ]

  hint_exceeds-length :
      (max : ℕ) (xs : List A)
      → hint_exceeds seq max (holds.at xs) ≡ true
      → leb (length xs) max ≡ false
  unfolding hint_exceeds
  hint_exceeds-length max xs h = elim (Option-cases (seq.size_hint (holds.at xs))) [
    | inl unknown ↦ cc
    | inr (n, known) ↦
        let exact = holds.hint_exact xs n known in
        let more : ltb max n ≡ true = ground arith in ground arith
  ]

-- The visitor returns the elements that the parser holds, all of them, if they are at most the
-- bound, and otherwise it fails, whether or not the parser gave a hint.
pub visit_seq_lem :
    {S A : Type 0} {seq : SeqAccess S A} (holds : Holds seq) (max : ℕ) (xs : List A)
    → visit_seq seq max (holds.at xs)
      ≡ (if leb (length xs) max then ok (xs, holds.at []) else err too_many_items)
unfolding visit_seq
visit_seq_lem {seq = seq} holds max xs = elim (Bool-cases (hint_exceeds seq max (holds.at xs))) [
  | inl over ↦ rw (over, hint_exceeds-length holds max xs over) refl
  | inr under ↦ rw under (visit_from_lem holds max [] xs)
]
