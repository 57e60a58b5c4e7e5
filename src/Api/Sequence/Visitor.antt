-- ===== src/Api/Sequence/Visitor.antt =====
-- crates/session-sync-protocol/src/api.rs: the bounded sequence visitor that reads the entries of a
-- live record index.
pub mod Bounded
use attached.Action.{Action, ◌>>=◌, pure, bail}
use attached.Common.{
  ℕ, zero, suc, Bool, true, false, ltb, if◌then◌else◌, List, [], ◌∷◌, ◌++◌, Option, none, some, ok,
  err,
}

-- Errors of the visitor: its own, and the parser's.
pub data SeqError : Type 0 where
  too_many_items parse_error : SeqError

-- `SeqAccess` of the crate serde, on a state of the parser.
pub record SeqAccess (S A : Type 0) : Type 0 where
  pub size_hint : S → Option ℕ
  pub next_element : Action SeqError S (Option A)
  -- `next_element::<IgnoredAny>`
  pub next_ignored : Action SeqError S (Option (Unit {0}))

module _ {S A : Type 0} (seq : SeqAccess S A) where
  -- The loop, with `left` for `M - out.len()`, and the test behind it.
  unfoldable pub visit_from : ℕ → List A → Action SeqError S (List A)
  visit_from zero out = do
    extra ← seq.next_ignored
    elim extra [ none ↦ pure out | some _ ↦ bail too_many_items ]
  visit_from (suc left) out = do
    element ← seq.next_element
    elim element [ none ↦ pure out | some value ↦ visit_from left (out ++ value ∷ []) ]

  -- `size_hint().is_some_and(|n| n > M)`
  unfoldable pub hint_exceeds : ℕ → S → Bool
  hint_exceeds max s = elim (seq.size_hint s) [ none ↦ false | some n ↦ ltb max n ]

  unfoldable pub visit_seq : ℕ → Action SeqError S (List A)
  visit_seq max s = if hint_exceeds max s then err too_many_items else visit_from max [] s
