-- ===== src/Action.antt =====
-- Actions on a state that may fail: a Rust function that takes `&mut S` and returns a `Result`,
-- with `?` as the bind of a do block.
pub mod Steps
use attached.Common.{Bool, true, false, Result, ok, err}

abbrev pub Action : Type 0 → Type 0 → Type 0 → Type 0
Action E S A = S → Result E (A × S)

infixl 5 ◌>>=◌ ◌>>◌
unfoldable pub ◌>>=◌ : {E S A B : Type 0} → Action E S A → (A → Action E S B) → Action E S B
◌>>=◌ m f s = elim (m s) [ ok (a, s') ↦ f a s' | err e ↦ err e ]

abbrev pub ◌>>◌ : {E S B : Type 0} → Action E S (Unit {0}) → Action E S B → Action E S B
m >> k = m >>= λ _. k

abbrev pub pure : {E S A : Type 0} → A → Action E S A
pure a s = ok (a, s)

-- `bail!(e)`, or `return Err(e)`.
abbrev pub bail : {E S A : Type 0} → E → Action E S A
bail e s = err e

-- `ensure!(b, e)`.
unfoldable pub ensure : {E S : Type 0} → Bool → E → Action E S (Unit {0})
ensure true e = pure tt
ensure false e = bail e
