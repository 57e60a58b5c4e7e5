-- ===== src/Action/Steps.antt =====
-- One step of an action, forwards and backwards.
use attached.Common.{Bool, true, false, ◌≡◌, refl, Result, ok, err}
use attached.Action.{Action, ◌>>=◌, pure, ensure}

module _ {E S A : Type 0} where
  pub pure-eq-ok :
      (a b : A) {s s' : S}
      → ◌≡◌ {A = Result E (A × S)} (ok (a, s)) (ok (b, s'))
      → (a ≡ b) × (s ≡ s')
  pure-eq-ok a b h = (cc, cc)

module _ {E S A : Type 0} where
  pub >>=-pure : (m : Action E S A) (s : S) → (m >>= pure) s ≡ m s
  unfolding ◌>>=◌
  >>=-pure m s = by_cases (m s)
    where
      by_cases :
          (t : Result E (A × S)) → elim t [ ok (a, s') ↦ pure {E = E} a s' | err e ↦ err e ] ≡ t
      by_cases (ok _) = refl
      by_cases (err _) = refl

module _ {E S A B : Type 0} where
  pub >>=-ok :
      (m : Action E S A) (f : A → Action E S B) (s : S) {a : A} {s' : S}
      → m s ≡ ok (a, s')
      → (m >>= f) s ≡ f a s'
  unfolding ◌>>=◌
  >>=-ok m f s h = rw (h, ◌>>=◌)

  pub >>=-err :
      (m : Action E S A) (f : A → Action E S B) (s : S) {e : E} → m s ≡ err e → (m >>= f) s ≡ err e
  unfolding ◌>>=◌
  >>=-err m f s h = rw (h, ◌>>=◌)

  pub >>=-eq-ok :
      (m : Action E S A) (f : A → Action E S B) (s : S) {x : B × S}
      → (m >>= f) s ≡ ok x
      → (a : A) × (s' : S) × (m s ≡ ok (a, s')) × (f a s' ≡ ok x)
  unfolding ◌>>=◌
  >>=-eq-ok m f s h = by_cases (m s) refl h
    where
      by_cases :
          (t : Result E (A × S)) {x : B × S}
          → m s ≡ t
          → elim t [ ok (a, s') ↦ f a s' | err e ↦ err e ] ≡ ok x
          → (a : A) × (s' : S) × (m s ≡ ok (a, s')) × (f a s' ≡ ok x)
      by_cases (ok (a, s')) e h = (a, s', e, h)
      by_cases (err _) e h = cc

module _ {E S A B C : Type 0} where
  pub >>=_assoc :
      (m : Action E S A) (f : A → Action E S B) (g : B → Action E S C) (s : S)
      → ((m >>= f) >>= g) s ≡ (m >>= λ a. f a >>= g) s
  unfolding ◌>>=◌
  >>=_assoc m f g s = by_cases (m s)
    where
      by_cases :
          (t : Result E (A × S))
          → elim (let u : Result E (B × S) = elim t [ ok (a, s') ↦ f a s' | err e ↦ err e ] in u) [
            | ok (b, s') ↦ g b s'
            | err e ↦ err e
          ]
            ≡ elim t [ ok (a, s') ↦ (f a >>= g) s' | err e ↦ err e ]
      by_cases (ok _) = refl
      by_cases (err _) = refl

module _ {E S B : Type 0} where
  pub ensure_pass :
      (b : Bool) (e : E) (f : Unit {0} → Action E S B) (s : S)
      → b ≡ true
      → (ensure b e >>= f) s ≡ f tt s
  unfolding ◌>>=◌ ensure
  ensure_pass b e f s h = rw h

  pub ensure_fail :
      (b : Bool) (e : E) (f : Unit {0} → Action E S B) (s : S)
      → b ≡ false
      → (ensure b e >>= f) s ≡ err e
  unfolding ◌>>=◌ ensure
  ensure_fail b e f s h = rw h

  pub ensure-eq-ok :
      (b : Bool) (e : E) (f : Unit {0} → Action E S B) (s : S) {x : B × S}
      → (ensure b e >>= f) s ≡ ok x
      → (b ≡ true) × (f tt s ≡ ok x)
  unfolding ◌>>=◌ ensure
  ensure-eq-ok true e f s h = (refl, h)
  ensure-eq-ok false e f s h = cc
