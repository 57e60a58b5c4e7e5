-- ===== src/LocalEncryption/Keys/Cached.antt =====
-- crates/cli/src/local_encryption.rs: what the caches of the password and of the key hold.
use attached.Common.{
  Bool, true, false, Bool-cases, inl, inr, Option, none, some, Bytes, bytes_eq, bytes_eq_iff,
  Result, ok, err, ensure, bind-eq-ok, ◌≡◌, refl, sym, ◌∙◌,
}
use mathlib.Core.Path.{subst}
use attached.LocalEncryption.Keys.{
  KeyError, lift, validate_password, Prompt, confirm_password, World, CachedMasterKey, Store, Step,
  after, ask, confirm, keep_password, prompt_of, prompt_password, password, created_salt,
  create_kdf_salt, found_salt, load_or_create_kdf_salt, derive_master_key, keep_key, derive_key,
  key_for, cached_or_prompt, load_or_create, salt_missing, passwords_differ, prompt_password,
}

module _ {Other : Type 0} (w : World Other) (hash : Bytes → Bytes → Option Bytes) where
  abbrev pub Derives : Bytes → CachedMasterKey → Type 0
  Derives p k = derive_master_key w hash p k.salt ≡ ok k.key

  -- The cached password is one that is accepted, and it stays; the cached key is derived from it.
  pub record IsKept (s₀ s : Store w) : Type 0 where
    pub password_valid :
        (p : Bytes) → s.password ≡ some p → validate_password {Other = Other} p ≡ ok tt
    pub key_derived :
        (k : CachedMasterKey)
        → s.cached_key ≡ some k
        → (p : Bytes) × (s.password ≡ some p) × Derives p k
    pub stays : (p : Bytes) → s₀.password ≡ some p → s.password ≡ some p

  module _ (s₀ : Store w) where
    -- What a step leaves is kept, and what it returns satisfies `Q`.
    abbrev pub Ends :
        {A : Type 0} → (A → Store w → Type 0) → Store w × Result (KeyError Other) A → Type 0
    Ends Q (s, ok a) = IsKept s₀ s × Q a s
    Ends Q (s, err e) = IsKept s₀ s

    after-Ends :
        {A B : Type 0} (Q : A → Store w → Type 0) (R : B → Store w → Type 0)
        (x : Store w × Result (KeyError Other) A) (f : A → Step w B)
        → Ends Q x
        → ((a : A) (s : Store w) → IsKept s₀ s → Q a s → Ends R (f a s))
        → Ends R (after w x f)
    unfolding after
    after-Ends Q R (s, ok a) f h k = k a s h.0 h.1
    after-Ends Q R (s, err e) f h k = h

    pure-Ends :
        {A : Type 0} (Q : A → Store w → Type 0) (s : Store w) (r : Result (KeyError Other) A)
        → IsKept s₀ s
        → ((a : A) → r ≡ ok a → Q a s)
        → Ends Q (s, r)
    pure-Ends Q s (ok a) h k = (h, k a refl)
    pure-Ends Q s (err e) h k = h

    moved : (s : Store w) (world : w.State) → IsKept s₀ s → IsKept s₀ (record s { world = world })
    moved s world h = record {
      password_valid = h.password_valid;
      key_derived = h.key_derived;
      stays = h.stays;
    }

    ask-Ends :
        (prompt : Prompt) (s : Store w)
        → IsKept s₀ s
        → s.password ≡ none
        → Ends (λ _ s'. s'.password ≡ none) (ask w prompt s)
    unfolding ask
    ask-Ends prompt s h empty =
        let (world, answer) = w.read_password prompt s.world in
        pure-Ends (λ _ s'. s'.password ≡ none) (record s { world = world }) (lift answer)
          (moved s world h) (λ _ _. empty)

    confirm-Ends :
        (p : Bytes) (create : Bool) (s : Store w)
        → IsKept s₀ s
        → s.password ≡ none
        → Ends (λ q s'. (s'.password ≡ none) × (q ≡ p)) (confirm w p create s)
    unfolding confirm
    confirm-Ends p false s h empty = (h, (empty, refl))
    confirm-Ends p true s h empty =
        after-Ends (λ _ s'. s'.password ≡ none) (λ q s'. (s'.password ≡ none) × (q ≡ p))
          (ask w confirm_password s) _ (ask-Ends confirm_password s h empty)
          λ confirmation s' kept still.
            pure-Ends (λ q s''. (s''.password ≡ none) × (q ≡ p)) s' _ kept
              λ q e. (
                still,
                let (_, _, e₁) = bind-eq-ok (validate_password {Other = Other} confirmation) _ e in
                    let (_, _, e₂) =
                      bind-eq-ok (ensure (bytes_eq p confirmation) passwords_differ) _ e₁ in
                    sym (ok-injective p q e₂),
              )
      where
        ok-injective : (a b : Bytes) → Path (Result (KeyError Other) Bytes) (ok a) (ok b) → a ≡ b
        ok-injective a b e = cc

    keep_password-IsKept :
        (p : Bytes) (s : Store w)
        → IsKept s₀ s
        → s.password ≡ none
        → validate_password {Other = Other} p ≡ ok tt
        → IsKept s₀ (record s { password = some p })
    keep_password-IsKept p s h empty valid = record {
      password_valid = λ q e.
          subst (λ x. validate_password {Other = Other} x ≡ ok tt) (some-injective p q e) valid;
      key_derived =
          λ k e. let (q, found, _) = h.key_derived k e in absurd (none-some q (sym empty ∙ found));
      stays = λ q e. absurd (none-some q (sym empty ∙ h.stays q e));
    }
      where
        some-injective : (a b : Bytes) → some a ≡ some b → a ≡ b
        some-injective a b e = cc

        none-some : (q : Bytes) → none ≡ some q → ⊥
        none-some q e = cc

    prompt_password-Ends :
        (create : Bool) (s : Store w)
        → IsKept s₀ s
        → s.password ≡ none
        → Ends (λ p s'. s'.password ≡ some p) (prompt_password w create s)
    unfolding prompt_password keep_password
    prompt_password-Ends create s h empty =
        after-Ends (λ _ s'. s'.password ≡ none) (λ p s'. s'.password ≡ some p)
          (ask w (prompt_of w create) s) _ (ask-Ends (prompt_of w create) s h empty)
          λ p s₁ kept₁ empty₁.
            after-Ends
              (λ _ s'. (s'.password ≡ none) × (validate_password {Other = Other} p ≡ ok tt))
              (λ p s'. s'.password ≡ some p) (s₁, validate_password p) _
              (pure-Ends
                (λ _ s'. (s'.password ≡ none) × (validate_password {Other = Other} p ≡ ok tt)) s₁
                (validate_password p) kept₁ λ _ e. (empty₁, e))
              λ _ s₂ kept₂ checked.
                after-Ends (λ q s'. (s'.password ≡ none) × (q ≡ p)) (λ p s'. s'.password ≡ some p)
                  (confirm w p create s₂) (keep_password w)
                  (confirm-Ends p create s₂ kept₂ checked.0)
                  λ q s₃ kept₃ (empty₃, same). (
                    keep_password-IsKept q s₃ kept₃ empty₃ (
                        subst (λ x. validate_password {Other = Other} x ≡ ok tt) (sym same)
                          checked.1),
                    refl,
                  )

    cached_or_prompt-Ends :
        (create : Bool) (o : Option Bytes) (s : Store w)
        → s.password ≡ o
        → IsKept s₀ s
        → Ends (λ p s'. s'.password ≡ some p) (cached_or_prompt w create o s)
    unfolding cached_or_prompt
    cached_or_prompt-Ends create (some p) s e h = (h, e)
    cached_or_prompt-Ends create none s e h = prompt_password-Ends create s h e

    password-Ends :
        (create : Bool) (s : Store w)
        → IsKept s₀ s
        → Ends (λ p s'. s'.password ≡ some p) (password w create s)
    unfolding password
    password-Ends create s h = cached_or_prompt-Ends create s.password s refl h

    created_salt-Ends :
        (candidate : Bytes) (made : Bool) (s : Store w)
        → IsKept s₀ s
        → Ends (λ _ _. Unit) (created_salt w candidate made s)
    unfolding created_salt
    created_salt-Ends candidate true s h = (h, tt)
    created_salt-Ends candidate false s h =
        let (world, stored) = w.read_salt_again s.world in
        pure-Ends (λ _ _. Unit) (record s { world = world }) _ (moved s world h) (λ _ _. tt)

    create_kdf_salt-Ends : (s : Store w) → IsKept s₀ s → Ends (λ _ _. Unit) (create_kdf_salt w s)
    unfolding create_kdf_salt
    create_kdf_salt-Ends s h =
        let (world, candidate) = w.random_salt s.world in
        after-Ends (λ _ _. Unit) (λ _ _. Unit) (record s { world = world }, lift candidate) _
          (pure-Ends (λ _ _. Unit) (record s { world = world }) _ (moved s world h) (λ _ _. tt))
          λ candidate s' kept _.
            let (world', made) = w.create_salt candidate s'.world in
            after-Ends (λ _ _. Unit) (λ _ _. Unit) (record s' { world = world' }, lift made)
              (created_salt w candidate)
              (pure-Ends (λ _ _. Unit) (record s' { world = world' }) _ (moved s' world' kept)
                (λ _ _. tt))
              (λ made s'' kept' _. created_salt-Ends candidate made s'' kept')

    found_salt-Ends :
        (create : Bool) (stored : Option Bytes) (s : Store w)
        → IsKept s₀ s
        → Ends (λ _ _. Unit) (found_salt w create stored s)
    unfolding found_salt
    found_salt-Ends create (some stored) s h = pure-Ends (λ _ _. Unit) s _ h (λ _ _. tt)
    found_salt-Ends create none s h =
        after-Ends (λ _ _. Unit) (λ _ _. Unit) (s, ensure create salt_missing) _
          (pure-Ends (λ _ _. Unit) s _ h (λ _ _. tt)) (λ _ s' kept _. create_kdf_salt-Ends s' kept)

    load_salt-Ends :
        (create : Bool) (s : Store w)
        → IsKept s₀ s
        → Ends (λ _ _. Unit) (load_or_create_kdf_salt w create s)
    unfolding load_or_create_kdf_salt
    load_salt-Ends create s h =
        let (world, stored) = w.read_salt s.world in
        after-Ends (λ _ _. Unit) (λ _ _. Unit) (record s { world = world }, lift stored)
          (found_salt w create)
          (pure-Ends (λ _ _. Unit) (record s { world = world }) _ (moved s world h) (λ _ _. tt))
          (λ stored s' kept _. found_salt-Ends create stored s' kept)

    -- The key is the one in the cache, under the salt, and it is derived from the cached password.
    abbrev pub IsDerived : Bytes → Bytes → Store w → Type 0
    IsDerived salt key s =
        (p : Bytes) × (s.password ≡ some p)
        × (s.cached_key ≡ some (record { salt = salt; key = key }))
        × (derive_master_key w hash p salt ≡ ok key)

    keep_key-Ends :
        (p salt key : Bytes) (s : Store w)
        → IsKept s₀ s
        → s.password ≡ some p
        → derive_master_key w hash p salt ≡ ok key
        → Ends (IsDerived salt) (keep_key w hash salt key s)
    unfolding keep_key
    keep_key-Ends p salt key s h cached derived = (
      record {
        password_valid = h.password_valid;
        key_derived = λ k e. (p, cached, subst (Derives p) (some-injective _ k e) derived);
        stays = h.stays;
      },
      (p, cached, refl, derived),
    )
      where
        some-injective : (a b : CachedMasterKey) → some a ≡ some b → a ≡ b
        some-injective a b e = cc

    derive_key-Ends :
        (create : Bool) (salt : Bytes) (s : Store w)
        → IsKept s₀ s
        → Ends (IsDerived salt) (derive_key w hash create salt s)
    unfolding derive_key
    derive_key-Ends create salt s h =
        after-Ends (λ p s'. s'.password ≡ some p) (IsDerived salt) (password w create s) _
          (password-Ends create s h)
          λ p s' kept cached.
            after-Ends
              (λ key s''. (s''.password ≡ some p) × (derive_master_key w hash p salt ≡ ok key))
              (IsDerived salt) (s', derive_master_key w hash p salt) (keep_key w hash salt)
              (pure-Ends
                (λ key s''. (s''.password ≡ some p) × (derive_master_key w hash p salt ≡ ok key)) s'
                (derive_master_key w hash p salt) kept (λ key e. (cached, e)))
              (λ key s'' kept' at. keep_key-Ends p salt key s'' kept' at.0 at.1)

    key_for-Ends :
        (create : Bool) (salt : Bytes) (o : Option CachedMasterKey) (s : Store w)
        → s.cached_key ≡ o
        → IsKept s₀ s
        → Ends (IsDerived salt) (key_for w hash create salt o s)
    unfolding key_for
    key_for-Ends create salt none s e h = derive_key-Ends create salt s h
    key_for-Ends create salt (some k) s e h = elim (Bool-cases (bytes_eq k.salt salt)) [
      | inl same ↦
          let (p, cached, derived) = h.key_derived k e in
          let at : k.salt ≡ salt = (bytes_eq_iff k.salt salt).0 same in
          rw same (h, subst (λ x. IsDerived x k.key s) at (p, cached, e, derived))
      | inr other ↦ rw other (derive_key-Ends create salt s h)
    ]

    weakened :
        {A : Type 0} (Q R : A → Store w → Type 0)
        → ((a : A) (s : Store w) → Q a s → R a s)
        → (x : Store w × Result (KeyError Other) A) → Ends Q x
        → Ends R x
    weakened Q R f (s, ok a) (h, q) = (h, f a s q)
    weakened Q R f (s, err e) h = h

    returned :
        {A : Type 0} (x : Store w × Result (KeyError Other) A)
        → Ends (λ _ _. Unit) x
        → Ends (λ a _. x.1 ≡ ok a) x
    returned (s, ok a) h = (h.0, refl)
    returned (s, err e) h = h

  -- Whether or not it fails, loading the key keeps what the caches hold: an accepted password, which
  -- never changes once it is there, and a key that is derived from it. A key that is returned is in
  -- the cache, under the salt that was loaded or created, from which, with the cached password, it
  -- is derived.
  pub load_or_create-Ends :
      (create : Bool) (s : Store w)
      → IsKept s s
      → Ends s
          (λ key s'.
            (salt : Bytes) × ((load_or_create_kdf_salt w create s).1 ≡ ok salt)
            × IsDerived s salt key s')
          (load_or_create w hash create s)
  unfolding load_or_create
  load_or_create-Ends create s h =
      let Loaded : Bytes → Store w → Type 0 =
        λ salt _. (load_or_create_kdf_salt w create s).1 ≡ ok salt in
      let Found : Bytes → Store w → Type 0 =
        λ key s'. (salt : Bytes) × Loaded salt s' × IsDerived s salt key s' in
      after-Ends s Loaded Found (load_or_create_kdf_salt w create s) _
        (returned s (load_or_create_kdf_salt w create s) (load_salt-Ends s create s h))
        λ salt s' kept loaded.
          weakened s (IsDerived s salt) Found (λ key x d. (salt, loaded, d)) _
            (key_for-Ends s create salt s'.cached_key s' refl kept)
