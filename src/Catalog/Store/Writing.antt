-- ===== src/Catalog/Store/Writing.antt =====
-- crates/cli/src/sync/state_catalog.rs: what is known of the file that write_catalog leaves.
use mathlib.Core.Path.{subst}
use attached.Common.{
  ℕ, ◌≤◌, Bool, true, false, leb, length, Option, none, some, Bytes, Result, ok, err, ensure,
  bind-eq-ok, ◌≡◌, refl, ap, ◌∙◌,
}
use attached.LocalEncryption.{SecretError, plaintext_exceeds_limit, Aead, sync_catalog, seal}
use attached.Descriptor.Outside.{Outside}
use attached.Catalog.Model.{
  CatalogError, invalid_catalog, exceeds_limit, AccountCredentials, Catalog, validate_catalog,
}
use attached.Catalog.Store.{
  max_catalog_bytes, Files, secret, and_then, present, encode_catalog, sealed, installed,
  store_encrypted, write_catalog,
}

-- What the file system, the keys and serde_json document: an installed file is read back, the master
-- key stays available, nonces have 12 bytes, and a valid catalog is parsed from its text.
pub record FileLaws {o : Outside} (files : Files o) : Type 1 where
  -- The master key is available
  pub IsUnlocked : Bytes → files.W → Type 0
  -- and the file has the bytes.
  pub Holds : Bytes → Bytes → files.W → Type 0
  pub unlocked :
      (create : Bool) (w w' : files.W) (key : Bytes)
      → files.load_or_create create w ≡ (w', ok key)
      → IsUnlocked key w'
  pub drawn :
      (w : files.W) (key : Bytes) → IsUnlocked key w → IsUnlocked key (files.random_nonce w).0
  pub nonce_len :
      (w : files.W) (nonce : Bytes) → (files.random_nonce w).1 ≡ some nonce → length nonce ≡ 12
  pub replaced :
      (w w' : files.W) (key bytes : Bytes)
      → IsUnlocked key w
      → files.atomic_replace bytes w ≡ (w', ok tt)
      → Holds key bytes w'
  pub created :
      (w w' : files.W) (key bytes : Bytes)
      → IsUnlocked key w
      → files.create_noclobber bytes w ≡ (w', ok true)
      → Holds key bytes w'
  pub reads :
      (w : files.W) (key bytes : Bytes) (limit : ℕ)
      → Holds key bytes w
      → length bytes ≤ limit
      → (w' : files.W) × (files.read_secret_optional_bounded limit w ≡ (w', ok (some bytes)))
        × Holds key bytes w'
  pub opens :
      (w : files.W) (key bytes : Bytes)
      → Holds key bytes w
      → (w' : files.W) × (files.load_or_create false w ≡ (w', ok key))
  pub parses :
      (account : AccountCredentials) (catalog : Catalog o) (text : Bytes)
      → validate_catalog o catalog account ≡ ok tt
      → files.to_writer catalog ≡ some text
      → files.from_slice text ≡ some catalog

module _ {o : Outside} {files : Files o} (laws : FileLaws files) (aead : Aead) where
  open files use {W, to_writer, random_nonce, create_noclobber, atomic_replace}

  pub and_then-eq-ok :
      {A B : Type 0} (x : W × Result CatalogError A) (f : A → W → W × Result CatalogError B)
      (w' : W) (b : B)
      → and_then files aead x f ≡ (w', ok b)
      → (w : W) × (a : A) × (x ≡ (w, ok a)) × (f a w ≡ (w', ok b))
  unfolding and_then
  and_then-eq-ok (w, ok a) f w' b h = (w, a, refl, h)
  and_then-eq-ok (w, err e) f w' b h = absurd cc

  -- The file has an envelope of the catalog's text.
  pub record HasCatalog (catalog : Catalog o) (w : W) : Type 0 where
    pub key : Bytes
    pub bytes : Bytes
    pub text : Bytes
    pub nonce : Bytes
    pub written : to_writer catalog ≡ some text
    pub twelve : length nonce ≡ 12
    pub sealed_eq : seal aead (some nonce) key sync_catalog text max_catalog_bytes ≡ ok bytes
    pub holds : laws.Holds key bytes w

  present-eq-ok :
      {A : Type 0} (x : Option A) (a : A) → present files aead x invalid_catalog ≡ ok a → x ≡ some a
  unfolding present
  present-eq-ok none a h = absurd cc
  present-eq-ok (some b) a h = cc

  encode_catalog-eq-ok :
      (catalog : Catalog o) (text : Bytes)
      → encode_catalog files aead catalog ≡ ok text
      → to_writer catalog ≡ some text
  unfolding encode_catalog
  encode_catalog-eq-ok catalog text h =
      let (encoded, found, h₁) =
        bind-eq-ok (present files aead (to_writer catalog) invalid_catalog) _ h in
      let (_, _, h₂) =
        bind-eq-ok (ensure (leb (length encoded) max_catalog_bytes) exceeds_limit) _ h₁ in
      present-eq-ok (to_writer catalog) encoded found ∙ ap some (ok-injective encoded text h₂)
    where
      ok-injective : (a b : Bytes) → Path (Result CatalogError Bytes) (ok a) (ok b) → a ≡ b
      ok-injective a b e = cc

  secret-eq-ok : (x : Result SecretError Bytes) (b : Bytes) → secret x ≡ ok b → x ≡ ok b
  secret-eq-ok (ok c) b h = cc
  secret-eq-ok (err e) b h = absurd cc

  seal-none :
      (key text bytes : Bytes)
      → seal aead none key sync_catalog text max_catalog_bytes ≡ ok bytes
      → ⊥
  unfolding seal
  seal-none key text bytes h =
      let (_, _, h₁) =
        bind-eq-ok (ensure (leb (length text) max_catalog_bytes) plaintext_exceeds_limit) _ h in
      cc

  installed-true :
      (v : W) {w' : W}
      → installed files aead (v, ok true) ≡ (w', ok tt)
      → Path (W × Result CatalogError (Unit {0})) (v, ok tt) (w', ok tt)
  unfolding installed
  installed-true v h = h

  installed-false : (v : W) {w' : W} → installed files aead (v, ok false) ≡ (w', ok tt) → ⊥
  unfolding installed
  installed-false v h = absurd cc

  installed-err :
      (v : W) (e : CatalogError) {w' : W} → installed files aead (v, err e) ≡ (w', ok tt) → ⊥
  unfolding installed
  installed-err v e h = absurd cc

  stored-true :
      (bytes : Bytes) (w : W) {w' : W}
      → store_encrypted files aead true bytes w ≡ (w', ok tt)
      → atomic_replace bytes w ≡ (w', ok tt)
  unfolding store_encrypted
  stored-true bytes w h = h

  stored-false :
      (bytes : Bytes) (w : W) {w' : W}
      → store_encrypted files aead false bytes w ≡ (w', ok tt)
      → installed files aead (create_noclobber bytes w) ≡ (w', ok tt)
  unfolding store_encrypted
  stored-false bytes w h = h

  sealed-eq-ok :
      (key text : Bytes) (x : W × Option Bytes) (w' : W) (bytes : Bytes)
      → sealed files aead key text x ≡ (w', ok bytes)
      → (nonce : Bytes) × (x ≡ (w', some nonce))
        × (seal aead (some nonce) key sync_catalog text max_catalog_bytes ≡ ok bytes)
  unfolding sealed
  sealed-eq-ok key text (w, none) w' bytes h =
      absurd (no_nonce (secret-eq-ok _ bytes (ap (λ x. x.1) h)))
    where
      no_nonce : seal aead none key sync_catalog text max_catalog_bytes ≡ ok bytes → ⊥
      no_nonce e = seal-none key text bytes e
  sealed-eq-ok key text (w, some nonce) w' bytes h =
      (nonce, (λ i. ((h i).0, some nonce)), secret-eq-ok _ bytes (ap (λ x. x.1) h))

  pub write-HasCatalog :
      (catalog : Catalog o) (replace : Bool) (w w' : W)
      → write_catalog files aead catalog replace w ≡ (w', ok tt)
      → HasCatalog catalog w'
  unfolding write_catalog
  write-HasCatalog catalog replace w w' h =
      let (w₁, text, encoded, h₁) =
        and_then-eq-ok (w, encode_catalog files aead catalog) _ w' tt h in
      let (w₂, key, unlocked, h₂) = and_then-eq-ok (files.load_or_create true w₁) _ w' tt h₁ in
      let (w₃, bytes, made, h₃) =
        and_then-eq-ok (sealed files aead key text (random_nonce w₂)) _ w' tt h₂ in
      let (nonce, drew, seals) = sealed-eq-ok key text (random_nonce w₂) w₃ bytes made in
      let available =
        subst (laws.IsUnlocked key) (ap (λ x. x.0) drew)
          (laws.drawn w₂ key (laws.unlocked true w₁ w₂ key unlocked)) in
      record {
        key = key;
        bytes = bytes;
        text = text;
        nonce = nonce;
        written = encode_catalog-eq-ok catalog text (ap (λ x. x.1) encoded);
        twelve = laws.nonce_len w₂ nonce (ap (λ x. x.1) drew);
        sealed_eq = seals;
        holds = installs replace w₃ key bytes available h₃;
      }
    where
      by_answer :
          (w : W) (key bytes : Bytes) (x : W × Result CatalogError Bool)
          → create_noclobber bytes w ≡ x
          → laws.IsUnlocked key w
          → installed files aead x ≡ (w', ok tt)
          → laws.Holds key bytes w'
      by_answer w key bytes (v, ok true) e u k =
          subst (laws.Holds key bytes) (ap (λ x. x.0) (installed-true v k))
            (laws.created w v key bytes u e)
      by_answer w key bytes (v, ok false) e u k = absurd (installed-false v k)
      by_answer w key bytes (v, err f) e u k = absurd (installed-err v f k)

      installs :
          (replace : Bool) (w : W) (key bytes : Bytes)
          → laws.IsUnlocked key w
          → store_encrypted files aead replace bytes w ≡ (w', ok tt)
          → laws.Holds key bytes w'
      installs true w key bytes u k = laws.replaced w w' key bytes u (stored-true bytes w k)
      installs false w key bytes u k =
          by_answer w key bytes (create_noclobber bytes w) refl u (stored-false bytes w k)
