-- ===== src/Catalog/Store/Stored.antt =====
-- crates/cli/src/sync/state_catalog.rs: the catalog that was saved is the one that is loaded.
use mathlib.Core.Path.{subst}
use attached.Common.{
  ◌^◌, ◌<◌, Bool, true, false, not, ◌&&◌, Option, some, Bytes, Result, ok, bind-eq-ok, ◌≡◌, refl,
  sym, ap, arith,
}
use attached.LocalEncryption.{Aead, sync_catalog, stored_limit, open_secret}
use attached.LocalEncryption.Opening.{AeadLaws, open_secret_iff_seal, seal_shape}
use attached.Descriptor.Outside.{Outside}
use attached.Catalog.Model.{CatalogError, AccountCredentials, Catalog, empty, validate_catalog}
use attached.Catalog.Merge.{Baseline, next_generation, reconcile, reconciled}
use attached.Catalog.Store.{
  max_catalog_bytes, Files, and_then, present, plaintext_of, parse_catalog, migrate, read_stored,
  read_catalog, or_empty, load, current_or_corrupt, save_reconciled, save_refresh,
}
use attached.Catalog.Store.Writing.{FileLaws, HasCatalog, and_then-eq-ok, write-HasCatalog}

module _ {o : Outside} {files : Files o} {aead : Aead} (laws : FileLaws files)
    (aead_laws : AeadLaws aead) where
  open files use {W, to_writer, random_nonce, create_noclobber, atomic_replace}

  -- An envelope is not migrated.
  not_migrated : (b : Bool) → (b && not true) ≡ false
  not_migrated true = refl
  not_migrated false = refl

  catalog_fits : stored_limit max_catalog_bytes < 2 ^ 64
  unfolding stored_limit
  catalog_fits = omega arith

  parse_catalog-valid :
      (account : AccountCredentials) (catalog : Catalog o) (text : Bytes)
      → validate_catalog o catalog account ≡ ok tt
      → to_writer catalog ≡ some text
      → parse_catalog files aead account text ≡ ok catalog
  unfolding parse_catalog present
  parse_catalog-valid account catalog text valid written =
      let parsed = laws.parses account catalog text valid written in rw (parsed, valid) refl

  read-HasCatalog :
      (account : AccountCredentials) (catalog : Catalog o) (migrates : Bool) (w : W)
      → validate_catalog o catalog account ≡ ok tt
      → HasCatalog laws aead catalog w
      → (read_catalog files aead account migrates w).1 ≡ ok (some catalog)
  unfolding read_catalog and_then read_stored plaintext_of migrate
  read-HasCatalog account catalog migrates w valid c =
      let (shape, short) =
        seal_shape aead_laws c.key sync_catalog max_catalog_bytes c.nonce c.text c.bytes c.twelve
          c.sealed_eq in
      let (w₁, reads, holds) =
        laws.reads w c.key c.bytes (stored_limit max_catalog_bytes) c.holds short in
      let (w₂, opens) = laws.opens w₁ c.key c.bytes holds in
      let opened : open_secret aead c.key sync_catalog c.bytes max_catalog_bytes ≡ ok c.text =
        (open_secret_iff_seal aead_laws c.key sync_catalog max_catalog_bytes c.bytes c.text
            catalog_fits).1
          (c.nonce, c.twelve, c.sealed_eq) in
      let parsed = parse_catalog-valid account catalog c.text valid c.written in
      rw (reads, shape, opens, opened, parsed, not_migrated migrates) refl

  load-HasCatalog :
      (account : AccountCredentials) (catalog : Catalog o) (w : W)
      → validate_catalog o catalog account ≡ ok tt
      → HasCatalog laws aead catalog w
      → (load files aead account w).1 ≡ ok catalog
  unfolding load and_then or_empty
  load-HasCatalog account catalog w valid c =
      by_read (read_catalog files aead account true w)
        (read-HasCatalog account catalog true w valid c)
    where
      by_read :
          (x : W × Result CatalogError (Option (Catalog o)))
          → x.1 ≡ ok (some catalog)
          → (and_then files aead x λ found w. (w, ok (or_empty files aead account found))).1
            ≡ ok catalog
      by_read (v, r) e = rw e refl

  reconciled-valid :
      (account : AccountCredentials) (baseline : Baseline) (current refreshed next : Catalog o)
      → reconciled account baseline current refreshed ≡ ok next
      → validate_catalog o next account ≡ ok tt
  unfolding reconciled
  reconciled-valid account baseline current refreshed next h =
      let (g, _, h₁) = bind-eq-ok (next_generation current.generation) _ h in
      let catalog = record (empty o account) {
        generation = g;
        records = reconcile baseline current refreshed;
      } in
      let (_, checked, h₂) = bind-eq-ok (validate_catalog o catalog account) _ h₁ in
      let same : catalog ≡ next = ok-injective catalog next h₂ in
      subst (λ c. validate_catalog o c account ≡ ok tt) same checked
    where
      ok-injective :
          (a b : Catalog o) → Path (Result CatalogError (Catalog o)) (ok a) (ok b) → a ≡ b
      ok-injective a b e = cc

  -- When a refresh has been saved, what is loaded next is the reconciled catalog: the refresh has
  -- been reconciled with the catalog that was read, or with the empty one where no file, or a corrupt
  -- legacy file, was found.
  pub save_refresh-load :
      (account : AccountCredentials) (baseline : Baseline) (refreshed : Catalog o) (w w' : W)
      → save_refresh files aead account baseline refreshed w ≡ (w', ok tt)
      → (found : Option (Catalog o) × Bool) × (next : Catalog o) × ((current_or_corrupt files aead
            (read_catalog files aead account false w)).1
          ≡ ok found)
        × (reconciled account baseline (or_empty files aead account found.0) refreshed ≡ ok next)
        × ((load files aead account w').1 ≡ ok next)
  unfolding save_refresh save_reconciled
  save_refresh-load account baseline refreshed w w' h =
      let (w₁, _, valid, h₁) =
        and_then-eq-ok laws aead (w, validate_catalog o refreshed account) _ w' tt h in
      let (w₂, found, finds, h₂) =
        and_then-eq-ok laws aead
          (current_or_corrupt files aead (read_catalog files aead account false w))
          (save_reconciled files aead account baseline refreshed) w' tt
          (subst
            (λ v.
              and_then files aead
                (current_or_corrupt files aead (read_catalog files aead account false v))
                (save_reconciled files aead account baseline refreshed)
              ≡ (w', ok tt))
            (ap (λ x. x.0) (sym valid)) h₁) in
      let (w₃, next, made, h₃) =
        and_then-eq-ok laws aead
          (w₂, reconciled account baseline (or_empty files aead account found.0) refreshed) _ w' tt
          h₂ in
      let is_next = ap (λ x. x.1) made in
      (
        found,
        next,
        ap (λ x. x.1) finds,
        is_next,
        load-HasCatalog account next w'
            (reconciled-valid account baseline (or_empty files aead account found.0) refreshed next
              is_next)
            (write-HasCatalog laws aead next found.1 w₃ w' h₃),
      )
