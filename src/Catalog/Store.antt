-- ===== src/Catalog/Store.antt =====
-- crates/cli/src/sync/state_catalog.rs: the catalog in its encrypted file.
pub mod Writing
pub mod Stored
mod Examples
use attached.Common.{
  ℕ, ◌*◌, Bool, true, false, not, ◌&&◌, leb, if◌then◌else◌, List, [], ◌∷◌, length, Option, none,
  some, Bytes, Result, ok, err, ◌>>=◌, ◌>>◌, ensure,
}
use attached.LocalEncryption.{
  SecretError, Aead, sync_catalog, stored_limit, is_envelope, has_envelope_shape, seal, open_secret,
}
use attached.Descriptor.Outside.{Outside}
use attached.Catalog.Model.{
  CatalogError, invalid_catalog, exceeds_limit, concurrently_installed, state_unavailable,
  AccountCredentials, Catalog, empty, validate_catalog,
}
use attached.Catalog.Merge.{Baseline, reconciled}

abbrev pub max_catalog_bytes : ℕ
max_catalog_bytes = 16 * 1024 * 1024

-- The file of the catalog in its directory, the master key and the system's randomness, and
-- the crate serde_json.
pub record Files (o : Outside) : Type 1 where
  pub W : Type 0
  pub read_secret_optional_bounded : ℕ → W → W × Result CatalogError (Option Bytes)
  pub atomic_replace : Bytes → W → W × Result CatalogError (Unit {0})
  pub create_noclobber : Bytes → W → W × Result CatalogError Bool
  pub load_or_create : Bool → W → W × Result CatalogError Bytes
  pub random_nonce : W → W × Option Bytes
  pub to_writer : Catalog o → Option Bytes
  pub from_slice : Bytes → Option (Catalog o)

-- An error of the encryption.
abbrev pub secret {ℓ} : {A : Type ℓ} → Result SecretError A → Result CatalogError A
secret (ok a) = ok a
secret (err e) = err state_unavailable

module _ {o : Outside} (files : Files o) (aead : Aead) where
  open files use {
    W, read_secret_optional_bounded, atomic_replace, create_noclobber, load_or_create, random_nonce,
    to_writer, from_slice,
  }

  -- `?` on a step
  unfoldable pub and_then :
      {A B : Type 0}
      → W × Result CatalogError A
      → (A → W → W × Result CatalogError B)
      → W × Result CatalogError B
  and_then (w, ok a) f = f a w
  and_then (w, err e) f = (w, err e)

  unfoldable pub present : {A : Type 0} → Option A → CatalogError → Result CatalogError A
  present none e = err e
  present (some a) e = ok a

  unfoldable pub encode_catalog : Catalog o → Result CatalogError Bytes
  encode_catalog catalog = do
    encoded ← present (to_writer catalog) invalid_catalog
    ensure (leb (length encoded) max_catalog_bytes) exceeds_limit
    ok encoded

  unfoldable pub sealed : Bytes → Bytes → W × Option Bytes → W × Result CatalogError Bytes
  sealed key plaintext (w, random) =
      (w, secret (seal aead random key sync_catalog plaintext max_catalog_bytes))

  unfoldable pub installed : W × Result CatalogError Bool → W × Result CatalogError (Unit {0})
  installed (w, ok true) = (w, ok tt)
  installed (w, ok false) = (w, err concurrently_installed)
  installed (w, err e) = (w, err e)

  unfoldable pub store_encrypted : Bool → Bytes → W → W × Result CatalogError (Unit {0})
  store_encrypted true encrypted w = atomic_replace encrypted w
  store_encrypted false encrypted w = installed (create_noclobber encrypted w)

  unfoldable pub write_catalog : Catalog o → Bool → W → W × Result CatalogError (Unit {0})
  write_catalog catalog replace w =
      and_then (w, encode_catalog catalog)
        λ plaintext w.
          and_then (load_or_create true w)
            λ key w. and_then (sealed key plaintext (random_nonce w)) (store_encrypted replace)

  -- The text of the stored bytes: an envelope is opened, a legacy file is the text itself.
  unfoldable pub plaintext_of : Bool → Bytes → W → W × Result CatalogError Bytes
  plaintext_of true stored w =
      and_then (load_or_create false w)
        λ key w. (w, secret (open_secret aead key sync_catalog stored max_catalog_bytes))
  plaintext_of false stored w = (w, ok stored)

  unfoldable pub parse_catalog : AccountCredentials → Bytes → Result CatalogError (Catalog o)
  parse_catalog account plaintext = do
    catalog ← present (from_slice plaintext) invalid_catalog
    validate_catalog o catalog account
    ok catalog

  -- A legacy file is encrypted.
  unfoldable pub migrate : Bool → Bytes → W → W × Result CatalogError (Unit {0})
  migrate false plaintext w = (w, ok tt)
  migrate true plaintext w =
      and_then (load_or_create true w)
        λ key w. and_then (sealed key plaintext (random_nonce w)) atomic_replace

  unfoldable pub read_stored :
      AccountCredentials → Bool → Option Bytes → W → W × Result CatalogError (Option (Catalog o))
  read_stored account migrate_legacy none w = (w, ok none)
  read_stored account migrate_legacy (some stored) w =
      and_then (plaintext_of (is_envelope stored) stored w) λ plaintext w.
        and_then (w, parse_catalog account plaintext)
          λ catalog w.
            and_then (migrate (migrate_legacy && not (is_envelope stored)) plaintext w)
              λ _ w. (w, ok (some catalog))

  unfoldable pub read_catalog :
      AccountCredentials → Bool → W → W × Result CatalogError (Option (Catalog o))
  read_catalog account migrate_legacy w =
      and_then (read_secret_optional_bounded (stored_limit max_catalog_bytes) w)
        (read_stored account migrate_legacy)

  -- `unwrap_or_else(|| Catalog::empty(account))`
  unfoldable pub or_empty : AccountCredentials → Option (Catalog o) → Catalog o
  or_empty account none = empty o account
  or_empty account (some catalog) = catalog

  unfoldable pub load : AccountCredentials → W → W × Result CatalogError (Catalog o)
  load account w =
      and_then (read_catalog account true w) λ catalog w. (w, ok (or_empty account catalog))

  unfoldable pub is_corrupt : Option Bytes → Bool
  is_corrupt none = false
  is_corrupt (some stored) = not (has_envelope_shape stored) && no_catalog (from_slice stored)
    where
      no_catalog : Option (Catalog o) → Bool
      no_catalog none = true
      no_catalog (some catalog) = false

  unfoldable pub has_corrupt_legacy_catalog : W → W × Result CatalogError Bool
  has_corrupt_legacy_catalog w =
      and_then (read_secret_optional_bounded (stored_limit max_catalog_bytes) w)
        λ stored w. (w, ok (is_corrupt stored))

  unfoldable pub is_stored : Option (Catalog o) → Bool
  is_stored none = false
  is_stored (some catalog) = true

  -- The current catalog, and whether a file exists; a corrupt legacy file counts as no catalog.
  unfoldable pub current_or_corrupt :
      W × Result CatalogError (Option (Catalog o))
      → W × Result CatalogError (Option (Catalog o) × Bool)
  current_or_corrupt (w, ok current) = (w, ok (current, is_stored current))
  current_or_corrupt (w, err e) =
      and_then (has_corrupt_legacy_catalog w)
        λ corrupt w. (w, if corrupt then ok (none, true) else err e)

  unfoldable pub save_reconciled :
      AccountCredentials
      → Baseline
      → Catalog o
      → Option (Catalog o) × Bool
      → W
      → W × Result CatalogError (Unit {0})
  save_reconciled account baseline refreshed (current, existed) w =
      and_then (w, reconciled account baseline (or_empty account current) refreshed)
        λ next w. write_catalog next existed w

  unfoldable pub save_refresh :
      AccountCredentials → Baseline → Catalog o → W → W × Result CatalogError (Unit {0})
  save_refresh account baseline refreshed w =
      and_then (w, validate_catalog o refreshed account)
        λ _ w.
          and_then (current_or_corrupt (read_catalog account false w))
            (save_reconciled account baseline refreshed)
