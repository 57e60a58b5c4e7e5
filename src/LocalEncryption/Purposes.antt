-- ===== src/LocalEncryption/Purposes.antt =====
-- crates/cli/src/local_encryption.rs: no two purposes share their associated data.

use attached.Common.{
  if◌then◌else◌, ℕ, ◌==◌, get_elem?, Option, none, some, Bytes, ◌≡◌, refl, sym, ap, ◌∙◌,
}
use attached.LocalEncryption.{
  Purpose, admin_identity, sync_account, sync_catalog, ssh_host, aad, associated_data,
}

-- The purpose of some associated data, read off the byte in which the four differ.
abbrev purpose_at : Option ℕ → Purpose
purpose_at none = admin_identity
purpose_at (some b) =
    if b == b'a'
    then sync_account
    else if b == b'c'
    then sync_catalog
    else if b == b'o'
    then ssh_host
    else admin_identity

purpose_at-associated_data :
    (purpose : Purpose) → purpose_at (get_elem? (associated_data purpose) 39) ≡ purpose
unfolding associated_data aad
purpose_at-associated_data admin_identity = refl
purpose_at-associated_data sync_account = refl
purpose_at-associated_data sync_catalog = refl
purpose_at-associated_data ssh_host = refl

-- Two purposes with the same associated data are the same.
pub associated_data_binds : (a b : Purpose) → associated_data a ≡ associated_data b → a ≡ b
associated_data_binds a b h =
    sym (purpose_at-associated_data a)
    ∙ ap (λ (x : Bytes). purpose_at (get_elem? x 39)) h
    ∙ purpose_at-associated_data b
