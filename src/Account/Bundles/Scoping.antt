-- ===== src/Account/Bundles/Scoping.antt =====
-- crates/session-sync-protocol/src/account.rs: what an owner hands out for a scope.
use attached.Common.{
  true, false, Bytes, bytes_eq, bytes_eq_iff, some, ok, ◌≡◌, ◌≢◌, sym, ap, ◌∙◌, arith,
}
use attached.Worker.Account.{UuidCrate, is_uuid_v7, publish, download}
use attached.Account.Bundles.{
  Crypto, OwnerAccountBundle, scoped_from_parts, from_download_parts, owner_from_parts, scoped,
}

-- What an owner bundle that was accepted hands out for each scope is the bundle that the
-- constructor of that scope accepts, with the token of that scope, and the two tokens have
-- different hashes.
pub scoped_bundles :
    (uuid : UuidCrate) (crypto : Crypto) (origin id p d root secret : Bytes)
    (owner : OwnerAccountBundle)
    → owner_from_parts uuid crypto origin id p d root secret ≡ ok owner
    → (scoped_from_parts uuid origin id publish p root (some (crypto.verifying_key secret))
        ≡ ok (scoped crypto owner publish))
      × (from_download_parts uuid origin id d root secret ≡ ok (scoped crypto owner download))
      × (crypto.service_hash (scoped crypto owner publish).api_token
          ≢ crypto.service_hash (scoped crypto owner download).api_token)
unfolding owner_from_parts scoped_from_parts from_download_parts scoped
scoped_bundles uuid crypto origin id p d root secret owner h =
    let valid : is_uuid_v7 uuid id ≡ true = ground arith in
    let differ : bytes_eq (crypto.service_hash p) (crypto.service_hash d) ≡ false = ground arith in
    let same : ◌≡◌ {A = OwnerAccountBundle}
        (record {
          service_origin = origin;
          account_id = id;
          publish_api_token = p;
          download_api_token = d;
          account_root_key = root;
          consumer_identity_secret = secret;
        })
        owner =
      ground arith in
    (
      rw valid (ap (λ (o : OwnerAccountBundle). ok (scoped crypto o publish)) same),
      rw valid (ap (λ (o : OwnerAccountBundle). ok (scoped crypto o download)) same),
      λ e.
          let equal : crypto.service_hash p ≡ crypto.service_hash d =
            ap (λ (o : OwnerAccountBundle). crypto.service_hash o.publish_api_token) same
            ∙ e
            ∙ ap (λ (o : OwnerAccountBundle). crypto.service_hash o.download_api_token)
                (sym same) in
          cc (differ, (bytes_eq_iff (crypto.service_hash p) (crypto.service_hash d)).1 equal),
    )
