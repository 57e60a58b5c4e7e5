-- ===== src/Account/Bundles/Examples.antt =====
-- An owner bundle for crates/session-sync-protocol/src/account.rs, with hashes and keys that are
-- the bytes themselves.
use attached.Common.{true, [], ◌∷◌, Bytes, bytes_eq, some, ok, err, ◌≡◌, refl}
use attached.Worker.Account.{UuidCrate, is_uuid_v7}
use attached.Account.Bundles.{Crypto, OwnerAccountBundle, invalid_bundle, owner_from_parts}

abbrev uuid : UuidCrate
uuid = record {
  is_sort_rand = λ _. true;
  is_rfc4122 = λ _. true;
  parse_str = λ s. some s;
  hyphenated = λ s. s;
}

abbrev crypto : Crypto
crypto = record { service_hash = λ t. t; verifying_key = λ k. 0 ∷ k }

abbrev b : Bytes → Bytes
b bytes = 1 ∷ bytes

abbrev owner : OwnerAccountBundle
owner = record {
  service_origin = b [];
  account_id = b [];
  publish_api_token = 2 ∷ [];
  download_api_token = 3 ∷ [];
  account_root_key = 4 ∷ [];
  consumer_identity_secret = 5 ∷ [];
}

test_owner :
    owner_from_parts uuid crypto (b []) (b []) (2 ∷ []) (3 ∷ []) (4 ∷ []) (5 ∷ []) ≡ ok owner
unfolding owner_from_parts is_uuid_v7 bytes_eq
test_owner = refl

test_same_tokens :
    owner_from_parts uuid crypto (b []) (b []) (2 ∷ []) (2 ∷ []) (4 ∷ []) (5 ∷ [])
    ≡ err invalid_bundle
unfolding owner_from_parts is_uuid_v7 bytes_eq
test_same_tokens = refl
