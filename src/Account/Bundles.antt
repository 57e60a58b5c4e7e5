-- ===== src/Account/Bundles.antt =====
-- crates/session-sync-protocol/src/account.rs: owner bundles, and the bundles of one scope that are
-- made of them.
pub mod Scoping
mod Examples
use attached.Common.{
  Bool, true, false, not, ◌||◌, if◌then◌else◌, Bytes, bytes_eq, Option, none, some, Result, ok, err,
}
use attached.Worker.Account.{UuidCrate, is_uuid_v7, ApiKeyScope, publish, download}

pub data AccountError : Type 0 where
  invalid_identifier invalid_bearer invalid_authorization invalid_origin invalid_bundle :
      AccountError

-- What the crates sha2 and ed25519-dalek compute.
pub record Crypto : Type 0 where
  -- `ApiToken::service_hash`
  pub service_hash : Bytes → Bytes
  -- the public key of a signing key
  pub verifying_key : Bytes → Bytes

pub record ScopedAccountBundle : Type 0 where
  pub service_origin : Bytes
  pub account_id : Bytes
  pub api_key_scope : ApiKeyScope
  pub api_token : Bytes
  pub account_root_key : Bytes
  pub authorized_consumer_identity : Option Bytes
  pub consumer_identity_secret : Option Bytes

pub record OwnerAccountBundle : Type 0 where
  pub service_origin : Bytes
  pub account_id : Bytes
  pub publish_api_token : Bytes
  pub download_api_token : Bytes
  pub account_root_key : Bytes
  pub consumer_identity_secret : Bytes

-- `matches!(api_key_scope, ApiKeyScope::Publish) != identity.is_some()`
abbrev pub identity_mismatch : ApiKeyScope → Option Bytes → Bool
identity_mismatch publish none = true
identity_mismatch publish (some _) = false
identity_mismatch download none = false
identity_mismatch download (some _) = true

module _ (uuid : UuidCrate) where
  unfoldable pub scoped_from_parts :
      Bytes
      → Bytes
      → ApiKeyScope
      → Bytes
      → Bytes
      → Option Bytes
      → Result AccountError ScopedAccountBundle
  scoped_from_parts service_origin account_id api_key_scope api_token account_root_key
        authorized_consumer_identity =
      if not (is_uuid_v7 uuid account_id)
        || identity_mismatch api_key_scope authorized_consumer_identity
      then err invalid_bundle
      else ok (record {
        service_origin = service_origin;
        account_id = account_id;
        api_key_scope = api_key_scope;
        api_token = api_token;
        account_root_key = account_root_key;
        authorized_consumer_identity = authorized_consumer_identity;
        consumer_identity_secret = none;
      })

  unfoldable pub from_download_parts :
      Bytes → Bytes → Bytes → Bytes → Bytes → Result AccountError ScopedAccountBundle
  from_download_parts service_origin account_id api_token account_root_key
        consumer_identity_secret =
      if not (is_uuid_v7 uuid account_id)
      then err invalid_bundle
      else ok (record {
        service_origin = service_origin;
        account_id = account_id;
        api_key_scope = download;
        api_token = api_token;
        account_root_key = account_root_key;
        authorized_consumer_identity = none;
        consumer_identity_secret = some consumer_identity_secret;
      })

  unfoldable pub owner_from_parts :
      Crypto
      → Bytes
      → Bytes
      → Bytes
      → Bytes
      → Bytes
      → Bytes
      → Result AccountError OwnerAccountBundle
  owner_from_parts crypto service_origin account_id publish_api_token download_api_token
        account_root_key consumer_identity_secret =
      if not (is_uuid_v7 uuid account_id)
        || bytes_eq (crypto.service_hash publish_api_token) (crypto.service_hash download_api_token)
      then err invalid_bundle
      else ok (record {
        service_origin = service_origin;
        account_id = account_id;
        publish_api_token = publish_api_token;
        download_api_token = download_api_token;
        account_root_key = account_root_key;
        consumer_identity_secret = consumer_identity_secret;
      })

-- `scoped`, and `into_scoped`, which moves what `scoped` copies.
unfoldable pub scoped : Crypto → OwnerAccountBundle → ApiKeyScope → ScopedAccountBundle
scoped crypto bundle publish = record {
  service_origin = bundle.service_origin;
  account_id = bundle.account_id;
  api_key_scope = publish;
  api_token = bundle.publish_api_token;
  account_root_key = bundle.account_root_key;
  authorized_consumer_identity = some (crypto.verifying_key bundle.consumer_identity_secret);
  consumer_identity_secret = none;
}
scoped crypto bundle download = record {
  service_origin = bundle.service_origin;
  account_id = bundle.account_id;
  api_key_scope = download;
  api_token = bundle.download_api_token;
  account_root_key = bundle.account_root_key;
  authorized_consumer_identity = none;
  consumer_identity_secret = some bundle.consumer_identity_secret;
}
