-- ===== src/Catalog/Refresh/Current.antt =====
-- crates/session-sync-protocol/src/crypto.rs, as refresh.rs uses it: the time of what it opens.
use mathlib.Core.Path.{subst}
use attached.Common.{
  Bool, true, false, not, ◌||◌, ltb, length, Bytes, Result, ok, ensure, bind-eq-ok, ensure-eq-ok,
  ◌≡◌, arith,
}
use attached.Api.Envelope.{max_ciphertext_bytes}
use attached.Descriptor.Outside.{Outside}
use attached.Descriptor.Cbor.{HostAccessError, limit, decryption, invalid_field, expired}
use attached.Descriptor.Model.{HostAccessDescriptor, ok_or}
use attached.Descriptor.Decoding.{decode_host_access_descriptor}
use attached.Sealing.{
  Envelope as CryptoEnvelope, Cipher, CheckedAdd, VerificationContext, envelope_aad,
  derive_host_access_descriptor_key, is_out_of_time, open_host_access_descriptor,
}

-- A descriptor that opens has not expired.
pub open-current :
    {o : Outside} (cipher : Cipher) (checked_add : CheckedAdd o) (envelope : CryptoEnvelope)
    (root : Bytes) (context : VerificationContext o) (d : HostAccessDescriptor o)
    → open_host_access_descriptor o cipher checked_add envelope root context ≡ ok d
    → o.is_ge context.now d.expires_at ≡ false
unfolding open_host_access_descriptor is_out_of_time
open-current {o} cipher checked_add envelope root context d h =
    let aad = envelope_aad context.account_id context.record_id in
    let (_, _, h₁) =
      bind-eq-ok (ensure (not (ltb max_ciphertext_bytes (length envelope.ciphertext))) limit) _ h in
    let (key, _, h₂) =
      bind-eq-ok (derive_host_access_descriptor_key cipher root context.account_id) _ h₁ in
    let (plaintext, _, h₃) =
      bind-eq-ok
        (ok_or (cipher.decrypt_in_place key envelope.nonce aad envelope.ciphertext) decryption) _
        h₂ in
    let (descriptor, _, h₄) = bind-eq-ok (decode_host_access_descriptor o plaintext) _ h₃ in
    let (latest, _, h₅) = bind-eq-ok (ok_or (checked_add context.now 60) invalid_field) _ h₄ in
    let (_, current, h₆) =
      bind-eq-ok (ensure (not (is_out_of_time o cipher descriptor latest context.now)) expired) _
        h₅ in
    subst (λ (x : HostAccessDescriptor o). o.is_ge context.now x.expires_at ≡ false)
      (ok-injective descriptor d h₆)
      (late (o.is_ge latest descriptor.issued_at) (o.is_ge context.now descriptor.expires_at)
        (ensure-eq-ok _ expired current))
  where
    ok-injective :
        (a b : HostAccessDescriptor o)
        → Path (Result HostAccessError (HostAccessDescriptor o)) (ok a) (ok b)
        → a ≡ b
    ok-injective a b e = cc

    late : (a b : Bool) → not (not a || b) ≡ true → b ≡ false
    late a b e = ground arith
