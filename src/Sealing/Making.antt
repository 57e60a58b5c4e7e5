-- ===== src/Sealing/Making.antt =====
-- crates/session-sync-protocol/src/crypto.rs: how an envelope is made from a descriptor.
use mathlib.Core.Path.{subst}
use attached.Common.{
  ◌+◌, ◌^◌, ◌≤◌, true, not, ltb, le→ltb_false, length, Option, none, some, Bytes, Result, ok,
  ensure, bind-eq-ok, ensure-eq-ok, ◌≡◌, ◌↔◌, refl, sym, ap, ◌∙◌, arith,
}
use attached.Api.Envelope.{max_ciphertext_bytes}
use attached.Descriptor.Cbor.{HostAccessError, limit, decryption}
use attached.Descriptor.Outside.{Outside}
use attached.Descriptor.Model.{
  validate, unix_seconds, descriptor_bytes, HostAccessDescriptor, ok_or,
  encode_host_access_descriptor,
}
use attached.Sealing.{
  Envelope, envelope_of, Cipher, derive_host_access_descriptor_key, envelope_aad,
  seal_host_access_descriptor_with_nonce,
}

-- What chacha20poly1305 documents: a ciphertext is determined by the plaintext, and decrypts to it; what
-- is no such ciphertext is refused.
pub record CipherLaws (cipher : Cipher) : Type 0 where
  pub decrypts_iff :
      (key nonce aad plaintext ciphertext : Bytes)
      → (cipher.decrypt_in_place key nonce aad ciphertext ≡ some plaintext)
        ↔ (cipher.encrypt_in_place key nonce aad plaintext ≡ some ciphertext)
  -- every plaintext within the limit of the cipher gets a tag of 16 bytes
  pub encrypts :
      (key nonce aad plaintext : Bytes)
      → length plaintext ≤ 2 ^ 32
      → (ciphertext : Bytes) × (cipher.encrypt_in_place key nonce aad plaintext ≡ some ciphertext)
        × (length ciphertext ≡ length plaintext + 16)

pub ok_or-eq-ok :
    {A : Type 0} (x : Option A) (e : HostAccessError) (a : A) → ok_or x e ≡ ok a → x ≡ some a
ok_or-eq-ok (some b) e a h = ground arith
ok_or-eq-ok none e a h = cc

envelope_of-eq-ok :
    (nonce ciphertext : Bytes) (envelope : Envelope)
    → envelope_of nonce ciphertext ≡ ok envelope
    → (length ciphertext ≤ max_ciphertext_bytes)
      × (envelope ≡ (record { nonce = nonce; ciphertext = ciphertext }))
unfolding envelope_of
envelope_of-eq-ok nonce ciphertext envelope h = ground arith

-- What makes an envelope of a descriptor.
pub record Seals {o : Outside} (cipher : Cipher) (d : HostAccessDescriptor o)
    (root account_id record_id : Bytes) (envelope : Envelope) : Type 0 where
  pub plaintext : Bytes
  pub key : Bytes
  pub encoded : encode_host_access_descriptor o d ≡ ok plaintext
  pub derived : derive_host_access_descriptor_key cipher root account_id ≡ ok key
  pub encrypted :
      cipher.encrypt_in_place key envelope.nonce (envelope_aad account_id record_id) plaintext
      ≡ some envelope.ciphertext
  pub short : length envelope.ciphertext ≤ max_ciphertext_bytes

module _ {o : Outside} {cipher : Cipher} (d : HostAccessDescriptor o)
    (root account_id record_id : Bytes) (envelope : Envelope) where
  pub seal-eq-ok :
      seal_host_access_descriptor_with_nonce o cipher d root account_id record_id envelope.nonce
        ≡ ok envelope
      → Seals cipher d root account_id record_id envelope
  unfolding seal_host_access_descriptor_with_nonce
  seal-eq-ok h =
      let aad = envelope_aad account_id record_id in
      let (plaintext, encoded, h₁) = bind-eq-ok (encode_host_access_descriptor o d) _ h in
      let (key, derived, h₂) =
        bind-eq-ok (derive_host_access_descriptor_key cipher root account_id) _ h₁ in
      let (ciphertext, encrypted, h₃) =
        bind-eq-ok (ok_or (cipher.encrypt_in_place key envelope.nonce aad plaintext) decryption) _
          h₂ in
      let (short, same) = envelope_of-eq-ok envelope.nonce ciphertext envelope h₃ in
      let same' : ciphertext ≡ envelope.ciphertext =
        sym (ap (λ (e : Envelope). e.ciphertext) same) in
      record {
        plaintext = plaintext;
        key = key;
        encoded = encoded;
        derived = derived;
        encrypted = ok_or-eq-ok _ decryption ciphertext encrypted ∙ ap some same';
        short = subst (λ c. length c ≤ max_ciphertext_bytes) same' short;
      }

  pub seal_ok :
      Seals cipher d root account_id record_id envelope
      → seal_host_access_descriptor_with_nonce o cipher d root account_id record_id envelope.nonce
        ≡ ok envelope
  unfolding seal_host_access_descriptor_with_nonce envelope_of
  seal_ok s =
      rw
        (
          s.encoded,
          s.derived,
          s.encrypted,
          le→ltb_false max_ciphertext_bytes (length envelope.ciphertext) s.short,
        )
        refl

checked_length :
    (bytes out : Bytes)
    → Path (Result HostAccessError Bytes) (ok bytes) (ok out)
    → not (ltb 65_536 (length bytes)) ≡ true
    → length out ≤ 65_536
checked_length bytes out h k = ground arith

pub encoded_length :
    {o : Outside} (d : HostAccessDescriptor o) (out : Bytes)
    → encode_host_access_descriptor o d ≡ ok out
    → length out ≤ 65_536
unfolding encode_host_access_descriptor
encoded_length {o} d out h =
    let (_, _, h₁) = bind-eq-ok (validate o d) _ h in
    let (issued, _, h₂) = bind-eq-ok (unix_seconds o d.issued_at) _ h₁ in
    let (expires, _, h₃) = bind-eq-ok (unix_seconds o d.expires_at) _ h₂ in
    let bytes = descriptor_bytes o d issued expires in
    let (_, most, h₄) = bind-eq-ok (ensure (not (ltb 65_536 (length bytes))) limit) _ h₃ in
    let most' = ensure-eq-ok (not (ltb 65_536 (length bytes))) limit most in
    checked_length bytes out h₄ most'
