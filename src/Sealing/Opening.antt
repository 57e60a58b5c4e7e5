-- ===== src/Sealing/Opening.antt =====
-- crates/session-sync-protocol/src/crypto.rs: what opens is what was sealed.
use mathlib.Core.Path.{subst}
use attached.Common.{
  ◌≤◌, true, false, not, ltb, le→ltb_false, length, some, Bytes, Result, ok, ensure, bind-eq-ok,
  ensure-eq-ok, ◌≡◌, ◌↔◌, refl, ap, ◌∙◌, arith,
}
use attached.Api.Envelope.{max_ciphertext_bytes}
use attached.Descriptor.Cbor.{HostAccessError, limit, invalid_field, decryption, expired}
use attached.Descriptor.Outside.{Outside, ChronoLaws}
use attached.Descriptor.Model.{validate, HostAccessDescriptor, ok_or}
use attached.Descriptor.Decoding.{decode_host_access_descriptor}
use attached.Descriptor.Agreement.{HasTypes, decode_iff_encode, encode_iff_validate}
use attached.Sealing.Making.{CipherLaws, Seals, ok_or-eq-ok, seal-eq-ok, seal_ok, encoded_length}
use attached.Sealing.{
  Envelope, Cipher, derive_host_access_descriptor_key, envelope_aad, VerificationContext,
  CheckedAdd, seal_host_access_descriptor_with_nonce, is_out_of_time, open_host_access_descriptor,
}

-- The descriptor is issued at most a minute ahead of the clock, and it has not expired.
pub record IsCurrent {o : Outside} (checked_add : CheckedAdd o) (d : HostAccessDescriptor o)
    (now : o.DateTime) : Type 0 where
  pub latest : o.DateTime
  pub latest_eq : checked_add now 60 ≡ some latest
  pub issued : o.is_ge latest d.issued_at ≡ true
  pub expires : o.is_ge now d.expires_at ≡ false

time_of :
    {o : Outside} (cipher : Cipher) (d : HostAccessDescriptor o) (latest now : o.DateTime)
    → not (is_out_of_time o cipher d latest now) ≡ true
    → (o.is_ge latest d.issued_at ≡ true) × (o.is_ge now d.expires_at ≡ false)
unfolding is_out_of_time
time_of cipher d latest now h = ground arith

module _ {o : Outside} {cipher : Cipher} (laws : ChronoLaws o) (aead : CipherLaws cipher)
    (checked_add : CheckedAdd o) (d : HostAccessDescriptor o) (types : HasTypes d)
    (envelope : Envelope) (root : Bytes) (context : VerificationContext o) where
  opened :
      open_host_access_descriptor o cipher checked_add envelope root context ≡ ok d
      → Seals cipher d root context.account_id context.record_id envelope
        × IsCurrent checked_add d context.now
  unfolding open_host_access_descriptor
  opened h =
      let aad = envelope_aad context.account_id context.record_id in
      let (_, short, h₁) =
        bind-eq-ok (ensure (not (ltb max_ciphertext_bytes (length envelope.ciphertext))) limit) _
          h in
      let (key, derived, h₂) =
        bind-eq-ok (derive_host_access_descriptor_key cipher root context.account_id) _ h₁ in
      let (plaintext, plain, h₃) =
        bind-eq-ok
          (ok_or (cipher.decrypt_in_place key envelope.nonce aad envelope.ciphertext) decryption) _
          h₂ in
      let (descriptor, decoded, h₄) = bind-eq-ok (decode_host_access_descriptor o plaintext) _ h₃ in
      let (latest, added, h₅) =
        bind-eq-ok (ok_or (checked_add context.now 60) invalid_field) _ h₄ in
      let (_, current, h₆) =
        bind-eq-ok (ensure (not (is_out_of_time o cipher descriptor latest context.now)) expired) _
          h₅ in
      let returned = ok-injective descriptor d h₆ in
      let (issued, expires) =
        time_of cipher descriptor latest context.now (ensure-eq-ok _ expired current) in
      let short' = ensure-eq-ok _ limit short in
      (
        record {
          plaintext = plaintext;
          key = key;
          encoded = (decode_iff_encode laws d plaintext types).0 (decoded ∙ ap ok returned);
          derived = derived;
          encrypted =
              (aead.decrypts_iff key envelope.nonce aad plaintext envelope.ciphertext).0
                (ok_or-eq-ok _ decryption plaintext plain);
          short = under short';
        },
        subst (λ d'. IsCurrent checked_add d' context.now) returned
            (record {
              latest = latest;
              latest_eq = ok_or-eq-ok _ invalid_field latest added;
              issued = issued;
              expires = expires;
            }),
      )
    where
      ok-injective :
          (a b : HostAccessDescriptor o)
          → Path (Result HostAccessError (HostAccessDescriptor o)) (ok a) (ok b)
          → a ≡ b
      ok-injective a b h = cc

      under :
          not (ltb max_ciphertext_bytes (length envelope.ciphertext)) ≡ true
          → length envelope.ciphertext ≤ max_ciphertext_bytes
      under h = ground arith

  sealed :
      Seals cipher d root context.account_id context.record_id envelope
      → IsCurrent checked_add d context.now
      → open_host_access_descriptor o cipher checked_add envelope root context ≡ ok d
  unfolding open_host_access_descriptor is_out_of_time
  sealed s c =
      rw
        (
          le→ltb_false max_ciphertext_bytes (length envelope.ciphertext) s.short,
          s.derived,
          (aead.decrypts_iff s.key envelope.nonce _ s.plaintext envelope.ciphertext).1 s.encrypted,
          (decode_iff_encode laws d s.plaintext types).1 s.encoded,
          c.latest_eq,
          c.issued,
          c.expires,
        )
        refl

  -- An envelope opens to a descriptor exactly when sealing the descriptor for the same account and
  -- record, with the nonce of the envelope, makes that envelope, and the descriptor is current:
  -- issued at most a minute after now, and not expired.
  pub open_iff_seal :
      (open_host_access_descriptor o cipher checked_add envelope root context ≡ ok d) ↔ (
        (seal_host_access_descriptor_with_nonce o cipher d root context.account_id context.record_id
            envelope.nonce
          ≡ ok envelope)
        × IsCurrent checked_add d context.now)
  open_iff_seal = (
    λ h.
        let (s, c) = opened h in
        (seal_ok d root context.account_id context.record_id envelope s, c),
    λ h. sealed (seal-eq-ok d root context.account_id context.record_id envelope h.0) h.1,
  )

module _ {o : Outside} {cipher : Cipher} (laws : ChronoLaws o) (aead : CipherLaws cipher)
    (checked_add : CheckedAdd o) (d : HostAccessDescriptor o) (types : HasTypes d)
    (nonce root : Bytes) (context : VerificationContext o) where
  -- With a key derived, sealing a valid descriptor succeeds under every nonce, and what it makes opens
  -- to the descriptor in the same context as long as the descriptor is current.
  pub seal_valid_opens :
      (key : Bytes)
      → derive_host_access_descriptor_key cipher root context.account_id ≡ ok key
      → validate o d ≡ ok tt
      → IsCurrent checked_add d context.now
      → (envelope : Envelope) × (seal_host_access_descriptor_with_nonce o cipher d root
            context.account_id context.record_id nonce
          ≡ ok envelope)
        × (open_host_access_descriptor o cipher checked_add envelope root context ≡ ok d)
  seal_valid_opens key derived valid current =
      let (plaintext, encoded) = (encode_iff_validate laws d types).1 valid in
      let most = encoded_length d plaintext encoded in
      let (ciphertext, encrypted, len) =
        aead.encrypts key nonce (envelope_aad context.account_id context.record_id) plaintext
          (omega arith) in
      let envelope : Envelope = record { nonce = nonce; ciphertext = ciphertext } in
      let seals : Seals cipher d root context.account_id context.record_id envelope = record {
        plaintext = plaintext;
        key = key;
        encoded = encoded;
        derived = derived;
        encrypted = encrypted;
        short = omega arith;
      } in
      (
        envelope,
        seal_ok d root context.account_id context.record_id envelope seals,
        sealed laws aead checked_add d types envelope root context seals current,
      )
