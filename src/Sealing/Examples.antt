-- ===== src/Sealing/Examples.antt =====
-- The sealing of crates/session-sync-protocol/src/crypto.rs at a concrete descriptor, under a cipher
-- that adds a tag of the nonce's first bytes.
use attached.Common.{◌+◌, ◌++◌, some, ok, ◌≡◌, ◌↔◌, refl}
use attached.Descriptor.Small.{
  outside, laws, descriptor, descriptor_types, descriptor_valid, encoded, eight,
}
use attached.Sealing.{
  Envelope, derive_host_access_descriptor_key, VerificationContext, CheckedAdd,
  seal_host_access_descriptor_with_nonce, open_host_access_descriptor,
}
use attached.Sealing.Small.{tag, cipher, cipher_laws}
use attached.Sealing.Opening.{IsCurrent, open_iff_seal, seal_valid_opens}

abbrev checked_add : CheckedAdd outside
checked_add = λ t s. some (t + s)

abbrev context : VerificationContext outside
context = record { account_id = eight 1 ++ eight 2; record_id = eight 3 ++ eight 4; now = 960 }

current : IsCurrent checked_add descriptor 960
current = record { latest = 1020; latest_eq = refl; issued = refl; expires = refl }

abbrev envelope : Envelope
envelope = record { nonce = eight 5 ++ eight 5 ++ eight 5; ciphertext = encoded ++ tag }

open_iff_seal_example :
    (open_host_access_descriptor outside cipher checked_add envelope (eight 6) context
      ≡ ok descriptor)
    ↔ ((seal_host_access_descriptor_with_nonce outside cipher descriptor
            (eight 6)
            context.account_id
            context.record_id
            envelope.nonce
          ≡ ok envelope)
        × IsCurrent checked_add descriptor context.now)
open_iff_seal_example =
    open_iff_seal laws cipher_laws checked_add descriptor descriptor_types envelope (eight 6)
      context

key_derived : derive_host_access_descriptor_key cipher (eight 6) context.account_id ≡ ok (eight 6)
unfolding derive_host_access_descriptor_key
key_derived = refl

seal_valid_opens_example :
    (envelope' : Envelope) × (seal_host_access_descriptor_with_nonce outside cipher descriptor
        (eight 6)
        context.account_id
        context.record_id
        envelope.nonce
      ≡ ok envelope')
    × (open_host_access_descriptor outside cipher checked_add envelope' (eight 6) context
        ≡ ok descriptor)
seal_valid_opens_example =
    seal_valid_opens laws cipher_laws checked_add descriptor descriptor_types envelope.nonce
      (eight 6) context (eight 6) key_derived descriptor_valid current
