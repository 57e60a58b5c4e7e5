-- ===== src/Descriptor/RoundTrip.antt =====
-- crates/session-sync-protocol/src/canonical.rs: the decoder reads back what the encoder wrote.

use attached.Common.{ℕ, ◌^◌, ◌<◌, Bool, true, false, [], ◌≡◌, refl, ◌∙◌, Bytes, is_utf8, ok, arith}
use attached.Action.Steps.{ensure_pass}
use attached.Descriptor.Cbor.Decode.{at, byte_step}
use attached.Descriptor.Steps.{
  Small, head_then, uint_then, key_then, text_then, fixed_bytes_then, at_end_step, lift_step,
}
use attached.Descriptor.Outside.{Outside}
use attached.Descriptor.Model.{HostAccessDescriptor}
use attached.Descriptor.Decoding.{u16_from, bool_from, datetime_from_unix_seconds, decode_fields}
use attached.Descriptor.Layout.{flag, FitsFields, layout, length-layout}

u16_ok : (v : ℕ) → v < 2 ^ 16 → u16_from v ≡ ok v
unfolding u16_from
u16_ok v h = ground arith

flag_ok : (b : Bool) → bool_from (flag b) ≡ ok b
unfolding bool_from
flag_ok true = refl
flag_ok false = refl

-- The two times of a descriptor, as seconds.
pub record TimesAre {o : Outside} (d : HostAccessDescriptor o) (issued expires : ℕ) : Type 0 where
  pub issued_from : datetime_from_unix_seconds o issued ≡ ok d.issued_at
  pub expires_from : datetime_from_unix_seconds o expires ≡ ok d.expires_at

module _ {o : Outside} (d : HostAccessDescriptor o) (issued expires : ℕ)
    (fits : FitsFields d issued expires) (times : TimesAre d issued expires)
    (label_text : is_utf8 d.host_label ≡ true)
    (ticket_text : is_utf8 d.endpoint_ticket ≡ true) where
  pub decode_fields-layout :
      (x : Bytes) × (decode_fields o (at [] (layout d issued expires)) ≡ ok (d, at x []))
  unfolding decode_fields
  decode_fields-layout = (
    _,
    head_then 5 _ 7 (omega arith) (omega arith) small λ s.
        ensure_pass _ _ _ _ refl
        ∙ key_then _ 1 (omega arith) s λ s.
          text_then _ 1 64 d.host_label fits.label_some fits.label label_text s λ s.
            key_then _ 2 (omega arith) s λ s. uint_then _ issued issued_u64 s λ s.
              lift_step _ _ _ times.issued_from
              ∙ key_then _ 3 (omega arith) s λ s. uint_then _ expires expires_u64 s λ s.
                lift_step _ _ _ times.expires_from
                ∙ key_then _ 4 (omega arith) s λ s.
                  text_then _ 1 4096 d.endpoint_ticket fits.ticket_some fits.ticket ticket_text s
                    λ s. key_then _ 5 (omega arith) s λ s.
                      fixed_bytes_then _ 32 d.attach_capability fits.capability s λ s.
                        key_then _ 6 (omega arith) s λ s.
                          head_then 4 _ 3 (omega arith) (omega arith) s λ s.
                            ensure_pass _ _ _ _ refl
                            ∙ uint_then _ d.attached_version.major (u64 fits.major_u16) s λ s.
                              lift_step _ _ _ (u16_ok d.attached_version.major fits.major_u16)
                              ∙ uint_then _ d.attached_version.minor (u64 fits.minor_u16) s λ s.
                                lift_step _ _ _ (u16_ok d.attached_version.minor fits.minor_u16)
                                ∙ uint_then _ d.attached_version.patch (u64 fits.patch_u16) s λ s.
                                  lift_step _ _ _ (u16_ok d.attached_version.patch fits.patch_u16)
                                  ∙ key_then _ 7 (omega arith) s λ s.
                                    byte_step _ _ [] (flag d.ssh_enabled)
                                    ∙ lift_step _ _ _ (flag_ok d.ssh_enabled)
                                    ∙ at_end_step _ _,
  )
    where
      small : Small [] (layout d issued expires)
      small = record { below = omega (arith, length-layout d issued expires fits) }

      issued_u64 : issued < 2 ^ 64
      issued_u64 = omega (arith, fits.issued_i64)

      expires_u64 : expires < 2 ^ 64
      expires_u64 = omega (arith, fits.expires_i64)

      u64 : {v : ℕ} → v < 2 ^ 16 → v < 2 ^ 64
      u64 h = omega arith
