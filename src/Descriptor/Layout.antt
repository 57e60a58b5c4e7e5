-- ===== src/Descriptor/Layout.antt =====
-- crates/session-sync-protocol/src/canonical.rs: the bytes of a descriptor, field by field, and
-- that the encoder writes them.

use attached.Common.{
  ℕ, ◌^◌, ◌<◌, ◌≤◌, Bool, if◌then◌else◌, [], ◌∷◌, ◌++◌, ◌≡◌, refl, ap, ◌∙◌, length, Bytes, arith,
  append_assoc, length-append,
}
use attached.Descriptor.Cbor.{put_head, put_uint, put_bytes, put_text}
use attached.Descriptor.Cbor.Heads.{head_of, put_head-append, length-head_of}
use attached.Descriptor.Steps.{put_uint-append, put_text-append, put_bytes-append}
use attached.Descriptor.Outside.{Outside}
use attached.Descriptor.Model.{HostAccessDescriptor, descriptor_bytes}

abbrev pub flag : Bool → ℕ
flag b = if b then 0xf5 else 0xf4

-- The sizes of a descriptor's fields.
pub record FitsFields {o : Outside} (d : HostAccessDescriptor o) (issued expires : ℕ) : Type 0 where
  pub label : length d.host_label ≤ 64
  pub label_some : 1 ≤ length d.host_label
  pub issued_i64 : issued < 2 ^ 63
  pub expires_i64 : expires < 2 ^ 63
  pub ticket : length d.endpoint_ticket ≤ 4096
  pub ticket_some : 1 ≤ length d.endpoint_ticket
  pub capability : length d.attach_capability ≡ 32
  pub major_u16 : d.attached_version.major < 2 ^ 16
  pub minor_u16 : d.attached_version.minor < 2 ^ 16
  pub patch_u16 : d.attached_version.patch < 2 ^ 16

module _ {o : Outside} (d : HostAccessDescriptor o) (issued expires : ℕ) where
  abbrev pub layout : Bytes
  layout =
      head_of 5 7
      ++ (head_of 0 1
          ++ (head_of 3 (length d.host_label)
              ++ (d.host_label
                  ++ (head_of 0 2
                      ++ (head_of 0 issued
                          ++ (head_of 0 3
                              ++ (head_of 0 expires
                                  ++ (head_of 0 4
                                      ++ (head_of 3 (length d.endpoint_ticket)
                                          ++ (d.endpoint_ticket
                                              ++ (head_of 0 5
                                                  ++ (head_of 2 (length d.attach_capability)
                                                      ++ (d.attach_capability
                                                          ++ (head_of 0 6
                                                            ++ (head_of 4 3
                                                            ++ (head_of 0 d.attached_version.major
                                                            ++ (head_of 0 d.attached_version.minor
                                                            ++ (head_of 0 d.attached_version.patch
                                                            ++ (head_of 0 7
                                                            ++ flag d.ssh_enabled
                                                            ∷ [])))))))))))))))))))

uint_on : {out a : Bytes} (v : ℕ) → v < 2 ^ 64 → out ≡ a → put_uint out v ≡ a ++ head_of 0 v
uint_on {a} v h p = ap (λ (t : Bytes). put_uint t v) p ∙ put_uint-append a v h

head_on :
    {out a : Bytes} (m v : ℕ) → m < 8 → v < 2 ^ 64 → out ≡ a → put_head out m v ≡ a ++ head_of m v
head_on {a} m v hm h p = ap (λ (t : Bytes). put_head t m v) p ∙ put_head-append a m v hm h

text_on :
    {out a : Bytes} (s : Bytes)
    → length s < 2 ^ 64
    → out ≡ a
    → put_text out s ≡ a ++ (head_of 3 (length s) ++ s)
text_on {a} s h p = ap (λ (t : Bytes). put_text t s) p ∙ put_text-append a s h

bytes_on :
    {out a : Bytes} (s : Bytes)
    → length s < 2 ^ 64
    → out ≡ a
    → put_bytes out s ≡ a ++ (head_of 2 (length s) ++ s)
bytes_on {a} s h p = ap (λ (t : Bytes). put_bytes t s) p ∙ put_bytes-append a s h

module _ {o : Outside} (d : HostAccessDescriptor o) (issued expires : ℕ)
    (fits : FitsFields d issued expires) where
  pub descriptor_bytes-layout : descriptor_bytes o d issued expires ≡ layout d issued expires
  unfolding descriptor_bytes
  descriptor_bytes-layout =
      let label : length d.host_label < 2 ^ 64 = omega (arith, fits.label) in
      let ticket : length d.endpoint_ticket < 2 ^ 64 = omega (arith, fits.ticket) in
      let p₁ =
        text_on d.host_label label
          (uint_on 1 (omega arith) (head_on {out = []} 5 7 (omega arith) (omega arith) refl)) in
      let p₂ = uint_on issued (omega (arith, fits.issued_i64)) (uint_on 2 (omega arith) p₁) in
      let p₃ = uint_on expires (omega (arith, fits.expires_i64)) (uint_on 3 (omega arith) p₂) in
      let p₄ = text_on d.endpoint_ticket ticket (uint_on 4 (omega arith) p₃) in
      let p₅ =
        bytes_on d.attach_capability (omega (arith, fits.capability))
          (uint_on 5 (omega arith) p₄) in
      let p₆ = head_on 4 3 (omega arith) (omega arith) (uint_on 6 (omega arith) p₅) in
      let p₇ = uint_on d.attached_version.major (omega (arith, fits.major_u16)) p₆ in
      let p₈ = uint_on d.attached_version.minor (omega (arith, fits.minor_u16)) p₇ in
      let p₉ = uint_on d.attached_version.patch (omega (arith, fits.patch_u16)) p₈ in
      ap (λ (t : Bytes). t ++ flag d.ssh_enabled ∷ []) (uint_on 7 (omega arith) p₉)
      ∙ simp append_assoc

  -- A descriptor is never too long to be encoded.
  pub length-layout : length (layout d issued expires) ≤ 5_000
  length-layout =
      simp length-append (omega (arith, length-head_of, fits.label, fits.ticket, fits.capability))
