-- ===== src/Descriptor/Agreement.antt =====
-- crates/session-sync-protocol/src/canonical.rs: the encoder and the decoder of host access
-- descriptors agree.
use attached.Common.{
  ℕ, ◌+◌, ◌-◌, ◌^◌, ◌<◌, ◌≤◌, leb, le→ltb_false, lt→ltb, if◌then◌else◌, [], ◌≡◌, ◌≢◌, ◌↔◌, refl,
  sym, ap, ◌∙◌, length, Bytes, bytes_eq, bytes_eq_iff, bytes_eq_refl, Result, ok, err, some, none,
  arith,
}
use attached.Action.Steps.{>>=-ok, >>=-eq-ok, ensure_pass, ensure-eq-ok, pure-eq-ok}
use attached.Descriptor.Cbor.{HostAccessError, Decoder}
use attached.Descriptor.Cbor.Decode.{at}
use attached.Descriptor.Outside.{Outside, ChronoLaws, pos}
use attached.Descriptor.Model.{
  HostAccessDescriptor, validate, new, endpoint_identity, unix_seconds,
  encode_host_access_descriptor, lifetime_in_range,
}
use attached.Descriptor.Decoding.{
  lift, datetime_from_unix_seconds, decode_fields, decode_checked, decode_host_access_descriptor,
}
use attached.Descriptor.Validity.{
  Checked, validate-Checked, validate_host_label-IsLabel, ticket_length_valid, is_ascii-is_utf8,
  fields_valid, not_negative,
}
use attached.Descriptor.Steps.{lift_step}
use attached.Descriptor.Layout.{FitsFields, layout, length-layout, descriptor_bytes-layout}
use attached.Descriptor.RoundTrip.{TimesAre, decode_fields-layout}

-- The types that the fields have in Rust: a capability of 32 bytes, and `u16` numbers.
pub record HasTypes {o : Outside} (d : HostAccessDescriptor o) : Type 0 where
  pub capability : length d.attach_capability ≡ 32
  pub major_u16 : d.attached_version.major < 2 ^ 16
  pub minor_u16 : d.attached_version.minor < 2 ^ 16
  pub patch_u16 : d.attached_version.patch < 2 ^ 16

-- The two times as whole seconds.
pub record Seconds {o : Outside} (d : HostAccessDescriptor o) : Type 0 where
  pub issued : ℕ
  pub expires : ℕ
  pub issued_eq : o.timestamp d.issued_at ≡ pos issued
  pub expires_eq : o.timestamp d.expires_at ≡ pos expires
  pub issued_whole : o.timestamp_subsec_nanos d.issued_at ≡ 0
  pub expires_whole : o.timestamp_subsec_nanos d.expires_at ≡ 0

module _ {o : Outside} {d : HostAccessDescriptor o} (c : Checked d) where
  pub Checked-Seconds : Seconds d
  Checked-Seconds =
      let (_, issued_ok, expires_ok, issued_whole, expires_whole) = fields_valid d c.fields in
      let (issued, issued_eq) = not_negative (o.timestamp d.issued_at) issued_ok in
      let (expires, expires_eq) = not_negative (o.timestamp d.expires_at) expires_ok in
      record {
        issued = issued;
        expires = expires;
        issued_eq = issued_eq;
        expires_eq = expires_eq;
        issued_whole = issued_whole;
        expires_whole = expires_whole;
      }

  module _ (laws : ChronoLaws o) (s : Seconds d) where
    pub lifetime_bounds : (s.issued + 60 ≤ s.expires) × (s.expires ≤ s.issued + 900)
    unfolding lifetime_in_range
    lifetime_bounds =
        let law =
          laws.to_std_seconds d.issued_at d.expires_at s.issued s.expires s.issued_eq s.expires_eq
            s.issued_whole s.expires_whole in
        let same : (if leb s.issued s.expires
              then some (record { secs = s.expires - s.issued; nanos = 0 })
              else none)
            ≡ some c.lifetime =
          sym law ∙ c.lifetime_eq in
        let in_range = c.in_range in (ground arith, ground arith)

  module _ (types : HasTypes d) (laws : ChronoLaws o) (s : Seconds d) where
    fits : FitsFields d s.issued s.expires
    fits =
        let label = validate_host_label-IsLabel d.host_label (fields_valid d c.fields).0 in
        let (ticket_some, ticket_most, _) = ticket_length_valid d.endpoint_ticket c.ticket_length in
        record {
          label = label.at_most;
          label_some = label.some_bytes;
          issued_i64 = laws.timestamp_i64 d.issued_at s.issued s.issued_eq;
          expires_i64 = laws.timestamp_i64 d.expires_at s.expires s.expires_eq;
          ticket = ticket_most;
          ticket_some = ticket_some;
          capability = types.capability;
          major_u16 = types.major_u16;
          minor_u16 = types.minor_u16;
          patch_u16 = types.patch_u16;
        }

    times : TimesAre d s.issued s.expires
    unfolding datetime_from_unix_seconds
    times = record {
      issued_from = rw (
        lt→ltb s.issued (2 ^ 63) (laws.timestamp_i64 d.issued_at s.issued s.issued_eq),
        laws.from_timestamp_lem d.issued_at s.issued s.issued_eq s.issued_whole,
      );
      expires_from = rw (
        lt→ltb s.expires (2 ^ 63) (laws.timestamp_i64 d.expires_at s.expires s.expires_eq),
        laws.from_timestamp_lem d.expires_at s.expires s.expires_eq s.expires_whole,
      );
    }

unix_seconds_ok :
    (o : Outside) (t : o.DateTime) (n : ℕ) → o.timestamp t ≡ pos n → unix_seconds o t ≡ ok n
unfolding unix_seconds
unix_seconds_ok o t n h = rw (h, unix_seconds)

module _ {o : Outside} (laws : ChronoLaws o) {d : HostAccessDescriptor o} (types : HasTypes d) where
  -- A valid descriptor is always encoded, as its layout.
  encode_valid :
      (valid : validate o d ≡ ok tt)
      → (s : Seconds d) → encode_host_access_descriptor o d ≡ ok (layout d s.issued s.expires)
  unfolding encode_host_access_descriptor
  encode_valid valid s =
      let f = fits (validate-Checked d valid) types laws s in
      rw
        (
          valid,
          unix_seconds_ok o d.issued_at s.issued s.issued_eq,
          unix_seconds_ok o d.expires_at s.expires s.expires_eq,
          descriptor_bytes-layout d s.issued s.expires f,
          le→ltb_false 65_536 (length (layout d s.issued s.expires))
              (omega (arith, length-layout d s.issued s.expires f)),
        )
        refl

  decode_layout :
      (valid : validate o d ≡ ok tt)
      → (s : Seconds d) → decode_host_access_descriptor o (layout d s.issued s.expires) ≡ ok d
  unfolding decode_host_access_descriptor decode_checked new
  decode_layout valid s =
      let c = validate-Checked d valid in
      let f = fits c types laws s in
      let label = validate_host_label-IsLabel d.host_label (fields_valid d c.fields).0 in
      let (_, _, ticket) = ticket_length_valid d.endpoint_ticket c.ticket_length in
      let bytes = layout d s.issued s.expires in
      let (x, read) =
        decode_fields-layout d s.issued s.expires f (times c types laws s)
          (is_ascii-is_utf8 d.host_label label.ascii) (is_ascii-is_utf8 d.endpoint_ticket ticket) in
      let checked : decode_checked o bytes (at [] bytes) ≡ ok (d, at x []) =
        >>=-ok (decode_fields o) _ _ read
        ∙ lift_step (new o d) _ _ (rw valid)
        ∙ lift_step (encode_host_access_descriptor o d) _ _ (encode_valid valid s)
        ∙ ensure_pass (bytes_eq bytes bytes) _ _ _ (bytes_eq_refl bytes) in
      rw
        (
          le→ltb_false 65_536 (length bytes) (omega (arith, length-layout d s.issued s.expires f)),
          checked,
        )
        refl

lift-eq-ok :
    {A : Type 0} (r : Result HostAccessError A) (s : Decoder) {s' : Decoder} {a : A}
    → lift r s ≡ ok (a, s')
    → r ≡ ok a
lift-eq-ok (ok b) s {a = a} h = ap ok (pure-eq-ok b a h).0
lift-eq-ok (err e) s h = cc

module _ {o : Outside} (d : HostAccessDescriptor o) where
  encode-validate :
      (out : Bytes) → encode_host_access_descriptor o d ≡ ok out → validate o d ≡ ok tt
  unfolding encode_host_access_descriptor
  encode-validate out h = ground arith

  checked-encode_input :
      (input : Bytes) (s s' : Decoder)
      → decode_checked o input s ≡ ok (d, s')
      → encode_host_access_descriptor o d ≡ ok input
  unfolding decode_checked
  checked-encode_input input s s' h =
      let (fields, s₁, _, h₁) = >>=-eq-ok (decode_fields o) _ s h in
      let (descriptor, s₂, _, h₂) = >>=-eq-ok (lift (new o fields)) _ s₁ h₁ in
      let (canonical, s₃, p₃, h₃) =
        >>=-eq-ok (lift (encode_host_access_descriptor o descriptor)) _ s₂ h₂ in
      let (same, h₄) = ensure-eq-ok (bytes_eq canonical input) _ _ s₃ h₃ in
      let (returned, _) = pure-eq-ok descriptor d h₄ in
      ap (encode_host_access_descriptor o) (sym returned)
      ∙ lift-eq-ok (encode_host_access_descriptor o descriptor) s₂ p₃
      ∙ ap ok ((bytes_eq_iff canonical input).0 same)

  -- The last comparison of the decoder makes what it returns encode to its input.
  decode-encode_input :
      (input : Bytes)
      → decode_host_access_descriptor o input ≡ ok d
      → encode_host_access_descriptor o d ≡ ok input
  unfolding decode_host_access_descriptor
  decode-encode_input input h =
      by_cases (decode_checked o input (record { input = input; position = 0 })) refl (ground arith)
    where
      by_cases :
          (t : Result HostAccessError (HostAccessDescriptor o × Decoder))
          → decode_checked o input (record { input = input; position = 0 }) ≡ t
          → elim t [ ok (descriptor, _) ↦ ok descriptor | err e ↦ err e ] ≡ ok d
          → encode_host_access_descriptor o d ≡ ok input
      by_cases (ok (descriptor, s')) p q = checked-encode_input input _ s' (
          p
          ∙ ap (λ (e : HostAccessDescriptor o). ok (e, s'))
              (pure-eq-ok {E = HostAccessError} descriptor d {s = tt {0}} {s' = tt {0}} cc).0)
      by_cases (err _) p q = cc

-- For a descriptor with fields of the Rust types, the decoder returns it from some bytes exactly
-- when the encoder writes those bytes for it.
pub decode_iff_encode :
    {o : Outside} (laws : ChronoLaws o) (d : HostAccessDescriptor o) (input : Bytes)
    → HasTypes d
    → (decode_host_access_descriptor o input ≡ ok d)
      ↔ (encode_host_access_descriptor o d ≡ ok input)
decode_iff_encode {o} laws d input types = (
  decode-encode_input d input,
  λ h.
      let valid = encode-validate d input h in
      let s = Checked-Seconds (validate-Checked d valid) in
      let written : layout d s.issued s.expires ≡ input = cc (encode_valid laws types valid s, h) in
      ap (decode_host_access_descriptor o) (sym written) ∙ decode_layout laws types valid s,
)

-- For a descriptor with fields of the Rust types, the encoder writes some bytes exactly when the
-- descriptor is valid.
pub encode_iff_validate :
    {o : Outside} (laws : ChronoLaws o) (d : HostAccessDescriptor o)
    → HasTypes d
    → ((out : Bytes) × (encode_host_access_descriptor o d ≡ ok out)) ↔ (validate o d ≡ ok tt)
encode_iff_validate laws d types = (
  λ h. encode-validate d h.0 h.1,
  λ valid.
      let s = Checked-Seconds (validate-Checked d valid) in
      (layout d s.issued s.expires, encode_valid laws types valid s),
)

-- A descriptor that the decoder returns lives from 60 to 900 seconds, between two times in whole
-- seconds, has a label of 1 to 64 bytes, and its endpoint identity can be read without a panic.
pub decoded_descriptor_valid :
    {o : Outside} (laws : ChronoLaws o) (d : HostAccessDescriptor o) (input : Bytes)
    → decode_host_access_descriptor o input ≡ ok d
    → (s : Seconds d) × (s.issued + 60 ≤ s.expires)
      × (s.expires ≤ s.issued + 900)
      × (1 ≤ length d.host_label)
      × (length d.host_label ≤ 64)
      × (endpoint_identity o d ≢ none)
unfolding endpoint_identity
decoded_descriptor_valid laws d input h =
    let c = validate-Checked d (encode-validate d input (decode-encode_input d input h)) in
    let s = Checked-Seconds c in
    let bounds = lifetime_bounds c laws s in
    let label = validate_host_label-IsLabel d.host_label (fields_valid d c.fields).0 in
    let ticket = c.ticket_eq in
    (s, bounds.0, bounds.1, label.some_bytes, label.at_most, ground arith)
