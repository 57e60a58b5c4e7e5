-- ===== src/Descriptor/Model.antt =====
-- crates/session-sync-protocol/src/canonical.rs and limits.rs: host access descriptors, their
-- validation and their encoding.
use attached.Common.{
  ℕ, Bool, true, false, not, ◌&&◌, ◌||◌, ltb, leb, ◌==◌, if◌then◌else◌, Option, none, some, [], ◌∷◌,
  ◌++◌, length, all_of, within, Bytes, bytes_eq, Result, ok, err, ◌>>=◌, ◌>>◌, ensure,
}
use attached.Descriptor.Cbor.{
  HostAccessError, invalid_field, limit, endpoint, put_head, put_uint, put_bytes, put_text,
}
use attached.Descriptor.Outside.{ℤ, pos, negsuc, Duration, Outside}

abbrev pub max_host_label_bytes : ℕ
max_host_label_bytes = 64

abbrev pub max_endpoint_ticket_len : ℕ
max_endpoint_ticket_len = 4_096

abbrev pub max_canonical_host_access_descriptor_len : ℕ
max_canonical_host_access_descriptor_len = 65_536

abbrev pub min_descriptor_lifetime : ℕ
min_descriptor_lifetime = 60

abbrev pub max_descriptor_lifetime : ℕ
max_descriptor_lifetime = 900

-- `u8::is_ascii_alphanumeric`
abbrev pub is_ascii_alphanumeric : ℕ → Bool
is_ascii_alphanumeric b = within b'0' b'9' b || within b'A' b'Z' b || within b'a' b'z' b

abbrev pub is_label_byte : ℕ → Bool
is_label_byte b = is_ascii_alphanumeric b || (b == b'.' || b == b'_' || b == b'-')

unfoldable pub validate_host_label : Bytes → Bool
validate_host_label [] = false
validate_host_label (b ∷ bytes) =
    leb (length (b ∷ bytes)) max_host_label_bytes
    && is_ascii_alphanumeric b
    && all_of is_label_byte (b ∷ bytes)

pub record DescriptorVersion : Type 0 where
  pub major : ℕ
  pub minor : ℕ
  pub patch : ℕ

abbrev pub is_negative : ℤ → Bool
is_negative (pos n) = false
is_negative (negsuc n) = true

-- `(MIN_DESCRIPTOR_LIFETIME..=MAX_DESCRIPTOR_LIFETIME).contains(&lifetime)`
unfoldable pub lifetime_in_range : Duration → Bool
lifetime_in_range lifetime =
    leb min_descriptor_lifetime lifetime.secs
    && (ltb lifetime.secs max_descriptor_lifetime
        || (lifetime.secs == max_descriptor_lifetime && lifetime.nanos == 0))

unfoldable pub is_ascii : Bytes → Bool
is_ascii = all_of (λ b. ltb b 128)

-- `ok_or`
abbrev pub ok_or {ℓ κ} : {A : Type ℓ} {E : Type κ} → Option A → E → Result E A
ok_or (some a) e = ok a
ok_or none e = err e

unfoldable pub ticket_length_is_invalid : Bytes → Bool
ticket_length_is_invalid ticket =
    length ticket == 0 || ltb max_endpoint_ticket_len (length ticket) || not (is_ascii ticket)

module _ (o : Outside) where
  open o use {
    DateTime, timestamp, timestamp_subsec_nanos, is_ge, to_std, ticket_from_str, ticket_to_string,
    ticket_id,
  }

  pub record HostAccessDescriptor : Type 0 where
    pub host_label : Bytes
    pub issued_at : DateTime
    pub expires_at : DateTime
    pub endpoint_ticket : Bytes
    pub attach_capability : Bytes
    pub attached_version : DescriptorVersion
    pub ssh_enabled : Bool

  -- The first test of `validate`.
  unfoldable pub fields_are_invalid : HostAccessDescriptor → Bool
  fields_are_invalid d =
      not (validate_host_label d.host_label)
      || is_negative (timestamp d.issued_at)
      || is_negative (timestamp d.expires_at)
      || not (timestamp_subsec_nanos d.issued_at == 0)
      || not (timestamp_subsec_nanos d.expires_at == 0)
      || is_ge d.issued_at d.expires_at

  unfoldable pub validate : HostAccessDescriptor → Result HostAccessError (Unit {0})
  validate d = do
    ensure (not (fields_are_invalid d)) invalid_field
    lifetime ← ok_or (to_std d.expires_at d.issued_at) invalid_field
    ensure (lifetime_in_range lifetime) invalid_field
    ensure (not (ticket_length_is_invalid d.endpoint_ticket)) limit
    ticket ← ok_or (ticket_from_str d.endpoint_ticket) endpoint
    ensure (bytes_eq (ticket_to_string ticket) d.endpoint_ticket) endpoint

  -- `HostAccessDescriptor::new` on the fields in `d`.
  unfoldable pub new : HostAccessDescriptor → Result HostAccessError HostAccessDescriptor
  new d = do validate d; ok d

  -- `none` is a panic of `expect`.
  unfoldable pub endpoint_identity : HostAccessDescriptor → Option Bytes
  endpoint_identity d = elim (ticket_from_str d.endpoint_ticket) [
    | none ↦ none
    | some ticket ↦ some (ticket_id ticket)
  ]

  -- `u64::try_from` of an `i64`.
  unfoldable pub unix_seconds : DateTime → Result HostAccessError ℕ
  unix_seconds t = elim (timestamp t) [ pos n ↦ ok n | negsuc n ↦ err invalid_field ]

  -- The bytes that the encoder writes, with the seconds of the two times.
  unfoldable pub descriptor_bytes : HostAccessDescriptor → ℕ → ℕ → Bytes
  descriptor_bytes d issued expires =
      let out = put_head [] 5 7 in
      let out = put_text (put_uint out 1) d.host_label in
      let out = put_uint (put_uint out 2) issued in
      let out = put_uint (put_uint out 3) expires in
      let out = put_text (put_uint out 4) d.endpoint_ticket in
      let out = put_bytes (put_uint out 5) d.attach_capability in
      let out = put_head (put_uint out 6) 4 3 in
      let out = put_uint out d.attached_version.major in
      let out = put_uint out d.attached_version.minor in
      let out = put_uint out d.attached_version.patch in
      put_uint out 7 ++ (if d.ssh_enabled then 0xf5 else 0xf4) ∷ []

  unfoldable pub encode_host_access_descriptor : HostAccessDescriptor → Result HostAccessError Bytes
  encode_host_access_descriptor d = do
    validate d
    issued ← unix_seconds d.issued_at
    expires ← unix_seconds d.expires_at
    let out = descriptor_bytes d issued expires
    ensure (not (ltb max_canonical_host_access_descriptor_len (length out))) limit
    ok out
