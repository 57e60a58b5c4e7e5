-- ===== src/Descriptor/Decoding.antt =====
-- crates/session-sync-protocol/src/canonical.rs: `decode_host_access_descriptor`.
use attached.Common.{
  ℕ, ◌^◌, Bool, true, false, ltb, ◌==◌, if◌then◌else◌, length, Bytes, bytes_eq, Result, ok, err,
}
use attached.Action.{◌>>=◌, ◌>>◌, pure, ensure}
use attached.Descriptor.Cbor.{
  HostAccessError, malformed, non_canonical, limit, invalid_field, Decode, byte, head, uint, key,
  fixed_bytes, text,
}
use attached.Descriptor.Outside.{Outside}
use attached.Descriptor.Model.{
  max_host_label_bytes, max_endpoint_ticket_len, max_canonical_host_access_descriptor_len,
  HostAccessDescriptor, new, encode_host_access_descriptor, ok_or,
}

-- `?` on a value that is there.
abbrev pub lift : {A : Type 0} → Result HostAccessError A → Decode A
lift (ok a) d = ok (a, d)
lift (err e) d = err e

-- `u16::try_from(value).map_err(|_| InvalidField)`
unfoldable pub u16_from : ℕ → Result HostAccessError ℕ
u16_from value = if ltb value (2 ^ 16) then ok value else err invalid_field

-- The last byte of a descriptor.
unfoldable pub bool_from : ℕ → Result HostAccessError Bool
bool_from value =
    if value == 0xf4 then ok false else if value == 0xf5 then ok true else err invalid_field

-- `decoder.position != input.len()`
unfoldable pub at_end : Decode (Unit {0})
at_end d = ensure (d.position == length d.input) malformed d

module _ (o : Outside) where
  unfoldable pub datetime_from_unix_seconds : ℕ → Result HostAccessError o.DateTime
  datetime_from_unix_seconds seconds =
      if ltb seconds (2 ^ 63)
      then ok_or (o.from_timestamp seconds) invalid_field
      else err invalid_field

  -- The fields of the map, in order, up to the end of the input.
  unfoldable pub decode_fields : Decode (HostAccessDescriptor o)
  decode_fields = do
    field_count ← head 5
    ensure (field_count == 7) malformed
    key 1
    host_label ← text 1 max_host_label_bytes
    key 2
    issued ← uint
    issued_at ← lift (datetime_from_unix_seconds issued)
    key 3
    expires ← uint
    expires_at ← lift (datetime_from_unix_seconds expires)
    key 4
    endpoint_ticket ← text 1 max_endpoint_ticket_len
    key 5
    attach_capability ← fixed_bytes 32
    key 6
    version_count ← head 4
    ensure (version_count == 3) malformed
    major_value ← uint
    major ← lift (u16_from major_value)
    minor_value ← uint
    minor ← lift (u16_from minor_value)
    patch_value ← uint
    patch ← lift (u16_from patch_value)
    key 7
    last ← byte
    ssh_enabled ← lift (bool_from last)
    at_end
    pure (record {
      host_label = host_label;
      issued_at = issued_at;
      expires_at = expires_at;
      endpoint_ticket = endpoint_ticket;
      attach_capability = attach_capability;
      attached_version = record { major = major; minor = minor; patch = patch };
      ssh_enabled = ssh_enabled;
    })

  -- The whole of the decoder, with the comparison against the canonical bytes.
  unfoldable pub decode_checked : Bytes → Decode (HostAccessDescriptor o)
  decode_checked input = do
    fields ← decode_fields
    descriptor ← lift (new o fields)
    canonical ← lift (encode_host_access_descriptor o descriptor)
    ensure (bytes_eq canonical input) non_canonical
    pure descriptor

  unfoldable pub decode_host_access_descriptor :
      Bytes → Result HostAccessError (HostAccessDescriptor o)
  decode_host_access_descriptor input =
      if ltb max_canonical_host_access_descriptor_len (length input)
      then err limit
      else elim (decode_checked input (record { input = input; position = 0 })) [
        | ok (descriptor, _) ↦ ok descriptor
        | err e ↦ err e
      ]
