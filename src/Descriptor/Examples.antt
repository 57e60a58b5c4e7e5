-- ===== src/Descriptor/Examples.antt =====
-- The theorems on the descriptors of crates/session-sync-protocol/src/canonical.rs at a small one.
use attached.Common.{◌≡◌, ◌↔◌, refl, [], ◌∷◌, Bytes, ok, err, bytes_eq}
use attached.Descriptor.Cbor.{
  malformed, non_canonical, invalid_field, head, byte, head_value, is_overlong,
}
use attached.Descriptor.Model.{
  validate, encode_host_access_descriptor, validate_host_label, fields_are_invalid,
  lifetime_in_range, ticket_length_is_invalid, is_ascii,
}
use attached.Descriptor.Decoding.{decode_host_access_descriptor, decode_checked, decode_fields}
use attached.Action.{ensure, ◌>>=◌}
use attached.Descriptor.Agreement.{decode_iff_encode, encode_iff_validate}
use attached.Descriptor.Small.{
  descriptor_encodes, outside, laws, descriptor, encoded, descriptor_types,
}

-- A map of two fields is not a descriptor.
two_fields : decode_host_access_descriptor outside (0xa2 ∷ 1 ∷ []) ≡ err malformed
unfolding decode_host_access_descriptor decode_checked decode_fields head byte head_value
    is_overlong ensure ◌>>=◌
two_fields = refl

-- The number of the fields in two bytes, which one byte can hold.
overlong : decode_host_access_descriptor outside (0xb8 ∷ 7 ∷ []) ≡ err non_canonical
unfolding decode_host_access_descriptor decode_checked decode_fields head byte head_value
    is_overlong ensure ◌>>=◌
overlong = refl

too_short : validate outside (record descriptor { expires_at = 1059 }) ≡ err invalid_field
unfolding validate validate_host_label fields_are_invalid lifetime_in_range ticket_length_is_invalid
    is_ascii bytes_eq
too_short = refl

test_decoding : decode_host_access_descriptor outside encoded ≡ ok descriptor
test_decoding = (decode_iff_encode laws descriptor encoded descriptor_types).1 descriptor_encodes

decode_iff_encode_example :
    (decode_host_access_descriptor outside encoded ≡ ok descriptor)
    ↔ (encode_host_access_descriptor outside descriptor ≡ ok encoded)
decode_iff_encode_example = decode_iff_encode laws descriptor encoded descriptor_types

encode_iff_validate_example :
    ((out : Bytes) × (encode_host_access_descriptor outside descriptor ≡ ok out))
    ↔ (validate outside descriptor ≡ ok tt)
encode_iff_validate_example = encode_iff_validate laws descriptor descriptor_types
