-- ===== src/Descriptor/Small.antt =====
-- A small host access descriptor of crates/session-sync-protocol/src/canonical.rs, over times that
-- are whole seconds.
use attached.Common.{
  to_be_bytes, ℕ, ◌-◌, ◌^◌, ◌<◌, ◌≡◌, refl, true, [], ◌∷◌, ◌++◌, Bytes, ok, some, none, arith, ltb,
  leb, if◌then◌else◌, bytes_eq,
}
use attached.Descriptor.Outside.{Outside, ChronoLaws, pos, negsuc}
use attached.Descriptor.Cbor.{put_head, put_uint, put_text, put_bytes, head_byte}
use attached.Descriptor.Model.{
  encode_host_access_descriptor, unix_seconds, descriptor_bytes, HostAccessDescriptor, validate,
  validate_host_label, fields_are_invalid, lifetime_in_range, ticket_length_is_invalid, is_ascii,
}
use attached.Descriptor.Agreement.{HasTypes}

-- Times from 0 to 2^63 - 1 are not negative; every text is a ticket, of the identity 7.
abbrev pub outside : Outside
outside = record {
  DateTime = ℕ;
  timestamp = λ t. if ltb t (2 ^ 63) then pos t else negsuc t;
  timestamp_subsec_nanos = λ _. 0;
  is_ge = λ a b. leb b a;
  to_std = λ b a. if leb a b then some (record { secs = b - a; nanos = 0 }) else none;
  from_timestamp = λ s. some s;
  EndpointTicket = Bytes;
  ticket_from_str = λ s. some s;
  ticket_to_string = λ s. s;
  ticket_id = λ _. 7 ∷ [];
}

timestamp_bound :
    (t s : ℕ) → (if ltb t (2 ^ 63) then pos t else negsuc t) ≡ pos s → (t < 2 ^ 63) × (t ≡ s)
timestamp_bound t s h = ground arith

pub laws : ChronoLaws outside
laws = record {
  from_timestamp_lem = λ t s h _. ground (arith, timestamp_bound t s h);
  timestamp_i64 = λ t s h. ground (arith, timestamp_bound t s h);
  to_std_seconds = λ a b x y p q _ _. cc ((timestamp_bound a x p).1, (timestamp_bound b y q).1);
}

abbrev pub eight : ℕ → Bytes
eight b = b ∷ b ∷ b ∷ b ∷ b ∷ b ∷ b ∷ b ∷ []

abbrev pub descriptor : HostAccessDescriptor outside
descriptor = record {
  host_label = b'h' ∷ b'1' ∷ [];
  issued_at = 1000;
  expires_at = 1900;
  endpoint_ticket = b't' ∷ [];
  attach_capability = eight 1 ++ eight 2 ++ eight 3 ++ eight 4;
  attached_version = record { major = 0; minor = 300; patch = 24 };
  ssh_enabled = true;
}

abbrev pub descriptor_types : HasTypes descriptor
descriptor_types = record {
  capability = refl;
  major_u16 = omega arith;
  minor_u16 = omega arith;
  patch_u16 = omega arith;
}

pub descriptor_valid : validate outside descriptor ≡ ok tt
unfolding validate validate_host_label fields_are_invalid lifetime_in_range ticket_length_is_invalid
    is_ascii bytes_eq
descriptor_valid = refl

abbrev pub encoded : Bytes
encoded =
    0xa7 ∷ 1 ∷ 0x62 ∷ b'h' ∷ b'1' ∷ 2 ∷ 0x19 ∷ 3 ∷ 232 ∷ 3 ∷ 0x19 ∷ 7 ∷ 108 ∷ 4 ∷ 0x61 ∷ b't' ∷ 5
      ∷ 0x58 ∷ 32 ∷ []
    ++ eight 1
    ++ eight 2
    ++ eight 3
    ++ eight 4
    ++ 6 ∷ 0x83 ∷ 0 ∷ 0x19 ∷ 1 ∷ 44 ∷ 0x18 ∷ 24 ∷ 7 ∷ 0xf5 ∷ []

pub descriptor_encodes : encode_host_access_descriptor outside descriptor ≡ ok encoded
unfolding encode_host_access_descriptor validate validate_host_label fields_are_invalid
    lifetime_in_range ticket_length_is_invalid is_ascii bytes_eq unix_seconds descriptor_bytes
    put_text put_bytes put_uint put_head head_byte to_be_bytes
descriptor_encodes = refl
