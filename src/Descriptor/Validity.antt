-- ===== src/Descriptor/Validity.antt =====
-- crates/session-sync-protocol/src/canonical.rs: what `validate` has checked.
use attached.Common.{
  ℕ, ◌≤◌, Bool, true, false, ltb, all_of, [], ◌∷◌, ◌≡◌, refl, length, Bytes, is_utf8, bytes_eq_iff,
  ok, some, none, Option, arith,
}
use attached.Descriptor.Outside.{Outside, ℤ, pos, negsuc, Duration}
use attached.Descriptor.Model.{
  HostAccessDescriptor, validate, fields_are_invalid, ticket_length_is_invalid, validate_host_label,
  is_label_byte, is_ascii, lifetime_in_range, is_negative,
}

all_of_mono :
    (p q : ℕ → Bool) (xs : Bytes)
    → ((x : ℕ) → p x ≡ true → q x ≡ true)
    → all_of p xs ≡ true
    → all_of q xs ≡ true
all_of_mono p q [] k h = refl
all_of_mono p q (x ∷ xs) k h = ground (arith, k x, all_of_mono p q xs k)

-- ASCII bytes are UTF-8.
pub is_ascii-is_utf8 : (s : Bytes) → is_ascii s ≡ true → is_utf8 s ≡ true
unfolding is_ascii is_utf8
is_ascii-is_utf8 [] h = refl
is_ascii-is_utf8 (a ∷ []) h = ground arith
is_ascii-is_utf8 (a ∷ b ∷ []) h = ground arith
is_ascii-is_utf8 (a ∷ b ∷ c ∷ []) h = ground (arith, is_ascii-is_utf8 (b ∷ c ∷ []))
is_ascii-is_utf8 (a ∷ b ∷ c ∷ e ∷ rest) h = ground (arith, is_ascii-is_utf8 (b ∷ c ∷ e ∷ rest))

pub record IsLabel (s : Bytes) : Type 0 where
  pub some_bytes : 1 ≤ length s
  pub at_most : length s ≤ 64
  pub ascii : is_ascii s ≡ true

label_byte-ascii : (b : ℕ) → is_label_byte b ≡ true → ltb b 128 ≡ true
label_byte-ascii b h = ground arith

pub validate_host_label-IsLabel : (s : Bytes) → validate_host_label s ≡ true → IsLabel s
unfolding validate_host_label is_ascii
validate_host_label-IsLabel [] h = cc
validate_host_label-IsLabel (b ∷ bytes) h = record {
  some_bytes = omega arith;
  at_most = ground arith;
  ascii = all_of_mono is_label_byte (λ x. ltb x 128) (b ∷ bytes) label_byte-ascii (ground arith);
}

pub ticket_length_valid :
    (t : Bytes)
    → ticket_length_is_invalid t ≡ false
    → (1 ≤ length t) × (length t ≤ 4096) × (is_ascii t ≡ true)
unfolding ticket_length_is_invalid
ticket_length_valid t h = (ground arith, ground arith, ground arith)

pub not_negative : (z : ℤ) → is_negative z ≡ false → (s : ℕ) × (z ≡ pos s)
not_negative (pos s) h = (s, refl)
not_negative (negsuc s) h = cc

module _ {o : Outside} (d : HostAccessDescriptor o) where
  pub fields_valid :
      fields_are_invalid o d ≡ false
      → (validate_host_label d.host_label ≡ true)
        × (is_negative (o.timestamp d.issued_at) ≡ false)
        × (is_negative (o.timestamp d.expires_at) ≡ false)
        × (o.timestamp_subsec_nanos d.issued_at ≡ 0)
        × (o.timestamp_subsec_nanos d.expires_at ≡ 0)
  unfolding fields_are_invalid
  fields_valid h = (ground arith, ground arith, ground arith, ground arith, ground arith)

  -- The parts of a successful validation.
  pub record Checked : Type 0 where
    pub fields : fields_are_invalid o d ≡ false
    pub lifetime : Duration
    pub lifetime_eq : o.to_std d.expires_at d.issued_at ≡ some lifetime
    pub in_range : lifetime_in_range lifetime ≡ true
    pub ticket_length : ticket_length_is_invalid d.endpoint_ticket ≡ false
    pub ticket : o.EndpointTicket
    pub ticket_eq : o.ticket_from_str d.endpoint_ticket ≡ some ticket
    pub ticket_canonical : o.ticket_to_string ticket ≡ d.endpoint_ticket

  pub validate-Checked : validate o d ≡ ok tt → Checked
  unfolding validate
  validate-Checked h =
      by_cases (o.to_std d.expires_at d.issued_at) (o.ticket_from_str d.endpoint_ticket) refl refl
    where
      by_cases :
          (t : Option Duration) (u : Option o.EndpointTicket)
          → o.to_std d.expires_at d.issued_at ≡ t
          → o.ticket_from_str d.endpoint_ticket ≡ u
          → Checked
      by_cases none u p q = absurd (ground arith)
      by_cases (some l) none p q = absurd (ground arith)
      by_cases (some l) (some t) p q = record {
        fields = ground arith;
        lifetime = l;
        lifetime_eq = p;
        in_range = ground arith;
        ticket_length = ground arith;
        ticket = t;
        ticket_eq = q;
        ticket_canonical = (bytes_eq_iff (o.ticket_to_string t) d.endpoint_ticket).0 (ground arith);
      }
