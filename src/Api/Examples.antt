-- ===== src/Api/Examples.antt =====
-- Concrete indexes, sequences and envelope texts for crates/session-sync-protocol/src/api.rs.
use attached.Common.{ℕ, length, List, [], ◌∷◌, ◌≡◌, ◌↔◌, refl, none, some, ok, err}
use attached.Api.Envelope.{Envelope, invalid_request}
use attached.Api.Wire.{EnvelopeWire, decode_wire}
use attached.Api.Wire.Padded.{padded, padded_laws}
use attached.Api.Wire.Decoding.{IsTextOf, decode_wire_iff}
use attached.Api.Sequence.{
  LiveRecordIndexEntry, LiveRecordIndex, is_less, any_unrevised, any_descent, any_disorder,
  validate_index, new_index,
}
use attached.Api.Sequence.Visitor.{SeqAccess}
use attached.Api.Sequence.Visitor.Bounded.{Holds}

abbrev entry : ℕ → ℕ → LiveRecordIndexEntry
entry b n = record { record_id = 0 ∷ b ∷ []; revision = n }

abbrev entries : List LiveRecordIndexEntry
entries = entry 1 5 ∷ entry 2 1 ∷ entry 9 7 ∷ []

abbrev entries_index : LiveRecordIndex
entries_index = record { records = entries }

test_sorted : new_index entries ≡ ok (record { records = entries })
unfolding new_index validate_index any_unrevised any_disorder any_descent is_less
test_sorted = refl

test_repeated : new_index (entry 1 5 ∷ entry 1 6 ∷ []) ≡ err invalid_request
unfolding new_index validate_index any_unrevised any_disorder any_descent is_less
test_repeated = refl

test_unrevised : new_index (entry 1 0 ∷ []) ≡ err invalid_request
unfolding new_index validate_index any_unrevised
test_unrevised = refl

-- A list as a parser that gives its length as the hint.
abbrev list_access : SeqAccess (List ℕ) ℕ
list_access = record {
  size_hint = λ xs. some (length xs);
  next_element = λ xs. elim xs [ [] ↦ ok (none, []) | x ∷ rest ↦ ok (some x, rest) ];
  next_ignored = λ xs. elim xs [ [] ↦ ok (none, []) | x ∷ rest ↦ ok (some tt, rest) ];
}

reads_in_turn : Holds list_access
reads_in_turn = record {
  at = λ xs. xs;
  next_some = λ x xs. refl;
  next_none = refl;
  ignored_some = λ x xs. refl;
  ignored_none = refl;
  hint_exact = λ xs n h. cc;
}

abbrev numbers : List ℕ
numbers = 4 ∷ 5 ∷ 6 ∷ []

abbrev envelope : Envelope
envelope = record {
  envelope_version = 1;
  nonce =
      1 ∷ 2 ∷ 3 ∷ 4 ∷ 5 ∷ 6 ∷ 7 ∷ 8 ∷ 9 ∷ 10 ∷ 11 ∷ 12 ∷ 13 ∷ 14 ∷ 15 ∷ 16 ∷ 17 ∷ 18 ∷ 19 ∷ 20 ∷ 21
      ∷ 22 ∷ 23 ∷ 24 ∷ [];
  ciphertext = 7 ∷ 8 ∷ [];
}

abbrev text : EnvelopeWire
text = record {
  version = 1;
  nonce = padded.encode envelope.nonce;
  ciphertext = padded.encode envelope.ciphertext;
}

decode_wire_iff_example : (decode_wire padded text ≡ ok envelope) ↔ IsTextOf padded text envelope
decode_wire_iff_example = decode_wire_iff padded_laws text envelope
