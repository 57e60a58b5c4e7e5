-- ===== src/Worker/Records/Examples.antt =====
-- Puts like those of the tests of crates/session-sync-worker/src/model.rs.
use attached.Common.{ℕ, [], ◌∷◌, ◌≡◌, ◌↔◌, refl, none, some, ok, err}
use attached.Api.Envelope.{Envelope, new_envelope}
use attached.Worker.Account.{invalid_request, revision_overflow, invalid_storage}
use attached.Worker.Records.{
  created, updated, max_revision, StoredRecord, validate_record, from_storage, into_envelope,
  next_revision, revise, put,
}
use attached.Worker.Records.History.{
  IsStorable, Reachable, absent, stored, replacement, put_iff, row_invariant,
}

abbrev envelope : ℕ → Envelope
envelope b = record { envelope_version = 1; nonce = b ∷ b ∷ []; ciphertext = b ∷ b ∷ b ∷ [] }

abbrev first : StoredRecord
first = record { revision = 1; envelope_nonce = 3 ∷ 3 ∷ []; envelope_ciphertext = 3 ∷ 3 ∷ 3 ∷ [] }

abbrev second : StoredRecord
second = record { revision = 2; envelope_nonce = 4 ∷ 4 ∷ []; envelope_ciphertext = 4 ∷ 4 ∷ 4 ∷ [] }

test_create : put none (envelope 3) ≡ ok (first, created 1)
unfolding put revise from_storage validate_record
test_create = refl

test_update : put (some first) (envelope 4) ≡ ok (second, updated 2)
unfolding put revise next_revision from_storage validate_record
test_update = refl

test_last :
    put (some (record first { revision = max_revision })) (envelope 5) ≡ err revision_overflow
unfolding put revise next_revision
test_last = refl

test_version : put none (record (envelope 1) { envelope_version = 2 }) ≡ err invalid_request
unfolding put
test_version = refl

test_revision : from_storage 0 [] [] ≡ err invalid_storage
unfolding from_storage validate_record
test_revision = refl

once : Reachable 1 (some first)
once = stored (envelope 3) (created 1) test_create absent

put_iff_example : (put (some first) (envelope 4) ≡ ok (second, updated 2)) ↔ (
    ((envelope 4).envelope_version ≡ 1)
    × (second ≡ replacement (some first) (envelope 4))
    × (updated 2 ≡ updated 2)
    × IsStorable second)
put_iff_example = put_iff (some first) (envelope 4) second (updated 2)

row_invariant_example :
    (second.revision ≡ 2)
    × IsStorable second
    × (new_envelope second.envelope_nonce second.envelope_ciphertext ≡ ok (into_envelope second).0)
row_invariant_example = row_invariant (stored (envelope 4) (updated 2) test_update once)
