-- ===== src/Worker/Records.antt =====
-- crates/session-sync-worker/src/model.rs: stored records, their revisions and `put`.
pub mod History
mod Examples
use attached.Common.{
  ℕ, ◌+◌, ◌-◌, ◌^◌, Bool, ◌||◌, ltb, leb, ◌==◌, not, if◌then◌else◌, length, Bytes, Option, none,
  some, Result, ok, err, ◌>>=◌, ◌>>◌, ensure,
}
use attached.Api.Envelope.{Envelope, max_ciphertext_bytes}
use attached.Worker.Account.{MutationError, invalid_request, revision_overflow, invalid_storage}

pub data MutationOutcome : Type 0 where
  created updated : (revision : ℕ) → MutationOutcome

-- `i64::MAX as u64`
abbrev pub max_revision : ℕ
max_revision = 9_223_372_036_854_775_807

pub record StoredRecord : Type 0 where
  pub revision : ℕ
  pub envelope_nonce : Bytes
  pub envelope_ciphertext : Bytes

unfoldable pub validate_record : StoredRecord → Result MutationError (Unit {0})
validate_record record' =
    if record'.revision == 0
      || ltb max_revision record'.revision
      || ltb max_ciphertext_bytes (length record'.envelope_ciphertext)
    then err invalid_storage
    else ok tt

unfoldable pub from_storage : ℕ → Bytes → Bytes → Result MutationError StoredRecord
from_storage revision envelope_nonce envelope_ciphertext = do
  let stored : StoredRecord = record {
    revision = revision;
    envelope_nonce = envelope_nonce;
    envelope_ciphertext = envelope_ciphertext;
  }
  validate_record stored
  ok stored

unfoldable pub into_envelope : StoredRecord → Envelope × ℕ
into_envelope stored = (
  record {
    envelope_version = 1;
    nonce = stored.envelope_nonce;
    ciphertext = stored.envelope_ciphertext;
  },
  stored.revision,
)

-- `checked_add` on `u64`, then the filter.
unfoldable pub next_revision : ℕ → Result MutationError ℕ
next_revision revision =
    if ltb (revision + 1) (2 ^ 64)
    then (if leb (revision + 1) max_revision then ok (revision + 1) else err revision_overflow)
    else err revision_overflow

-- The revision that the record gets, and what is answered.
unfoldable pub revise : Option StoredRecord → Result MutationError (ℕ × MutationOutcome)
revise none = ok (1, created 1)
revise (some stored) = do revision ← next_revision stored.revision; ok (revision, updated revision)

unfoldable pub put :
    Option StoredRecord → Envelope → Result MutationError (StoredRecord × MutationOutcome)
put current envelope = do
  ensure (envelope.envelope_version == 1) invalid_request
  (revision, outcome) ← revise current
  stored ← from_storage revision envelope.nonce envelope.ciphertext
  ok (stored, outcome)
