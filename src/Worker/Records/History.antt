-- ===== src/Worker/Records/History.antt =====
-- crates/session-sync-worker/src/model.rs: what a sequence of `put` leaves of a record.
use mathlib.Core.Path.{subst}
use native.Mathlib.Decide.{dec_lt}
use attached.Common.{
  ◌⊎◌, inl, inr, ℕ, ◌+◌, ◌≤◌, ◌<◌, ◌==◌, ==→eq, le→ltb_false, ◌≡◌, ◌↔◌, refl, sym, ap, ◌∙◌, arith,
  length, Bytes, Option, none, some, ok, err, bind-eq-ok, ensure, ensure-eq-ok,
}
use attached.Api.Envelope.{Envelope, new_envelope, max_ciphertext_bytes}
use attached.Worker.Account.{invalid_request, revision_overflow}
use attached.Worker.Records.{
  MutationOutcome, created, updated, max_revision, StoredRecord, validate_record, from_storage,
  into_envelope, next_revision, revise, put,
}

-- What `validate` checks.
pub record IsStorable (r : StoredRecord) : Type 0 where
  pub revision_some : 1 ≤ r.revision
  pub revision_most : r.revision ≤ max_revision
  pub ciphertext_most : length r.envelope_ciphertext ≤ max_ciphertext_bytes

abbrev pub revision_of : Option StoredRecord → ℕ
revision_of none = 0
revision_of (some r) = r.revision

abbrev pub outcome_of : Option StoredRecord → MutationOutcome
outcome_of none = created 1
outcome_of (some r) = updated (r.revision + 1)

-- The record of an envelope, at the revision behind the current one.
abbrev pub replacement : Option StoredRecord → Envelope → StoredRecord
replacement current e = record {
  revision = revision_of current + 1;
  envelope_nonce = e.nonce;
  envelope_ciphertext = e.ciphertext;
}

validate_record-IsStorable : (r : StoredRecord) → validate_record r ≡ ok tt → IsStorable r
unfolding validate_record
validate_record-IsStorable r h = record {
  revision_some = ground arith;
  revision_most = ground arith;
  ciphertext_most = ground arith;
}

from_storage-eq-ok :
    (n : ℕ) (nonce c : Bytes) {r : StoredRecord}
    → from_storage n nonce c ≡ ok r
    → (record { revision = n; envelope_nonce = nonce; envelope_ciphertext = c } ≡ r) × IsStorable r
unfolding from_storage
from_storage-eq-ok n nonce c {r} h =
    let (_, valid, made) =
      bind-eq-ok
        (validate_record (record { revision = n; envelope_nonce = nonce; envelope_ciphertext = c }))
        _ h in
    let same : record { revision = n; envelope_nonce = nonce; envelope_ciphertext = c } ≡ r = cc in
    (same, subst IsStorable same (validate_record-IsStorable _ valid))

pub from_storage_ok :
    (r : StoredRecord)
    → IsStorable r
    → from_storage r.revision r.envelope_nonce r.envelope_ciphertext ≡ ok r
unfolding from_storage validate_record
from_storage_ok r s = ground arith

revise-eq-ok :
    (current : Option StoredRecord) {n : ℕ} {o : MutationOutcome}
    → revise current ≡ ok (n, o)
    → (n ≡ revision_of current + 1) × (o ≡ outcome_of current) × (n ≤ max_revision)
unfolding revise next_revision
revise-eq-ok none h = ground arith
revise-eq-ok (some r) h = ground arith

revise_ok :
    (current : Option StoredRecord)
    → revision_of current < max_revision
    → revise current ≡ ok (revision_of current + 1, outcome_of current)
unfolding revise next_revision
revise_ok none h = refl
revise_ok (some r) h = ground arith

module _ (current : Option StoredRecord) (e : Envelope) where
  put-eq-ok :
      (r : StoredRecord) (o : MutationOutcome)
      → put current e ≡ ok (r, o)
      → (e.envelope_version ≡ 1)
        × (r ≡ replacement current e)
        × (o ≡ outcome_of current)
        × IsStorable r
  unfolding put
  put-eq-ok r o h =
      let (_, version, h₁) = bind-eq-ok (ensure (e.envelope_version == 1) invalid_request) _ h in
      let ((n, out), revised, h₂) = bind-eq-ok (revise current) _ h₁ in
      let (r', made, h₃) = bind-eq-ok (from_storage n e.nonce e.ciphertext) _ h₂ in
      let (n_eq, out_eq, _) = revise-eq-ok current revised in
      let (same, storable) = from_storage-eq-ok n e.nonce e.ciphertext made in
      let ends : (r' ≡ r) × (out ≡ o) = ground arith in
      let at_next : record {
        revision = n;
        envelope_nonce = e.nonce;
        envelope_ciphertext = e.ciphertext;
      }
          ≡ replacement current e =
        λ i. record {
          revision = n_eq i;
          envelope_nonce = e.nonce;
          envelope_ciphertext = e.ciphertext;
        } in
      (
        ==→eq e.envelope_version 1 (ensure-eq-ok _ invalid_request version),
        sym ends.0 ∙ sym same ∙ at_next,
        sym ends.1 ∙ out_eq,
        subst IsStorable ends.0 storable,
      )

  put_ok :
      e.envelope_version ≡ 1
      → IsStorable (replacement current e)
      → put current e ≡ ok (replacement current e, outcome_of current)
  unfolding put
  put_ok version s =
      rw
        (
          version,
          revise_ok current (omega (arith, s.revision_most)),
          from_storage_ok (replacement current e) s,
        )
        refl

-- `put` stores a record exactly when the envelope has version 1 and the envelope at the next
-- revision can be stored; it is that record, and the outcome says whether one was there.
pub put_iff :
    (current : Option StoredRecord) (e : Envelope) (r : StoredRecord) (o : MutationOutcome)
    → (put current e ≡ ok (r, o)) ↔ (
        (e.envelope_version ≡ 1)
        × (r ≡ replacement current e)
        × (o ≡ outcome_of current)
        × IsStorable r)
put_iff current e r o = (
  put-eq-ok current e r o,
  λ h.
      let (version, same, outcome, storable) = h in
      put_ok current e version (subst IsStorable same storable) ∙ cc (same, outcome),
)

-- A record's row, from the start of the account: a `put` that fails is rolled back.
pub data Reachable : ℕ → Option StoredRecord → Type 0 where
  absent : Reachable 0 none
  stored :
      {n : ℕ} {current : Option StoredRecord} {r : StoredRecord} (e : Envelope)
      (o : MutationOutcome)
      → put current e ≡ ok (r, o)
      → Reachable n current
      → Reachable (n + 1) (some r)

revision_counts : {n : ℕ} {row : Option StoredRecord} → Reachable n row → revision_of row ≡ n
revision_counts absent = refl
revision_counts (stored {n} {current} {r} e o h before) =
    let (_, same, _, _) = put-eq-ok current e r o h in
    ap (λ (t : StoredRecord). t.revision) same ∙ ap (λ (k : ℕ). k + 1) (revision_counts before)

-- After n puts of one record, the row has revision n, is within the bounds of the storage, and
-- gives back an envelope that `Envelope::new` makes of its fields.
pub row_invariant :
    {n : ℕ} {r : StoredRecord}
    → Reachable n (some r)
    → (r.revision ≡ n)
      × IsStorable r
      × (new_envelope r.envelope_nonce r.envelope_ciphertext ≡ ok (into_envelope r).0)
unfolding into_envelope new_envelope
row_invariant {n} {r} (stored {current} e o h before) =
    let (_, _, _, storable) = put-eq-ok current e r o h in
    (
      revision_counts (stored e o h before),
      storable,
      rw (le→ltb_false max_ciphertext_bytes (length r.envelope_ciphertext) storable.ciphertext_most)
          refl,
    )

-- The envelope that a put stores is the one that is read, with the next revision.
pub put_roundtrip :
    {n : ℕ} {row : Option StoredRecord} (e : Envelope) (r : StoredRecord) (o : MutationOutcome)
    → Reachable n row
    → put row e ≡ ok (r, o)
    → into_envelope r ≡ (e, n + 1)
unfolding into_envelope
put_roundtrip {n} {row} e r o before h =
    let (version, same, _, _) = put-eq-ok row e r o h in
    ap into_envelope same ∙ λ i. (
      record { envelope_version = sym version i; nonce = e.nonce; ciphertext = e.ciphertext },
      revision_counts before i + 1,
    )

-- At the last revision a put is refused, and before it every envelope of version 1 within the
-- length limit is stored.
pub put_total :
    {n : ℕ} {row : Option StoredRecord} (e : Envelope)
    → Reachable n row
    → e.envelope_version ≡ 1
    → length e.ciphertext ≤ max_ciphertext_bytes
    → ((n ≡ max_revision) × (put row e ≡ err revision_overflow))
      ⊎ ((n < max_revision) × (put row e ≡ ok (replacement row e, outcome_of row)))
unfolding put revise next_revision
put_total e absent version len = inr (
  omega arith,
  put_ok none e version
      (record { revision_some = omega arith; revision_most = omega arith; ciphertext_most = len }),
)
put_total e (stored {n} {current} {r} e' o h before) version len =
    let row = stored e' o h before in
    let (same, storable, _) = row_invariant row in
    let most = storable.revision_most in
    elim (dec_lt (n + 1) max_revision) [
      | yes p ↦ inr (
        p,
        put_ok (some r) e version (record {
          revision_some = omega arith;
          revision_most = omega arith;
          ciphertext_most = len;
        }),
      )
      | no p ↦
          let last : r.revision ≡ max_revision = omega arith in
          inl (omega arith, rw (version, last) refl)
    ]
