-- ===== src/Catalog/Refresh/Attachment.antt =====
-- crates/cli/src/sync/refresh.rs: the refresh of one publisher that has been selected.
use mathlib.Core.Path.{subst}
use attached.Common.{
  ℕ, ◌≤◌, true, false, leb, List, Option, none, some, bytes_eq, bytes_eq_iff, Result, ok, err,
  ◌>>=◌, ◌>>◌, ensure, bind-eq-ok, ensure-eq-ok, ◌≡◌, refl, ap, ◌∙◌, arith,
}
use attached.Api.Sequence.{LiveRecordIndexEntry}
use attached.Descriptor.Outside.{Outside}
use attached.Descriptor.Cbor.{HostAccessError}
use attached.Descriptor.Model.{endpoint_identity}
use attached.Sealing.{Cipher, CheckedAdd, envelope_of}
use attached.Catalog.Model.{AccountCredentials, HostConnection, from_opened, ssh_attachment}
use attached.Catalog.Fetch.{FetchedRecord, Client, FetchError, find_entry, fetch_consistent_record}
use attached.Catalog.Fetch.Attempts.{IsConsistent}
use attached.Catalog.Fetch.Consistent.{fetch_consistent_record_lem}
use attached.Catalog.Refresh.{open_fetched}
use attached.Catalog.Refresh.Current.{open-current}

pub data AttachmentError (Failure : Type 0) : Type 0 where
  list_failed : Failure → AttachmentError Failure
  fetch_failed : FetchError Failure → AttachmentError Failure
  no_longer_advertised : AttachmentError Failure
  revision_moved_backwards : AttachmentError Failure
  disappeared : AttachmentError Failure
  invalid_descriptor : HostAccessError → AttachmentError Failure
  panicked : AttachmentError Failure
  ssh_disabled : AttachmentError Failure
  identity_changed : AttachmentError Failure

module _ {Failure : Type 0} where
  -- `context` on an `Option`, and `?` on the results of what the function calls
  abbrev pub present {ℓ} :
      {A : Type ℓ} → Option A → AttachmentError Failure → Result (AttachmentError Failure) A
  present (some a) e = ok a
  present none e = err e

  abbrev pub lift {ℓ κ} :
      {A : Type ℓ} {E : Type κ}
      → (E → AttachmentError Failure)
      → Result E A
      → Result (AttachmentError Failure) A
  lift wrap (ok a) = ok a
  lift wrap (err e) = err (wrap e)

  present-eq-ok :
      {A : Type 0} (x : Option A) (e : AttachmentError Failure) (a : A)
      → present x e ≡ ok a
      → x ≡ some a
  present-eq-ok (some b) e a h = ground arith
  present-eq-ok none e a h = cc

  lift-eq-ok :
      {A E : Type 0} (wrap : E → AttachmentError Failure) (x : Result E A) (a : A)
      → lift wrap x ≡ ok a
      → x ≡ ok a
  lift-eq-ok wrap (ok b) a h = ground arith
  lift-eq-ok wrap (err e) a h = cc

module _ {o : Outside} {Failure : Type 0} (cipher : Cipher) (checked_add : CheckedAdd o)
    (account : AccountCredentials) (client : Client Failure) where
  -- The part behind the index, with the clock read when the record has been fetched.
  unfoldable pub verify_attachment :
      o.DateTime
      → HostConnection o
      → Option FetchedRecord
      → Result (AttachmentError Failure) (HostConnection o)
  verify_attachment now previous answer = do
    fetched ← present answer disappeared
    envelope ←
        lift invalid_descriptor (envelope_of fetched.envelope.nonce fetched.envelope.ciphertext)
    descriptor ←
        lift invalid_descriptor
          (open_fetched cipher checked_add account now previous.record_id envelope)
    identity ← present (endpoint_identity o descriptor) panicked
    let attachment =
        ssh_attachment o (from_opened o previous.record_id fetched.revision descriptor identity)
    ensure attachment.ssh_enabled ssh_disabled
    ensure (bytes_eq attachment.endpoint_identity previous.endpoint_identity) identity_changed
    ok attachment

  unfoldable pub check_entry :
      HostConnection o
      → List LiveRecordIndexEntry
      → Result (AttachmentError Failure) LiveRecordIndexEntry
  check_entry previous entries = do
    entry ← present (find_entry previous.record_id entries) no_longer_advertised
    ensure (leb previous.service_revision entry.revision) revision_moved_backwards
    ok entry

  unfoldable pub refresh_ssh_attachment :
      o.DateTime
      → HostConnection o
      → client.State
      → Result (AttachmentError Failure) (HostConnection o)
  refresh_ssh_attachment now previous s = do
    let (s', listing) = client.list_records s
    entries ← lift list_failed listing
    entry ← check_entry previous entries
    answer ← lift fetch_failed (fetch_consistent_record client entry s').1
    verify_attachment now previous answer

  -- The publisher is the one that was selected, not older than before, open to SSH and not expired.
  pub record IsRefreshed (now : o.DateTime) (previous next : HostConnection o) : Type 0 where
    pub same_record : next.record_id ≡ previous.record_id
    pub same_endpoint : next.endpoint_identity ≡ previous.endpoint_identity
    pub not_back : previous.service_revision ≤ next.service_revision
    pub enabled : next.ssh_enabled ≡ true
    pub fresh : o.is_ge now next.expires_at ≡ false

  connection-injective :
      (a b : HostConnection o)
      → Path (Result (AttachmentError Failure) (HostConnection o)) (ok a) (ok b)
      → a ≡ b
  connection-injective a b e = cc

  verified :
      (now : o.DateTime) (previous next : HostConnection o) (f : FetchedRecord)
      → verify_attachment now previous (some f) ≡ ok next
      → previous.service_revision ≤ f.revision
      → IsRefreshed now previous next
  unfolding verify_attachment from_opened ssh_attachment open_fetched
  verified now previous next f h newer =
      let (envelope, _, h₁) =
        bind-eq-ok (lift invalid_descriptor (envelope_of f.envelope.nonce f.envelope.ciphertext)) _
          h in
      let opens = open_fetched cipher checked_add account now previous.record_id envelope in
      let (d, opened, h₂) = bind-eq-ok (lift invalid_descriptor opens) _ h₁ in
      let (identity, _, h₃) = bind-eq-ok (present (endpoint_identity o d) panicked) _ h₂ in
      let (_, enabled, h₄) = bind-eq-ok (ensure d.ssh_enabled ssh_disabled) _ h₃ in
      let (_, same, h₅) =
        bind-eq-ok (ensure (bytes_eq identity previous.endpoint_identity) identity_changed) _ h₄ in
      subst (IsRefreshed now previous) (connection-injective _ next h₅) (record {
        same_record = refl;
        same_endpoint = (bytes_eq_iff _ _).0 (ensure-eq-ok _ identity_changed same);
        not_back = newer;
        enabled = ensure-eq-ok _ ssh_disabled enabled;
        fresh =
            open-current cipher checked_add envelope account.account_root_key _ d
              (lift-eq-ok invalid_descriptor opens d opened);
      })

  answered :
      (now : o.DateTime) (previous next : HostConnection o) (answer : Option FetchedRecord)
      → verify_attachment now previous answer ≡ ok next
      → (f : FetchedRecord) × (answer ≡ some f)
  unfolding verify_attachment
  answered now previous next none h = absurd cc
  answered now previous next (some f) h = (f, refl)

  -- A publisher that has been refreshed is the same record with the same endpoint identity, at a
  -- revision that is not below the one before; it allows SSH and has not expired.
  pub refresh_ssh_attachment_lem :
      (now : o.DateTime) (previous next : HostConnection o) (s : client.State)
      → refresh_ssh_attachment now previous s ≡ ok next
      → IsRefreshed now previous next
  unfolding refresh_ssh_attachment check_entry
  refresh_ssh_attachment_lem now previous next s h =
      let (s', listing) = client.list_records s in
      let (entries, _, h₁) = bind-eq-ok (lift list_failed listing) _ h in
      let (entry, checked, h₂) = bind-eq-ok (check_entry previous entries) _ h₁ in
      let fetch = fetch_consistent_record client entry s' in
      let (answer, fetched, h₃) = bind-eq-ok (lift fetch_failed fetch.1) _ h₂ in
      let (f, is_some) = answered now previous next answer h₃ in
      let h₄ = subst (λ x. verify_attachment now previous x ≡ ok next) is_some h₃ in
      let back = lift-eq-ok fetch_failed fetch.1 (some f) (fetched ∙ ap ok is_some) in
      let c : IsConsistent client s' entry f =
        fetch_consistent_record_lem client entry s' fetch.0 f λ i. (fetch.0, back i) in
      let (found, _, h₅) =
        bind-eq-ok (present (find_entry previous.record_id entries) no_longer_advertised) _
          checked in
      let (_, above, h₆) =
        bind-eq-ok (ensure (leb previous.service_revision found.revision) revision_moved_backwards)
          _ h₅ in
      let same : found ≡ entry = entry-injective found entry h₆ in
      let below : previous.service_revision ≤ found.revision =
        at_most previous.service_revision found.revision
          (ensure-eq-ok _ revision_moved_backwards above) in
      let below' : previous.service_revision ≤ entry.revision =
        subst (λ (e : LiveRecordIndexEntry). previous.service_revision ≤ e.revision) same below in
      verified now previous next f h₄ (omega (arith, below', c.not_back))
    where
      entry-injective :
          (a b : LiveRecordIndexEntry)
          → Path (Result (AttachmentError Failure) LiveRecordIndexEntry) (ok a) (ok b)
          → a ≡ b
      entry-injective a b e = cc

      at_most : (m n : ℕ) → leb m n ≡ true → m ≤ n
      at_most m n e = ground arith
