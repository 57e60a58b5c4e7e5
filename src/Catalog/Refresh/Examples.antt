-- ===== src/Catalog/Refresh/Examples.antt =====
-- The refresh of crates/cli/src/sync/refresh.rs against a service that publishes a record anew between
-- the index and the first GET.
use attached.Common.{
  ℕ, suc, ◌+◌, ◌≤◌, [], ◌∷◌, ◌++◌, All, some, Bytes, bytes_eq, ok, ◌≡◌, refl, arith,
}
use attached.Api.Envelope.{Envelope}
use attached.Api.Sequence.{LiveRecordIndexEntry}
use attached.Maps.{get, insert, remove}
use attached.Descriptor.Small.{
  outside, laws, descriptor, descriptor_types, descriptor_encodes, encoded, eight,
}
use attached.Descriptor.Model.{endpoint_identity}
use attached.Sealing.{
  Envelope as CryptoEnvelope, CheckedAdd, VerificationContext, envelope_of,
  derive_host_access_descriptor_key,
}
use attached.Sealing.Small.{tag, cipher, cipher_laws}
use attached.Sealing.Making.{seal_ok}
use attached.Sealing.Opening.{open_iff_seal}
use attached.Catalog.Model.{
  AccountCredentials, CatalogRecord, Catalog, HostConnection, is_expired_at, from_opened,
  ssh_attachment,
}
use attached.Catalog.Merge.{collect_onto, insert_record, sort_records}
use attached.Catalog.Fetch.{
  FetchedRecord, Client, find_entry, recheck, with_index, with_fetched, fetch_attempts,
  fetch_consistent_record, fetch_changed_records,
}
use attached.Catalog.Fetch.Counted.{Asked}
use attached.Catalog.Fetch.Attempts.{IsConsistent}
use attached.Catalog.Fetch.Consistent.{
  fetch_consistent_record_lem, fetch_requests_bounded, quiet_record_fetched,
}
use attached.Catalog.Refresh.{reuse, partition, accept_all, refresh_catalog, open_fetched}
use attached.Catalog.Refresh.Sources.{IsFresh}
use attached.Catalog.Refresh.Origin.{refresh_catalog-IsFresh}
use attached.Catalog.Refresh.Attachment.{
  check_entry, verify_attachment, refresh_ssh_attachment, IsRefreshed, refresh_ssh_attachment_lem,
}

abbrev id : Bytes
id = eight 3 ++ eight 4

abbrev sealed : Envelope
sealed = record {
  envelope_version = 1;
  nonce = eight 5 ++ eight 5 ++ eight 5;
  ciphertext = encoded ++ tag;
}

abbrev second : FetchedRecord
second = record { envelope = sealed; revision = 2 }

abbrev entry_at : ℕ → LiveRecordIndexEntry
entry_at revision = record { record_id = id; revision = revision }

-- The record has revision 2 from the first request on, which the state counts.
abbrev client : Client Unit
client = record {
  State = ℕ;
  get_record = λ id s. (suc s, ok (some second));
  list_records = λ s. (suc s, ok (entry_at 2 ∷ []));
}

fetched : fetch_consistent_record client (entry_at 1) 0 ≡ (2, ok (some second))
unfolding fetch_consistent_record fetch_attempts with_fetched with_index recheck find_entry bytes_eq
fetched = refl

fetch_consistent_record_lem_example : IsConsistent client 0 (entry_at 1) second
fetch_consistent_record_lem_example =
    fetch_consistent_record_lem client (entry_at 1) 0 2 second fetched

fetch_requests_bounded_example :
    (gets : ℕ) × (lists : ℕ) × (gets ≤ 3)
    × (lists ≤ 3)
    × Asked client id 0 gets lists (fetch_consistent_record client (entry_at 1) 0).0
fetch_requests_bounded_example = fetch_requests_bounded client (entry_at 1) 0

found : find_entry id (entry_at 2 ∷ []) ≡ some (entry_at 2)
unfolding find_entry bytes_eq
found = refl

quiet_record_fetched_example : (fetch_consistent_record client (entry_at 1) 0).1 ≡ ok (some second)
quiet_record_fetched_example =
    quiet_record_fetched client (entry_at 1) (entry_at 2) second (entry_at 2 ∷ []) 0 (λ s. refl)
      (λ s. refl) found refl (omega arith)

abbrev checked_add : CheckedAdd outside
checked_add = λ t s. some (t + s)

abbrev account : AccountCredentials
account = record {
  service_origin = b'h' ∷ [];
  account_id = eight 1 ++ eight 2;
  account_root_key = eight 6;
}

abbrev stored_record : CatalogRecord outside
unfolding from_opened
stored_record = from_opened outside id 2 descriptor (7 ∷ [])

abbrev stored : Catalog outside
stored = record {
  account_id = account.account_id;
  service_origin = account.service_origin;
  generation = 1;
  records = stored_record ∷ [];
}

refreshed :
    refresh_catalog cipher checked_add account 960 client stored [] (entry_at 2 ∷ []) 0
    ≡ ok (stored, [])
unfolding refresh_catalog partition collect_onto get insert remove reuse is_expired_at from_opened
    fetch_changed_records accept_all sort_records insert_record bytes_eq
refreshed = refl

refresh_catalog-IsFresh_example :
    All
      (IsFresh cipher checked_add account 960 (stored_record ∷ []) (entry_at 2 ∷ []) client 0)
      (stored_record ∷ [])
refresh_catalog-IsFresh_example =
    refresh_catalog-IsFresh cipher checked_add account 960 client stored stored (entry_at 2 ∷ []) 0
      [] [] refreshed

abbrev context : VerificationContext outside
context = record { account_id = account.account_id; record_id = id; now = 960 }

abbrev crypto_envelope : CryptoEnvelope
crypto_envelope = record { nonce = sealed.nonce; ciphertext = sealed.ciphertext }

opened : open_fetched cipher checked_add account 960 id crypto_envelope ≡ ok descriptor
unfolding open_fetched derive_host_access_descriptor_key
opened =
    let open_iff =
      open_iff_seal laws cipher_laws checked_add descriptor descriptor_types crypto_envelope
        (eight 6) context in
    open_iff.1 (
      seal_ok descriptor (eight 6) context.account_id context.record_id crypto_envelope (record {
        plaintext = encoded;
        key = eight 6;
        encoded = descriptor_encodes;
        derived = refl;
        encrypted = refl;
        short = omega arith;
      }),
      record { latest = 1020; latest_eq = refl; issued = refl; expires = refl },
    )

abbrev connection : HostConnection outside
unfolding ssh_attachment
connection = ssh_attachment outside stored_record

abbrev previous : HostConnection outside
previous = record connection { service_revision = 1 }

selected : refresh_ssh_attachment cipher checked_add account client 960 previous 0 ≡ ok connection
unfolding refresh_ssh_attachment check_entry find_entry fetch_consistent_record fetch_attempts
    with_fetched verify_attachment envelope_of endpoint_identity from_opened ssh_attachment bytes_eq
selected = rw opened refl

refresh_ssh_attachment_lem_example :
    IsRefreshed cipher checked_add account client 960 previous connection
refresh_ssh_attachment_lem_example =
    refresh_ssh_attachment_lem cipher checked_add account client 960 previous connection 0 selected
