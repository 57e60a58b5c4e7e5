-- ===== src/Catalog/Refresh/Origin.antt =====
-- crates/cli/src/sync/refresh.rs: where the records of a refreshed catalog come from.
use mathlib.Core.Path.{subst}
use mathlib.Core.List.{Mem}
use attached.Common.{
  ℕ, false, List, [], ◌∷◌, ◌++◌, All, All-append, Option, none, some, Bytes, Result, ok, err,
  bind-eq-ok, ◌≡◌, refl, sym,
}
use attached.Api.Sequence.{LiveRecordIndexEntry}
use attached.Descriptor.Outside.{Outside}
use attached.Descriptor.Cbor.{HostAccessError}
use attached.Descriptor.Model.{HostAccessDescriptor, endpoint_identity}
use attached.Sealing.{Envelope as CryptoEnvelope, Cipher, CheckedAdd, envelope_of}
use attached.Catalog.Model.{AccountCredentials, CatalogRecord, Catalog, is_expired_at, from_opened}
use attached.Catalog.Merge.{collect_onto, sort_records}
use attached.Catalog.Merge.Order.{All-sort_records}
use attached.Catalog.Fetch.Attempts.{IsConsistent}
use attached.Catalog.Fetch.Requests.{none_yet}
use attached.Catalog.Fetch.Changed.{IsOf, fetch_changed_records-IsOf}
use attached.Catalog.Fetch.{FetchedRecord, Client, FetchError, fetch_changed_records}
use attached.Catalog.Refresh.Current.{open-current}
use attached.Catalog.Refresh.Sources.{
  All-Mem, opened, IsFresh, partition-IsFresh, partition-changed,
}
use attached.Catalog.Refresh.{
  RefreshWarning, partition, RefreshError, or_invalid, context_of, identified, accept_opened,
  open_fetched, accept_fetched, accept_all, refresh_catalog,
}

module _ {o : Outside} (cipher : Cipher) (checked_add : CheckedAdd o) (account : AccountCredentials)
    (now : o.DateTime) (stored : List (CatalogRecord o)) (index : List LiveRecordIndexEntry)
    {Failure : Type 0} (client : Client Failure) (s : client.State) where
  abbrev Fresh : CatalogRecord o → Type 0
  Fresh = IsFresh cipher checked_add account now stored index client s

  abbrev Accepted : Type 0
  Accepted = List (CatalogRecord o) × List RefreshWarning

  accepted-injective : (a b : Accepted) → Path (Result RefreshError Accepted) (ok a) (ok b) → a ≡ b
  accepted-injective a b e = cc

  identified-eq-ok :
      (id : Bytes) (revision : ℕ) (d : HostAccessDescriptor o) (x : Option Bytes)
      (r : CatalogRecord o)
      → identified cipher checked_add account now id revision d x ≡ ok r
      → (identity : Bytes) × (x ≡ some identity) × (r ≡ from_opened o id revision d identity)
  unfolding identified
  identified-eq-ok id revision d none r h = absurd cc
  identified-eq-ok id revision d (some identity) r h = (identity, refl, cc)

  accept_opened-IsFresh :
      (entry : LiveRecordIndexEntry) (f : FetchedRecord) (before next : Accepted)
      (envelope : CryptoEnvelope) (x : Result HostAccessError (HostAccessDescriptor o))
      → Mem entry index
      → IsConsistent client s entry f
      → envelope_of f.envelope.nonce f.envelope.ciphertext ≡ ok envelope
      → open_fetched cipher checked_add account now entry.record_id envelope ≡ x
      → accept_opened cipher checked_add account now entry.record_id f.revision before x ≡ ok next
      → All Fresh before.0
      → All Fresh next.0
  unfolding accept_opened open_fetched identified from_opened is_expired_at
  accept_opened-IsFresh entry f (accepted, warnings) next envelope (err e) member consistent made
        opens h fresh =
      subst (λ (x : Accepted). All Fresh x.0) (accepted-injective _ next h) fresh
  accept_opened-IsFresh entry f (accepted, warnings) next envelope (ok d) member consistent made
        opens h fresh =
      let (r, identifies, h₁) =
        bind-eq-ok
          (identified cipher checked_add account now entry.record_id f.revision d
            (endpoint_identity o d))
          _ h in
      let (identity, is_some, same) =
        identified-eq-ok entry.record_id f.revision d (endpoint_identity o d) r identifies in
      let current =
        open-current cipher checked_add envelope account.account_root_key
          (context_of cipher checked_add account now entry.record_id) d opens in
      subst (λ (x : Accepted). All Fresh x.0) (accepted-injective _ next h₁)
        (All-append Fresh accepted (r ∷ []) fresh (
          (
            subst (λ (x : CatalogRecord o). o.is_ge now x.expires_at ≡ false) (sym same) current,
            opened entry f envelope d identity member consistent made opens is_some same,
          ),
          tt,
        ))

  or_invalid-eq-ok :
      (x : Result HostAccessError CryptoEnvelope) (envelope : CryptoEnvelope)
      → or_invalid x ≡ ok envelope
      → x ≡ ok envelope
  or_invalid-eq-ok (ok a) envelope h = cc
  or_invalid-eq-ok (err e) envelope h = absurd cc

  accept_fetched-IsFresh :
      (before next : Accepted) (entry : LiveRecordIndexEntry)
      (fetched : Result (FetchError Failure) (Option FetchedRecord))
      → Mem entry index
      → ((f : FetchedRecord) → fetched ≡ ok (some f) → IsConsistent client s entry f)
      → accept_fetched cipher checked_add account now before entry fetched ≡ ok next
      → All Fresh before.0
      → All Fresh next.0
  unfolding accept_fetched
  accept_fetched-IsFresh (accepted, warnings) next entry (err e) member consistent h fresh =
      subst (λ (x : Accepted). All Fresh x.0) (accepted-injective _ next h) fresh
  accept_fetched-IsFresh (accepted, warnings) next entry (ok none) member consistent h fresh =
      subst (λ (x : Accepted). All Fresh x.0) (accepted-injective _ next h) fresh
  accept_fetched-IsFresh before next entry (ok (some f)) member consistent h fresh =
      let (envelope, made, h₁) =
        bind-eq-ok (or_invalid (envelope_of f.envelope.nonce f.envelope.ciphertext)) _ h in
      accept_opened-IsFresh entry f before next envelope
        (open_fetched cipher checked_add account now entry.record_id envelope) member
        (consistent f refl) (or_invalid-eq-ok _ envelope made) refl h₁ fresh

  abbrev IsOfIndex :
      LiveRecordIndexEntry × Result (FetchError Failure) (Option FetchedRecord) → Type 0
  IsOfIndex = IsOf client (λ e. Mem e index) s

  accept_all-IsFresh :
      (before next : Accepted)
      (rest : List (LiveRecordIndexEntry × Result (FetchError Failure) (Option FetchedRecord)))
      → accept_all cipher checked_add account now client before rest ≡ ok next
      → All IsOfIndex rest
      → All Fresh before.0
      → All Fresh next.0
  unfolding accept_all
  accept_all-IsFresh before next [] h _ fresh =
      subst (λ (x : Accepted). All Fresh x.0) (accepted-injective before next h) fresh
  accept_all-IsFresh before next ((entry, fetched) ∷ rest) h ((member, consistent), of_index)
        fresh =
      let (after, this, h₁) =
        bind-eq-ok (accept_fetched cipher checked_add account now before entry fetched) _ h in
      accept_all-IsFresh after next rest h₁ of_index
        (accept_fetched-IsFresh before after entry fetched member consistent this fresh)

-- No record of a refreshed catalog is expired, and each was stored, with the identifier and the revision of
-- an entry of the index, or was made of a record that was fetched for an
-- entry of the index: its descriptor was opened, with the root key of the account and for the
-- entry's identifier, from the envelope that was fetched, and it has the revision that was fetched.
-- Such a record has been answered to a GET of the identifier, its revision is not below the
-- entry's, and it is that of the entry or of an index that was listed on the way.
pub refresh_catalog-IsFresh :
    {o : Outside} {Failure : Type 0} (cipher : Cipher) (checked_add : CheckedAdd o)
    (account : AccountCredentials) (now : o.DateTime) (client : Client Failure)
    (catalog next : Catalog o) (entries : List LiveRecordIndexEntry) (s : client.State)
    (before warnings : List RefreshWarning)
    → refresh_catalog cipher checked_add account now client catalog before entries s
      ≡ ok (next, warnings)
    → All (IsFresh cipher checked_add account now catalog.records entries client s) next.records
unfolding refresh_catalog
refresh_catalog-IsFresh {o} cipher checked_add account now client catalog next entries s before
      warnings h =
    let Fresh = IsFresh cipher checked_add account now catalog.records entries client s in
    let progress = partition now (collect_onto [] catalog.records) entries in
    let fetched = (fetch_changed_records client progress.changed s).1 in
    let start : List (CatalogRecord o) × List RefreshWarning =
      (progress.accepted, before ++ progress.warnings) in
    let members = All-Mem (λ e. Mem e entries) entries (λ e m. m) in
    let (end, done, h₁) =
      bind-eq-ok (accept_all cipher checked_add account now client start fetched) _ h in
    let of_index =
      fetch_changed_records-IsOf client (λ e. Mem e entries) s s 0 progress.changed none_yet
        (partition-changed cipher checked_add account now catalog.records entries client s
          (λ e. Mem e entries) (collect_onto [] catalog.records) entries members) in
    let fresh : All Fresh end.0 =
      accept_all-IsFresh cipher checked_add account now catalog.records entries client s start end
        fetched done of_index
        (partition-IsFresh cipher checked_add account now catalog.records entries client s
          (collect_onto [] catalog.records) entries (λ id r e. e) members) in
    subst (All Fresh) (records_eq end h₁) (All-sort_records Fresh end.0 fresh)
  where
    records_eq :
        (end : List (CatalogRecord o) × List RefreshWarning)
        → Path
            (Result RefreshError (Catalog o × List RefreshWarning))
            (ok (record catalog { records = sort_records end.0 }, end.1))
            (ok (next, warnings))
        → sort_records end.0 ≡ next.records
    records_eq end e = cc
