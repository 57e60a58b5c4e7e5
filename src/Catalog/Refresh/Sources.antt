-- ===== src/Catalog/Refresh/Sources.antt =====
-- crates/cli/src/sync/refresh.rs: where a record of a refreshed catalog may come from, and those that
-- the loop over the index keeps.
use mathlib.Core.Path.{subst}
use mathlib.Core.Logic.Or
use mathlib.Core.List.{Mem, mem-cons}
use attached.Common.{
  false, ◌==◌, ==→eq, Bool-cases, inl, inr, List, [], ◌∷◌, All, Option, none, some, Bytes, bytes_eq,
  bytes_eq_iff, ok, ◌≡◌, refl, sym, ◌∙◌,
}
use attached.Api.Sequence.{LiveRecordIndexEntry}
use attached.Maps.{get, remove, get-remove, insert, get-insert}
use attached.Descriptor.Outside.{Outside}
use attached.Descriptor.Model.{HostAccessDescriptor, endpoint_identity}
use attached.Sealing.{Envelope as CryptoEnvelope, Cipher, CheckedAdd, envelope_of}
use attached.Catalog.Model.{AccountCredentials, CatalogRecord, is_expired_at, from_opened}
use attached.Catalog.Merge.{Held, collect_onto}
use attached.Catalog.Fetch.Attempts.{IsConsistent}
use attached.Catalog.Fetch.{FetchedRecord, Client}
use attached.Catalog.Refresh.{Progress, reuse, partition, open_fetched}

-- What holds of every member of a list.
pub All-Mem {ℓ} :
    {A : Type ℓ} (P : A → Type 0) (xs : List A) → ((x : A) → Mem x xs → P x) → All P xs
All-Mem P [] h = tt
All-Mem P (x ∷ xs) h =
    (h x (mem-cons.1 (Or.inl refl)), All-Mem P xs (λ y m. h y (mem-cons.1 (Or.inr m))))

-- What a map of records holds under an identifier is one of them, with that identifier.
module _ {o : Outside} (stored : List (CatalogRecord o)) where
  abbrev HoldsOnly : Held o → Type 0
  HoldsOnly map =
      (id : Bytes) (r : CatalogRecord o) → get id map ≡ some r → Mem r stored × (r.record_id ≡ id)

  HoldsOnly-insert :
      (r : CatalogRecord o) (map : Held o)
      → Mem r stored
      → HoldsOnly map
      → HoldsOnly (insert r.record_id r map)
  HoldsOnly-insert r map m h id x e = elim (Bool-cases (bytes_eq r.record_id id)) [
    | inl same ↦
        let here : r ≡ x =
          some-injective r x (sym (get-insert r.record_id id r map ∙ rw same refl) ∙ e) in
        subst (λ (y : CatalogRecord o). Mem y stored × (y.record_id ≡ id)) here
          (m, (bytes_eq_iff r.record_id id).0 same)
    | inr other ↦ h id x (sym (get-insert r.record_id id r map ∙ rw other refl) ∙ e)
  ]
    where
      some-injective : (a b : CatalogRecord o) → some a ≡ some b → a ≡ b
      some-injective a b e = cc

  HoldsOnly-collect_onto :
      (records : List (CatalogRecord o)) (map : Held o)
      → ((r : CatalogRecord o) → Mem r records → Mem r stored)
      → HoldsOnly map
      → HoldsOnly (collect_onto map records)
  unfolding collect_onto
  HoldsOnly-collect_onto [] map all h = h
  HoldsOnly-collect_onto (r ∷ records) map all h =
      HoldsOnly-collect_onto records (insert r.record_id r map)
        (λ x m. all x (mem-cons.1 (Or.inr m)))
        (HoldsOnly-insert r map (all r (mem-cons.1 (Or.inl refl))) h)

  pub collect_onto-HoldsOnly : HoldsOnly (collect_onto [] stored)
  unfolding get
  collect_onto-HoldsOnly = HoldsOnly-collect_onto stored [] (λ r m. m) (λ id r e. absurd (cc e))

module _ {o : Outside} (cipher : Cipher) (checked_add : CheckedAdd o) (account : AccountCredentials)
    (now : o.DateTime) (stored : List (CatalogRecord o)) (index : List LiveRecordIndexEntry)
    {Failure : Type 0} (client : Client Failure) (s : client.State) where
  -- For an entry of the index, a record was stored with its identifier and revision, or it was made of
  -- one that the client fetched for the entry: at the fetched revision, from the descriptor that
  -- the fetched envelope opened to.
  pub data Origin (r : CatalogRecord o) : Type 0 where
    reused :
        (entry : LiveRecordIndexEntry)
        → Mem entry index
        → Mem r stored
        → r.record_id ≡ entry.record_id
        → r.service_revision ≡ entry.revision
        → Origin r
    opened :
        (entry : LiveRecordIndexEntry) (f : FetchedRecord) (envelope : CryptoEnvelope)
        (d : HostAccessDescriptor o) (identity : Bytes)
        → Mem entry index
        → IsConsistent client s entry f
        → envelope_of f.envelope.nonce f.envelope.ciphertext ≡ ok envelope
        → open_fetched cipher checked_add account now entry.record_id envelope ≡ ok d
        → endpoint_identity o d ≡ some identity
        → r ≡ from_opened o entry.record_id f.revision d identity
        → Origin r

  -- It has not expired.
  abbrev pub IsFresh : CatalogRecord o → Type 0
  IsFresh r = (is_expired_at o r now ≡ false) × Origin r

  reuse-IsFresh :
      (entry : LiveRecordIndexEntry) (previous : Option (CatalogRecord o)) (rest : Progress o)
      → ((r : CatalogRecord o) → previous ≡ some r → r.service_revision ≡ entry.revision → Origin r)
      → All IsFresh rest.accepted
      → All IsFresh (reuse now entry previous rest).accepted
  unfolding reuse
  reuse-IsFresh entry none rest p h = h
  reuse-IsFresh entry (some r) rest p h = elim (Bool-cases (r.service_revision == entry.revision)) [
    | inl same ↦ elim (Bool-cases (is_expired_at o r now)) [
      | inl late ↦ rw (same, late) h
      | inr fresh ↦
          rw (same, fresh) ((fresh, p r refl (==→eq r.service_revision entry.revision same)), h)
    ]
    | inr other ↦ rw other h
  ]

  -- What is found in a part of the stored records is found in all.
  abbrev IsPart : Held o → Type 0
  IsPart map =
      (id : Bytes) (r : CatalogRecord o)
      → get id map ≡ some r
      → get id (collect_onto [] stored) ≡ some r

  IsPart-remove : (id : Bytes) (map : Held o) → IsPart map → IsPart (remove id map)
  IsPart-remove id map p j r e = elim (Bool-cases (bytes_eq id j)) [
    | inl same ↦
        let gone : get j (remove id map) ≡ none = get-remove id j map ∙ rw same refl in
        absurd (cc (gone, e))
    | inr other ↦
        let still : get j (remove id map) ≡ get j map = get-remove id j map ∙ rw other refl in
        p j r (sym still ∙ e)
  ]

  pub partition-IsFresh :
      (map : Held o) (entries : List LiveRecordIndexEntry)
      → IsPart map
      → All (λ (e : LiveRecordIndexEntry). Mem e index) entries
      → All IsFresh (partition now map entries).accepted
  unfolding partition
  partition-IsFresh map [] p members = tt
  partition-IsFresh map (entry ∷ entries) p (member, members) =
      reuse-IsFresh entry (get entry.record_id map)
        (partition now (remove entry.record_id map) entries)
        (λ r e same.
          let (kept, of_entry) =
            collect_onto-HoldsOnly stored entry.record_id r (p entry.record_id r e) in
          reused entry member kept of_entry same)
        (partition-IsFresh (remove entry.record_id map) entries
          (IsPart-remove entry.record_id map p) members)

  reuse-changed :
      (P : LiveRecordIndexEntry → Type 0) (entry : LiveRecordIndexEntry)
      (previous : Option (CatalogRecord o)) (rest : Progress o)
      → P entry
      → All P rest.changed
      → All P (reuse now entry previous rest).changed
  unfolding reuse
  reuse-changed P entry none rest p h = (p, h)
  reuse-changed P entry (some r) rest p h =
      elim (Bool-cases (r.service_revision == entry.revision)) [
        | inl same ↦ elim (Bool-cases (is_expired_at o r now)) [
          | inl late ↦ rw (same, late) h
          | inr fresh ↦ rw (same, fresh) h
        ]
        | inr other ↦ rw other (p, h)
      ]

  -- Only entries of the index are fetched.
  pub partition-changed :
      (P : LiveRecordIndexEntry → Type 0) (map : Held o) (entries : List LiveRecordIndexEntry)
      → All P entries
      → All P (partition now map entries).changed
  unfolding partition
  partition-changed P map [] h = tt
  partition-changed P map (entry ∷ entries) (p, h) =
      reuse-changed P entry (get entry.record_id map)
        (partition now (remove entry.record_id map) entries) p
        (partition-changed P (remove entry.record_id map) entries h)
