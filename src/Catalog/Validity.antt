-- ===== src/Catalog/Validity.antt =====
-- crates/cli/src/sync/state_catalog.rs: what a catalog that is accepted looks like.
use attached.Common.{
  eq→==, and-eq-true, ℕ, ◌≤◌, ◌<◌, Bool, true, false, not, ◌||◌, leb, ltb, lt→ltb, le→leb, List, [],
  ◌∷◌, All, length, Option, none, some, Bytes, bytes_eq, bytes_eq_iff, ok, ensure, bind-eq-ok,
  ensure-eq-ok, ◌≡◌, ◌↔◌, refl, arith,
}
use attached.Api.Sequence.{max_live_records}
use attached.Descriptor.Outside.{Outside}
use attached.Descriptor.Model.{is_negative, validate_host_label, ok_or, ticket_length_is_invalid}
use attached.Catalog.Model.{
  CatalogError, account_mismatch, service_mismatch, too_many_records, duplicate_record,
  invalid_revision, invalid_label, invalid_expiration, invalid_publication_time, invalid_endpoint,
  AccountCredentials, CatalogRecord, Catalog, is_whole, is_publication, validate_catalog_record,
  contains, validate_records, validate_catalog,
}

-- A time in whole seconds that is not negative.
abbrev pub IsWhole : (o : Outside) → o.DateTime → Type 0
IsWhole o t = (is_negative (o.timestamp t) ≡ false) × (o.timestamp_subsec_nanos t ≡ 0)

-- A publication, if there is one, is such a time and not behind the expiration.
abbrev pub IsPublication : (o : Outside) → o.DateTime → Option o.DateTime → Type 0
IsPublication o expires_at none = Unit
IsPublication o expires_at (some published_at) =
    IsWhole o published_at × (o.is_ge expires_at published_at ≡ true)

-- What the loop of `validate` checks of a record.
pub record IsRecord {o : Outside} (r : CatalogRecord o) : Type 0 where
  pub revised : 0 < r.service_revision
  pub labelled : validate_host_label r.host_label ≡ true
  pub expires_whole : IsWhole o r.expires_at
  pub published : IsPublication o r.expires_at r.published_at
  pub ticket_len : ticket_length_is_invalid r.endpoint_ticket ≡ false
  pub ticket : o.EndpointTicket
  pub parsed : o.ticket_from_str r.endpoint_ticket ≡ some ticket
  pub printed : o.ticket_to_string ticket ≡ r.endpoint_ticket
  pub identified : o.ticket_id ticket ≡ r.endpoint_identity

-- No two records have the same identifier.
abbrev pub Distinct : {o : Outside} → List (CatalogRecord o) → Type 0
Distinct [] = Unit
Distinct (r ∷ records) =
    All (λ s. bytes_eq r.record_id s.record_id ≡ false) records × Distinct records

pub record IsCatalog {o : Outside} (catalog : Catalog o) (account : AccountCredentials)
    : Type 0 where
  pub same_account : catalog.account_id ≡ account.account_id
  pub same_origin : catalog.service_origin ≡ account.service_origin
  pub at_most : length catalog.records ≤ max_live_records
  pub records_valid : All IsRecord catalog.records
  pub distinct : Distinct catalog.records

context-eq-ok :
    {A : Type 0} (x : Option A) (e : CatalogError) (a : A) → ok_or x e ≡ ok a → x ≡ some a
context-eq-ok (some b) e a h = ground arith
context-eq-ok none e a h = cc

not-true : (b : Bool) → not b ≡ true → b ≡ false
not-true b h = ground arith

is_whole_iff : (o : Outside) (t : o.DateTime) → (is_whole o t ≡ true) ↔ IsWhole o t
unfolding is_whole
is_whole_iff o t = (
  λ h. (ground arith, ground arith),
  λ (h, k). rw (h, eq→== (o.timestamp_subsec_nanos t) 0 k) refl,
)

is_publication_iff :
    (o : Outside) (e : o.DateTime) (p : Option o.DateTime)
    → (is_publication o e p ≡ true) ↔ IsPublication o e p
unfolding is_publication
is_publication_iff o e none = (λ _. tt, λ _. refl)
is_publication_iff o e (some t) = (
  λ h.
      let (whole, before) = and-eq-true (is_whole o t) (o.is_ge e t) h in
      ((is_whole_iff o t).0 whole, before),
  λ (whole, before). rw ((is_whole_iff o t).1 whole, before) refl,
)

module _ {o : Outside} where
  checked : (r : CatalogRecord o) → validate_catalog_record o r ≡ ok tt → IsRecord r
  unfolding validate_catalog_record
  checked r h =
      let (_, p₁, h₁) = bind-eq-ok (ensure (ltb 0 r.service_revision) invalid_revision) _ h in
      let (_, p₂, h₂) = bind-eq-ok (ensure (validate_host_label r.host_label) invalid_label) _ h₁ in
      let (_, p₃, h₃) = bind-eq-ok (ensure (is_whole o r.expires_at) invalid_expiration) _ h₂ in
      let (_, p₄, h₄) =
        bind-eq-ok (ensure (is_publication o r.expires_at r.published_at) invalid_publication_time)
          _ h₃ in
      let (_, p₅, h₅) =
        bind-eq-ok (ensure (not (ticket_length_is_invalid r.endpoint_ticket)) invalid_endpoint) _
          h₄ in
      let (ticket, p₆, p₇) =
        bind-eq-ok (ok_or (o.ticket_from_str r.endpoint_ticket) invalid_endpoint) _ h₅ in
      let (prints, identifies) =
        and-eq-true (bytes_eq (o.ticket_to_string ticket) r.endpoint_ticket)
          (bytes_eq (o.ticket_id ticket) r.endpoint_identity)
          (ensure-eq-ok _ invalid_endpoint p₇) in
      record {
        revised = positive (ensure-eq-ok _ invalid_revision p₁);
        labelled = ensure-eq-ok _ invalid_label p₂;
        expires_whole = (is_whole_iff o _).0 (ensure-eq-ok _ invalid_expiration p₃);
        published = (is_publication_iff o _ _).0 (ensure-eq-ok _ invalid_publication_time p₄);
        ticket_len = not-true _ (ensure-eq-ok _ invalid_endpoint p₅);
        ticket = ticket;
        parsed = context-eq-ok _ invalid_endpoint ticket p₆;
        printed = (bytes_eq_iff _ _).0 prints;
        identified = (bytes_eq_iff _ _).0 identifies;
      }
    where
      positive : ltb 0 r.service_revision ≡ true → 0 < r.service_revision
      positive p = ground arith

  passes : (r : CatalogRecord o) → IsRecord r → validate_catalog_record o r ≡ ok tt
  unfolding validate_catalog_record
  passes r v =
      rw
        (
          lt→ltb 0 r.service_revision v.revised,
          v.labelled,
          (is_whole_iff o _).1 v.expires_whole,
          (is_publication_iff o _ _).1 v.published,
          v.ticket_len,
          v.parsed,
          (bytes_eq_iff _ _).1 v.printed,
          (bytes_eq_iff _ _).1 v.identified,
        )
        refl

  -- Apart from the identifiers that came before.
  abbrev Apart : List Bytes → List (CatalogRecord o) → Type 0
  Apart ids records = All (λ r. contains r.record_id ids ≡ false) records

  Apart-cons :
      (id : Bytes) (ids : List Bytes) (records : List (CatalogRecord o))
      → Apart (id ∷ ids) records
        ↔ (All (λ r. bytes_eq id r.record_id ≡ false) records × Apart ids records)
  unfolding contains
  Apart-cons id ids [] = (λ _. (tt, tt), λ _. tt)
  Apart-cons id ids (r ∷ records) =
      let rest = Apart-cons id ids records in
      (
        λ h.
            let parts = neither (bytes_eq id r.record_id) (contains r.record_id ids) h.0 in
            let behind = rest.0 h.1 in ((parts.0, behind.0), (parts.1, behind.1)),
        λ h. (rw (h.0.0, h.1.0) refl, rest.1 (h.0.1, h.1.1)),
      )
    where
      neither : (a b : Bool) → (a || b) ≡ false → (a ≡ false) × (b ≡ false)
      neither a b p = ground arith

  records_checked :
      (ids : List Bytes) (records : List (CatalogRecord o))
      → validate_records o ids records ≡ ok tt
      → All IsRecord records × Distinct records × Apart ids records
  unfolding validate_records
  records_checked ids [] h = (tt, tt, tt)
  records_checked ids (r ∷ records) h =
      let (_, fresh, h₁) =
        bind-eq-ok (ensure (not (contains r.record_id ids)) duplicate_record) _ h in
      let (_, this, rest) = bind-eq-ok (validate_catalog_record o r) _ h₁ in
      let (valid, distinct, apart) = records_checked (r.record_id ∷ ids) records rest in
      let (above, apart') = (Apart-cons r.record_id ids records).0 apart in
      (
        (checked r this, valid),
        (above, distinct),
        (not-true _ (ensure-eq-ok _ duplicate_record fresh), apart'),
      )

  records_pass :
      (ids : List Bytes) (records : List (CatalogRecord o))
      → All IsRecord records
      → Distinct records
      → Apart ids records
      → validate_records o ids records ≡ ok tt
  unfolding validate_records
  records_pass ids [] v d a = refl
  records_pass ids (r ∷ records) (v, vs) (d, ds) (a, rest) =
      rw
        (
          a,
          passes r v,
          records_pass (r.record_id ∷ ids) records vs ds
              ((Apart-cons r.record_id ids records).1 (d, rest)),
        )
        refl

  none_before : (records : List (CatalogRecord o)) → Apart [] records
  unfolding contains
  none_before [] = tt
  none_before (r ∷ records) = (refl, none_before records)

  -- A catalog is accepted exactly when it has the account and the origin of the credentials and at most
  -- 128 records, each valid and no two of one identifier: with a positive revision, a host label,
  -- times in whole seconds that are not negative, a publication not behind the expiration, and a
  -- ticket that is printed as it was parsed and belongs to the identity.
  pub validate_catalog_iff :
      (catalog : Catalog o) (account : AccountCredentials)
      → (validate_catalog o catalog account ≡ ok tt) ↔ IsCatalog catalog account
  unfolding validate_catalog
  validate_catalog_iff catalog account = (
    λ h.
        let (_, p₁, h₁) =
          bind-eq-ok (ensure (bytes_eq catalog.account_id account.account_id) account_mismatch) _
            h in
        let (_, p₂, h₂) =
          bind-eq-ok
            (ensure (bytes_eq catalog.service_origin account.service_origin) service_mismatch) _
            h₁ in
        let (_, p₃, h₃) =
          bind-eq-ok (ensure (leb (length catalog.records) max_live_records) too_many_records) _
            h₂ in
        let (valid, distinct, _) = records_checked [] catalog.records h₃ in
        record {
          same_account = (bytes_eq_iff _ _).0 (ensure-eq-ok _ account_mismatch p₁);
          same_origin = (bytes_eq_iff _ _).0 (ensure-eq-ok _ service_mismatch p₂);
          at_most = most (length catalog.records) (ensure-eq-ok _ too_many_records p₃);
          records_valid = valid;
          distinct = distinct;
        },
    λ v.
        rw
          (
            (bytes_eq_iff _ _).1 v.same_account,
            (bytes_eq_iff _ _).1 v.same_origin,
            le→leb (length catalog.records) max_live_records v.at_most,
          )
          (records_pass [] catalog.records v.records_valid v.distinct
            (none_before catalog.records)),
  )
    where
      most : (n : ℕ) → leb n max_live_records ≡ true → n ≤ max_live_records
      most n h = ground arith
