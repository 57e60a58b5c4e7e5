-- ===== src/Worker/Storage/Writing.antt =====
-- crates/session-sync-worker/src/storage.rs: `put_record` on valid tables. The abstract account is
-- a finite map of records with a quota.
use mathlib.Core.Path.{subst, ap₂}
use attached.Common.{
  ℕ, Bool, true, false, not, ◌&&◌, ltb, leb, ◌==◌, eq→==, le→leb, le→ltb_false, lt→ltb,
  if◌then◌else◌, Bool-cases, length, List, [], ◌∷◌, Bytes, Option, none, some, Result, ok, err,
  ensure, ◌≡◌, inl, inr, refl, sym, ap, ◌∙◌, arith,
}
use attached.Api.Envelope.{Envelope}
use attached.Api.Sequence.{max_live_records}
use attached.Worker.Account.{MutationError, live_quota_exceeded}
use attached.Worker.Records.{MutationOutcome, StoredRecord, put, max_revision}
use attached.Worker.Records.History.{IsStorable, replacement, outcome_of, put_iff}
use attached.Worker.Storage.Sql.{
  Row, Tables, cast_text, lookup, upsert, record_checks, is_some, insert_record, update_record,
}
use attached.Worker.Storage.Rows.{
  StoreError, unavailable, mutation, optional_row, required_row, present, single_value,
  revision_text,
}
use attached.Worker.Storage.Session.{Storage, ◌>>=◌, delivered, exec, lift}
use attached.Worker.Storage.Session.Steps.{
  Later, Later-refl, Failed, gives, fails, exec_writes, >>=-ok, >>=-err, >>=-Failed, Later-Failed,
}
use attached.Worker.Storage.Operations.{
  from_mutation, write_statement, write_record, put_current, load_record, live_record_count,
  put_record,
}
use attached.Worker.Storage.Reading.{
  IsValid, revision_text-cast_text, load_record-Reads, live_record_count-Reads,
}

-- The row that `put` makes, under the checks of the table.
checks_pass :
    (id : Bytes) (r : StoredRecord)
    → length id ≡ 16
    → length r.envelope_nonce ≡ 24
    → IsStorable r
    → record_checks id r ≡ true
unfolding record_checks
checks_pass id r h k s =
    rw
      (
        eq→== (length id) 16 h,
        lt→ltb 0 r.revision (omega (arith, s.revision_some)),
        eq→== (length r.envelope_nonce) 24 k,
        le→leb (length r.envelope_ciphertext) 65_792 s.ciphertext_most,
      )
      refl

module _ (id : Bytes) (e : Envelope) (id_len : length id ≡ 16) (nonce_len : length e.nonce ≡ 24)
    (t : Tables) (v : IsValid t) where
  -- The statement that is chosen stores the record that `put` made.
  write_statement-upsert :
      (found : Option StoredRecord)
      → lookup id t.records ≡ found
      → (not (is_some found) && length t.records == max_live_records) ≡ false
      → IsStorable (replacement found e)
      → write_statement id (replacement found e) (outcome_of found) t
        ≡ some (
          (cast_text (replacement found e).revision ∷ []) ∷ [],
          record t { records = upsert id (replacement found e) t.records },
        )
  unfolding write_statement insert_record update_record
  write_statement-upsert none h room s =
      let most = v.at_most in
      let free : leb max_live_records (length t.records) ≡ false = ground arith in
      simp (v.schema, v.account, free, h, checks_pass id (replacement none e) id_len nonce_len s)
  write_statement-upsert (some old) h room s =
      let most = s.revision_most in
      simp (
        v.schema,
        h,
        lt→ltb old.revision max_revision (omega arith),
        checks_pass id (replacement (some old) e) id_len nonce_len s,
      )

-- What `put_record` promises: the map with the record replaced, or a refusal that changes nothing.
abbrev pub put_result :
    Bytes
    → Tables
    → Result MutationError (StoredRecord × MutationOutcome)
    → Result StoreError MutationOutcome × Tables
put_result id t (ok (r, o)) = (ok o, record t { records = upsert id r t.records })
put_result id t (err m) = (err (mutation m), t)

abbrev pub put_spec : Bytes → Envelope → Tables → Result StoreError MutationOutcome × Tables
put_spec id e t =
    if not (is_some (lookup id t.records)) && length t.records == max_live_records
    then (err (mutation live_quota_exceeded), t)
    else put_result id t (put (lookup id t.records) e)

-- An operation gives a result and tables, and outages only where there were some, or fails in an outage and leaves the tables.
pub data Implements {A : Type 0} (s : Storage) (spec : Result StoreError A × Tables)
    (x : Result StoreError A × Storage) : Type 0 where
  done :
      (s' : Storage)
      → x ≡ (spec.0, s')
      → s'.tables ≡ spec.1
      → (s.outages ≡ [] → s'.outages ≡ [])
      → Implements s spec x
  failed : Failed s x → Implements s spec x

Implements-eq :
    {A : Type 0} {s t : Storage} {spec : Result StoreError A × Tables}
    {x y : Result StoreError A × Storage}
    → Later s t
    → x ≡ y
    → Implements t spec y
    → Implements s spec x
Implements-eq l p (done s' e same calm) = done s' (p ∙ e) same (λ h. calm (l.calm h))
Implements-eq l p (failed (s', e, same, outage)) = failed (Later-Failed l (s', p ∙ e, same, outage))

Implements-along :
    {A : Type 0} {s : Storage} {spec spec' : Result StoreError A × Tables}
    {x : Result StoreError A × Storage}
    → spec ≡ spec'
    → Implements s spec' x
    → Implements s spec x
Implements-along {s = s} {x = x} p h = subst (λ spec. Implements s spec x) (sym p) h

read_written : (n : ℕ) → required_row (delivered ((cast_text n ∷ []) ∷ [])) ≡ ok (cast_text n ∷ [])
unfolding required_row optional_row present delivered
read_written n = refl

module _ (id : Bytes) (e : Envelope) (id_len : length id ≡ 16)
    (nonce_len : length e.nonce ≡ 24) where
  -- The write, when `put` has made the record.
  write_record-Implements :
      (s : Storage) (v : IsValid s.tables)
      → (not (is_some (lookup id s.tables.records)) && length s.tables.records == max_live_records)
        ≡ false
      → IsStorable (replacement (lookup id s.tables.records) e)
      → Implements s
          (
            ok (outcome_of (lookup id s.tables.records)),
            record s.tables {
              records = upsert id (replacement (lookup id s.tables.records) e) s.tables.records;
            },
          )
          (write_record id
            (replacement (lookup id s.tables.records) e)
            (outcome_of (lookup id s.tables.records))
            s)
  unfolding write_record single_value revision_text cast_text ◌>>=◌
  write_record-Implements s v room storable =
      let found = lookup id s.tables.records in
      let r = replacement found e in
      let statement = write_statement id r (outcome_of found) in
      let after : Tables = record s.tables { records = upsert id r s.tables.records } in
      let rows : List Row = (cast_text r.revision ∷ []) ∷ [] in
      elim (exec_writes statement s rows after
        (write_statement-upsert id e id_len nonce_len s.tables v found refl room storable)) [
          | inr outage ↦ failed (>>=-Failed (exec statement) _ s outage)
          | inl (s', ran, tables, calm) ↦
              done s'
                (>>=-ok (exec statement) _ s ran
                  ∙ >>=-ok (lift (required_row (delivered rows))) _ s'
                      (ap (λ x. (x, s')) (read_written r.revision))
                  ∙ >>=-ok (lift (revision_text (cast_text r.revision))) _ s' (
                      ap (λ x. (x, s'))
                        (revision_text-cast_text r.revision storable.revision_some
                          storable.revision_most))
                  ∙ >>=-ok (lift (ensure (r.revision == r.revision) unavailable)) _ s' (
                      ap (λ (b : Bool). (ensure b unavailable, s'))
                        (eq→== r.revision r.revision refl)))
                tables calm
        ]

abbrev pub over_quota : Bytes → Tables → Bool
over_quota id t = not (is_some (lookup id t.records)) && length t.records == max_live_records

pub spec_full :
    (id : Bytes) (e : Envelope) (t : Tables)
    → over_quota id t ≡ true
    → put_spec id e t ≡ (err (mutation live_quota_exceeded), t)
spec_full id e t h = rw h refl

pub spec_room :
    (id : Bytes) (e : Envelope) (t : Tables)
    (p : Result MutationError (StoredRecord × MutationOutcome))
    → over_quota id t ≡ false
    → put (lookup id t.records) e ≡ p
    → put_spec id e t ≡ put_result id t p
spec_room id e t p h k = rw (h, k) refl

module _ (id : Bytes) (e : Envelope) (id_len : length id ≡ 16)
    (nonce_len : length e.nonce ≡ 24) where
  after_put :
      (s : Storage) (v : IsValid s.tables)
      (p : Result MutationError (StoredRecord × MutationOutcome))
      → over_quota id s.tables ≡ false
      → put (lookup id s.tables.records) e ≡ p
      → Implements s
          (put_result id s.tables p)
          (((lift (from_mutation p)) >>= λ x. write_record id x.0 x.1) s)
  unfolding from_mutation
  after_put s v (err m) room h = done s (>>=-err (lift (err (mutation m))) _ s refl) refl (λ c. c)
  after_put s v (ok (r, o)) room h =
      let (_, r_eq, o_eq, storable) = (put_iff (lookup id s.tables.records) e r o).0 h in
      Implements-eq (Later-refl s)
        (>>=-ok (lift (ok (r, o))) _ s refl ∙ ap₂ (λ r' o'. write_record id r' o' s) r_eq o_eq)
        (subst
          (λ x. Implements s (put_result id s.tables (ok x)) (
            write_record id (replacement (lookup id s.tables.records) e)
              (outcome_of (lookup id s.tables.records)) s))
          (λ i. (sym r_eq i, sym o_eq i))
          (write_record-Implements id e id_len nonce_len s v room (subst IsStorable r_eq storable)))

  put_current-Implements :
      (s : Storage) (v : IsValid s.tables)
      → Implements s
          (put_spec id e s.tables)
          (put_current id e (lookup id s.tables.records) (length s.tables.records) s)
  unfolding put_current
  put_current-Implements s v =
      let n = length s.tables.records in
      let within : (ensure (not (ltb max_live_records n)) unavailable, s) ≡ (ok tt, s) =
        ap (λ (b : Bool). (ensure (not b) unavailable, s))
          (le→ltb_false max_live_records n v.at_most) in
      Implements-eq (Later-refl s)
        (>>=-ok (lift (ensure (not (ltb max_live_records n)) unavailable)) _ s within)
        (elim (Bool-cases (over_quota id s.tables)) [
          | inl full ↦ Implements-along (spec_full id e s.tables full) (
              done s
                (>>=-err
                  (lift (ensure (not (over_quota id s.tables)) (mutation live_quota_exceeded))) _ s
                  (ap (λ (b : Bool). (ensure (not b) (mutation live_quota_exceeded), s)) full))
                refl (λ c. c))
          | inr room ↦
              Implements-along
                (spec_room id e s.tables (put (lookup id s.tables.records) e) room refl)
                (Implements-eq (Later-refl s)
                  (>>=-ok
                    (lift (ensure (not (over_quota id s.tables)) (mutation live_quota_exceeded))) _
                    s (ap (λ (b : Bool). (ensure (not b) (mutation live_quota_exceeded), s)) room))
                  (after_put s v (put (lookup id s.tables.records) e) room refl))
        ])

  -- Behind the first read.
  counted :
      (s : Storage)
      → IsValid s.tables
      → Implements s
          (put_spec id e s.tables)
          ((live_record_count >>= λ n. put_current id e (lookup id s.tables.records) n) s)
  counted s v = elim (live_record_count-Reads s v) [
    | fails outage ↦ failed (>>=-Failed live_record_count _ s outage)
    | gives s₁ read l ↦ Implements-eq l (>>=-ok live_record_count _ s read) (
        subst
          (λ t.
            Implements s₁ (put_spec id e t)
              (put_current id e (lookup id t.records) (length t.records) s₁))
          l.same_tables (put_current-Implements s₁ (subst IsValid (sym l.same_tables) v)))
  ]

-- On valid tables `put_record` does what the abstract account promises: over the quota it refuses a
-- new record, otherwise it answers as `put` on the record of the key, and what `put` made is the
-- record of the key afterwards. It fails only in an outage, and then it leaves the tables.
pub put_record-Implements :
    (id : Bytes) (e : Envelope) (s : Storage)
    → length id ≡ 16
    → length e.nonce ≡ 24
    → IsValid s.tables
    → Implements s (put_spec id e s.tables) (put_record id e s)
unfolding put_record
put_record-Implements id e s id_len nonce_len v = elim (load_record-Reads id s v) [
  | fails outage ↦ failed (>>=-Failed (load_record id) _ s outage)
  | gives s₁ read l ↦ Implements-eq l (>>=-ok (load_record id) _ s read) (
      subst
        (λ t.
          Implements s₁ (put_spec id e t)
            ((live_record_count >>= λ n. put_current id e (lookup id t.records) n) s₁))
        l.same_tables (counted id e id_len nonce_len s₁ (subst IsValid (sym l.same_tables) v)))
]
