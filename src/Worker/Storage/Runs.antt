-- ===== src/Worker/Storage/Runs.antt =====
-- crates/session-sync-worker/src/storage.rs: any sequence of puts against the abstract account, a
-- finite map of records with their number.
use mathlib.Core.Path.{subst}
use attached.Common.{
  ℕ, ◌+◌, false, not, ◌&&◌, ◌==◌, if◌then◌else◌, Bool-cases, inl, inr, length, List, [], ◌∷◌, All,
  Bytes, bytes_eq, Option, some, Result, ok, err, ◌≡◌, refl, sym, ap, ◌∙◌, arith,
}
use attached.Api.Envelope.{Envelope}
use attached.Api.Sequence.{max_live_records}
use attached.Worker.Account.{MutationError}
use attached.Worker.Records.{MutationOutcome, StoredRecord, put}
use attached.Worker.Records.History.{put_iff}
use attached.Worker.Storage.Sql.{Tables, lookup, is_some}
use attached.Worker.Storage.Session.{Storage}
use attached.Worker.Storage.Keys.{IsRow, lookup-upsert, All-upsert, Sorted-upsert, length-upsert}
use attached.Worker.Storage.Operations.{put_record}
use attached.Worker.Storage.Reading.{IsValid}
use attached.Worker.Storage.Writing.{
  put_spec, put_result, over_quota, spec_full, spec_room, done, failed, put_record-Implements,
}

-- What the account is, forgetting rows and their order.
pub record View : Type 0 where
  pub found : Bytes → Option StoredRecord
  pub count : ℕ

abbrev pub view : Tables → View
view t = record { found = λ id. lookup id t.records; count = length t.records }

abbrev pub replaced : Bytes → View → Result MutationError (StoredRecord × MutationOutcome) → View
replaced id v (ok (r, _)) = record {
  found = λ j. if bytes_eq id j then some r else v.found j;
  count = if is_some (v.found id) then v.count else v.count + 1;
}
replaced id v (err _) = v

-- A put on the abstract account.
abbrev pub put_view : Bytes → Envelope → View → View
put_view id e v =
    if not (is_some (v.found id)) && v.count == max_live_records
    then v
    else replaced id v (put (v.found id) e)

pub record Request : Type 0 where
  pub id : Bytes
  pub envelope : Envelope

-- The identifier and the nonce are arrays.
pub record IsTyped (q : Request) : Type 0 where
  pub id_len : length q.id ≡ 16
  pub nonce_len : length q.envelope.nonce ≡ 24

abbrev pub replay : List Request → View → View
replay [] v = v
replay (q ∷ requests) v = replay requests (put_view q.id q.envelope v)

abbrev pub puts : List Request → Storage → Storage
puts [] s = s
puts (q ∷ requests) s = puts requests (put_record q.id q.envelope s).1

module _ (id : Bytes) (e : Envelope) (id_len : length id ≡ 16) (nonce_len : length e.nonce ≡ 24)
    (t : Tables) (v : IsValid t) where
  result-IsValid :
      (p : Result MutationError (StoredRecord × MutationOutcome))
      → over_quota id t ≡ false
      → put (lookup id t.records) e ≡ p
      → IsValid (put_result id t p).1
  result-IsValid (err m) room h = v
  result-IsValid (ok (r, o)) room h =
      let (_, r_eq, _, storable) = (put_iff (lookup id t.records) e r o).0 h in
      let most = v.at_most in
      record {
        schema = v.schema;
        account = v.account;
        at_most = ground (arith, length-upsert id r t.records v.sorted);
        rows =
            All-upsert IsRow id r t.records
              (record {
                id_len = id_len;
                nonce_len = ap (λ (x : StoredRecord). length x.envelope_nonce) r_eq ∙ nonce_len;
                storable = storable;
              })
              v.rows;
        sorted = Sorted-upsert id r t.records v.sorted;
      }

  view-put_result :
      (p : Result MutationError (StoredRecord × MutationOutcome))
      → view (put_result id t p).1 ≡ replaced id (view t) p
  view-put_result (err m) = refl
  view-put_result (ok (r, o)) = λ i. record {
    found = λ j. lookup-upsert id j r t.records i;
    count = length-upsert id r t.records v.sorted i;
  }

  pub put_spec-IsValid : IsValid (put_spec id e t).1
  put_spec-IsValid = elim (Bool-cases (over_quota id t)) [
    | inl full ↦ subst (λ x. IsValid x.1) (sym (spec_full id e t full)) v
    | inr room ↦
        subst (λ x. IsValid x.1) (sym (spec_room id e t _ room refl))
          (result-IsValid (put (lookup id t.records) e) room refl)
  ]

  view-put_spec : view (put_spec id e t).1 ≡ put_view id e (view t)
  view-put_spec = elim (Bool-cases (over_quota id t)) [
    | inl full ↦ rw full refl
    | inr room ↦ rw room (view-put_result (put (lookup id t.records) e))
  ]

-- From valid tables and with no outage, any sequence of puts leaves valid tables that read as the
-- same puts on the abstract account.
pub puts_refine :
    (requests : List Request) (s : Storage)
    → s.outages ≡ []
    → All IsTyped requests
    → IsValid s.tables
    → IsValid (puts requests s).tables
      × (view (puts requests s).tables ≡ replay requests (view s.tables))
puts_refine [] s calm typed v = (v, refl)
puts_refine (q ∷ requests) s calm (typed, rest) v =
    elim (put_record-Implements q.id q.envelope s typed.id_len typed.nonce_len v) [
      | failed (_, _, _, outage) ↦ absurd (outage calm)
      | done s' e same still ↦
          let s'_eq : (put_record q.id q.envelope s).1 ≡ s' = ap (λ x. x.1) e in
          let v' : IsValid s'.tables =
            subst IsValid (sym same)
              (put_spec-IsValid q.id q.envelope typed.id_len typed.nonce_len s.tables v) in
          let (valid, seen) = puts_refine requests s' (still calm) rest v' in
          (
            subst (λ x. IsValid (puts requests x).tables) (sym s'_eq) valid,
            ap (λ x. view (puts requests x).tables) s'_eq
                ∙ seen
                ∙ ap (λ t. replay requests (view t)) same
                ∙ ap (replay requests)
                    (view-put_spec q.id q.envelope typed.id_len typed.nonce_len s.tables v),
          )
    ]
