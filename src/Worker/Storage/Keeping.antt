-- ===== src/Worker/Storage/Keeping.antt =====
-- crates/session-sync-worker/src/storage.rs: calls that leave the tables, whatever they return.
use attached.Common.{
  ℕ, Bytes, Bool, true, false, List, [], ◌∷◌, Option, none, some, Result, ok, err, ◌≡◌, ◌⊎◌, inl,
  inr, refl, ◌∙◌,
}
use attached.Worker.Account.{StoredAccount, UuidCrate}
use attached.Worker.Storage.Sql.{
  Row, Tables, Statement, select_schema, select_account, select_index, select_record,
}
use attached.Worker.Storage.Rows.{StoreError, optional_row}
use attached.Worker.Storage.Session.{Storage, Session, ◌>>=◌, lift, and_then, exec_on, exec}
use attached.Worker.Storage.Operations.{
  account_state_name, schema_exists, load_present, load_account, load_index, load_record,
}

abbrev pub Keeps : {A : Type 0} → Session A → Type 0
Keeps m = (s : Storage) → (m s).1.tables ≡ s.tables

-- A statement that fails or gives rows and leaves the tables.
abbrev IsQuery : Statement → Type 0
IsQuery statement =
    (t : Tables) → (statement t ≡ none) ⊎ ((rows : List Row) × (statement t ≡ some (rows, t)))

tables-exec_on :
    (statement : Statement) (outages : List Bool) (t : Tables)
    → IsQuery statement
    → (exec_on statement outages t).1.tables ≡ t
unfolding exec_on
tables-exec_on statement (true ∷ outages) t q = refl
tables-exec_on statement [] t q = elim (q t) [ inl h ↦ rw h refl | inr (rows, h) ↦ rw h refl ]
tables-exec_on statement (false ∷ outages) t q = elim (q t) [
  | inl h ↦ rw h refl
  | inr (rows, h) ↦ rw h refl
]

exec-Keeps : (statement : Statement) → IsQuery statement → Keeps (exec statement)
unfolding exec
exec-Keeps statement q s = tables-exec_on statement s.outages s.tables q

>>=-Keeps :
    {A B : Type 0} (m : Session A) (f : A → Session B)
    → Keeps m
    → ((a : A) → Keeps (f a))
    → Keeps (m >>= f)
unfolding ◌>>=◌
>>=-Keeps {A} {B} m f k l s = next (m s) ∙ k s
  where
    next : (x : Result StoreError A × Storage) → (and_then f x).1.tables ≡ x.1.tables
    next (ok a, s') = l a s'
    next (err e, s') = refl

schema-IsQuery : IsQuery (select_schema account_state_name)
unfolding select_schema
schema-IsQuery t = inr (_, refl)

account-IsQuery : IsQuery select_account
unfolding select_account
account-IsQuery t = by_cases t.schema t.account_state
  where
    by_cases :
        (schema : Bool) (account : Option StoredAccount)
        → let t' : Tables = record t { schema = schema; account_state = account } in
          (select_account t' ≡ none) ⊎ ((rows : List Row) × (select_account t' ≡ some (rows, t')))
    by_cases false account = inl refl
    by_cases true none = inr (_, refl)
    by_cases true (some a) = inr (_, refl)

index-IsQuery : (limit : ℕ) → IsQuery (select_index limit)
unfolding select_index
index-IsQuery limit t = by_schema t.schema
  where
    by_schema :
        (schema : Bool)
        → let t' : Tables = record t { schema = schema } in
          (select_index limit t' ≡ none)
          ⊎ ((rows : List Row) × (select_index limit t' ≡ some (rows, t')))
    by_schema false = inl refl
    by_schema true = inr (_, refl)

record-IsQuery : (id : Bytes) → IsQuery (select_record id)
unfolding select_record
record-IsQuery id t = by_schema t.schema
  where
    by_schema :
        (schema : Bool)
        → let t' : Tables = record t { schema = schema } in
          (select_record id t' ≡ none)
          ⊎ ((rows : List Row) × (select_record id t' ≡ some (rows, t')))
    by_schema false = inl refl
    by_schema true = inr (_, refl)

present-Keeps : (uuid : UuidCrate) → Keeps (load_present uuid true)
unfolding load_present
present-Keeps uuid =
    >>=-Keeps (exec select_account) _ (exec-Keeps _ account-IsQuery)
      (λ cursor. >>=-Keeps (lift (optional_row cursor)) _ (λ s. refl) (λ row s. refl))

pub load_account-Keeps : (uuid : UuidCrate) → Keeps (load_account uuid)
unfolding load_account schema_exists load_present
load_account-Keeps uuid =
    >>=-Keeps schema_exists _
      (>>=-Keeps (exec (select_schema account_state_name)) _ (exec-Keeps _ schema-IsQuery)
        (λ cursor. >>=-Keeps (lift (optional_row cursor)) _ (λ s. refl) (λ row s. refl)))
      present
  where
    present : (exists : Bool) → Keeps (load_present uuid exists)
    present false = λ s. refl
    present true = present-Keeps uuid

pub load_index-Keeps : Keeps load_index
unfolding load_index
load_index-Keeps =
    >>=-Keeps (exec (select_index _)) _ (exec-Keeps _ (index-IsQuery _))
      (λ cursor. >>=-Keeps (lift _) _ (λ s. refl) (λ records s. refl))

pub load_record-Keeps : (id : Bytes) → Keeps (load_record id)
unfolding load_record
load_record-Keeps id =
    >>=-Keeps (exec (select_record id)) _ (exec-Keeps _ (record-IsQuery id))
      (λ cursor. >>=-Keeps (lift (optional_row cursor)) _ (λ s. refl) (λ row s. refl))
