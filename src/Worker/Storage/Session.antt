-- ===== src/Worker/Storage/Session.antt =====
-- crates/session-sync-worker/src/storage.rs: SQL calls on the storage of an account object. A call
-- keeps the storage when it fails; any call may fail for a reason outside the program.
pub mod Steps
use attached.Common.{Bool, true, false, List, [], ◌∷◌, Option, none, some, Result, ok, err}
use attached.Worker.Storage.Sql.{Row, Tables, Statement}
use attached.Worker.Storage.Rows.{StoreError, unavailable, Cursor}

-- The tables, and which of the next calls fail in the database; none does behind the list.
pub record Storage : Type 0 where
  pub tables : Tables
  pub outages : List Bool

abbrev pub Session : Type 0 → Type 0
Session A = Storage → Result StoreError A × Storage

-- What follows a call: an error ends the operation.
abbrev pub and_then :
    {A B : Type 0} → (A → Session B) → Result StoreError A × Storage → Result StoreError B × Storage
and_then f (ok a, s) = f a s
and_then f (err e, s) = (err e, s)

infixl 5 ◌>>=◌ ◌>>◌
unfoldable pub ◌>>=◌ : {A B : Type 0} → Session A → (A → Session B) → Session B
◌>>=◌ m f s = and_then f (m s)

abbrev pub ◌>>◌ : {B : Type 0} → Session (Unit {0}) → Session B → Session B
m >> k = m >>= λ _. k

-- `?` on a result that is there.
abbrev pub lift : {A : Type 0} → Result StoreError A → Session A
lift r s = (r, s)

-- Rows that are there to be read.
unfoldable pub delivered : List Row → Cursor
delivered [] = []
delivered (row ∷ rows) = some row ∷ delivered rows

abbrev pub ran :
    List Bool → Tables → Option (List Row × Tables) → Result StoreError Cursor × Storage
ran outages tables none = (err unavailable, record { tables = tables; outages = outages })
ran outages tables (some (rows, tables')) =
    (ok (delivered rows), record { tables = tables'; outages = outages })

-- `storage.sql().exec(…).map_err(|_| Unavailable)`
unfoldable pub exec_on : Statement → List Bool → Tables → Result StoreError Cursor × Storage
exec_on statement [] tables = ran [] tables (statement tables)
exec_on statement (true ∷ outages) tables =
    (err unavailable, record { tables = tables; outages = outages })
exec_on statement (false ∷ outages) tables = ran outages tables (statement tables)

unfoldable pub exec : Statement → Session Cursor
exec statement s = exec_on statement s.outages s.tables
