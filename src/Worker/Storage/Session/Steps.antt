-- ===== src/Worker/Storage/Session/Steps.antt =====
-- One step of a sequence of SQL calls: what reads give, whatever fails.
use attached.Common.{
  Bool, true, false, List, [], ◌∷◌, some, Result, ok, err, ◌≡◌, ◌≢◌, ◌⊎◌, inl, inr, refl, ap, ◌∙◌,
}
use attached.Worker.Storage.Sql.{Row, Tables, Statement}
use attached.Worker.Storage.Rows.{StoreError, unavailable}
use attached.Worker.Storage.Session.{
  Storage, Session, ◌>>=◌, lift, delivered, and_then, ran, exec_on, exec,
}

-- No call fails that did not fail before.
pub record Later (s s' : Storage) : Type 0 where
  pub same_tables : s'.tables ≡ s.tables
  pub calm : s.outages ≡ [] → s'.outages ≡ []

pub Later-refl : (s : Storage) → Later s s
Later-refl s = record { same_tables = refl; calm = λ h. h }

pub Later-trans : {s t u : Storage} → Later s t → Later t u → Later s u
Later-trans a b = record {
  same_tables = b.same_tables ∙ a.same_tables;
  calm = λ h. b.calm (a.calm h);
}

-- The call was made in an outage, and did nothing.
abbrev pub Failed : {A : Type 0} → Storage → Result StoreError A × Storage → Type 0
Failed {A} s x =
    (s' : Storage) × (x ≡ (err unavailable, s')) × (s'.tables ≡ s.tables) × (s.outages ≢ [])

-- The call gives `a` and leaves the tables, or fails in an outage.
pub data Reads {A : Type 0} (s : Storage) (a : A) (x : Result StoreError A × Storage) : Type 0 where
  gives : (s' : Storage) → x ≡ (ok a, s') → Later s s' → Reads s a x
  fails : Failed s x → Reads s a x

exec_on-Reads :
    (statement : Statement) (outages : List Bool) (tables : Tables) (rows : List Row)
    → statement tables ≡ some (rows, tables)
    → Reads
        (record { tables = tables; outages = outages })
        (delivered rows)
        (exec_on statement outages tables)
unfolding exec_on
exec_on-Reads statement [] tables rows h =
    gives (record { tables = tables; outages = [] }) (ap (ran [] tables) h) (Later-refl _)
exec_on-Reads statement (true ∷ outages) tables rows h =
    fails (record { tables = tables; outages = outages }, refl, refl, λ e. cc)
exec_on-Reads statement (false ∷ outages) tables rows h =
    gives (record { tables = tables; outages = outages }) (ap (ran outages tables) h)
      (record { same_tables = refl; calm = λ e. cc })

-- A statement that changes nothing.
pub exec-Reads :
    (statement : Statement) (s : Storage) (rows : List Row)
    → statement s.tables ≡ some (rows, s.tables)
    → Reads s (delivered rows) (exec statement s)
unfolding exec
exec-Reads statement s rows h = exec_on-Reads statement s.outages s.tables rows h

-- A statement that changes the tables does so, or fails in an outage.
pub exec_writes :
    (statement : Statement) (s : Storage) (rows : List Row) (tables' : Tables)
    → statement s.tables ≡ some (rows, tables')
    → ((s' : Storage) × (exec statement s ≡ (ok (delivered rows), s'))
        × (s'.tables ≡ tables')
        × (s.outages ≡ [] → s'.outages ≡ []))
      ⊎ Failed s (exec statement s)
unfolding exec exec_on
exec_writes statement s rows tables' h = by_outages s.outages
  where
    by_outages :
        (outages : List Bool)
        → ((s' : Storage) × (exec_on statement outages s.tables ≡ (ok (delivered rows), s'))
            × (s'.tables ≡ tables')
            × (outages ≡ [] → s'.outages ≡ []))
          ⊎ Failed
              (record { tables = s.tables; outages = outages })
              (exec_on statement outages s.tables)
    by_outages [] =
        inl (record { tables = tables'; outages = [] }, ap (ran [] s.tables) h, refl, λ e. refl)
    by_outages (true ∷ outages) =
        inr (record { tables = s.tables; outages = outages }, refl, refl, λ e. cc)
    by_outages (false ∷ outages) =
        inl (
          record { tables = tables'; outages = outages },
          ap (ran outages s.tables) h,
          refl,
          λ e. cc,
        )

module _ {A B : Type 0} (m : Session A) (f : A → Session B) (s : Storage) where
  pub >>=-ok : {a : A} {s' : Storage} → m s ≡ (ok a, s') → (m >>= f) s ≡ f a s'
  unfolding ◌>>=◌
  >>=-ok h = ap (and_then f) h

  pub >>=-err : {e : StoreError} {s' : Storage} → m s ≡ (err e, s') → (m >>= f) s ≡ (err e, s')
  unfolding ◌>>=◌
  >>=-err h = ap (and_then f) h

  pub >>=-Failed : Failed s (m s) → Failed s ((m >>= f) s)
  >>=-Failed (s', e, same, outage) = (s', >>=-err e, same, outage)

-- An outage of a later call is one of the whole.
pub Later-Failed :
    {A : Type 0} {s t : Storage} {x : Result StoreError A × Storage}
    → Later s t
    → Failed t x
    → Failed s x
Later-Failed l (s', e, same, outage) = (s', e, same ∙ l.same_tables, λ h. outage (l.calm h))

pub Reads-eq :
    {A : Type 0} {s : Storage} {a : A} {x y : Result StoreError A × Storage}
    → x ≡ y
    → Reads s a y
    → Reads s a x
Reads-eq p (gives s' e l) = gives s' (p ∙ e) l
Reads-eq p (fails (s', e, same, outage)) = fails (s', p ∙ e, same, outage)

pub Later-Reads :
    {A : Type 0} {s t : Storage} {a : A} {x : Result StoreError A × Storage}
    → Later s t
    → Reads t a x
    → Reads s a x
Later-Reads l (gives s' e k) = gives s' e (Later-trans l k)
Later-Reads l (fails failed) = fails (Later-Failed l failed)

-- Calls that read, one behind the other.
pub >>=-Reads :
    {A B : Type 0} (m : Session A) (f : A → Session B) {s : Storage} {a : A} {b : B}
    → Reads s a (m s)
    → ((s' : Storage) → Later s s' → Reads s' b (f a s'))
    → Reads s b ((m >>= f) s)
>>=-Reads m f {s} (gives s' e l) next = Later-Reads l (Reads-eq (>>=-ok m f s e) (next s' l))
>>=-Reads m f {s} (fails failed) next = fails (>>=-Failed m f s failed)

-- A result that is there.
pub lift-Reads :
    {A : Type 0} (r : Result StoreError A) (s : Storage) {a : A} → r ≡ ok a → Reads s a (lift r s)
lift-Reads r s h = gives s (ap (λ (t : Result StoreError _). (t, s)) h) (Later-refl s)
