-- ===== src/Herdr/Discovery/Removal.antt =====
-- crates/herdr-plugin/src/discovery.rs: which machines `prune` removes.
use mathlib.Core.Path.{subst}
use attached.Common.{
  ℕ, ◌≤◌, true, false, ltb, Bool-cases, inl, inr, List, [], ◌∷◌, All, some, Bytes, bytes_eq,
  bytes_eq_refl, bytes_eq_iff, Result, ok, err, ◌≡◌, refl, ◌∙◌, arith,
}
use attached.Api.Sequence.{is_less}
use attached.Maps.{get, contains_key, insert, remove, Sorted, get-insert, get-remove, less-differ}
use attached.Herdr.Hosts.{Host}
use attached.Herdr.Discovery.{
  Machine, State, World, saturating_suc, is_present, owns, count_of, Reconciler, Outcome, and_then,
  save_state, disown, removed, missed, prune_one, prune_all, retain_managed, loaded, load_state,
  prune_listed, prune,
}

-- A machine that a check may remove: it is the profile that was added for the identity, the identity is
-- not among the hosts, and at least two checks before missed it.
pub record IsRemovable (hosts : List Host) (listed : List Machine) (managed : List (Bytes × Bytes))
    (missing : List (Bytes × ℕ)) (endpoint profile : Bytes) : Type 0 where
  pub added : get endpoint managed ≡ some profile
  pub owned : owns listed endpoint profile ≡ true
  pub absent : is_present hosts endpoint ≡ false
  pub missed_before : 2 ≤ count_of (get endpoint missing)

-- The pairs of a sorted map are what it holds.
held : (map : List (Bytes × Bytes)) → Sorted map → All (λ x. get x.0 map ≡ some x.1) map
unfolding get
held [] s = tt
held ((key, a) ∷ map) (above, s) = (rw (bytes_eq_refl key) refl, behind map above (held map s))
  where
    behind :
        (rest : List (Bytes × Bytes))
        → All (λ x. is_less key x.0 ≡ true) rest
        → All (λ x. get x.0 map ≡ some x.1) rest
        → All (λ x. get x.0 ((key, a) ∷ map) ≡ some x.1) rest
    behind [] h k = tt
    behind ((id, b) ∷ rest) (h, hs) (k, ks) = (rw (less-differ key id h) k, behind rest hs ks)

-- What `retain` keeps is what it was.
get-retain_managed :
    (id profile : Bytes) (managed : List (Bytes × Bytes)) (missing : List (Bytes × ℕ))
    → get id managed ≡ some profile
    → get id (retain_managed managed missing) ≡ get id missing
unfolding get retain_managed contains_key
get-retain_managed id profile managed [] e = refl
get-retain_managed id profile managed ((key, n) ∷ missing) e =
    ground (arith, bytes_eq_iff key id, e, get-retain_managed id profile managed missing e)

module _ {Failure : Type 0} (world : World Failure) where
  open world use {W, load, save, machines, remove_machine}

  pub prune_one-missing :
      (hosts : List Host) (listed : List Machine) (endpoint profile j : Bytes) (r : Reconciler W)
      → bytes_eq endpoint j ≡ false
      → get j (prune_one world hosts listed endpoint profile r).0.missing ≡ get j r.missing
  unfolding prune_one disown missed save_state removed
  prune_one-missing hosts listed endpoint profile j r other =
      let misses = saturating_suc (count_of (get endpoint r.missing)) in
      let counted = record r { missing = insert endpoint misses r.missing } in
      let dropped : get j (remove endpoint r.missing) ≡ get j r.missing =
        get-remove endpoint j r.missing ∙ rw other refl in
      let added : get j counted.missing ≡ get j r.missing =
        get-insert endpoint j misses r.missing ∙ rw other refl in
      elim (Bool-cases (owns listed endpoint profile)) [
        | inr foreign ↦ rw foreign dropped
        | inl owned ↦ elim (Bool-cases (is_present hosts endpoint)) [
          | inl present ↦ rw (owned, present) dropped
          | inr absent ↦ elim (Bool-cases (ltb misses 3)) [
            | inl few ↦ rw (owned, absent, few) added
            | inr enough ↦
                rw (owned, absent, enough)
                  (after_removal counted (remove_machine profile r.world) ∙ added)
          ]
        ]
      ]
    where
      after_removal :
          (c : Reconciler W) (x : W × Result Failure (Unit {0}))
          → get j (removed world endpoint c x).0.missing ≡ get j c.missing
      after_removal c (w, err e) = refl
      after_removal c (w, ok u) = get-remove endpoint j c.missing ∙ rw other refl

  module _ (P : W → Type 0) (hosts : List Host) (listed : List Machine)
      (managed : List (Bytes × Bytes)) (missing : List (Bytes × ℕ))
      (save-P : (s : State) (w : W) → P w → P (save s w).0)
      (remove-P : (endpoint profile : Bytes) (w : W)
        → IsRemovable hosts listed managed missing endpoint profile
        → P w
        → P (remove_machine profile w).0) where
    removed-P :
        (endpoint : Bytes) (r : Reconciler W) (x : W × Result Failure (Unit {0}))
        → P x.0
        → P (removed world endpoint r x).0.world
    unfolding removed save_state
    removed-P endpoint r (w, err e) h = h
    removed-P endpoint r (w, ok u) h = save-P _ w h

    prune_one-P :
        (endpoint profile : Bytes) (r : Reconciler W)
        → get endpoint managed ≡ some profile
        → get endpoint r.missing ≡ get endpoint missing
        → P r.world
        → P (prune_one world hosts listed endpoint profile r).0.world
    unfolding prune_one disown missed save_state
    prune_one-P endpoint profile r is_added same h =
        let misses = saturating_suc (count_of (get endpoint r.missing)) in
        elim (Bool-cases (owns listed endpoint profile)) [
          | inr foreign ↦ rw foreign (save-P _ r.world h)
          | inl owned ↦ elim (Bool-cases (is_present hosts endpoint)) [
            | inl present ↦ rw (owned, present) h
            | inr absent ↦ elim (Bool-cases (ltb misses 3)) [
              | inl few ↦ rw (owned, absent, few) h
              | inr enough ↦
                  let twice : 2 ≤ count_of (get endpoint missing) =
                    subst (λ o. 2 ≤ count_of o) same
                      (at_least (count_of (get endpoint r.missing)) enough) in
                  rw (owned, absent, enough)
                    (removed-P endpoint (record r { missing = insert endpoint misses r.missing })
                      (remove_machine profile r.world)
                      (remove-P endpoint profile r.world
                        (record {
                          added = is_added;
                          owned = owned;
                          absent = absent;
                          missed_before = twice;
                        })
                        h))
            ]
          ]
        ]
      where
        at_least : (n : ℕ) → ltb (saturating_suc n) 3 ≡ false → 2 ≤ n
        at_least n e = ground arith

    and_then-P :
        (x : Outcome world) (f : Reconciler W → Outcome world)
        → P x.0.world
        → ((r : Reconciler W) → x.0 ≡ r → P r.world → P (f r).0.world)
        → P (and_then world x f).0.world
    unfolding and_then
    and_then-P (r, ok u) f h k = k r refl h
    and_then-P (r, err e) f h k = h

    -- The counts of the machines that are still to come are those from the start.
    abbrev Untouched : Reconciler W → List (Bytes × Bytes) → Type 0
    Untouched r rest = All (λ x. get x.0 r.missing ≡ get x.0 missing) rest

    still :
        (endpoint profile : Bytes) (r : Reconciler W) (rest : List (Bytes × Bytes))
        → All (λ x. is_less endpoint x.0 ≡ true) rest
        → Untouched r rest
        → Untouched (prune_one world hosts listed endpoint profile r).0 rest
    still endpoint profile r [] above h = tt
    still endpoint profile r ((id, b) ∷ rest) (above, bs) (h, hs) = (
      prune_one-missing hosts listed endpoint profile id r (less-differ endpoint id above) ∙ h,
      still endpoint profile r rest bs hs,
    )

    prune_all-P :
        (rest : List (Bytes × Bytes)) (r : Reconciler W)
        → Sorted rest
        → All (λ x. get x.0 managed ≡ some x.1) rest
        → Untouched r rest
        → P r.world
        → P (prune_all world hosts listed rest r).0.world
    unfolding prune_all
    prune_all-P [] r s a u h = h
    prune_all-P ((endpoint, profile) ∷ rest) r (above, s) (a, all) (u, us) h =
        and_then-P (prune_one world hosts listed endpoint profile r)
          (prune_all world hosts listed rest) (prune_one-P endpoint profile r a u h)
          (λ r' e h'.
            prune_all-P rest r' s all
              (subst (λ x. Untouched x rest) e (still endpoint profile r rest above us)) h')

  Untouched-retain :
      (hosts : List Host) (listed : List Machine) (managed rest : List (Bytes × Bytes))
      (missing : List (Bytes × ℕ))
      → All (λ x. get x.0 managed ≡ some x.1) rest
      → All (λ x. get x.0 (retain_managed managed missing) ≡ get x.0 missing) rest
  Untouched-retain hosts listed managed [] missing a = tt
  Untouched-retain hosts listed managed ((id, b) ∷ rest) missing (a, all) = (
    get-retain_managed id b managed missing a,
    Untouched-retain hosts listed managed rest missing all,
  )

  -- A prune that has loaded a state with its machines in order, and the machines that are listed,
  -- removes no machine but those that are removable: what holds of the world then holds behind it if
  -- saving a state keeps it and removing a removable machine does. A machine is removable if it is
  -- the profile that was added for an identity, the identity is not among the hosts, and at least two
  -- checks before missed it.
  pub prune_removes_missing :
      (P : W → Type 0) (hosts : List Host) (r : Reconciler W) (w₁ w₂ : W) (state : State)
      (listed : List Machine)
      → load r.world ≡ (w₁, ok state)
      → machines w₁ ≡ (w₂, ok listed)
      → Sorted state.managed
      → ((s : State) (w : W) → P w → P (save s w).0)
      → ((endpoint profile : Bytes) (w : W)
          → IsRemovable hosts listed state.managed r.missing endpoint profile
          → P w
          → P (remove_machine profile w).0)
      → P w₂
      → P (prune world hosts r).0.world
  unfolding prune load_state loaded prune_listed and_then
  prune_removes_missing P hosts r w₁ w₂ state listed loads lists sorted save-P remove-P h =
      rw (loads, lists)
        (prune_all-P P hosts listed state.managed r.missing save-P remove-P state.managed
          (record {
            world = w₂;
            state = state;
            retry = r.retry;
            missing = retain_managed state.managed r.missing;
            last_generation = r.last_generation;
          })
          sorted (held state.managed sorted)
          (Untouched-retain hosts listed state.managed state.managed r.missing
            (held state.managed sorted))
          h)
