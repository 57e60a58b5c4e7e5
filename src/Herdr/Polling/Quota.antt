-- ===== src/Herdr/Polling/Quota.antt =====
-- crates/herdr-plugin/src/discovery.rs: what a check does to the world while no machine is removed.

use attached.Common.{
  ℕ, suc, ◌≤◌, Bool, true, false, leb, ltb, Bool-cases, inl, inr, List, [], ◌∷◌, Option, none, some,
  Bytes, Result, ok, err, ◌≡◌, refl, arith,
}
use attached.Maps.{get}
use attached.Herdr.Hosts.{Host, Discovery}
use attached.Herdr.Discovery.{
  Machine, State, World, contains, Reconciler, Outcome, and_then, save_state, loaded, load_state,
}
use attached.Herdr.Polling.{
  is_registered, display, profile_of, add_ready, retry_later, answered, attempt, cooled, try_host,
  poll_one, continue_with, poll_all, notified, notify_all, poll_listed, poll, count_absences, check,
}

-- A property of the world and of the number of times that `ready` was asked, which every operation but the
-- removal of a machine keeps.
pub record Counts {Failure : Type 0} (world : World Failure) (P : ℕ → world.W → Type 0)
    : Type 0 where
  pub load-P : (n : ℕ) (w : world.W) → P n w → P n (world.load w).0
  pub save-P : (n : ℕ) (s : State) (w : world.W) → P n w → P n (world.save s w).0
  pub machines-P : (n : ℕ) (w : world.W) → P n w → P n (world.machines w).0
  pub add-P :
      (n : ℕ) (target label : Bytes) (w : world.W) → P n w → P n (world.add target label w).0
  pub notify-P : (n : ℕ) (label : Bytes) (w : world.W) → P n w → P n (world.notify label w).0
  pub now-P : (n : ℕ) (w : world.W) → P n w → P n (world.now w).0
  pub ready-P : (n : ℕ) (host : Host) (w : world.W) → P n w → P (suc n) (world.ready host w).0

module _ {Failure : Type 0} (world : World Failure) (P : ℕ → world.W → Type 0)
    (counts : Counts world P) where
  open world use {W, load, save, machines, add, notify, ready, now}

  save_state-P : (n : ℕ) (r : Reconciler W) → P n r.world → P n (save_state world r).0.world
  unfolding save_state
  save_state-P n r h = counts.save-P n r.state r.world h

  profile_of-P : (n : ℕ) (x : W × Result Failure Bytes) → P n x.0 → P n (profile_of world x).0
  unfolding profile_of
  profile_of-P n (w, ok profile) h = h
  profile_of-P n (w, err e) h = h

  add_ready-P :
      (n : ℕ) (host : Host) (label : Bytes) (x : W × Result Failure Bool)
      → P n x.0
      → P n (add_ready world host label x).0
  unfolding add_ready
  add_ready-P n host label (w, err e) h = h
  add_ready-P n host label (w, ok false) h = h
  add_ready-P n host label (w, ok true) h =
      profile_of-P n (add host.ssh_target label w) (counts.add-P n host.ssh_target label w h)

  retry_later-P :
      (n : ℕ) (host : Host) (failures : ℕ) (r : Reconciler W) (x : W × ℕ)
      → P n x.0
      → P n (retry_later world host failures r x).0.world
  unfolding retry_later
  retry_later-P n host failures r (w, t) h = h

  answered-P :
      (n : ℕ) (host : Host) (label : Bytes) (failures : ℕ) (r : Reconciler W)
      (x : W × Result Failure (Option Bytes))
      → P n x.0
      → P n (answered world host label failures r x).0.world
  unfolding answered
  answered-P n host label failures r (w, ok none) h = h
  answered-P n host label failures r (w, err e) h =
      retry_later-P n host failures r (now w) (counts.now-P n w h)
  answered-P n host label failures r (w, ok (some profile)) h = save_state-P n _ h

  attempt-P :
      (n : ℕ) (host : Host) (label : Bytes) (failures : ℕ) (r : Reconciler W) (x : W × ℕ)
      → P n x.0
      → P (suc n) (attempt world host label failures r x).0.world
  unfolding attempt
  attempt-P n host label failures r (w, t) h =
      answered-P (suc n) host label failures _ (add_ready world host label (ready host w))
        (add_ready-P (suc n) host label (ready host w) (counts.ready-P n host w h))

  -- The attempts are as many as the requests, and at most one more than before.
  abbrev Tried : ℕ → ℕ × Outcome world → Type 0
  Tried attempts x = P x.0 x.1.0.world × (x.0 ≤ suc attempts)

  cooled-P :
      (host : Host) (label : Bytes) (attempts deadline failures : ℕ) (r : Reconciler W) (x : W × ℕ)
      → P attempts x.0
      → Tried attempts (cooled world host label attempts deadline failures r x)
  unfolding cooled
  cooled-P host label attempts deadline failures r (w, t) h = elim (Bool-cases (ltb t deadline)) [
    | inl early ↦ rw early (h, omega arith)
    | inr late ↦ rw late (
      attempt-P attempts host label failures (record r { world = w }) (now w)
          (counts.now-P attempts w h),
      omega arith,
    )
  ]

  try_host-P :
      (host : Host) (label : Bytes) (attempts : ℕ) (previous : Option (ℕ × ℕ)) (r : Reconciler W)
      → P attempts r.world
      → Tried attempts (try_host world host label attempts previous r)
  unfolding try_host
  try_host-P host label attempts none r h = (
    attempt-P attempts host label 0 r (now r.world) (counts.now-P attempts r.world h),
    omega arith,
  )
  try_host-P host label attempts (some (deadline, failures)) r h =
      cooled-P host label attempts deadline failures r (now r.world)
        (counts.now-P attempts r.world h)

  poll_one-P :
      (hosts : List Host) (targets : List Bytes) (host : Host) (attempts : ℕ) (r : Reconciler W)
      → P attempts r.world
      → attempts ≤ 4
      → P
          (poll_one world hosts targets host attempts r).0
          (poll_one world hosts targets host attempts r).1.0.world
        × ((poll_one world hosts targets host attempts r).0 ≤ 4)
  unfolding poll_one
  poll_one-P hosts targets host attempts r h most =
      elim (Bool-cases (contains host.endpoint_id r.state.seen)) [
        | inl known ↦ rw known (h, most)
        | inr new ↦ elim (Bool-cases (is_registered hosts targets host)) [
          | inl registered ↦ rw (new, registered) (save_state-P attempts _ h, most)
          | inr other ↦ elim (Bool-cases (leb 4 attempts)) [
            | inl full ↦ rw (new, other, full) (h, most)
            | inr room ↦
                let (p, one) =
                  try_host-P host (display hosts host) attempts (get host.endpoint_id r.retry) r
                    h in
                rw (new, other, room) (p, ground (arith, one))
          ]
        ]
      ]

  -- `ready` was asked at most four times.
  abbrev pub Within : W → Type 0
  Within w = (n : ℕ) × (n ≤ 4) × P n w

  poll_all-P :
      (hosts : List Host) (targets : List Bytes) (candidates : List Host) (attempts : ℕ)
      (r : Reconciler W)
      → P attempts r.world
      → attempts ≤ 4
      → Within (poll_all world hosts targets candidates attempts r).0.world
  unfolding poll_all continue_with
  poll_all-P hosts targets [] attempts r h most = (attempts, most, h)
  poll_all-P hosts targets (host ∷ candidates) attempts r h most =
      let (p, q) = poll_one-P hosts targets host attempts r h most in
      continued (poll_one world hosts targets host attempts r)
        (poll_all world hosts targets candidates) p q
        (λ a r' h' most'. poll_all-P hosts targets candidates a r' h' most')
    where
      continued :
          (x : ℕ × Outcome world) (f : ℕ → Reconciler W → Outcome world)
          → P x.0 x.1.0.world
          → x.0 ≤ 4
          → ((a : ℕ) (r : Reconciler W) → P a r.world → a ≤ 4 → Within (f a r).0.world)
          → Within (continue_with world x f).0.world
      continued (a, (r, ok u)) f p q k = k a r p q
      continued (a, (r, err e)) f p q k = (a, q, p)

  and_then-Within :
      (x : Outcome world) (f : Reconciler W → Outcome world)
      → Within x.0.world
      → ((r : Reconciler W) → x.0 ≡ r → Within r.world → Within (f r).0.world)
      → Within (and_then world x f).0.world
  unfolding and_then
  and_then-Within (r, ok u) f h k = k r refl h
  and_then-Within (r, err e) f h k = h

  notified-P :
      (n : ℕ) (id : Bytes) (r : Reconciler W) (x : W × Result Failure Bool)
      → P n x.0
      → P n (notified world id r x).0.world
  unfolding notified
  notified-P n id r (w, ok true) h = save_state-P n _ h
  notified-P n id r (w, ok false) h = h
  notified-P n id r (w, err e) h = h

  notify_all-Within :
      (pending : List (Bytes × Bytes)) (r : Reconciler W)
      → Within r.world
      → Within (notify_all world pending r).0.world
  unfolding notify_all
  notify_all-Within [] r h = h
  notify_all-Within ((id, label) ∷ pending) r (n, most, h) =
      and_then-Within (notified world id r (notify label r.world)) (notify_all world pending)
        (n, most, notified-P n id r (notify label r.world) (counts.notify-P n label r.world h))
        (λ r' e h'. notify_all-Within pending r' h')

  poll_listed-Within :
      (hosts : List Host) (r : Reconciler W) (x : W × Result Failure (List Machine))
      → P 0 x.0
      → Within (poll_listed world hosts r x).0.world
  unfolding poll_listed
  poll_listed-Within hosts r (w, err e) h = (0, omega arith, h)
  poll_listed-Within hosts r (w, ok listed) h =
      and_then-Within _ (λ r'. notify_all world r'.state.pending r')
        (poll_all-P hosts _ _ 0 _ h (omega arith))
        (λ r' e h'. notify_all-Within r'.state.pending r' h')

  loaded-P :
      (r : Reconciler W) (x : W × Result Failure State) → P 0 x.0 → P 0 (loaded world r x).0.world
  unfolding loaded
  loaded-P r (w, ok state) h = h
  loaded-P r (w, err e) h = h

  -- From a world at no requests, a poll keeps any property that the operations keep, having asked at
  -- most four hosts whether they are ready; it removes no machine.
  pub poll-Within :
      (hosts : List Host) (r : Reconciler W) → P 0 r.world → Within (poll world hosts r).0.world
  unfolding poll load_state and_then
  poll-Within hosts r h =
      by_load (loaded world r (load r.world))
        (loaded-P r (load r.world) (counts.load-P 0 r.world h))
    where
      by_load :
          (x : Outcome world)
          → P 0 x.0.world
          → Within (and_then world x (λ r'. poll_listed world hosts r' (machines r'.world))).0.world
      by_load (r', ok u) p =
          poll_listed-Within hosts r' (machines r'.world) (counts.machines-P 0 r'.world p)
      by_load (r', err e) p = (0, omega arith, p)

  -- Unless it ends with an error, no identity is counted as missing.
  abbrev pub Reset : Outcome world → Type 0
  Reset (r, ok u) = r.missing ≡ []
  Reset (r, err e) = Unit

  -- A check of an incomplete snapshot, from a world at no requests, keeps any property that the
  -- operations but the removal of a machine keep, having asked at most four hosts whether they are
  -- ready, and unless it fails it forgets which identities were missing.
  pub check_incomplete :
      (d : Discovery) (r : Reconciler W)
      → d.complete ≡ false
      → P 0 r.world
      → Within (check world d r).0.world × Reset (check world d r)
  unfolding check count_absences and_then
  check_incomplete d r incomplete h = by_poll (poll world d.hosts r) (poll-Within d.hosts r h)
    where
      by_poll :
          (x : Outcome world)
          → Within x.0.world
          → Within
              (and_then world x λ r'.
                and_then world
                  (count_absences world d r')
                  λ r''. (record r'' { last_generation = some d.generation }, ok tt)).0.world
            × Reset (
                and_then world x λ r'.
                  and_then world
                    (count_absences world d r')
                    λ r''. (record r'' { last_generation = some d.generation }, ok tt))
      by_poll (r', ok u) w = rw incomplete (w, refl)
      by_poll (r', err e) w = (w, tt)
