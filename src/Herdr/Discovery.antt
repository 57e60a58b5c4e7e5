-- ===== src/Herdr/Discovery.antt =====
-- crates/herdr-plugin/src/discovery.rs: how machines are added for the hosts that are discovered, and
-- removed again.
pub mod Removal
use attached.Common.{
  ℕ, ◌+◌, ◌-◌, ◌*◌, ◌^◌, Bool, true, false, not, ◌&&◌, ◌||◌, leb, ltb, ◌==◌, if◌then◌else◌, within,
  List, [], ◌∷◌, ◌++◌, length, take, Option, none, some, Bytes, bytes_eq, Result, ok, err,
}
use attached.Maps.{get, contains_key, insert, remove}
use attached.Herdr.Hosts.{Host, Discovery, target_prefix, is_endpoint}

-- Of crates/herdr-plugin/src/herdr.rs.
pub record Machine : Type 0 where
  pub id : Bytes
  pub target : Bytes

-- Of crates/herdr-plugin/src/state.rs.
pub record State : Type 0 where
  pub seen : List Bytes
  pub pending : List (Bytes × Bytes)
  pub managed : List (Bytes × Bytes)

-- The machine registry, the discovery source, the state's file and the clock, in nanoseconds.
pub record World (Failure : Type 0) : Type 1 where
  pub W : Type 0
  pub load : W → W × Result Failure State
  pub save : State → W → W × Result Failure (Unit {0})
  pub machines : W → W × Result Failure (List Machine)
  pub add : Bytes → Bytes → W → W × Result Failure Bytes
  pub remove_machine : Bytes → W → W × Result Failure (Unit {0})
  pub notify : Bytes → W → W × Result Failure Bool
  pub ready : Host → W → W × Result Failure Bool
  pub now : W → W × ℕ

abbrev pub seconds : ℕ → ℕ
seconds n = n * 1_000_000_000

-- `INTERVAL`, in seconds
abbrev pub interval : ℕ
interval = 30

-- `u32::saturating_add(1)`
abbrev pub saturating_suc : ℕ → ℕ
saturating_suc n = if ltb (n + 1) (2 ^ 32) then n + 1 else n

abbrev pub min : ℕ → ℕ → ℕ
min a b = if leb a b then a else b

unfoldable pub to_ascii_lowercase : Bytes → Bytes
to_ascii_lowercase [] = []
to_ascii_lowercase (b ∷ text) = (if within b'A' b'Z' b then b + 32 else b) ∷ to_ascii_lowercase text

unfoldable pub contains : Bytes → List Bytes → Bool
contains x [] = false
contains x (y ∷ ys) = bytes_eq y x || contains x ys

unfoldable pub forget : Bytes → List Bytes → List Bytes
forget x [] = []
forget x (y ∷ ys) = let rest = forget x ys in if bytes_eq y x then rest else y ∷ rest

-- Whether a host has the identity.
unfoldable pub is_present : List Host → Bytes → Bool
is_present [] endpoint = false
is_present (host ∷ hosts) endpoint = bytes_eq host.endpoint_id endpoint || is_present hosts endpoint

-- Whether a machine is the profile, with the target of the identity.
unfoldable pub owns : List Machine → Bytes → Bytes → Bool
owns [] endpoint profile = false
owns (m ∷ machines) endpoint profile =
    bytes_eq m.id profile
      && bytes_eq (to_ascii_lowercase m.target) (to_ascii_lowercase (target_prefix ++ endpoint))
    || owns machines endpoint profile

unfoldable pub count_of : Option ℕ → ℕ
count_of none = 0
count_of (some n) = n

-- `missing.retain(|id, _| managed.contains_key(id))`
unfoldable pub retain_managed : List (Bytes × Bytes) → List (Bytes × ℕ) → List (Bytes × ℕ)
retain_managed managed [] = []
retain_managed managed ((id, n) ∷ missing) =
    let rest = retain_managed managed missing in
    if contains_key id managed then (id, n) ∷ rest else rest

-- `Reconciler`, with the state that is loaded and the world.
pub record Reconciler (W : Type 0) : Type 0 where
  pub world : W
  pub state : State
  pub retry : List (Bytes × (ℕ × ℕ))
  pub missing : List (Bytes × ℕ)
  pub last_generation : Option Bytes

module _ {Failure : Type 0} (world : World Failure) where
  open world use {W, load, save, machines, add, remove_machine, notify, ready, now}

  abbrev pub Outcome : Type 0
  Outcome = Reconciler W × Result Failure (Unit {0})

  -- `?` on a step: what it has changed stays when it fails.
  unfoldable pub and_then : Outcome → (Reconciler W → Outcome) → Outcome
  and_then (r, ok u) f = f r
  and_then (r, err e) f = (r, err e)

  unfoldable pub save_state : Reconciler W → Outcome
  save_state r = let (w, saved) = save r.state r.world in (record r { world = w }, saved)

  -- The profile is not the one that was added.
  unfoldable pub disown : Bytes → Reconciler W → Outcome
  disown endpoint r = save_state (record r {
    state = record {
      seen = r.state.seen;
      pending = remove endpoint r.state.pending;
      managed = remove endpoint r.state.managed;
    };
    missing = remove endpoint r.missing;
  })

  unfoldable pub removed : Bytes → Reconciler W → W × Result Failure (Unit {0}) → Outcome
  removed endpoint r (w, err e) = (record r { world = w }, ok tt)
  removed endpoint r (w, ok u) = save_state (record r {
    world = w;
    state = record {
      seen = forget endpoint r.state.seen;
      pending = remove endpoint r.state.pending;
      managed = remove endpoint r.state.managed;
    };
    missing = remove endpoint r.missing;
    retry = remove endpoint r.retry;
  })

  -- A host that is missing, with the number of the checks that missed it.
  unfoldable pub missed : Bytes → Bytes → ℕ → Reconciler W → Outcome
  missed endpoint profile misses r =
      let counted = record r { missing = insert endpoint misses r.missing } in
      let gone = removed endpoint counted (remove_machine profile r.world) in
      if ltb misses 3 then (counted, ok tt) else gone

  unfoldable pub prune_one : List Host → List Machine → Bytes → Bytes → Reconciler W → Outcome
  prune_one hosts listed endpoint profile r =
      let disowned = disown endpoint r in
      let absent = missed endpoint profile (saturating_suc (count_of (get endpoint r.missing))) r in
      if not (owns listed endpoint profile)
      then disowned
      else if is_present hosts endpoint
      then (record r { missing = remove endpoint r.missing }, ok tt)
      else absent

  -- The loop of `prune` over the machines that are managed.
  unfoldable pub prune_all :
      List Host → List Machine → List (Bytes × Bytes) → Reconciler W → Outcome
  prune_all hosts listed [] r = (r, ok tt)
  prune_all hosts listed ((endpoint, profile) ∷ managed) r =
      and_then (prune_one hosts listed endpoint profile r) (prune_all hosts listed managed)

  unfoldable pub loaded : Reconciler W → W × Result Failure State → Outcome
  loaded r (w, ok state) = (record r { world = w; state = state }, ok tt)
  loaded r (w, err e) = (record r { world = w }, err e)

  unfoldable pub load_state : Reconciler W → Outcome
  load_state r = loaded r (load r.world)

  unfoldable pub prune_listed :
      List Host → Reconciler W → W × Result Failure (List Machine) → Outcome
  prune_listed hosts r (w, err e) = (record r { world = w }, err e)
  prune_listed hosts r (w, ok listed) =
      prune_all hosts listed r.state.managed
        (record r { world = w; missing = retain_managed r.state.managed r.missing })

  unfoldable pub prune : List Host → Reconciler W → Outcome
  prune hosts r = and_then (load_state r) λ r'. prune_listed hosts r' (machines r'.world)
