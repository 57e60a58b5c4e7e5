-- ===== src/Herdr/Polling.antt =====
-- crates/herdr-plugin/src/discovery.rs: how machines are added, and a whole check.
pub mod Quota
use attached.Common.{
  ℕ, zero, suc, ◌+◌, ◌*◌, ◌^◌, Bool, true, false, not, ◌&&◌, ◌||◌, leb, ltb, ◌==◌, if◌then◌else◌,
  List, [], ◌∷◌, ◌++◌, take, Option, none, some, Bytes, bytes_eq, Result, ok, err,
}
use attached.Maps.{get, insert, remove}
use attached.Herdr.Hosts.{Host, Discovery, target_prefix, is_endpoint}
use attached.Herdr.Discovery.{
  Machine, State, World, seconds, interval, saturating_suc, min, to_ascii_lowercase, contains,
  is_present, Reconciler, Outcome, and_then, save_state, load_state, prune,
}

-- ` (` and `)`
abbrev pub opening : Bytes
opening = b' ' ∷ b'(' ∷ []

abbrev pub closing : Bytes
closing = b')' ∷ []

unfoldable pub count_label : Bytes → List Host → ℕ
count_label label [] = 0
count_label label (host ∷ hosts) =
    let rest = count_label label hosts in
    if bytes_eq (to_ascii_lowercase host.host) label then suc rest else rest

unfoldable pub lower_targets : List Machine → List Bytes
lower_targets [] = []
lower_targets (m ∷ machines) = to_ascii_lowercase m.target ∷ lower_targets machines

-- `retry.retain(…)`
unfoldable pub retain_present : List Host → List (Bytes × (ℕ × ℕ)) → List (Bytes × (ℕ × ℕ))
retain_present hosts [] = []
retain_present hosts ((id, attempt) ∷ retry) =
    let rest = retain_present hosts retry in
    if is_present hosts id then (id, attempt) ∷ rest else rest

-- `<` of the keys: a host that was not tried comes first.
unfoldable pub is_sooner : Option (ℕ × ℕ) → Option (ℕ × ℕ) → Bool
is_sooner x none = false
is_sooner none (some b) = true
is_sooner (some (deadline, failures)) (some (deadline', failures')) =
    ltb deadline deadline' || (deadline == deadline' && ltb failures failures')

-- `sort_by_key`, a stable sort: behind the hosts with a smaller key.
unfoldable pub insert_candidate : List (Bytes × (ℕ × ℕ)) → Host → List Host → List Host
insert_candidate retry host [] = host ∷ []
insert_candidate retry host (h ∷ hosts) =
    let rest = insert_candidate retry host hosts in
    if is_sooner (get h.endpoint_id retry) (get host.endpoint_id retry)
    then h ∷ rest
    else host ∷ h ∷ hosts

unfoldable pub sort_candidates : List (Bytes × (ℕ × ℕ)) → List Host → List Host
sort_candidates retry [] = []
sort_candidates retry (host ∷ hosts) = insert_candidate retry host (sort_candidates retry hosts)

-- Whether a machine of the registry already stands for the host.
unfoldable pub is_registered : List Host → List Bytes → Host → Bool
is_registered hosts targets host =
    let label = to_ascii_lowercase host.host in
    contains host.ssh_target targets
    || (count_label label hosts == 1
        && not (is_endpoint label)
        && contains (target_prefix ++ label) targets)

-- Labels are ASCII and identities longer than eight bytes, so no slice is out of range.
unfoldable pub display : List Host → Host → Bytes
display hosts host =
    if count_label (to_ascii_lowercase host.host) hosts == 1
    then host.host
    else take 60 host.host ++ opening ++ take 8 host.endpoint_id ++ closing

-- The delay behind a failure, in seconds.
unfoldable pub delay : ℕ → ℕ
delay failures = min (interval * 2 ^ min failures 4) 300

module _ {Failure : Type 0} (world : World Failure) where
  open world use {W, load, save, machines, add, notify, ready, now}

  unfoldable pub profile_of : W × Result Failure Bytes → W × Result Failure (Option Bytes)
  profile_of (w, ok profile) = (w, ok (some profile))
  profile_of (w, err e) = (w, err e)

  -- The alias must be ready before the machine is added.
  unfoldable pub add_ready :
      Host → Bytes → W × Result Failure Bool → W × Result Failure (Option Bytes)
  add_ready host label (w, err e) = (w, err e)
  add_ready host label (w, ok false) = (w, ok none)
  add_ready host label (w, ok true) = profile_of (add host.ssh_target label w)

  unfoldable pub retry_later : Host → ℕ → Reconciler W → W × ℕ → Outcome world
  retry_later host failures r (w, t) = (
    record r {
      world = w;
      retry =
          insert host.endpoint_id (t + seconds (delay failures), saturating_suc failures) r.retry;
    },
    ok tt,
  )

  unfoldable pub answered :
      Host → Bytes → ℕ → Reconciler W → W × Result Failure (Option Bytes) → Outcome world
  answered host label failures r (w, ok none) = (record r { world = w }, ok tt)
  answered host label failures r (w, err e) = retry_later host failures r (now w)
  answered host label failures r (w, ok (some profile)) = save_state world (record r {
    world = w;
    state = record {
      seen = host.endpoint_id ∷ r.state.seen;
      pending = insert host.endpoint_id label r.state.pending;
      managed = insert host.endpoint_id profile r.state.managed;
    };
  })

  unfoldable pub attempt : Host → Bytes → ℕ → Reconciler W → W × ℕ → Outcome world
  attempt host label failures r (w, t) =
      answered host label failures
        (record r {
          world = w;
          retry = insert host.endpoint_id (t + seconds interval, failures) r.retry;
        })
        (add_ready host label (ready host w))

  -- The number of attempts comes first.
  unfoldable pub cooled : Host → Bytes → ℕ → ℕ → ℕ → Reconciler W → W × ℕ → ℕ × Outcome world
  cooled host label attempts deadline failures r (w, t) =
      let r' = record r { world = w } in
      let tried = attempt host label failures r' (now w) in
      if ltb t deadline then (attempts, (r', ok tt)) else (suc attempts, tried)

  unfoldable pub try_host : Host → Bytes → ℕ → Option (ℕ × ℕ) → Reconciler W → ℕ × Outcome world
  try_host host label attempts none r = (suc attempts, attempt host label 0 r (now r.world))
  try_host host label attempts (some (deadline, failures)) r =
      cooled host label attempts deadline failures r (now r.world)

  unfoldable pub poll_one : List Host → List Bytes → Host → ℕ → Reconciler W → ℕ × Outcome world
  poll_one hosts targets host attempts r =
      let seen = record r {
        state = record {
          seen = host.endpoint_id ∷ r.state.seen;
          pending = r.state.pending;
          managed = r.state.managed;
        };
      } in
      let tried = try_host host (display hosts host) attempts (get host.endpoint_id r.retry) r in
      if contains host.endpoint_id r.state.seen
      then (attempts, (r, ok tt))
      else if is_registered hosts targets host
      then (attempts, save_state world seen)
      else if leb 4 attempts
      then (attempts, (r, ok tt))
      else tried

  -- The loop over the candidates; an error ends it.
  unfoldable pub continue_with :
      ℕ × Outcome world → (ℕ → Reconciler W → Outcome world) → Outcome world
  continue_with (attempts, (r, ok u)) f = f attempts r
  continue_with (attempts, (r, err e)) f = (r, err e)

  unfoldable pub poll_all : List Host → List Bytes → List Host → ℕ → Reconciler W → Outcome world
  poll_all hosts targets [] attempts r = (r, ok tt)
  poll_all hosts targets (host ∷ candidates) attempts r =
      continue_with (poll_one hosts targets host attempts r) (poll_all hosts targets candidates)

  unfoldable pub notified : Bytes → Reconciler W → W × Result Failure Bool → Outcome world
  notified id r (w, ok true) = save_state world (record r {
    world = w;
    state = record {
      seen = r.state.seen;
      pending = remove id r.state.pending;
      managed = r.state.managed;
    };
  })
  notified id r (w, ok false) = (record r { world = w }, ok tt)
  notified id r (w, err e) = (record r { world = w }, ok tt)

  unfoldable pub notify_all : List (Bytes × Bytes) → Reconciler W → Outcome world
  notify_all [] r = (r, ok tt)
  notify_all ((id, label) ∷ pending) r =
      and_then world (notified id r (notify label r.world)) (notify_all pending)

  unfoldable pub poll_listed :
      List Host → Reconciler W → W × Result Failure (List Machine) → Outcome world
  poll_listed hosts r (w, err e) = (record r { world = w }, err e)
  poll_listed hosts r (w, ok listed) =
      let r' = record r { world = w; retry = retain_present hosts r.retry } in
      and_then world (poll_all hosts (lower_targets listed) (sort_candidates r'.retry hosts) 0 r')
        (λ r''. notify_all r''.state.pending r'')

  unfoldable pub poll : List Host → Reconciler W → Outcome world
  poll hosts r = and_then world (load_state world r) λ r'. poll_listed hosts r' (machines r'.world)

  unfoldable pub is_generation : Option Bytes → Bytes → Bool
  is_generation none generation = false
  is_generation (some last) generation = bytes_eq last generation

  unfoldable pub count_absences : Discovery → Reconciler W → Outcome world
  count_absences d r =
      let pruned = prune world d.hosts r in
      if not d.complete
      then (record r { missing = [] }, ok tt)
      else if is_generation r.last_generation d.generation
      then (r, ok tt)
      else pruned

  unfoldable pub check : Discovery → Reconciler W → Outcome world
  check d r = and_then world (poll d.hosts r) λ r'.
      and_then world (count_absences d r')
        λ r''. (record r'' { last_generation = some d.generation }, ok tt)
