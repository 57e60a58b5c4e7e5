-- ===== src/Herdr/Examples.antt =====
-- The checks of crates/herdr-plugin/src/discovery.rs and the snapshots of attached.rs at concrete hosts.
use attached.Common.{
  ◌+◌, ◌≤◌, ℕ, suc, ◌≤◌, true, false, List, [], ◌∷◌, ◌++◌, All, none, some, Bytes, bytes_eq,
  Bool-cases, inl, inr, sym, ap, ◌∙◌, ok, ◌≡◌, refl, arith,
}
use attached.Api.Sequence.{is_less}
use attached.Descriptor.Small.{eight}
use attached.Maps.{get, insert, Sorted}
use attached.Herdr.Hosts.{
  Host, Discovery, is_endpoint, is_host_label, host_eq, agrees, check_host, unique_hosts,
  into_hosts, validate_hosts, is_recent, parse_discovery, IsHost, Ascends, parse_discovery_lem,
  target_prefix,
}
use attached.Herdr.Discovery.{Machine, State, World, Reconciler, prune, count_of}
use attached.Herdr.Discovery.Removal.{IsRemovable, prune_removes_missing}
use attached.Herdr.Polling.{poll, check}
use attached.Herdr.Polling.Quota.{Counts, Within, Reset, poll-Within, check_incomplete}

abbrev endpoint_of : ℕ → Bytes
endpoint_of b =
    eight b ++ eight b ++ eight b ++ eight b ++ eight b ++ eight b ++ eight b ++ eight b'0'

abbrev host_of : ℕ → Host
host_of b = record {
  host = b'h' ∷ b ∷ [];
  endpoint_id = endpoint_of b;
  ssh_target = target_prefix ++ endpoint_of b;
}

abbrev snapshot_of : List Host → Discovery
snapshot_of hosts = record {
  version = 1;
  generation = b'g' ∷ [];
  checked_at = 1000;
  complete = false;
  hosts = hosts;
}

parsed :
    parse_discovery (some (snapshot_of (host_of b'2' ∷ host_of b'1' ∷ host_of b'2' ∷ []))) 1060
    ≡ ok (snapshot_of (host_of b'1' ∷ host_of b'2' ∷ []))
unfolding parse_discovery is_recent validate_hosts unique_hosts check_host is_endpoint is_host_label
    agrees host_eq into_hosts get insert bytes_eq is_less
parsed = refl

parse_discovery_lem_example :
    ((snapshot_of []).version ≡ 1)
    × (1000 ≤ 1060)
    × (1060 ≤ 1000 + 90)
    × All IsHost (host_of b'1' ∷ host_of b'2' ∷ [])
    × Ascends (host_of b'1' ∷ host_of b'2' ∷ [])
parse_discovery_lem_example =
    parse_discovery_lem (some (snapshot_of (host_of b'2' ∷ host_of b'1' ∷ host_of b'2' ∷ []))) 1060
      (snapshot_of (host_of b'1' ∷ host_of b'2' ∷ [])) parsed

-- Two machines were added; the first has been missed twice.
abbrev stored : State
stored = record {
  seen = endpoint_of b'1' ∷ endpoint_of b'2' ∷ [];
  pending = [];
  managed = (endpoint_of b'1', b'p' ∷ []) ∷ (endpoint_of b'2', b'q' ∷ []) ∷ [];
}

abbrev registry : List Machine
registry =
    record { id = b'p' ∷ []; target = target_prefix ++ endpoint_of b'1' }
    ∷ record { id = b'q' ∷ []; target = target_prefix ++ endpoint_of b'2' }
    ∷ []

-- The state of the world: how often `ready` was asked, and the machines that were removed.
abbrev world : World Unit
world = record {
  W = ℕ × List Bytes;
  load = λ w. (w, ok stored);
  save = λ s w. (w, ok tt);
  machines = λ w. (w, ok registry);
  add = λ target label w. (w, ok (b'r' ∷ []));
  remove_machine = λ profile w. ((w.0, profile ∷ w.1), ok tt);
  notify = λ label w. (w, ok true);
  ready = λ host w. ((suc w.0, w.1), ok true);
  now = λ w. (w, 0);
}

abbrev reconciler : Reconciler (ℕ × List Bytes)
reconciler = record {
  world = (0, []);
  state = stored;
  retry = [];
  missing = (endpoint_of b'1', 2) ∷ [];
  last_generation = none;
}

-- Only the first machine is removed.
abbrev OnlyFirst : ℕ × List Bytes → Type 0
OnlyFirst w = All (λ profile. profile ≡ b'p' ∷ []) w.1

managed_in_order : Sorted stored.managed
unfolding is_less
managed_in_order = ((refl, tt), (tt, tt))

-- The second machine has not been missed before.
removable_first :
    (endpoint profile : Bytes)
    → IsRemovable [] registry stored.managed reconciler.missing endpoint profile
    → profile ≡ b'p' ∷ []
unfolding get count_of
removable_first endpoint profile r = elim (Bool-cases (bytes_eq (endpoint_of b'1') endpoint)) [
  | inl same ↦
      let found : some (b'p' ∷ []) ≡ some profile = sym (rw same refl) ∙ r.added in
      some-injective (b'p' ∷ []) profile found
  | inr other ↦
      let none_yet : count_of (get endpoint reconciler.missing) ≡ 0 = rw other refl in
      absurd (few (count_of (get endpoint reconciler.missing)) none_yet r.missed_before)
]
  where
    some-injective : (a b : Bytes) → some a ≡ some b → b ≡ a
    some-injective a b e = cc

    few : (n : ℕ) → n ≡ 0 → 2 ≤ n → ⊥
    few n e h = omega arith

prune_removes_missing_example : OnlyFirst (prune world [] reconciler).0.world
prune_removes_missing_example =
    prune_removes_missing world OnlyFirst [] reconciler (0, []) (0, []) stored registry refl refl
      managed_in_order (λ s w h. h)
      (λ endpoint profile w r h. (removable_first endpoint profile r, h)) tt

-- The world counts what `ready` is asked, and nothing is removed.
abbrev Asked : ℕ → ℕ × List Bytes → Type 0
Asked n w = (w.0 ≡ n) × (w.1 ≡ [])

asked_suc : (m n : ℕ) → m ≡ n → suc m ≡ suc n
asked_suc m n e = ap suc e

counts : Counts world Asked
counts = record {
  load-P = λ n w h. h;
  save-P = λ n s w h. h;
  machines-P = λ n w h. h;
  add-P = λ n target label w h. h;
  notify-P = λ n label w h. h;
  now-P = λ n w h. h;
  ready-P = λ n host w h. (asked_suc w.0 n h.0, h.1);
}

poll-Within_example : Within world Asked counts (poll world (host_of b'3' ∷ []) reconciler).0.world
poll-Within_example = poll-Within world Asked counts (host_of b'3' ∷ []) reconciler (refl, refl)

check_incomplete_example :
    Within world Asked counts (check world (snapshot_of []) reconciler).0.world
    × Reset world Asked counts (check world (snapshot_of []) reconciler)
check_incomplete_example =
    check_incomplete world Asked counts (snapshot_of []) reconciler refl (refl, refl)
