-- ===== src/Herdr/Hosts.antt =====
-- crates/herdr-plugin/src/attached.rs: the hosts of a discovery snapshot.
use mathlib.Core.Path.{subst}
use attached.Common.{
  ◌+◌, ◌≤◌, ℕ, ◌-◌, Bool, true, false, not, ◌&&◌, ◌||◌, leb, ◌==◌, all_of, is_empty, within, List,
  [], ◌∷◌, ◌++◌, All, length, Option, none, some, Bytes, bytes_eq, bytes_eq_iff, Result, ok, err,
  ◌>>=◌, ◌>>◌, ensure, bind-eq-ok, ensure-eq-ok, ◌≡◌, refl, sym, ap, ◌∙◌, arith,
}
use attached.Api.Sequence.{is_less}
use attached.Descriptor.Model.{is_ascii_alphanumeric, is_label_byte}
use attached.Maps.{get, insert, Sorted, All-insert, Sorted-insert}

pub record Host : Type 0 where
  pub host : Bytes
  pub endpoint_id : Bytes
  pub ssh_target : Bytes

pub record Discovery : Type 0 where
  pub version : ℕ
  pub generation : Bytes
  pub checked_at : ℕ
  pub complete : Bool
  pub hosts : List Host

pub data DiscoveryError : Type 0 where
  invalid_json : DiscoveryError
  unsupported_version : DiscoveryError
  invalid_generation : DiscoveryError
  stale : DiscoveryError
  invalid_endpoint : DiscoveryError
  invalid_label : DiscoveryError
  wrong_alias : DiscoveryError
  conflicting_identities : DiscoveryError

-- `attached-`
abbrev pub target_prefix : Bytes
target_prefix = b'a' ∷ b't' ∷ b't' ∷ b'a' ∷ b'c' ∷ b'h' ∷ b'e' ∷ b'd' ∷ b'-' ∷ []

unfoldable pub is_endpoint : Bytes → Bool
is_endpoint value =
    length value == 64 && all_of (λ b. within b'0' b'9' b || within b'a' b'f' b) value

unfoldable pub is_host_label : Bytes → Bool
is_host_label [] = false
is_host_label (b ∷ label) =
    leb (length (b ∷ label)) 64 && is_ascii_alphanumeric b && all_of is_label_byte (b ∷ label)

-- The derived equality.
unfoldable pub host_eq : Host → Host → Bool
host_eq a b =
    bytes_eq a.host b.host
    && bytes_eq a.endpoint_id b.endpoint_id
    && bytes_eq a.ssh_target b.ssh_target

-- Whether what stood under the identity before is the host.
unfoldable pub agrees : Host → Option Host → Bool
agrees host none = true
agrees host (some previous) = host_eq previous host

unfoldable pub check_host : Host → Result DiscoveryError (Unit {0})
check_host host = do
  ensure (is_endpoint host.endpoint_id) invalid_endpoint
  ensure (is_host_label host.host) invalid_label
  ensure (bytes_eq host.ssh_target (target_prefix ++ host.endpoint_id)) wrong_alias

-- The loop of `validate_hosts`, with the hosts so far.
unfoldable pub unique_hosts :
    List (Bytes × Host) → List Host → Result DiscoveryError (List (Bytes × Host))
unique_hosts unique [] = ok unique
unique_hosts unique (host ∷ hosts) = do
  let rest = unique_hosts (insert host.endpoint_id host unique) hosts
  check_host host
  ensure (agrees host (get host.endpoint_id unique)) conflicting_identities
  rest

unfoldable pub into_hosts : List (Bytes × Host) → List Host
into_hosts [] = []
into_hosts ((key, host) ∷ unique) = host ∷ into_hosts unique

unfoldable pub validate_hosts : List Host → Result DiscoveryError (List Host)
validate_hosts hosts = do unique ← unique_hosts [] hosts; ok (into_hosts unique)

-- `now.checked_sub(checked_at).is_some_and(|age| age <= 90)`
unfoldable pub is_recent : ℕ → ℕ → Bool
is_recent now checked_at = leb checked_at now && leb (now - checked_at) 90

-- `parse_discovery`, of what `serde_json::from_str` gives.
unfoldable pub parse_discovery : Option Discovery → ℕ → Result DiscoveryError Discovery
parse_discovery none now = err invalid_json
parse_discovery (some discovery) now = do
  ensure (discovery.version == 1) unsupported_version
  ensure (not (is_empty discovery.generation) && leb (length discovery.generation) 64)
      invalid_generation
  ensure (is_recent now discovery.checked_at) stale
  hosts ← validate_hosts discovery.hosts
  ok (record discovery { hosts = hosts })

-- A host that the discovery lets through.
pub record IsHost (host : Host) : Type 0 where
  pub endpoint : is_endpoint host.endpoint_id ≡ true
  pub label : is_host_label host.host ≡ true
  pub alias : host.ssh_target ≡ target_prefix ++ host.endpoint_id

-- Every host has a smaller identity than all hosts behind it.
abbrev pub Ascends : List Host → Type 0
Ascends [] = Unit
Ascends (host ∷ hosts) =
    All (λ h. is_less host.endpoint_id h.endpoint_id ≡ true) hosts × Ascends hosts

checked : (host : Host) → check_host host ≡ ok tt → IsHost host
unfolding check_host
checked host h =
    let (_, p₁, h₁) = bind-eq-ok (ensure (is_endpoint host.endpoint_id) invalid_endpoint) _ h in
    let (_, p₂, p₃) = bind-eq-ok (ensure (is_host_label host.host) invalid_label) _ h₁ in
    record {
      endpoint = ensure-eq-ok _ invalid_endpoint p₁;
      label = ensure-eq-ok _ invalid_label p₂;
      alias = (bytes_eq_iff _ _).0 (ensure-eq-ok _ wrong_alias p₃);
    }

-- A host under its identity.
abbrev IsEntry : Bytes × Host → Type 0
IsEntry x = (x.1.endpoint_id ≡ x.0) × IsHost x.1

unique_hosts-IsEntry :
    (hosts : List Host) (unique final : List (Bytes × Host))
    → unique_hosts unique hosts ≡ ok final
    → Sorted unique × All IsEntry unique
    → Sorted final × All IsEntry final
unfolding unique_hosts
unique_hosts-IsEntry [] unique final h v =
    subst (λ m. Sorted m × All IsEntry m) (ok-injective unique final h) v
  where
    ok-injective :
        (a b : List (Bytes × Host))
        → Path (Result DiscoveryError (List (Bytes × Host))) (ok a) (ok b)
        → a ≡ b
    ok-injective a b e = cc
unique_hosts-IsEntry (host ∷ hosts) unique final h (sorted, entries) =
    let (_, this, h₁) = bind-eq-ok (check_host host) _ h in
    let (_, _, h₂) =
      bind-eq-ok (ensure (agrees host (get host.endpoint_id unique)) conflicting_identities) _ h₁ in
    unique_hosts-IsEntry hosts (insert host.endpoint_id host unique) final h₂ (
      Sorted-insert host.endpoint_id host unique sorted,
      All-insert IsEntry host.endpoint_id host unique (refl, checked host this) entries,
    )

All-into_hosts :
    (unique : List (Bytes × Host)) → All IsEntry unique → All IsHost (into_hosts unique)
unfolding into_hosts
All-into_hosts [] h = tt
All-into_hosts ((key, host) ∷ unique) ((_, v), h) = (v, All-into_hosts unique h)

above-into_hosts :
    (id : Bytes) (unique : List (Bytes × Host))
    → All (λ x. is_less id x.0 ≡ true) unique
    → All IsEntry unique
    → All (λ h. is_less id h.endpoint_id ≡ true) (into_hosts unique)
unfolding into_hosts
above-into_hosts id [] h v = tt
above-into_hosts id ((key, host) ∷ unique) (h, hs) ((same, _), v) =
    (ap (is_less id) same ∙ h, above-into_hosts id unique hs v)

into_hosts-Ascends :
    (unique : List (Bytes × Host))
    → Sorted unique
    → All IsEntry unique
    → Ascends (into_hosts unique)
unfolding into_hosts
into_hosts-Ascends [] s v = tt
into_hosts-Ascends ((key, host) ∷ unique) (above, s) ((same, h), v) = (
  above-into_hosts host.endpoint_id unique
      (subst (λ k. All (λ x. is_less k x.0 ≡ true) unique) (sym same) above) v,
  into_hosts-Ascends unique s v,
)

is_recent-bounds :
    (now checked_at : ℕ)
    → is_recent now checked_at ≡ true
    → (checked_at ≤ now) × (now ≤ checked_at + 90)
unfolding is_recent
is_recent-bounds now checked_at h = (ground arith, ground arith)

-- A snapshot that is accepted is of version 1, not from the future and at most 90 seconds old, and its hosts are in ascending
-- order of distinct identities, each with an endpoint identity, a host label and the alias of its
-- identity.
pub parse_discovery_lem :
    (parsed : Option Discovery) (now : ℕ) (d : Discovery)
    → parse_discovery parsed now ≡ ok d
    → (d.version ≡ 1)
      × (d.checked_at ≤ now)
      × (now ≤ d.checked_at + 90)
      × All IsHost d.hosts
      × Ascends d.hosts
unfolding parse_discovery validate_hosts
parse_discovery_lem none now d h = absurd cc
parse_discovery_lem (some e) now d h =
    let (_, p₁, h₁) = bind-eq-ok (ensure (e.version == 1) unsupported_version) _ h in
    let (_, _, h₂) =
      bind-eq-ok
        (ensure (not (is_empty e.generation) && leb (length e.generation) 64) invalid_generation) _
        h₁ in
    let (_, p₃, h₃) = bind-eq-ok (ensure (is_recent now e.checked_at) stale) _ h₂ in
    let recent = is_recent-bounds now e.checked_at (ensure-eq-ok _ stale p₃) in
    let (hosts, p₄, h₄) = bind-eq-ok (validate_hosts e.hosts) _ h₃ in
    let (unique, p₅, h₅) = bind-eq-ok (unique_hosts [] e.hosts) _ p₄ in
    let (sorted, entries) = unique_hosts-IsEntry e.hosts [] unique p₅ (tt, tt) in
    let hosts_eq : into_hosts unique ≡ hosts = hosts-injective (into_hosts unique) hosts h₅ in
    let same : record e { hosts = hosts } ≡ d = ok-injective (record e { hosts = hosts }) d h₄ in
    subst
      (λ (x : Discovery).
        (x.version ≡ 1)
        × (x.checked_at ≤ now)
        × (now ≤ x.checked_at + 90)
        × All IsHost x.hosts
        × Ascends x.hosts)
      same
      (
        is_one e.version (ensure-eq-ok _ unsupported_version p₁),
        recent.0,
        recent.1,
        subst (All IsHost) hosts_eq (All-into_hosts unique entries),
        subst Ascends hosts_eq (into_hosts-Ascends unique sorted entries),
      )
  where
    is_one : (n : ℕ) → (n == 1) ≡ true → n ≡ 1
    is_one n k = ground arith

    hosts-injective :
        (a b : List Host) → Path (Result DiscoveryError (List Host)) (ok a) (ok b) → a ≡ b
    hosts-injective a b k = cc

    ok-injective : (a b : Discovery) → Path (Result DiscoveryError Discovery) (ok a) (ok b) → a ≡ b
    ok-injective a b k = cc
