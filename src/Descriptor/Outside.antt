-- ===== src/Descriptor/Outside.antt =====
-- What canonical.rs takes from the crates chrono and iroh-tickets: times, durations and endpoint
-- tickets, as an interface, with the laws of it that the proofs use.
use attached.Common.{ℕ, ◌-◌, ◌^◌, ◌<◌, ◌≡◌, Bool, leb, if◌then◌else◌, Option, none, some, Bytes}

-- `i64`; `negsuc n` is -(n + 1).
pub data ℤ : Type 0 where
  pos : ℕ → ℤ
  negsuc : ℕ → ℤ

pub record Duration : Type 0 where
  pub secs : ℕ
  pub nanos : ℕ

pub record Outside : Type 1 where
  pub DateTime : Type 0
  pub timestamp : DateTime → ℤ
  pub timestamp_subsec_nanos : DateTime → ℕ
  -- `a >= b`
  pub is_ge : DateTime → DateTime → Bool
  -- `(later - earlier).to_std().ok()`
  pub to_std : DateTime → DateTime → Option Duration
  -- `DateTime::from_timestamp(seconds, 0)`, for seconds that are not negative
  pub from_timestamp : ℕ → Option DateTime
  pub EndpointTicket : Type 0
  pub ticket_from_str : Bytes → Option EndpointTicket
  pub ticket_to_string : EndpointTicket → Bytes
  -- the bytes of `ticket.endpoint_addr().id`
  pub ticket_id : EndpointTicket → Bytes

-- What chrono documents: a time is determined by its whole seconds and its nanoseconds.
pub record ChronoLaws (o : Outside) : Type 0 where
  pub from_timestamp_lem :
      (t : o.DateTime) (s : ℕ)
      → o.timestamp t ≡ pos s
      → o.timestamp_subsec_nanos t ≡ 0
      → o.from_timestamp s ≡ some t
  pub timestamp_i64 : (t : o.DateTime) (s : ℕ) → o.timestamp t ≡ pos s → s < 2 ^ 63
  pub to_std_seconds :
      (a b : o.DateTime) (x y : ℕ)
      → o.timestamp a ≡ pos x
      → o.timestamp b ≡ pos y
      → o.timestamp_subsec_nanos a ≡ 0
      → o.timestamp_subsec_nanos b ≡ 0
      → o.to_std b a ≡ (if leb x y then some (record { secs = y - x; nanos = 0 }) else none)
