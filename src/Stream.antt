-- ===== src/Stream.antt =====
-- Byte streams as crates/tunnel-protocol uses them: the operations of tokio's `AsyncRead` and
-- `AsyncWrite` that it calls, as interfaces, and actions that fail with an `anyhow::Error`.
pub mod Steps
pub mod Slices
use attached.Common.{
  ℕ, ◌+◌, Bool, true, false, List, [], ◌∷◌, ◌++◌, ◌≡◌, ◌<◌, length, Result, ok, err, Bytes,
  from_be_bytes, to_be_bytes,
}
use attached.Action.{Action, ◌>>=◌, pure}

-- The errors that the protocol functions can return, one for each message.
pub data Error : Type 0 where
  io invalid_magic unsupported_version authentication_denied trailing_bytes too_long : Error
  not_utf8 zero_port invalid_open_marker : Error
  unknown_operation unknown_status : ℕ → Error

-- An action on a stream `S`.
abbrev pub Io : Type 0 → Type 0 → Type 0
Io S A = Action Error S A

-- `read_exact` fills a buffer of the given length; `read` returns at most as many bytes, and
-- none at the end of the stream.
pub record AsyncRead (R : Type 0) : Type 0 where
  pub read_exact : ℕ → Io R Bytes
  pub read : ℕ → Io R Bytes

pub record AsyncWrite (W : Type 0) : Type 0 where
  pub write_all : Bytes → Io W (Unit {0})
  pub flush : Io W (Unit {0})
  pub shutdown : Io W (Unit {0})

-- `read_u8`, `read_u16` and `read_u32`: a number of `k` bytes, the highest first.
unfoldable pub read_uint : {R : Type 0} → AsyncRead R → ℕ → Io R ℕ
read_uint r k = do bytes ← r.read_exact k; pure (from_be_bytes bytes)

unfoldable pub write_uint : {W : Type 0} → AsyncWrite W → ℕ → ℕ → Io W (Unit {0})
write_uint w k v = w.write_all (to_be_bytes k v)

-- What tokio documents of a reader. `at bs ended` is a stream that has yet to deliver `bs`, and
-- then ends, if `ended`, or breaks.
pub record Delivers {R : Type 0} (r : AsyncRead R) : Type 0 where
  pub at : Bytes → Bool → R
  pub read_exact_enough :
      (xs rest : Bytes) (e : Bool)
      → r.read_exact (length xs) (at (xs ++ rest) e) ≡ ok (xs, at rest e)
  pub read_exact_short :
      (n : ℕ) (bs : Bytes) (e : Bool) → length bs < n → r.read_exact n (at bs e) ≡ err io
  pub read_some :
      (b : ℕ) (rest : Bytes) (e : Bool) → r.read 1 (at (b ∷ rest) e) ≡ ok (b ∷ [], at rest e)
  pub read_end : r.read 1 (at [] true) ≡ ok ([], at [] true)
  pub read_broken : r.read 1 (at [] false) ≡ err io

-- What tokio documents of a writer that does not fail. `sent bs closed` has taken `bs`.
pub record Accepts {W : Type 0} (w : AsyncWrite W) : Type 0 where
  pub sent : Bytes → Bool → W
  pub write_all_open :
      (out bs : Bytes) → w.write_all bs (sent out false) ≡ ok (tt, sent (out ++ bs) false)
  pub flush_open : (out : Bytes) → w.flush (sent out false) ≡ ok (tt, sent out false)
  pub shutdown_open : (out : Bytes) → w.shutdown (sent out false) ≡ ok (tt, sent out true)
