-- ===== src/Stream/Slices.antt =====
-- A byte slice as a reader and a byte vector as a writer, which tokio implements both: they show
-- that the laws of a stream can be met.
use mathlib.Core.Bool.{cond}
use attached.Common.{
  ℕ, ◌<◌, Bool, true, false, [], ◌∷◌, ◌++◌, ◌≡◌, refl, length, ok, err, Bytes, leb, take, drop,
  take-append, drop-append, arith, length-append,
}
use attached.Stream.{io, Io, AsyncRead, AsyncWrite, Delivers, Accepts}

-- What is left, and whether the stream then ends (rather than breaks).
abbrev pub Slice : Type 0
Slice = Bytes × Bool

abbrev read_exact : ℕ → Io Slice Bytes
read_exact n (bs, e) = cond (leb n (length bs)) (ok (take n bs, (drop n bs, e))) (err io)

abbrev read : ℕ → Io Slice Bytes
read n ([], true) = ok ([], ([], true))
read n ([], false) = err io
read n (b ∷ bs, e) = ok (take n (b ∷ bs), (drop n (b ∷ bs), e))

abbrev pub slice : AsyncRead Slice
slice = record { read_exact = read_exact; read = read }

pub enough :
    (xs rest : Bytes) (e : Bool) → read_exact (length xs) (xs ++ rest, e) ≡ ok (xs, (rest, e))
enough xs rest e =
    let fits : leb (length xs) (length (xs ++ rest)) ≡ true =
      ground (arith, length-append xs rest) in
    rw (fits, take-append xs rest, drop-append xs rest)

pub short : (n : ℕ) (bs : Bytes) (e : Bool) → length bs < n → read_exact n (bs, e) ≡ err io
short n bs e h = ground arith

abbrev pub slice-Delivers : Delivers slice
slice-Delivers = record {
  at = λ bs e. (bs, e);
  read_exact_enough = enough;
  read_exact_short = short;
  read_some = λ b rest e. refl;
  read_end = refl;
  read_broken = refl;
}

abbrev put : Bytes → Io Slice (Unit {0})
put bs (out, false) = ok (tt, (out ++ bs, false))
put bs (out, true) = err io

abbrev pub vector : AsyncWrite Slice
vector = record { write_all = put; flush = λ s. ok (tt, s); shutdown = λ s. ok (tt, (s.0, true)) }

abbrev pub vector-Accepts : Accepts vector
vector-Accepts = record {
  sent = λ bs closed. (bs, closed);
  write_all_open = λ out bs. refl;
  flush_open = λ out. refl;
  shutdown_open = λ out. refl;
}
