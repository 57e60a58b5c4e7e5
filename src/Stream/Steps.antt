-- ===== src/Stream/Steps.antt =====
-- Steps of an action on a stream with known contents, forwards and backwards.
use attached.Action.Steps.{>>=-ok, >>=-err}
use attached.Action.{◌>>=◌}
use attached.Common.{
  append-nil, [], ℕ, ◌^◌, ◌<◌, Bool, false, ◌++◌, ◌≡◌, refl, sym, ap, ◌∙◌, length, Result, ok, err,
  Bytes, AreBytes, from_be_bytes, to_be_bytes, arith, from_be_bytes-to_be_bytes, length-to_be_bytes,
  from_be_bytes-lt, to_be_bytes-from_be_bytes, take, drop, take-append-drop, length-take,
  All-append_left, All-append_right, IsByte,
}
use attached.Stream.{Error, io, Io, AsyncRead, AsyncWrite, read_uint, write_uint, Delivers, Accepts}
use native.Mathlib.Decide.{dec_le}

module _ {R : Type 0} {r : AsyncRead R} (d : Delivers r) {B : Type 0} where
  pub read_exact_step :
      (n : ℕ) (f : Bytes → Io R B) (xs rest : Bytes) (e : Bool)
      → length xs ≡ n
      → (r.read_exact n >>= f) (d.at (xs ++ rest) e) ≡ f xs (d.at rest e)
  read_exact_step n f xs rest e h =
      >>=-ok (r.read_exact n) f _ (rw (← h) (d.read_exact_enough xs rest e))

  read_uint_bind :
      (k : ℕ) (f : ℕ → Io R B) (s : R)
      → (read_uint r k >>= f) s ≡ (r.read_exact k >>= λ bytes. f (from_be_bytes bytes)) s
  unfolding read_uint ◌>>=◌
  read_uint_bind k f s = by_cases (r.read_exact k s)
    where
      by_cases :
          (t : Result Error (Bytes × R))
          → elim (let u : Result Error (ℕ × R) = elim t [
            | ok (bs, s') ↦ ok (from_be_bytes bs, s')
            | err e ↦ err e
          ] in
              u) [ ok (v, s') ↦ f v s' | err e ↦ err e ]
            ≡ elim t [ ok (bs, s') ↦ f (from_be_bytes bs) s' | err e ↦ err e ]
      by_cases (ok _) = refl
      by_cases (err _) = refl

  pub read_uint_step :
      (k v : ℕ) (f : ℕ → Io R B) (rest : Bytes) (e : Bool)
      → v < 256 ^ k
      → (read_uint r k >>= f) (d.at (to_be_bytes k v ++ rest) e) ≡ f v (d.at rest e)
  read_uint_step k v f rest e h =
      read_uint_bind k f _
      ∙ read_exact_step k _ (to_be_bytes k v) rest e (length-to_be_bytes k v)
      ∙ ap (λ (n : ℕ). f n (d.at rest e)) (from_be_bytes-to_be_bytes k v h)

  pub read_uint_last :
      (k v : ℕ) (f : ℕ → Io R B) (e : Bool)
      → v < 256 ^ k
      → (read_uint r k >>= f) (d.at (to_be_bytes k v) e) ≡ f v (d.at [] e)
  read_uint_last k v f e h =
      ap (λ (t : Bytes). (read_uint r k >>= f) (d.at t e)) (sym (append-nil (to_be_bytes k v)))
      ∙ read_uint_step k v f [] e h

  -- A successful `read_exact` took the first `n` bytes.
  pub read_exact-eq-ok :
      (n : ℕ) (f : Bytes → Io R B) (bs : Bytes) (e : Bool) {x : B × R}
      → AreBytes bs
      → (r.read_exact n >>= f) (d.at bs e) ≡ ok x
      → (xs rest : Bytes) × (bs ≡ xs ++ rest)
        × (length xs ≡ n)
        × AreBytes xs
        × AreBytes rest
        × (f xs (d.at rest e) ≡ ok x)
  read_exact-eq-ok n f bs e b h = elim (dec_le n (length bs)) [
    | yes p ↦
        let whole = take-append-drop n bs in
        let parts : AreBytes (take n bs ++ drop n bs) = rw whole b in
        let start : (r.read_exact n >>= f) (d.at (take n bs ++ drop n bs) e) ≡ ok _ = rw whole h in
        (
          take n bs,
          drop n bs,
          sym whole,
          length-take n bs p,
          All-append_left IsByte _ _ parts,
          All-append_right IsByte (take n bs) _ parts,
          sym (read_exact_step n f (take n bs) (drop n bs) e (length-take n bs p)) ∙ start,
        )
    | no p ↦
        let short =
          >>=-err (r.read_exact n) f (d.at bs e) (d.read_exact_short n bs e (omega arith)) in
        absurd (let clash : ⊥ = cc (short, h) in clash)
  ]

  pub read_uint-eq-ok :
      (k : ℕ) (f : ℕ → Io R B) (bs : Bytes) (e : Bool) {x : B × R}
      → AreBytes bs
      → (read_uint r k >>= f) (d.at bs e) ≡ ok x
      → (v : ℕ) × (rest : Bytes) × (bs ≡ to_be_bytes k v ++ rest)
        × (v < 256 ^ k)
        × AreBytes rest
        × (f v (d.at rest e) ≡ ok x)
  read_uint-eq-ok k f bs e b h =
      let (xs, rest, split, len, xs_bytes, rest_bytes, later) =
        read_exact-eq-ok k _ bs e b (sym (read_uint_bind k f (d.at bs e)) ∙ h) in
      let back : to_be_bytes k (from_be_bytes xs) ≡ xs =
        rw len at (to_be_bytes-from_be_bytes xs xs_bytes) in
      let bound : from_be_bytes xs < 256 ^ k = rw len at (from_be_bytes-lt xs xs_bytes) in
      (
        from_be_bytes xs,
        rest,
        split ∙ ap (λ (t : Bytes). t ++ rest) (sym back),
        bound,
        rest_bytes,
        later,
      )

module _ {W : Type 0} {w : AsyncWrite W} (a : Accepts w) where
  pub write_uint_ok :
      (k v : ℕ) (out : Bytes)
      → write_uint w k v (a.sent out false) ≡ ok (tt, a.sent (out ++ to_be_bytes k v) false)
  unfolding write_uint
  write_uint_ok k v out = a.write_all_open out (to_be_bytes k v)

module _ {W : Type 0} {w : AsyncWrite W} (a : Accepts w) {B : Type 0} where
  pub write_all_step :
      (bs out : Bytes) (f : Unit {0} → Io W B)
      → (w.write_all bs >>= f) (a.sent out false) ≡ f tt (a.sent (out ++ bs) false)
  write_all_step bs out f = >>=-ok (w.write_all bs) f _ (a.write_all_open out bs)

  pub write_uint_step :
      (k v : ℕ) (out : Bytes) (f : Unit {0} → Io W B)
      → (write_uint w k v >>= f) (a.sent out false) ≡ f tt (a.sent (out ++ to_be_bytes k v) false)
  unfolding write_uint
  write_uint_step k v out f = write_all_step (to_be_bytes k v) out f

module _ {R : Type 0} {r : AsyncRead R} (d : Delivers r) where
  pub read_uint_end :
      (k : ℕ) (bs : Bytes) (e : Bool) → length bs < k → read_uint r k (d.at bs e) ≡ err io
  unfolding read_uint
  read_uint_end k bs e h = >>=-err (r.read_exact k) _ _ (d.read_exact_short k bs e h)
