-- ===== src/Descriptor/Cbor/Decode.antt =====
-- crates/session-sync-protocol/src/canonical.rs: each `Decoder` operation on known input, forwards
-- and backwards. The heads that `head` accepts are exactly those that `put_head` writes.

use native.Mathlib.Decide.{dec_le}
use attached.Common.{
  ℕ, ◌+◌, ◌^◌, ◌<◌, ◌≤◌, true, leb, ltb, lt→ltb, lt→leb_false, Bool-cases, inl, inr, [], ◌∷◌, ◌++◌,
  ◌≡◌, refl, sym, ap, ◌∙◌, ok, err, some, none, length, take, drop, get_elem?, Bytes, AreBytes,
  IsByte, to_be_bytes, from_be_bytes, arith, append_assoc, length-append, take-append, drop-append,
  take-append-drop, length-take, from_be_bytes-to_be_bytes, length-to_be_bytes, from_be_bytes-lt,
  to_be_bytes-from_be_bytes, All-append_left, All-append_right,
}
use attached.Action.{◌>>=◌, pure}
use attached.Action.Steps.{>>=-ok, >>=-err, >>=_assoc}
use attached.Descriptor.Cbor.{HostAccessError, malformed, limit, Decoder, Decode, byte, take_bytes}

-- A decoder that has read `front`, with `rest` still to read.
abbrev pub at : Bytes → Bytes → Decoder
at front rest = record { input = front ++ rest; position = length front }

get_elem?-append :
    (front rest : Bytes) (b : ℕ) → get_elem? (front ++ b ∷ rest) (length front) ≡ some b
get_elem?-append [] rest b = refl
get_elem?-append (x ∷ front) rest b = get_elem?-append front rest b

get_elem?-append_end : (front : Bytes) → get_elem? (front ++ []) (length front) ≡ none
get_elem?-append_end [] = refl
get_elem?-append_end (x ∷ front) = get_elem?-append_end front

-- The decoder behind `xs`, as an operation leaves it and as `at` writes it.
moved :
    (front xs rest : Bytes) (n : ℕ)
    → length xs ≡ n
    → ◌≡◌ {A = Decoder}
        (record { input = front ++ (xs ++ rest); position = length front + n })
        (at (front ++ xs) rest)
moved front xs rest n h = λ i. record {
  input = sym (append_assoc front xs rest) i;
  position = (ap (λ (k : ℕ). length front + k) (sym h) ∙ sym (length-append front xs)) i;
}

byte_ok :
    (front rest : Bytes) (b : ℕ) → byte (at front (b ∷ rest)) ≡ ok (b, at (front ++ b ∷ []) rest)
unfolding byte
byte_ok front rest b =
    rw (get_elem?-append front rest b, byte)
      (ap (λ (d : Decoder). ok (b, d)) (moved front (b ∷ []) rest 1 refl))

module _ {B : Type 0} where
  pub byte_step :
      (f : ℕ → Decode B) (front rest : Bytes) (b : ℕ)
      → (byte >>= f) (at front (b ∷ rest)) ≡ f b (at (front ++ b ∷ []) rest)
  byte_step f front rest b = >>=-ok byte f _ (byte_ok front rest b)

  pub byte-eq-ok :
      (f : ℕ → Decode B) (front bs : Bytes) {x : B × Decoder}
      → AreBytes bs
      → (byte >>= f) (at front bs) ≡ ok x
      → (b : ℕ) × (rest : Bytes) × (bs ≡ b ∷ rest)
        × IsByte b
        × AreBytes rest
        × (f b (at (front ++ b ∷ []) rest) ≡ ok x)
  unfolding byte
  byte-eq-ok f front [] h e =
      cc (>>=-err byte f (at front []) {e = malformed} (rw (get_elem?-append_end front, byte)))
  byte-eq-ok f front (b ∷ rest) h e = (b, rest, refl, h.0, h.1, sym (byte_step f front rest b) ∙ e)

take_ok :
    (n : ℕ) (front xs rest : Bytes)
    → length xs ≡ n
    → length front + n < 2 ^ 64
    → take_bytes n (at front (xs ++ rest)) ≡ ok (xs, at (front ++ xs) rest)
unfolding take_bytes
take_ok n front xs rest h small =
    let fits : leb (length front + n) (length (front ++ (xs ++ rest))) ≡ true =
      ground (arith, length-append front (xs ++ rest), length-append xs rest) in
    let taken : take n (xs ++ rest) ≡ xs = rw (← h) (take-append xs rest) in
    rw (lt→ltb _ _ small, fits, drop-append front (xs ++ rest), taken, take_bytes)
      (ap (λ (d : Decoder). ok (xs, d)) (moved front xs rest n h))

take_fails :
    (n : ℕ) (front bs : Bytes)
    → length bs < n
    → (e : HostAccessError) × (take_bytes n (at front bs) ≡ err e)
unfolding take_bytes
take_fails n front bs h = elim (Bool-cases (ltb (length front + n) (2 ^ 64))) [
  | inl fits ↦ (
    malformed,
    rw (
      fits,
      lt→leb_false (length front + n) (length (front ++ bs))
          (omega (arith, length-append front bs)),
      take_bytes,
    ),
  )
  | inr wide ↦ (limit, rw (wide, take_bytes))
]

module _ {B : Type 0} (n : ℕ) (f : Bytes → Decode B) where
  pub take_step :
      (front xs rest : Bytes)
      → length xs ≡ n
      → length front + n < 2 ^ 64
      → (take_bytes n >>= f) (at front (xs ++ rest)) ≡ f xs (at (front ++ xs) rest)
  take_step front xs rest h small = >>=-ok (take_bytes n) f _ (take_ok n front xs rest h small)

  pub take-eq-ok :
      (front bs : Bytes) {x : B × Decoder}
      → AreBytes bs
      → length front + n < 2 ^ 64
      → (take_bytes n >>= f) (at front bs) ≡ ok x
      → (xs rest : Bytes) × (bs ≡ xs ++ rest)
        × (length xs ≡ n)
        × AreBytes xs
        × AreBytes rest
        × (f xs (at (front ++ xs) rest) ≡ ok x)
  take-eq-ok front bs b small h = elim (dec_le n (length bs)) [
    | yes p ↦
        let whole = take-append-drop n bs in
        let parts : AreBytes (take n bs ++ drop n bs) = rw whole b in
        let start : (take_bytes n >>= f) (at front (take n bs ++ drop n bs)) ≡ ok _ = rw whole h in
        (
          take n bs,
          drop n bs,
          sym whole,
          length-take n bs p,
          All-append_left IsByte _ _ parts,
          All-append_right IsByte (take n bs) _ parts,
          sym (take_step front (take n bs) (drop n bs) (length-take n bs p) small) ∙ start,
        )
    | no p ↦
        let (e, fails) = take_fails n front bs (omega arith) in
        absurd (let clash : ⊥ = cc (>>=-err (take_bytes n) f (at front bs) fails, h) in clash)
  ]

-- A value behind the first byte of a head.
module _ {B : Type 0} (f : ℕ → Decode B) (front : Bytes) (small : length front + 8 < 2 ^ 64) where
  pub uint_step :
      (k v : ℕ) (rest : Bytes)
      → k ≤ 8
      → v < 256 ^ k
      → ((take_bytes k >>= λ bytes. pure (from_be_bytes bytes)) >>= f)
          (at front (to_be_bytes k v ++ rest))
        ≡ f v (at (front ++ to_be_bytes k v) rest)
  uint_step k v rest hk hv =
      >>=_assoc (take_bytes k) _ f _
      ∙ take_step k _ front (to_be_bytes k v) rest (length-to_be_bytes k v) (omega arith)
      ∙ >>=-ok _ f _ refl
      ∙ ap (λ (n : ℕ). f n (at (front ++ to_be_bytes k v) rest)) (from_be_bytes-to_be_bytes k v hv)

  pub uint-eq-ok :
      (k : ℕ) (bs : Bytes) {x : B × Decoder}
      → k ≤ 8
      → AreBytes bs
      → ((take_bytes k >>= λ bytes. pure (from_be_bytes bytes)) >>= f) (at front bs) ≡ ok x
      → (v : ℕ) × (rest : Bytes) × (bs ≡ to_be_bytes k v ++ rest)
        × (v < 256 ^ k)
        × AreBytes rest
        × (f v (at (front ++ to_be_bytes k v) rest) ≡ ok x)
  uint-eq-ok k bs hk b h =
      let (xs, rest, split, len, xs_bytes, rest_bytes, later) =
        take-eq-ok k _ front bs b (omega arith)
          (sym (>>=_assoc (take_bytes k) _ f (at front bs)) ∙ h) in
      let back : to_be_bytes k (from_be_bytes xs) ≡ xs =
        rw len at (to_be_bytes-from_be_bytes xs xs_bytes) in
      let bound : from_be_bytes xs < 256 ^ k = rw len at (from_be_bytes-lt xs xs_bytes) in
      (
        from_be_bytes xs,
        rest,
        split ∙ ap (λ (t : Bytes). t ++ rest) (sym back),
        bound,
        rest_bytes,
        ap (λ (t : Bytes). f (from_be_bytes xs) (at (front ++ t) rest)) back
            ∙ sym (>>=-ok _ f (at (front ++ xs) rest) refl)
            ∙ later,
      )
