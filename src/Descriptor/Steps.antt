-- ===== src/Descriptor/Steps.antt =====
-- crates/session-sync-protocol/src/canonical.rs: the decoder's operations on the pieces that the
-- encoder writes.
use attached.Common.{
  ℕ, ◌+◌, ◌^◌, ◌<◌, ◌≤◌, true, not, ◌||◌, ltb, ◌==◌, eq→==, [], ◌++◌, ◌≡◌, refl, sym, ap, ◌∙◌,
  length, Bytes, is_utf8, Result, ok, arith, append_assoc, append-nil, length-append,
}
use attached.Action.{◌>>=◌, pure, ensure}
use attached.Action.Steps.{>>=-ok, >>=-pure, >>=_assoc, ensure_pass}
use attached.Descriptor.Cbor.{
  HostAccessError, Decoder, Decode, head, uint, key, fixed_bytes, text, take_bytes, put_uint,
  put_bytes, put_text,
}
use attached.Descriptor.Cbor.Heads.{head_of, put_head-append}
use attached.Descriptor.Cbor.Decode.{at, take_step}
use attached.Descriptor.Cbor.Canonical.{head_step}
use attached.Descriptor.Decoding.{lift, at_end}

-- A position in an input that is far from the end of the address space.
pub record Small (front rest : Bytes) : Type 0 where
  pub below : length front + length rest < 2 ^ 63

shorter : (front xs rest : Bytes) → Small front (xs ++ rest) → Small (front ++ xs) rest
shorter front xs rest s = record {
  below = omega (arith, s.below, length-append front xs, length-append xs rest);
}

head_room :
    (front : Bytes) (m v : ℕ) (rest : Bytes)
    → Small front (head_of m v ++ rest)
    → length front + 9 < 2 ^ 64
head_room front m v rest s = omega (arith, s.below)

-- Each step takes what follows it, so a proof reads like the decoder.
module _ {B : Type 0} {x : Result HostAccessError (B × Decoder)} {front rest : Bytes} where
  pub head_then :
      (m : ℕ) (f : ℕ → Decode B) (v : ℕ)
      → m < 8
      → v < 2 ^ 64
      → Small front (head_of m v ++ rest)
      → (Small (front ++ head_of m v) rest → f v (at (front ++ head_of m v) rest) ≡ x)
      → (head m >>= f) (at front (head_of m v ++ rest)) ≡ x
  head_then m f v hm hv s k =
      head_step f front m v rest hm hv (head_room front m v rest s) ∙ k (shorter front _ rest s)

  pub uint_then :
      (f : ℕ → Decode B) (v : ℕ)
      → v < 2 ^ 64
      → Small front (head_of 0 v ++ rest)
      → (Small (front ++ head_of 0 v) rest → f v (at (front ++ head_of 0 v) rest) ≡ x)
      → (uint >>= f) (at front (head_of 0 v ++ rest)) ≡ x
  unfolding uint
  uint_then f v hv s k = head_then 0 f v (omega arith) hv s k

  pub key_then :
      (f : Unit {0} → Decode B) (v : ℕ)
      → v < 2 ^ 64
      → Small front (head_of 0 v ++ rest)
      → (Small (front ++ head_of 0 v) rest → f tt (at (front ++ head_of 0 v) rest) ≡ x)
      → (key v >>= f) (at front (head_of 0 v ++ rest)) ≡ x
  unfolding key
  key_then f v hv s k =
      >>=_assoc uint _ f _
      ∙ uint_then _ v hv s (λ s'. ensure_pass (v == v) _ _ _ (eq→== v v refl) ∙ k s')

  pub text_then :
      (f : Bytes → Decode B) (minimum maximum : ℕ) (value : Bytes)
      → minimum ≤ length value
      → length value ≤ maximum
      → is_utf8 value ≡ true
      → Small front (head_of 3 (length value) ++ (value ++ rest))
      → (Small ((front ++ head_of 3 (length value)) ++ value) rest
          → f value (at ((front ++ head_of 3 (length value)) ++ value) rest) ≡ x)
      → (text minimum maximum >>= f) (at front (head_of 3 (length value) ++ (value ++ rest))) ≡ x
  unfolding text
  text_then f minimum maximum value lo hi u s k =
      let s₁ = shorter front (head_of 3 (length value)) (value ++ rest) s in
      let room = length-append value rest in
      >>=-ok (text minimum maximum) f _ (
        head_step _ front 3 (length value) _ (omega arith) (omega (arith, s₁.below))
          (head_room front 3 (length value) (value ++ rest) s)
        ∙ ensure_pass (not (ltb (length value) minimum || ltb maximum (length value))) _ _ _
            (ground arith)
        ∙ take_step (length value) _ _ value rest refl (omega (arith, s₁.below))
        ∙ ensure_pass (is_utf8 value) _ _ _ u)
      ∙ k (shorter _ value rest s₁)

  pub fixed_bytes_then :
      (f : Bytes → Decode B) (n : ℕ) (value : Bytes)
      → length value ≡ n
      → Small front (head_of 2 (length value) ++ (value ++ rest))
      → (Small ((front ++ head_of 2 (length value)) ++ value) rest
          → f value (at ((front ++ head_of 2 (length value)) ++ value) rest) ≡ x)
      → (fixed_bytes n >>= f) (at front (head_of 2 (length value) ++ (value ++ rest))) ≡ x
  unfolding fixed_bytes
  fixed_bytes_then f n value len s k =
      let s₁ = shorter front (head_of 2 (length value)) (value ++ rest) s in
      let room = length-append value rest in
      >>=-ok (fixed_bytes n) f _ (
        head_step _ front 2 (length value) _ (omega arith) (omega (arith, s₁.below))
          (head_room front 2 (length value) (value ++ rest) s)
        ∙ ensure_pass (length value == n) _ _ _ (eq→== (length value) n len)
        ∙ sym (>>=-pure (take_bytes n) _)
        ∙ take_step n pure _ value rest len (omega (arith, s₁.below, len)))
      ∙ k (shorter _ value rest s₁)

module _ {B : Type 0} where
  pub at_end_step :
      (f : Unit {0} → Decode B) (front : Bytes) → (at_end >>= f) (at front []) ≡ f tt (at front [])
  unfolding at_end ensure
  at_end_step f front = >>=-ok at_end f _ (
      rw (eq→== (length front) (length (front ++ [])) (ap length (sym (append-nil front))), at_end))

module _ {A B : Type 0} where
  pub lift_step :
      (r : Result HostAccessError A) (f : A → Decode B) (s : Decoder) {a : A}
      → r ≡ ok a
      → (lift r >>= f) s ≡ f a s
  lift_step r f s h = >>=-ok (lift r) f s (rw h)

-- What the encoder's pieces add to the bytes written so far.
pub put_uint-append : (out : Bytes) (v : ℕ) → v < 2 ^ 64 → put_uint out v ≡ out ++ head_of 0 v
unfolding put_uint
put_uint-append out v h = put_head-append out 0 v (omega arith) h

pub put_text-append :
    (out value : Bytes)
    → length value < 2 ^ 64
    → put_text out value ≡ out ++ (head_of 3 (length value) ++ value)
unfolding put_text
put_text-append out value h =
    rw (put_head-append out 3 (length value) (omega arith) h) (append_assoc out _ value)

pub put_bytes-append :
    (out value : Bytes)
    → length value < 2 ^ 64
    → put_bytes out value ≡ out ++ (head_of 2 (length value) ++ value)
unfolding put_bytes
put_bytes-append out value h =
    rw (put_head-append out 2 (length value) (omega arith) h) (append_assoc out _ value)
