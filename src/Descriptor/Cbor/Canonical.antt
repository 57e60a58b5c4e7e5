-- ===== src/Descriptor/Cbor/Canonical.antt =====
-- crates/session-sync-protocol/src/canonical.rs: the heads that `Decoder::head` accepts are exactly
-- those that `put_head` writes.
use Prim.Native.Nat.{bit_and}
use native.Mathlib.Decide.{dec_lt}
use mathlib.Core.Path.{subst, ap₂}
use attached.Common.{
  ℕ, zero, suc, ◌+◌, ◌-◌, ◌*◌, ◌/◌, ◌%◌, ◌^◌, ◌<◌, true, false, not, ◌==◌, ==→eq, eq→==, le→leb, [],
  ◌∷◌, ◌++◌, ◌≡◌, refl, sym, ap, ◌∙◌, ok, length, Bytes, AreBytes, IsByte, to_be_bytes, arith,
  append_assoc, append-nil, length-append,
}
use attached.Action.{◌>>=◌, ◌>>◌, pure, ensure}
use attached.Action.Steps.{>>=-ok, >>=-err, >>=_assoc, ensure_pass, ensure-eq-ok}
use attached.Descriptor.Cbor.{
  malformed, non_canonical, Decoder, Decode, byte, head_value, is_overlong, head,
}
use attached.Descriptor.Cbor.Heads.{
  Width, direct, one, two, four, eight, extra, additional, Fits, head_bytes, width, width-Fits,
  head_of, low_bits,
}
use attached.Descriptor.Cbor.Decode.{at, byte_step, byte-eq-ok, uint_step, uint-eq-ok}

-- `head` behind the first byte.
abbrev head_rest : ℕ → Decode ℕ
head_rest a = do value ← head_value a; ensure (not (is_overlong a value)) non_canonical; pure value

shortest : (w : Width) (v : ℕ) → Fits w v → is_overlong (additional w v) v ≡ false
unfolding is_overlong
shortest direct v h = ground arith
shortest _ v h = ground arith

width_unique : (w : Width) (v : ℕ) → Fits w v → width v ≡ w
unfolding width
width_unique direct v h = ground arith
width_unique _ v h = ground arith

additional_small : (w : Width) (v : ℕ) → Fits w v → additional w v < 32
additional_small direct v h = omega arith
additional_small _ v h = omega arith

-- The values that a width has room for.
abbrev Bounded : Width → ℕ → Type 0
Bounded direct v = v < 24
Bounded one v = v < 256
Bounded two v = v < 256 ^ 2
Bounded four v = v < 256 ^ 4
Bounded eight v = v < 256 ^ 8

enough_is_shortest :
    (w : Width) (v : ℕ) → Bounded w v → not (is_overlong (additional w v) v) ≡ true → Fits w v
unfolding is_overlong
enough_is_shortest direct v h k = h
enough_is_shortest _ v h k = ground arith

module _ {B : Type 0} (f : ℕ → Decode B) (front : Bytes) (small : length front + 8 < 2 ^ 64) where
  head_value_step :
      (w : Width) (v : ℕ) (rest : Bytes)
      → Fits w v
      → (head_value (additional w v) >>= f) (at front (to_be_bytes (extra w) v ++ rest))
        ≡ f v (at (front ++ to_be_bytes (extra w) v) rest)
  unfolding head_value to_be_bytes
  head_value_step direct v rest h =
      >>=-ok (head_value v) f _ (rw (le→leb v 23 (omega arith), head_value))
      ∙ ap (λ (t : Bytes). f v (at t rest)) (sym (append-nil front))
  head_value_step one v rest h =
      byte_step f front rest (v % 256)
      ∙ ap (λ (b : ℕ). f b (at (front ++ v % 256 ∷ []) rest)) (omega arith)
  head_value_step two v rest h = uint_step f front small 2 v rest (omega arith) (omega arith)
  head_value_step four v rest h = uint_step f front small 4 v rest (omega arith) (omega arith)
  head_value_step eight v rest h = uint_step f front small 8 v rest (omega arith) (omega arith)

  -- What a successful read of the bytes behind the first one gives.
  abbrev Rest : ℕ → Bytes → B × Decoder → Type 0
  Rest a bs x =
      (w : Width) × (v : ℕ) × (rest : Bytes) × (bs ≡ to_be_bytes (extra w) v ++ rest)
      × (additional w v ≡ a)
      × Bounded w v
      × AreBytes rest
      × (f v (at (front ++ to_be_bytes (extra w) v) rest) ≡ ok x)

  wide_value-eq-ok :
      (k : ℕ) (bs : Bytes) {x : B × Decoder}
      → AreBytes bs
      → (head_value (24 + k) >>= f) (at front bs) ≡ ok x
      → Rest (24 + k) bs x
  unfolding head_value to_be_bytes
  wide_value-eq-ok zero bs b h =
      let (v, rest, s, u, r, l) = byte-eq-ok f front bs b h in
      let same : v % 256 ≡ v = omega arith in
      (
        one,
        v,
        rest,
        s ∙ ap (λ (t : ℕ). t ∷ rest) (sym same),
        refl,
        u,
        r,
        ap (λ (t : ℕ). f v (at (front ++ t ∷ []) rest)) same ∙ l,
      )
  wide_value-eq-ok (suc zero) bs b h =
      let (v, rest, s, u, r, l) = uint-eq-ok f front small 2 bs (omega arith) b h in
      (two, v, rest, s, refl, u, r, l)
  wide_value-eq-ok (suc (suc zero)) bs b h =
      let (v, rest, s, u, r, l) = uint-eq-ok f front small 4 bs (omega arith) b h in
      (four, v, rest, s, refl, u, r, l)
  wide_value-eq-ok (suc (suc (suc zero))) bs b h =
      let (v, rest, s, u, r, l) = uint-eq-ok f front small 8 bs (omega arith) b h in
      (eight, v, rest, s, refl, u, r, l)
  wide_value-eq-ok (suc (suc (suc (suc k)))) bs b h = cc (
      >>=-err (head_value (24 + suc (suc (suc (suc k))))) f (at front bs) {e = malformed}
        (ground arith))

  value-eq-ok :
      (a : ℕ) (bs : Bytes) {x : B × Decoder}
      → AreBytes bs
      → (head_value a >>= f) (at front bs) ≡ ok x
      → Rest a bs x
  unfolding head_value to_be_bytes
  value-eq-ok a bs {x} b h = elim (dec_lt a 24) [
    | yes p ↦ (
      direct,
      a,
      bs,
      refl,
      refl,
      p,
      b,
      ap (λ (t : Bytes). f a (at t bs)) (append-nil front)
          ∙ sym (>>=-ok (head_value a) f _ (rw (le→leb a 23 (omega arith), head_value)))
          ∙ h,
    )
    | no p ↦
        let split : 24 + (a - 24) ≡ a = omega arith in
        rw split at (wide_value-eq-ok (a - 24) bs {x = x} b (rw split h))
  ]

width_bound : (w : Width) (v : ℕ) → Fits w v → v < 2 ^ 64
width_bound direct v h = omega arith
width_bound _ v h = omega arith

module _ {B : Type 0} (f : ℕ → Decode B) (front : Bytes) (major : ℕ) where
  -- A head that was written is read back, whatever follows it.
  pub head_step :
      (v : ℕ) (rest : Bytes)
      → major < 8
      → v < 2 ^ 64
      → length front + 9 < 2 ^ 64
      → (head major >>= f) (at front (head_of major v ++ rest))
        ≡ f v (at (front ++ head_of major v) rest)
  unfolding head head_of
  head_step v rest hm hv small =
      let w = width v in
      let first = major * 32 + additional w v in
      let fits = width-Fits v hv in
      let a_small : additional w v < 32 = additional_small w v fits in
      let front' = front ++ first ∷ [] in
      let mask : bit_and first 31 ≡ additional w v = low_bits first (omega arith) ∙ omega arith in
      >>=-ok (head major) f _ (
        byte_step _ front (to_be_bytes (extra w) v ++ rest) first
        ∙ ensure_pass _ _ _ _ (eq→== (first / 32) major (omega arith))
        ∙ ap (λ (a : ℕ). head_rest a (at front' (to_be_bytes (extra w) v ++ rest))) mask
        ∙ head_value_step _ front' (omega (arith, length-append front (first ∷ []))) w v rest fits
        ∙ ensure_pass _ _ _ _ (ap not (shortest w v fits)))
      ∙ ap (λ (t : Bytes). f v (at t rest))
          (append_assoc front (first ∷ []) (to_be_bytes (extra w) v))

  -- Behind the first byte.
  head_rest-eq-ok :
      (first : ℕ) (bs : Bytes) {x : B × Decoder}
      → IsByte first
      → AreBytes bs
      → length front + 9 < 2 ^ 64
      → first / 32 ≡ major
      → (head_rest (bit_and first 31) >>= f) (at (front ++ first ∷ []) bs) ≡ ok x
      → (v : ℕ) × (rest : Bytes) × (first ∷ bs ≡ head_of major v ++ rest)
        × (v < 2 ^ 64)
        × AreBytes rest
        × (f v (at (front ++ head_of major v) rest) ≡ ok x)
  unfolding head_of
  head_rest-eq-ok first bs {x} u8 b small high h =
      let front' = front ++ first ∷ [] in
      let h₁ : (head_rest (first % 32) >>= f) (at front' bs) ≡ ok x = rw (low_bits first u8) at h in
      let (w, v, rest, s, a_eq, bounded, b₂, h₂) =
        value-eq-ok _ front' (omega (arith, length-append front (first ∷ []))) (first % 32) bs b
          (sym (>>=_assoc (head_value (first % 32)) _ f (at front' bs)) ∙ h₁) in
      let after = at (front' ++ to_be_bytes (extra w) v) rest in
      let (short, h₃) =
        ensure-eq-ok (not (is_overlong (first % 32) v)) _ _ after
          (sym (>>=_assoc _ _ f after) ∙ h₂) in
      let fits =
        enough_is_shortest w v bounded (ap (λ (a : ℕ). not (is_overlong a v)) a_eq ∙ short) in
      let first_eq : first ≡ major * 32 + additional w v = omega arith in
      let moved : f v (at (front ++ head_bytes w major v) rest) ≡ ok x =
        ap (λ (t : ℕ). f v (at (front ++ t ∷ to_be_bytes (extra w) v) rest)) (sym first_eq)
        ∙ ap (λ (t : Bytes). f v (at t rest))
            (sym (append_assoc front (first ∷ []) (to_be_bytes (extra w) v)))
        ∙ sym (>>=-ok _ f after refl)
        ∙ h₃ in
      let together : (first ∷ bs ≡ head_of major v ++ rest)
          × (f v (at (front ++ head_of major v) rest) ≡ ok x) =
        subst
          (λ w'.
            (first ∷ bs ≡ head_bytes w' major v ++ rest)
            × (f v (at (front ++ head_bytes w' major v) rest) ≡ ok x))
          (sym (width_unique w v fits)) (ap₂ ◌∷◌ first_eq s, moved) in
      (v, rest, together.0, width_bound w v fits, b₂, together.1)

  -- A head that is read is one that `put_head` writes.
  pub head-eq-ok :
      (bs : Bytes) {x : B × Decoder}
      → AreBytes bs
      → length front + 9 < 2 ^ 64
      → (head major >>= f) (at front bs) ≡ ok x
      → (v : ℕ) × (rest : Bytes) × (bs ≡ head_of major v ++ rest)
        × (v < 2 ^ 64)
        × AreBytes rest
        × (f v (at (front ++ head_of major v) rest) ≡ ok x)
  unfolding head
  head-eq-ok bs b small h =
      let (first, bs₁, s₁, u8, b₁, h₁) =
        byte-eq-ok _ front bs b (sym (>>=_assoc byte _ f (at front bs)) ∙ h) in
      let front' = front ++ first ∷ [] in
      let (high, h₂) =
        ensure-eq-ok (first / 32 == major) _ _ (at front' bs₁)
          (sym (>>=_assoc _ _ f (at front' bs₁)) ∙ h₁) in
      let (v, rest, s, u64, b₂, h₃) =
        head_rest-eq-ok first bs₁ u8 b₁ small (==→eq (first / 32) major high) h₂ in
      (v, rest, s₁ ∙ s, u64, b₂, h₃)
