-- ===== src/Common/Decimal.antt =====
-- Decimal numbers as Rust parses them (`str::parse` of an unsigned type) and prints them.
use Prim.Native.Nat.{ℕ, zero, suc, ◌+◌, ◌-◌, ◌*◌, ◌/◌, ◌%◌, ◌^◌, ◌≤◌, ◌<◌}
use mathlib.Core.Path.{◌≡◌, refl, sym, ap, ap₂, ◌∙◌}
use mathlib.Core.Logic.{◌≢◌}
use mathlib.Core.Bool.{Bool, true, false, not, ◌&&◌, ◌||◌}
use mathlib.Core.List.{[], ◌∷◌, ◌++◌, append_assoc, append-nil}
use mathlib.Core.Option.{Option, none, some}
use native.Mathlib.Decide.{dec_lt}
use native.Mathlib.Omega.{arith}
use attached.Common.Tests.{ltb, ◌==◌, if◌then◌else◌, lt→ltb, le→ltb_false}
use attached.Common.Words.{Bytes}
use attached.Common.Utf8.{within}
use attached.Common.Lists.{all_of}

-- The digits, on the value `acc` of those before them; `none` where the value reaches `limit`.
unfoldable pub parse_onto : ℕ → ℕ → Bytes → Option ℕ
parse_onto limit acc [] = some acc
parse_onto limit acc (b ∷ bs) =
    if within b'0' b'9' b && ltb (acc * 10 + (b - 48)) limit
    then parse_onto limit (acc * 10 + (b - 48)) bs
    else none

abbrev pub is_empty : Bytes → Bool
is_empty [] = true
is_empty (_ ∷ _) = false

-- `parse` of an unsigned type with `limit` values: one `+` may stand before the digits.
unfoldable pub parse_unsigned : ℕ → Bytes → Option ℕ
parse_unsigned limit [] = none
parse_unsigned limit (b ∷ bs) =
    if b == b'+' && not (is_empty bs) then parse_onto limit 0 bs else parse_onto limit 0 (b ∷ bs)

-- `n` with at most `k` digits.
unfoldable pub print_decimal : ℕ → ℕ → Bytes
print_decimal zero n = []
print_decimal (suc k) n =
    let front = print_decimal k (n / 10) in (if ltb n 10 then [] else front) ++ (48 + n % 10) ∷ []

parse_onto-append :
    (limit acc m : ℕ) (xs ys : Bytes)
    → parse_onto limit acc xs ≡ some m
    → parse_onto limit acc (xs ++ ys) ≡ parse_onto limit m ys
unfolding parse_onto
parse_onto-append limit acc m [] ys h =
    let same : acc ≡ m = cc in ap (λ (a : ℕ). parse_onto limit a ys) same
parse_onto-append limit acc m (x ∷ xs) ys h =
    ground (arith, parse_onto-append limit (acc * 10 + (x - 48)) m xs ys)

parse_onto_digit :
    (limit acc d n : ℕ)
    → d < 10
    → acc * 10 + d ≡ n
    → n < limit
    → parse_onto limit acc ((48 + d) ∷ []) ≡ some n
unfolding parse_onto
parse_onto_digit limit acc d n small value fits = ground arith

print_small : (k n : ℕ) → n < 10 → print_decimal (suc k) n ≡ (48 + n) ∷ []
unfolding print_decimal
print_small k n h = let last : n % 10 ≡ n = omega arith in rw (lt→ltb n 10 h, last) refl

print_large :
    (k n : ℕ) → 10 ≤ n → print_decimal (suc k) n ≡ print_decimal k (n / 10) ++ (48 + n % 10) ∷ []
unfolding print_decimal
print_large k n h = rw (le→ltb_false n 10 h) refl

parse_onto-print_decimal :
    (limit k n : ℕ)
    → n < 10 ^ suc k
    → n < limit
    → parse_onto limit 0 (print_decimal (suc k) n) ≡ some n
parse_onto-print_decimal limit zero n h fits =
    ap (parse_onto limit 0) (print_small zero n (omega arith))
    ∙ parse_onto_digit limit 0 n n (omega arith) (omega arith) fits
parse_onto-print_decimal limit (suc k) n h fits = elim (dec_lt n 10) [
  | yes p ↦
      ap (parse_onto limit 0) (print_small (suc k) n p)
      ∙ parse_onto_digit limit 0 n n p (omega arith) fits
  | no p ↦
      let front = parse_onto-print_decimal limit k (n / 10) (omega arith) (omega arith) in
      ap (parse_onto limit 0) (print_large (suc k) n (omega arith))
      ∙ parse_onto-append limit 0 (n / 10) (print_decimal (suc k) (n / 10)) ((48 + n % 10) ∷ [])
          front
      ∙ parse_onto_digit limit (n / 10) (n % 10) n (omega arith) (omega arith) fits
]

-- The value grows with each digit.
parse_onto-le : (limit acc n : ℕ) (bs : Bytes) → parse_onto limit acc bs ≡ some n → acc ≤ n
unfolding parse_onto
parse_onto-le limit acc n [] h = ground arith
parse_onto-le limit acc n (b ∷ bs) h =
    ground (arith, parse_onto-le limit (acc * 10 + (b - 48)) n bs)

pub parse_onto-lt :
    (limit acc n : ℕ) (bs : Bytes) → acc < limit → parse_onto limit acc bs ≡ some n → n < limit
unfolding parse_onto
parse_onto-lt limit acc n [] small h = ground arith
parse_onto-lt limit acc n (b ∷ bs) small h =
    ground (arith, parse_onto-lt limit (acc * 10 + (b - 48)) n bs)

-- More room for digits changes nothing.
print_room :
    (k j n : ℕ)
    → n < 10 ^ suc k
    → n < 10 ^ suc j
    → print_decimal (suc k) n ≡ print_decimal (suc j) n
print_room zero j n h i = print_small zero n (omega arith) ∙ sym (print_small j n (omega arith))
print_room (suc k) zero n h i =
    print_small (suc k) n (omega arith) ∙ sym (print_small zero n (omega arith))
print_room (suc k) (suc j) n h i = elim (dec_lt n 10) [
  | yes p ↦ print_small (suc k) n p ∙ sym (print_small (suc j) n p)
  | no p ↦
      print_large (suc k) n (omega arith)
      ∙ ap (λ (t : Bytes). t ++ (48 + n % 10) ∷ [])
          (print_room k j (n / 10) (omega arith) (omega arith))
      ∙ sym (print_large (suc j) n (omega arith))
]

digit_bounds :
    (limit acc n b : ℕ) (bs : Bytes)
    → parse_onto limit acc (b ∷ bs) ≡ some n
    → (48 ≤ b)
      × (b ≤ 57)
      × (acc * 10 + (b - 48) < limit)
      × (parse_onto limit (acc * 10 + (b - 48)) bs ≡ some n)
unfolding parse_onto
digit_bounds limit acc n b bs h = (ground arith, ground arith, ground arith, ground arith)

print_next :
    (k acc b : ℕ)
    → 1 ≤ acc
    → 48 ≤ b
    → b ≤ 57
    → acc * 10 + (b - 48) < 10 ^ suc k
    → print_decimal (suc k) (acc * 10 + (b - 48)) ≡ print_decimal (suc k) acc ++ b ∷ []
print_next zero acc b some_acc low high h = absurd (omega arith)
print_next (suc k) acc b some_acc low high h =
    let next = acc * 10 + (b - 48) in
    let front : next / 10 ≡ acc = omega arith in
    let last : 48 + next % 10 ≡ b = omega arith in
    print_large (suc k) next (omega arith)
    ∙ ap₂ (λ (m c : ℕ). print_decimal (suc k) m ++ c ∷ []) front last
    ∙ ap (λ (t : Bytes). t ++ b ∷ []) (print_room k (suc k) acc (omega arith) (omega arith))

-- A text that starts with 0 and is canonical is `0`.
zero_text :
    (limit k n b : ℕ) (bs : Bytes)
    → b ≡ 48
    → not (b == b'0') || is_empty bs ≡ true
    → parse_onto limit 0 (b ∷ bs) ≡ some n
    → print_decimal (suc k) n ≡ b ∷ bs
unfolding parse_onto
zero_text limit k n b [] h canonical p =
    let value : n ≡ 0 = ground arith in
    ap (print_decimal (suc k)) value
    ∙ print_small k 0 (omega arith)
    ∙ ap (λ (t : ℕ). t ∷ []) (sym h)
zero_text limit k n b (c ∷ bs) h canonical p = ground arith

-- Digits behind a value that is not 0 are the end of what is printed.
print-parse_onto :
    (limit k acc n : ℕ) (bs : Bytes)
    → 1 ≤ acc
    → n < 10 ^ suc k
    → parse_onto limit acc bs ≡ some n
    → print_decimal (suc k) n ≡ print_decimal (suc k) acc ++ bs
unfolding parse_onto
print-parse_onto limit k acc n [] some_acc h p =
    let same : n ≡ acc = cc in
    ap (print_decimal (suc k)) same ∙ sym (append-nil (print_decimal (suc k) acc))
print-parse_onto limit k acc n (b ∷ bs) some_acc h p =
    let (low, high, _, rest) = digit_bounds limit acc n b bs p in
    let next = acc * 10 + (b - 48) in
    let grown = parse_onto-le limit next n bs rest in
    print-parse_onto limit k next n bs (omega arith) h rest
    ∙ ap (λ (t : Bytes). t ++ bs) (print_next k acc b some_acc low high (omega arith))
    ∙ append_assoc (print_decimal (suc k) acc) (b ∷ []) bs

-- The printed form of the number that a canonical text of digits parses to is that text.
pub print-parse :
    (limit k n : ℕ) (b : ℕ) (bs : Bytes)
    → n < 10 ^ suc k
    → not (b == b'0') || is_empty bs ≡ true
    → parse_onto limit 0 (b ∷ bs) ≡ some n
    → print_decimal (suc k) n ≡ b ∷ bs
print-parse limit k n b bs h canonical p =
    let (low, high, _, rest) = digit_bounds limit 0 n b bs p in
    let grown = parse_onto-le limit (0 * 10 + (b - 48)) n bs rest in
    elim (dec_lt 48 b) [
      | yes q ↦
          let first : 48 + (b - 48) ≡ b = omega arith in
          let rest' : parse_onto limit (b - 48) bs ≡ some n =
            ap (λ (t : ℕ). parse_onto limit t bs) (omega arith) ∙ rest in
          print-parse_onto limit k (b - 48) n bs (omega arith) h rest'
          ∙ ap (λ (t : Bytes). t ++ bs) (print_small k (b - 48) (omega arith))
          ∙ ap (λ (t : ℕ). t ∷ bs) first
      | no q ↦ zero_text limit k n b bs (omega arith) canonical p
    ]

-- What is printed of a number that is not 0 begins with a digit that is not 0, and has digits behind
-- it.
pub record IsNumeral (text : Bytes) : Type 0 where
  pub first : ℕ
  pub others : Bytes
  pub shape : text ≡ first ∷ others
  pub low : 49 ≤ first
  pub high : first ≤ 57
  pub digits : all_of (within b'0' b'9') others ≡ true

all_of-append_digit :
    (bs : Bytes) (d : ℕ)
    → d < 10
    → all_of (within b'0' b'9') bs ≡ true
    → all_of (within b'0' b'9') (bs ++ (48 + d) ∷ []) ≡ true
all_of-append_digit [] d small h = ground arith
all_of-append_digit (b ∷ bs) d small h = ground (arith, all_of-append_digit bs d small)

pub print_decimal-IsNumeral :
    (k n : ℕ) → 1 ≤ n → n < 10 ^ suc k → IsNumeral (print_decimal (suc k) n)
print_decimal-IsNumeral zero n some_n h = record {
  first = 48 + n;
  others = [];
  shape = print_small zero n (omega arith);
  low = omega arith;
  high = omega arith;
  digits = refl;
}
print_decimal-IsNumeral (suc k) n some_n h = elim (dec_lt n 10) [
  | yes p ↦ record {
    first = 48 + n;
    others = [];
    shape = print_small (suc k) n p;
    low = omega arith;
    high = omega arith;
    digits = refl;
  }
  | no p ↦
      let front = print_decimal-IsNumeral k (n / 10) (omega arith) (omega arith) in
      record {
        first = front.first;
        others = front.others ++ (48 + n % 10) ∷ [];
        shape =
            print_large (suc k) n (omega arith)
            ∙ ap (λ (t : Bytes). t ++ (48 + n % 10) ∷ []) front.shape;
        low = front.low;
        high = front.high;
        digits = all_of-append_digit front.others (n % 10) (omega arith) front.digits;
      }
]

digits_unsigned :
    (limit n : ℕ) (bs : Bytes)
    → bs ≢ []
    → parse_onto limit 0 bs ≡ some n
    → parse_unsigned limit bs ≡ some n
unfolding parse_unsigned parse_onto
digits_unsigned limit n [] some_bytes h = absurd (some_bytes refl)
digits_unsigned limit n (b ∷ bs) some_bytes h = ground arith

print_nonempty : (k n : ℕ) → print_decimal (suc k) n ≢ []
unfolding print_decimal
print_nonempty k n h =
    append_nonempty (if ltb n 10 then [] else print_decimal k (n / 10)) (48 + n % 10) h
  where
    append_nonempty : (xs : Bytes) (x : ℕ) → xs ++ x ∷ [] ≢ []
    append_nonempty [] x e = cc
    append_nonempty (y ∷ xs) x e = cc

pub parse_unsigned-print_decimal :
    (limit k n : ℕ)
    → n < 10 ^ suc k
    → n < limit
    → parse_unsigned limit (print_decimal (suc k) n) ≡ some n
parse_unsigned-print_decimal limit k n h fits =
    digits_unsigned limit n (print_decimal (suc k) n) (print_nonempty k n)
      (parse_onto-print_decimal limit k n h fits)
