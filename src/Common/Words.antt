-- ===== src/Common/Words.antt =====
-- Bytes, and numbers as big-endian byte strings (`to_be_bytes`, `from_be_bytes`, `write_u32`).
use Prim.Native.Nat.{ℕ, zero, suc, ◌+◌, ◌*◌, ◌/◌, ◌%◌, ◌^◌, ◌<◌}
use mathlib.Core.Path.{◌≡◌, refl, ap, ap₂, ◌∙◌}
use mathlib.Core.List.{List, [], ◌∷◌, ◌++◌, append_assoc, append-nil}
use native.Mathlib.Nat.{add-zero, zero-add, add-suc, suc-add, mul-le-mul_right, pow-suc}
use native.Mathlib.Omega.{arith}
use attached.Common.Lists.{length, length-append, All, All-append}

abbrev pub Bytes : Type 0
Bytes = List ℕ

abbrev pub IsByte : ℕ → Type 0
IsByte b = b < 256

abbrev pub AreBytes : Bytes → Type 0
AreBytes = All IsByte

-- The `k` low bytes of `v`, the highest first.
unfoldable pub to_be_bytes : ℕ → ℕ → Bytes
to_be_bytes zero v = []
to_be_bytes (suc k) v = to_be_bytes k (v / 256) ++ (v % 256) ∷ []

from_be_onto : ℕ → Bytes → ℕ
from_be_onto acc [] = acc
from_be_onto acc (b ∷ bs) = from_be_onto (acc * 256 + b) bs

unfoldable pub from_be_bytes : Bytes → ℕ
unfolding from_be_onto
from_be_bytes bs = from_be_onto 0 bs

from_be_onto-append :
    (acc : ℕ) (xs ys : Bytes) → from_be_onto acc (xs ++ ys) ≡ from_be_onto (from_be_onto acc xs) ys
unfolding from_be_onto
from_be_onto-append acc [] ys = refl
from_be_onto-append acc (x ∷ xs) ys = from_be_onto-append (acc * 256 + x) xs ys

pub from_be_bytes-to_be_bytes : (k v : ℕ) → v < 256 ^ k → from_be_bytes (to_be_bytes k v) ≡ v
unfolding from_be_bytes to_be_bytes
from_be_bytes-to_be_bytes zero v h = omega arith
from_be_bytes-to_be_bytes (suc k) v h =
    from_be_onto-append 0 (to_be_bytes k (v / 256)) ((v % 256) ∷ [])
    ∙ omega (arith, from_be_bytes-to_be_bytes k (v / 256) (omega arith))

pub length-to_be_bytes : (k v : ℕ) → length (to_be_bytes k v) ≡ k
unfolding to_be_bytes
length-to_be_bytes zero v = refl
length-to_be_bytes (suc k) v =
    length-append (to_be_bytes k (v / 256)) _ ∙ omega (arith, length-to_be_bytes k (v / 256))

pub to_be_bytes-AreBytes : (k v : ℕ) → AreBytes (to_be_bytes k v)
unfolding to_be_bytes
to_be_bytes-AreBytes zero v = tt
to_be_bytes-AreBytes (suc k) v =
    All-append IsByte (to_be_bytes k (v / 256)) _ (to_be_bytes-AreBytes k (v / 256)) (omega arith)

shift_bound : (acc b p x : ℕ) → IsByte b → x < (acc * 256 + b + 1) * p → x < (acc + 1) * (p * 256)
shift_bound acc b p x hb h = omega (arith, mul-le-mul_right p hb)

from_be_onto-lt :
    (acc : ℕ) (bs : Bytes) → AreBytes bs → from_be_onto acc bs < (acc + 1) * 256 ^ length bs
unfolding from_be_onto
from_be_onto-lt acc [] h = omega arith
from_be_onto-lt acc (b ∷ bs) (hb, h) =
    rw pow-suc (shift_bound acc b (256 ^ length bs) _ hb (from_be_onto-lt (acc * 256 + b) bs h))

pub from_be_bytes-lt : (bs : Bytes) → AreBytes bs → from_be_bytes bs < 256 ^ length bs
unfolding from_be_bytes
from_be_bytes-lt bs h = omega (arith, from_be_onto-lt 0 bs h)

to_be_bytes_snoc :
    (j acc b : ℕ) → IsByte b → to_be_bytes (suc j) (acc * 256 + b) ≡ to_be_bytes j acc ++ b ∷ []
unfolding to_be_bytes
to_be_bytes_snoc j acc b h =
    ap₂ (λ (x y : ℕ). to_be_bytes j x ++ y ∷ []) (omega arith) (omega arith)

to_be_bytes-from_be_onto :
    (bs : Bytes) (j acc : ℕ)
    → AreBytes bs
    → to_be_bytes (j + length bs) (from_be_onto acc bs) ≡ to_be_bytes j acc ++ bs
unfolding from_be_onto
to_be_bytes-from_be_onto [] j acc h = rw (append-nil, add-zero) refl
to_be_bytes-from_be_onto (b ∷ bs) j acc (hb, h) =
    rw (add-suc, ← suc-add) (to_be_bytes-from_be_onto bs (suc j) (acc * 256 + b) h)
    ∙ ap (λ (t : Bytes). t ++ bs) (to_be_bytes_snoc j acc b hb)
    ∙ append_assoc (to_be_bytes j acc) (b ∷ []) bs

pub to_be_bytes-from_be_bytes :
    (bs : Bytes) → AreBytes bs → to_be_bytes (length bs) (from_be_bytes bs) ≡ bs
unfolding from_be_bytes to_be_bytes
to_be_bytes-from_be_bytes bs h = rw zero-add at (to_be_bytes-from_be_onto bs 0 0 h)
