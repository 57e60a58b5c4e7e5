-- ===== src/SyncHttp/Revision.antt =====
-- crates/cli/src/sync/http.rs: each revision has one ETag that is read.
use attached.Common.{
  and-eq-true, ℕ, ◌-◌, ◌^◌, ◌≤◌, ◌<◌, true, not, ◌&&◌, ◌||◌, ltb, leb, ◌==◌, le→leb, [], ◌∷◌, ◌++◌,
  length, all_of, Option, none, some, Bytes, bytes_eq, bytes_eq_iff, is_empty, parse_unsigned,
  parse_onto, print_decimal, print_decimal-IsNumeral, print-parse, parse_onto-lt,
  parse_unsigned-print_decimal, within, ok, ensure, bind-eq-ok, ensure-eq-ok, ◌≡◌, ◌↔◌, refl, sym,
  ap, ◌∙◌, arith,
}
use native.Mathlib.Decide.{dec_lt}
use attached.SyncHttp.{HttpError, malformed_etag, non_canonical_etag, revision_overflow}
use attached.SyncHttp.Reading.{
  present, kept, strip_suffix, unquoted, is_ascii_digit, is_canonical, revision_of,
}

-- `format!("\"{revision}\"")`
abbrev pub quoted : ℕ → Bytes
quoted n = b'"' ∷ (print_decimal 20 n ++ b'"' ∷ [])

pub present-eq-ok {ℓ} :
    {A : Type ℓ} (x : Option A) (e : HttpError) (a : A) → present x e ≡ ok a → x ≡ some a
present-eq-ok none e a h = cc
present-eq-ok (some b) e a h = cc

strip_suffix-eq : (text d : Bytes) → strip_suffix text ≡ some d → text ≡ d ++ b'"' ∷ []
unfolding strip_suffix
strip_suffix-eq [] d h = cc
strip_suffix-eq (b ∷ []) d h = ground arith
strip_suffix-eq (b ∷ c ∷ text) d h =
    kept_eq (strip_suffix (c ∷ text)) (strip_suffix-eq (c ∷ text)) h
  where
    kept_eq :
        (x : Option Bytes)
        → ((t : Bytes) → x ≡ some t → c ∷ text ≡ t ++ b'"' ∷ [])
        → kept b x ≡ some d
        → b ∷ c ∷ text ≡ d ++ b'"' ∷ []
    kept_eq none ih k = cc
    kept_eq (some t) ih k =
        let same : b ∷ t ≡ d = cc in
        ap (λ (z : Bytes). b ∷ z) (ih t refl) ∙ ap (λ (z : Bytes). z ++ b'"' ∷ []) same

strip_suffix-append : (d : Bytes) → strip_suffix (d ++ b'"' ∷ []) ≡ some d
unfolding strip_suffix
strip_suffix-append [] = refl
strip_suffix-append (b ∷ []) = refl
strip_suffix-append (b ∷ c ∷ d) = rw (strip_suffix-append (c ∷ d)) refl

unquoted-eq : (value d : Bytes) → unquoted value ≡ some d → value ≡ b'"' ∷ (d ++ b'"' ∷ [])
unfolding unquoted
unquoted-eq [] d h = cc
unquoted-eq (b ∷ text) d h = ground (arith, strip_suffix-eq text d)

digits_unsigned :
    (limit b : ℕ) (ds : Bytes)
    → is_ascii_digit b ≡ true
    → parse_unsigned limit (b ∷ ds) ≡ parse_onto limit 0 (b ∷ ds)
unfolding parse_unsigned
digits_unsigned limit b ds h = ground arith

no_leading_zero :
    (b : ℕ) (ds : Bytes)
    → not (ltb 1 (length (b ∷ ds)) && b == b'0') ≡ true
    → (not (b == b'0') || is_empty ds) ≡ true
no_leading_zero b [] h = ground arith
no_leading_zero b (c ∷ ds) h = ground arith

printed_zero : print_decimal 20 0 ≡ b'0' ∷ []
unfolding print_decimal
printed_zero = refl

-- A canonical text of digits is what is printed of its value.
canonical-print :
    (d : Bytes) (n : ℕ)
    → is_canonical d ≡ true
    → parse_unsigned (2 ^ 64) d ≡ some n
    → (print_decimal 20 n ≡ d) × (1 ≤ n)
unfolding is_canonical
canonical-print [] n h p = cc
canonical-print (b ∷ ds) n h p =
    let leads = not (ltb 1 (length (b ∷ ds)) && b == b'0') in
    let nonzero_text = not (bytes_eq (b ∷ ds) (b'0' ∷ [])) in
    let (h₁, digits) = and-eq-true (nonzero_text && leads) (all_of is_ascii_digit (b ∷ ds)) h in
    let (nonzero, leading) = and-eq-true nonzero_text leads h₁ in
    let (digit, _) = and-eq-true (is_ascii_digit b) (all_of is_ascii_digit ds) digits in
    let parses = sym (digits_unsigned (2 ^ 64) b ds digit) ∙ p in
    let small = parse_onto-lt (2 ^ 64) 0 n (b ∷ ds) (omega arith) parses in
    let prints =
      print-parse (2 ^ 64) 19 n b ds (omega arith) (no_leading_zero b ds leading) parses in
    (
      prints,
      elim (dec_lt 0 n) [
        | yes q ↦ omega arith
        | no q ↦
            let zero_eq : n ≡ 0 = omega arith in
            absurd (not_zero nonzero (sym prints ∙ ap (print_decimal 20) zero_eq ∙ printed_zero))
      ],
    )
  where
    not_zero : not (bytes_eq (b ∷ ds) (b'0' ∷ [])) ≡ true → b ∷ ds ≡ b'0' ∷ [] → ⊥
    not_zero q e = absurd (ground (arith, (bytes_eq_iff (b ∷ ds) (b'0' ∷ [])).1 e))

canonical_numeral :
    (b : ℕ) (ds : Bytes)
    → 49 ≤ b
    → b ≤ 57
    → all_of (within b'0' b'9') ds ≡ true
    → is_canonical (b ∷ ds) ≡ true
unfolding is_canonical bytes_eq
canonical_numeral b ds low high digits = ground arith

revision_of-quoted : (n : ℕ) → 1 ≤ n → n < 2 ^ 63 → revision_of (quoted n) ≡ ok n
unfolding revision_of unquoted
revision_of-quoted n some_n small =
    let v = print_decimal-IsNumeral 19 n some_n (omega arith) in
    let canonical : is_canonical (print_decimal 20 n) ≡ true =
      ap is_canonical v.shape ∙ canonical_numeral v.first v.others v.low v.high v.digits in
    let parses = parse_unsigned-print_decimal (2 ^ 64) 19 n (omega arith) (omega arith) in
    let most : leb n (2 ^ 63 - 1) ≡ true = le→leb n (2 ^ 63 - 1) (omega arith) in
    rw (strip_suffix-append (print_decimal 20 n), canonical, parses, most) refl

revision_of-eq-ok :
    (value : Bytes) (n : ℕ) → revision_of value ≡ ok n → (value ≡ quoted n) × (1 ≤ n) × (n < 2 ^ 63)
unfolding revision_of
revision_of-eq-ok value n h =
    let (digits, stripped, h₁) = bind-eq-ok (present (unquoted value) malformed_etag) _ h in
    let (_, canonical, h₂) = bind-eq-ok (ensure (is_canonical digits) non_canonical_etag) _ h₁ in
    let (revision, parses, h₃) =
      bind-eq-ok (present (parse_unsigned (2 ^ 64) digits) revision_overflow) _ h₂ in
    let (_, most, h₄) = bind-eq-ok (ensure (leb revision (2 ^ 63 - 1)) revision_overflow) _ h₃ in
    let same : revision ≡ n = cc in
    let (prints, some_n) =
      canonical-print digits revision (ensure-eq-ok _ non_canonical_etag canonical)
        (present-eq-ok _ revision_overflow revision parses) in
    (
      unquoted-eq value digits (present-eq-ok _ malformed_etag digits stripped)
          ∙ ap (λ (d : Bytes). b'"' ∷ (d ++ b'"' ∷ [])) (sym prints)
          ∙ ap quoted same,
      ground arith,
      ground (arith, ensure-eq-ok (leb revision (2 ^ 63 - 1)) revision_overflow most),
    )

-- A value is read as a revision exactly when it is the ETag of the revision, which is positive and
-- below 2^63.
pub revision_of_iff :
    (value : Bytes) (n : ℕ)
    → (revision_of value ≡ ok n) ↔ ((value ≡ quoted n) × (1 ≤ n) × (n < 2 ^ 63))
revision_of_iff value n =
    (revision_of-eq-ok value n, λ h. ap revision_of h.0 ∙ revision_of-quoted n h.1 h.2)
