-- ===== src/SyncHttp/Bodies.antt =====
-- crates/cli/src/sync/http.rs: the bounded body of an answer.
use attached.Common.{
  ℕ, ◌+◌, ◌^◌, ◌≤◌, ◌<◌, Bool, true, false, not, ltb, lt→ltb, le→leb, leb, List, [], ◌∷◌, ◌++◌,
  append_assoc, append-nil, length, length-append, Option, none, some, Bytes, ok, ensure,
  bind-eq-ok, ensure-eq-ok, ◌≡◌, ◌↔◌, refl, sym, ap, ◌∙◌, arith,
}
use attached.Worker.Http.Body.{concat, whole}
use attached.SyncHttp.{exceeds_limit, length_overflow, HttpResponse}
use attached.SyncHttp.Reading.{read_response, declares_over, bounded_response}

-- The chunks of a body that is not longer than the limit, nor declared to be.
pub record IsBody (response : HttpResponse) (limit : ℕ) (body : Bytes) : Type 0 where
  pub declared : declares_over limit response.content_length ≡ false
  pub pieces : List Bytes
  pub unbroken : response.chunks ≡ whole pieces
  pub joined : concat pieces ≡ body
  pub fits : length body ≤ limit

read_response-whole :
    (limit : ℕ) (output : Bytes) (pieces : List Bytes)
    → limit < 2 ^ 64
    → length (output ++ concat pieces) ≤ limit
    → read_response limit output (whole pieces) ≡ ok (output ++ concat pieces)
unfolding read_response
read_response-whole limit output [] small fits = ap ok (sym (append-nil output))
read_response-whole limit output (piece ∷ pieces) small fits =
    let sum = length-append output (piece ++ concat pieces) in
    let sum' = length-append piece (concat pieces) in
    let joins = append_assoc output piece (concat pieces) in
    let rest =
      read_response-whole limit (output ++ piece) pieces small (omega (arith, ap length joins)) in
    rw
      (
        lt→ltb (length output + length piece) (2 ^ 64) (omega arith),
        le→leb (length output + length piece) limit (omega arith),
      )
      (rest ∙ ap ok joins)

read_response-eq-ok :
    (limit : ℕ) (output : Bytes) (chunks : List (Option Bytes)) (body : Bytes)
    → length output ≤ limit
    → read_response limit output chunks ≡ ok body
    → (pieces : List Bytes) × (chunks ≡ whole pieces)
      × (output ++ concat pieces ≡ body)
      × (length body ≤ limit)
unfolding read_response
read_response-eq-ok limit output [] body fits h =
    let same : output ≡ body = cc in
    ([], refl, append-nil output ∙ same, omega (arith, ap length same))
read_response-eq-ok limit output (none ∷ chunks) body fits h = absurd cc
read_response-eq-ok limit output (some chunk ∷ chunks) body fits h =
    let (_, _, h₁) =
      bind-eq-ok (ensure (ltb (length output + length chunk) (2 ^ 64)) length_overflow) _ h in
    let (_, within_limit, h₂) =
      bind-eq-ok (ensure (leb (length output + length chunk) limit) exceeds_limit) _ h₁ in
    let test = ensure-eq-ok _ exceeds_limit within_limit in
    let (pieces, chunks_eq, joins, short) =
      read_response-eq-ok limit (output ++ chunk) chunks body (next_fits test) h₂ in
    (
      chunk ∷ pieces,
      ap (λ (x : List (Option Bytes)). some chunk ∷ x) chunks_eq,
      sym (append_assoc output chunk (concat pieces)) ∙ joins,
      short,
    )
  where
    next_fits : leb (length output + length chunk) limit ≡ true → length (output ++ chunk) ≤ limit
    next_fits t = let sum = length-append output chunk in ground arith

pub bounded_response_iff :
    (response : HttpResponse) (limit : ℕ) (body : Bytes)
    → limit < 2 ^ 64
    → (bounded_response response limit ≡ ok body) ↔ IsBody response limit body
unfolding bounded_response
bounded_response_iff response limit body small = (to, from)
  where
    to : bounded_response response limit ≡ ok body → IsBody response limit body
    to h =
        let over = declares_over limit response.content_length in
        let (_, declared, h₁) = bind-eq-ok (ensure (not over) exceeds_limit) _ h in
        let (pieces, unbroken, joined, fits) =
          read_response-eq-ok limit [] response.chunks body (omega arith) h₁ in
        record {
          declared = not-true over (ensure-eq-ok _ exceeds_limit declared);
          pieces = pieces;
          unbroken = unbroken;
          joined = joined;
          fits = fits;
        }
      where
        not-true : (b : Bool) → not b ≡ true → b ≡ false
        not-true true e = cc
        not-true false e = refl

    from : IsBody response limit body → bounded_response response limit ≡ ok body
    from b =
        let short : length (concat b.pieces) ≤ limit = omega (arith, ap length b.joined, b.fits) in
        rw (b.declared, b.unbroken)
          (read_response-whole limit [] b.pieces small short ∙ ap ok b.joined)
