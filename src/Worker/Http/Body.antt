-- ===== src/Worker/Http/Body.antt =====
-- crates/session-sync-worker/src/api.rs: a bounded body is the whole body or none of it.
use attached.Common.{
  ℕ, ◌+◌, ◌^◌, ◌<◌, ◌≤◌, Bool, true, false, ltb, lt→ltb, le→ltb_false, if◌then◌else◌, List, [], ◌∷◌,
  ◌++◌, append_assoc, append-nil, length, length-append, Option, none, some, Bytes, Result, ok, err,
  ◌≡◌, refl, sym, ap, ◌∙◌, arith, Bool-cases, inl, inr,
}
use attached.Worker.Http.{
  HeaderValue, BodyStream, Request, BodyReadError, body_too_large, body_unavailable,
  declared_too_large, grows_too_large, read_chunks, read_stream, read_declared, read_bounded_body,
}

abbrev pub concat : List Bytes → Bytes
concat [] = []
concat (chunk ∷ chunks) = chunk ++ concat chunks

-- A stream that does not break.
abbrev pub whole : List Bytes → List (Option Bytes)
whole [] = []
whole (chunk ∷ chunks) = some chunk ∷ whole chunks

read_chunks_over :
    (limit : ℕ) (output : Bytes) (chunks : List Bytes)
    → read_chunks limit true output (whole chunks) ≡ err body_too_large
unfolding read_chunks
read_chunks_over limit output [] = refl
read_chunks_over limit output (chunk ∷ chunks) = read_chunks_over limit output chunks

-- The body under the limit, and the error over it.
abbrev pub bounded : ℕ → Bytes → Result BodyReadError Bytes
bounded limit body = if ltb limit (length body) then err body_too_large else ok body

-- One chunk, under the limit or over it.
grows-over :
    (limit : ℕ) (output chunk : Bytes)
    → ltb limit (length output + length chunk) ≡ true
    → grows_too_large limit output chunk ≡ true
unfolding grows_too_large
grows-over limit output chunk h = ground arith

grows-within :
    (limit : ℕ) (output chunk : Bytes)
    → limit < 2 ^ 32
    → ltb limit (length output + length chunk) ≡ false
    → grows_too_large limit output chunk ≡ false
unfolding grows_too_large
grows-within limit output chunk small h = ground arith

bounded-over :
    (limit : ℕ) (output chunk rest : Bytes)
    → ltb limit (length output + length chunk) ≡ true
    → bounded limit (output ++ (chunk ++ rest)) ≡ err body_too_large
bounded-over limit output chunk rest h =
    let sum = length-append output (chunk ++ rest) in
    let sum' = length-append chunk rest in
    let over : limit < length output + length chunk = ground arith in
    rw (lt→ltb limit (length (output ++ (chunk ++ rest))) (omega arith)) refl

read_chunks-whole :
    (limit : ℕ) (output : Bytes) (chunks : List Bytes)
    → limit < 2 ^ 32
    → length output ≤ limit
    → read_chunks limit false output (whole chunks) ≡ bounded limit (output ++ concat chunks)
unfolding read_chunks
read_chunks-whole limit output [] small fits =
    rw (append-nil output, le→ltb_false limit (length output) fits) refl
read_chunks-whole limit output (chunk ∷ chunks) small fits =
    let next_chunk : Bool → Result BodyReadError Bytes =
      λ grows. read_chunks limit grows (if grows then [] else output ++ chunk) (whole chunks) in
    elim (Bool-cases (ltb limit (length output + length chunk))) [
      | inl over ↦
          ap next_chunk (grows-over limit output chunk over)
          ∙ read_chunks_over limit [] chunks
          ∙ sym (bounded-over limit output chunk (concat chunks) over)
      | inr within ↦
          let next : length (output ++ chunk) ≤ limit =
            (let sum = length-append output chunk in ground arith) in
          ap next_chunk (grows-within limit output chunk small within)
          ∙ read_chunks-whole limit (output ++ chunk) chunks small next
          ∙ ap (bounded limit) (append_assoc output chunk (concat chunks))
    ]

-- A body that is there, in a stream that opens and does not break, is read under a limit of 32 bits:
-- over the limit, or declared over it, it is refused as too large, and else it is the whole body,
-- however the stream cuts it.
pub read_bounded_body-concat :
    (request : Request) (declared : Option Bytes) (chunks : List Bytes) (limit : ℕ)
    → limit < 2 ^ 32
    → request.content_length ≡ some declared
    → request.body ≡ some (record { opens = true; chunks = whole chunks })
    → read_bounded_body request limit ≡ (
        if declared_too_large limit declared
        then err body_too_large
        else if ltb limit (length (concat chunks))
        then err body_too_large
        else ok (concat chunks))
unfolding read_bounded_body read_declared read_stream
read_bounded_body-concat request declared chunks limit small header body =
    rw (header, body) (by_declared (declared_too_large limit declared))
  where
    by_declared :
        (too_large : Bool)
        → read_chunks limit too_large [] (whole chunks)
          ≡ (if too_large then err body_too_large else bounded limit (concat chunks))
    by_declared true = read_chunks_over limit [] chunks
    by_declared false = read_chunks-whole limit [] chunks small (omega arith)

read_chunks-eq-ok :
    (limit : ℕ) (chunks : List (Option Bytes)) (too_large : Bool) (output body : Bytes)
    → length output ≤ limit
    → read_chunks limit too_large output chunks ≡ ok body
    → length body ≤ limit
unfolding read_chunks grows_too_large
read_chunks-eq-ok limit [] true output body fits h = cc
read_chunks-eq-ok limit [] false output body fits h =
    let same : output ≡ body = cc in omega (arith, fits, ap length same)
read_chunks-eq-ok limit (none ∷ chunks) too_large output body fits h = cc
read_chunks-eq-ok limit (some chunk ∷ chunks) true output body fits h =
    read_chunks-eq-ok limit chunks true output body fits h
read_chunks-eq-ok limit (some chunk ∷ chunks) false output body fits h =
    read_chunks-eq-ok limit chunks (grows_too_large limit output chunk)
      (if grows_too_large limit output chunk then [] else output ++ chunk) body
      (next_fits (grows_too_large limit output chunk) refl) h
  where
    next_fits :
        (grows : Bool)
        → grows_too_large limit output chunk ≡ grows
        → length (if grows then [] else output ++ chunk) ≤ limit
    next_fits true e = omega arith
    next_fits false e = let sum = length-append output chunk in ground arith

-- What is read is within the limit.
pub read_bounded_body-eq-ok :
    (request : Request) (limit : ℕ) (body : Bytes)
    → read_bounded_body request limit ≡ ok body
    → length body ≤ limit
unfolding read_bounded_body read_declared read_stream
read_bounded_body-eq-ok request limit body h = by_header request.content_length request.body h
  where
    by_opens :
        (too_large opens : Bool) (chunks : List (Option Bytes))
        → (if opens then read_chunks limit too_large [] chunks else err body_unavailable) ≡ ok body
        → length body ≤ limit
    by_opens too_large true chunks h =
        read_chunks-eq-ok limit chunks too_large [] body (omega arith) h
    by_opens too_large false chunks h = cc

    by_stream :
        (too_large : Bool) (stream : Option BodyStream)
        → read_stream limit too_large stream ≡ ok body
        → length body ≤ limit
    by_stream true none h = cc
    by_stream false none h = let same : [] ≡ body = cc in omega (arith, ap length same)
    by_stream too_large (some stream) h = by_opens too_large stream.opens stream.chunks h

    by_header :
        (header : HeaderValue) (stream : Option BodyStream)
        → read_declared limit header stream ≡ ok body
        → length body ≤ limit
    by_header none stream h = cc
    by_header (some value) stream h = by_stream (declared_too_large limit value) stream h
