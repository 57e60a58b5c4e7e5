-- ===== src/SyncHttp/Reading.antt =====
-- crates/cli/src/sync/http.rs: the content type, the ETag and the bounded body of an answer.
use attached.Common.{
  ℕ, ◌+◌, ◌-◌, ◌^◌, Bool, false, not, ◌&&◌, ◌||◌, ltb, leb, ◌==◌, if◌then◌else◌, List, [], ◌∷◌,
  ◌++◌, length, all_of, Option, none, some, Bytes, bytes_eq, is_empty, parse_unsigned, within,
  Result, ok, err, ◌>>=◌, ◌>>◌, ensure,
}
use attached.Worker.Http.{ErrorCode}
use attached.SyncHttp.{
  HttpError, unexpected_content_type, missing_etag, invalid_etag, malformed_etag,
  non_canonical_etag, revision_overflow, exceeds_limit, length_overflow, body_broken,
  service_returned, HttpResponse, Web,
}

abbrev pub max_error_body_bytes : ℕ
max_error_body_bytes = 4096

-- `context(…)?` on an option
abbrev pub present {ℓ} : {A : Type ℓ} → Option A → HttpError → Result HttpError A
present none e = err e
present (some a) e = ok a

unfoldable pub ascii_lower : Bytes → Bytes
ascii_lower [] = []
ascii_lower (b ∷ text) = (if within b'A' b'Z' b then b + 32 else b) ∷ ascii_lower text

unfoldable pub eq_ignore_ascii_case : Bytes → Bytes → Bool
eq_ignore_ascii_case a b = bytes_eq (ascii_lower a) (ascii_lower b)

-- The part before a `;`, and the whole text where there is none.
unfoldable pub media_type : Bytes → Bytes
media_type [] = []
media_type (b ∷ text) = let rest = media_type text in if b == b';' then [] else b ∷ rest

-- `char::is_whitespace`, of ASCII characters
abbrev pub is_whitespace : ℕ → Bool
is_whitespace b = within 9 13 b || b == b' '

unfoldable pub trim_start : Bytes → Bytes
trim_start [] = []
trim_start (b ∷ text) = let rest = trim_start text in if is_whitespace b then rest else b ∷ text

unfoldable pub trim_end : Bytes → Bytes
trim_end [] = []
trim_end (b ∷ text) =
    let rest = trim_end text in if is_whitespace b && is_empty rest then [] else b ∷ rest

-- `application/json`
abbrev pub json_type : Bytes
json_type =
    b'a' ∷ b'p' ∷ b'p' ∷ b'l' ∷ b'i' ∷ b'c' ∷ b'a' ∷ b't' ∷ b'i' ∷ b'o' ∷ b'n' ∷ b'/' ∷ b'j' ∷ b's'
    ∷ b'o' ∷ b'n' ∷ []

-- Behind `to_str`.
unfoldable pub is_json_text : Option Bytes → Bool
is_json_text none = false
is_json_text (some value) =
    eq_ignore_ascii_case (trim_end (trim_start (media_type value))) json_type

abbrev pub kept : ℕ → Option Bytes → Option Bytes
kept b none = none
kept b (some text) = some (b ∷ text)

-- `strip_suffix('"')`
unfoldable pub strip_suffix : Bytes → Option Bytes
strip_suffix [] = none
strip_suffix (b ∷ text) =
    let rest = strip_suffix text in
    if is_empty text then (if b == b'"' then some [] else none) else kept b rest

-- `strip_prefix('"')`, and `strip_suffix` on what is left.
unfoldable pub unquoted : Bytes → Option Bytes
unquoted [] = none
unquoted (b ∷ text) = if b == b'"' then strip_suffix text else none

abbrev pub is_ascii_digit : ℕ → Bool
is_ascii_digit b = within b'0' b'9' b

-- No sign and no leading zero, and not 0.
unfoldable pub is_canonical : Bytes → Bool
is_canonical [] = false
is_canonical (b ∷ digits) =
    not (bytes_eq (b ∷ digits) (b'0' ∷ []))
    && not (ltb 1 (length (b ∷ digits)) && b == b'0')
    && all_of is_ascii_digit (b ∷ digits)

unfoldable pub revision_of : Bytes → Result HttpError ℕ
revision_of value = do
  digits ← present (unquoted value) malformed_etag
  ensure (is_canonical digits) non_canonical_etag
  revision ← present (parse_unsigned (2 ^ 64) digits) revision_overflow
  ensure (leb revision (2 ^ 63 - 1)) revision_overflow
  ok revision

-- The loop of `bounded_response`, behind the bytes that were read; `usize` has 64 bits.
unfoldable pub read_response : ℕ → Bytes → List (Option Bytes) → Result HttpError Bytes
read_response limit output [] = ok output
read_response limit output (none ∷ chunks) = err body_broken
read_response limit output (some chunk ∷ chunks) = do
  let rest = read_response limit (output ++ chunk) chunks
  ensure (ltb (length output + length chunk) (2 ^ 64)) length_overflow
  ensure (leb (length output + length chunk) limit) exceeds_limit
  rest

-- `content_length().is_some_and(|length| length > limit)`
abbrev pub declares_over : ℕ → Option ℕ → Bool
declares_over limit none = false
declares_over limit (some n) = ltb limit n

unfoldable pub bounded_response : HttpResponse → ℕ → Result HttpError Bytes
bounded_response response limit = do
  ensure (not (declares_over limit response.content_length)) exceeds_limit
  read_response limit [] response.chunks

module _ (web : Web) where
  open web use {
    W, send, to_str, from_bytes, to_vec, envelope_json, error_json, index_json, account_json,
    service_hash, base64, uuid,
  }

  unfoldable pub is_json_content_type : Bytes → Bool
  is_json_content_type value = is_json_text (to_str value)

  -- `is_some_and(is_json_content_type)`
  unfoldable pub has_json : HttpResponse → Bool
  has_json response = elim response.content_type [
    | none ↦ false
    | some value ↦ is_json_content_type value
  ]

  unfoldable pub ensure_json : HttpResponse → Result HttpError (Unit {0})
  ensure_json response = ensure (has_json response) unexpected_content_type

  unfoldable pub response_revision : HttpResponse → Result HttpError ℕ
  response_revision response = do
    header ← present response.etag missing_etag
    value ← present (to_str header) invalid_etag
    revision_of value

  -- The code of an error body that can be read.
  unfoldable pub error_code : Result HttpError Bytes → Option ErrorCode
  error_code (ok body) = error_json body
  error_code (err e) = none

  unfoldable pub service_error : HttpResponse → HttpError
  service_error response = service_returned response.status (
      if has_json response
      then error_code (bounded_response response max_error_body_bytes)
      else none)
