-- ===== src/Ceremony/Request.antt =====
-- crates/pq-ceremony/src/main.rs: how the server reads a request off a connection. The connection is
-- the results of its reads in order; no byte, or the end of the list, is the end of the stream.
pub mod Found
pub mod Chunks
pub mod Panics
use pq_enclave_binding.Base.{
  ℕ, zero, suc, min, ◌+◌, ◌%◌, Bool, true, false, List, [], ◌∷◌, ◌++◌, Option, none, some, Bytes,
  String, as_bytes, Outcome, ok, err, panic, ◌>>=◌, length, take, drop, ltb, ◌==◌, if◌then◌else◌,
  strip_prefix, trim, parse, lines, split_whitespace, next_or, from_utf8_lossy, u64_mod,
}

unfoldable pub starts_with : Bytes → Bytes → Bool
starts_with [] hay = true
starts_with (n ∷ needle) [] = false
starts_with (n ∷ needle) (b ∷ hay) =
    let rest = starts_with needle hay in if n == b then rest else false

abbrev pub next_position : Option ℕ → Option ℕ
next_position none = none
next_position (some i) = some (suc i)

-- `haystack.windows(needle.len()).position(|w| w == needle)`, for a needle that is not empty.
unfoldable pub find_subslice : Bytes → Bytes → Option ℕ
unfolding starts_with
find_subslice [] needle = none
find_subslice (b ∷ hay) needle =
    let rest = find_subslice hay needle in
    if starts_with needle (b ∷ hay) then some 0 else next_position rest

abbrev pub header_end_mark : Bytes
header_end_mark = 13 ∷ 10 ∷ 13 ∷ 10 ∷ []

-- `l.strip_prefix("Content-Length:").or_else(|| l.strip_prefix("content-length:"))`
length_line : String → Option String
unfolding strip_prefix
length_line l = elim (strip_prefix "Content-Length:" l) [
  | some v ↦ some v
  | none ↦ strip_prefix "content-length:" l
]

-- `find_map` of it over the lines.
length_text : List String → Option String
unfolding length_line
length_text [] = none
length_text (l ∷ rest) = elim (length_line l) [ some v ↦ some v | none ↦ length_text rest ]

unfoldable pub content_length : String → ℕ
unfolding length_text trim parse lines
content_length headers = elim (length_text (lines headers)) [
  | some v ↦ (elim (parse u64_mod (trim v)) [ ok n ↦ n | err e ↦ 0 | panic ↦ 0 ])
  | none ↦ 0
]

-- `while buf.len() < need`
unfoldable pub read_body : ℕ → Bytes → List (Outcome String Bytes) → Outcome String Bytes
read_body need buf [] = ok buf
read_body need buf (err e ∷ reads) = if ltb (length buf) need then err e else ok buf
read_body need buf (panic ∷ reads) = if ltb (length buf) need then panic else ok buf
read_body need buf (ok [] ∷ reads) = ok buf
read_body need buf (ok (b ∷ chunk) ∷ reads) =
    let rest = read_body need (buf ++ (b ∷ chunk)) reads in
    if ltb (length buf) need then rest else ok buf

-- Once the end of the headers is found. The sum wraps around in a release build.
unfoldable pub read_rest : ℕ → Bytes → List (Outcome String Bytes) → Outcome String (Bytes × ℕ)
unfolding content_length read_body from_utf8_lossy
read_rest pos buf reads = do
  let len = content_length (from_utf8_lossy (take pos buf))
  all ← read_body ((pos + 4 + len) % u64_mod) buf reads
  ok (all, pos)

-- The outer loop, from a buffer on: what is read, and where the headers end.
unfoldable pub read_request : Bytes → List (Outcome String Bytes) → Outcome String (Bytes × ℕ)
unfolding find_subslice read_rest
read_request buf [] = ok (buf, length buf)
read_request buf (err e ∷ reads) = err e
read_request buf (panic ∷ reads) = panic
read_request buf (ok [] ∷ reads) = ok (buf, length buf)
read_request buf (ok (b ∷ chunk) ∷ reads) =
    let rest = read_request (buf ++ (b ∷ chunk)) reads in
    elim (find_subslice (buf ++ (b ∷ chunk)) header_end_mark) [
      | some pos ↦ read_rest pos (buf ++ (b ∷ chunk)) reads
      | none ↦ rest
    ]

pub record Request : Type 0 where
  pub method : String
  pub path : String
  pub body : String

unfoldable pub parse_request : Bytes → ℕ → Request
unfolding from_utf8_lossy lines split_whitespace
parse_request buf header_end =
    let request_line = next_or "" (lines (from_utf8_lossy (take header_end buf))) in
    let parts = split_whitespace request_line in
    record {
      method = next_or "" parts;
      path = next_or "/" (drop 1 parts);
      body = from_utf8_lossy (drop (min (header_end + 4) (length buf)) buf);
    }
