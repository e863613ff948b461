-- ===== src/Base/Texts.antt =====
-- What the sources use of Rust's `str`: equality, prefixes, trimming, searching, and `parse` of an
-- unsigned number. A slice behind a position found by `find` is the text behind it.
use Prim.Native.Nat.{ℕ, ◌+◌, ◌*◌, ◌-◌, ◌<◌}
use Prim.Native.Char.{Char, code}
use Prim.Native.String.{String}
use mathlib.Core.Path.{◌≡◌}
use mathlib.Core.Logic.{inl, inr}
use mathlib.Core.Bool.{Bool, ◌&&◌, ◌||◌}
use mathlib.Core.Option.{Option, none, some}
use native.Mathlib.Omega.{arith}
use pq_enclave_binding.Base.Tests.{◌==◌, if◌then◌else◌, ltb, leb, Bool-cases}
use pq_enclave_binding.Base.Panics.{NoPanic, ok-NoPanic, err-NoPanic, if-NoPanic}
use pq_enclave_binding.Base.Calls.{Outcome, ok, err}

-- `str::strip_prefix`
unfoldable pub strip_prefix : String → String → Option String
strip_prefix String.[] s = some s
strip_prefix (String.◌∷◌ p ps) String.[] = none
strip_prefix (String.◌∷◌ p ps) (String.◌∷◌ c s) =
    if code p == code c then strip_prefix ps s else none

-- What stands behind the first occurrence of a text: `&s[s.find(key)? + key.len()..]`.
unfoldable pub after_first : String → String → Option String
unfolding strip_prefix
after_first key String.[] = strip_prefix key String.[]
after_first key (String.◌∷◌ c s) = elim (strip_prefix key (String.◌∷◌ c s)) [
  | some rest ↦ some rest
  | none ↦ after_first key s
]

-- What stands before the first character with a code: `&s[..s.find(c)?]`.
unfoldable pub before_char : ℕ → String → Option String
before_char mark String.[] = none
before_char mark (String.◌∷◌ c s) =
    if code c == mark
    then some ""
    else (elim (before_char mark s) [ some t ↦ some (String.◌∷◌ c t) | none ↦ none ])

abbrev pub is_ascii_digit : Char → Bool
is_ascii_digit c = leb b'0' (code c) && leb (code c) b'9'

-- The longest prefix of digits.
unfoldable pub digit_prefix : String → String
digit_prefix String.[] = ""
digit_prefix (String.◌∷◌ c s) = if is_ascii_digit c then String.◌∷◌ c (digit_prefix s) else ""

-- `char::is_whitespace`
unfoldable pub is_whitespace : Char → Bool
is_whitespace c =
    let n = code c in
    (leb 9 n && leb n 13)
    || (n == 32
        || (n == 0x85
            || (n == 0xA0
                || (n == 0x1680
                    || ((leb 0x2000 n && leb n 0x200A)
                        || (n == 0x2028
                            || (n == 0x2029 || (n == 0x202F || (n == 0x205F || n == 0x3000)))))))))

unfoldable pub trim_start : String → String
unfolding is_whitespace
trim_start String.[] = ""
trim_start (String.◌∷◌ c s) = if is_whitespace c then trim_start s else String.◌∷◌ c s

abbrev keep_before : Char → String → String
keep_before c String.[] = ""
keep_before c (String.◌∷◌ d s) = String.◌∷◌ c (String.◌∷◌ d s)

unfoldable pub trim_end : String → String
unfolding is_whitespace
trim_end String.[] = ""
trim_end (String.◌∷◌ c s) =
    let rest = trim_end s in if is_whitespace c then keep_before c rest else String.◌∷◌ c rest

unfoldable pub trim : String → String
unfolding trim_start trim_end
trim s = trim_start (trim_end s)

-- `parse` of an unsigned type with `bound` values: decimal digits, after an optional `+`.
parse_digits : ℕ → ℕ → String → Outcome String ℕ
parse_digits bound acc String.[] = ok acc
parse_digits bound acc (String.◌∷◌ c s) =
    let rest = parse_digits bound (acc * 10 + (code c - b'0')) s in
    if is_ascii_digit c
    then (if ltb (acc * 10 + (code c - b'0')) bound
        then rest
        else err "number too large to fit in target type")
    else err "invalid digit found in string"

unfoldable pub parse : ℕ → String → Outcome String ℕ
unfolding parse_digits
parse bound String.[] = err "cannot parse integer from empty string"
parse bound (String.◌∷◌ c String.[]) = parse_digits bound 0 (String.◌∷◌ c "")
parse bound (String.◌∷◌ c (String.◌∷◌ d s)) =
    if code c == b'+'
    then parse_digits bound 0 (String.◌∷◌ d s)
    else parse_digits bound 0 (String.◌∷◌ c (String.◌∷◌ d s))

parse_digits-NoPanic : (bound acc : ℕ) (s : String) → NoPanic (parse_digits bound acc s)
unfolding parse_digits
parse_digits-NoPanic bound acc String.[] = ok-NoPanic acc
parse_digits-NoPanic bound acc (String.◌∷◌ c s) =
    if-NoPanic (is_ascii_digit c) _ _
      (if-NoPanic (ltb (acc * 10 + (code c - b'0')) bound) _ _
        (parse_digits-NoPanic bound (acc * 10 + (code c - b'0')) s) (err-NoPanic _))
      (err-NoPanic _)

pub parse-NoPanic : (bound : ℕ) (s : String) → NoPanic (parse bound s)
unfolding parse
parse-NoPanic bound String.[] = err-NoPanic _
parse-NoPanic bound (String.◌∷◌ c String.[]) = parse_digits-NoPanic bound 0 (String.◌∷◌ c "")
parse-NoPanic bound (String.◌∷◌ c (String.◌∷◌ d s)) =
    if-NoPanic (code c == b'+') _ _ (parse_digits-NoPanic bound 0 (String.◌∷◌ d s))
      (parse_digits-NoPanic bound 0 (String.◌∷◌ c (String.◌∷◌ d s)))

parse_digits_bound :
    (bound acc : ℕ) (s : String) {n : ℕ} → acc < bound → parse_digits bound acc s ≡ ok n → n < bound
unfolding parse_digits
parse_digits_bound bound acc String.[] small h = ground arith
parse_digits_bound bound acc (String.◌∷◌ c s) {n} small h =
    ground (arith, parse_digits_bound bound (acc * 10 + (code c - b'0')) s {n = n})

-- A parsed number is in the type's range.
pub parse_bound : (bound : ℕ) (s : String) {n : ℕ} → 0 < bound → parse bound s ≡ ok n → n < bound
unfolding parse
parse_bound bound String.[] pos h = cc
parse_bound bound (String.◌∷◌ c String.[]) pos h =
    parse_digits_bound bound 0 (String.◌∷◌ c "") pos h
parse_bound bound (String.◌∷◌ c (String.◌∷◌ d s)) pos h = elim (Bool-cases (code c == b'+')) [
  | inl plus ↦ parse_digits_bound bound 0 (String.◌∷◌ d s) pos (rw plus at h)
  | inr other ↦ parse_digits_bound bound 0 (String.◌∷◌ c (String.◌∷◌ d s)) pos (rw other at h)
]
