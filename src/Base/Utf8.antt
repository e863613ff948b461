-- ===== src/Base/Utf8.antt =====
-- `String::from_utf8_lossy`: each longest part that starts a character but does not finish it, and
-- each byte that starts none, is read as U+FFFD.
use Prim.Native.Nat.{ℕ, Ordering, compare, ◌+◌, ◌*◌, ◌-◌}
use Prim.Native.Char.{Char, char, IsLt}
use Prim.Native.String.{String, ◌++◌ as ◌<>◌}
use mathlib.Core.Bool.{◌&&◌}
use mathlib.Core.Option.{Option, none, some}
use mathlib.Core.List.{[], ◌∷◌}
use pq_enclave_binding.Base.Tests.{◌==◌, if◌then◌else◌, ltb, leb}
use pq_enclave_binding.Base.Encodings.{Bytes}

-- `IsScalar n` is `Scalar` of three comparisons.
abbrev Both : Ordering → Ordering → Type 0
Both Ordering.lt o = IsLt o
Both Ordering.eq _ = ⊥
Both Ordering.gt _ = ⊥

abbrev Scalar : Ordering → Ordering → Ordering → Type 0
Scalar Ordering.lt _ _ = Unit
Scalar Ordering.eq o p = Both o p
Scalar Ordering.gt o p = Both o p

abbrev is_both : (o p : Ordering) → Option (Both o p)
is_both Ordering.lt Ordering.lt = some tt
is_both Ordering.lt Ordering.eq = none
is_both Ordering.lt Ordering.gt = none
is_both Ordering.eq p = none
is_both Ordering.gt p = none

abbrev is_scalar : (o p q : Ordering) → Option (Scalar o p q)
is_scalar Ordering.lt p q = some tt
is_scalar Ordering.eq p q = is_both p q
is_scalar Ordering.gt p q = is_both p q

-- `char::from_u32`
abbrev pub from_u32 : ℕ → Option Char
from_u32 n = elim (is_scalar (compare n 55296) (compare 57343 n) (compare n 1114112)) [
  | some p ↦ some (char n p)
  | none ↦ none
]

abbrev pub replacement : String
replacement = String.◌∷◌ (char 0xFFFD tt) ""

abbrev emit : ℕ → String
emit n = elim (from_u32 n) [ some c ↦ String.◌∷◌ c "" | none ↦ replacement ]

-- A character that has been started: the bytes that it still needs, the range of the next one, and
-- the number so far.
pub data Pending : Type 0 where
  idle : Pending
  more : ℕ → ℕ → ℕ → ℕ → Pending

begin : ℕ → String × Pending
begin b =
    if ltb b 0x80
    then (emit b, idle)
    else (if ltb b 0xC2
        then (replacement, idle)
        else (if ltb b 0xE0
            then ("", more 1 0x80 0xBF (b - 0xC0))
            else (if ltb b 0xF0
                then (
                  "",
                  more 2 (if b == 0xE0 then 0xA0 else 0x80) (if b == 0xED then 0x9F else 0xBF)
                      (b - 0xE0),
                )
                else (if ltb b 0xF5
                    then (
                      "",
                      more 3 (if b == 0xF0 then 0x90 else 0x80) (if b == 0xF4 then 0x8F else 0xBF)
                          (b - 0xF0),
                    )
                    else (replacement, idle)))))

after : ℕ → ℕ → String × Pending
after need acc = if need == 1 then (emit acc, idle) else ("", more (need - 1) 0x80 0xBF acc)

next : Pending → ℕ → String × Pending
unfolding begin after
next idle b = begin b
next (more need lo hi acc) b =
    if leb lo b && leb b hi
    then after need (acc * 64 + (b - 0x80))
    else (replacement <> (begin b).0, (begin b).1)

decode_from : Pending → Bytes → String
unfolding next
decode_from idle [] = ""
decode_from (more need lo hi acc) [] = replacement
decode_from p (b ∷ bytes) = let (text, p') = next p b in text <> decode_from p' bytes

unfoldable pub from_utf8_lossy : Bytes → String
unfolding decode_from
from_utf8_lossy bytes = decode_from idle bytes
