-- ===== src/Base/Encodings.antt =====
-- Byte strings as lists of numbers, their equality test, and the big-endian words of the encodings.
use Prim.Native.Nat.{ℕ, zero, suc, ◌+◌, ◌/◌, ◌%◌, ◌^◌, ◌<◌}
use Prim.Native.Char.{code}
use Prim.Native.String.{String, ◌++◌ as ◌<>◌}
use mathlib.Core.Path.{◌≡◌, refl}
use mathlib.Core.Logic.{◌↔◌}
use mathlib.Core.Bool.{Bool, true, false, ◌&&◌}
use mathlib.Core.List.{List, [], ◌∷◌, ◌++◌}
use native.Mathlib.Omega.{arith}
use pq_enclave_binding.Base.Tests.{◌==◌, if◌then◌else◌, ltb, lt→ltb}
use pq_enclave_binding.Base.Lists.{length, append_split}
use pq_enclave_binding.Base.Calls.{Outcome, ok, panic}

abbrev pub Bytes : Type 0
Bytes = List ℕ

abbrev pub IsByte : ℕ → Type 0
IsByte b = b < 256

abbrev pub u32_mod : ℕ
u32_mod = 2 ^ 32

abbrev pub u64_mod : ℕ
u64_mod = 2 ^ 64

-- `==` of byte slices, vectors and arrays.
unfoldable pub bytes_eq : Bytes → Bytes → Bool
bytes_eq [] [] = true
bytes_eq [] (y ∷ ys) = false
bytes_eq (x ∷ xs) [] = false
bytes_eq (x ∷ xs) (y ∷ ys) = (x == y) && bytes_eq xs ys

pub bytes_eq→eq : (xs ys : Bytes) → bytes_eq xs ys ≡ true → xs ≡ ys
unfolding bytes_eq
bytes_eq→eq [] [] h = refl
bytes_eq→eq [] (y ∷ ys) h = cc
bytes_eq→eq (x ∷ xs) [] h = cc
bytes_eq→eq (x ∷ xs) (y ∷ ys) h = ground (arith, bytes_eq→eq xs ys)

pub bytes_eq_refl : (xs : Bytes) → bytes_eq xs xs ≡ true
unfolding bytes_eq
bytes_eq_refl [] = refl
bytes_eq_refl (x ∷ xs) = ground (arith, bytes_eq_refl xs)

pub bytes_eq_iff : (xs ys : Bytes) → (bytes_eq xs ys ≡ true) ↔ (xs ≡ ys)
bytes_eq_iff xs ys = (bytes_eq→eq xs ys, λ e. rw e (bytes_eq_refl ys))

-- `u32::to_be_bytes` and `u64::to_be_bytes`.
unfoldable pub be32 : ℕ → Bytes
be32 n = n / 2 ^ 24 % 256 ∷ n / 2 ^ 16 % 256 ∷ n / 2 ^ 8 % 256 ∷ n % 256 ∷ []

unfoldable pub be64 : ℕ → Bytes
unfolding be32
be64 n = be32 (n / 2 ^ 32 % 2 ^ 32) ++ be32 (n % 2 ^ 32)

pub length-be32 : (n : ℕ) → length (be32 n) ≡ 4
unfolding be32
length-be32 n = refl

pub length-be64 : (n : ℕ) → length (be64 n) ≡ 8
unfolding be64
length-be64 n = refl

word_eq :
    (n m : ℕ)
    → n < 2 ^ 32
    → m < 2 ^ 32
    → n / 2 ^ 24 % 256 ≡ m / 2 ^ 24 % 256
    → n / 2 ^ 16 % 256 ≡ m / 2 ^ 16 % 256
    → n / 2 ^ 8 % 256 ≡ m / 2 ^ 8 % 256
    → n % 256 ≡ m % 256
    → n ≡ m
word_eq n m hn hm a b c d = omega arith

pub be32-injective : (n m : ℕ) → n < u32_mod → m < u32_mod → be32 n ≡ be32 m → n ≡ m
unfolding be32
be32-injective n m hn hm e = word_eq n m hn hm (cc) (cc) (cc) (cc)

halves_eq :
    (n m : ℕ)
    → n < 2 ^ 64
    → m < 2 ^ 64
    → n / 2 ^ 32 % 2 ^ 32 ≡ m / 2 ^ 32 % 2 ^ 32
    → n % 2 ^ 32 ≡ m % 2 ^ 32
    → n ≡ m
halves_eq n m hn hm a b = omega arith

pub be64-injective : (n m : ℕ) → n < u64_mod → m < u64_mod → be64 n ≡ be64 m → n ≡ m
be64-injective n m hn hm e =
    let (hi, lo) = split in
    halves_eq n m hn hm (be32-injective _ _ (omega arith) (omega arith) hi)
      (be32-injective _ _ (omega arith) (omega arith) lo)
  where
    joined :
        be32 (n / 2 ^ 32 % 2 ^ 32) ++ be32 (n % 2 ^ 32)
        ≡ be32 (m / 2 ^ 32 % 2 ^ 32) ++ be32 (m % 2 ^ 32)
    joined = unfold be64 in e

    split :
        (be32 (n / 2 ^ 32 % 2 ^ 32) ≡ be32 (m / 2 ^ 32 % 2 ^ 32))
        × (be32 (n % 2 ^ 32) ≡ be32 (m % 2 ^ 32))
    split =
        append_split _ _
          (omega (arith, length-be32 (n / 2 ^ 32 % 2 ^ 32), length-be32 (m / 2 ^ 32 % 2 ^ 32)))
          joined

-- `u32::try_from(len).expect(…)`: a length that does not fit panics.
unfoldable pub u32_len {ℓ} : {E : Type ℓ} → Bytes → Outcome E ℕ
u32_len b = if ltb (length b) u32_mod then ok (length b) else panic

pub u32_len_lem {ℓ} :
    {E : Type ℓ} (b : Bytes) → length b < u32_mod → u32_len {E = E} b ≡ ok (length b)
unfolding u32_len
u32_len_lem b h = rw (lt→ltb _ _ h)

-- `str::as_bytes`: the UTF-8 form of a text.
unfoldable pub utf8 : ℕ → Bytes
utf8 c =
    if ltb c 0x80
    then c ∷ []
    else (if ltb c 0x800
        then (0xc0 + c / 2 ^ 6) ∷ (0x80 + c % 2 ^ 6) ∷ []
        else (if ltb c 0x10000
            then (0xe0 + c / 2 ^ 12) ∷ (0x80 + c / 2 ^ 6 % 2 ^ 6) ∷ (0x80 + c % 2 ^ 6) ∷ []
            else (0xf0 + c / 2 ^ 18)
              ∷ (0x80 + c / 2 ^ 12 % 2 ^ 6)
              ∷ (0x80 + c / 2 ^ 6 % 2 ^ 6)
              ∷ (0x80 + c % 2 ^ 6)
              ∷ []))

unfoldable pub as_bytes : String → Bytes
unfolding utf8
as_bytes String.[] = []
as_bytes (String.◌∷◌ c s) = utf8 (code c) ++ as_bytes s

-- A word in front, and a text behind its length, can be taken off again.
pub be32_split :
    (n m : ℕ) {x y : Bytes}
    → n < u32_mod
    → m < u32_mod
    → be32 n ++ x ≡ be32 m ++ y
    → (n ≡ m) × (x ≡ y)
be32_split n m hn hm e =
    let (word, rest) =
      append_split (be32 n) (be32 m) (omega (arith, length-be32 n, length-be32 m)) e in
    (be32-injective n m hn hm word, rest)

pub be64_split :
    (n m : ℕ) {x y : Bytes}
    → n < u64_mod
    → m < u64_mod
    → be64 n ++ x ≡ be64 m ++ y
    → (n ≡ m) × (x ≡ y)
be64_split n m hn hm e =
    let (word, rest) =
      append_split (be64 n) (be64 m) (omega (arith, length-be64 n, length-be64 m)) e in
    (be64-injective n m hn hm word, rest)

pub prefixed_split :
    (a b : Bytes) {x y : Bytes}
    → length a < u32_mod
    → length b < u32_mod
    → be32 (length a) ++ (a ++ x) ≡ be32 (length b) ++ (b ++ y)
    → (a ≡ b) × (x ≡ y)
prefixed_split a b ha hb e =
    let (same, rest) = be32_split (length a) (length b) ha hb e in append_split a b same rest

pub u32_len-eq-ok {ℓ} :
    (E : Type ℓ) (b : Bytes) {n : ℕ} → u32_len {E = E} b ≡ ok n → length b < u32_mod
unfolding u32_len
u32_len-eq-ok E b h = ground arith

-- How a number is displayed: `display_digits` writes its decimal digits before `rest`. A number
-- is divided by ten in each round, so its successor is fuel enough.
abbrev digit : ℕ → String
digit d =
    if d == 0
    then "0"
    else (if d == 1
        then "1"
        else (if d == 2
            then "2"
            else (if d == 3
                then "3"
                else (if d == 4
                    then "4"
                    else (if d == 5
                        then "5"
                        else (if d == 6
                            then "6"
                            else (if d == 7 then "7" else (if d == 8 then "8" else "9"))))))))

display_digits : ℕ → ℕ → String → String
display_digits zero n rest = rest
display_digits (suc fuel) n rest =
    let more = display_digits fuel (n / 10) (digit (n % 10) <> rest) in
    if ltb n 10 then digit n <> rest else more

unfoldable pub display : ℕ → String
unfolding display_digits
display n = display_digits (suc n) n ""
