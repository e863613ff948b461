-- ===== src/Base/Lines.antt =====
-- What the sources use of Rust's `str` on a request: lines, words, and repeated prefixes.
use Prim.Native.Nat.{ℕ, zero, suc}
use Prim.Native.Char.{code}
use Prim.Native.String.{String}
use mathlib.Core.Bool.{Bool, true, false}
use mathlib.Core.Option.{none, some}
use mathlib.Core.List.{List, [], ◌∷◌}
use pq_enclave_binding.Base.Tests.{◌==◌, if◌then◌else◌}
use pq_enclave_binding.Base.Texts.{strip_prefix, is_whitespace}

-- A line without the carriage return at its end.
strip_cr : String → String
strip_cr String.[] = ""
strip_cr (String.◌∷◌ c String.[]) = if code c == 13 then "" else String.◌∷◌ c ""
strip_cr (String.◌∷◌ c (String.◌∷◌ d s)) = String.◌∷◌ c (strip_cr (String.◌∷◌ d s))

-- The first line, whether a line feed ends it, and the lines behind.
abbrev Cut : Type 0
Cut = String × Bool × List String

collect : Cut → List String
unfolding strip_cr
collect (line, true, rest) = strip_cr line ∷ rest
collect (String.[], false, rest) = rest
collect (String.◌∷◌ c line, false, rest) = String.◌∷◌ c line ∷ rest

cut : String → Cut
unfolding collect
cut String.[] = ("", false, [])
cut (String.◌∷◌ c s) =
    let (line, ended, rest) = cut s in
    if code c == 10
    then ("", true, collect (line, ended, rest))
    else (String.◌∷◌ c line, ended, rest)

-- `str::lines`
unfoldable pub lines : String → List String
unfolding cut collect
lines s = collect (cut s)

add_word : String → List String → List String
add_word String.[] rest = rest
add_word (String.◌∷◌ c word) rest = String.◌∷◌ c word ∷ rest

word_cut : String → String × List String
unfolding is_whitespace add_word
word_cut String.[] = ("", [])
word_cut (String.◌∷◌ c s) =
    let (word, rest) = word_cut s in
    if is_whitespace c then ("", add_word word rest) else (String.◌∷◌ c word, rest)

-- `str::split_whitespace`
unfoldable pub split_whitespace : String → List String
unfolding word_cut add_word
split_whitespace s = let (word, rest) = word_cut s in add_word word rest

abbrev size : String → ℕ
size String.[] = 0
size (String.◌∷◌ c s) = suc (size s)

-- Takes prefixes off, behind so many characters of one that is being taken off.
trim_from : String → ℕ → String → String
unfolding strip_prefix
trim_from key n String.[] = ""
trim_from key (suc n) (String.◌∷◌ c s) = trim_from key n s
trim_from key zero (String.◌∷◌ c s) = elim (strip_prefix key (String.◌∷◌ c s)) [
  | some rest ↦ trim_from key (pred (size key)) s
  | none ↦ String.◌∷◌ c s
]
  where
    pred : ℕ → ℕ
    pred zero = 0
    pred (suc n) = n

-- `str::trim_start_matches`, of a text that is not empty.
unfoldable pub trim_start_matches : String → String → String
unfolding trim_from
trim_start_matches key s = trim_from key 0 s

-- `iter.next().unwrap_or(d)`
abbrev pub next_or {ℓ} : {A : Type ℓ} → A → List A → A
next_or d [] = d
next_or d (x ∷ xs) = x
