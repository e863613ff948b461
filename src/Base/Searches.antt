-- ===== src/Base/Searches.antt =====
-- What the searches in texts find.
use Prim.Native.Nat.{ℕ}
use Prim.Native.Char.{Char, code}
use Prim.Native.String.{String, ◌++◌ as ◌<>◌}
use mathlib.Core.Path.{◌≡◌, refl, sym, ap, ◌∙◌, subst}
use mathlib.Core.Logic.{◌≢◌, inl, inr}
use mathlib.Core.Option.{none, some, some-injective}
use text.Mathlib.TextEquality.{Char-path}
use text.Mathlib.TextLemmas.{nil-append, cons-append}
use pq_enclave_binding.Base.Tests.{◌==◌, ==_iff, Bool-cases, Option-cases}
use pq_enclave_binding.Base.Texts.{strip_prefix, after_first, before_char}

pub strip_prefix-eq-some : (p s : String) {r : String} → strip_prefix p s ≡ some r → s ≡ p <> r
unfolding strip_prefix
strip_prefix-eq-some String.[] s h = some-injective _ _ h ∙ sym (nil-append _)
strip_prefix-eq-some (String.◌∷◌ p ps) String.[] h = cc
strip_prefix-eq-some (String.◌∷◌ p ps) (String.◌∷◌ c s) {r} h =
    elim (Bool-cases (code p == code c)) [
      | inl same ↦
          let rest = strip_prefix-eq-some ps s (rw same at h) in
          rw (cons-append p ps r, rest, Char-path c p (sym ((==_iff _ _).0 same))) (refl)
      | inr other ↦ absurd (let bad = rw other at h in cc)
    ]

pub strip_prefix-append : (p r : String) → strip_prefix p (p <> r) ≡ some r
unfolding strip_prefix
strip_prefix-append String.[] r = rw (nil-append r)
strip_prefix-append (String.◌∷◌ p ps) r =
    rw (cons-append p ps r, (==_iff (code p) (code p)).1 refl) (strip_prefix-append ps r)

-- The key does not start within `pre` where `pre <> rest` is searched.
abbrev pub Fresh : String → String → String → Type 0
Fresh key String.[] rest = Unit
Fresh key (String.◌∷◌ c pre) rest =
    (strip_prefix key (String.◌∷◌ c (pre <> rest)) ≡ none) × Fresh key pre rest

pub after_first-eq-some :
    (key s : String) {rest : String}
    → after_first key s ≡ some rest
    → (pre : String) × (s ≡ pre <> (key <> rest)) × Fresh key pre (key <> rest)
unfolding after_first
after_first-eq-some key String.[] h = ("", strip_prefix-eq-some key "" h ∙ sym (nil-append _), tt)
after_first-eq-some key (String.◌∷◌ c s) {rest} h =
    elim (Option-cases (strip_prefix key (String.◌∷◌ c s))) [
      | inl miss ↦
          let (pre, e, fresh) = after_first-eq-some key s (rw (miss, after_first) at h) in
          (String.◌∷◌ c pre, rw (cons-append c pre (key <> rest), e), (rw (← e) miss, fresh))
      | inr (r, hit) ↦
          let same = some-injective _ _ (rw (hit, after_first) at h) in
          (
            "",
            strip_prefix-eq-some key (String.◌∷◌ c s) (hit ∙ ap some same) ∙ sym (nil-append _),
            tt,
          )
    ]

after_first_now :
    (key s : String) {rest : String}
    → strip_prefix key s ≡ some rest
    → after_first key s ≡ some rest
unfolding after_first
after_first_now key String.[] h = h
after_first_now key (String.◌∷◌ c s) h = rw (h, after_first)

pub after_first-append :
    (key pre rest : String)
    → Fresh key pre (key <> rest)
    → after_first key (pre <> (key <> rest)) ≡ some rest
unfolding after_first
after_first-append key String.[] rest fresh =
    rw (nil-append (key <> rest)) (after_first_now key (key <> rest) (strip_prefix-append key rest))
after_first-append key (String.◌∷◌ c pre) rest fresh =
    rw (cons-append c pre (key <> rest), fresh.0, after_first)
      (after_first-append key pre rest fresh.1)

-- No character of the text has that code.
abbrev pub Free : ℕ → String → Type 0
Free mark String.[] = Unit
Free mark (String.◌∷◌ c s) = (code c ≢ mark) × Free mark s

-- The text is cut at the first character of that code.
abbrev pub CutAt : ℕ → String → String → Type 0
CutAt mark s t =
    (c : Char) × (post : String) × (code c ≡ mark) × (s ≡ t <> (String.◌∷◌ c post)) × Free mark t

pub before_char-eq-some :
    (mark : ℕ) (s : String) {t : String} → before_char mark s ≡ some t → CutAt mark s t
unfolding before_char
before_char-eq-some mark String.[] h = cc
before_char-eq-some mark (String.◌∷◌ c s) {t} h = elim (Bool-cases (code c == mark)) [
  | inl hit ↦
      subst {A = String} (CutAt mark (String.◌∷◌ c s)) {x = ""} (some-injective _ _ (rw hit at h))
        (c, s, (==_iff _ _).0 hit, sym (nil-append _), tt)
  | inr miss ↦ elim (Option-cases (before_char mark s)) [
    | inl none_left ↦ absurd (let bad = rw (miss, none_left) at h in cc)
    | inr (u, found) ↦
        let (d, post, e, split, free) = before_char-eq-some mark s found in
        subst {A = String} (CutAt mark (String.◌∷◌ c s)) {x = String.◌∷◌ c u}
          (some-injective _ _ (rw (miss, found) at h))
          (
            d,
            post,
            e,
            rw (cons-append c u (String.◌∷◌ d post), split),
            (λ same. cc (miss, (==_iff (code c) mark).1 same), free),
          )
  ]
]

pub before_char-append :
    (mark : ℕ) (t : String) (c : Char) (post : String)
    → code c ≡ mark
    → Free mark t
    → before_char mark (t <> (String.◌∷◌ c post)) ≡ some t
unfolding before_char
before_char-append mark String.[] c post e free =
    rw (nil-append (String.◌∷◌ c post), (==_iff (code c) mark).1 e)
before_char-append mark (String.◌∷◌ d t) c post e free = elim (Bool-cases (code d == mark)) [
  | inl hit ↦ absurd (free.0 ((==_iff _ _).0 hit))
  | inr miss ↦
      rw (cons-append d t (String.◌∷◌ c post), miss, before_char-append mark t c post e free.1)
]
