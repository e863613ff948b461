-- ===== src/Cli/Steps/Unordered.antt =====
-- crates/pq-cli/src/main.rs: the verification instant depends on the anchors as a multiset, not on the
-- order in which the walk of the proof lists them.
use mathlib.Core.List.{Perm, foldr}
use mathlib.Core.List.Perm
use mathlib.Core.Option
use mathlib.Core.Quot.{lift, sound}
use mathlib.Mathlib.Data.Multiset.Defs.{Multiset, of_list}
use native.Mathlib.Nat.{ℕ_set}
use pq_enclave_binding.Base.{
  ℕ, ◌≡◌, refl, sym, ap, ◌∙◌, arith, min, Bool, true, false, not, List, [], ◌∷◌, Option, none, some,
  Outcome, ok, ◌>>=◌, ◌>>◌, map_err, expect, fail_if, ltb, if◌then◌else◌,
}
use pq_enclave_binding.Ots.{BitcoinHeaderSource, BitcoinAnchor}
use pq_enclave_binding.Cli.{Error, header_source_missing, block_time}
use pq_enclave_binding.Cli.Steps.{lower, earliest, choose_time, anchored_time, anchor_step, Timed}

-- The lesser of an anchor's height and of a height that was found.
abbrev pub lesser : BitcoinAnchor → Option ℕ → Option ℕ
lesser a none = some a.height
lesser a (some k) = some (min a.height k)

lesser_comm : (a b : BitcoinAnchor) (o : Option ℕ) → lesser a (lesser b o) ≡ lesser b (lesser a o)
lesser_comm a b none = ap some (omega arith)
lesser_comm a b (some k) = ap some (omega arith)

-- The least height of a multiset of anchors.
pub least_of : Multiset BitcoinAnchor → Option ℕ
least_of =
    lift (Option.is_set ℕ_set) (foldr lesser none)
      (λ xs ys p. Perm.foldr-eq (Option.is_set ℕ_set) lesser lesser_comm p none)

lower-lesser :
    (rest : List BitcoinAnchor) (a : BitcoinAnchor)
    → some ((lower a rest).height) ≡ lesser a (foldr lesser none rest)
unfolding lower
lower-lesser [] a = refl
lower-lesser (b ∷ rest) a =
    lower-lesser rest (if ltb b.height a.height then b else a)
    ∙ chosen (ltb b.height a.height) refl (foldr lesser none rest)
  where
    chosen :
        (t : Bool)
        → t ≡ ltb b.height a.height
        → (o : Option ℕ) → lesser (if t then b else a) o ≡ lesser a (lesser b o)
    chosen true e none = ap some (ground arith)
    chosen true e (some k) = ap some (ground arith)
    chosen false e none = ap some (ground arith)
    chosen false e (some k) = ap some (ground arith)

module _ (source : BitcoinHeaderSource) (source_given : Bool) (override : Option ℕ) (now : ℕ) where
  -- The step for anchors, given only their least height.
  abbrev pub timed_at : Option ℕ → Outcome Error Timed
  timed_at o = do
    fail_if (not source_given) header_source_missing
    height ← expect o
    bt ← map_err block_time (source.block_time height)
    t ← choose_time height bt override
    ok (false, t, some height)

  anchored_time-timed_at :
      (anchors : List BitcoinAnchor)
      → anchored_time source source_given override now anchors
        ≡ timed_at (foldr lesser none anchors)
  unfolding anchored_time earliest
  anchored_time-timed_at [] = refl
  anchored_time-timed_at (a ∷ rest) = ap timed_at (lower-lesser rest a)

  -- The step is a function of the multiset of the anchors.
  pub anchor_step-least_of :
      (anchors : List BitcoinAnchor)
      → anchor_step source source_given override now (ok anchors)
        ≡ timed_at (least_of (of_list anchors))
  unfolding anchor_step least_of
  anchor_step-least_of anchors = anchored_time-timed_at anchors

  -- Reordering the anchors changes neither the verification instant, nor the height that is reported,
  -- nor the error that is returned.
  pub anchor_step-Perm :
      (xs ys : List BitcoinAnchor)
      → Perm xs ys
      → anchor_step source source_given override now (ok xs)
        ≡ anchor_step source source_given override now (ok ys)
  anchor_step-Perm xs ys p =
      anchor_step-least_of xs
      ∙ ap (λ m. timed_at (least_of m)) (sound p)
      ∙ sym (anchor_step-least_of ys)
