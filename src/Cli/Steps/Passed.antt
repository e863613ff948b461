-- ===== src/Cli/Steps/Passed.antt =====
-- crates/pq-cli/src/main.rs: when `verify_bundle_steps` succeeds, anchored or pending.
use pq_enclave_binding.Base.{
  ℕ, ◌+◌, ◌≤◌, ◌≡◌, ◌↔◌, refl, ap, ◌∙◌, subst, arith, Bool, true, false, not, List, Option, none,
  some, Outcome, ok, err, panic, >>=-eq-ok, ok-injective, map_err, map_err-eq-ok, fail_if,
  fail_unless-eq-ok, expect, expect-eq-ok, Bool-cases, inl, inr,
}
use pq_enclave_binding.Ots.{
  OtsError, codec, digest_mismatch, merkle_root_mismatch, not_anchored, header_source, calendar,
  BitcoinHeaderSource, BitcoinAnchor,
}
use pq_enclave_binding.Cli.{Error, block_time, header_source_missing}
use pq_enclave_binding.Cli.Steps.{
  earliest, choose_time, override_tolerance_secs, Timed, anchored_time, anchor_step,
}
use pq_enclave_binding.Cli.Steps.Earliest.{Earliest, earliest-Earliest, Earliest-earliest}

-- An override, if one is given, is at most two hours off.
abbrev pub Tolerates : ℕ → Option ℕ → Type 0
Tolerates t none = Unit
Tolerates t (some ov) = (t ≤ ov + override_tolerance_secs) × (ov ≤ t + override_tolerance_secs)

-- The instant is the block's time, or the override where the source has no time.
abbrev pub Chosen : Option ℕ → Option ℕ → ℕ → Type 0
Chosen (some bt) override t = (bt ≡ t) × Tolerates t override
Chosen none override t = override ≡ some t

choose_time_iff :
    (height : ℕ) (bt override : Option ℕ) (t : ℕ)
    → (choose_time height bt override ≡ ok t) ↔ Chosen bt override t
unfolding choose_time
choose_time_iff height (some bt) (some ov) t = (λ h. ground arith, λ h. ground arith)
choose_time_iff height (some bt) none t = (λ h. ground arith, λ h. ground arith)
choose_time_iff height none (some ov) t = (λ h. ground arith, λ h. ground arith)
choose_time_iff height none none t = (λ h. ground arith, λ h. ground arith)

module _ (source : BitcoinHeaderSource) (source_given : Bool) (override : Option ℕ) (now : ℕ) where
  -- The instant of an anchored proof: the time of its earliest block.
  pub record IsInstant (anchors : List BitcoinAnchor) (t height : ℕ) : Type 0 where
    pub given : source_given ≡ true
    pub first : Earliest height anchors
    pub answer : Option ℕ
    pub answered : source.block_time height ≡ ok answer
    pub chosen : Chosen answer override t

  anchored_time-eq-ok :
      (anchors : List BitcoinAnchor) (x : Timed)
      → anchored_time source source_given override now anchors ≡ ok x
      → (t : ℕ) × (height : ℕ) × ((false, t, some height) ≡ x) × IsInstant anchors t height
  unfolding anchored_time
  anchored_time-eq-ok anchors x h =
      let (_, e₁, h₁) = >>=-eq-ok (fail_if (not source_given) header_source_missing) _ h in
      let (e, e₂, h₂) = >>=-eq-ok (expect (earliest anchors)) _ h₁ in
      let (bt, e₃, h₃) = >>=-eq-ok (map_err block_time (source.block_time e.height)) _ h₂ in
      let (t, e₄, h₄) = >>=-eq-ok (choose_time e.height bt override) _ h₃ in
      (
        t,
        e.height,
        ok-injective Error h₄,
        record {
          given = fail_unless-eq-ok source_given header_source_missing e₁;
          first = earliest-Earliest anchors e (expect-eq-ok (earliest anchors) e₂);
          answer = bt;
          answered = map_err-eq-ok block_time (source.block_time e.height) e₃;
          chosen = (choose_time_iff e.height bt override t).0 e₄;
        },
      )

  anchored_time-IsInstant :
      (anchors : List BitcoinAnchor) (t height : ℕ)
      → IsInstant anchors t height
      → anchored_time source source_given override now anchors ≡ ok (false, t, some height)
  unfolding anchored_time
  anchored_time-IsInstant anchors t height i =
      let (e, found, at) = Earliest-earliest height anchors i.first in
      let timed = (choose_time_iff e.height i.answer override t).1 i.chosen in
      let answered : source.block_time e.height ≡ ok i.answer =
        ap source.block_time at ∙ i.answered in
      rw (i.given, found, answered, timed, at)

  -- Anchored, or pending.
  abbrev pub TimedBy : Outcome OtsError (List BitcoinAnchor) → Timed → Type 0
  TimedBy result (false, t, height) =
      (anchors : List BitcoinAnchor) × (first : ℕ) × (result ≡ ok anchors)
      × (height ≡ some first)
      × IsInstant anchors t first
  TimedBy result (true, t, height) = (result ≡ err not_anchored) × (t ≡ now) × (height ≡ none)

  pub anchor_step-eq-ok :
      (result : Outcome OtsError (List BitcoinAnchor)) (x : Timed)
      → anchor_step source source_given override now result ≡ ok x
      → TimedBy result x
  unfolding anchor_step
  anchor_step-eq-ok (ok anchors) x h =
      let (t, height, same, i) = anchored_time-eq-ok anchors x h in
      subst {A = Timed} (TimedBy (ok anchors)) same (anchors, height, refl, refl, i)
  anchor_step-eq-ok (err not_anchored) x h =
      subst {A = Timed} (TimedBy (err not_anchored)) (ok-injective Error h) (refl, refl, refl)
  anchor_step-eq-ok (err (header_source e)) x h = elim (Bool-cases source_given) [
    | inl yes_given ↦ absurd (let bad = rw yes_given at h in cc)
    | inr no_given ↦ absurd (let bad = rw no_given at h in cc)
  ]
  anchor_step-eq-ok (err (codec e)) x h = absurd (cc h)
  anchor_step-eq-ok (err (digest_mismatch a b)) x h = absurd (cc h)
  anchor_step-eq-ok (err (merkle_root_mismatch n a b)) x h = absurd (cc h)
  anchor_step-eq-ok (err (calendar e)) x h = absurd (cc h)
  anchor_step-eq-ok panic x h = absurd (cc h)

  pub anchor_step-TimedBy :
      (result : Outcome OtsError (List BitcoinAnchor)) (x : Timed)
      → TimedBy result x
      → anchor_step source source_given override now result ≡ ok x
  unfolding anchor_step
  anchor_step-TimedBy result (false, t, height) (anchors, first, e, at, i) =
      rw (e, at) (anchored_time-IsInstant anchors t first i)
  anchor_step-TimedBy result (true, t, height) (e, now_is, at) = rw (e, now_is, at)
