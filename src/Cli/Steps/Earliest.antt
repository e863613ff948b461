-- ===== src/Cli/Steps/Earliest.antt =====
-- crates/pq-cli/src/main.rs: the earliest of the anchors, by which the verification instant is chosen.
use pq_enclave_binding.Base.{
  ℕ, zero, suc, ◌≤◌, ◌≡◌, refl, subst, arith, Bool, true, false, List, [], ◌∷◌, some, ltb,
  if◌then◌else◌, get_elem?, get_elem?-All, some-injective, All,
}
use pq_enclave_binding.Ots.{BitcoinAnchor}
use pq_enclave_binding.Cli.Steps.{lower, earliest}

-- The least height of the anchors, and an anchor that has it.
pub record Earliest (height : ℕ) (anchors : List BitcoinAnchor) : Type 0 where
  pub position : ℕ
  pub anchor : BitcoinAnchor
  pub found : get_elem? anchors position ≡ some anchor
  pub at_height : anchor.height ≡ height
  pub least : All (λ (a : BitcoinAnchor). height ≤ a.height) anchors

lower-le :
    (a : BitcoinAnchor) (rest : List BitcoinAnchor)
    → ((lower a rest).height ≤ a.height)
      × All (λ (b : BitcoinAnchor). (lower a rest).height ≤ b.height) rest
unfolding lower
lower-le a [] = (omega arith, tt)
lower-le a (b ∷ rest) =
    let (here, others) = lower-le (if ltb b.height a.height then b else a) rest in
    let (left, right) = chosen (ltb b.height a.height) refl in
    (omega (arith, here, left), (omega (arith, here, right), others))
  where
    chosen :
        (t : Bool)
        → t ≡ ltb b.height a.height
        → ((if t then b else a).height ≤ a.height) × ((if t then b else a).height ≤ b.height)
    chosen true e = ground arith
    chosen false e = ground arith

-- The chosen one of the first two stands among them.
place :
    (t : Bool) (a b : BitcoinAnchor) (rest : List BitcoinAnchor) (i : ℕ) {x : BitcoinAnchor}
    → get_elem? ((if t then b else a) ∷ rest) i ≡ some x
    → (j : ℕ) × (get_elem? (a ∷ b ∷ rest) j ≡ some x)
place true a b rest zero h = (1, h)
place false a b rest zero h = (0, h)
place t a b rest (suc i) h = (suc (suc i), h)

lower-found :
    (a : BitcoinAnchor) (rest : List BitcoinAnchor)
    → (i : ℕ) × (get_elem? (a ∷ rest) i ≡ some (lower a rest))
unfolding lower
lower-found a [] = (0, refl)
lower-found a (b ∷ rest) =
    let test = ltb b.height a.height in
    let (i, found) = lower-found (if test then b else a) rest in place test a b rest i found

pub earliest-Earliest :
    (anchors : List BitcoinAnchor) (e : BitcoinAnchor)
    → earliest anchors ≡ some e
    → Earliest e.height anchors
unfolding earliest
earliest-Earliest [] e h = cc
earliest-Earliest (a ∷ rest) e h =
    subst {A = BitcoinAnchor} (λ x. Earliest x.height (a ∷ rest)) (some-injective _ _ h)
      (record {
        position = (lower-found a rest).0;
        anchor = lower a rest;
        found = (lower-found a rest).1;
        at_height = refl;
        least = lower-le a rest;
      })

-- The height is determined: `earliest` finds an anchor of it.
pub Earliest-earliest :
    (height : ℕ) (anchors : List BitcoinAnchor)
    → Earliest height anchors
    → (e : BitcoinAnchor) × (earliest anchors ≡ some e) × (e.height ≡ height)
unfolding earliest
Earliest-earliest height [] h = absurd (cc h.found)
Earliest-earliest height (a ∷ rest) h =
    let own = earliest-Earliest (a ∷ rest) (lower a rest) refl in
    let above =
      get_elem?-All (λ (b : BitcoinAnchor). height ≤ b.height) (a ∷ rest) own.position h.least
        own.found in
    let below =
      get_elem?-All (λ (b : BitcoinAnchor). (lower a rest).height ≤ b.height) (a ∷ rest) h.position
        own.least h.found in
    (lower a rest, refl, omega (arith, above, below, own.at_height, h.at_height))
