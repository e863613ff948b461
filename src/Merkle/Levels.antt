-- ===== src/Merkle/Levels.antt =====
-- crates/pq-merkle/src/lib.rs: one round of the tree loops, and the rounds until one node is left.
use pq_enclave_binding.Base.{
  ℕ, zero, suc, ◌+◌, ◌/◌, ◌%◌, ◌≤◌, ◌≡◌, refl, ◌∙◌, arith, List, [], ◌∷◌, Bytes, length, get_elem?,
  ◌==◌, if◌then◌else◌, some, ok, Bool-cases, inl, inr, ◌-◌, false,
}
use pq_enclave_binding.External.{Sha256}
use pq_enclave_binding.Merkle.{hash_node, next_level, reduce, sibling_of}

half_shift : (n : ℕ) → suc (suc n) / 2 ≡ suc (n / 2)
half_shift n = omega arith

parity_shift : (n : ℕ) → suc (suc n) % 2 ≡ n % 2
parity_shift n = omega arith

odd_pos : (n : ℕ) → (n % 2 == 0) ≡ false → suc (suc n) - 1 ≡ suc (suc (n - 1))
odd_pos n h = ground arith

sibling_of-shift {ℓ} :
    (E : Type ℓ) (y z : Bytes) (rest : List Bytes) (idx : ℕ)
    → sibling_of {E = E} (y ∷ z ∷ rest) (suc (suc idx)) ≡ sibling_of rest idx
unfolding sibling_of
sibling_of-shift E y z rest idx = elim (Bool-cases (idx % 2 == 0)) [
  | inl even ↦ rw (parity_shift, even, after)
  | inr odd ↦ rw (parity_shift, odd, odd_pos idx odd)
]
  where
    after : suc (suc idx) + 1 ≡ suc (suc (idx + 1))
    after = omega arith

module _ (sha : Sha256) where
  pub length-next_level : (xs : List Bytes) → length (next_level sha xs) ≡ (length xs + 1) / 2
  unfolding next_level
  length-next_level [] = omega arith
  length-next_level (x ∷ []) = omega arith
  length-next_level (x ∷ y ∷ rest) = omega (arith, length-next_level rest)

  -- A loop that is given enough rounds ends with one node.
  pub length-reduce :
      (fuel : ℕ) (xs : List Bytes)
      → 1 ≤ length xs
      → length xs ≤ fuel + 1
      → length (reduce sha fuel xs) ≡ 1
  unfolding reduce
  length-reduce zero xs pos enough = omega arith
  length-reduce (suc fuel) xs pos enough =
      ground (arith, length-next_level xs, length-reduce fuel (next_level sha xs))

  abbrev pub parent : ℕ → Bytes → Bytes → Bytes
  parent idx own sibling =
      if idx % 2 == 0 then hash_node sha own sibling else hash_node sha sibling own

  -- `sibling_of` reads what the next level pairs the node with.
  pub get_elem?-next_level {ℓ} :
      (E : Type ℓ) (xs : List Bytes) (idx : ℕ) (x : Bytes)
      → get_elem? xs idx ≡ some x
      → (s : Bytes) × (sibling_of {E = E} xs idx ≡ ok s)
        × (get_elem? (next_level sha xs) (idx / 2) ≡ some (parent idx x s))
  unfolding next_level sibling_of
  get_elem?-next_level E [] idx x h = cc
  get_elem?-next_level E (y ∷ []) zero x h = (x, cc, cc)
  get_elem?-next_level E (y ∷ []) (suc idx) x h = cc
  get_elem?-next_level E (y ∷ z ∷ rest) zero x h = (z, refl, cc)
  get_elem?-next_level E (y ∷ z ∷ rest) (suc zero) x h = (y, refl, cc)
  get_elem?-next_level E (y ∷ z ∷ rest) (suc (suc idx)) x h =
      let (s, read, up) = get_elem?-next_level E rest idx x h in
      (s, sibling_of-shift E y z rest idx ∙ read, rw (half_shift, parity_shift) up)
