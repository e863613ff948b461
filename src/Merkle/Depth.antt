-- ===== src/Merkle/Depth.antt =====
-- crates/pq-merkle/src/lib.rs: how long a membership proof is, and when there is none.
use pq_enclave_binding.Base.{
  ℕ, zero, suc, ◌+◌, ◌*◌, ◌^◌, ◌/◌, ◌≤◌, ◌<◌, ◌≡◌, refl, arith, List, [], ◌∷◌, Bytes, length,
  get_elem?-some, ltb, lt→ltb, le→ltb, ltb→lt, ltb→le, Bool-cases, inl, inr, ok, err, panic,
  Outcome, ◌>>=◌,
}
use native.Mathlib.Nat.{pow-suc}
use pq_enclave_binding.External.{Sha256}
use pq_enclave_binding.Merkle.{next_level, sibling_of, proof_loop, merkle_proof}
use pq_enclave_binding.Merkle.Levels.{length-next_level}
use pq_enclave_binding.Merkle.Completeness.{merkle_proof-climb, more}

-- A list of `n` nodes needs `ceil(log2 n)` siblings.
abbrev pub IsDepth : ℕ → ℕ → Type 0
IsDepth n depth = (n ≤ 2 ^ depth) × (n ≤ 1 → depth ≡ 0) × (2 ≤ n → 2 ^ depth + 2 ≤ 2 * n)

IsDepth-zero {ℓ} :
    {E : Type ℓ} (n : ℕ) (path : List Bytes)
    → n ≤ 1
    → ◌≡◌ {A = Outcome E (List Bytes)} (ok []) (ok path)
    → IsDepth n (length path)
IsDepth-zero n [] small h = (omega arith, λ _. refl, λ two. absurd (omega arith))
IsDepth-zero n (s ∷ path) small h = cc

doubled : (n depth : ℕ) → 2 ≤ n → IsDepth ((n + 1) / 2) depth → 2 ^ depth * 2 + 2 ≤ 2 * n
doubled n depth two (covers, flat, tight) = elim (Bool-cases (ltb 2 n)) [
  | inl large ↦ omega (arith, tight (omega (arith, ltb→lt _ _ large)))
  | inr small ↦ rw (flat (omega (arith, ltb→le _ _ small))) (omega arith)
]

IsDepth-suc : (n depth : ℕ) → 2 ≤ n → IsDepth ((n + 1) / 2) depth → IsDepth n (suc depth)
IsDepth-suc n depth two d = (
  rw pow-suc (omega (arith, d.0)),
  λ one. absurd (omega arith),
  λ _. rw pow-suc (doubled n depth two d),
)

pushed {ℓ} :
    {E : Type ℓ} (m : Outcome E Bytes) (r : Outcome E (List Bytes)) {path : List Bytes}
    → (do s ← m; up ← r; ok (s ∷ up)) ≡ ok path
    → (up : List Bytes) × (r ≡ ok up) × (length path ≡ suc (length up))
pushed (ok s) (ok up) h = (up, refl, cc)
pushed (ok s) (err e) h = cc
pushed (ok s) panic h = cc
pushed (err e) r h = cc
pushed panic r h = cc

module _ (sha : Sha256) where
  -- Each round halves the level, rounding up, and adds one sibling.
  proof_loop-IsDepth {ℓ} :
      (E : Type ℓ) (fuel : ℕ) (xs : List Bytes) (idx : ℕ) (path : List Bytes)
      → length xs ≤ fuel + 1
      → proof_loop sha {E = E} fuel xs idx ≡ ok path
      → IsDepth (length xs) (length path)
  unfolding proof_loop
  proof_loop-IsDepth E zero xs idx path enough h = IsDepth-zero (length xs) path (omega arith) h
  proof_loop-IsDepth E (suc fuel) [] idx path enough h = IsDepth-zero 0 path (omega arith) h
  proof_loop-IsDepth E (suc fuel) (y ∷ []) idx path enough h = IsDepth-zero 1 path (omega arith) h
  proof_loop-IsDepth E (suc fuel) (y ∷ z ∷ rest) idx path enough h =
      let xs : List Bytes = y ∷ z ∷ rest in
      let (up, made, longer) =
        pushed (sibling_of {E = E} xs idx) (proof_loop sha fuel (next_level sha xs) (idx / 2))
          (rw (more (length rest)) at h) in
      let halved = length-next_level sha xs in
      let deep =
        proof_loop-IsDepth E fuel (next_level sha xs) (idx / 2) up (omega (arith, halved)) made in
      rw longer (IsDepth-suc (length xs) (length up) (omega arith) (rw halved at deep))

  -- `merkle_proof` panics exactly for an index outside the leaves; else it returns ceil(log2 n)
  -- siblings: 2 ^ depth covers the leaves, and half of it does not.
  pub merkle_proof-IsDepth {ℓ} :
      (E : Type ℓ) (leaves : List Bytes) (idx : ℕ)
      → (length leaves ≤ idx → merkle_proof sha {E = E} leaves idx ≡ panic)
        × (idx < length leaves
            → (path : List Bytes) × (merkle_proof sha {E = E} leaves idx ≡ ok path)
              × IsDepth (length leaves) (length path))
  unfolding merkle_proof
  merkle_proof-IsDepth E leaves idx = (
    λ out. rw (le→ltb _ _ out),
    λ inside.
        let (leaf, at) = get_elem?-some leaves idx inside in
        let (path, made, top) = merkle_proof-climb sha E E leaves idx leaf at in
        (
          path,
          made,
          proof_loop-IsDepth E (length leaves) leaves idx path (omega arith)
              (rw (lt→ltb _ _ inside) at made),
        ),
  )
