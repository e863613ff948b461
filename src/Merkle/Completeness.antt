-- ===== src/Merkle/Completeness.antt =====
-- crates/pq-merkle/src/lib.rs: every leaf of a tree has a proof, and `verify_membership` accepts it.
use pq_enclave_binding.Base.{
  ℕ, zero, suc, ◌+◌, ◌/◌, ◌≤◌, ◌≡◌, refl, arith, List, [], ◌∷◌, Bytes, true, length, get_elem?,
  get_elem?-lt, ltb, lt→ltb, some, ok, ◌>>=◌, bytes_eq_refl,
}
use pq_enclave_binding.External.{Sha256}
use pq_enclave_binding.Merkle.{
  next_level, reduce, proof_loop, climb, merkle_root, merkle_proof, subkey_leaf, verify_membership,
}
use pq_enclave_binding.Merkle.Levels.{length-next_level, parent, get_elem?-next_level}

pub more : (n : ℕ) → ltb 1 (suc (suc n)) ≡ true
more n = lt→ltb _ _ (omega arith)

module _ (sha : Sha256) where
  -- The loops of `merkle_proof` and `merkle_root` from one level on, and the climb between them.
  proof_loop-climb {ℓ} :
      (E : Type ℓ) (fuel : ℕ) (xs : List Bytes) (idx : ℕ) (x : Bytes)
      → get_elem? xs idx ≡ some x
      → length xs ≤ fuel + 1
      → (path : List Bytes) × (proof_loop sha {E = E} fuel xs idx ≡ ok path)
        × (get_elem? (reduce sha fuel xs) 0 ≡ some (climb sha x idx path))
  unfolding proof_loop reduce climb
  proof_loop-climb E zero [] idx x h enough = cc
  proof_loop-climb E zero (y ∷ []) zero x h enough = ([], refl, h)
  proof_loop-climb E zero (y ∷ []) (suc idx) x h enough = cc
  proof_loop-climb E zero (y ∷ z ∷ rest) idx x h enough = absurd (omega arith)
  proof_loop-climb E (suc fuel) [] idx x h enough = cc
  proof_loop-climb E (suc fuel) (y ∷ []) zero x h enough = ([], refl, h)
  proof_loop-climb E (suc fuel) (y ∷ []) (suc idx) x h enough = cc
  proof_loop-climb E (suc fuel) (y ∷ z ∷ rest) idx x h enough =
      let (s, read, up) = get_elem?-next_level sha E (y ∷ z ∷ rest) idx x h in
      let (path, made, top) =
        proof_loop-climb E fuel (next_level sha (y ∷ z ∷ rest)) (idx / 2) (parent sha idx x s) up
          (omega (arith, length-next_level sha (y ∷ z ∷ rest))) in
      (s ∷ path, rw (more (length rest), read, made), rw (more (length rest)) top)

  -- A leaf at `idx` has a path of siblings from which its root is recomputed.
  pub merkle_proof-climb {ℓ κ} :
      (E : Type ℓ) (F : Type κ) (leaves : List Bytes) (idx : ℕ) (leaf : Bytes)
      → get_elem? leaves idx ≡ some leaf
      → (path : List Bytes) × (merkle_proof sha {E = E} leaves idx ≡ ok path)
        × (merkle_root sha {E = F} leaves ≡ ok (climb sha leaf idx path))
  unfolding merkle_proof merkle_root
  merkle_proof-climb E F [] idx leaf h = cc
  merkle_proof-climb E F (x ∷ xs) idx leaf h =
      let (path, made, top) =
        proof_loop-climb E (suc (length xs)) (x ∷ xs) idx leaf h (omega arith) in
      (path, rw (lt→ltb _ _ (get_elem?-lt (x ∷ xs) idx leaf h)) made, rw top)

  -- For each leaf of a tree whose leaf `idx` is the hash of a subkey at `idx`, `merkle_proof`
  -- returns a path without a panic, `merkle_root` a root, and `verify_membership` accepts the two.
  pub verify_membership-merkle_proof {ℓ} :
      (E : Type ℓ) (leaves : List Bytes) (idx purpose_tag : ℕ) (ml_dsa_pk slh_dsa_pk leaf : Bytes)
      → subkey_leaf sha {E = E} idx purpose_tag ml_dsa_pk slh_dsa_pk ≡ ok leaf
      → get_elem? leaves idx ≡ some leaf
      → (do
        root ← merkle_root sha {E = E} leaves
        path ← merkle_proof sha leaves idx
        verify_membership sha root idx purpose_tag ml_dsa_pk slh_dsa_pk path)
        ≡ ok true
  unfolding verify_membership
  verify_membership-merkle_proof E leaves idx purpose_tag ml_dsa_pk slh_dsa_pk leaf hashed at =
      let (path, made, top) = merkle_proof-climb E E leaves idx leaf at in
      rw (top, made, hashed, bytes_eq_refl)
