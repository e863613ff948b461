-- ===== src/Merkle/Paths.antt =====
-- crates/pq-merkle/src/lib.rs: the nodes on a path are leaves or digests, and a path does not depend
-- on the errors of its caller.
use pq_enclave_binding.Base.{
  ℕ, zero, suc, ◌+◌, ◌-◌, ◌/◌, ◌%◌, ◌≡◌, refl, ap, subst, true, Bool-cases, inl, inr, List, [], ◌∷◌,
  Option, none, some, Bytes, ok, >>=-eq-ok, ok-injective, expect-eq-ok, index, get_elem?,
  get_elem?-All, unwrap_or, arith, bytes_eq_refl, All, length, ltb, ◌==◌,
}
use pq_enclave_binding.External.{Sha256}
use pq_enclave_binding.Merkle.{
  sibling_of, hash_node, next_level, proof_loop, merkle_proof, subkey_leaf, climb,
  verify_membership,
}

index-eq-ok {ℓ κ} :
    {E : Type ℓ} (F : Type κ) (xs : List Bytes) (i : ℕ) (x : Bytes)
    → index {E = E} xs i ≡ ok x
    → (get_elem? xs i ≡ some x) × (index {E = F} xs i ≡ ok x)
index-eq-ok F xs i x h = let at = expect-eq-ok (get_elem? xs i) h in (at, rw at)

module _ {κ} (P : Bytes → Type κ) where
  sibling_of-eq-ok {ℓ μ} :
      {E : Type ℓ} (F : Type μ) (level : List Bytes) (idx : ℕ) (x : Bytes)
      → All P level
      → sibling_of {E = E} level idx ≡ ok x
      → P x × (sibling_of {E = F} level idx ≡ ok x)
  unfolding sibling_of
  sibling_of-eq-ok {E} F level idx x all h = elim (Bool-cases (idx % 2 == 0)) [
    | inl even ↦
        let (own, e, h₁) = >>=-eq-ok (index level idx) _ (rw (sibling_of, even) at h) in
        let (at, same) = index-eq-ok F level idx own e in
        let is : unwrap_or (get_elem? level (idx + 1)) own ≡ x = ok-injective E h₁ in
        (
          subst {A = Bytes} P is (
              either (get_elem? level (idx + 1)) own (get_elem?-All P level idx all at)
                (λ y e. get_elem?-All P level (idx + 1) all e)),
          rw (sibling_of, even, same, is),
        )
    | inr odd ↦
        let (at, same) = index-eq-ok F level (idx - 1) x (rw (sibling_of, odd) at h) in
        (get_elem?-All P level (idx - 1) all at, rw (sibling_of, odd) same)
  ]
    where
      either :
          (o : Option Bytes) (own : Bytes)
          → P own
          → ((y : Bytes) → o ≡ some y → P y)
          → P (unwrap_or o own)
      either none own p at = p
      either (some y) own p at = at y refl

  module _ (sha : Sha256) (hashed : (b : Bytes) → P (sha.digest b)) where
    next_level-All : (level : List Bytes) → All P (next_level sha level)
    unfolding next_level hash_node
    next_level-All [] = tt
    next_level-All (x ∷ []) = (hashed _, tt)
    next_level-All (x ∷ y ∷ rest) = (hashed _, next_level-All rest)

    proof_loop-eq-ok {ℓ μ} :
        {E : Type ℓ} (F : Type μ) (fuel : ℕ) (level : List Bytes) (idx : ℕ) (path : List Bytes)
        → All P level
        → proof_loop sha {E = E} fuel level idx ≡ ok path
        → All P path × (proof_loop sha {E = F} fuel level idx ≡ ok path)
    unfolding proof_loop
    proof_loop-eq-ok {E} F zero level idx path all h =
        let is = ok-injective E h in (subst {A = List Bytes} (All P) is tt, ap ok is)
    proof_loop-eq-ok {E} F (suc fuel) level idx path all h =
        elim (Bool-cases (ltb 1 (length level))) [
          | inl on ↦
              let (x, e, h₁) = >>=-eq-ok (sibling_of level idx) _ (rw (proof_loop, on) at h) in
              let (rest, e', h₂) =
                >>=-eq-ok (proof_loop sha fuel (next_level sha level) (idx / 2)) _ h₁ in
              let (px, same) = sibling_of-eq-ok F level idx x all e in
              let (ps, same') =
                proof_loop-eq-ok F fuel (next_level sha level) (idx / 2) rest (next_level-All level)
                  e' in
              let is = ok-injective E h₂ in
              (subst {A = List Bytes} (All P) is (px, ps), rw (proof_loop, on, same, same', is))
          | inr off ↦
              let is = ok-injective E (rw (proof_loop, off) at h) in
              (subst {A = List Bytes} (All P) is tt, rw (proof_loop, off, is))
        ]

    -- What holds of the leaves and of every digest holds of the nodes on a path.
    pub merkle_proof-eq-ok {ℓ μ} :
        {E : Type ℓ} (F : Type μ) (leaves : List Bytes) (idx : ℕ) (path : List Bytes)
        → All P leaves
        → merkle_proof sha {E = E} leaves idx ≡ ok path
        → All P path × (merkle_proof sha {E = F} leaves idx ≡ ok path)
    unfolding merkle_proof
    merkle_proof-eq-ok F leaves idx path all h = elim (Bool-cases (ltb idx (length leaves))) [
      | inl inside ↦
          let (ps, same) =
            proof_loop-eq-ok F (length leaves) leaves idx path all
              (rw (merkle_proof, inside) at h) in
          (ps, rw (merkle_proof, inside) same)
      | inr outside ↦ absurd (let bad = rw (merkle_proof, outside) at h in cc)
    ]

subkey_leaf_same {ℓ κ} :
    {E : Type ℓ} (F : Type κ) (sha : Sha256) (idx purpose_tag : ℕ) (ml_dsa_pk slh_dsa_pk : Bytes)
    {leaf : Bytes}
    → subkey_leaf sha {E = E} idx purpose_tag ml_dsa_pk slh_dsa_pk ≡ ok leaf
    → subkey_leaf sha {E = F} idx purpose_tag ml_dsa_pk slh_dsa_pk ≡ ok leaf
unfolding subkey_leaf
subkey_leaf_same F sha idx purpose_tag ml_dsa_pk slh_dsa_pk h = ground arith

-- Membership is the same for every caller.
pub verify_membership_lem {ℓ κ} :
    {E : Type ℓ} (F : Type κ) (sha : Sha256) (idx purpose_tag : ℕ)
    (ml_dsa_pk slh_dsa_pk leaf : Bytes) (path : List Bytes)
    → subkey_leaf sha {E = E} idx purpose_tag ml_dsa_pk slh_dsa_pk ≡ ok leaf
    → verify_membership sha {E = F}
        (climb sha leaf idx path)
        idx
        purpose_tag
        ml_dsa_pk
        slh_dsa_pk
        path
      ≡ ok true
unfolding verify_membership
verify_membership_lem F sha idx purpose_tag ml_dsa_pk slh_dsa_pk leaf path h =
    rw (subkey_leaf_same F sha idx purpose_tag ml_dsa_pk slh_dsa_pk h, bytes_eq_refl)
