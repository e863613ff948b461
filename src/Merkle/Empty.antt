-- ===== src/Merkle/Empty.antt =====
-- crates/pq-merkle/src/lib.rs: the tree without leaves, whose root is 32 zero bytes, beside the trees
-- with leaves.
use pq_enclave_binding.Base.{
  ℕ, ◌/◌, ◌%◌, ◌<◌, ◌≡◌, refl, sym, ap, ◌∙◌, List, [], ◌∷◌, Bytes, true, some, ok, length,
  get_elem?, replicate, All, ok-injective, expect-eq-ok, Bool-cases, inl, inr, ◌⊎◌, ◌==◌, u32_mod,
}
use pq_enclave_binding.External.{Sha256}
use pq_enclave_binding.Merkle.{hash_node, climb, merkle_root, verify_membership}
use pq_enclave_binding.Merkle.Texts.{Among, node_text, climb_texts, CollisionIn}
use pq_enclave_binding.Merkle.Leaves.{Subkey, Fits}
use pq_enclave_binding.Merkle.Soundness.{
  preimage, hashes, verifier_texts, tree_texts, subkey_leaf-eq-ok, verify_membership-eq-ok,
  verify_membership_sound,
}

-- How a claim that is none of the subkeys can be accepted: a text that the check of its path hashes
-- has the digest of a different text that the tree over the subkeys hashed. Without subkeys, a
-- text that the check hashes has the zero digest.
abbrev pub Forged : Sha256 → List Subkey → Subkey → List Bytes → Type 0
Forged sha keys claim siblings =
    CollisionIn sha (verifier_texts sha claim siblings) (tree_texts sha keys)
    ⊎ ((keys ≡ [])
        × (t : Bytes) × Among t (verifier_texts sha claim siblings)
        × (sha.digest t ≡ replicate 32 0))

module _ (sha : Sha256) where
  -- The root does not depend on the caller's errors.
  pub merkle_root-transfer {ℓ κ} :
      (E : Type ℓ) (F : Type κ) (leaves : List Bytes) {root : Bytes}
      → merkle_root sha {E = E} leaves ≡ ok root
      → merkle_root sha {E = F} leaves ≡ ok root
  unfolding merkle_root
  merkle_root-transfer E F [] h = ap ok (ok-injective E h)
  merkle_root-transfer E F (x ∷ leaves) h = rw (expect-eq-ok _ h)

  -- Whatever path is climbed from a digest, its end is a digest.
  climb-digest :
      (path : List Bytes) (text : Bytes) (idx : ℕ)
      → (top : Bytes) × Among top (text ∷ climb_texts sha (sha.digest text) idx path)
        × (climb sha (sha.digest text) idx path ≡ sha.digest top)
  unfolding climb climb_texts node_text hash_node
  climb-digest [] text idx = (text, inl refl, refl)
  climb-digest (x ∷ path) text idx = elim (Bool-cases (idx % 2 == 0)) [
    | inl even ↦
        let (top, among, ends) = climb-digest path _ (idx / 2) in rw even (top, inr among, ends)
    | inr odd ↦
        let (top, among, ends) = climb-digest path _ (idx / 2) in rw odd (top, inr among, ends)
  ]

  -- Whatever `verify_membership` accepts under the root of a list of subkeys, which may be empty,
  -- is one of them: its index, purpose tag and public keys stand together in the list. Otherwise
  -- it is forged: the digests of the texts that the check and the tree hash say so.
  pub verify_membership_sound_of_all {ℓ} :
      (E : Type ℓ) (keys : List Subkey) (claim : Subkey) (root : Bytes) (siblings : List Bytes)
      → All Fits keys
      → claim.position < u32_mod
      → claim.purpose_tag < 256
      → All (λ s. length s ≡ 32) siblings
      → merkle_root sha {E = E} (hashes sha keys) ≡ ok root
      → verify_membership sha {E = E} root claim.position claim.purpose_tag claim.ml_dsa_pk
          claim.slh_dsa_pk siblings
        ≡ ok true
      → ((i : ℕ) × (get_elem? keys i ≡ some claim)) ⊎ Forged sha keys claim siblings
  unfolding merkle_root verifier_texts
  verify_membership_sound_of_all E [] claim root siblings fits at tag sizes top accepted =
      let (leaf, hashed, climbed) = verify_membership-eq-ok sha E root claim siblings accepted in
      let (_, _, is_hash) = subkey_leaf-eq-ok sha E claim hashed in
      let (text, among, ends) = climb-digest siblings (preimage sha claim) claim.position in
      let start = ap (λ l. climb sha l claim.position siblings) is_hash in
      inr (inr (refl, text, among, sym ends ∙ sym start ∙ climbed ∙ sym (ok-injective E top)))
  verify_membership_sound_of_all E (first ∷ rest) claim root siblings fits at tag sizes top
        accepted =
      elim (verify_membership_sound sha E first rest claim root siblings fits at tag sizes top
        accepted) [ inl found ↦ inl found | inr c ↦ inr (inl c) ]
