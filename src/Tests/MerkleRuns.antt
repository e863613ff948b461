-- ===== src/Tests/MerkleRuns.antt =====
-- Runs of the Merkle tree: three subkeys, with the paths and the root that the code computes.
use pq_enclave_binding.Base.{
  ℕ, ◌≡◌, ◌≤◌, ◌<◌, ◌⊎◌, refl, arith, zero, suc, true, false, List, [], ◌∷◌, ◌++◌, some, Bytes, ok,
  panic, ◌>>=◌, length, get_elem?, be32, All,
}
use pq_enclave_binding.Merkle.{subkey_leaf, hash_node, merkle_root, merkle_proof, verify_membership}
use pq_enclave_binding.Merkle.Leaves.{Subkey, Fits}
use pq_enclave_binding.Merkle.Soundness.{
  verifier_texts, tree_texts, hashes, preimage, verify_membership_sound,
}
use pq_enclave_binding.Merkle.Completeness.{verify_membership-merkle_proof}
use pq_enclave_binding.Merkle.Empty.{Forged}
use pq_enclave_binding.Merkle.Lookup.{
  Positioned, same_subkey, is_member, prove_and_verify, prove_and_verify-is_member,
}
use pq_enclave_binding.Merkle.Texts.{CollisionIn}
use pq_enclave_binding.Merkle.Depth.{IsDepth, merkle_proof-IsDepth}
use pq_enclave_binding.Tests.Doubles.{test_sha, fill, length-fill}

abbrev pub first_key : Subkey
first_key = record { position = 0; purpose_tag = 1; ml_dsa_pk = 5 ∷ []; slh_dsa_pk = 6 ∷ [] }

abbrev pub second_key : Subkey
second_key = record { position = 1; purpose_tag = 1; ml_dsa_pk = 7 ∷ 8 ∷ []; slh_dsa_pk = [] }

abbrev third_key : Subkey
third_key = record { position = 2; purpose_tag = 2; ml_dsa_pk = 9 ∷ []; slh_dsa_pk = 9 ∷ [] }

abbrev leaves : List Bytes
leaves = hashes test_sha (first_key ∷ second_key ∷ third_key ∷ [])

leaves_fit : All Fits (first_key ∷ second_key ∷ third_key ∷ [])
leaves_fit = (
  fits first_key (omega arith) (omega arith) (omega arith) (omega arith),
  (
    fits second_key (omega arith) (omega arith) (omega arith) (omega arith),
    (fits third_key (omega arith) (omega arith) (omega arith) (omega arith), tt),
  ),
)
  where
    fits :
        (k : Subkey)
        → k.position < 4294967296
        → k.purpose_tag < 256
        → length k.ml_dsa_pk < 4294967296
        → length k.slh_dsa_pk < 4294967296
        → Fits k
    fits k a b c d = record { position_lt = a; purpose_lt = b; ml_dsa_lt = c; slh_dsa_lt = d }

abbrev third_leaf : Bytes
third_leaf = fill 32 (preimage test_sha third_key)

verify_membership-merkle_proof_example :
    (do
      root ← merkle_root test_sha {E = Unit {0}} leaves
      path ← merkle_proof test_sha leaves 2
      verify_membership test_sha root 2 2 (9 ∷ []) (9 ∷ []) path)
    ≡ ok true
unfolding subkey_leaf
verify_membership-merkle_proof_example =
    verify_membership-merkle_proof test_sha (Unit {0}) leaves 2 2 (9 ∷ []) (9 ∷ []) third_leaf refl
      refl

merkle_proof-IsDepth_example :
    (length leaves ≤ 2 → merkle_proof test_sha {E = Unit {0}} leaves 2 ≡ panic)
    × (2 < length leaves
        → (path : List Bytes) × (merkle_proof test_sha {E = Unit {0}} leaves 2 ≡ ok path)
          × IsDepth (length leaves) (length path))
merkle_proof-IsDepth_example = merkle_proof-IsDepth test_sha (Unit {0}) leaves 2

abbrev path_of_third : List Bytes
path_of_third =
    third_leaf
    ∷ hash_node test_sha (fill 32 (preimage test_sha first_key))
        (fill 32 (preimage test_sha second_key))
    ∷ []

abbrev root_of_three : Bytes
root_of_three =
    hash_node test_sha
      (hash_node test_sha (fill 32 (preimage test_sha first_key))
        (fill 32 (preimage test_sha second_key)))
      (hash_node test_sha third_leaf third_leaf)

verify_membership_sound_example :
    ((i : ℕ) × (get_elem? (first_key ∷ second_key ∷ third_key ∷ []) i ≡ some third_key))
    ⊎ CollisionIn test_sha
        (verifier_texts test_sha third_key path_of_third)
        (tree_texts test_sha (first_key ∷ second_key ∷ third_key ∷ []))
unfolding merkle_root verify_membership hash_node be32
verify_membership_sound_example =
    verify_membership_sound test_sha (Unit {0}) first_key (second_key ∷ third_key ∷ []) third_key
      root_of_three path_of_third leaves_fit (omega arith) (omega arith)
      (
        test_sha.length-digest (preimage test_sha third_key),
        (
          length-fill 32 (
              1
              ∷ (fill 32 (preimage test_sha first_key) ++ fill 32 (preimage test_sha second_key))),
          tt,
        ),
      )
      refl refl

positioned : Positioned (first_key ∷ second_key ∷ third_key ∷ [])
positioned zero k at = cc at
positioned (suc zero) k at = cc at
positioned (suc (suc zero)) k at = cc at
positioned (suc (suc (suc i))) k at = absurd (cc at)

-- A claim of the second position with the keys of the third.
abbrev false_claim : Subkey
false_claim = record { position = 1; purpose_tag = 2; ml_dsa_pk = 9 ∷ []; slh_dsa_pk = 9 ∷ [] }

prove_and_verify-is_member_example :
    (prove_and_verify test_sha (Unit {0}) (first_key ∷ second_key ∷ third_key ∷ []) false_claim
      ≡ ok (is_member (first_key ∷ second_key ∷ third_key ∷ []) false_claim))
    ⊎ ((path : List Bytes) × (merkle_proof test_sha {E = Unit {0}}
            (hashes test_sha (first_key ∷ second_key ∷ third_key ∷ []))
            1
          ≡ ok path)
        × Forged test_sha (first_key ∷ second_key ∷ third_key ∷ []) false_claim path)
prove_and_verify-is_member_example =
    prove_and_verify-is_member test_sha (Unit {0}) (first_key ∷ second_key ∷ third_key ∷ [])
      false_claim leaves_fit positioned
      (record {
        position_lt = omega arith;
        purpose_lt = omega arith;
        ml_dsa_lt = omega arith;
        slh_dsa_lt = omega arith;
      })
      (omega arith)

denied : is_member (first_key ∷ second_key ∷ third_key ∷ []) false_claim ≡ false
unfolding same_subkey
denied = refl
