-- ===== src/Merkle.antt =====
-- crates/pq-merkle/src/lib.rs: the binary Merkle tree over the subkey public keys. A digest
-- (`[u8; 32]`) is a byte list.
pub mod Levels
pub mod Completeness
pub mod Leaves
pub mod Texts
pub mod Soundness
pub mod Depth
pub mod Paths
pub mod Empty
pub mod Lookup
use pq_enclave_binding.Base.{
  ℕ, zero, suc, ◌+◌, ◌-◌, ◌/◌, ◌%◌, Bool, true, false, Option, List, [], ◌∷◌, ◌++◌, Bytes, Outcome,
  ok, panic, ◌>>=◌, ◌>>◌, index, length, get_elem?, unwrap_or, is_empty, replicate, ltb, ◌==◌,
  if◌then◌else◌, be32, u32_len, bytes_eq,
}
use pq_enclave_binding.External.{Sha256}

abbrev pub leaf_prefix : ℕ
leaf_prefix = 0x00

abbrev pub node_prefix : ℕ
node_prefix = 0x01

-- `unwrap_or` evaluates its argument, so `level[idx]` is read in any case.
unfoldable pub sibling_of {ℓ} : {E : Type ℓ} → List Bytes → ℕ → Outcome E Bytes
sibling_of level idx =
    if idx % 2 == 0
    then (do own ← index level idx; ok (unwrap_or (get_elem? level (idx + 1)) own))
    else index level (idx - 1)

module _ (sha : Sha256) where
  -- What `subkey_leaf` hashes.
  unfoldable pub leaf_bytes : ℕ → ℕ → Bytes → Bytes → Bytes
  leaf_bytes idx purpose_tag ml_dsa_pk slh_dsa_pk =
      leaf_prefix
      ∷ (be32 idx
          ++ (purpose_tag
              ∷ (be32 (length ml_dsa_pk)
                  ++ (ml_dsa_pk ++ (be32 (length slh_dsa_pk) ++ slh_dsa_pk)))))

  -- A public key longer than `u32::MAX` panics.
  unfoldable pub subkey_leaf {ℓ} : {E : Type ℓ} → ℕ → ℕ → Bytes → Bytes → Outcome E Bytes
  unfolding leaf_bytes u32_len
  subkey_leaf idx purpose_tag ml_dsa_pk slh_dsa_pk = do
    _ ← u32_len ml_dsa_pk
    _ ← u32_len slh_dsa_pk
    ok (sha.digest (leaf_bytes idx purpose_tag ml_dsa_pk slh_dsa_pk))

  unfoldable pub hash_node : Bytes → Bytes → Bytes
  hash_node left right = sha.digest (node_prefix ∷ (left ++ right))

  -- One round of the loops below: `level.chunks(2)`, the last node paired with itself.
  unfoldable pub next_level : List Bytes → List Bytes
  next_level [] = []
  next_level (x ∷ []) = hash_node x x ∷ []
  next_level (x ∷ y ∷ rest) = hash_node x y ∷ next_level rest

  -- `while level.len() > 1`, on fuel. The length of the first level is enough.
  unfoldable pub reduce : ℕ → List Bytes → List Bytes
  unfolding next_level
  reduce zero level = level
  reduce (suc fuel) level =
      let rest = reduce fuel (next_level level) in if ltb 1 (length level) then rest else level

  unfoldable pub merkle_root {ℓ} : {E : Type ℓ} → List Bytes → Outcome E Bytes
  unfolding reduce
  merkle_root leaves =
      if is_empty leaves then ok (replicate 32 0) else index (reduce (length leaves) leaves) 0

  unfoldable pub proof_loop {ℓ} : {E : Type ℓ} → ℕ → List Bytes → ℕ → Outcome E (List Bytes)
  unfolding sibling_of next_level
  proof_loop zero level idx = ok []
  proof_loop (suc fuel) level idx =
      let rest = proof_loop fuel (next_level level) (idx / 2) in
      if ltb 1 (length level)
      then (do sibling ← sibling_of level idx; path ← rest; ok (sibling ∷ path))
      else ok []

  -- `assert!(index < leaves.len())`
  unfoldable pub merkle_proof {ℓ} : {E : Type ℓ} → List Bytes → ℕ → Outcome E (List Bytes)
  unfolding proof_loop
  merkle_proof leaves idx =
      if ltb idx (length leaves) then proof_loop (length leaves) leaves idx else panic

  -- The loop of `verify_membership`.
  unfoldable pub climb : Bytes → ℕ → List Bytes → Bytes
  climb acc idx [] = acc
  climb acc idx (sibling ∷ siblings) =
      climb (if idx % 2 == 0 then hash_node acc sibling else hash_node sibling acc) (idx / 2)
        siblings

  unfoldable pub verify_membership {ℓ} :
      {E : Type ℓ} → Bytes → ℕ → ℕ → Bytes → Bytes → List Bytes → Outcome E Bool
  unfolding subkey_leaf climb bytes_eq
  verify_membership root idx purpose_tag ml_dsa_pk slh_dsa_pk siblings = do
    leaf ← subkey_leaf idx purpose_tag ml_dsa_pk slh_dsa_pk
    ok (bytes_eq (climb leaf idx siblings) root)
