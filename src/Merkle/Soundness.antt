-- ===== src/Merkle/Soundness.antt =====
-- crates/pq-merkle/src/lib.rs: what `verify_membership` accepts under the root of a tree was put
-- into that tree, or the two hashed different texts with one digest.
use pq_enclave_binding.Base.{
  ℕ, zero, suc, ◌/◌, ◌%◌, ◌<◌, ◌≡◌, refl, sym, ◌∙◌, subst, arith, List, [], ◌∷◌, ◌++◌, map, Bytes,
  true, length, get_elem?, All, get_elem?-All, append_split, ltb, Bool-cases, inl, inr, ◌⊎◌, ◌==◌,
  some, ok, >>=-eq-ok, bytes_eq, bytes_eq→eq, be32_split, prefixed_split, u32_mod, expect-eq-ok,
}
use pq_enclave_binding.External.{Sha256, Collides}
use pq_enclave_binding.Merkle.{
  leaf_bytes, node_prefix, hash_node, next_level, reduce, merkle_root, climb, subkey_leaf,
  verify_membership,
}
use pq_enclave_binding.Merkle.Texts.{
  Among, Among-append_left, Among-append_right, level_texts, climb_texts, reduce_texts, CollisionIn,
  node_text,
}
use pq_enclave_binding.Merkle.Leaves.{Subkey, Fits, digest_cases, tail_eq, head_eq, Subkey_eq}

module _ (sha : Sha256) where
  abbrev pub preimage : Subkey → Bytes
  preimage k = leaf_bytes sha k.position k.purpose_tag k.ml_dsa_pk k.slh_dsa_pk

  abbrev pub hashes : List Subkey → List Bytes
  hashes = map (λ k. sha.digest (preimage k))

  -- What `verify_membership` hashes for a subkey and a path.
  unfoldable pub verifier_texts : Subkey → List Bytes → List Bytes
  unfolding climb_texts
  verifier_texts claim siblings =
      preimage claim ∷ climb_texts sha (sha.digest (preimage claim)) claim.position siblings

  -- What is hashed for the tree over a list of subkeys, leaves and inner nodes.
  unfoldable pub tree_texts : List Subkey → List Bytes
  unfolding reduce_texts
  tree_texts keys = map preimage keys ++ reduce_texts sha (length (hashes keys)) (hashes keys)

  -- Two subkeys within the Rust types whose leaves hash the same bytes are equal: position, purpose
  -- tag and both public keys.
  pub leaf_bytes-injective : (j k : Subkey) → Fits j → Fits k → preimage j ≡ preimage k → j ≡ k
  unfolding leaf_bytes
  leaf_bytes-injective j k fj fk e =
      let (at, e₁) = be32_split j.position k.position fj.position_lt fk.position_lt (cc) in
      let (ml, e₂) =
        prefixed_split j.ml_dsa_pk k.ml_dsa_pk fj.ml_dsa_lt fk.ml_dsa_lt (tail_eq e₁) in
      let (size, slh) =
        be32_split (length j.slh_dsa_pk) (length k.slh_dsa_pk) fj.slh_dsa_lt fk.slh_dsa_lt e₂ in
      Subkey_eq j k at (head_eq e₁) ml slh

  -- The nodes of a tree over hashed subkeys, leaves and inner nodes of every level.
  pub data InTree (keys : List Subkey) : Bytes → Type 0 where
    at_leaf :
        {x : Bytes} (i : ℕ) (k : Subkey)
        → get_elem? keys i ≡ some k
        → Among (preimage k) (tree_texts keys)
        → x ≡ sha.digest (preimage k)
        → InTree keys x
    at_node :
        {x : Bytes} (l r : Bytes)
        → InTree keys l
        → InTree keys r
        → Among (node_prefix ∷ (l ++ r)) (tree_texts keys)
        → x ≡ hash_node sha l r
        → InTree keys x

  InTree-length : {keys : List Subkey} {x : Bytes} → InTree keys x → length x ≡ 32
  unfolding hash_node
  InTree-length (at_leaf i k at m e) = rw e (sha.length-digest _)
  InTree-length (at_node l r hl hr m e) = rw e (sha.length-digest _)

  hash_node-length : (l r : Bytes) → length (hash_node sha l r) ≡ 32
  unfolding hash_node
  hash_node-length l r = sha.length-digest _

  -- A child of a node of the tree is in the tree, unless two hashed texts collide: the prefixes keep
  -- leaves and inner nodes apart.
  child_left :
      {keys : List Subkey} (l r : Bytes)
      → length l ≡ 32
      → InTree keys (hash_node sha l r)
      → (InTree keys l × InTree keys r)
        ⊎ ((u : Bytes) × Among u (tree_texts keys) × Collides sha (node_prefix ∷ (l ++ r)) u)
  unfolding hash_node leaf_bytes
  child_left l r size (at_leaf i k at m e) = elim (digest_cases sha _ _ e) [
    | inl clash ↦ cc
    | inr c ↦ inr (_, m, c)
  ]
  child_left l r size (at_node l' r' hl hr m e) = elim (digest_cases sha _ _ e) [
    | inl same ↦
        let (el, er) = append_split l l' (size ∙ sym (InTree-length hl)) (cc) in
        inl (subst (InTree _) (sym el) hl, subst (InTree _) (sym er) hr)
    | inr c ↦ inr (_, m, c)
  ]

  -- So every node on a path into the tree is in the tree.
  climb-InTree :
      {keys : List Subkey} (acc : Bytes) (idx : ℕ) (siblings : List Bytes)
      → length acc ≡ 32
      → All (λ s. length s ≡ 32) siblings
      → InTree keys (climb sha acc idx siblings)
      → InTree keys acc ⊎ CollisionIn sha (climb_texts sha acc idx siblings) (tree_texts keys)
  unfolding climb climb_texts node_text hash_node
  climb-InTree acc idx [] size sizes top = inl top
  climb-InTree acc idx (s ∷ siblings) size sizes top = elim (Bool-cases (idx % 2 == 0)) [
    | inl even ↦
        elim (climb-InTree (hash_node sha acc s) (idx / 2) siblings (hash_node-length acc s) sizes.1
          (rw even at top)) [
            | inl node ↦ elim (child_left acc s size node) [
              | inl p ↦ inl p.0
              | inr (u, m, c) ↦ rw even (inr (_, u, inl refl, m, c))
            ]
            | inr (t, u, above, m, c) ↦ rw even (inr (t, u, inr above, m, c))
          ]
    | inr odd ↦
        elim (climb-InTree (hash_node sha s acc) (idx / 2) siblings (hash_node-length s acc) sizes.1
          (rw odd at top)) [
            | inl node ↦ elim (child_left s acc sizes.0 node) [
              | inl p ↦ inl p.1
              | inr (u, m, c) ↦ rw odd (inr (_, u, inl refl, m, c))
            ]
            | inr (t, u, above, m, c) ↦ rw odd (inr (t, u, inr above, m, c))
          ]
  ]

  module _ (keys : List Subkey) where
    next_level-InTree :
        (xs : List Bytes)
        → ((t : Bytes) → Among t (level_texts xs) → Among t (tree_texts keys))
        → All (InTree keys) xs
        → All (InTree keys) (next_level sha xs)
    unfolding next_level level_texts
    next_level-InTree [] m h = tt
    next_level-InTree (x ∷ []) m (hx, _) = (at_node x x hx hx (m _ (inl refl)) refl, tt)
    next_level-InTree (x ∷ y ∷ rest) m (hx, h) =
        (at_node x y hx h.0 (m _ (inl refl)) refl, next_level-InTree rest (λ t n. m t (inr n)) h.1)

    reduce-InTree :
        (fuel : ℕ) (xs : List Bytes)
        → ((t : Bytes) → Among t (reduce_texts sha fuel xs) → Among t (tree_texts keys))
        → All (InTree keys) xs
        → All (InTree keys) (reduce sha fuel xs)
    unfolding reduce reduce_texts
    reduce-InTree zero xs m h = h
    reduce-InTree (suc fuel) xs m h = elim (Bool-cases (ltb 1 (length xs))) [
      | inl go ↦
          let m' : (t : Bytes)
              → Among t (level_texts xs ++ reduce_texts sha fuel (next_level sha xs))
              → Among t (tree_texts keys) =
            rw go at m in
          rw go (
            reduce-InTree fuel (next_level sha xs)
              (λ t n. m' t (Among-append_right t (level_texts xs) _ n))
              (next_level-InTree xs (λ t n. m' t (Among-append_left t (level_texts xs) _ n)) h))
      | inr stop ↦ rw stop h
    ]

    hashes-InTree :
        (rest : List Subkey)
        → ((i : ℕ) (k : Subkey) → get_elem? rest i ≡ some k → (j : ℕ) × (get_elem? keys j ≡ some k))
        → ((t : Bytes) → Among t (map preimage rest) → Among t (tree_texts keys))
        → All (InTree keys) (hashes rest)
    hashes-InTree [] at m = tt
    hashes-InTree (k ∷ rest) at m =
        let (j, found) = at 0 k refl in
        (
          at_leaf j k found (m _ (inl refl)) refl,
          hashes-InTree rest (λ i. at (suc i)) (λ t n. m t (inr n)),
        )

  merkle_root-InTree {ℓ} :
      (E : Type ℓ) (k : Subkey) (rest : List Subkey) {root : Bytes}
      → merkle_root sha {E = E} (hashes (k ∷ rest)) ≡ ok root
      → InTree (k ∷ rest) root
  unfolding merkle_root tree_texts
  merkle_root-InTree E k rest h =
      let leaves : List Bytes = hashes (k ∷ rest) in
      get_elem?-All (InTree (k ∷ rest)) (reduce sha (length leaves) leaves) 0
        (reduce-InTree (k ∷ rest) (length leaves) leaves
          (λ t.
            Among-append_right t (map preimage (k ∷ rest))
              (reduce_texts sha (length leaves) leaves))
          (hashes-InTree (k ∷ rest) (k ∷ rest) (λ i k' e. (i, e))
            (λ t.
              Among-append_left t (map preimage (k ∷ rest))
                (reduce_texts sha (length leaves) leaves))))
        (expect-eq-ok _ h)

  -- A leaf hash in the tree is that of a committed subkey.
  leaf-InTree :
      (keys : List Subkey) (claim : Subkey)
      → All Fits keys
      → Fits claim
      → InTree keys (sha.digest (preimage claim))
      → ((i : ℕ) × (get_elem? keys i ≡ some claim))
        ⊎ ((u : Bytes) × Among u (tree_texts keys) × Collides sha (preimage claim) u)
  unfolding leaf_bytes hash_node
  leaf-InTree keys claim fits fit (at_leaf i k at m e) = elim (digest_cases sha _ _ e) [
    | inl same ↦
        inl (i, rw (leaf_bytes-injective claim k fit (get_elem?-All Fits keys i fits at) same) at)
    | inr c ↦ inr (_, m, c)
  ]
  leaf-InTree keys claim fits fit (at_node l r hl hr m e) = elim (digest_cases sha _ _ e) [
    | inl clash ↦ cc
    | inr c ↦ inr (_, m, c)
  ]

  pub subkey_leaf-eq-ok {ℓ} :
      (E : Type ℓ) (k : Subkey) {leaf : Bytes}
      → subkey_leaf sha {E = E} k.position k.purpose_tag k.ml_dsa_pk k.slh_dsa_pk ≡ ok leaf
      → (length k.ml_dsa_pk < u32_mod)
        × (length k.slh_dsa_pk < u32_mod)
        × (leaf ≡ sha.digest (preimage k))
  unfolding subkey_leaf
  subkey_leaf-eq-ok E k h = ground arith

  pub verify_membership-eq-ok {ℓ} :
      (E : Type ℓ) (root : Bytes) (k : Subkey) (siblings : List Bytes)
      → verify_membership sha {E = E} root k.position k.purpose_tag k.ml_dsa_pk k.slh_dsa_pk
          siblings
        ≡ ok true
      → (leaf : Bytes) × (subkey_leaf sha {E = E} k.position k.purpose_tag k.ml_dsa_pk k.slh_dsa_pk
          ≡ ok leaf)
        × (climb sha leaf k.position siblings ≡ root)
  verify_membership-eq-ok E root k siblings h =
      let (leaf, hashed, same) =
        >>=-eq-ok (subkey_leaf sha {E = E} k.position k.purpose_tag k.ml_dsa_pk k.slh_dsa_pk)
          (λ leaf. ok (bytes_eq (climb sha leaf k.position siblings) root)) {y = true}
          (unfold verify_membership in h) in
      (leaf, hashed, bytes_eq→eq _ root (cc same))

  -- Whatever `verify_membership` accepts under the root of a non-empty list of subkeys, with any
  -- path of 32-byte siblings, is one of those subkeys: its index, purpose tag and public keys stand
  -- together in the list. Otherwise a text that
  -- `verify_membership` hashed here and a different text that the tree hashed have one digest.
  pub verify_membership_sound {ℓ} :
      (E : Type ℓ) (first : Subkey) (rest : List Subkey) (claim : Subkey) (root : Bytes)
      (siblings : List Bytes)
      → All Fits (first ∷ rest)
      → claim.position < u32_mod
      → claim.purpose_tag < 256
      → All (λ s. length s ≡ 32) siblings
      → merkle_root sha {E = E} (hashes (first ∷ rest)) ≡ ok root
      → verify_membership sha {E = E} root claim.position claim.purpose_tag claim.ml_dsa_pk
          claim.slh_dsa_pk siblings
        ≡ ok true
      → ((i : ℕ) × (get_elem? (first ∷ rest) i ≡ some claim))
        ⊎ CollisionIn sha (verifier_texts claim siblings) (tree_texts (first ∷ rest))
  unfolding verifier_texts
  verify_membership_sound E first rest claim root siblings fits at tag sizes top accepted =
      let (leaf, hashed, same) = verify_membership-eq-ok E root claim siblings accepted in
      let (ml, slh, is_hash) = subkey_leaf-eq-ok E claim hashed in
      let fit : Fits claim = record {
        position_lt = at;
        purpose_lt = tag;
        ml_dsa_lt = ml;
        slh_dsa_lt = slh;
      } in
      let climbed : InTree (first ∷ rest) (climb sha leaf claim.position siblings) =
        subst (InTree (first ∷ rest)) (sym same) (merkle_root-InTree E first rest top) in
      let size : length leaf ≡ 32 = rw is_hash (sha.length-digest _) in
      elim (climb-InTree leaf claim.position siblings size sizes climbed) [
        | inl node ↦
            elim (leaf-InTree (first ∷ rest) claim fits fit
              (subst (InTree (first ∷ rest)) is_hash node)) [
                | inl found ↦ inl found
                | inr (u, m, c) ↦ inr (_, u, inl refl, m, c)
              ]
        | inr (t, u, above, m, c) ↦
            let above' =
              subst (λ l. Among t (climb_texts sha l claim.position siblings)) is_hash above in
            inr (t, u, inr above', m, c)
      ]
