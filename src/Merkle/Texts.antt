-- ===== src/Merkle/Texts.antt =====
-- crates/pq-merkle/src/lib.rs: the texts that the tree and the check of a membership path give to
-- SHA-256.
use pq_enclave_binding.Base.{
  ℕ, zero, suc, ◌/◌, ◌%◌, ◌≡◌, List, [], ◌∷◌, ◌++◌, Bytes, length, ltb, ◌==◌, if◌then◌else◌, inl,
  inr, ◌⊎◌,
}
use pq_enclave_binding.External.{Sha256, Collides}
use pq_enclave_binding.Merkle.{node_prefix, next_level}

-- The text is one of the list.
abbrev pub Among : Bytes → List Bytes → Type 0
Among t [] = ⊥
Among t (x ∷ xs) = (t ≡ x) ⊎ Among t xs

pub Among-append_left : (t : Bytes) (xs ys : List Bytes) → Among t xs → Among t (xs ++ ys)
Among-append_left t [] ys h = absurd h
Among-append_left t (x ∷ xs) ys (inl e) = inl e
Among-append_left t (x ∷ xs) ys (inr h) = inr (Among-append_left t xs ys h)

pub Among-append_right : (t : Bytes) (xs ys : List Bytes) → Among t ys → Among t (xs ++ ys)
Among-append_right t [] ys h = h
Among-append_right t (x ∷ xs) ys h = inr (Among-append_right t xs ys h)

-- What is hashed on the way up at one sibling.
unfoldable pub node_text : Bytes → ℕ → Bytes → Bytes
node_text acc idx s = if idx % 2 == 0 then node_prefix ∷ (acc ++ s) else node_prefix ∷ (s ++ acc)

-- What is hashed for one level of the tree.
unfoldable pub level_texts : List Bytes → List Bytes
level_texts [] = []
level_texts (x ∷ []) = (node_prefix ∷ (x ++ x)) ∷ []
level_texts (x ∷ y ∷ rest) = (node_prefix ∷ (x ++ y)) ∷ level_texts rest

module _ (sha : Sha256) where
  -- What is hashed on the way up a path.
  unfoldable pub climb_texts : Bytes → ℕ → List Bytes → List Bytes
  unfolding node_text
  climb_texts acc idx [] = []
  climb_texts acc idx (s ∷ siblings) =
      node_text acc idx s ∷ climb_texts (sha.digest (node_text acc idx s)) (idx / 2) siblings

  -- What is hashed for the levels above a level.
  unfoldable pub reduce_texts : ℕ → List Bytes → List Bytes
  unfolding level_texts
  reduce_texts zero level = []
  reduce_texts (suc fuel) level =
      let rest = reduce_texts fuel (next_level sha level) in
      if ltb 1 (length level) then level_texts level ++ rest else []

  -- A text of the first list and a text of the second that differ and have one digest.
  abbrev pub CollisionIn : List Bytes → List Bytes → Type 0
  CollisionIn xs ys = (t : Bytes) × (u : Bytes) × Among t xs × Among u ys × Collides sha t u
