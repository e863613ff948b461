-- ===== src/Merkle/Leaves.antt =====
-- crates/pq-merkle/src/lib.rs: what a leaf of the tree commits to.
use pq_enclave_binding.Base.{
  ℕ, ◌<◌, ◌≡◌, sym, ap, arith, ◌∷◌, Bytes, length, Bool-cases, inl, inr, ◌⊎◌, bytes_eq, bytes_eq→eq,
  bytes_eq_refl, u32_mod,
}
use pq_enclave_binding.External.{Sha256, Collides}

-- The arguments of `subkey_leaf`, within the Rust types: `u32`, `u8`, and slices of `u32` length.
pub record Subkey : Type 0 where
  pub position : ℕ
  pub purpose_tag : ℕ
  pub ml_dsa_pk : Bytes
  pub slh_dsa_pk : Bytes

pub record Fits (k : Subkey) : Type 0 where
  pub position_lt : k.position < u32_mod
  pub purpose_lt : k.purpose_tag < 256
  pub ml_dsa_lt : length k.ml_dsa_pk < u32_mod
  pub slh_dsa_lt : length k.slh_dsa_pk < u32_mod

-- The digest of a text that was hashed twice: the texts are one, or they collide.
pub digest_cases :
    (sha : Sha256) (a b : Bytes) → sha.digest a ≡ sha.digest b → (a ≡ b) ⊎ Collides sha a b
digest_cases sha a b same = elim (Bool-cases (bytes_eq a b)) [
  | inl e ↦ inl (bytes_eq→eq a b e)
  | inr n ↦
      inr (record { differ = λ e. cc (n, ap (bytes_eq a) (sym e), bytes_eq_refl a); same = same })
]

pub Subkey_eq :
    (j k : Subkey)
    → j.position ≡ k.position
    → j.purpose_tag ≡ k.purpose_tag
    → j.ml_dsa_pk ≡ k.ml_dsa_pk
    → j.slh_dsa_pk ≡ k.slh_dsa_pk
    → j ≡ k
Subkey_eq j k a b c d = ground arith

pub head_eq : {x y : ℕ} {xs ys : Bytes} → x ∷ xs ≡ y ∷ ys → x ≡ y
head_eq e = cc

pub tail_eq : {x y : ℕ} {xs ys : Bytes} → x ∷ xs ≡ y ∷ ys → xs ≡ ys
tail_eq e = cc
