-- ===== src/Merkle/Lookup.antt =====
-- crates/pq-merkle/src/lib.rs: proving and checking membership refines the look-up in the list of
-- subkeys.
use pq_enclave_binding.Base.{
  ℕ, zero, suc, ◌<◌, ◌≡◌, sym, ap, ◌∙◌, arith, List, [], ◌∷◌, Option, none, some, some-injective,
  Bytes, Bool, true, false, ◌&&◌, Outcome, ok, ◌>>=◌, Bool-cases, inl, inr, ◌⊎◌, ◌==◌, bytes_eq,
  bytes_eq_iff, bytes_eq_refl, length, get_elem?, get_elem?-some, All, u32_len_lem,
}
use pq_enclave_binding.External.{Sha256}
use pq_enclave_binding.Merkle.{climb, merkle_root, merkle_proof, verify_membership}
use pq_enclave_binding.Merkle.Leaves.{Subkey, Fits}
use pq_enclave_binding.Merkle.Soundness.{preimage, hashes}
use pq_enclave_binding.Merkle.Completeness.{merkle_proof-climb}
use pq_enclave_binding.Merkle.Paths.{merkle_proof-eq-ok}
use pq_enclave_binding.Merkle.Empty.{Forged, verify_membership_sound_of_all}

-- The abstract view: the list has this very subkey at its position.
unfoldable pub same_subkey : Subkey → Subkey → Bool
same_subkey j k =
    (j.position == k.position)
    && ((j.purpose_tag == k.purpose_tag)
        && (bytes_eq j.ml_dsa_pk k.ml_dsa_pk && bytes_eq j.slh_dsa_pk k.slh_dsa_pk))

abbrev pub found_same : Option Subkey → Subkey → Bool
found_same none k = false
found_same (some h) k = same_subkey h k

abbrev pub is_member : List Subkey → Subkey → Bool
is_member keys k = found_same (get_elem? keys k.position) k

-- Each subkey of the list has its index as its position.
abbrev pub Positioned : List Subkey → Type 0
Positioned keys = (i : ℕ) (k : Subkey) → get_elem? keys i ≡ some k → k.position ≡ i

same_subkey-eq : (j k : Subkey) → same_subkey j k ≡ true → j ≡ k
unfolding same_subkey
same_subkey-eq j k h =
    let ml = (bytes_eq_iff j.ml_dsa_pk k.ml_dsa_pk).0 (ground arith) in
    let slh = (bytes_eq_iff j.slh_dsa_pk k.slh_dsa_pk).0 (ground arith) in ground (arith, ml, slh)

same_subkey_refl : (k : Subkey) → same_subkey k k ≡ true
unfolding same_subkey
same_subkey_refl k = ground (arith, bytes_eq_refl k.ml_dsa_pk, bytes_eq_refl k.slh_dsa_pk)

module _ (sha : Sha256) where
  get_elem?-hashes :
      (keys : List Subkey) (i : ℕ) {k : Subkey}
      → get_elem? keys i ≡ some k
      → get_elem? (hashes sha keys) i ≡ some (sha.digest (preimage sha k))
  get_elem?-hashes [] i at = absurd (cc at)
  get_elem?-hashes (j ∷ keys) zero at =
      ap (λ j. some (sha.digest (preimage sha j))) (some-injective _ _ at)
  get_elem?-hashes (j ∷ keys) (suc i) at = get_elem?-hashes keys i at

  hashes-All : (keys : List Subkey) → All (λ (s : Bytes). length s ≡ 32) (hashes sha keys)
  hashes-All [] = tt
  hashes-All (k ∷ keys) = (sha.length-digest (preimage sha k), hashes-All keys)

  verify_membership-bytes_eq {ℓ} :
      (E : Type ℓ) (root : Bytes) (k : Subkey) (path : List Bytes)
      → Fits k
      → verify_membership sha {E = E} root k.position k.purpose_tag k.ml_dsa_pk k.slh_dsa_pk path
        ≡ ok (bytes_eq (climb sha (sha.digest (preimage sha k)) k.position path) root)
  unfolding verify_membership
  verify_membership-bytes_eq E root k path fit =
      rw (u32_len_lem k.ml_dsa_pk fit.ml_dsa_lt, u32_len_lem k.slh_dsa_pk fit.slh_dsa_lt)

  abbrev pub prove_and_verify {ℓ} : (E : Type ℓ) → List Subkey → Subkey → Outcome E Bool
  prove_and_verify E keys k = do
    root ← merkle_root sha (hashes sha keys)
    path ← merkle_proof sha (hashes sha keys) k.position
    verify_membership sha root k.position k.purpose_tag k.ml_dsa_pk k.slh_dsa_pk path

  -- Over a list whose subkeys are numbered by their positions, `merkle_root`, `merkle_proof` and
  -- `verify_membership` together compute the look-up in the list: for every subkey at a position of
  -- the list, they answer, without a panic, whether the list has this very subkey there. Otherwise a
  -- text that `verify_membership` hashes on that path has the digest of a different text that the
  -- tree hashed. All subkeys are within the Rust types.
  pub prove_and_verify-is_member {ℓ} :
      (E : Type ℓ) (keys : List Subkey) (k : Subkey)
      → All Fits keys
      → Positioned keys
      → Fits k
      → k.position < length keys
      → (prove_and_verify E keys k ≡ ok (is_member keys k))
        ⊎ ((path : List Bytes) × (merkle_proof sha {E = E} (hashes sha keys) k.position ≡ ok path)
            × Forged sha keys k path)
  prove_and_verify-is_member E keys k fits positioned fit inside =
      let (h, at) = get_elem?-some keys k.position inside in
      let (path, proved, rooted) =
        merkle_proof-climb sha E E (hashes sha keys) k.position _
          (get_elem?-hashes keys k.position at) in
      let root = climb sha (sha.digest (preimage sha h)) k.position path in
      let answer = bytes_eq (climb sha (sha.digest (preimage sha k)) k.position path) root in
      let run : prove_and_verify E keys k ≡ ok answer =
        rw (rooted, proved) (verify_membership-bytes_eq E root k path fit) in
      let looked : is_member keys k ≡ same_subkey h k = ap (λ o. found_same o k) at in
      elim (Bool-cases answer) [
        | inl accepted ↦
            let sizes =
              (merkle_proof-eq-ok (λ s. length s ≡ 32) sha sha.length-digest {E = E} E
                (hashes sha keys) k.position path (hashes-All keys) proved).0 in
            elim (verify_membership_sound_of_all sha E keys k root path fits fit.position_lt
              fit.purpose_lt sizes rooted
              (verify_membership-bytes_eq E root k path fit ∙ ap ok accepted)) [
                | inl (i, there) ↦
                    let same : h ≡ k =
                      some-injective _ _
                        (sym at ∙ ap (get_elem? keys) (positioned i k there) ∙ there) in
                    let member : is_member keys k ≡ true =
                      looked ∙ ap (λ j. same_subkey j k) same ∙ same_subkey_refl k in
                    inl (run ∙ ap ok (accepted ∙ sym member))
                | inr forged ↦ inr (path, proved, forged)
              ]
        | inr denied ↦ elim (Bool-cases (same_subkey h k)) [
          | inl same ↦
              let both =
                ap (λ j. climb sha (sha.digest (preimage sha j)) k.position path)
                  (same_subkey-eq h k same) in
              absurd (let accepted = (bytes_eq_iff _ root).1 (sym both) in cc)
          | inr differ ↦ inl (run ∙ ap ok (denied ∙ sym (looked ∙ differ)))
        ]
      ]
