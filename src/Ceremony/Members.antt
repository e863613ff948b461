-- ===== src/Ceremony/Members.antt =====
-- crates/pq-ceremony/src/lib.rs with crates/pq-merkle/src/lib.rs: the tree of a ceremony is the tree
-- over its records.
use pq_enclave_binding.Base.{
  ℕ, zero, suc, ◌+◌, ◌<◌, ◌≤◌, ◌≡◌, refl, sym, ap, ◌∙◌, arith, List, [], ◌∷◌, map, some, Bytes, ok,
  All, All-weaken, length, get_elem?, u32_mod, ok-injective,
}
use pq_enclave_binding.External.{Sha256, TextCodec, Fips}
use pq_enclave_binding.Merkle.{merkle_root}
use pq_enclave_binding.Merkle.Leaves.{Subkey, Fits}
use pq_enclave_binding.Merkle.Soundness.{preimage, hashes, subkey_leaf-eq-ok}
use pq_enclave_binding.Enclave.{Nsm}
use pq_enclave_binding.Derive.{Keyfork}
use pq_enclave_binding.Ceremony.{
  CeremonyError, CeremonyConfig, SubkeyRecord, CeremonyState, run_ceremony,
}
use pq_enclave_binding.Ceremony.Nodes.{Numbered-IsNode, merkle_root-IsNode}
use pq_enclave_binding.Ceremony.Provable.{run_ceremony-Finished}
use pq_enclave_binding.Ceremony.Keys.{run_ceremony-Derivable}
use pq_enclave_binding.Ceremony.Lanes.{Numbered, cons}

-- What the tree commits to of a record.
abbrev pub subkey_of : SubkeyRecord → Subkey
subkey_of r = record {
  position = r.global_index;
  purpose_tag = r.purpose_tag;
  ml_dsa_pk = r.ml_dsa_pk;
  slh_dsa_pk = r.slh_dsa_pk;
}

pub get_elem?-subkey_of :
    (rs : List SubkeyRecord) (i : ℕ) {s : Subkey}
    → get_elem? (map subkey_of rs) i ≡ some s
    → (r : SubkeyRecord) × (get_elem? rs i ≡ some r) × (subkey_of r ≡ s)
get_elem?-subkey_of [] i at = absurd (cc at)
get_elem?-subkey_of (r ∷ rs) zero at = (r, refl, cc at)
get_elem?-subkey_of (r ∷ rs) (suc i) at = get_elem?-subkey_of rs i at

module _ (sha : Sha256) where
  -- Leaves that are numbered with their records are the hashes of these, and the records are
  -- within the Rust types.
  pub Numbered-hashes :
      (n : ℕ) (rs : List SubkeyRecord) (leaves : List Bytes)
      → n + length rs ≤ u32_mod
      → All (λ (r : SubkeyRecord). r.purpose_tag < 256) rs
      → Numbered sha n rs leaves
      → (leaves ≡ hashes sha (map subkey_of rs)) × All Fits (map subkey_of rs)
  Numbered-hashes n [] [] small tags x = (refl, tt)
  Numbered-hashes n [] (l ∷ leaves) small tags x = elim x [ ]
  Numbered-hashes n (r ∷ rs) [] small tags x = elim x [ ]
  Numbered-hashes n (r ∷ rs) (leaf ∷ leaves) small tags (cons e made rest) =
      let (ml, slh, hashed) = subkey_leaf-eq-ok sha CeremonyError (subkey_of r) made in
      let (same, fit) = Numbered-hashes (suc n) rs leaves (omega (arith, small)) tags.1 rest in
      (
        ap (λ l. l ∷ leaves) hashed ∙ ap (λ ls. sha.digest (preimage sha (subkey_of r)) ∷ ls) same,
        (
          record {
            position_lt = omega (arith, small, e);
            purpose_lt = tags.0;
            ml_dsa_lt = ml;
            slh_dsa_lt = slh;
          },
          fit,
        ),
      )

module _ (k : Keyfork) (sha : Sha256) (fips : Fips) (hex base64 : TextCodec) where
  -- The root that a finished ceremony publishes is the Merkle root over its records.
  pub record Tree (state : CeremonyState k) : Type 0 where
    pub root : Bytes
    pub root_hex : hex.decode state.bundle.subkey_merkle_root ≡ ok root
    pub rooted :
        merkle_root sha {E = CeremonyError} (hashes sha (map subkey_of state.subkeys)) ≡ ok root
    pub fits : All Fits (map subkey_of state.subkeys)
    pub numbered : Numbered sha 0 state.subkeys state.leaves

  pub run_ceremony-Tree :
      (n : Nsm) (root_ca_der : Bytes) (config : CeremonyConfig) (entropy ml_drawn slh_drawn : Bytes)
      (state : CeremonyState k)
      → config.auth_count + config.enc_count < u32_mod
      → run_ceremony k sha fips hex base64 n root_ca_der config entropy ml_drawn slh_drawn
        ≡ ok state
      → Tree state
  run_ceremony-Tree n root_ca_der config entropy ml_drawn slh_drawn state small h =
      let f =
        run_ceremony-Finished k sha fips hex base64 n root_ca_der config entropy ml_drawn slh_drawn
          state small h in
      let tags =
        All-weaken (λ (r : SubkeyRecord). r.purpose_tag < 256) state.subkeys (λ r d. d.purpose_lt)
          (run_ceremony-Derivable k sha fips hex base64 n root_ca_der config entropy ml_drawn
            slh_drawn state h) in
      let (same, fits) =
        Numbered-hashes sha 0 state.subkeys state.leaves (omega (arith, small, f.all_counted)) tags
          f.numbered in
      let (root, made, node) =
        merkle_root-IsNode sha state.leaves
          (Numbered-IsNode sha 0 state.subkeys state.leaves f.numbered) in
      let same_root : f.root ≡ root = ok-injective CeremonyError (sym f.rooted ∙ made) in
      record {
        root = root;
        root_hex =
            ap hex.decode (f.root_hex ∙ ap hex.encode same_root) ∙ hex.decode-encode root node.0;
        rooted = ap (merkle_root sha) (sym same) ∙ made;
        fits = fits;
        numbered = f.numbered;
      }
