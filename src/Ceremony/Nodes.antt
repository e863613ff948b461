-- ===== src/Ceremony/Nodes.antt =====
-- crates/pq-merkle/src/lib.rs under crates/pq-ceremony/src/lib.rs: the leaves, the root and the nodes
-- of a ceremony's tree are byte strings of 32 bytes.
use pq_enclave_binding.Base.{
  ℕ, zero, suc, ◌/◌, ◌%◌, ◌≡◌, refl, sym, subst, arith, Bool-cases, inl, inr, List, [], ◌∷◌,
  replicate, length-replicate, Bytes, ok, All, IsByte, length, ◌==◌,
}
use pq_enclave_binding.External.{Sha256}
use pq_enclave_binding.Merkle.{subkey_leaf, hash_node, climb, merkle_root}
use pq_enclave_binding.Merkle.Leaves.{Subkey}
use pq_enclave_binding.Merkle.Soundness.{preimage, subkey_leaf-eq-ok}
use pq_enclave_binding.Merkle.Completeness.{merkle_proof-climb}
use pq_enclave_binding.Ceremony.{CeremonyError, SubkeyRecord}
use pq_enclave_binding.Ceremony.Lanes.{Numbered, cons}

abbrev pub IsNode : Bytes → Type 0
IsNode b = All IsByte b × (length b ≡ 32)

pub digest-IsNode : (sha : Sha256) (b : Bytes) → IsNode (sha.digest b)
digest-IsNode sha b = (sha.digest-IsByte b, sha.length-digest b)

module _ (sha : Sha256) where
  pub leaf-IsNode :
      (r : SubkeyRecord) (leaf : Bytes)
      → subkey_leaf sha {E = CeremonyError} r.global_index r.purpose_tag r.ml_dsa_pk r.slh_dsa_pk
        ≡ ok leaf
      → IsNode leaf
  leaf-IsNode r leaf h =
      let s : Subkey = record {
        position = r.global_index;
        purpose_tag = r.purpose_tag;
        ml_dsa_pk = r.ml_dsa_pk;
        slh_dsa_pk = r.slh_dsa_pk;
      } in
      let (_, _, e) = subkey_leaf-eq-ok sha CeremonyError s h in
      subst {A = Bytes} IsNode (sym e) (digest-IsNode sha (preimage sha s))

  pub Numbered-IsNode :
      (n : ℕ) (rs : List SubkeyRecord) (leaves : List Bytes)
      → Numbered sha n rs leaves
      → All IsNode leaves
  Numbered-IsNode n rs [] x = tt
  Numbered-IsNode n [] (l ∷ leaves) x = elim x [ ]
  Numbered-IsNode n (r ∷ rs) (leaf ∷ leaves) (cons e made rest) =
      (leaf-IsNode r leaf made, Numbered-IsNode (suc n) rs leaves rest)

  pub climb-IsNode :
      (acc : Bytes) (idx : ℕ) (path : List Bytes) → IsNode acc → IsNode (climb sha acc idx path)
  unfolding climb hash_node
  climb-IsNode acc idx [] node = node
  climb-IsNode acc idx (x ∷ path) node = elim (Bool-cases (idx % 2 == 0)) [
    | inl even ↦
        rw (climb, even) (climb-IsNode (hash_node sha acc x) (idx / 2) path (digest-IsNode sha _))
    | inr odd ↦
        rw (climb, odd) (climb-IsNode (hash_node sha x acc) (idx / 2) path (digest-IsNode sha _))
  ]

  -- A root exists for every list of leaves. It is a node if the leaves are nodes.
  pub merkle_root-IsNode :
      (leaves : List Bytes)
      → All IsNode leaves
      → (root : Bytes) × (merkle_root sha {E = CeremonyError} leaves ≡ ok root) × IsNode root
  unfolding merkle_root
  merkle_root-IsNode [] all = (replicate 32 0, refl, (zeros 32, length-replicate {A = ℕ} 32 0))
    where
      zeros : (n : ℕ) → All IsByte (replicate n 0)
      zeros zero = tt
      zeros (suc n) = (omega arith, zeros n)
  merkle_root-IsNode (x ∷ leaves) all =
      let (path, _, climbs) =
        merkle_proof-climb sha CeremonyError CeremonyError (x ∷ leaves) 0 x refl in
      (climb sha x 0 path, climbs, climb-IsNode x 0 path all.0)
