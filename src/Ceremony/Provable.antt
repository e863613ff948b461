-- ===== src/Ceremony/Provable.antt =====
-- crates/pq-ceremony/src/lib.rs: what a finished ceremony has recorded, and that every subkey of it
-- has a membership proof under the root in the bundle.
use pq_enclave_binding.Base.{
  ℕ, ◌+◌, ◌<◌, ◌≡◌, refl, sym, ◌∙◌, subst, arith, true, List, some, Bytes, ok, length, get_elem?,
  get_elem?-lt, u32_mod, lt→ltb,
}
use pq_enclave_binding.External.{Sha256, TextCodec, Fips}
use pq_enclave_binding.Merkle.{merkle_root, verify_membership}
use pq_enclave_binding.Merkle.Completeness.{merkle_proof-climb, verify_membership-merkle_proof}
use pq_enclave_binding.Enclave.{Nsm}
use pq_enclave_binding.Derive.{Keyfork}
use pq_enclave_binding.Ceremony.{
  CeremonyError, CeremonyConfig, SubkeyRecord, CeremonyState, run_ceremony, proof,
}
use pq_enclave_binding.Ceremony.Ran.{run_ceremony-Ran}
use pq_enclave_binding.Ceremony.Lanes.{Numbered, get_elem?-Numbered, derive_subkeys-Aligned}

-- The intermediate results of a finished ceremony that the bundle and the state show.
pub record Finished (k : Keyfork) (sha : Sha256) (hex : TextCodec) (config : CeremonyConfig)
    (state : CeremonyState k) : Type 0 where
  pub root : Bytes
  pub numbered : Numbered sha 0 state.subkeys state.leaves
  pub rooted : merkle_root sha {E = CeremonyError} state.leaves ≡ ok root
  pub root_hex : state.bundle.subkey_merkle_root ≡ hex.encode root
  pub counted : state.bundle.subkey_count ≡ config.auth_count + config.enc_count
  pub all_counted : length state.subkeys ≡ config.auth_count + config.enc_count

module _ (k : Keyfork) (sha : Sha256) (fips : Fips) (hex base64 : TextCodec) where
  pub run_ceremony-Finished :
      (n : Nsm) (root_ca_der : Bytes) (config : CeremonyConfig) (entropy ml_drawn slh_drawn : Bytes)
      (state : CeremonyState k)
      → config.auth_count + config.enc_count < u32_mod
      → run_ceremony k sha fips hex base64 n root_ca_der config entropy ml_drawn slh_drawn
        ≡ ok state
      → Finished k sha hex config state
  run_ceremony-Finished n root_ca_der config entropy ml_drawn slh_drawn state small h =
      let p =
        run_ceremony-Ran k sha fips hex base64 n root_ca_der config entropy ml_drawn slh_drawn state
          h in
      let ((numbered, next), total) =
        derive_subkeys-Aligned k sha fips p.mnemonic config p.d small p.derived in
      subst {A = CeremonyState k} (Finished k sha hex config) p.made (record {
        root = p.subkey_root;
        numbered = numbered;
        rooted = p.rooted;
        root_hex = refl;
        counted = total;
        all_counted = sym next ∙ total;
      })

  -- In a ceremony that finishes, with counts whose sum is a `u32`, the bundle has the number of all
  -- subkeys, and the record at each position has that position as its index. `proof` returns a
  -- path for it, with which `verify_membership` accepts the record's purpose and public keys under
  -- the Merkle root that the bundle publishes in hexadecimal.
  pub run_ceremony-proof :
      (n : Nsm) (root_ca_der : Bytes) (config : CeremonyConfig) (entropy ml_drawn slh_drawn : Bytes)
      (state : CeremonyState k) (i : ℕ) (r : SubkeyRecord)
      → config.auth_count + config.enc_count < u32_mod
      → run_ceremony k sha fips hex base64 n root_ca_der config entropy ml_drawn slh_drawn
        ≡ ok state
      → get_elem? state.subkeys i ≡ some r
      → (state.bundle.subkey_count ≡ config.auth_count + config.enc_count)
        × (length state.subkeys ≡ config.auth_count + config.enc_count)
        × (r.global_index ≡ i)
        × (root : Bytes) × (state.bundle.subkey_merkle_root ≡ hex.encode root)
        × (path : List Bytes) × (proof k sha fips {E = CeremonyError} state i ≡ ok (some path))
        × (verify_membership sha {E = CeremonyError} root i r.purpose_tag r.ml_dsa_pk r.slh_dsa_pk
              path
            ≡ ok true)
  unfolding proof
  run_ceremony-proof n root_ca_der config entropy ml_drawn slh_drawn state i r small h at =
      let f = run_ceremony-Finished n root_ca_der config entropy ml_drawn slh_drawn state small h in
      let (index, leaf, found, made) =
        get_elem?-Numbered sha 0 state.subkeys state.leaves i f.numbered at in
      let (path, proved, _) =
        merkle_proof-climb sha CeremonyError CeremonyError state.leaves i leaf found in
      let same : r.global_index ≡ i = omega (arith, index) in
      let made' = rw same at made in
      let checks =
        verify_membership-merkle_proof sha CeremonyError state.leaves i r.purpose_tag r.ml_dsa_pk
          r.slh_dsa_pk leaf made' found in
      let inside = lt→ltb i (length state.leaves) (get_elem?-lt state.leaves i leaf found) in
      (
        f.counted,
        f.all_counted,
        same,
        f.root,
        f.root_hex,
        path,
        rw (inside, proved),
        rw (f.rooted, proved) at checks,
      )
