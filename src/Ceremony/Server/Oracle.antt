-- ===== src/Ceremony/Server/Oracle.antt =====
-- crates/pq-ceremony/src/main.rs with crates/pq-ceremony/src/lib.rs: what `POST /sign` answers for a
-- subkey of the ceremony.
use pq_enclave_binding.Base.{
  ℕ, ◌+◌, ◌<◌, ◌≡◌, sym, ap, ◌∙◌, subst, arith, List, some, Bytes, String, ok, ok-injective,
  get_elem?, get_elem?-All, get_elem?-lt, All, IsByte, length, lt→ltb, u32_mod,
}
use pq_enclave_binding.External.{Sha256, TextCodec, Json, Fips, FipsLaws}
use pq_enclave_binding.Merkle.{subkey_leaf, climb, merkle_proof}
use pq_enclave_binding.Merkle.Completeness.{merkle_proof-climb}
use pq_enclave_binding.Core.{DualSignature}
use pq_enclave_binding.Core.Signing.{Verifies, sign_payload-Verifies}
use pq_enclave_binding.Enclave.{Nsm}
use pq_enclave_binding.Derive.{Keyfork}
use pq_enclave_binding.Ceremony.{
  CeremonyError, CeremonyConfig, SubkeyRecord, CeremonyState, run_ceremony, find_subkey, proof,
  sign_with_subkey,
}
use pq_enclave_binding.Ceremony.Lanes.{Numbered, get_elem?-Numbered}
use pq_enclave_binding.Ceremony.Keys.{
  find_subkey-Numbered, Derivable, subkey_path-eq-ok, run_ceremony-Derivable,
}
use pq_enclave_binding.Ceremony.Provable.{run_ceremony-Finished}
use pq_enclave_binding.Ceremony.EndToEnd.{derive_keypair-IsKeypair}
use pq_enclave_binding.Ceremony.Server.{Req, Render, Reply, signed_fields, sign_response}

module _ (k : Keyfork) (sha : Sha256) (fips : Fips) (laws : FipsLaws fips)
    (hex base64 : TextCodec) where
  -- A signature that the oracle makes with the subkey of a record, and the path to its leaf.
  pub record Signed (state : CeremonyState k) (r : SubkeyRecord)
      (message ml_drawn slh_drawn : Bytes) : Type 0 where
    pub sig : DualSignature
    pub path : List Bytes
    pub leaf : Bytes
    pub answered :
        sign_with_subkey k sha fips {E = Reply} state r.global_index message ml_drawn slh_drawn
        ≡ ok (some (sig, path))
    pub ml_verifies : Verifies fips.ml_dsa r.ml_dsa_pk message sig.ml_dsa
    pub slh_verifies : Verifies fips.slh_dsa r.slh_dsa_pk message sig.slh_dsa
    pub ml_sig-IsByte : All IsByte sig.ml_dsa
    pub slh_sig-IsByte : All IsByte sig.slh_dsa
    pub ml_key-IsByte : All IsByte r.ml_dsa_pk
    pub slh_key-IsByte : All IsByte r.slh_dsa_pk
    pub numbered : Numbered sha 0 state.subkeys state.leaves
    pub found : find_subkey state.subkeys r.global_index ≡ some r
    pub leaf_made :
        subkey_leaf sha {E = CeremonyError} r.global_index r.purpose_tag r.ml_dsa_pk r.slh_dsa_pk
        ≡ ok leaf
    pub proved : merkle_proof sha {E = Reply} state.leaves r.global_index ≡ ok path
    pub root_hex : state.bundle.subkey_merkle_root ≡ hex.encode (climb sha leaf r.global_index path)

  pub run_ceremony-Signed :
      (n : Nsm) (root_ca_der : Bytes) (config : CeremonyConfig) (entropy ml_drawn slh_drawn : Bytes)
      (state : CeremonyState k) (i : ℕ) (r : SubkeyRecord) (message ml_drawn' slh_drawn' : Bytes)
      → config.auth_count + config.enc_count < u32_mod
      → run_ceremony k sha fips hex base64 n root_ca_der config entropy ml_drawn slh_drawn
        ≡ ok state
      → get_elem? state.subkeys i ≡ some r
      → (r.global_index ≡ i) × Signed state r message ml_drawn' slh_drawn'
  unfolding sign_with_subkey proof
  run_ceremony-Signed n root_ca_der config entropy ml_drawn slh_drawn state i r message ml_drawn'
        slh_drawn' small h at =
      let f =
        run_ceremony-Finished k sha fips hex base64 n root_ca_der config entropy ml_drawn slh_drawn
          state small h in
      let (index, leaf, there, made) =
        get_elem?-Numbered sha 0 state.subkeys state.leaves i f.numbered at in
      let d =
        get_elem?-All (Derivable k sha fips state.mnemonic) state.subkeys i
          (run_ceremony-Derivable k sha fips hex base64 n root_ca_der config entropy ml_drawn
            slh_drawn state h)
          at in
      let same : r.global_index ≡ i = omega (arith, index) in
      let there' : get_elem? state.leaves r.global_index ≡ some leaf =
        ap (get_elem? state.leaves) same ∙ there in
      let found =
        ap (find_subkey state.subkeys) index
        ∙ find_subkey-Numbered sha 0 state.subkeys state.leaves i f.numbered at in
      let (path, proved, climbs) =
        merkle_proof-climb sha Reply CeremonyError state.leaves r.global_index leaf there' in
      let pair =
        derive_keypair-IsKeypair k sha fips hex base64 laws state.mnemonic d.path d.kp d.derived in
      let (sig, signed, ml, slh, ml_bytes, slh_bytes) =
        sign_payload-Verifies fips laws Reply d.kp ml_drawn' slh_drawn' message pair in
      let inside =
        lt→ltb r.global_index (length state.leaves)
          (get_elem?-lt state.leaves r.global_index leaf there') in
      let path_made =
        subkey_path-eq-ok k sha fips Reply r.account r.account_index d.path d.path_made in
      (
        same,
        record {
          sig = sig;
          path = path;
          leaf = leaf;
          answered = rw (found, path_made, d.derived, signed, inside, proved);
          ml_verifies =
              subst {A = Bytes} (λ pk. Verifies fips.ml_dsa pk message sig.ml_dsa) d.ml_key ml;
          slh_verifies =
              subst {A = Bytes} (λ pk. Verifies fips.slh_dsa pk message sig.slh_dsa) d.slh_key slh;
          ml_sig-IsByte = ml_bytes;
          slh_sig-IsByte = slh_bytes;
          ml_key-IsByte =
              subst {A = Bytes} (All IsByte) (sym pair.ml_encoded ∙ d.ml_key)
                (laws.ml_dsa_laws.into_bytes-IsByte pair.ml_key);
          slh_key-IsByte =
              subst {A = Bytes} (All IsByte) (sym pair.slh_encoded ∙ d.slh_key)
                (laws.slh_dsa_laws.into_bytes-IsByte pair.slh_key);
          numbered = f.numbered;
          found = found;
          leaf_made = made;
          proved = proved;
          root_hex =
              f.root_hex ∙ ap hex.encode (ok-injective CeremonyError (sym f.rooted ∙ climbs));
        },
      )

  module _ (requests : Json Req) (render : Render) where
    pub sign_response-Signed :
        (state : CeremonyState k) (body : String) (req : Req) (r : SubkeyRecord)
        (message ml_drawn slh_drawn : Bytes)
        → requests.from_str body ≡ ok req
        → hex.decode req.message_hex ≡ ok message
        → r.global_index ≡ req.index
        → (s : Signed state r message ml_drawn slh_drawn)
        → sign_response k sha fips hex requests render state {E = CeremonyError} body ml_drawn
            slh_drawn
          ≡ ok (
            "200 OK",
            render.object (signed_fields k sha fips hex requests render r s.sig s.path),
          )
    unfolding sign_response
    sign_response-Signed state body req r message ml_drawn slh_drawn parsed decoded same s =
        let found : find_subkey state.subkeys req.index ≡ some r =
          ap (find_subkey state.subkeys) (sym same) ∙ s.found in
        let answered : sign_with_subkey k sha fips {E = Reply} state req.index message ml_drawn
              slh_drawn
            ≡ ok (some (s.sig, s.path)) =
          ap (λ i. sign_with_subkey k sha fips {E = Reply} state i message ml_drawn slh_drawn)
            (sym same)
          ∙ s.answered in
        rw (parsed, decoded, answered, found)
