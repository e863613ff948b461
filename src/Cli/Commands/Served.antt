-- ===== src/Cli/Commands/Served.antt =====
-- crates/pq-cli/src/main.rs with crates/pq-ceremony/src/main.rs: `verify-subkey` accepts what the
-- enclave's `POST /sign` answers.
use pq_enclave_binding.Base.{
  ◌+◌, ◌<◌, ◌≡◌, refl, ap, ◌∙◌, List, [], ◌∷◌, map, some, Bytes, String, ok, All, get_elem?,
  u32_mod,
}
use pq_enclave_binding.External.{Json, FipsLaws}
use pq_enclave_binding.Merkle.{climb}
use pq_enclave_binding.Merkle.Paths.{merkle_proof-eq-ok, verify_membership_lem}
use pq_enclave_binding.Core.{DualSignature}
use pq_enclave_binding.Enclave.{Nsm}
use pq_enclave_binding.Derive.{Keyfork}
use pq_enclave_binding.Ceremony.{
  CeremonyError, CeremonyConfig, SubkeyRecord, CeremonyState, run_ceremony,
}
use pq_enclave_binding.Ceremony.Nodes.{
  IsNode, digest-IsNode, leaf-IsNode, Numbered-IsNode, climb-IsNode,
}
use pq_enclave_binding.Ceremony.Server.{Reply, Req, Render, signed_fields, sign_response}
use pq_enclave_binding.Ceremony.Server.Oracle.{Signed, run_ceremony-Signed, sign_response-Signed}
use pq_enclave_binding.Cli.{Error}
use pq_enclave_binding.Cli.Commands.{World, SubkeyResponse, check_subkey}
use pq_enclave_binding.Cli.Commands.Nodes.{Nodes}
use pq_enclave_binding.Cli.Commands.Member.{Checked, check_subkey_iff}

module _ {Op : Type 0} (w : World Op) where
  encoded-Nodes : (path : List Bytes) → All IsNode path → Nodes w (map w.hex.encode path) path
  encoded-Nodes [] all = tt
  encoded-Nodes (x ∷ path) ((bytes, size), all) =
      (w.hex.decode-encode x bytes, size, encoded-Nodes path all)

  -- The response with the fields of `signed_fields`.
  abbrev pub response : SubkeyRecord → DualSignature → List Bytes → SubkeyResponse
  response r sig path = record {
    index = r.global_index;
    purpose_tag = r.purpose_tag;
    ml_dsa_pk = w.hex.encode r.ml_dsa_pk;
    slh_dsa_pk = w.hex.encode r.slh_dsa_pk;
    ml_dsa_sig = some (w.hex.encode sig.ml_dsa);
    slh_dsa_sig = some (w.hex.encode sig.slh_dsa);
    merkle_proof = map w.hex.encode path;
  }

  pub Signed-Checked :
      (k : Keyfork) (laws : FipsLaws w.fips) (state : CeremonyState k) (r : SubkeyRecord)
      (message ml_drawn slh_drawn : Bytes) (message_hex : String)
      → w.hex.decode message_hex ≡ ok message
      → (s : Signed k w.sha w.fips laws w.hex w.base64 state r message ml_drawn slh_drawn)
      → Checked w state.bundle (response r s.sig s.path) (some message_hex)
  Signed-Checked k laws state r message ml_drawn slh_drawn message_hex decoded s =
      let leaf = leaf-IsNode w.sha r s.leaf s.leaf_made in
      let root = climb-IsNode w.sha s.leaf r.global_index s.path leaf in
      let leaves = Numbered-IsNode w.sha 0 state.subkeys state.leaves s.numbered in
      let nodes =
        (merkle_proof-eq-ok IsNode w.sha (digest-IsNode w.sha) {E = Reply} Error state.leaves
          r.global_index s.path leaves s.proved).0 in
      record {
        root = climb w.sha s.leaf r.global_index s.path;
        ml_pk = r.ml_dsa_pk;
        slh_pk = r.slh_dsa_pk;
        siblings = s.path;
        root_hex = ap w.hex.decode s.root_hex ∙ w.hex.decode-encode _ root.0;
        root_size = root.1;
        ml_hex = w.hex.decode-encode r.ml_dsa_pk s.ml_key-IsByte;
        slh_hex = w.hex.decode-encode r.slh_dsa_pk s.slh_key-IsByte;
        nodes = encoded-Nodes s.path nodes;
        member =
            verify_membership_lem Error w.sha r.global_index r.purpose_tag r.ml_dsa_pk r.slh_dsa_pk
              s.leaf s.path s.leaf_made;
        signed = (
          message,
          _,
          _,
          s.sig.ml_dsa,
          s.sig.slh_dsa,
          decoded,
          refl,
          refl,
          w.hex.decode-encode s.sig.ml_dsa s.ml_sig-IsByte,
          w.hex.decode-encode s.sig.slh_dsa s.slh_sig-IsByte,
          s.ml_verifies,
          s.slh_verifies,
        );
      }

  -- In a ceremony that finishes, with counts whose sum is a `u32`, the server answers a request that
  -- reads as the index of a subkey and a message with 200 and an object of seven fields; and the
  -- subkey checks of `verify-subkey` accept a response with these fields, for this message, against
  -- the bundle of the ceremony. Both sides use the same codec, hash and signature crates.
  pub check_subkey-sign_response :
      (k : Keyfork) (laws : FipsLaws w.fips) (requests : Json Req) (render : Render) (n : Nsm)
      (root_ca_der : Bytes) (config : CeremonyConfig) (entropy ml_drawn slh_drawn : Bytes)
      (state : CeremonyState k) (body : String) (req : Req) (r : SubkeyRecord)
      (message ml_drawn' slh_drawn' : Bytes)
      → config.auth_count + config.enc_count < u32_mod
      → run_ceremony k w.sha w.fips w.hex w.base64 n root_ca_der config entropy ml_drawn slh_drawn
        ≡ ok state
      → requests.from_str body ≡ ok req
      → w.hex.decode req.message_hex ≡ ok message
      → get_elem? state.subkeys req.index ≡ some r
      → (sig : DualSignature) × (path : List Bytes) × (sign_response k w.sha w.fips w.hex requests
            render state {E = CeremonyError} body ml_drawn' slh_drawn'
          ≡ ok (
            "200 OK",
            render.object (signed_fields k w.sha w.fips w.hex requests render r sig path),
          ))
        × (check_subkey w state.bundle (response r sig path) (some req.message_hex) ≡ ok tt)
  check_subkey-sign_response k laws requests render n root_ca_der config entropy ml_drawn slh_drawn
        state body req r message ml_drawn' slh_drawn' small h parsed decoded at =
      let (same, s) =
        run_ceremony-Signed k w.sha w.fips laws w.hex w.base64 n root_ca_der config entropy ml_drawn
          slh_drawn state req.index r message ml_drawn' slh_drawn' small h at in
      (
        s.sig,
        s.path,
        sign_response-Signed k w.sha w.fips laws w.hex w.base64 requests render state body req r
            message ml_drawn' slh_drawn' parsed decoded same s,
        (check_subkey_iff w state.bundle (response r s.sig s.path) (some req.message_hex)).1
            (Signed-Checked k laws state r message ml_drawn' slh_drawn' req.message_hex decoded s),
      )
