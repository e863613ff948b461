-- ===== src/Cli/Commands/EndToEnd.antt =====
-- crates/pq-cli/src/main.rs over crates/pq-ceremony/src: the commands accept what an honest ceremony
-- publishes and what its oracle signs.
use pq_enclave_binding.Base.{
  ℕ, ◌+◌, ◌<◌, ◌≡◌, refl, sym, ap, ◌∙◌, subst, ok-injective, some-injective, Bool, List, Option,
  none, some, Bytes, String, as_bytes, ok, get_elem?, u32_mod,
}
use pq_enclave_binding.External.{Json, FipsLaws}
use pq_enclave_binding.Core.{DualSignature}
use pq_enclave_binding.Bundle.{PqRootBundle}
use pq_enclave_binding.Bundle.Accepted.{bundle_verify_iff}
use pq_enclave_binding.Ots
use pq_enclave_binding.Quote.{at_unix_secs, verify_quote}
use pq_enclave_binding.Enclave.{Nsm}
use pq_enclave_binding.Derive.{Keyfork}
use pq_enclave_binding.Ceremony.{
  CeremonyError, CeremonyConfig, SubkeyRecord, CeremonyState, run_ceremony, sign_with_subkey,
}
use pq_enclave_binding.Ceremony.Ran.{run_ceremony-Ran}
use pq_enclave_binding.Ceremony.EndToEnd.{Attests, verify-run_ceremony}
use pq_enclave_binding.Ceremony.Server.{Req, Render, Reply, signed_fields, sign_response}
use pq_enclave_binding.Ceremony.Server.Oracle.{run_ceremony-Signed, sign_response-Signed}
use pq_enclave_binding.Cli.{HeaderSource, source_of, load_bundle, bundle_digest}
use pq_enclave_binding.Cli.Steps.Passed.{TimedBy}
use pq_enclave_binding.Cli.Commands.{
  World, Verdict, Options, source_given, choose_source, check_bundle, cmd_verify, subkey_verdict,
  verify_subkey,
}
use pq_enclave_binding.Cli.Commands.Member.{Checked}
use pq_enclave_binding.Cli.Commands.Served.{response, Signed-Checked}
use pq_enclave_binding.Cli.Commands.Verdicts.{
  Says, cmd_verify_iff, subkey_verdict-SubkeySays, verify_subkey_iff,
}
use pq_enclave_binding.Cli.Commands.Whole.{check_bundle_iff}

module _ {Op : Type 0} (w : World Op) where
  -- The files of an honest run: the certificate of the ceremony, and a proof for the bundle's digest
  -- that is anchored or pending at an instant.
  pub record HonestFiles (bundle : PqRootBundle) (root_ca_der : Bytes) (ots_path root_path : String)
      (o : Options) (instant : ℕ) (x : Bool × Option ℕ) : Type 0 where
    pub ots_bytes : Bytes
    pub text : String
    pub chosen : HeaderSource
    pub ots_read : w.files.read ots_path ≡ ok ots_bytes
    pub root_read : w.files.read root_path ≡ ok root_ca_der
    pub written : w.bundle_json.to_string_pretty bundle ≡ ok text
    pub source_chosen : choose_source w o.headers o.esplora ≡ ok chosen
    pub timed :
        TimedBy
          (source_of w.ureq w.hex chosen)
          (source_given o.headers o.esplora)
          o.quote_time_unix
          w.now
          (Ots.verify w.crate w.hex ots_bytes
            (w.sha.digest (as_bytes text))
            (source_of w.ureq w.hex chosen))
          (x.0, instant, x.1)

  module _ (laws : FipsLaws w.fips) (k : Keyfork) (n : Nsm) (root_ca_der : Bytes)
      (config : CeremonyConfig) (entropy ml_drawn slh_drawn : Bytes) (state : CeremonyState k)
      (small : config.auth_count + config.enc_count < u32_mod)
      (finished : run_ceremony k w.sha w.fips w.hex w.base64 n root_ca_der config entropy ml_drawn
          slh_drawn
        ≡ ok state)
      (ots_path root_path : String) (o : Options) (instant : ℕ) (x : Bool × Option ℕ)
      (attests : Attests n (verify_quote w.from_cose (at_unix_secs root_ca_der instant)))
      (files : HonestFiles state.bundle root_ca_der ots_path root_path o instant x) where
    check_bundle-run_ceremony : check_bundle w state.bundle ots_path root_path o ≡ ok x
    unfolding bundle_digest
    check_bundle-run_ceremony =
        let p =
          run_ceremony-Ran k w.sha w.fips w.hex w.base64 n root_ca_der config entropy ml_drawn
            slh_drawn state finished in
        let (report, verified, _) =
          verify-run_ceremony k w.sha w.fips w.hex w.base64 laws n root_ca_der config entropy
            ml_drawn slh_drawn state w.bundle_json
            (verify_quote w.from_cose (at_unix_secs root_ca_der instant)) small attests finished in
        (check_bundle_iff w state.bundle ots_path root_path o x).1 (record {
          ots_bytes = files.ots_bytes;
          root_der = root_ca_der;
          digest = w.sha.digest (as_bytes files.text);
          chosen = files.chosen;
          instant = instant;
          report = report;
          ots_read = files.ots_read;
          root_read = files.root_read;
          digested = rw files.written;
          source_chosen = files.source_chosen;
          timed = files.timed;
          archived = ap (λ s. PqRootBundle.aws_root_ca_sha256 (CeremonyState.bundle s)) p.made;
          accepted =
              (bundle_verify_iff w.hex w.base64 w.bundle_json w.sha w.fips state.bundle
                  (verify_quote w.from_cose (at_unix_secs root_ca_der instant)) none report).0
                verified;
        })

    -- The bundle of a finished ceremony, in a file that `load_bundle` reads back, is verified by
    -- `verify` with the ceremony's own certificate as the root and a proof that is anchored, or
    -- pending, at an instant at which the attestation library accepts what the module attests. The
    -- verdict is that of the proof.
    pub cmd_verify-run_ceremony :
        (bundle_path : String) (v : Verdict)
        → load_bundle w.bundle_json w.files bundle_path ≡ ok state.bundle
        → Says w v x
        → cmd_verify w bundle_path ots_path root_path o ≡ ok v
    cmd_verify-run_ceremony bundle_path v loaded says =
        (cmd_verify_iff w bundle_path ots_path root_path o v).1
          (state.bundle, x, loaded, check_bundle-run_ceremony, says)

    -- From the enclave to the verdict: when the oracle of a finished ceremony signs a request's
    -- message, the server answers with the signature, and `verify-subkey`, given this answer, the
    -- ceremony's bundle and certificate and a proof that is anchored or pending at an instant at
    -- which the attestation library accepts what the module attests, accepts the message with all
    -- checks, the ones of the bundle included. The verdict is that of the proof. The sum of the
    -- counts is a `u32`, and the signature crates obey their laws.
    pub verify_subkey-sign_response :
        (requests : Json Req) (render : Render) (body raw bundle_path subkey_path : String)
        (req : Req) (r : SubkeyRecord) (message ml_drawn' slh_drawn' : Bytes) (sig : DualSignature)
        (path : List Bytes)
        → load_bundle w.bundle_json w.files bundle_path ≡ ok state.bundle
        → requests.from_str body ≡ ok req
        → w.hex.decode req.message_hex ≡ ok message
        → get_elem? state.subkeys req.index ≡ some r
        → sign_with_subkey k w.sha w.fips {E = Reply} state req.index message ml_drawn' slh_drawn'
          ≡ ok (some (sig, path))
        → w.files.read_to_string subkey_path ≡ ok raw
        → w.subkey_json.from_str raw ≡ ok (response w r sig path)
        → (sign_response k w.sha w.fips w.hex requests render state {E = CeremonyError} body
              ml_drawn' slh_drawn'
            ≡ ok (
              "200 OK",
              render.object (signed_fields k w.sha w.fips w.hex requests render r sig path),
            ))
          × (verify_subkey w bundle_path subkey_path
                (some req.message_hex)
                (some ots_path)
                (some root_path)
                o
              ≡ ok (subkey_verdict w x.0 (some ots_path) x.1))
    verify_subkey-sign_response requests render body raw bundle_path subkey_path req r message
          ml_drawn' slh_drawn' sig path loaded parsed decoded at signed read read_back =
        let (same, s) =
          run_ceremony-Signed k w.sha w.fips laws w.hex w.base64 n root_ca_der config entropy
            ml_drawn slh_drawn state req.index r message ml_drawn' slh_drawn' small finished at in
        let answer : (s.sig, s.path) ≡ (sig, path) = some-injective _ _ (
          ok-injective Reply (
            sym s.answered
            ∙ ap
                (λ i.
                  sign_with_subkey k w.sha w.fips {E = Reply} state i message ml_drawn' slh_drawn')
                same
            ∙ signed)) in
        let checked =
          Signed-Checked w k laws state r message ml_drawn' slh_drawn' req.message_hex decoded s in
        (
          sign_response-Signed k w.sha w.fips laws w.hex w.base64 requests render state body req r
                message ml_drawn' slh_drawn' parsed decoded same s
              ∙ ap
                  (λ (a : DualSignature × List Bytes). ok (
                    "200 OK",
                    render.object (signed_fields k w.sha w.fips w.hex requests render r a.0 a.1),
                  ))
                  answer,
          (verify_subkey_iff w bundle_path subkey_path (some req.message_hex) (some ots_path)
                (some root_path) o (subkey_verdict w x.0 (some ots_path) x.1)).1
              (
                state.bundle,
                raw,
                response w r sig path,
                x,
                loaded,
                read,
                read_back,
                (root_path, refl, check_bundle-run_ceremony),
                subst {A = DualSignature × List Bytes}
                    (λ a. Checked w state.bundle (response w r a.0 a.1) (some req.message_hex))
                    answer checked,
                subkey_verdict-SubkeySays w x.0 (some ots_path) x.1,
              ),
        )
