-- ===== src/Cli/Commands/Stamped.antt =====
-- crates/pq-cli/src/main.rs over crates/pq-ceremony/src: a bundle from the ceremony over `stamp` to
-- `verify`, before the proof is anchored.
use pq_enclave_binding.Base.{
  ℕ, ◌+◌, ◌<◌, ◌≡◌, refl, sym, ap, ◌∙◌, true, List, none, Bytes, String, as_bytes, ok, err,
  >>=-eq-ok, ok-injective, map_err-eq-ok, u32_mod,
}
use pq_enclave_binding.External.{FipsLaws}
use pq_enclave_binding.Bundle.{PqRootBundle, to_json}
use pq_enclave_binding.Ots
use pq_enclave_binding.Ots.{not_anchored, codec, parse_proof, DetachedTimestampFile}
use pq_enclave_binding.Ots.Tree.{Attested}
use pq_enclave_binding.Ots.Anchored.{verify-not_anchored_iff}
use pq_enclave_binding.Ots.Stamped.{OtsLaws, verify-stamp}
use pq_enclave_binding.Ots.Http
use pq_enclave_binding.Quote.{at_unix_secs, verify_quote}
use pq_enclave_binding.Enclave.{Nsm}
use pq_enclave_binding.Derive.{Keyfork}
use pq_enclave_binding.Ceremony.{CeremonyConfig, CeremonyState, run_ceremony}
use pq_enclave_binding.Ceremony.EndToEnd.{Attests}
use pq_enclave_binding.Cli.{Error, HeaderSource, source_of, load_bundle, bundle_digest}
use pq_enclave_binding.Cli.Commands.{
  World, Verdict, Options, stamp_via, choose_source, cmd_stamp, cmd_verify,
}
use pq_enclave_binding.Cli.Commands.Stamping.{cmd_stamp_iff}
use pq_enclave_binding.Cli.Commands.EndToEnd.{cmd_verify-run_ceremony}

module _ {Op : Type 0} (w : World Op) (laws : OtsLaws w.crate) where
  -- The proof has no attestation but pending ones.
  abbrev pub OnlyPending : Bytes → Type 0
  OnlyPending proof =
      (file : DetachedTimestampFile Op)
      → w.crate.from_reader proof ≡ ok file
      → (height : ℕ) (committed : Bytes) → Attested Op height committed file.timestamp.first_step
      → ⊥

  -- What a calendar has stamped is not anchored yet.
  stamp_via-not_anchored :
      (digest proof : Bytes) (url : String) (source : Ots.BitcoinHeaderSource)
      → stamp_via w digest url ≡ ok proof
      → OnlyPending proof
      → Ots.verify w.crate w.hex proof digest source ≡ err not_anchored
  unfolding stamp_via parse_proof
  stamp_via-not_anchored digest proof url source stamped waits =
      let (file, parsed, start, _, _) =
        verify-stamp w.crate laws w.hex digest (Http.submit w.ureq (record { base_url = url }))
          source proof stamped in
      let read = map_err-eq-ok codec (w.crate.from_reader proof) parsed in
      (verify-not_anchored_iff w.crate w.hex source proof digest).1
        (file, (read, start), waits file read)

  bundle_digest-eq-ok :
      (bundle : PqRootBundle) (digest : Bytes)
      → bundle_digest w.sha w.bundle_json bundle ≡ ok digest
      → (text : String) × (w.bundle_json.to_string_pretty bundle ≡ ok text)
        × (w.sha.digest (as_bytes text) ≡ digest)
  unfolding bundle_digest to_json
  bundle_digest-eq-ok bundle digest h =
      let (text, e, k) = >>=-eq-ok _ _ h in
      (text, map_err-eq-ok _ _ (map_err-eq-ok _ _ e), ok-injective Error k)

  -- The bundle of a finished ceremony, with counts whose sum is a `u32`, that `stamp` has stamped at
  -- a calendar is verified by `verify` with the written proof and the ceremony's certificate, as
  -- long as the proof has only pending attestations and a header source can be chosen: the verdict
  -- is partial. The attestation library accepts now what the module attests, and the crates for
  -- signatures and proofs obey their laws.
  pub cmd_verify-cmd_stamp :
      (fips_laws : FipsLaws w.fips) (k : Keyfork) (n : Nsm) (root_ca_der : Bytes)
      (config : CeremonyConfig) (entropy ml_drawn slh_drawn : Bytes) (state : CeremonyState k)
      (bundle_path ots_path root_path : String) (calendars : List String) (o : Options)
      (url : String) (proof : Bytes) (chosen : HeaderSource)
      → config.auth_count + config.enc_count < u32_mod
      → run_ceremony k w.sha w.fips w.hex w.base64 n root_ca_der config entropy ml_drawn slh_drawn
        ≡ ok state
      → Attests n (verify_quote w.from_cose (at_unix_secs root_ca_der w.now))
      → load_bundle w.bundle_json w.files bundle_path ≡ ok state.bundle
      → w.files.read root_path ≡ ok root_ca_der
      → choose_source w o.headers o.esplora ≡ ok chosen
      → cmd_stamp w bundle_path ots_path calendars ≡ ok (url, proof)
      → w.files.read ots_path ≡ ok proof
      → OnlyPending proof
      → cmd_verify w bundle_path ots_path root_path o ≡ ok Verdict.partial
  cmd_verify-cmd_stamp fips_laws k n root_ca_der config entropy ml_drawn slh_drawn state bundle_path
        ots_path root_path calendars o url proof chosen small finished attests loaded root_read
        source_chosen stamped ots_read waits =
      let (b, digest, loaded', digested, f) =
        (cmd_stamp_iff w bundle_path ots_path calendars url proof).0 stamped in
      let same : b ≡ state.bundle = ok-injective Error (sym loaded' ∙ loaded) in
      let (text, written, hashed) =
        bundle_digest-eq-ok state.bundle digest
          (ap (bundle_digest w.sha w.bundle_json) (sym same) ∙ digested) in
      let source = source_of w.ureq w.hex chosen in
      let waiting =
        ap (λ d. Ots.verify w.crate w.hex proof d source) hashed
        ∙ stamp_via-not_anchored digest proof url source f.stamped waits in
      cmd_verify-run_ceremony w fips_laws k n root_ca_der config entropy ml_drawn slh_drawn state
        small finished ots_path root_path o w.now (true, none) attests
        (record {
          ots_bytes = proof;
          text = text;
          chosen = chosen;
          ots_read = ots_read;
          root_read = root_read;
          written = written;
          source_chosen = source_chosen;
          timed = (waiting, refl, refl);
        })
        bundle_path Verdict.partial loaded refl
