-- ===== src/Cli/Commands/Whole.antt =====
-- crates/pq-cli/src/main.rs: what the check of a bundle establishes, from the files to the quote.
use pq_enclave_binding.Base.{
  ℕ, ◌≡◌, ◌↔◌, subst, Bool, Option, none, Bytes, String, ◌<>◌, ok, >>=-eq-ok, ok-injective, map_err,
  map_err-eq-ok,
}
use pq_enclave_binding.Bundle.{PqRootBundle, VerifyReport}
use pq_enclave_binding.Bundle.Accepted.{Accepted}
use pq_enclave_binding.Ots
use pq_enclave_binding.Ots.{BitcoinHeaderSource}
use pq_enclave_binding.Quote.{at_unix_secs, verify_quote}
use pq_enclave_binding.Cli.{Error, context, HeaderSource, source_of, bundle_digest}
use pq_enclave_binding.Cli.Steps.{verify_bundle_steps}
use pq_enclave_binding.Cli.Steps.Passed.{TimedBy}
use pq_enclave_binding.Cli.Steps.Verdict.{verify_bundle_steps_iff}
use pq_enclave_binding.Cli.Commands.{World, Options, source_given, choose_source, check_bundle}

module _ {Op : Type 0} (w : World Op) where
  -- The proof and the root certificate are read, the header source is chosen, the proof is anchored
  -- or pending at the instant, the certificate is the archived one, and the bundle is accepted.
  pub record Whole (bundle : PqRootBundle) (ots_path root_path : String) (o : Options)
      (x : Bool × Option ℕ) : Type 0 where
    pub ots_bytes : Bytes
    pub root_der : Bytes
    pub digest : Bytes
    pub chosen : HeaderSource
    pub instant : ℕ
    pub report : VerifyReport
    pub ots_read : w.files.read ots_path ≡ ok ots_bytes
    pub root_read : w.files.read root_path ≡ ok root_der
    pub digested : bundle_digest w.sha w.bundle_json bundle ≡ ok digest
    pub source_chosen : choose_source w o.headers o.esplora ≡ ok chosen
    pub timed :
        TimedBy
          (source_of w.ureq w.hex chosen)
          (source_given o.headers o.esplora)
          o.quote_time_unix
          w.now
          (Ots.verify w.crate w.hex ots_bytes digest (source_of w.ureq w.hex chosen))
          (x.0, instant, x.1)
    pub archived : w.hex.encode (w.sha.digest root_der) ≡ bundle.aws_root_ca_sha256
    pub accepted :
        Accepted w.hex w.base64 w.bundle_json w.sha w.fips bundle
          (verify_quote w.from_cose (at_unix_secs root_der instant))
          none
          report

  pub check_bundle_iff :
      (bundle : PqRootBundle) (ots_path root_path : String) (o : Options) (x : Bool × Option ℕ)
      → (check_bundle w bundle ots_path root_path o ≡ ok x) ↔ Whole bundle ots_path root_path o x
  unfolding check_bundle
  check_bundle_iff bundle ots_path root_path o x = (
    λ h.
        let (ots_bytes, e₁, h₁) =
          >>=-eq-ok (map_err (context ("reading ots " <> ots_path)) (w.files.read ots_path)) _ h in
        let (root_der, e₂, h₂) =
          >>=-eq-ok (map_err (context ("reading root CA " <> root_path)) (w.files.read root_path)) _
            h₁ in
        let (digest, e₃, h₃) = >>=-eq-ok (bundle_digest w.sha w.bundle_json bundle) _ h₂ in
        let (source, e₄, h₄) = >>=-eq-ok (choose_source w o.headers o.esplora) _ h₃ in
        let (y, e₅, h₅) =
          >>=-eq-ok
            (verify_bundle_steps w.hex w.base64 w.sha w.bundle_json w.fips w.from_cose w.crate w.now
              bundle ots_bytes digest root_der (source_of w.ureq w.hex source)
              (source_given o.headers o.esplora) o.quote_time_unix)
            _ h₄ in
        let (timed, archived, accepted) =
          (verify_bundle_steps_iff w.hex w.base64 w.sha w.bundle_json w.fips w.from_cose w.crate
              w.now bundle ots_bytes digest root_der (source_of w.ureq w.hex source)
              (source_given o.headers o.esplora) o.quote_time_unix y.0 y.1 y.2 y.3).0
            e₅ in
        subst {A = Bool × Option ℕ} (Whole bundle ots_path root_path o) (ok-injective Error h₅)
          (record {
            ots_bytes = ots_bytes;
            root_der = root_der;
            digest = digest;
            chosen = source;
            instant = y.1;
            report = y.3;
            ots_read = map_err-eq-ok _ (w.files.read ots_path) e₁;
            root_read = map_err-eq-ok _ (w.files.read root_path) e₂;
            digested = e₃;
            source_chosen = e₄;
            timed = timed;
            archived = archived;
            accepted = accepted;
          }),
    λ c.
        let steps =
          (verify_bundle_steps_iff w.hex w.base64 w.sha w.bundle_json w.fips w.from_cose w.crate
              w.now bundle c.ots_bytes c.digest c.root_der (source_of w.ureq w.hex c.chosen)
              (source_given o.headers o.esplora) o.quote_time_unix x.0 c.instant x.1 c.report).1
            (c.timed, c.archived, c.accepted) in
        rw (c.ots_read, c.root_read, c.digested, c.source_chosen, steps),
  )
