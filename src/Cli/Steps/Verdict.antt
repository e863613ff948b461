-- ===== src/Cli/Steps/Verdict.antt =====
-- crates/pq-cli/src/main.rs: what `verify_bundle_steps` has established when it succeeds.
use pq_enclave_binding.Base.{
  ℕ, ◌≡◌, ◌↔◌, ap, subst, Bool, true, false, not, Option, none, Bytes, str_eq, str_eq_iff, Outcome,
  ok, err, panic, >>=-eq-ok, ok-injective, fail_if, fail_unless-eq-ok, if◌then◌else◌,
}
use pq_enclave_binding.External.{Sha256, TextCodec, Json, Fips}
use pq_enclave_binding.Bundle
use pq_enclave_binding.Bundle.{
  PqRootBundle, VerifyReport, QuoteVerifier, quote_parse, debug_mode, pcr_mismatch,
  binding_mismatch, hex_decode, base64_decode, signature, json,
}
use pq_enclave_binding.Bundle.Accepted.{Accepted, bundle_verify_iff}
use pq_enclave_binding.Ots
use pq_enclave_binding.Ots.{OtsCodec, BitcoinHeaderSource, BitcoinAnchor}
use pq_enclave_binding.Quote.{FromCose, at_unix_secs, root_sha256_hex, verify_quote}
use pq_enclave_binding.Cli.{Error}
use pq_enclave_binding.Cli.Steps.{
  anchor_step, or_false, legacy_probe, diagnose_binding_mismatch, report_step, verify_bundle_steps,
}
use pq_enclave_binding.Cli.Steps.Passed.{TimedBy, anchor_step-eq-ok, anchor_step-TimedBy}

module _ (hex base64 : TextCodec) (sha : Sha256) where
  -- The diagnosis is an error in any case.
  diagnose-ne-ok :
      (bundle : PqRootBundle) (vq : QuoteVerifier) (report : VerifyReport)
      → diagnose_binding_mismatch hex base64 sha bundle vq ≡ ok report
      → ⊥
  unfolding diagnose_binding_mismatch
  diagnose-ne-ok bundle vq report h =
      let (probe, _, k) = >>=-eq-ok (or_false (legacy_probe hex base64 sha bundle vq)) _ h in
      cases probe k
    where
      cases :
          (probe : Bool)
          → ◌≡◌ {A = Outcome Error VerifyReport}
              (if probe then err Error.older_ceremony else err Error.unknown_commitment)
              (ok report)
          → ⊥
      cases true k = cc k
      cases false k = cc k

  report_step-eq-ok :
      (bundle : PqRootBundle) (vq : QuoteVerifier) (result : Outcome Bundle.Error VerifyReport)
      (report : VerifyReport)
      → report_step hex base64 sha bundle vq result ≡ ok report
      → result ≡ ok report
  unfolding report_step
  report_step-eq-ok bundle vq (ok r) report h = ap ok (ok-injective Error h)
  report_step-eq-ok bundle vq (err binding_mismatch) report h =
      absurd (diagnose-ne-ok bundle vq report h)
  report_step-eq-ok bundle vq (err (quote_parse e)) report h = absurd (cc h)
  report_step-eq-ok bundle vq (err debug_mode) report h = absurd (cc h)
  report_step-eq-ok bundle vq (err (pcr_mismatch i a b)) report h = absurd (cc h)
  report_step-eq-ok bundle vq (err (hex_decode a b)) report h = absurd (cc h)
  report_step-eq-ok bundle vq (err (base64_decode a b)) report h = absurd (cc h)
  report_step-eq-ok bundle vq (err (signature e)) report h = absurd (cc h)
  report_step-eq-ok bundle vq (err (json e)) report h = absurd (cc h)
  report_step-eq-ok bundle vq panic report h = absurd (cc h)

module _ {Op : Type 0} (hex base64 : TextCodec) (sha : Sha256) (serde : Json PqRootBundle)
    (fips : Fips) (from_cose : FromCose) (crate : OtsCodec Op) (now : ℕ) (bundle : PqRootBundle)
    (ots_bytes digest root_der : Bytes) (source : BitcoinHeaderSource) (source_given : Bool)
    (override : Option ℕ) where
  abbrev pub verifier_at : ℕ → QuoteVerifier
  verifier_at t = verify_quote from_cose (at_unix_secs root_der t)

  -- `verify_bundle_steps` succeeds exactly if, for a verification instant `t`: either the proof is
  -- anchored, a header source is given, and `t` is the time of the earliest anchor's block, from
  -- which an override is at most two hours off (or the override, where the source knows no time);
  -- or the proof commits to the digest and is pending, and `t` is now. And the pinned root has the
  -- SHA-256 that the bundle archives, and the bundle's `verify` accepts with this report under the
  -- Nitro verifier for that root and instant.
  pub verify_bundle_steps_iff :
      (pending : Bool) (t : ℕ) (height : Option ℕ) (report : VerifyReport)
      → (verify_bundle_steps hex base64 sha serde fips from_cose crate now bundle ots_bytes digest
            root_der source source_given override
          ≡ ok (pending, t, height, report))
        ↔ (TimedBy source source_given override now
              (Ots.verify crate hex ots_bytes digest source)
              (pending, t, height)
            × (hex.encode (sha.digest root_der) ≡ bundle.aws_root_ca_sha256)
            × Accepted hex base64 serde sha fips bundle (verifier_at t) none report)
  unfolding verify_bundle_steps report_step root_sha256_hex at_unix_secs
  verify_bundle_steps_iff pending t height report = (passed, made)
    where
      Passes : Bool × ℕ × Option ℕ × VerifyReport → Type 0
      Passes (pending, t, height, report) =
          TimedBy source source_given override now (Ots.verify crate hex ots_bytes digest source)
            (pending, t, height)
          × (hex.encode (sha.digest root_der) ≡ bundle.aws_root_ca_sha256)
          × Accepted hex base64 serde sha fips bundle (verifier_at t) none report

      passed :
          verify_bundle_steps hex base64 sha serde fips from_cose crate now bundle ots_bytes digest
              root_der source source_given override
            ≡ ok (pending, t, height, report)
          → Passes (pending, t, height, report)
      passed h =
          let (x, e₁, h₁) =
            >>=-eq-ok
              (anchor_step source source_given override now
                (Ots.verify crate hex ots_bytes digest source))
              _ h in
          let (_, e₂, h₂) =
            >>=-eq-ok
              (fail_if (not (str_eq (hex.encode (sha.digest root_der)) bundle.aws_root_ca_sha256))
                _)
              _ h₁ in
          let vq = verifier_at x.1 in
          let (r, e₃, h₃) =
            >>=-eq-ok
              (report_step hex base64 sha bundle vq
                (Bundle.verify hex base64 serde sha fips bundle vq none))
              _ h₂ in
          subst {A = Bool × ℕ × Option ℕ × VerifyReport} Passes (ok-injective Error h₃) (
            anchor_step-eq-ok source source_given override now _ x e₁,
            (str_eq_iff _ _).0 (fail_unless-eq-ok _ _ e₂),
            (bundle_verify_iff hex base64 serde sha fips bundle vq none r).0
                (report_step-eq-ok hex base64 sha bundle vq _ r e₃),
          )

      made :
          Passes (pending, t, height, report)
          → verify_bundle_steps hex base64 sha serde fips from_cose crate now bundle ots_bytes
              digest root_der source source_given override
            ≡ ok (pending, t, height, report)
      made (timed, pinned, accepted) = rw (
        anchor_step-TimedBy source source_given override now _ (pending, t, height) timed,
        (str_eq_iff _ _).1 pinned,
        (bundle_verify_iff hex base64 serde sha fips bundle (verifier_at t) none report).1 accepted,
      )
