-- ===== src/Tests/BundleRuns.antt =====
-- Runs of the bundle's verification on a bundle that is accepted, on one of a debug enclave, and on
-- one whose keys were exchanged.
use pq_enclave_binding.Base.{
  ◌≡◌, ◌↔◌, ◌⊎◌, refl, arith, Option, none, some, [], ◌∷◌, Bytes, String, Outcome, ok, err, be32,
}
use pq_enclave_binding.Core.{canonical_payload_with_subkeys, user_data_commitment, verify_dual}
use pq_enclave_binding.Bundle.{
  debug_mode, binding_mismatch, QuoteData, VerifyReport, QuoteVerifier, TimestampVerifier,
  PqRootBundle, Decoded, verify,
}
use pq_enclave_binding.Bundle.Stages.{AllZero}
use pq_enclave_binding.Bundle.Accepted.{Accepted, bundle_verify_iff}
use pq_enclave_binding.Bundle.Tamper.{PayloadsCollide, verify_binds}
use pq_enclave_binding.Bundle.Rejected.{
  Quoted, Differs, verify-debug_mode_iff, verify-binding_mismatch_iff,
}
use pq_enclave_binding.Tests.Doubles.{test_sha, test_codec, test_fips, test_json, fill}

abbrev payload : Bytes
payload = 0 ∷ 0 ∷ 0 ∷ 1 ∷ 1 ∷ 0 ∷ 0 ∷ 0 ∷ 1 ∷ 0 ∷ 0 ∷ 0 ∷ 0 ∷ 1 ∷ 9 ∷ 0 ∷ 0 ∷ 0 ∷ 2 ∷ []

abbrev pub bundle : PqRootBundle
bundle = record {
  version = "2";
  ml_dsa_pk = "1.";
  slh_dsa_pk = ".";
  nsm_quote = "11.1.";
  aws_root_ca_sha256 = "";
  expected_pcrs = record { pcr0 = "111."; pcr1 = "11."; pcr2 = "1." };
  subkey_merkle_root = "111111111.";
  subkey_count = 2;
  ml_dsa_sig = test_codec.encode (1 ∷ fill 60 payload);
  slh_dsa_sig = test_codec.encode (0 ∷ fill 60 payload);
}

abbrev pub quote_of : Bytes → QuoteVerifier
unfolding user_data_commitment
quote_of p bytes = ok (record {
  pcr0 = 3 ∷ [];
  pcr1 = 2 ∷ [];
  pcr2 = 1 ∷ [];
  user_data = user_data_commitment test_sha p;
})

abbrev debug_quote : QuoteVerifier
debug_quote bytes = ok (record { pcr0 = 0 ∷ 0 ∷ []; pcr1 = []; pcr2 = 0 ∷ []; user_data = [] })

-- A timestamp verifier that accepts any proof of one byte.
abbrev timestamps : Option (TimestampVerifier × Bytes)
timestamps = some (λ digest ots. if_one ots, 5 ∷ [])
  where
    if_one : Bytes → Outcome String (Unit {0})
    if_one [] = err "empty"
    if_one (b ∷ bs) = ok tt

abbrev report : VerifyReport
unfolding user_data_commitment
report = record {
  pcr0 = 3 ∷ [];
  pcr1 = 2 ∷ [];
  pcr2 = 1 ∷ [];
  user_data = user_data_commitment test_sha payload;
  ml_dsa_pk_len = 1;
  slh_dsa_pk_len = 1;
  subkey_merkle_root = 9 ∷ [];
  subkey_count = 2;
}

bundle_verify_iff_example :
    (verify test_codec test_codec
        (test_json PqRootBundle)
        test_sha
        test_fips
        bundle
        (quote_of payload)
        timestamps
      ≡ ok report)
    ↔ Accepted test_codec test_codec
        (test_json PqRootBundle)
        test_sha
        test_fips
        bundle
        (quote_of payload)
        timestamps
        report
bundle_verify_iff_example =
    bundle_verify_iff test_codec test_codec (test_json PqRootBundle) test_sha test_fips bundle
      (quote_of payload) timestamps report

verify_binds_example :
    ((test_codec.decode bundle.ml_dsa_pk ≡ test_codec.decode bundle.ml_dsa_pk)
      × (test_codec.decode bundle.slh_dsa_pk ≡ test_codec.decode bundle.slh_dsa_pk)
      × (report.subkey_merkle_root ≡ report.subkey_merkle_root)
      × (bundle.subkey_count ≡ bundle.subkey_count))
    ⊎ PayloadsCollide test_codec test_sha bundle bundle
unfolding verify quote_of canonical_payload_with_subkeys be32 verify_dual
verify_binds_example =
    verify_binds test_codec test_codec (test_json PqRootBundle) test_sha test_fips bundle bundle
      (quote_of payload) (quote_of payload) timestamps none report report (omega arith)
      (omega arith) refl refl refl

verify-debug_mode_iff_example :
    (verify test_codec test_codec
        (test_json PqRootBundle)
        test_sha
        test_fips
        bundle
        debug_quote
        none
      ≡ err debug_mode)
    ↔ ((d : Decoded) × (q : QuoteData) × Quoted test_codec test_codec
          (test_json PqRootBundle)
          test_sha
          test_fips
          bundle
          debug_quote
          none
          d
          q
        × AllZero q.pcr0
        × AllZero q.pcr1
        × AllZero q.pcr2)
verify-debug_mode_iff_example =
    verify-debug_mode_iff test_codec test_codec (test_json PqRootBundle) test_sha test_fips bundle
      debug_quote none

verify-binding_mismatch_iff_example :
    (verify test_codec test_codec
        (test_json PqRootBundle)
        test_sha
        test_fips
        bundle
        (quote_of [])
        none
      ≡ err binding_mismatch)
    ↔ ((d : Decoded) × (q : QuoteData) × Quoted test_codec test_codec
          (test_json PqRootBundle)
          test_sha
          test_fips
          bundle
          (quote_of [])
          none
          d
          q
        × Differs test_codec test_sha bundle d q)
verify-binding_mismatch_iff_example =
    verify-binding_mismatch_iff test_codec test_codec (test_json PqRootBundle) test_sha test_fips
      bundle (quote_of []) none
