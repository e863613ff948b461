-- ===== src/Tests/CliRuns.antt =====
-- Runs of the command line on the bundle and the proof of the other runs.
use mathlib.Core.List.Perm
use pq_enclave_binding.Base.{
  ℕ, ◌≡◌, ◌↔◌, refl, arith, Bool, true, false, List, [], ◌∷◌, none, some, Bytes, Outcome, ok, err,
  get, length,
}
use pq_enclave_binding.External.{Json}
use pq_enclave_binding.Bundle
use pq_enclave_binding.Bundle.{PqRootBundle, VerifyReport, binding_mismatch}
use pq_enclave_binding.Bundle.Accepted.{Accepted}
use pq_enclave_binding.Ots
use pq_enclave_binding.Ots.{BitcoinHeaderSource, BitcoinAnchor}
use pq_enclave_binding.Cli.{
  older_ceremony, Files, BlockInfo, HeaderSource, map, source_of, load_header_file, load_bundle,
  bundle_digest,
}
use pq_enclave_binding.Cli.Sources.{load_header_file_lem}
use pq_enclave_binding.Cli.Steps.{anchor_step, report_step, verify_bundle_steps}
use pq_enclave_binding.Cli.Steps.Unordered.{anchor_step-Perm}
use pq_enclave_binding.Cli.Steps.Passed.{TimedBy}
use pq_enclave_binding.Cli.Steps.Verdict.{verifier_at, verify_bundle_steps_iff}
use pq_enclave_binding.Cli.Steps.Diagnosis.{Legacy, report_step-older_ceremony_iff}
use pq_enclave_binding.Cli.Commands.{World, Options, SubkeyResponse, cmd_stamp}
use pq_enclave_binding.Cli.Commands.Stamping.{FirstStamped, cmd_stamp_iff}
use pq_enclave_binding.Tests.Doubles.{test_sha, test_codec, test_fips, test_json, fill}
use pq_enclave_binding.Tests.BundleRuns.{bundle, quote_of}
use pq_enclave_binding.Tests.OtsRuns.{proofs, single, headers, accept}
use pq_enclave_binding.Tests.HttpRuns.{server}

-- A reader that finds one value in every text.
abbrev pub holds : {A : Type 0} → A → Json A
holds a = record { to_string_pretty = λ a. ok "{}"; from_str = λ s. ok a }

abbrev entries : List (ℕ × BlockInfo)
entries =
    (7, record { merkle_root = test_codec.encode (2 ∷ fill 31 []); time = some 1000 })
    ∷ (9, record { merkle_root = test_codec.encode (fill 32 []); time = none })
    ∷ []

-- Every file to be read has the two bytes of a proof, and each write succeeds.
abbrev pub disk : Files
disk = record {
  read = λ path. ok (1 ∷ 4 ∷ []);
  read_to_string = λ path. ok "{}";
  write = λ path b. ok tt;
}

abbrev response : SubkeyResponse
response = record {
  index = 0;
  purpose_tag = 1;
  ml_dsa_pk = "1.";
  slh_dsa_pk = ".";
  ml_dsa_sig = none;
  slh_dsa_sig = none;
  merkle_proof = [];
}

abbrev world : World Bool
world = record {
  hex = test_codec;
  base64 = test_codec;
  sha = test_sha;
  fips = test_fips;
  from_cose = accept;
  crate = single;
  ureq = server;
  files = disk;
  now = 1000;
  bundle_json = holds bundle;
  headers_json = holds entries;
  subkey_json = holds response;
}

abbrev loaded : HeaderSource
loaded = map ((7, 2 ∷ fill 31 []) ∷ (9, fill 32 []) ∷ []) ((7, 1000) ∷ [])

load_header_file_lem_example :
    ((BitcoinHeaderSource.merkle_root (source_of server test_codec loaded) 7 ≡ ok (2 ∷ fill 31 []))
      ↔ ((info : BlockInfo) × (get entries 7 ≡ some info)
          × (test_codec.decode info.merkle_root ≡ ok (2 ∷ fill 31 []))
          × (length {A = ℕ} (2 ∷ fill 31 []) ≡ 32)))
    × (BitcoinHeaderSource.block_time (source_of server test_codec loaded) 7
        ≡ ok (elim (get entries 7) [ some info ↦ BlockInfo.time info | none ↦ none ]))
unfolding load_header_file
load_header_file_lem_example =
    load_header_file_lem test_codec server (holds entries) disk "headers.json" "{}" entries loaded
      refl refl ((omega arith, tt), (tt, tt)) refl 7 (2 ∷ fill 31 [])

abbrev empty_report : VerifyReport
empty_report = record {
  pcr0 = [];
  pcr1 = [];
  pcr2 = [];
  user_data = [];
  ml_dsa_pk_len = 1;
  slh_dsa_pk_len = 1;
  subkey_merkle_root = [];
  subkey_count = 0;
}

verify_bundle_steps_iff_example :
    (verify_bundle_steps test_codec test_codec test_sha
        (test_json PqRootBundle)
        test_fips
        accept
        proofs
        5
        bundle
        (1 ∷ 4 ∷ [])
        (4 ∷ [])
        (9 ∷ [])
        headers
        true
        (some 1000)
      ≡ ok (false, 1000, some 7, empty_report))
    ↔ (TimedBy headers true
          (some 1000)
          5
          (Ots.verify proofs test_codec (1 ∷ 4 ∷ []) (4 ∷ []) headers)
          (false, 1000, some 7)
        × (test_codec.encode (test_sha.digest (9 ∷ [])) ≡ PqRootBundle.aws_root_ca_sha256 bundle)
        × Accepted test_codec test_codec
            (test_json PqRootBundle)
            test_sha
            test_fips
            bundle
            (verifier_at test_codec test_codec test_sha
              (test_json PqRootBundle)
              test_fips
              accept
              proofs
              5
              bundle
              (1 ∷ 4 ∷ [])
              (4 ∷ [])
              (9 ∷ [])
              headers
              true
              (some 1000)
              1000)
            none
            empty_report)
verify_bundle_steps_iff_example =
    verify_bundle_steps_iff test_codec test_codec test_sha (test_json PqRootBundle) test_fips accept
      proofs 5 bundle (1 ∷ 4 ∷ []) (4 ∷ []) (9 ∷ []) headers true (some 1000) false 1000 (some 7)
      empty_report

report_step-older_ceremony_iff_example :
    (report_step test_codec test_codec test_sha bundle (quote_of []) (err binding_mismatch)
      ≡ err older_ceremony)
    ↔ (◌≡◌ {A = Outcome Bundle.Error VerifyReport} (err binding_mismatch) (err binding_mismatch)
        × Legacy test_codec test_codec test_sha bundle (quote_of []))
report_step-older_ceremony_iff_example =
    report_step-older_ceremony_iff test_codec test_codec test_sha bundle (quote_of [])
      (err binding_mismatch)

abbrev options : Options
options = record { headers = some "headers.json"; esplora = none; quote_time_unix = none }

-- The first of three calendars fails, the second answers.
cmd_stamp_iff_example :
    (cmd_stamp world "bundle.json" "out" ("a" ∷ "b" ∷ "a" ∷ [])
      ≡ ok ("b", fill 32 (123 ∷ 125 ∷ [])))
    ↔ ((b : PqRootBundle) × (digest : Bytes) × (load_bundle (holds bundle) disk "bundle.json"
          ≡ ok b)
        × (bundle_digest test_sha (holds bundle) b ≡ ok digest)
        × FirstStamped world digest "out" ("a" ∷ "b" ∷ "a" ∷ []) "b" (fill 32 (123 ∷ 125 ∷ [])))
cmd_stamp_iff_example =
    cmd_stamp_iff world "bundle.json" "out" ("a" ∷ "b" ∷ "a" ∷ []) "b" (fill 32 (123 ∷ 125 ∷ []))

stamped_by_the_second :
    cmd_stamp world "bundle.json" "out" ("a" ∷ "b" ∷ "a" ∷ []) ≡ ok ("b", fill 32 (123 ∷ 125 ∷ []))
unfolding cmd_stamp
stamped_by_the_second = refl

-- The two branches of a proof, in either order.
abbrev at_height : ℕ → BitcoinAnchor
at_height n = record { height = n; merkle_root = 2 ∷ [] }

anchor_step-Perm_example :
    anchor_step headers true (some 1000) 5 (ok (at_height 9 ∷ at_height 7 ∷ []))
    ≡ anchor_step headers true (some 1000) 5 (ok (at_height 7 ∷ at_height 9 ∷ []))
anchor_step-Perm_example =
    anchor_step-Perm headers true (some 1000) 5 (at_height 9 ∷ at_height 7 ∷ [])
      (at_height 7 ∷ at_height 9 ∷ []) (Perm.swap (at_height 7) (at_height 9) [])

the_earlier_block :
    anchor_step headers true (some 1000) 5 (ok (at_height 9 ∷ at_height 7 ∷ []))
    ≡ ok (false, 1000, some 7)
unfolding anchor_step Ots.default_block_time
the_earlier_block = refl
