-- ===== src/Tests/SubkeyRuns.antt =====
-- Runs of `verify-subkey` on the second of two subkeys.
use pq_enclave_binding.Base.{
  ℕ, ◌<◌, ◌≡◌, ◌↔◌, ◌⊎◌, refl, arith, Bool, List, [], ◌∷◌, Option, none, some, Bytes, String,
  Outcome, ok, get_elem?, be32, length,
}
use pq_enclave_binding.Merkle.{hash_node, merkle_root, subkey_leaf, verify_membership}
use pq_enclave_binding.Merkle.Leaves.{Subkey, Fits}
use pq_enclave_binding.Merkle.Soundness.{preimage, verifier_texts, tree_texts}
use pq_enclave_binding.Merkle.Texts.{CollisionIn}
use pq_enclave_binding.Cli.Commands.Nodes.{Nodes}
use pq_enclave_binding.Bundle.{PqRootBundle}
use pq_enclave_binding.Cli.{load_bundle}
use pq_enclave_binding.Cli.Commands.{
  World, verified_membership, SubkeyResponse, Options, check_subkey, verify_subkey,
}
use pq_enclave_binding.Cli.Commands.Member.{claim_of, Checked, check_subkey_iff, check_subkey_sound}
use pq_enclave_binding.Cli.Commands.Verdicts.{Provenance, SubkeySays, verify_subkey_iff}
use pq_enclave_binding.Tests.Doubles.{test_sha, test_codec, test_fips, fill, read-write}
use pq_enclave_binding.Tests.BundleRuns.{bundle}
use pq_enclave_binding.Tests.MerkleRuns.{first_key, second_key}
use pq_enclave_binding.Tests.OtsRuns.{single, accept}
use pq_enclave_binding.Tests.HttpRuns.{server}
use pq_enclave_binding.Tests.CliRuns.{holds, disk}

abbrev root : Bytes
unfolding hash_node
root =
    hash_node test_sha (fill 32 (preimage test_sha first_key))
      (fill 32 (preimage test_sha second_key))

abbrev of_root : PqRootBundle
of_root = record bundle { subkey_merkle_root = test_codec.encode root }

abbrev response : SubkeyResponse
response = record {
  index = 1;
  purpose_tag = 1;
  ml_dsa_pk = test_codec.encode (7 ∷ 8 ∷ []);
  slh_dsa_pk = test_codec.encode [];
  ml_dsa_sig = none;
  slh_dsa_sig = none;
  merkle_proof = test_codec.encode (fill 32 (preimage test_sha first_key)) ∷ [];
}

abbrev world : World Bool
world = record {
  hex = test_codec;
  base64 = test_codec;
  sha = test_sha;
  fips = test_fips;
  from_cose = accept;
  crate = single;
  ureq = server;
  files = disk;
  now = 1000;
  bundle_json = holds of_root;
  headers_json = holds [];
  subkey_json = holds response;
}

check_subkey_iff_example :
    (check_subkey world of_root response (some "1.") ≡ ok tt)
    ↔ Checked world of_root response (some "1.")
check_subkey_iff_example = check_subkey_iff world of_root response (some "1.")

response_passes : check_subkey world of_root response none ≡ ok tt
unfolding check_subkey root hash_node verify_membership subkey_leaf be32
response_passes = refl

check_subkey_sound_example :
    ((i : ℕ) × (get_elem? (first_key ∷ second_key ∷ []) i ≡ some second_key))
    ⊎ ((siblings : List Bytes) × Nodes world response.merkle_proof siblings
        × CollisionIn test_sha
            (verifier_texts test_sha (claim_of response (7 ∷ 8 ∷ []) []) siblings)
            (tree_texts test_sha (first_key ∷ second_key ∷ [])))
unfolding merkle_root root hash_node
check_subkey_sound_example =
    check_subkey_sound world of_root response none first_key (second_key ∷ []) root (7 ∷ 8 ∷ []) []
      (
        fits first_key (omega arith) (omega arith) (omega arith) (omega arith),
        (fits second_key (omega arith) (omega arith) (omega arith) (omega arith), tt),
      )
      (omega arith) (omega arith) (read-write root) refl refl refl response_passes
  where
    fits :
        (k : Subkey)
        → k.position < 4294967296
        → k.purpose_tag < 256
        → length k.ml_dsa_pk < 4294967296
        → length k.slh_dsa_pk < 4294967296
        → Fits k
    fits k a b c d = record { position_lt = a; purpose_lt = b; ml_dsa_lt = c; slh_dsa_lt = d }

abbrev options : Options
options = record { headers = none; esplora = none; quote_time_unix = none }

verify_subkey_iff_example :
    (verify_subkey world "bundle.json" "subkey.json" none none none options
      ≡ ok verified_membership)
    ↔ ((b : PqRootBundle) × (raw : String) × (sk : SubkeyResponse) × (x : Bool × Option ℕ)
        × (load_bundle (holds of_root) disk "bundle.json" ≡ ok b)
        × (◌≡◌ {A = Outcome String String} (ok "{}") (ok raw))
        × (◌≡◌ {A = Outcome String SubkeyResponse} (ok response) (ok sk))
        × Provenance world b none none options x
        × Checked world b sk none
        × SubkeySays world verified_membership none x)
verify_subkey_iff_example =
    verify_subkey_iff world "bundle.json" "subkey.json" none none none options verified_membership
