-- ===== src/Tests/CeremonyRuns.antt =====
-- Runs of the ceremony with the mock NSM and with a module of the tests, two Auth subkeys and one of the second lane.
use pq_enclave_binding.Base.{
  none, ℕ, Bool, false, ◌&&◌, ltb, All, IsByte, subst, sym, ok-injective, err, ◌≡◌, refl, arith,
  true, List, [], ◌∷◌, ◌++◌, some, Bytes, String, as_bytes, Outcome, ok, length, be32, get_elem?,
}
use pq_enclave_binding.Merkle.{subkey_leaf, hash_node, merkle_root, verify_membership}
use pq_enclave_binding.Core.{
  canonical_payload_with_subkeys, from_seed, sign_payload, user_data_commitment,
}
use pq_enclave_binding.Enclave.{mock_nsm, attest_bundle_payload}
use pq_enclave_binding.Derive.{Keyfork, PqSeed, subkey_path, derive_keypair}
use pq_enclave_binding.Ceremony.{
  CeremonyError, CeremonyConfig, SubkeyRecord, CeremonyState, run_ceremony, proof,
}
use pq_enclave_binding.Bundle.{QuoteData, QuoteVerifier, VerifyReport, PqRootBundle, verify}
use pq_enclave_binding.Bundle.Stages.{AllZero}
use pq_enclave_binding.Enclave.{Nsm, NsmError, unexpected_response}
use pq_enclave_binding.Ceremony.EndToEnd.{Attests, verify-run_ceremony}
use pq_enclave_binding.Ceremony.Total.{KeyforkLaws}
use pq_enclave_binding.Ceremony.Places.{Place, run_ceremony-Place}
use pq_enclave_binding.Ceremony.Provable.{run_ceremony-proof}
use pq_enclave_binding.Tests.Doubles.{
  test_fips_laws, test_json, test_sha, test_codec, test_fips, fill,
}

-- A derivation tree whose nodes are the path's text behind the mnemonic.
abbrev pub test_node : Bytes → String → PqSeed
unfolding as_bytes
test_node seed path = record { node = fill 32 (as_bytes path ++ seed) }

abbrev pub test_keyfork : Keyfork
unfolding test_node
test_keyfork = record {
  Mnemonic = Bytes;
  DerivationPath = String;
  MasterKey = Bytes;
  try_from_slice = λ entropy. ok entropy;
  generate_seed = λ m. m;
  path_from_str = λ s. some s;
  new_master = λ seed. ok seed;
  derive_path = λ master path. ok (test_node master path);
}

pub test_keyfork_laws : KeyforkLaws test_keyfork
unfolding test_keyfork test_node
test_keyfork_laws = record {
  mnemonic_of = λ entropy size. (entropy, refl);
  master_of = λ m. (m, refl);
  path_of = λ account idx a b. (_, refl, λ master. (_, refl));
}

abbrev pub config : CeremonyConfig
config = record { auth_count = 2; enc_count = 1 }

abbrev run : Outcome CeremonyError (CeremonyState test_keyfork)
unfolding test_keyfork run_ceremony
run =
    run_ceremony test_keyfork test_sha test_fips test_codec test_codec mock_nsm (1 ∷ []) config
      (3 ∷ []) [] []

abbrev run_finishes : (state : CeremonyState test_keyfork) × (run ≡ ok state)
unfolding run run_ceremony test_keyfork test_node mock_nsm derive_keypair subkey_path subkey_leaf
    merkle_root hash_node canonical_payload_with_subkeys sign_payload from_seed be32
    attest_bundle_payload
run_finishes = (_, refl)

abbrev pub third : SubkeyRecord
third = record {
  global_index = 2;
  account = 2;
  account_index = 0;
  purpose_tag = 2;
  ml_dsa_pk = 0 ∷ [];
  slh_dsa_pk = 0 ∷ [];
}

run_ceremony-proof_example :
    (run_finishes.0.bundle.subkey_count ≡ 3)
    × (length run_finishes.0.subkeys ≡ 3)
    × (third.global_index ≡ 2)
    × (root : Bytes) × (run_finishes.0.bundle.subkey_merkle_root ≡ test_codec.encode root)
    × (path : List Bytes) × (proof test_keyfork test_sha test_fips {E = CeremonyError}
          run_finishes.0 2
        ≡ ok (some path))
    × (verify_membership test_sha {E = CeremonyError} root 2 2 (0 ∷ []) (0 ∷ []) path ≡ ok true)
unfolding run run_finishes
run_ceremony-proof_example =
    run_ceremony-proof test_keyfork test_sha test_fips test_codec test_codec mock_nsm (1 ∷ [])
      config (3 ∷ []) [] [] run_finishes.0 2 third (omega arith) run_finishes.1 refl

run_ceremony-Place_example : Place config 2 third
unfolding run run_finishes
run_ceremony-Place_example =
    run_ceremony-Place test_keyfork test_sha test_fips test_codec test_codec mock_nsm (1 ∷ [])
      config (3 ∷ []) [] [] run_finishes.0 2 third run_finishes.1 refl

-- A module that attests byte strings as they are, and a verifier that reads them back.
abbrev pub all_bytes : Bytes → Bool
all_bytes [] = true
all_bytes (b ∷ bs) = ltb b 256 && all_bytes bs

pub all_bytes-IsByte : (b : Bytes) → all_bytes b ≡ true → All IsByte b
all_bytes-IsByte [] h = tt
all_bytes-IsByte (b ∷ bs) h = (ground arith, all_bytes-IsByte bs (ground arith))

abbrev pcr_of : ℕ → Bytes
pcr_of i = 1 ∷ []

abbrev pub guarded : Bool → Bytes → Outcome NsmError Bytes
guarded true b = ok b
guarded false b = err unexpected_response

abbrev pub open_nsm : Nsm
open_nsm = record {
  attest = λ user_data nonce public_key. guarded (all_bytes user_data) user_data;
  describe_pcr = λ i. ok (pcr_of i);
}

abbrev shown_by : Bytes → QuoteData
shown_by quote = record { pcr0 = pcr_of 0; pcr1 = pcr_of 1; pcr2 = pcr_of 2; user_data = quote }

abbrev pub read_quote : QuoteVerifier
read_quote quote = ok (shown_by quote)

pub open_nsm-Attests : Attests open_nsm read_quote
open_nsm-Attests = record {
  accepts = λ shown quote h. accepted (all_bytes shown) shown quote (all_bytes-IsByte shown) h;
  describe_pcr-IsByte =
      λ i b h. subst {A = Bytes} (All IsByte) (ok-injective NsmError h) (omega arith, tt);
  not_debug =
      λ b h zero. one_is_not_zero (subst {A = Bytes} AllZero (sym (ok-injective NsmError h)) zero);
}
  where
    one_is_not_zero : AllZero (1 ∷ []) → ⊥
    one_is_not_zero z = absurd (omega (arith, z.0))

    accepted :
        (b : Bool) (shown quote : Bytes)
        → (b ≡ true → All IsByte shown)
        → guarded b shown ≡ ok quote
        → All IsByte quote
          × (q : QuoteData) × (read_quote quote ≡ ok q)
          × (q.user_data ≡ shown)
          × (Nsm.describe_pcr open_nsm 0 ≡ ok q.pcr0)
          × (Nsm.describe_pcr open_nsm 1 ≡ ok q.pcr1)
          × (Nsm.describe_pcr open_nsm 2 ≡ ok q.pcr2)
    accepted false shown quote bytes h = absurd (cc h)
    accepted true shown quote bytes h =
        let same = ok-injective NsmError h in
        (
          subst {A = Bytes} (All IsByte) same (bytes refl),
          shown_by quote,
          refl,
          sym same,
          refl,
          refl,
          refl,
        )

unfoldable pub open_run :
    (state : CeremonyState test_keyfork) × (run_ceremony test_keyfork test_sha test_fips test_codec
        test_codec open_nsm
        (1 ∷ [])
        config
        (3 ∷ [])
        []
        []
      ≡ ok state)
unfolding run_ceremony test_keyfork test_node derive_keypair subkey_path subkey_leaf merkle_root
    hash_node canonical_payload_with_subkeys sign_payload from_seed be32 attest_bundle_payload
    user_data_commitment
open_run = (_, refl)

pub open_run_third : get_elem? (CeremonyState.subkeys open_run.0) 2 ≡ some third
unfolding open_run
open_run_third = refl

verify-run_ceremony_example :
    (report : VerifyReport) × (verify test_codec test_codec
        (test_json PqRootBundle)
        test_sha
        test_fips
        open_run.0.bundle
        read_quote
        none
      ≡ ok report)
    × (report.subkey_count ≡ open_run.0.bundle.subkey_count)
verify-run_ceremony_example =
    verify-run_ceremony test_keyfork test_sha test_fips test_codec test_codec test_fips_laws
      open_nsm (1 ∷ []) config (3 ∷ []) [] [] open_run.0 (test_json PqRootBundle) read_quote
      (omega arith) open_nsm-Attests open_run.1
