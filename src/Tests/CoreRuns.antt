-- ===== src/Tests/CoreRuns.antt =====
-- Runs of payloads, signatures and certificates with the stand-ins of `Doubles`.
use pq_enclave_binding.Base.{
  ℕ, ◌≡◌, ◌↔◌, ◌⊎◌, refl, arith, inr, true, false, none, some, [], ◌∷◌, ◌++◌, Bytes, Outcome, ok,
  err, ◌>>=◌, be32,
}
use pq_enclave_binding.External.{Collides}
use pq_enclave_binding.Core.{
  PqRootKeypair, canonical_payload, canonical_payload_with_subkeys, from_seed, sign_payload,
  verify_dual,
}
use pq_enclave_binding.Core.Payload.{with_subkeys-injective}
use pq_enclave_binding.Core.Signing.{Verifies, IsKeypair, verify_dual_iff, verify_dual-sign_payload}
use pq_enclave_binding.Subkey.{
  Error, auth, SubkeyMeta, SubkeyPublicKeys, SubkeyCert, signing_bytes, issue, verify,
}
use pq_enclave_binding.Subkey.SigningBytes.{
  header, body, IsMeta, signing_bytes_lem, signing_bytes-injective,
}
use pq_enclave_binding.Subkey.Accepted.{Accepted, cert_verify_iff, verify_one_root}
use pq_enclave_binding.Subkey.RoundTrip.{verify-issue}
use pq_enclave_binding.Tests.Doubles.{test_sha, test_codec, test_fips, test_fips_laws}

abbrev seven : Bytes
seven = 7 ∷ []

abbrev eight : Bytes
eight = 8 ∷ []

abbrev nine : Bytes
nine = 9 ∷ []

abbrev two : ℕ
two = 2

abbrev payload : Bytes
payload = 0 ∷ 0 ∷ 0 ∷ 1 ∷ 7 ∷ 0 ∷ 0 ∷ 0 ∷ 1 ∷ 8 ∷ 0 ∷ 0 ∷ 0 ∷ 1 ∷ 9 ∷ 0 ∷ 0 ∷ 0 ∷ 2 ∷ []

with_subkeys-injective_example : (seven ≡ seven) × (eight ≡ eight) × (nine ≡ nine) × (two ≡ two)
unfolding canonical_payload_with_subkeys be32
with_subkeys-injective_example =
    with_subkeys-injective (Unit {0}) seven eight nine two seven eight nine two payload
      (omega arith) (omega arith) refl refl

verify_dual_iff_example :
    (verify_dual test_fips (1 ∷ []) (0 ∷ []) payload (record { ml_dsa = 1 ∷ []; slh_dsa = [] })
      ≡ ok tt)
    ↔ (Verifies test_fips.ml_dsa (1 ∷ []) payload (1 ∷ [])
        × Verifies test_fips.slh_dsa (0 ∷ []) payload [])
verify_dual_iff_example =
    verify_dual_iff test_fips (1 ∷ []) (0 ∷ []) payload (record { ml_dsa = 1 ∷ []; slh_dsa = [] })

verify_dual-sign_payload_example :
    (do
      kp ← from_seed test_fips test_sha (3 ∷ 4 ∷ [])
      sig ← sign_payload test_fips kp [] [] payload
      verify_dual test_fips kp.ml_dsa_pk kp.slh_dsa_pk payload sig)
    ≡ ok tt
verify_dual-sign_payload_example =
    verify_dual-sign_payload test_fips test_fips_laws test_sha (3 ∷ 4 ∷ []) [] [] payload

abbrev root : PqRootKeypair test_fips
root = record { ml_dsa_pk = 1 ∷ []; slh_dsa_pk = 0 ∷ []; ml_dsa_sk = true; slh_dsa_sk = false }

root-IsKeypair : IsKeypair test_fips root
root-IsKeypair = record {
  ml_key = true;
  slh_key = false;
  ml_pair = refl;
  slh_pair = refl;
  ml_encoded = refl;
  slh_encoded = refl;
}

abbrev meta : SubkeyMeta
meta = record { serial = 5; purpose = auth; not_before = 100; not_after = 200 }

verify-issue_example :
    (do
      cert ← issue test_codec test_sha test_fips root [] [] (3 ∷ []) (4 ∷ []) meta
      verify test_codec test_sha test_fips cert root.ml_dsa_pk root.slh_dsa_pk (some 150))
    ≡ ok (record { ml_dsa_pk = 3 ∷ []; slh_dsa_pk = 4 ∷ []; purpose = auth; serial = 5 })
verify-issue_example =
    verify-issue test_codec test_sha test_fips test_fips_laws root [] [] (3 ∷ []) (4 ∷ []) meta
      (some 150) root-IsKeypair (omega arith, tt) (omega arith, tt) (omega arith) (omega arith)
      (inr (omega arith), inr (omega arith))

abbrev issued : SubkeyCert
unfolding issue
issued = elim (issue test_codec test_sha test_fips {E = Error} root [] [] (3 ∷ []) (4 ∷ []) meta) [
  | ok cert ↦ cert
  | err e ↦ blank
  | Outcome.panic ↦ blank
]
  where
    blank : SubkeyCert
    blank = record {
      version = "";
      root_binding = "";
      ml_dsa_pk = "";
      slh_dsa_pk = "";
      serial = 0;
      purpose = auth;
      not_before = 0;
      not_after = 0;
      ml_dsa_sig = "";
      slh_dsa_sig = "";
    }

abbrev keys : SubkeyPublicKeys
keys = record { ml_dsa_pk = 3 ∷ []; slh_dsa_pk = 4 ∷ []; purpose = auth; serial = 5 }

cert_verify_iff_example :
    (verify test_codec test_sha test_fips issued (1 ∷ []) (0 ∷ []) (some 150) ≡ ok keys)
    ↔ Accepted test_codec test_sha test_fips issued (1 ∷ []) (0 ∷ []) (some 150) keys
cert_verify_iff_example =
    cert_verify_iff test_codec test_sha test_fips issued (1 ∷ []) (0 ∷ []) (some 150) keys

verify_one_root_example :
    ((root.ml_dsa_pk ≡ root.ml_dsa_pk) × (root.slh_dsa_pk ≡ root.slh_dsa_pk))
    ⊎ ((v : Bytes) × (v' : Bytes) × (canonical_payload {E = Error} root.ml_dsa_pk root.slh_dsa_pk
          ≡ ok v)
        × (canonical_payload {E = Error} root.ml_dsa_pk root.slh_dsa_pk ≡ ok v')
        × Collides test_sha v v')
unfolding verify issued canonical_payload signing_bytes be32 sign_payload verify_dual
verify_one_root_example =
    verify_one_root test_codec test_sha test_fips issued (1 ∷ []) (0 ∷ []) (1 ∷ []) (0 ∷ [])
      (some 150) none keys keys refl refl

meta-IsMeta : IsMeta meta
meta-IsMeta = record {
  serial_lt = omega arith;
  not_before_lt = omega arith;
  not_after_lt = omega arith;
}

message_made :
    signing_bytes {E = Unit {0}} seven eight nine meta ≡ ok (header ++ body seven eight nine meta)
message_made =
    signing_bytes_lem (Unit {0}) seven eight nine meta (omega arith) (omega arith) (omega arith)

signing_bytes-injective_example : (seven ≡ seven) × (eight ≡ eight) × (nine ≡ nine) × (meta ≡ meta)
signing_bytes-injective_example =
    signing_bytes-injective (Unit {0}) seven eight nine meta seven eight nine meta
      (header ++ body seven eight nine meta) meta-IsMeta meta-IsMeta message_made message_made
