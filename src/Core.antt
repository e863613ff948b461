-- ===== src/Core.antt =====
-- crates/pq-core/src/lib.rs: the root keypair, the payload that both algorithms sign, the NSM
-- commitment, and dual verification.
pub mod Payload
pub mod Signing
use pq_enclave_binding.Base.{
  ℕ, ◌≡◌, Bool, true, false, not, ◌++◌, Option, Bytes, String, as_bytes, Outcome, ok, err, panic,
  ◌>>=◌, ◌>>◌, expect, ok_or, fail_if, length, ◌==◌, if◌then◌else◌, be32, u32_len,
}
use pq_enclave_binding.External.{Sha256, Scheme, Fips}

-- `USER_DATA_PREFIX`
abbrev pub user_data_prefix : Bytes
unfolding as_bytes
user_data_prefix = as_bytes "pq-keyfork-v1:"

-- The argument is the algorithm's name.
pub data Error : Type 0 where
  public_key : String → Error
  signature : String → Error
  verification : String → Error

pub record DualSignature : Type 0 where
  pub ml_dsa : Bytes
  pub slh_dsa : Bytes

unfoldable pub canonical_payload {ℓ} : {E : Type ℓ} → Bytes → Bytes → Outcome E Bytes
unfolding u32_len
canonical_payload ml_dsa_pk slh_dsa_pk = do
  ml_len ← u32_len ml_dsa_pk
  slh_len ← u32_len slh_dsa_pk
  ok (be32 ml_len ++ (ml_dsa_pk ++ (be32 slh_len ++ slh_dsa_pk)))

unfoldable pub canonical_payload_with_subkeys {ℓ} :
    {E : Type ℓ} → Bytes → Bytes → Bytes → ℕ → Outcome E Bytes
unfolding canonical_payload u32_len
canonical_payload_with_subkeys ml_dsa_pk slh_dsa_pk subkey_merkle_root subkey_count = do
  v ← canonical_payload ml_dsa_pk slh_dsa_pk
  root_len ← u32_len subkey_merkle_root
  ok (v ++ (be32 root_len ++ (subkey_merkle_root ++ be32 subkey_count)))

module _ (sha : Sha256) where
  unfoldable pub derive_subseed : Bytes → Bytes → Bytes
  derive_subseed domain seed = sha.digest (domain ++ seed)

  unfoldable pub user_data_commitment : Bytes → Bytes
  user_data_commitment payload = user_data_prefix ++ sha.digest payload

pub record PqRootKeypair (f : Fips) : Type 0 where
  pub ml_dsa_pk : Bytes
  pub slh_dsa_pk : Bytes
  pub ml_dsa_sk : f.ml_dsa.PrivateKey
  pub slh_dsa_sk : f.slh_dsa.PrivateKey

module _ (f : Fips) where
  -- The arguments are what the platform generator yields to the two key generators.
  unfoldable pub generate {ℓ} : {E : Type ℓ} → Bytes → Bytes → Outcome E (PqRootKeypair f)
  generate ml_drawn slh_drawn = do
    (ml_pk, ml_dsa_sk) ← expect (f.ml_dsa_try_keygen ml_drawn)
    (slh_pk, slh_dsa_sk) ← expect (f.slh_dsa_try_keygen slh_drawn)
    ok (record {
      ml_dsa_pk = f.ml_dsa.into_bytes ml_pk;
      slh_dsa_pk = f.slh_dsa.into_bytes slh_pk;
      ml_dsa_sk = ml_dsa_sk;
      slh_dsa_sk = slh_dsa_sk;
    })

  unfoldable pub from_seed {ℓ} : {E : Type ℓ} → Sha256 → Bytes → Outcome E (PqRootKeypair f)
  unfolding derive_subseed as_bytes
  from_seed sha seed = do
    let ml_xi = derive_subseed sha (as_bytes "pq-root-ml-dsa-v1") seed
    let (ml_pk, ml_dsa_sk) = f.ml_dsa_keygen_from_seed ml_xi
    let slh_seed = derive_subseed sha (as_bytes "pq-root-slh-dsa-v1") seed
    (slh_pk, slh_dsa_sk) ← expect (f.slh_dsa_keygen_from_chacha slh_seed)
    ok (record {
      ml_dsa_pk = f.ml_dsa.into_bytes ml_pk;
      slh_dsa_pk = f.slh_dsa.into_bytes slh_pk;
      ml_dsa_sk = ml_dsa_sk;
      slh_dsa_sk = slh_dsa_sk;
    })

  -- The first two byte strings are what the platform generator yields to the two signers.
  unfoldable pub sign_payload {ℓ} :
      {E : Type ℓ} → PqRootKeypair f → Bytes → Bytes → Bytes → Outcome E DualSignature
  sign_payload kp ml_drawn slh_drawn payload = do
    ml_sig ← expect (f.ml_dsa.try_sign kp.ml_dsa_sk ml_drawn payload)
    slh_sig ← expect (f.slh_dsa.try_sign kp.slh_dsa_sk slh_drawn payload)
    ok (record { ml_dsa = ml_sig; slh_dsa = slh_sig })

  unfoldable pub verify_ml_dsa : Bytes → Bytes → Bytes → Outcome Error (Unit {0})
  verify_ml_dsa pk payload sig = do
    fail_if (not (length pk == f.ml_dsa.pk_len)) (public_key "ml-dsa")
    vk ← ok_or (f.ml_dsa.try_from_bytes pk) (public_key "ml-dsa")
    fail_if (not (length sig == f.ml_dsa.sig_len)) (signature "ml-dsa")
    if f.ml_dsa.verify vk payload sig then ok tt else err (verification "ml-dsa")

  unfoldable pub verify_slh_dsa : Bytes → Bytes → Bytes → Outcome Error (Unit {0})
  verify_slh_dsa pk payload sig = do
    fail_if (not (length pk == f.slh_dsa.pk_len)) (public_key "slh-dsa")
    vk ← ok_or (f.slh_dsa.try_from_bytes pk) (public_key "slh-dsa")
    fail_if (not (length sig == f.slh_dsa.sig_len)) (signature "slh-dsa")
    if f.slh_dsa.verify vk payload sig then ok tt else err (verification "slh-dsa")

  unfoldable pub verify_dual : Bytes → Bytes → Bytes → DualSignature → Outcome Error (Unit {0})
  unfolding verify_ml_dsa verify_slh_dsa
  verify_dual ml_dsa_pk slh_dsa_pk payload sig = do
    verify_ml_dsa ml_dsa_pk payload sig.ml_dsa
    verify_slh_dsa slh_dsa_pk payload sig.slh_dsa
    ok tt
