-- ===== src/Ceremony.antt =====
-- crates/pq-ceremony/src/lib.rs: the one-shot ceremony in the enclave, and the signing oracle. What
-- the platform generator yields is an argument: the entropy, and two draws for the signers.
pub mod Lanes
pub mod Nodes
pub mod Ran
pub mod Keys
pub mod Places
pub mod Members
pub mod Born
pub mod Total
pub mod Finishes
pub mod Provable
pub mod EndToEnd
pub mod Request
pub mod Server
pub mod Start
use pq_enclave_binding.Base.{
  ℕ, zero, suc, ◌+◌, ◌%◌, ◌==◌, if◌then◌else◌, List, [], ◌∷◌, ◌++◌, Option, none, some, Bytes,
  String, Outcome, ok, err, panic, ◌>>=◌, ◌>>◌, map_err, expect_ok, length, ltb, u32_mod,
}
use pq_enclave_binding.External.{Sha256, TextCodec, Fips}
use pq_enclave_binding.Merkle.{subkey_leaf, merkle_root, merkle_proof}
use pq_enclave_binding.Core.{
  PqRootKeypair, DualSignature, canonical_payload_with_subkeys, sign_payload,
}
use pq_enclave_binding.Bundle.{PqRootBundle}
use pq_enclave_binding.Enclave.{NsmError, Nsm, attest_bundle_payload}
use pq_enclave_binding.Derive
use pq_enclave_binding.Derive.{Keyfork, subkey_path, derive_keypair}

pub data CeremonyError : Type 0 where
  nsm : NsmError → CeremonyError
  derive : Derive.Error → CeremonyError

pub record CeremonyConfig : Type 0 where
  pub auth_count : ℕ
  pub enc_count : ℕ

pub record SubkeyRecord : Type 0 where
  pub global_index : ℕ
  pub account : ℕ
  pub account_index : ℕ
  pub purpose_tag : ℕ
  pub ml_dsa_pk : Bytes
  pub slh_dsa_pk : Bytes

pub record CeremonyState (k : Keyfork) : Type 0 where
  pub bundle : PqRootBundle
  pub subkeys : List SubkeyRecord
  pub mnemonic : k.Mnemonic
  pub leaves : List Bytes

-- `subkeys.iter().find(|r| r.global_index == global_index)`
unfoldable pub find_subkey : List SubkeyRecord → ℕ → Option SubkeyRecord
find_subkey [] i = none
find_subkey (r ∷ rs) i = if r.global_index == i then some r else find_subkey rs i

-- `Some((sig, self.proof(global_index)?))`
abbrev signed_with : DualSignature → Option (List Bytes) → Option (DualSignature × List Bytes)
signed_with sig none = none
signed_with sig (some path) = some (sig, path)

-- What the derivation loops build: the records, the leaves and the next global index.
abbrev pub Derived : Type 0
Derived = List SubkeyRecord × List Bytes × ℕ

module _ (k : Keyfork) (sha : Sha256) (fips : Fips) where
  -- One round of the inner loop. `global_index += 1` overflows in a release build by wrapping
  -- around; a debug build panics there.
  unfoldable pub derive_subkey : k.Mnemonic → ℕ → ℕ → ℕ → Derived → Outcome CeremonyError Derived
  derive_subkey mnemonic account purpose_tag account_index (subkeys, leaves, global_index) = do
    path ← subkey_path k account account_index
    kp ← map_err derive (derive_keypair k sha fips mnemonic path)
    leaf ← subkey_leaf sha global_index purpose_tag kp.ml_dsa_pk kp.slh_dsa_pk
    let r : SubkeyRecord = record {
      global_index = global_index;
      account = account;
      account_index = account_index;
      purpose_tag = purpose_tag;
      ml_dsa_pk = kp.ml_dsa_pk;
      slh_dsa_pk = kp.slh_dsa_pk;
    }
    ok (subkeys ++ (r ∷ []), leaves ++ (leaf ∷ []), (global_index + 1) % u32_mod)

  -- `for account_index in 0..count`, from `account_index` on with `count` rounds left.
  unfoldable pub derive_lane : k.Mnemonic → ℕ → ℕ → ℕ → ℕ → Derived → Outcome CeremonyError Derived
  unfolding derive_subkey
  derive_lane mnemonic account purpose_tag zero account_index d = ok d
  derive_lane mnemonic account purpose_tag (suc count) account_index d = do
    d' ← derive_subkey mnemonic account purpose_tag account_index d
    derive_lane mnemonic account purpose_tag count (account_index + 1) d'

  unfoldable pub derive_subkeys : k.Mnemonic → CeremonyConfig → Outcome CeremonyError Derived
  unfolding derive_lane
  derive_subkeys mnemonic config = do
    d ← derive_lane mnemonic 1 1 config.auth_count 0 ([], [], 0)
    derive_lane mnemonic 2 2 config.enc_count 0 d

  -- The three byte strings are the entropy, and what the generator yields to the two signers.
  unfoldable pub run_ceremony :
      TextCodec
      → TextCodec
      → Nsm
      → Bytes
      → CeremonyConfig
      → Bytes
      → Bytes
      → Bytes
      → Outcome CeremonyError (CeremonyState k)
  unfolding derive_subkeys
  run_ceremony hex base64 n root_ca_der config entropy ml_drawn slh_drawn = do
    mnemonic ← expect_ok (k.try_from_slice entropy)
    root_path ← subkey_path k 0 0
    root ← map_err derive (derive_keypair k sha fips mnemonic root_path)
    (subkeys, leaves, global_index) ← derive_subkeys mnemonic config
    subkey_root ← merkle_root sha leaves
    payload ← canonical_payload_with_subkeys root.ml_dsa_pk root.slh_dsa_pk subkey_root global_index
    sig ← sign_payload fips root ml_drawn slh_drawn payload
    quote ← map_err nsm (attest_bundle_payload sha n payload)
    pcr0 ← map_err nsm (Nsm.describe_pcr n 0)
    pcr1 ← map_err nsm (Nsm.describe_pcr n 1)
    pcr2 ← map_err nsm (Nsm.describe_pcr n 2)
    let bundle : PqRootBundle = record {
      version = "2";
      ml_dsa_pk = hex.encode root.ml_dsa_pk;
      slh_dsa_pk = hex.encode root.slh_dsa_pk;
      nsm_quote = base64.encode quote;
      aws_root_ca_sha256 = hex.encode (sha.digest root_ca_der);
      expected_pcrs = record {
        pcr0 = hex.encode pcr0;
        pcr1 = hex.encode pcr1;
        pcr2 = hex.encode pcr2;
      };
      subkey_merkle_root = hex.encode subkey_root;
      subkey_count = global_index;
      ml_dsa_sig = hex.encode sig.ml_dsa;
      slh_dsa_sig = hex.encode sig.slh_dsa;
    }
    ok (record { bundle = bundle; subkeys = subkeys; mnemonic = mnemonic; leaves = leaves })

  -- An index that is out of range has no proof; one in range does not panic in `merkle_proof`.
  unfoldable pub proof {ℓ} : {E : Type ℓ} → CeremonyState k → ℕ → Outcome E (Option (List Bytes))
  proof state global_index =
      if ltb global_index (length state.leaves)
      then (do path ← merkle_proof sha state.leaves global_index; ok (some path))
      else ok none

  -- `derive_keypair(..).ok()?`
  sign_derived {ℓ} :
      {E : Type ℓ}
      → CeremonyState k
      → ℕ
      → Bytes
      → Bytes
      → Bytes
      → Outcome Derive.Error (PqRootKeypair fips)
      → Outcome E (Option (DualSignature × List Bytes))
  unfolding proof
  sign_derived state global_index message ml_drawn slh_drawn (err e) = ok none
  sign_derived state global_index message ml_drawn slh_drawn panic = panic
  sign_derived state global_index message ml_drawn slh_drawn (ok kp) = do
    sig ← sign_payload fips kp ml_drawn slh_drawn message
    path ← proof state global_index
    ok (signed_with sig path)

  sign_record {ℓ} :
      {E : Type ℓ}
      → CeremonyState k
      → ℕ
      → Bytes
      → Bytes
      → Bytes
      → Option SubkeyRecord
      → Outcome E (Option (DualSignature × List Bytes))
  unfolding sign_derived
  sign_record state global_index message ml_drawn slh_drawn none = ok none
  sign_record state global_index message ml_drawn slh_drawn (some r) = do
    path ← subkey_path k r.account r.account_index
    sign_derived state global_index message ml_drawn slh_drawn
        (derive_keypair k sha fips state.mnemonic path)

  unfoldable pub sign_with_subkey {ℓ} :
      {E : Type ℓ}
      → CeremonyState k
      → ℕ
      → Bytes
      → Bytes
      → Bytes
      → Outcome E (Option (DualSignature × List Bytes))
  unfolding sign_record find_subkey
  sign_with_subkey state global_index message ml_drawn slh_drawn =
      sign_record state global_index message ml_drawn slh_drawn
        (find_subkey state.subkeys global_index)
