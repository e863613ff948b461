-- ===== src/Derive.antt =====
-- crates/pq-derive/src/lib.rs: seed nodes in keyfork's derivation tree, and the keypairs that they
-- expand to. The tree itself (`ExtendedPrivateKey`) is keyfork's, a parameter.
use pq_enclave_binding.Base.{
  ℕ, ◌∷◌, Bool, true, Bytes, String, ◌<>◌, Option, Outcome, ok, err, ◌>>=◌, map_err, expect,
  display,
}
use pq_enclave_binding.External.{Sha256, Fips}
use pq_enclave_binding.Core.{PqRootKeypair, from_seed}

pub data Error : Type 0 where
  derivation : String → Error

pub record PqSeed : Type 0 where
  pub node : Bytes

pub record PqSeedFingerprint : Type 0 where
  pub bytes : Bytes

-- `PublicKeyError::DerivationUnsupported`
pub data PublicKeyError : Type 0 where
  derivation_unsupported : PublicKeyError

unfoldable pub fingerprint_derive_child :
    PqSeedFingerprint → Bytes → Outcome PublicKeyError PqSeedFingerprint
fingerprint_derive_child key other = err derivation_unsupported

unfoldable pub seed_from_bytes {ℓ} : {E : Type ℓ} → Bytes → Outcome E PqSeed
seed_from_bytes b = ok (record { node = b })

unfoldable pub to_bytes : PqSeed → Bytes
to_bytes s = s.node

unfoldable pub public_key : Sha256 → PqSeed → PqSeedFingerprint
public_key sha s = record { bytes = 0 ∷ sha.digest s.node }

unfoldable pub derive_child {ℓ} : {E : Type ℓ} → PqSeed → Bytes → Outcome E PqSeed
derive_child s other = ok (record { node = other })

unfoldable pub requires_hardened_derivation : Bool
requires_hardened_derivation = true

-- What the code uses of keyfork: a mnemonic, its seed, paths as texts, and the derivation tree over
-- `PqSeed` with its errors.
pub record Keyfork : Type 1 where
  pub Mnemonic : Type 0
  pub DerivationPath : Type 0
  pub MasterKey : Type 0
  pub try_from_slice : Bytes → Outcome String Mnemonic
  pub generate_seed : Mnemonic → Bytes
  pub path_from_str : String → Option DerivationPath
  pub new_master : Bytes → Outcome String MasterKey
  pub derive_path : MasterKey → DerivationPath → Outcome String PqSeed

module _ (k : Keyfork) where
  unfoldable pub derive_node : k.Mnemonic → k.DerivationPath → Outcome Error Bytes
  unfolding to_bytes
  derive_node mnemonic path = do
    let seed = k.generate_seed mnemonic
    master ← map_err derivation (k.new_master seed)
    child ← map_err derivation (k.derive_path master path)
    ok (to_bytes child)

  unfoldable pub subkey_path {ℓ} : {E : Type ℓ} → ℕ → ℕ → Outcome E k.DerivationPath
  unfolding display
  subkey_path account idx =
      expect (k.path_from_str ("m/" <> (display account <> ("'/" <> (display idx <> "'")))))

  unfoldable pub derive_keypair :
      Sha256 → (fips : Fips) → k.Mnemonic → k.DerivationPath → Outcome Error (PqRootKeypair fips)
  unfolding derive_node
  derive_keypair sha fips mnemonic path = do
    node ← derive_node mnemonic path
    from_seed fips sha node
