-- ===== src/Ceremony/Total.antt =====
-- crates/pq-ceremony/src/lib.rs: the derivation of keys and subkeys always succeeds.
use pq_enclave_binding.Base.{
  ℕ, zero, suc, ◌+◌, ◌^◌, ◌%◌, ◌++◌, ◌≤◌, ◌<◌, ◌≡◌, refl, sym, ap, ◌∙◌, subst, arith, [], ◌∷◌, some,
  Bytes, ◌<>◌, display, ok, length, u32_len_lem, u32_mod,
}
use pq_enclave_binding.External.{Sha256, Fips, FipsLaws}
use pq_enclave_binding.Merkle.{leaf_bytes, subkey_leaf}
use pq_enclave_binding.Core.{PqRootKeypair}
use pq_enclave_binding.Core.Signing.{IsKeypair, from_seed-IsKeypair}
use pq_enclave_binding.Derive
use pq_enclave_binding.Derive.{Keyfork, PqSeed, derive_node, subkey_path, derive_keypair}
use pq_enclave_binding.Ceremony.{
  CeremonyError, CeremonyConfig, SubkeyRecord, Derived, derive_subkey, derive_lane, derive_subkeys,
}

-- What the ceremony relies on of keyfork: 32 bytes are entropy for a mnemonic, a mnemonic's seed
-- has a master key, and hardened paths with indices of 31 bits parse and can be derived.
pub record KeyforkLaws (k : Keyfork) : Type 0 where
  pub mnemonic_of :
      (entropy : Bytes) → length entropy ≡ 32 → (m : k.Mnemonic) × (k.try_from_slice entropy ≡ ok m)
  pub master_of :
      (m : k.Mnemonic) → (master : k.MasterKey) × (k.new_master (k.generate_seed m) ≡ ok master)
  pub path_of :
      (account idx : ℕ)
      → account < 2 ^ 31
      → idx < 2 ^ 31
      → (path : k.DerivationPath) × (k.path_from_str
            ("m/" <> (display account <> ("'/" <> (display idx <> "'"))))
          ≡ some path)
        × ((master : k.MasterKey) → (s : PqSeed) × (k.derive_path master path ≡ ok s))

module _ (k : Keyfork) (laws : KeyforkLaws k) (sha : Sha256) (fips : Fips)
    (fips_laws : FipsLaws fips) where
  pub derive_keypair-total :
      (mnemonic : k.Mnemonic) (account idx : ℕ)
      → account < 2 ^ 31
      → idx < 2 ^ 31
      → (path : k.DerivationPath) × (kp : PqRootKeypair fips) × (subkey_path k {E = CeremonyError}
            account idx
          ≡ ok path)
        × (derive_keypair k sha fips mnemonic path ≡ ok kp)
        × IsKeypair fips kp
  unfolding subkey_path derive_keypair derive_node
  derive_keypair-total mnemonic account idx small small' =
      let (path, parsed, derives) = laws.path_of account idx small small' in
      let (master, made) = laws.master_of mnemonic in
      let (s, derived) = derives master in
      let (kp, expanded, pair) = from_seed-IsKeypair fips fips_laws Derive.Error sha s.node in
      (path, kp, rw parsed, rw (made, derived) expanded, pair)

  -- The encoded keys have `u32` lengths.
  pub length-IsKeypair :
      (kp : PqRootKeypair fips)
      → IsKeypair fips kp
      → (length kp.ml_dsa_pk < u32_mod) × (length kp.slh_dsa_pk < u32_mod)
  length-IsKeypair kp pair =
      let ml = ap length pair.ml_encoded ∙ fips_laws.ml_dsa_laws.length-into_bytes pair.ml_key in
      let slh =
        ap length pair.slh_encoded ∙ fips_laws.slh_dsa_laws.length-into_bytes pair.slh_key in
      let small = fips_laws.pk_len_lt in
      (
        subst {A = ℕ} (λ n. n < u32_mod) (sym ml) small.0,
        subst {A = ℕ} (λ n. n < u32_mod) (sym slh) small.1,
      )

  derive_subkey-total :
      (mnemonic : k.Mnemonic) (account purpose_tag account_index : ℕ) (d : Derived)
      → account < 2 ^ 31
      → account_index < 2 ^ 31
      → (d' : Derived) × (derive_subkey k sha fips mnemonic account purpose_tag account_index d
          ≡ ok d')
  unfolding derive_subkey subkey_leaf
  derive_subkey-total mnemonic account purpose_tag account_index (rs, leaves, next) small small' =
      let (path, kp, parsed, derived, pair) =
        derive_keypair-total mnemonic account account_index small small' in
      let (ml, slh) = length-IsKeypair kp pair in
      let r : SubkeyRecord = record {
        global_index = next;
        account = account;
        account_index = account_index;
        purpose_tag = purpose_tag;
        ml_dsa_pk = kp.ml_dsa_pk;
        slh_dsa_pk = kp.slh_dsa_pk;
      } in
      let leaf = sha.digest (leaf_bytes sha next purpose_tag kp.ml_dsa_pk kp.slh_dsa_pk) in
      (
        (rs ++ (r ∷ []), leaves ++ (leaf ∷ []), (next + 1) % u32_mod),
        rw (parsed, derived, u32_len_lem kp.ml_dsa_pk ml, u32_len_lem kp.slh_dsa_pk slh),
      )

  derive_lane-total :
      (mnemonic : k.Mnemonic) (account purpose_tag count account_index : ℕ) (d : Derived)
      → account < 2 ^ 31
      → account_index + count ≤ 2 ^ 31
      → (d' : Derived) × (derive_lane k sha fips mnemonic account purpose_tag count account_index d
          ≡ ok d')
  unfolding derive_lane
  derive_lane-total mnemonic account purpose_tag zero account_index d small fits = (d, refl)
  derive_lane-total mnemonic account purpose_tag (suc count) account_index d small fits =
      let (m, e) =
        derive_subkey-total mnemonic account purpose_tag account_index d small
          (omega (arith, fits)) in
      let (d', e') =
        derive_lane-total mnemonic account purpose_tag count (account_index + 1) m small
          (omega (arith, fits)) in
      (d', rw e e')

  pub derive_subkeys-total :
      (mnemonic : k.Mnemonic) (config : CeremonyConfig)
      → config.auth_count ≤ 2 ^ 31
      → config.enc_count ≤ 2 ^ 31
      → (d : Derived) × (derive_subkeys k sha fips mnemonic config ≡ ok d)
  unfolding derive_subkeys
  derive_subkeys-total mnemonic config auth enc =
      let (m, e) =
        derive_lane-total mnemonic 1 1 config.auth_count 0 ([], [], 0) (omega arith)
          (omega (arith, auth)) in
      let (d, e') =
        derive_lane-total mnemonic 2 2 config.enc_count 0 m (omega arith) (omega (arith, enc)) in
      (d, rw e e')
