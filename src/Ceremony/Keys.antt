-- ===== src/Ceremony/Keys.antt =====
-- crates/pq-ceremony/src/lib.rs: each record of a ceremony is found by its index, and the signing
-- oracle derives again the keypair that the record was made from.
use pq_enclave_binding.Base.{
  ℕ, zero, suc, ◌+◌, ◌<◌, ◌≡◌, refl, ap, ◌∙◌, subst, arith, true, false, List, [], ◌∷◌, some, Bytes,
  ok, >>=-eq-ok, ok-injective, expect-eq-ok, map_err, map_err-eq-ok, get_elem?, All, All-append,
  ◌==◌,
}
use pq_enclave_binding.External.{Sha256, TextCodec, Fips}
use pq_enclave_binding.Merkle.{subkey_leaf}
use pq_enclave_binding.Core.{PqRootKeypair}
use pq_enclave_binding.Enclave.{Nsm}
use pq_enclave_binding.Derive.{Keyfork, subkey_path, derive_keypair}
use pq_enclave_binding.Ceremony.{
  CeremonyError, derive, CeremonyConfig, SubkeyRecord, CeremonyState, Derived, find_subkey,
  derive_subkey, derive_lane, derive_subkeys, run_ceremony,
}
use pq_enclave_binding.Ceremony.Ran.{run_ceremony-Ran}
use pq_enclave_binding.Ceremony.Lanes.{Numbered, cons}

pub find_subkey-Numbered :
    (sha : Sha256) (n : ℕ) (rs : List SubkeyRecord) (leaves : List Bytes) (i : ℕ) {r : SubkeyRecord}
    → Numbered sha n rs leaves
    → get_elem? rs i ≡ some r
    → find_subkey rs (i + n) ≡ some r
unfolding find_subkey
find_subkey-Numbered sha n [] leaves i x at = absurd (cc at)
find_subkey-Numbered sha n (r ∷ rs) [] i x at = elim x [ ]
find_subkey-Numbered sha n (r ∷ rs) (leaf ∷ leaves) zero (cons e made rest) at =
    let hit : (r.global_index == 0 + n) ≡ true = ground (arith, e) in rw hit at
find_subkey-Numbered sha n (r ∷ rs) (leaf ∷ leaves) (suc i) (cons e made rest) at =
    let miss : (r.global_index == suc i + n) ≡ false = ground (arith, e) in
    let there : find_subkey rs (suc i + n) ≡ find_subkey rs (i + suc n) =
      ap (find_subkey rs) (omega arith) in
    rw miss (there ∙ find_subkey-Numbered sha (suc n) rs leaves i rest at)

module _ (k : Keyfork) (sha : Sha256) (fips : Fips) where
  -- The record's keys are those that are derived at its account and index.
  pub record Derivable (mnemonic : k.Mnemonic) (r : SubkeyRecord) : Type 0 where
    pub path : k.DerivationPath
    pub kp : PqRootKeypair fips
    pub path_made : subkey_path k {E = CeremonyError} r.account r.account_index ≡ ok path
    pub derived : derive_keypair k sha fips mnemonic path ≡ ok kp
    pub ml_key : kp.ml_dsa_pk ≡ r.ml_dsa_pk
    pub slh_key : kp.slh_dsa_pk ≡ r.slh_dsa_pk
    pub purpose_lt : r.purpose_tag < 256

  -- The derivation of a path does not depend on the caller's errors.
  pub subkey_path-eq-ok {ℓ κ} :
      {E : Type ℓ} (F : Type κ) (account idx : ℕ) (path : k.DerivationPath)
      → subkey_path k {E = E} account idx ≡ ok path
      → subkey_path k {E = F} account idx ≡ ok path
  unfolding subkey_path
  subkey_path-eq-ok F account idx path h = rw (expect-eq-ok _ h)

  module _ (mnemonic : k.Mnemonic) where
    derive_subkey-Derivable :
        (account purpose_tag account_index : ℕ) (d d' : Derived)
        → purpose_tag < 256
        → All (Derivable mnemonic) d.0
        → derive_subkey k sha fips mnemonic account purpose_tag account_index d ≡ ok d'
        → All (Derivable mnemonic) d'.0
    unfolding derive_subkey
    derive_subkey-Derivable account purpose_tag account_index (rs, leaves, next) d' tag all h =
        let (path, e₁, h₁) = >>=-eq-ok (subkey_path k account account_index) _ h in
        let (kp, e₂, h₂) =
          >>=-eq-ok (map_err derive (derive_keypair k sha fips mnemonic path)) _ h₁ in
        let (leaf, made, h₃) =
          >>=-eq-ok (subkey_leaf sha next purpose_tag kp.ml_dsa_pk kp.slh_dsa_pk) _ h₂ in
        subst {A = Derived} (λ x. All (Derivable mnemonic) x.0) (ok-injective CeremonyError h₃)
          (All-append (Derivable mnemonic) rs _ all (
            record {
              path = path;
              kp = kp;
              path_made = e₁;
              derived = map_err-eq-ok derive (derive_keypair k sha fips mnemonic path) e₂;
              ml_key = refl;
              slh_key = refl;
              purpose_lt = tag;
            },
            tt,
          ))

    derive_lane-Derivable :
        (account purpose_tag count account_index : ℕ) (d d' : Derived)
        → purpose_tag < 256
        → All (Derivable mnemonic) d.0
        → derive_lane k sha fips mnemonic account purpose_tag count account_index d ≡ ok d'
        → All (Derivable mnemonic) d'.0
    unfolding derive_lane
    derive_lane-Derivable account purpose_tag zero account_index d d' tag all h =
        subst {A = Derived} (λ x. All (Derivable mnemonic) x.0) (ok-injective CeremonyError h) all
    derive_lane-Derivable account purpose_tag (suc count) account_index d d' tag all h =
        let (m, e, h₁) =
          >>=-eq-ok (derive_subkey k sha fips mnemonic account purpose_tag account_index d) _ h in
        derive_lane-Derivable account purpose_tag count (account_index + 1) m d' tag
          (derive_subkey-Derivable account purpose_tag account_index d m tag all e) h₁

    derive_subkeys-Derivable :
        (config : CeremonyConfig) (d : Derived)
        → derive_subkeys k sha fips mnemonic config ≡ ok d
        → All (Derivable mnemonic) d.0
    unfolding derive_subkeys
    derive_subkeys-Derivable config d h =
        let (m, e, h₁) =
          >>=-eq-ok (derive_lane k sha fips mnemonic 1 1 config.auth_count 0 ([], [], 0)) _ h in
        derive_lane-Derivable 2 2 config.enc_count 0 m d (omega arith)
          (derive_lane-Derivable 1 1 config.auth_count 0 ([], [], 0) m (omega arith) tt e) h₁

  pub run_ceremony-Derivable :
      (hex base64 : TextCodec) (n : Nsm) (root_ca_der : Bytes) (config : CeremonyConfig)
      (entropy ml_drawn slh_drawn : Bytes) (state : CeremonyState k)
      → run_ceremony k sha fips hex base64 n root_ca_der config entropy ml_drawn slh_drawn
        ≡ ok state
      → All (Derivable state.mnemonic) state.subkeys
  run_ceremony-Derivable hex base64 n root_ca_der config entropy ml_drawn slh_drawn state h =
      let p =
        run_ceremony-Ran k sha fips hex base64 n root_ca_der config entropy ml_drawn slh_drawn state
          h in
      subst {A = CeremonyState k} (λ s. All (Derivable s.mnemonic) s.subkeys) p.made
        (derive_subkeys-Derivable p.mnemonic config p.d p.derived)
