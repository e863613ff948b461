-- ===== src/Ceremony/Ran.antt =====
-- crates/pq-ceremony/src/lib.rs: the steps of a ceremony that finishes.
use pq_enclave_binding.Base.{
  ◌≡◌, none, Bytes, ok, >>=-eq-ok, ok-injective, expect_ok, map_err, map_err-eq-ok,
}
use pq_enclave_binding.External.{Sha256, TextCodec, Fips}
use pq_enclave_binding.Merkle.{merkle_root}
use pq_enclave_binding.Core.{
  PqRootKeypair, DualSignature, canonical_payload_with_subkeys, sign_payload, user_data_commitment,
}
use pq_enclave_binding.Enclave.{Nsm, attest_bundle_payload}
use pq_enclave_binding.Derive.{Keyfork, subkey_path, derive_keypair}
use pq_enclave_binding.Ceremony.{
  CeremonyError, nsm, derive, CeremonyConfig, CeremonyState, Derived, derive_subkeys, run_ceremony,
}

module _ (k : Keyfork) (sha : Sha256) (fips : Fips) (hex base64 : TextCodec) where
  -- The state that a ceremony makes of the results of its steps.
  abbrev pub state_of :
      Bytes
      → k.Mnemonic
      → PqRootKeypair fips
      → Derived
      → Bytes
      → DualSignature
      → Bytes
      → Bytes
      → Bytes
      → Bytes
      → CeremonyState k
  state_of root_ca_der mnemonic root d subkey_root sig quote pcr0 pcr1 pcr2 = record {
    bundle = record {
      version = "2";
      ml_dsa_pk = hex.encode root.ml_dsa_pk;
      slh_dsa_pk = hex.encode root.slh_dsa_pk;
      nsm_quote = base64.encode quote;
      aws_root_ca_sha256 = hex.encode (sha.digest root_ca_der);
      expected_pcrs = record {
        pcr0 = hex.encode pcr0;
        pcr1 = hex.encode pcr1;
        pcr2 = hex.encode pcr2;
      };
      subkey_merkle_root = hex.encode subkey_root;
      subkey_count = d.2;
      ml_dsa_sig = hex.encode sig.ml_dsa;
      slh_dsa_sig = hex.encode sig.slh_dsa;
    };
    subkeys = d.0;
    mnemonic = mnemonic;
    leaves = d.1;
  }

-- The result of each step, and the state that they make.
pub record Ran (k : Keyfork) (sha : Sha256) (fips : Fips) (hex base64 : TextCodec) (n : Nsm)
    (root_ca_der : Bytes) (config : CeremonyConfig) (ml_drawn slh_drawn : Bytes)
    (state : CeremonyState k) : Type 0 where
  pub mnemonic : k.Mnemonic
  pub root_path : k.DerivationPath
  pub root : PqRootKeypair fips
  pub d : Derived
  pub subkey_root : Bytes
  pub payload : Bytes
  pub sig : DualSignature
  pub quote : Bytes
  pub pcr0 : Bytes
  pub pcr1 : Bytes
  pub pcr2 : Bytes
  pub root_derived : derive_keypair k sha fips mnemonic root_path ≡ ok root
  pub derived : derive_subkeys k sha fips mnemonic config ≡ ok d
  pub rooted : merkle_root sha {E = CeremonyError} d.1 ≡ ok subkey_root
  pub payload_made :
      canonical_payload_with_subkeys {E = CeremonyError} root.ml_dsa_pk root.slh_dsa_pk subkey_root
        d.2
      ≡ ok payload
  pub signed : sign_payload fips {E = CeremonyError} root ml_drawn slh_drawn payload ≡ ok sig
  pub attested : Nsm.attest n (user_data_commitment sha payload) none none ≡ ok quote
  pub described0 : Nsm.describe_pcr n 0 ≡ ok pcr0
  pub described1 : Nsm.describe_pcr n 1 ≡ ok pcr1
  pub described2 : Nsm.describe_pcr n 2 ≡ ok pcr2
  pub made :
      state_of k sha fips hex base64 root_ca_der mnemonic root d subkey_root sig quote pcr0 pcr1
        pcr2
      ≡ state

module _ (k : Keyfork) (sha : Sha256) (fips : Fips) (hex base64 : TextCodec) where
  pub run_ceremony-Ran :
      (n : Nsm) (root_ca_der : Bytes) (config : CeremonyConfig) (entropy ml_drawn slh_drawn : Bytes)
      (state : CeremonyState k)
      → run_ceremony k sha fips hex base64 n root_ca_der config entropy ml_drawn slh_drawn
        ≡ ok state
      → Ran k sha fips hex base64 n root_ca_der config ml_drawn slh_drawn state
  unfolding run_ceremony attest_bundle_payload
  run_ceremony-Ran n root_ca_der config entropy ml_drawn slh_drawn state h =
      let (mnemonic, e₁, h₁) = >>=-eq-ok (expect_ok (k.try_from_slice entropy)) _ h in
      let (path, e₂, h₂) = >>=-eq-ok (subkey_path k 0 0) _ h₁ in
      let (root, e₃, h₃) =
        >>=-eq-ok (map_err derive (derive_keypair k sha fips mnemonic path)) _ h₂ in
      let (d, e₄, h₄) = >>=-eq-ok (derive_subkeys k sha fips mnemonic config) _ h₃ in
      let (subkey_root, e₅, h₅) = >>=-eq-ok (merkle_root sha d.1) _ h₄ in
      let (payload, e₆, h₆) =
        >>=-eq-ok (canonical_payload_with_subkeys root.ml_dsa_pk root.slh_dsa_pk subkey_root d.2) _
          h₅ in
      let (sig, e₇, h₇) = >>=-eq-ok (sign_payload fips root ml_drawn slh_drawn payload) _ h₆ in
      let (quote, e₈, h₈) = >>=-eq-ok (map_err nsm (attest_bundle_payload sha n payload)) _ h₇ in
      let (pcr0, e₉, h₉) = >>=-eq-ok (map_err nsm (Nsm.describe_pcr n 0)) _ h₈ in
      let (pcr1, f₁, g₁) = >>=-eq-ok (map_err nsm (Nsm.describe_pcr n 1)) _ h₉ in
      let (pcr2, f₂, g₂) = >>=-eq-ok (map_err nsm (Nsm.describe_pcr n 2)) _ g₁ in
      record {
        mnemonic = mnemonic;
        root_path = path;
        root = root;
        d = d;
        subkey_root = subkey_root;
        payload = payload;
        sig = sig;
        quote = quote;
        pcr0 = pcr0;
        pcr1 = pcr1;
        pcr2 = pcr2;
        root_derived = map_err-eq-ok derive (derive_keypair k sha fips mnemonic path) e₃;
        derived = e₄;
        rooted = e₅;
        payload_made = e₆;
        signed = e₇;
        attested = map_err-eq-ok nsm (attest_bundle_payload sha n payload) e₈;
        described0 = map_err-eq-ok nsm (Nsm.describe_pcr n 0) e₉;
        described1 = map_err-eq-ok nsm (Nsm.describe_pcr n 1) f₁;
        described2 = map_err-eq-ok nsm (Nsm.describe_pcr n 2) f₂;
        made = ok-injective CeremonyError g₂;
      }
