-- ===== src/Ceremony/EndToEnd.antt =====
-- crates/pq-ceremony/src/lib.rs with crates/pq-bundle/src/lib.rs: the bundle that a ceremony
-- publishes is accepted by the bundle's verification.
use pq_enclave_binding.Base.{
  ℕ, ◌+◌, ◌<◌, ◌≡◌, refl, sym, ap, ◌∙◌, subst, none, Bytes, ok, >>=-eq-ok, ok-injective, length,
  u32_mod, All, IsByte,
}
use pq_enclave_binding.External.{Sha256, TextCodec, Json, Fips, FipsLaws}
use pq_enclave_binding.Core.{PqRootKeypair, DualSignature, user_data_commitment}
use pq_enclave_binding.Core.Payload.{with_subkeys-transfer}
use pq_enclave_binding.Core.Signing.{
  Verifies, IsKeypair, from_seed-IsKeypair, sign_payload-Verifies,
}
use pq_enclave_binding.Bundle.{Error, QuoteData, QuoteVerifier, VerifyReport, PqRootBundle, verify}
use pq_enclave_binding.Bundle.Stages.{AllZero}
use pq_enclave_binding.Bundle.Accepted.{bundle_verify_iff}
use pq_enclave_binding.Enclave.{Nsm, NsmError}
use pq_enclave_binding.Derive
use pq_enclave_binding.Derive.{Keyfork, derive_node, subkey_path, derive_keypair}
use pq_enclave_binding.Ceremony.{CeremonyError, CeremonyConfig, CeremonyState, run_ceremony}
use pq_enclave_binding.Ceremony.Nodes.{Numbered-IsNode, merkle_root-IsNode}
use pq_enclave_binding.Ceremony.Ran.{Ran, run_ceremony-Ran}
use pq_enclave_binding.Ceremony.Lanes.{derive_subkeys-Aligned}

-- What the quote verifier is to the module that attests: its quotes are accepted, show the given
-- user data and the module's own PCRs, and are byte strings. PCR0 of an enclave that is not in
-- debug mode is not all zero.
pub record Attests (n : Nsm) (verify_quote : QuoteVerifier) : Type 0 where
  pub accepts :
      (shown quote : Bytes)
      → Nsm.attest n shown none none ≡ ok quote
      → All IsByte quote
        × (q : QuoteData) × (verify_quote quote ≡ ok q)
        × (q.user_data ≡ shown)
        × (Nsm.describe_pcr n 0 ≡ ok q.pcr0)
        × (Nsm.describe_pcr n 1 ≡ ok q.pcr1)
        × (Nsm.describe_pcr n 2 ≡ ok q.pcr2)
  pub describe_pcr-IsByte : (i : ℕ) (b : Bytes) → Nsm.describe_pcr n i ≡ ok b → All IsByte b
  pub not_debug : (b : Bytes) → Nsm.describe_pcr n 0 ≡ ok b → AllZero b → ⊥

module _ (k : Keyfork) (sha : Sha256) (fips : Fips) (hex base64 : TextCodec) where
  pub derive_keypair-IsKeypair :
      FipsLaws fips
      → (mnemonic : k.Mnemonic) (path : k.DerivationPath) (kp : PqRootKeypair fips)
      → derive_keypair k sha fips mnemonic path ≡ ok kp
      → IsKeypair fips kp
  unfolding derive_keypair
  derive_keypair-IsKeypair laws mnemonic path kp h =
      let (node, _, h₁) = >>=-eq-ok (derive_node k mnemonic path) _ h in
      let (kp', made, pair) = from_seed-IsKeypair fips laws Derive.Error sha node in
      subst {A = PqRootKeypair fips} (IsKeypair fips) (ok-injective Derive.Error (sym made ∙ h₁))
        pair

  pub IsKeypair-IsByte :
      FipsLaws fips
      → (kp : PqRootKeypair fips) → IsKeypair fips kp
      → All IsByte kp.ml_dsa_pk × All IsByte kp.slh_dsa_pk
  IsKeypair-IsByte laws kp pair = (
    subst {A = Bytes} (All IsByte) (sym pair.ml_encoded)
        (laws.ml_dsa_laws.into_bytes-IsByte pair.ml_key),
    subst {A = Bytes} (All IsByte) (sym pair.slh_encoded)
        (laws.slh_dsa_laws.into_bytes-IsByte pair.slh_key),
  )

  pub Ran-IsByte :
      {n : Nsm} {root_ca_der : Bytes} (config : CeremonyConfig) {ml_drawn slh_drawn : Bytes}
      {state : CeremonyState k}
      → config.auth_count + config.enc_count < u32_mod
      → (p : Ran k sha fips hex base64 n root_ca_der config ml_drawn slh_drawn state)
      → All IsByte p.subkey_root
  Ran-IsByte config small p =
      let ((numbered, _), _) =
        derive_subkeys-Aligned k sha fips p.mnemonic config p.d small p.derived in
      let (root, made, node) =
        merkle_root-IsNode sha p.d.1 (Numbered-IsNode sha 0 p.d.0 p.d.1 numbered) in
      subst {A = Bytes} (All IsByte) (ok-injective CeremonyError (sym made ∙ p.rooted)) node.0

  -- The bundle of a ceremony that finishes, with counts whose sum is a `u32`, is accepted by the
  -- bundle's `verify` under a quote verifier that accepts what the module attests, and the report
  -- has the subkey count of the bundle. The keys of the algorithms obey their laws.
  pub verify-run_ceremony :
      FipsLaws fips
      → (n : Nsm) (root_ca_der : Bytes) (config : CeremonyConfig)
        (entropy ml_drawn slh_drawn : Bytes) (state : CeremonyState k) (serde : Json PqRootBundle)
        (verify_quote : QuoteVerifier)
      → config.auth_count + config.enc_count < u32_mod
      → Attests n verify_quote
      → run_ceremony k sha fips hex base64 n root_ca_der config entropy ml_drawn slh_drawn
        ≡ ok state
      → (report : VerifyReport) × (verify hex base64 serde sha fips state.bundle verify_quote none
          ≡ ok report)
        × (report.subkey_count ≡ state.bundle.subkey_count)
  verify-run_ceremony laws n root_ca_der config entropy ml_drawn slh_drawn state serde verify_quote
        small attests h =
      let p =
        run_ceremony-Ran k sha fips hex base64 n root_ca_der config entropy ml_drawn slh_drawn state
          h in
      let kp = p.root in
      let pair = derive_keypair-IsKeypair laws p.mnemonic p.root_path kp p.root_derived in
      let published = sym (ap (λ s. CeremonyState.bundle s) p.made) in
      let (quote-bytes, q, quoted, shown, d0, d1, d2) =
        attests.accepts (user_data_commitment sha p.payload) p.quote p.attested in
      let (sig, made, ml, slh, ml_bytes, slh_bytes) =
        sign_payload-Verifies fips laws CeremonyError kp ml_drawn slh_drawn p.payload pair in
      let same : sig ≡ p.sig = ok-injective CeremonyError (sym made ∙ p.signed) in
      let is0 : p.pcr0 ≡ q.pcr0 = ok-injective NsmError (sym p.described0 ∙ d0) in
      let is1 : p.pcr1 ≡ q.pcr1 = ok-injective NsmError (sym p.described1 ∙ d1) in
      let is2 : p.pcr2 ≡ q.pcr2 = ok-injective NsmError (sym p.described2 ∙ d2) in
      let (ml_key, slh_key) = IsKeypair-IsByte laws kp pair in
      let report : VerifyReport = record {
        pcr0 = q.pcr0;
        pcr1 = q.pcr1;
        pcr2 = q.pcr2;
        user_data = q.user_data;
        ml_dsa_pk_len = length kp.ml_dsa_pk;
        slh_dsa_pk_len = length kp.slh_dsa_pk;
        subkey_merkle_root = p.subkey_root;
        subkey_count = p.d.2;
      } in
      (
        report,
        rw published (
            (bundle_verify_iff hex base64 serde sha fips _ verify_quote none report).1 (record {
              d = record {
                ml_pk = kp.ml_dsa_pk;
                slh_pk = kp.slh_dsa_pk;
                ml_sig = p.sig.ml_dsa;
                slh_sig = p.sig.slh_dsa;
                quote = p.quote;
              };
              q = q;
              decodes = record {
                ml_pk_hex = hex.decode-encode kp.ml_dsa_pk ml_key;
                slh_pk_hex = hex.decode-encode kp.slh_dsa_pk slh_key;
                ml_sig_hex =
                    hex.decode-encode p.sig.ml_dsa
                      (subst {A = DualSignature} (λ s. All IsByte s.ml_dsa) same ml_bytes);
                slh_sig_hex =
                    hex.decode-encode p.sig.slh_dsa
                      (subst {A = DualSignature} (λ s. All IsByte s.slh_dsa) same slh_bytes);
                quote_base64 = base64.decode-encode p.quote quote-bytes;
              };
              timestamped = tt;
              quoted = quoted;
              pinned = record {
                not_debug = λ all. attests.not_debug q.pcr0 d0 all.0;
                pcr0_hex =
                    hex.decode-encode p.pcr0 (attests.describe_pcr-IsByte 0 p.pcr0 p.described0)
                    ∙ ap ok is0;
                pcr1_hex =
                    hex.decode-encode p.pcr1 (attests.describe_pcr-IsByte 1 p.pcr1 p.described1)
                    ∙ ap ok is1;
                pcr2_hex =
                    hex.decode-encode p.pcr2 (attests.describe_pcr-IsByte 2 p.pcr2 p.described2)
                    ∙ ap ok is2;
              };
              bound = record {
                root = p.subkey_root;
                payload = p.payload;
                root_hex = hex.decode-encode p.subkey_root (Ran-IsByte config small p);
                payload_made =
                    with_subkeys-transfer CeremonyError Error kp.ml_dsa_pk kp.slh_dsa_pk
                      p.subkey_root p.d.2 p.payload_made;
                binding = shown;
                ml_verifies =
                    subst {A = DualSignature}
                      (λ s. Verifies fips.ml_dsa kp.ml_dsa_pk p.payload s.ml_dsa) same ml;
                slh_verifies =
                    subst {A = DualSignature}
                      (λ s. Verifies fips.slh_dsa kp.slh_dsa_pk p.payload s.slh_dsa) same slh;
                reported = refl;
              };
            })),
        sym (ap PqRootBundle.subkey_count published),
      )
