-- ===== src/Ceremony/Born.antt =====
-- crates/pq-ceremony/src/lib.rs with crates/pq-bundle/src/lib.rs: a bundle that verification accepts
-- with a quote of a ceremony publishes what this ceremony published.
use pq_enclave_binding.Base.{
  ℕ, ◌+◌, ◌<◌, ◌≡◌, sym, ap, ◌∙◌, subst, Option, Bytes, ok, inl, inr, ◌⊎◌, u32_mod,
}
use pq_enclave_binding.External.{Sha256, TextCodec, Json, Fips, FipsLaws}
use pq_enclave_binding.Core.{canonical_payload_with_subkeys, user_data_commitment}
use pq_enclave_binding.Core.Payload.{with_subkeys-transfer, with_subkeys-injective}
use pq_enclave_binding.Core.Signing.{user_data_commitment-injective}
use pq_enclave_binding.Bundle.{Error, QuoteVerifier, TimestampVerifier, VerifyReport, PqRootBundle}
use pq_enclave_binding.Bundle.Accepted.{Accepted}
use pq_enclave_binding.Bundle.Tamper.{PayloadOf, PayloadsCollide, Accepted-PayloadOf}
use pq_enclave_binding.Enclave.{Nsm}
use pq_enclave_binding.Derive.{Keyfork}
use pq_enclave_binding.Ceremony.{CeremonyError, CeremonyConfig, CeremonyState}
use pq_enclave_binding.Ceremony.Ran.{Ran}
use pq_enclave_binding.Ceremony.Lanes.{derive_subkeys-Aligned}
use pq_enclave_binding.Ceremony.EndToEnd.{derive_keypair-IsKeypair, IsKeypair-IsByte, Ran-IsByte}

-- Two bundles with the same signed content: their hexadecimal fields may be spelled differently.
pub record SameContent (hex : TextCodec) (bundle published : PqRootBundle) : Type 0 where
  pub ml_dsa_pk : hex.decode bundle.ml_dsa_pk ≡ hex.decode published.ml_dsa_pk
  pub slh_dsa_pk : hex.decode bundle.slh_dsa_pk ≡ hex.decode published.slh_dsa_pk
  pub subkey_merkle_root :
      hex.decode bundle.subkey_merkle_root ≡ hex.decode published.subkey_merkle_root
  pub subkey_count : bundle.subkey_count ≡ published.subkey_count

module _ (k : Keyfork) (sha : Sha256) (fips : Fips) (hex base64 : TextCodec) where
  Ran-PayloadOf :
      FipsLaws fips
      → {n : Nsm} {root_ca_der : Bytes} (config : CeremonyConfig) {ml_drawn slh_drawn : Bytes}
        (state : CeremonyState k)
      → config.auth_count + config.enc_count < u32_mod
      → (p : Ran k sha fips hex base64 n root_ca_der config ml_drawn slh_drawn state)
      → PayloadOf hex state.bundle p.payload
  Ran-PayloadOf laws config state small p =
      let kp = p.root in
      let published = sym (ap (λ s. CeremonyState.bundle s) p.made) in
      let (ml_key, slh_key) = IsKeypair-IsByte k sha fips hex base64 laws kp (
        derive_keypair-IsKeypair k sha fips hex base64 laws p.mnemonic p.root_path kp
          p.root_derived) in
      (
        kp.ml_dsa_pk,
        kp.slh_dsa_pk,
        p.subkey_root,
        ap (λ b. hex.decode (PqRootBundle.ml_dsa_pk b)) published
            ∙ hex.decode-encode kp.ml_dsa_pk ml_key,
        ap (λ b. hex.decode (PqRootBundle.slh_dsa_pk b)) published
            ∙ hex.decode-encode kp.slh_dsa_pk slh_key,
        ap (λ b. hex.decode (PqRootBundle.subkey_merkle_root b)) published
            ∙ hex.decode-encode p.subkey_root (Ran-IsByte k sha fips hex base64 config small p),
        ap
              (λ b.
                canonical_payload_with_subkeys {E = Error} kp.ml_dsa_pk kp.slh_dsa_pk p.subkey_root
                  (PqRootBundle.subkey_count b))
              published
            ∙ with_subkeys-transfer CeremonyError Error kp.ml_dsa_pk kp.slh_dsa_pk p.subkey_root
                p.d.2 p.payload_made,
      )

  -- The quote of the accepted bundle shows the commitment to the payload of the ceremony.
  pub Accepted-SameContent :
      FipsLaws fips
      → {n : Nsm} {root_ca_der : Bytes} (config : CeremonyConfig) {ml_drawn slh_drawn : Bytes}
        (state : CeremonyState k) {serde : Json PqRootBundle} {vq : QuoteVerifier}
        {ts : Option (TimestampVerifier × Bytes)} {report : VerifyReport} (bundle : PqRootBundle)
      → config.auth_count + config.enc_count < u32_mod
      → bundle.subkey_count < u32_mod
      → (p : Ran k sha fips hex base64 n root_ca_der config ml_drawn slh_drawn state)
      → (a : Accepted hex base64 serde sha fips bundle vq ts report)
      → a.q.user_data ≡ user_data_commitment sha p.payload
      → SameContent hex bundle state.bundle ⊎ PayloadsCollide hex sha bundle state.bundle
  Accepted-SameContent laws config state {serde = serde} bundle small count p a shown =
      elim (user_data_commitment-injective sha a.bound.payload p.payload
        (sym a.bound.binding ∙ shown)) [
          | inl same ↦ inl (content same)
          | inr c ↦ inr (_, _, Accepted-PayloadOf hex base64 serde sha fips a, ran, c)
        ]
    where
      ran : PayloadOf hex state.bundle p.payload
      ran = Ran-PayloadOf laws config state small p

      content : a.bound.payload ≡ p.payload → SameContent hex bundle state.bundle
      content same =
          let (_, _, _, ml_hex, slh_hex, root_hex, made) = ran in
          let published = sym (ap (λ s. CeremonyState.bundle s) p.made) in
          let total = (derive_subkeys-Aligned k sha fips p.mnemonic config p.d small p.derived).1 in
          let fits =
            subst {A = ℕ} (λ m. m < u32_mod)
              (sym total ∙ sym (ap PqRootBundle.subkey_count published)) small in
          let (ml, slh, root, same_count) =
            with_subkeys-injective Error a.d.ml_pk a.d.slh_pk a.bound.root bundle.subkey_count _ _ _
              _ p.payload count fits (a.bound.payload_made ∙ ap ok same) made in
          record {
            ml_dsa_pk = a.decodes.ml_pk_hex ∙ ap ok ml ∙ sym ml_hex;
            slh_dsa_pk = a.decodes.slh_pk_hex ∙ ap ok slh ∙ sym slh_hex;
            subkey_merkle_root = a.bound.root_hex ∙ ap ok root ∙ sym root_hex;
            subkey_count = same_count;
          }
