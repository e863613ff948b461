-- ===== src/Bundle/Tamper.antt =====
-- crates/pq-bundle/src/lib.rs: the attested user data determines the bundle's keys and subkey set.
use pq_enclave_binding.Base.{◌≡◌, ◌<◌, sym, ◌∙◌, ap, Option, Bytes, ok, ◌⊎◌, inl, inr, u32_mod}
use pq_enclave_binding.External.{Sha256, Collides, TextCodec, Json, Fips}
use pq_enclave_binding.Core.{canonical_payload_with_subkeys}
use pq_enclave_binding.Core.Payload.{with_subkeys-injective}
use pq_enclave_binding.Core.Signing.{user_data_commitment-injective}
use pq_enclave_binding.Bundle.{
  Error, VerifyReport, QuoteVerifier, TimestampVerifier, PqRootBundle, verify,
}
use pq_enclave_binding.Bundle.Accepted.{Accepted, bundle_verify_iff}

-- The payload that `verify` forms for a bundle.
abbrev pub PayloadOf : TextCodec → PqRootBundle → Bytes → Type 0
PayloadOf hex b payload =
    (ml : Bytes) × (slh : Bytes) × (root : Bytes) × (hex.decode b.ml_dsa_pk ≡ ok ml)
    × (hex.decode b.slh_dsa_pk ≡ ok slh)
    × (hex.decode b.subkey_merkle_root ≡ ok root)
    × (canonical_payload_with_subkeys {E = Error} ml slh root b.subkey_count ≡ ok payload)

-- The payloads of two bundles differ and have one digest.
abbrev pub PayloadsCollide : TextCodec → Sha256 → PqRootBundle → PqRootBundle → Type 0
PayloadsCollide hex sha b b' =
    (p : Bytes) × (p' : Bytes) × PayloadOf hex b p × PayloadOf hex b' p' × Collides sha p p'

pub Accepted-PayloadOf :
    (hex base64 : TextCodec) (serde : Json PqRootBundle) (sha : Sha256) (fips : Fips)
    {b : PqRootBundle} {vq : QuoteVerifier} {ts : Option (TimestampVerifier × Bytes)}
    {r : VerifyReport}
    → (a : Accepted hex base64 serde sha fips b vq ts r) → PayloadOf hex b a.bound.payload
Accepted-PayloadOf hex base64 serde sha fips a = (
  a.d.ml_pk, a.d.slh_pk, a.bound.root, a.decodes.ml_pk_hex, a.decodes.slh_pk_hex, a.bound.root_hex,
  a.bound.payload_made,
)

module _ (hex base64 : TextCodec) (serde : Json PqRootBundle) (sha : Sha256) (fips : Fips) where
  -- Two bundles that `verify` accepts with the same attested user data, under any quote and
  -- timestamp verifiers, have the same two public keys, Merkle root and subkey count. Otherwise
  -- the payloads that `verify` formed for the two differ and have one SHA-256 digest. The counts are `u32` values.
  pub verify_binds :
      (b b' : PqRootBundle) (vq vq' : QuoteVerifier) (ts ts' : Option (TimestampVerifier × Bytes))
      (r r' : VerifyReport)
      → b.subkey_count < u32_mod
      → b'.subkey_count < u32_mod
      → verify hex base64 serde sha fips b vq ts ≡ ok r
      → verify hex base64 serde sha fips b' vq' ts' ≡ ok r'
      → r.user_data ≡ r'.user_data
      → ((hex.decode b.ml_dsa_pk ≡ hex.decode b'.ml_dsa_pk)
          × (hex.decode b.slh_dsa_pk ≡ hex.decode b'.slh_dsa_pk)
          × (r.subkey_merkle_root ≡ r'.subkey_merkle_root)
          × (b.subkey_count ≡ b'.subkey_count))
        ⊎ PayloadsCollide hex sha b b'
  verify_binds b b' vq vq' ts ts' r r' fits fits' h h' same =
      let a = (bundle_verify_iff hex base64 serde sha fips b vq ts r).0 h in
      let a' = (bundle_verify_iff hex base64 serde sha fips b' vq' ts' r').0 h' in
      let attested = ap (λ (x : VerifyReport). x.user_data) a.bound.reported in
      let attested' = ap (λ (x : VerifyReport). x.user_data) a'.bound.reported in
      let commitments = sym a.bound.binding ∙ sym attested ∙ same ∙ attested' ∙ a'.bound.binding in
      elim (user_data_commitment-injective sha a.bound.payload a'.bound.payload commitments) [
        | inl e ↦
            let (ml, slh, root, count) =
              with_subkeys-injective Error _ _ _ _ _ _ _ _ a'.bound.payload fits fits'
                (a.bound.payload_made ∙ ap ok e) a'.bound.payload_made in
            inl (
              a.decodes.ml_pk_hex ∙ ap ok ml ∙ sym a'.decodes.ml_pk_hex,
              a.decodes.slh_pk_hex ∙ ap ok slh ∙ sym a'.decodes.slh_pk_hex,
              ap (λ (x : VerifyReport). x.subkey_merkle_root) a.bound.reported
                  ∙ root
                  ∙ sym (ap (λ (x : VerifyReport). x.subkey_merkle_root) a'.bound.reported),
              count,
            )
        | inr c ↦ inr (
          _,
          _,
          Accepted-PayloadOf hex base64 serde sha fips a,
          Accepted-PayloadOf hex base64 serde sha fips a',
          c,
        )
      ]
