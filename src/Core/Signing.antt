-- ===== src/Core/Signing.antt =====
-- crates/pq-core/src/lib.rs: what dual verification accepts, and that a generated keypair signs it.
use pq_enclave_binding.Base.{
  ◌≡◌, ◌↔◌, >>=-eq-ok, refl, ◌∙◌, ap, arith, Bytes, true, ◌⊎◌, inl, inr, some, ok, ◌>>=◌, as_bytes,
  length, All, IsByte, append_split, Option-cases,
}
use pq_enclave_binding.External.{Sha256, Collides, Scheme, Fips, FipsLaws}
use pq_enclave_binding.Merkle.Leaves.{digest_cases}
use pq_enclave_binding.Core.{
  Error, DualSignature, PqRootKeypair, from_seed, sign_payload, verify_ml_dsa, verify_slh_dsa,
  verify_dual, derive_subseed, user_data_commitment, user_data_prefix,
}

-- A signature of one algorithm: key and signature have its sizes, the key decodes, and the
-- algorithm accepts the signature over the payload.
pub record Verifies (s : Scheme) (pk payload sig : Bytes) : Type 0 where
  pub key : s.PublicKey
  pub pk_size : length pk ≡ s.pk_len
  pub decoded : s.try_from_bytes pk ≡ some key
  pub sig_size : length sig ≡ s.sig_len
  pub accepted : s.verify key payload sig ≡ true

module _ (f : Fips) where
  verify_ml_dsa-eq-ok :
      (pk payload sig : Bytes)
      → verify_ml_dsa f pk payload sig ≡ ok tt
      → Verifies f.ml_dsa pk payload sig
  unfolding verify_ml_dsa
  verify_ml_dsa-eq-ok pk payload sig h = elim (Option-cases (f.ml_dsa.try_from_bytes pk)) [
    | inl bad ↦ absurd (ground arith)
    | inr (key, decoded) ↦ record {
      key = key;
      pk_size = ground arith;
      decoded = decoded;
      sig_size = ground arith;
      accepted = ground arith;
    }
  ]

  verify_ml_dsa_lem :
      (pk payload sig : Bytes)
      → Verifies f.ml_dsa pk payload sig
      → verify_ml_dsa f pk payload sig ≡ ok tt
  unfolding verify_ml_dsa
  verify_ml_dsa_lem pk payload sig v = ground (arith, v.pk_size, v.decoded, v.sig_size, v.accepted)

  verify_slh_dsa-eq-ok :
      (pk payload sig : Bytes)
      → verify_slh_dsa f pk payload sig ≡ ok tt
      → Verifies f.slh_dsa pk payload sig
  unfolding verify_slh_dsa
  verify_slh_dsa-eq-ok pk payload sig h = elim (Option-cases (f.slh_dsa.try_from_bytes pk)) [
    | inl bad ↦ absurd (ground arith)
    | inr (key, decoded) ↦ record {
      key = key;
      pk_size = ground arith;
      decoded = decoded;
      sig_size = ground arith;
      accepted = ground arith;
    }
  ]

  verify_slh_dsa_lem :
      (pk payload sig : Bytes)
      → Verifies f.slh_dsa pk payload sig
      → verify_slh_dsa f pk payload sig ≡ ok tt
  unfolding verify_slh_dsa
  verify_slh_dsa_lem pk payload sig v = ground (arith, v.pk_size, v.decoded, v.sig_size, v.accepted)

  -- `verify_dual` returns `Ok` exactly if both signatures verify: each key and signature has the
  -- size of its algorithm, the key decodes, and the algorithm accepts.
  pub verify_dual_iff :
      (ml slh payload : Bytes) (sig : DualSignature)
      → (verify_dual f ml slh payload sig ≡ ok tt)
        ↔ (Verifies f.ml_dsa ml payload sig.ml_dsa × Verifies f.slh_dsa slh payload sig.slh_dsa)
  unfolding verify_dual
  verify_dual_iff ml slh payload sig = (
    λ h.
        let (_, first, h₁) = >>=-eq-ok (verify_ml_dsa f ml payload sig.ml_dsa) _ h in
        let (_, second, _) = >>=-eq-ok (verify_slh_dsa f slh payload sig.slh_dsa) _ h₁ in
        (
          verify_ml_dsa-eq-ok ml payload sig.ml_dsa first,
          verify_slh_dsa-eq-ok slh payload sig.slh_dsa second,
        ),
    λ both. rw (
      verify_ml_dsa_lem ml payload sig.ml_dsa both.0,
      verify_slh_dsa_lem slh payload sig.slh_dsa both.1,
    ),
  )

  -- The encoded public keys are those of the secret keys.
  pub record IsKeypair (kp : PqRootKeypair f) : Type 0 where
    pub ml_key : f.ml_dsa.PublicKey
    pub slh_key : f.slh_dsa.PublicKey
    pub ml_pair : f.ml_dsa.Pair ml_key kp.ml_dsa_sk
    pub slh_pair : f.slh_dsa.Pair slh_key kp.slh_dsa_sk
    pub ml_encoded : kp.ml_dsa_pk ≡ f.ml_dsa.into_bytes ml_key
    pub slh_encoded : kp.slh_dsa_pk ≡ f.slh_dsa.into_bytes slh_key

  module _ (laws : FipsLaws f) where
    pub from_seed-IsKeypair {ℓ} :
        (E : Type ℓ) (sha : Sha256) (seed : Bytes)
        → (kp : PqRootKeypair f) × (from_seed f {E = E} sha seed ≡ ok kp) × IsKeypair kp
    unfolding from_seed
    from_seed-IsKeypair E sha seed =
        let xi = derive_subseed sha (as_bytes "pq-root-ml-dsa-v1") seed in
        let ml = f.ml_dsa_keygen_from_seed xi in
        let (pk, sk, made, pair) =
          laws.slh_dsa_pair (derive_subseed sha (as_bytes "pq-root-slh-dsa-v1") seed) in
        let kp : PqRootKeypair f = record {
          ml_dsa_pk = f.ml_dsa.into_bytes ml.0;
          slh_dsa_pk = f.slh_dsa.into_bytes pk;
          ml_dsa_sk = ml.1;
          slh_dsa_sk = sk;
        } in
        (
          kp,
          rw made,
          record {
            ml_key = ml.0;
            slh_key = pk;
            ml_pair = laws.ml_dsa_pair xi;
            slh_pair = pair;
            ml_encoded = refl;
            slh_encoded = refl;
          },
        )

    -- A signature by generated keys exists, verifies, and consists of bytes.
    pub sign_payload-Verifies {ℓ} :
        (E : Type ℓ) (kp : PqRootKeypair f) (ml_drawn slh_drawn payload : Bytes)
        → IsKeypair kp
        → (sig : DualSignature) × (sign_payload f {E = E} kp ml_drawn slh_drawn payload ≡ ok sig)
          × Verifies f.ml_dsa kp.ml_dsa_pk payload sig.ml_dsa
          × Verifies f.slh_dsa kp.slh_dsa_pk payload sig.slh_dsa
          × All IsByte sig.ml_dsa
          × All IsByte sig.slh_dsa
    unfolding sign_payload
    sign_payload-Verifies E kp ml_drawn slh_drawn payload k =
        let ml = laws.ml_dsa_laws in
        let slh = laws.slh_dsa_laws in
        let (a, made, size, bytes, good) =
          ml.verify-try_sign k.ml_key kp.ml_dsa_sk ml_drawn payload k.ml_pair in
        let (b, made', size', bytes', good') =
          slh.verify-try_sign k.slh_key kp.slh_dsa_sk slh_drawn payload k.slh_pair in
        (
          record { ml_dsa = a; slh_dsa = b },
          rw (made, made'),
          record {
            key = k.ml_key;
            pk_size = ap length k.ml_encoded ∙ ml.length-into_bytes k.ml_key;
            decoded =
                ap f.ml_dsa.try_from_bytes k.ml_encoded ∙ ml.try_from_bytes-into_bytes k.ml_key;
            sig_size = size;
            accepted = good;
          },
          record {
            key = k.slh_key;
            pk_size = ap length k.slh_encoded ∙ slh.length-into_bytes k.slh_key;
            decoded =
                ap f.slh_dsa.try_from_bytes k.slh_encoded ∙ slh.try_from_bytes-into_bytes k.slh_key;
            sig_size = size';
            accepted = good';
          },
          bytes,
          bytes',
        )

  -- The keypair of every seed signs every payload, and `verify_dual` accepts the signature under
  -- its public keys, whatever the signers draw.
  pub verify_dual-sign_payload :
      FipsLaws f
      → (sha : Sha256) (seed ml_drawn slh_drawn payload : Bytes)
      → (do
        kp ← from_seed f sha seed
        sig ← sign_payload f kp ml_drawn slh_drawn payload
        verify_dual f kp.ml_dsa_pk kp.slh_dsa_pk payload sig)
        ≡ ok tt
  verify_dual-sign_payload laws sha seed ml_drawn slh_drawn payload =
      let (kp, made, k) = from_seed-IsKeypair laws Error sha seed in
      let (sig, signed, ml, slh, _, _) =
        sign_payload-Verifies laws Error kp ml_drawn slh_drawn payload k in
      rw (made, signed) ((verify_dual_iff kp.ml_dsa_pk kp.slh_dsa_pk payload sig).1 (ml, slh))

-- Equal commitments are to one payload, or the two payloads collide.
pub user_data_commitment-injective :
    (sha : Sha256) (p q : Bytes)
    → user_data_commitment sha p ≡ user_data_commitment sha q
    → (p ≡ q) ⊎ Collides sha p q
unfolding user_data_commitment
user_data_commitment-injective sha p q e =
    digest_cases sha p q (append_split user_data_prefix user_data_prefix refl e).1
