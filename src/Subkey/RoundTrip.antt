-- ===== src/Subkey/RoundTrip.antt =====
-- crates/pq-subkey/src/lib.rs: an issued certificate verifies under its root, and what the
-- signatures leave open.
use pq_enclave_binding.Base.{
  ℕ, ◌<◌, ◌≡◌, refl, ap, arith, Option, none, some, ◌++◌, be32, Bytes, String, ok, ◌>>=◌, length,
  u32_mod, All, IsByte,
}
use pq_enclave_binding.External.{Sha256, TextCodec, Fips, FipsLaws}
use pq_enclave_binding.Core.{PqRootKeypair}
use pq_enclave_binding.Core.Payload.{canonical_payload_lem}
use pq_enclave_binding.Core.Signing.{IsKeypair, sign_payload-Verifies}
use pq_enclave_binding.Subkey.{
  Error, SubkeyMeta, SubkeyCert, root_binding, issue, verify, check_window,
}
use pq_enclave_binding.Subkey.SigningBytes.{header, body, signing_bytes_lem}
use pq_enclave_binding.Subkey.Accepted.{InWindow, cert_verify_iff}

module _ (hex : TextCodec) (sha : Sha256) (fips : Fips) where
  -- The signatures do not cover the `version` field, and `verify` does not read it.
  pub verify-version :
      (cert : SubkeyCert) (version : String) (root_ml root_slh : Bytes) (as_of : Option ℕ)
      → verify hex sha fips (record cert { version = version }) root_ml root_slh as_of
        ≡ verify hex sha fips cert root_ml root_slh as_of
  unfolding verify check_window
  verify-version cert version root_ml root_slh none = refl
  verify-version cert version root_ml root_slh (some now) = refl

  root_binding_lem {ℓ} :
      (E : Type ℓ) (ml slh : Bytes)
      → length ml < u32_mod
      → length slh < u32_mod
      → root_binding {E = E} sha ml slh
        ≡ ok (sha.digest (be32 (length ml) ++ (ml ++ (be32 (length slh) ++ slh))))
  unfolding root_binding
  root_binding_lem E ml slh a b = rw (canonical_payload_lem E ml slh a b)

  module _ (laws : FipsLaws fips) where
    key_sizes :
        (kp : PqRootKeypair fips)
        → IsKeypair fips kp
        → (length kp.ml_dsa_pk < u32_mod) × (length kp.slh_dsa_pk < u32_mod)
    key_sizes kp k = (
      omega (
        arith,
        ap length k.ml_encoded,
        laws.ml_dsa_laws.length-into_bytes k.ml_key,
        laws.pk_len_lt.0,
      ),
      omega (
        arith,
        ap length k.slh_encoded,
        laws.slh_dsa_laws.length-into_bytes k.slh_key,
        laws.pk_len_lt.1,
      ),
    )

    -- A certificate that generated root keys issue to a subkey (byte strings of `u32` length)
    -- verifies under those root keys at any time of its validity window, and yields the subkey's
    -- public keys, purpose and serial number.
    pub verify-issue :
        (root : PqRootKeypair fips) (ml_drawn slh_drawn sub_ml sub_slh : Bytes) (meta : SubkeyMeta)
        (as_of : Option ℕ)
        → IsKeypair fips root
        → All IsByte sub_ml
        → All IsByte sub_slh
        → length sub_ml < u32_mod
        → length sub_slh < u32_mod
        → InWindow meta.not_before meta.not_after as_of
        → (do
          cert ← issue hex sha fips root ml_drawn slh_drawn sub_ml sub_slh meta
          verify hex sha fips cert root.ml_dsa_pk root.slh_dsa_pk as_of)
          ≡ ok (record {
            ml_dsa_pk = sub_ml;
            slh_dsa_pk = sub_slh;
            purpose = meta.purpose;
            serial = meta.serial;
          })
    unfolding issue
    verify-issue root ml_drawn slh_drawn sub_ml sub_slh meta as_of k bm bs lm ls window =
        let (big_ml, big_slh) = key_sizes root k in
        let text : Bytes =
          be32 (length root.ml_dsa_pk)
          ++ (root.ml_dsa_pk ++ (be32 (length root.slh_dsa_pk) ++ root.slh_dsa_pk)) in
        let binding = sha.digest text in
        let bound = root_binding_lem Error root.ml_dsa_pk root.slh_dsa_pk big_ml big_slh in
        let msg : Bytes = header ++ body binding sub_ml sub_slh meta in
        let made =
          signing_bytes_lem Error binding sub_ml sub_slh meta
            (omega (arith, sha.length-digest text)) lm ls in
        let (sig, signed, ml_ok, slh_ok, ml_bytes, slh_bytes) =
          sign_payload-Verifies fips laws Error root ml_drawn slh_drawn msg k in
        rw (bound, made, signed)
          ((cert_verify_iff hex sha fips _ root.ml_dsa_pk root.slh_dsa_pk as_of _).1 (record {
            sub_ml = sub_ml;
            sub_slh = sub_slh;
            binding = binding;
            msg = msg;
            ml_sig = sig.ml_dsa;
            slh_sig = sig.slh_dsa;
            ml_pk_hex = hex.decode-encode sub_ml bm;
            slh_pk_hex = hex.decode-encode sub_slh bs;
            binding_hex = hex.decode-encode binding (sha.digest-IsByte text);
            ml_sig_hex = hex.decode-encode sig.ml_dsa ml_bytes;
            slh_sig_hex = hex.decode-encode sig.slh_dsa slh_bytes;
            of_root = bound;
            signed = made;
            ml_verifies = ml_ok;
            slh_verifies = slh_ok;
            in_window = window;
            reported = refl;
          }))
