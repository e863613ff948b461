-- ===== src/Subkey.antt =====
-- crates/pq-subkey/src/lib.rs: certificates by which the root keys delegate to subkeys.
pub mod SigningBytes
pub mod Accepted
pub mod RoundTrip
use pq_enclave_binding.Base.{
  ℕ, Bool, true, false, not, ◌&&◌, ◌∷◌, ◌++◌, Option, none, some, Bytes, String, as_bytes, Outcome,
  ok, err, ◌>>=◌, ◌>>◌, map_err, fail_if, length, ◌==◌, ltb, leb, bytes_eq, be32, be64, u32_len,
}
use pq_enclave_binding.External.{Sha256, TextCodec, Json, Fips}
use pq_enclave_binding.Core
use pq_enclave_binding.Core.{
  canonical_payload, sign_payload, verify_dual, PqRootKeypair, DualSignature,
}

-- `CERT_VERSION` and `SIGNING_DOMAIN`
abbrev pub cert_version : String
cert_version = "1"

abbrev pub signing_domain : Bytes
unfolding as_bytes
signing_domain = as_bytes "pq-subkey-cert-v1"

-- The pairs of numbers are the bound of the certificate and the time of the check.
pub data Error : Type 0 where
  hex_decode : String → String → Error
  root_binding_mismatch : Error
  signature : Core.Error → Error
  not_yet_valid : ℕ → ℕ → Error
  expired : ℕ → ℕ → Error
  json : String → Error

pub data SubkeyPurpose : Type 0 where
  auth encryption : SubkeyPurpose

unfoldable pub tag : SubkeyPurpose → ℕ
tag auth = 1
tag encryption = 2

pub record SubkeyMeta : Type 0 where
  pub serial : ℕ
  pub purpose : SubkeyPurpose
  pub not_before : ℕ
  pub not_after : ℕ

pub record SubkeyPublicKeys : Type 0 where
  pub ml_dsa_pk : Bytes
  pub slh_dsa_pk : Bytes
  pub purpose : SubkeyPurpose
  pub serial : ℕ

pub record SubkeyCert : Type 0 where
  pub version : String
  pub root_binding : String
  pub ml_dsa_pk : String
  pub slh_dsa_pk : String
  pub serial : ℕ
  pub purpose : SubkeyPurpose
  pub not_before : ℕ
  pub not_after : ℕ
  pub ml_dsa_sig : String
  pub slh_dsa_sig : String

unfoldable pub to_json : Json SubkeyCert → SubkeyCert → Outcome Error String
to_json serde cert = map_err json (serde.to_string_pretty cert)

unfoldable pub from_json : Json SubkeyCert → String → Outcome Error SubkeyCert
from_json serde s = map_err json (serde.from_str s)

unfoldable pub root_binding {ℓ} : {E : Type ℓ} → Sha256 → Bytes → Bytes → Outcome E Bytes
root_binding sha root_ml_dsa_pk root_slh_dsa_pk = do
  payload ← canonical_payload root_ml_dsa_pk root_slh_dsa_pk
  ok (sha.digest payload)

-- The inner function `lp`: the text that it appends.
unfoldable pub lp {ℓ} : {E : Type ℓ} → Bytes → Outcome E Bytes
unfolding u32_len
lp bytes = do len ← u32_len bytes; ok (be32 len ++ bytes)

unfoldable pub signing_bytes {ℓ} :
    {E : Type ℓ} → Bytes → Bytes → Bytes → SubkeyMeta → Outcome E Bytes
unfolding lp tag as_bytes
signing_bytes binding ml_dsa_pk slh_dsa_pk meta = do
  domain ← lp signing_domain
  version ← lp (as_bytes cert_version)
  root ← lp binding
  ml ← lp ml_dsa_pk
  slh ← lp slh_dsa_pk
  ok (
      domain
      ++ (version
          ++ (root
              ++ (ml
                  ++ (slh
                      ++ (be64 meta.serial
                          ++ (tag meta.purpose
                              ∷ (be64 meta.not_before ++ be64 meta.not_after))))))))

module _ (hex : TextCodec) (sha : Sha256) (fips : Fips) where
  -- The two byte strings after the root are what the signers draw.
  unfoldable pub issue {ℓ} :
      {E : Type ℓ}
      → PqRootKeypair fips
      → Bytes
      → Bytes
      → Bytes
      → Bytes
      → SubkeyMeta
      → Outcome E SubkeyCert
  issue root ml_drawn slh_drawn subkey_ml_dsa_pk subkey_slh_dsa_pk meta = do
    binding ← root_binding sha root.ml_dsa_pk root.slh_dsa_pk
    msg ← signing_bytes binding subkey_ml_dsa_pk subkey_slh_dsa_pk meta
    sig ← sign_payload fips root ml_drawn slh_drawn msg
    ok (record {
      version = cert_version;
      root_binding = hex.encode binding;
      ml_dsa_pk = hex.encode subkey_ml_dsa_pk;
      slh_dsa_pk = hex.encode subkey_slh_dsa_pk;
      serial = meta.serial;
      purpose = meta.purpose;
      not_before = meta.not_before;
      not_after = meta.not_after;
      ml_dsa_sig = hex.encode sig.ml_dsa;
      slh_dsa_sig = hex.encode sig.slh_dsa;
    })

-- Step (3) of `verify`.
unfoldable pub check_window : SubkeyCert → Option ℕ → Outcome Error (Unit {0})
check_window cert none = ok tt
check_window cert (some now) = do
  fail_if (not (cert.not_before == 0) && ltb now cert.not_before)
      (not_yet_valid cert.not_before now)
  fail_if (not (cert.not_after == 0) && leb cert.not_after now) (expired cert.not_after now)

-- The metadata that `verify` takes from the certificate.
abbrev pub meta_of : SubkeyCert → SubkeyMeta
meta_of cert = record {
  serial = cert.serial;
  purpose = cert.purpose;
  not_before = cert.not_before;
  not_after = cert.not_after;
}

unfoldable pub verify :
    TextCodec
    → Sha256
    → Fips
    → SubkeyCert
    → Bytes
    → Bytes
    → Option ℕ
    → Outcome Error SubkeyPublicKeys
unfolding root_binding check_window bytes_eq
verify hex sha fips cert root_ml_dsa_pk root_slh_dsa_pk as_of = do
  sub_ml ← map_err (hex_decode "ml_dsa_pk") (hex.decode cert.ml_dsa_pk)
  sub_slh ← map_err (hex_decode "slh_dsa_pk") (hex.decode cert.slh_dsa_pk)
  cert_binding ← map_err (hex_decode "root_binding") (hex.decode cert.root_binding)
  ml_sig ← map_err (hex_decode "ml_dsa_sig") (hex.decode cert.ml_dsa_sig)
  slh_sig ← map_err (hex_decode "slh_dsa_sig") (hex.decode cert.slh_dsa_sig)
  expected ← root_binding sha root_ml_dsa_pk root_slh_dsa_pk
  fail_if (not (bytes_eq cert_binding expected)) root_binding_mismatch
  msg ← signing_bytes expected sub_ml sub_slh (meta_of cert)
  map_err signature (
      verify_dual fips root_ml_dsa_pk root_slh_dsa_pk msg
        (record { ml_dsa = ml_sig; slh_dsa = slh_sig }))
  check_window cert as_of
  ok (record {
    ml_dsa_pk = sub_ml;
    slh_dsa_pk = sub_slh;
    purpose = cert.purpose;
    serial = cert.serial;
  })
