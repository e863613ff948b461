-- ===== src/Bundle.antt =====
-- crates/pq-bundle/src/lib.rs: the root key bundle and its verification. The quote verifier and the
-- timestamp verifier are the arguments that they are in the source.
pub mod Stages
pub mod Accepted
pub mod Tamper
pub mod Late
pub mod Rejected
use pq_enclave_binding.Base.{
  ℕ, ◌≡◌, Bool, true, false, not, ◌&&◌, List, [], ◌∷◌, Option, none, some, Bytes, String, as_bytes,
  Outcome, ok, err, ◌>>=◌, ◌>>◌, map_err, fail_if, length, ◌==◌, bytes_eq,
}
use pq_enclave_binding.External.{Sha256, TextCodec, Json, Fips}
use pq_enclave_binding.Core
use pq_enclave_binding.Core.{canonical_payload_with_subkeys, user_data_commitment, verify_dual}

-- Errors of other crates are their messages. A PCR's index, its expected and its actual value.
pub data Error : Type 0 where
  quote_parse : String → Error
  debug_mode : Error
  pcr_mismatch : ℕ → String → String → Error
  binding_mismatch : Error
  hex_decode : String → String → Error
  base64_decode : String → String → Error
  signature : Core.Error → Error
  json : String → Error

pub record QuoteData : Type 0 where
  pub pcr0 : Bytes
  pub pcr1 : Bytes
  pub pcr2 : Bytes
  pub user_data : Bytes

pub record VerifyReport : Type 0 where
  pub pcr0 : Bytes
  pub pcr1 : Bytes
  pub pcr2 : Bytes
  pub user_data : Bytes
  pub ml_dsa_pk_len : ℕ
  pub slh_dsa_pk_len : ℕ
  pub subkey_merkle_root : Bytes
  pub subkey_count : ℕ

-- The traits `QuoteVerifier` and `TimestampVerifier`, each by its one method.
abbrev pub QuoteVerifier : Type 0
QuoteVerifier = Bytes → Outcome String QuoteData

abbrev pub TimestampVerifier : Type 0
TimestampVerifier = Bytes → Bytes → Outcome String (Unit {0})

pub record ExpectedPcrs : Type 0 where
  pub pcr0 : String
  pub pcr1 : String
  pub pcr2 : String

pub record PqRootBundle : Type 0 where
  pub version : String
  pub ml_dsa_pk : String
  pub slh_dsa_pk : String
  pub nsm_quote : String
  pub aws_root_ca_sha256 : String
  pub expected_pcrs : ExpectedPcrs
  pub subkey_merkle_root : String
  pub subkey_count : ℕ
  pub ml_dsa_sig : String
  pub slh_dsa_sig : String

unfoldable pub to_json : Json PqRootBundle → PqRootBundle → Outcome Error String
to_json serde bundle = map_err json (serde.to_string_pretty bundle)

unfoldable pub from_json : Json PqRootBundle → String → Outcome Error PqRootBundle
from_json serde s = map_err json (serde.from_str s)

unfoldable pub all_zero : Bytes → Bool
all_zero [] = true
all_zero (b ∷ bs) = (b == 0) && all_zero bs

-- The optional OpenTimestamps check, over the digest of the bundle's canonical JSON.
unfoldable pub check_timestamp :
    Sha256
    → Json PqRootBundle
    → PqRootBundle
    → Option (TimestampVerifier × Bytes)
    → Outcome Error (Unit {0})
unfolding to_json as_bytes
check_timestamp sha serde bundle none = ok tt
check_timestamp sha serde bundle (some (verify_timestamp, ots_bytes)) = do
  bundle_json ← to_json serde bundle
  map_err quote_parse (verify_timestamp (sha.digest (as_bytes bundle_json)) ots_bytes)

-- The five fields that `verify` decodes first.
pub record Decoded : Type 0 where
  pub ml_pk : Bytes
  pub slh_pk : Bytes
  pub ml_sig : Bytes
  pub slh_sig : Bytes
  pub quote : Bytes

module _ (hex : TextCodec) where
  unfoldable pub decode_fields : TextCodec → PqRootBundle → Outcome Error Decoded
  decode_fields base64 bundle = do
    ml_pk ← map_err (hex_decode "ml_dsa_pk") (hex.decode bundle.ml_dsa_pk)
    slh_pk ← map_err (hex_decode "slh_dsa_pk") (hex.decode bundle.slh_dsa_pk)
    ml_sig ← map_err (hex_decode "ml_dsa_sig") (hex.decode bundle.ml_dsa_sig)
    slh_sig ← map_err (hex_decode "slh_dsa_sig") (hex.decode bundle.slh_dsa_sig)
    quote ← map_err (base64_decode "nsm_quote") (base64.decode bundle.nsm_quote)
    ok (record {
      ml_pk = ml_pk;
      slh_pk = slh_pk;
      ml_sig = ml_sig;
      slh_sig = slh_sig;
      quote = quote;
    })

  unfoldable pub check_pcr : ℕ → String → Bytes → Outcome Error (Unit {0})
  unfolding bytes_eq
  check_pcr i expected_hex actual = do
    expected ← map_err (hex_decode "expected_pcrs") (hex.decode expected_hex)
    fail_if (not (bytes_eq actual expected)) (pcr_mismatch i expected_hex (hex.encode actual))

  -- Steps 2 and 3: debug-mode rejection and PCR pinning.
  unfoldable pub check_pcrs : ExpectedPcrs → QuoteData → Outcome Error (Unit {0})
  unfolding all_zero check_pcr
  check_pcrs expected q = do
    fail_if (all_zero q.pcr0 && (all_zero q.pcr1 && all_zero q.pcr2)) debug_mode
    check_pcr 0 expected.pcr0 q.pcr0
    check_pcr 1 expected.pcr1 q.pcr1
    check_pcr 2 expected.pcr2 q.pcr2

  -- Steps 4 and 5: the binding of the quote to keys and subkey set, and the dual signature.
  unfoldable pub check_payload :
      Sha256 → Fips → PqRootBundle → Decoded → QuoteData → Outcome Error VerifyReport
  unfolding bytes_eq
  check_payload sha fips bundle d q = do
    subkey_root ← map_err (hex_decode "subkey_merkle_root") (hex.decode bundle.subkey_merkle_root)
    payload ← canonical_payload_with_subkeys d.ml_pk d.slh_pk subkey_root bundle.subkey_count
    fail_if (not (bytes_eq q.user_data (user_data_commitment sha payload))) binding_mismatch
    map_err signature (
        verify_dual fips d.ml_pk d.slh_pk payload
          (record { ml_dsa = d.ml_sig; slh_dsa = d.slh_sig }))
    ok (record {
      pcr0 = q.pcr0;
      pcr1 = q.pcr1;
      pcr2 = q.pcr2;
      user_data = q.user_data;
      ml_dsa_pk_len = length d.ml_pk;
      slh_dsa_pk_len = length d.slh_pk;
      subkey_merkle_root = subkey_root;
      subkey_count = bundle.subkey_count;
    })

  unfoldable pub verify :
      TextCodec
      → Json PqRootBundle
      → Sha256
      → Fips
      → PqRootBundle
      → QuoteVerifier
      → Option (TimestampVerifier × Bytes)
      → Outcome Error VerifyReport
  unfolding decode_fields check_timestamp check_pcrs check_payload
  verify base64 serde sha fips bundle verify_quote ts_verifier = do
    d ← decode_fields base64 bundle
    check_timestamp sha serde bundle ts_verifier
    q ← map_err quote_parse (verify_quote d.quote)
    check_pcrs bundle.expected_pcrs q
    check_payload sha fips bundle d q
