-- ===== src/Quote.antt =====
-- crates/pq-quote/src/lib.rs: the Nitro quote verifier. Parsing and checking the COSE document is
-- `AttestationDoc::from_cose` of another crate, a parameter.
pub mod Extract
use pq_enclave_binding.Base.{
  ℕ, ◌*◌, ◌-◌, min, List, [], ◌∷◌, Option, none, some, ◌==◌, if◌then◌else◌, Bytes, String, ◌<>◌,
  Outcome, ok, err, ◌>>=◌, map_err, ok_or, unwrap_or, u64_mod, display, get,
}
use pq_enclave_binding.External.{Sha256, TextCodec}
use pq_enclave_binding.Bundle.{QuoteData, QuoteVerifier}

-- The fields of the attestation document that are read: a map from index to PCR, and user data.
pub record AttestationDoc : Type 0 where
  pub pcrs : List (ℕ × Bytes)
  pub user_data : Option Bytes

-- `AttestationDoc::from_cose`: the document, the root certificate and the time in milliseconds.
abbrev pub FromCose : Type 0
FromCose = Bytes → Bytes → ℕ → Outcome String AttestationDoc

pub record NitroQuoteVerifier : Type 0 where
  pub root_cert_der : Bytes
  pub verify_at_ms : ℕ

unfoldable pub new : Bytes → ℕ → NitroQuoteVerifier
new root_cert_der verify_at_unix_ms = record {
  root_cert_der = root_cert_der;
  verify_at_ms = verify_at_unix_ms;
}

-- `saturating_mul` on `u64` stops at its greatest value.
unfoldable pub at_unix_secs : Bytes → ℕ → NitroQuoteVerifier
unfolding new
at_unix_secs root_cert_der verify_at_unix_secs =
    new root_cert_der (min (verify_at_unix_secs * 1000) (u64_mod - 1))

unfoldable pub root_sha256_hex : TextCodec → Sha256 → NitroQuoteVerifier → String
root_sha256_hex hex sha v = hex.encode (sha.digest v.root_cert_der)

unfoldable pub pcr : AttestationDoc → ℕ → Outcome String Bytes
unfolding display
pcr doc i = ok_or (get doc.pcrs i) ("attestation document is missing PCR" <> display i)

unfoldable pub extract_quote_data : AttestationDoc → Outcome String QuoteData
unfolding pcr
extract_quote_data doc = do
  pcr0 ← pcr doc 0
  pcr1 ← pcr doc 1
  pcr2 ← pcr doc 2
  ok (record { pcr0 = pcr0; pcr1 = pcr1; pcr2 = pcr2; user_data = unwrap_or doc.user_data [] })

unfoldable pub verify_quote : FromCose → NitroQuoteVerifier → QuoteVerifier
unfolding extract_quote_data
verify_quote from_cose v quote_bytes = do
  doc ←
      map_err (λ e. "nitro attestation verification failed: " <> e)
        (from_cose quote_bytes v.root_cert_der v.verify_at_ms)
  extract_quote_data doc
