-- ===== src/Bundle/Late.antt =====
-- crates/pq-bundle/src/lib.rs: errors of `verify` that come after the quote was read.
use pq_enclave_binding.Base.{
  ◌≡◌, ◌≢◌, arith, Option, none, some, Bytes, String, Outcome, ok, err, panic, ◌>>=◌, >>=-err_past,
  map_err, map_err-eq-ok,
}
use pq_enclave_binding.External.{Sha256, TextCodec, Json, Fips}
use pq_enclave_binding.Core.{canonical_payload_with_subkeys}
use pq_enclave_binding.Bundle.{
  Error, debug_mode, binding_mismatch, quote_parse, QuoteData, QuoteVerifier, TimestampVerifier,
  PqRootBundle, Decoded, to_json, decode_fields, check_timestamp, check_pcrs, check_payload, verify,
}
use pq_enclave_binding.Bundle.Stages.{
  Timestamped, Decodes, decode_fields-eq-ok, decode_fields_lem, check_timestamp-eq-ok,
  check_timestamp_lem,
}

module _ (hex base64 : TextCodec) (serde : Json PqRootBundle) (sha : Sha256) (fips : Fips)
    (bundle : PqRootBundle) where
  -- An error that is none of decoding, timestamp and quote comes from a later step.
  pub data IsLate : Error → Type 0 where
    debug : IsLate debug_mode
    unbound : IsLate binding_mismatch

  decode_fields-ne : {e : Error} → IsLate e → decode_fields hex base64 bundle ≢ err e
  unfolding decode_fields
  decode_fields-ne debug h = ground arith
  decode_fields-ne unbound h = ground arith

  check_timestamp-ne :
      {e : Error} (ts : Option (TimestampVerifier × Bytes))
      → IsLate e
      → check_timestamp sha serde bundle ts ≢ err e
  unfolding check_timestamp to_json
  check_timestamp-ne none late h = cc
  check_timestamp-ne (some (v, ots)) debug h = ground arith
  check_timestamp-ne (some (v, ots)) unbound h = ground arith

  quote_parse-ne :
      {e : Error} (m : Outcome String QuoteData) → IsLate e → map_err quote_parse m ≢ err e
  quote_parse-ne (ok a) late h = cc
  quote_parse-ne (err x) debug h = cc
  quote_parse-ne (err x) unbound h = cc
  quote_parse-ne panic late h = cc

  -- What holds when a late error is given, and the step that gives it.
  pub record Reached (verify_quote : QuoteVerifier) (ts : Option (TimestampVerifier × Bytes))
      (e : Error) : Type 0 where
    pub d : Decoded
    pub q : QuoteData
    pub decodes : Decodes hex base64 bundle d
    pub timestamped : Timestamped sha serde bundle ts
    pub quoted : verify_quote d.quote ≡ ok q
    pub given :
        (check_pcrs hex bundle.expected_pcrs q >>= λ _. check_payload hex sha fips bundle d q)
        ≡ err e

  pub verify-late :
      (verify_quote : QuoteVerifier) (ts : Option (TimestampVerifier × Bytes)) {e : Error}
      → IsLate e
      → verify hex base64 serde sha fips bundle verify_quote ts ≡ err e
      → Reached verify_quote ts e
  unfolding verify
  verify-late verify_quote ts late h =
      let (d, e₁, k₁) =
        >>=-err_past (decode_fields hex base64 bundle) _ (decode_fields-ne late) h in
      let (_, e₂, k₂) =
        >>=-err_past (check_timestamp sha serde bundle ts) _ (check_timestamp-ne ts late) k₁ in
      let (q, e₃, k₃) =
        >>=-err_past (map_err quote_parse (verify_quote d.quote)) _
          (quote_parse-ne (verify_quote d.quote) late) k₂ in
      record {
        d = d;
        q = q;
        decodes = decode_fields-eq-ok hex base64 bundle d e₁;
        timestamped = check_timestamp-eq-ok sha serde bundle ts e₂;
        quoted = map_err-eq-ok quote_parse (verify_quote d.quote) e₃;
        given = k₃;
      }

  pub verify-Reached :
      (verify_quote : QuoteVerifier) (ts : Option (TimestampVerifier × Bytes)) {e : Error}
      → Reached verify_quote ts e
      → verify hex base64 serde sha fips bundle verify_quote ts ≡ err e
  unfolding verify
  verify-Reached verify_quote ts r =
      rw
        (
          decode_fields_lem hex base64 bundle r.d r.decodes,
          check_timestamp_lem sha serde bundle ts r.timestamped,
          r.quoted,
        )
        r.given

  pub check_payload-ne-debug :
      (d : Decoded) (q : QuoteData) → check_payload hex sha fips bundle d q ≢ err debug_mode
  unfolding check_payload canonical_payload_with_subkeys
  check_payload-ne-debug d q h = ground arith
