-- ===== src/Bundle/Accepted.antt =====
-- crates/pq-bundle/src/lib.rs: what `verify` accepts, as a record of facts.
use pq_enclave_binding.Base.{
  ◌≡◌, ◌↔◌, sym, not, Option, Bytes, ok, >>=-eq-ok, map_err, map_err-eq-ok, fail_if,
  fail_unless-eq-ok, length, bytes_eq, bytes_eq→eq, bytes_eq_refl,
}
use pq_enclave_binding.External.{Sha256, TextCodec, Json, Fips}
use pq_enclave_binding.Core.{
  canonical_payload_with_subkeys, user_data_commitment, verify_dual, DualSignature,
}
use pq_enclave_binding.Core.Signing.{Verifies, verify_dual_iff}
use pq_enclave_binding.Bundle.{
  Error, binding_mismatch, hex_decode, signature, quote_parse, QuoteData, VerifyReport,
  QuoteVerifier, TimestampVerifier, PqRootBundle, Decoded, decode_fields, check_timestamp,
  check_pcrs, check_payload, verify,
}
use pq_enclave_binding.Bundle.Stages.{
  Timestamped, Decodes, Pinned, decode_fields-eq-ok, decode_fields_lem, check_pcrs-eq-ok,
  check_pcrs_lem, check_timestamp-eq-ok, check_timestamp_lem,
}

-- What steps 4 and 5 establish of the decoded fields and the quote.
pub record Bound (hex : TextCodec) (sha : Sha256) (fips : Fips) (bundle : PqRootBundle)
    (d : Decoded) (q : QuoteData) (report : VerifyReport) : Type 0 where
  pub root : Bytes
  pub payload : Bytes
  pub root_hex : hex.decode bundle.subkey_merkle_root ≡ ok root
  pub payload_made :
      canonical_payload_with_subkeys {E = Error} d.ml_pk d.slh_pk root bundle.subkey_count
      ≡ ok payload
  pub binding : q.user_data ≡ user_data_commitment sha payload
  pub ml_verifies : Verifies fips.ml_dsa d.ml_pk payload d.ml_sig
  pub slh_verifies : Verifies fips.slh_dsa d.slh_pk payload d.slh_sig
  pub reported : report ≡ record {
    pcr0 = q.pcr0;
    pcr1 = q.pcr1;
    pcr2 = q.pcr2;
    user_data = q.user_data;
    ml_dsa_pk_len = length d.ml_pk;
    slh_dsa_pk_len = length d.slh_pk;
    subkey_merkle_root = root;
    subkey_count = bundle.subkey_count;
  }

module _ (hex : TextCodec) (sha : Sha256) (fips : Fips) (bundle : PqRootBundle) (d : Decoded)
    (q : QuoteData) (report : VerifyReport) where
  check_payload-eq-ok :
      check_payload hex sha fips bundle d q ≡ ok report → Bound hex sha fips bundle d q report
  unfolding check_payload
  check_payload-eq-ok h =
      let (root, e₁, k₁) =
        >>=-eq-ok (map_err (hex_decode "subkey_merkle_root") (hex.decode bundle.subkey_merkle_root))
          _ h in
      let (payload, e₂, k₂) =
        >>=-eq-ok (canonical_payload_with_subkeys d.ml_pk d.slh_pk root bundle.subkey_count) _ k₁ in
      let same = bytes_eq q.user_data (user_data_commitment sha payload) in
      let (_, e₃, k₃) = >>=-eq-ok (fail_if (not same) binding_mismatch) _ k₂ in
      let dual : DualSignature = record { ml_dsa = d.ml_sig; slh_dsa = d.slh_sig } in
      let (_, e₄, k₄) =
        >>=-eq-ok (map_err signature (verify_dual fips d.ml_pk d.slh_pk payload dual)) _ k₃ in
      let (ml, slh) =
        (verify_dual_iff fips d.ml_pk d.slh_pk payload dual).0 (map_err-eq-ok signature _ e₄) in
      record {
        root = root;
        payload = payload;
        root_hex = map_err-eq-ok _ (hex.decode bundle.subkey_merkle_root) e₁;
        payload_made = e₂;
        binding = bytes_eq→eq q.user_data _ (fail_unless-eq-ok same binding_mismatch e₃);
        ml_verifies = ml;
        slh_verifies = slh;
        reported = sym (cc k₄);
      }

  check_payload_lem :
      Bound hex sha fips bundle d q report → check_payload hex sha fips bundle d q ≡ ok report
  unfolding check_payload
  check_payload_lem b =
      rw (b.root_hex, b.payload_made, b.binding, bytes_eq_refl, dual) (cc b.reported)
    where
      dual :
          verify_dual fips d.ml_pk d.slh_pk b.payload
            (record { ml_dsa = d.ml_sig; slh_dsa = d.slh_sig })
          ≡ ok tt
      dual = (verify_dual_iff fips d.ml_pk d.slh_pk b.payload _).1 (b.ml_verifies, b.slh_verifies)

-- Everything that an accepting run of `verify` has established.
pub record Accepted (hex base64 : TextCodec) (serde : Json PqRootBundle) (sha : Sha256)
    (fips : Fips) (bundle : PqRootBundle) (verify_quote : QuoteVerifier)
    (ts_verifier : Option (TimestampVerifier × Bytes)) (report : VerifyReport) : Type 0 where
  pub d : Decoded
  pub q : QuoteData
  pub decodes : Decodes hex base64 bundle d
  pub timestamped : Timestamped sha serde bundle ts_verifier
  pub quoted : verify_quote d.quote ≡ ok q
  pub pinned : Pinned hex bundle.expected_pcrs q
  pub bound : Bound hex sha fips bundle d q report

module _ (hex base64 : TextCodec) (serde : Json PqRootBundle) (sha : Sha256) (fips : Fips)
    (bundle : PqRootBundle) where
  -- `verify` succeeds exactly if all its checks hold: the five fields decode, the timestamp
  -- verifier (if one is given) agrees on the digest of the bundle's JSON, the quote verifier
  -- returns a quote, its PCRs are not all zero and are the expected ones, its user data is the
  -- commitment to the payload of the decoded keys, Merkle root and count, and both signatures over
  -- that payload verify. The report then has the values that were checked.
  pub bundle_verify_iff :
      (verify_quote : QuoteVerifier) (ts : Option (TimestampVerifier × Bytes))
      (report : VerifyReport)
      → (verify hex base64 serde sha fips bundle verify_quote ts ≡ ok report)
        ↔ Accepted hex base64 serde sha fips bundle verify_quote ts report
  unfolding verify
  bundle_verify_iff verify_quote ts report = (
    λ h.
        let (d, e₁, k₁) = >>=-eq-ok (decode_fields hex base64 bundle) _ h in
        let (_, e₂, k₂) = >>=-eq-ok (check_timestamp sha serde bundle ts) _ k₁ in
        let (q, e₃, k₃) = >>=-eq-ok (map_err quote_parse (verify_quote d.quote)) _ k₂ in
        let (_, e₄, k₄) = >>=-eq-ok (check_pcrs hex bundle.expected_pcrs q) _ k₃ in
        record {
          d = d;
          q = q;
          decodes = decode_fields-eq-ok hex base64 bundle d e₁;
          timestamped = check_timestamp-eq-ok sha serde bundle ts e₂;
          quoted = map_err-eq-ok quote_parse (verify_quote d.quote) e₃;
          pinned = check_pcrs-eq-ok hex bundle.expected_pcrs q e₄;
          bound = check_payload-eq-ok hex sha fips bundle d q report k₄;
        },
    λ a.
        rw
          (
            decode_fields_lem hex base64 bundle a.d a.decodes,
            check_timestamp_lem sha serde bundle ts a.timestamped,
            a.quoted,
            check_pcrs_lem hex bundle.expected_pcrs a.q a.pinned,
          )
          (check_payload_lem hex sha fips bundle a.d a.q report a.bound),
  )
