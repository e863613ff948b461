-- ===== src/Bundle/Rejected.antt =====
-- crates/pq-bundle/src/lib.rs: when `verify` answers `DebugMode` and `BindingMismatch`.
use pq_enclave_binding.Base.{
  ℕ, ◌≡◌, ◌≢◌, ◌↔◌, refl, arith, Bool, true, false, not, Option, Bytes, Outcome, ok, err, panic,
  ◌>>◌, bytes_eq_iff, >>=-err_past, >>=-err_first, map_err, map_err-eq-ok, fail_if, bytes_eq→eq,
  ne_true,
}
use pq_enclave_binding.External.{Sha256, TextCodec, Json, Fips}
use pq_enclave_binding.Core
use pq_enclave_binding.Core.{canonical_payload_with_subkeys, user_data_commitment, verify_dual}
use pq_enclave_binding.Bundle.{
  Error, debug_mode, binding_mismatch, hex_decode, signature, QuoteData, QuoteVerifier,
  TimestampVerifier, ExpectedPcrs, PqRootBundle, Decoded, check_pcr, check_pcrs, check_payload,
  verify,
}
use pq_enclave_binding.Bundle.Stages.{
  AllZero, all_zero_iff, Timestamped, Decodes, Pinned, check_pcrs-eq-ok, check_pcrs_lem,
}
use pq_enclave_binding.Bundle.Late.{
  verify-late, verify-Reached, check_payload-ne-debug, debug, unbound,
}

check_pcrs-ne-unbound :
    (hex : TextCodec) (expected : ExpectedPcrs) (q : QuoteData)
    → check_pcrs hex expected q ≢ err binding_mismatch
unfolding check_pcrs check_pcr
check_pcrs-ne-unbound hex expected q h = ground arith

check_pcrs-debug :
    (hex : TextCodec) (expected : ExpectedPcrs) (q : QuoteData)
    → check_pcrs hex expected q ≡ err debug_mode
    → AllZero q.pcr0 × AllZero q.pcr1 × AllZero q.pcr2
unfolding check_pcrs check_pcr
check_pcrs-debug hex expected q h =
    ground (arith, all_zero_iff q.pcr0, all_zero_iff q.pcr1, all_zero_iff q.pcr2)

check_pcrs_debug :
    (hex : TextCodec) (expected : ExpectedPcrs) (q : QuoteData)
    → AllZero q.pcr0
    → AllZero q.pcr1
    → AllZero q.pcr2
    → check_pcrs hex expected q ≡ err debug_mode
unfolding check_pcrs
check_pcrs_debug hex expected q a b c =
    rw ((all_zero_iff q.pcr0).1 a, (all_zero_iff q.pcr1).1 b, (all_zero_iff q.pcr2).1 c)

-- All checks before the binding hold, and the user data is not the commitment.
pub record Differs (hex : TextCodec) (sha : Sha256) (bundle : PqRootBundle) (d : Decoded)
    (q : QuoteData) : Type 0 where
  pub root : Bytes
  pub payload : Bytes
  pub pinned : Pinned hex bundle.expected_pcrs q
  pub root_hex : hex.decode bundle.subkey_merkle_root ≡ ok root
  pub payload_made :
      canonical_payload_with_subkeys {E = Error} d.ml_pk d.slh_pk root bundle.subkey_count
      ≡ ok payload
  pub differs : q.user_data ≢ user_data_commitment sha payload

binding_step {ℓ} :
    {B : Type ℓ} (same : Bool) (m : Outcome Core.Error (Unit {0})) (r : B)
    → (do fail_if (not same) binding_mismatch; map_err signature m; ok r) ≡ err binding_mismatch
    → same ≡ false
binding_step true (ok a) r h = cc
binding_step true (err e) r h = cc
binding_step true panic r h = cc
binding_step false m r h = refl

module _ (hex : TextCodec) (sha : Sha256) (fips : Fips) (bundle : PqRootBundle) (d : Decoded)
    (q : QuoteData) where
  with_subkeys-ne-err {ℓ} :
      (E : Type ℓ) (ml slh root : Bytes) (count : ℕ) {e : E}
      → canonical_payload_with_subkeys {E = E} ml slh root count ≢ err e
  unfolding canonical_payload_with_subkeys
  with_subkeys-ne-err E ml slh root count h = ground arith

  check_payload-unbound :
      Pinned hex bundle.expected_pcrs q
      → check_payload hex sha fips bundle d q ≡ err binding_mismatch
      → Differs hex sha bundle d q
  unfolding check_payload
  check_payload-unbound pinned h =
      let (root, e₁, k₁) =
        >>=-err_past
          (map_err (hex_decode "subkey_merkle_root") (hex.decode bundle.subkey_merkle_root)) _
          (λ x. ground arith) h in
      let (payload, e₂, k₂) =
        >>=-err_past (canonical_payload_with_subkeys d.ml_pk d.slh_pk root bundle.subkey_count) _
          (with_subkeys-ne-err Error d.ml_pk d.slh_pk root bundle.subkey_count) k₁ in
      record {
        root = root;
        payload = payload;
        pinned = pinned;
        root_hex = map_err-eq-ok _ (hex.decode bundle.subkey_merkle_root) e₁;
        payload_made = e₂;
        differs = λ same. cc (
          (bytes_eq_iff q.user_data (user_data_commitment sha payload)).1 same,
          binding_step _ _ _ k₂,
        );
      }

  check_payload-Differs :
      (x : Differs hex sha bundle d q)
      → check_payload hex sha fips bundle d q ≡ err binding_mismatch
  unfolding check_payload
  check_payload-Differs x =
      rw (x.root_hex, x.payload_made, ne_true _ (λ e. x.differs (bytes_eq→eq _ _ e)))

module _ (hex base64 : TextCodec) (serde : Json PqRootBundle) (sha : Sha256) (fips : Fips)
    (bundle : PqRootBundle) (verify_quote : QuoteVerifier)
    (ts : Option (TimestampVerifier × Bytes)) where
  -- The steps before the PCR checks pass on `d` and `q`: the fields decode, the timestamp check (if
  -- any) passes, and the quote verifier returns `q`.
  abbrev pub Quoted : Decoded → QuoteData → Type 0
  Quoted d q =
      Decodes hex base64 bundle d × Timestamped sha serde bundle ts × (verify_quote d.quote ≡ ok q)

  -- `verify` answers `DebugMode` exactly if the steps before the PCR checks pass and PCR0, PCR1 and
  -- PCR2 of the quote are all zero.
  pub verify-debug_mode_iff :
      (verify hex base64 serde sha fips bundle verify_quote ts ≡ err debug_mode) ↔ (
        (d : Decoded) × (q : QuoteData) × Quoted d q
        × AllZero q.pcr0
        × AllZero q.pcr1
        × AllZero q.pcr2)
  verify-debug_mode_iff = (found, made)
    where
      found :
          verify hex base64 serde sha fips bundle verify_quote ts ≡ err debug_mode
          → (d : Decoded) × (q : QuoteData) × Quoted d q
            × AllZero q.pcr0
            × AllZero q.pcr1
            × AllZero q.pcr2
      found h =
          let r = verify-late hex base64 serde sha fips bundle verify_quote ts debug h in
          let early =
            >>=-err_first (check_pcrs hex bundle.expected_pcrs r.q) _
              (λ _. check_payload-ne-debug hex base64 serde sha fips bundle r.d r.q) r.given in
          let (a, b, c) = check_pcrs-debug hex bundle.expected_pcrs r.q early in
          (r.d, r.q, (r.decodes, r.timestamped, r.quoted), a, b, c)

      made :
          (d : Decoded) × (q : QuoteData) × Quoted d q
            × AllZero q.pcr0
            × AllZero q.pcr1
            × AllZero q.pcr2
          → verify hex base64 serde sha fips bundle verify_quote ts ≡ err debug_mode
      made (d, q, ready, a, b, c) =
          verify-Reached hex base64 serde sha fips bundle verify_quote ts (record {
            d = d;
            q = q;
            decodes = ready.0;
            timestamped = ready.1;
            quoted = ready.2;
            given = rw (check_pcrs_debug hex bundle.expected_pcrs q a b c);
          })

  -- `verify` answers `BindingMismatch` exactly if the steps before the PCR checks pass, the PCRs are
  -- not all zero and are the expected ones, the Merkle root decodes and the payload is built, and
  -- the quote's user data is not the commitment to that payload.
  pub verify-binding_mismatch_iff :
      (verify hex base64 serde sha fips bundle verify_quote ts ≡ err binding_mismatch)
      ↔ ((d : Decoded) × (q : QuoteData) × Quoted d q × Differs hex sha bundle d q)
  verify-binding_mismatch_iff = (found, made)
    where
      found :
          verify hex base64 serde sha fips bundle verify_quote ts ≡ err binding_mismatch
          → (d : Decoded) × (q : QuoteData) × Quoted d q × Differs hex sha bundle d q
      found h =
          let r = verify-late hex base64 serde sha fips bundle verify_quote ts unbound h in
          let (_, e, k) =
            >>=-err_past (check_pcrs hex bundle.expected_pcrs r.q) _
              (check_pcrs-ne-unbound hex bundle.expected_pcrs r.q) r.given in
          (
            r.d,
            r.q,
            (r.decodes, r.timestamped, r.quoted),
            check_payload-unbound hex sha fips bundle r.d r.q
                (check_pcrs-eq-ok hex bundle.expected_pcrs r.q e) k,
          )

      made :
          (d : Decoded) × (q : QuoteData) × Quoted d q × Differs hex sha bundle d q
          → verify hex base64 serde sha fips bundle verify_quote ts ≡ err binding_mismatch
      made (d, q, ready, x) =
          verify-Reached hex base64 serde sha fips bundle verify_quote ts (record {
            d = d;
            q = q;
            decodes = ready.0;
            timestamped = ready.1;
            quoted = ready.2;
            given =
                rw (check_pcrs_lem hex bundle.expected_pcrs q x.pinned)
                  (check_payload-Differs hex sha fips bundle d q x);
          })
