-- ===== src/Bundle/Stages.antt =====
-- crates/pq-bundle/src/lib.rs: the stages of `verify`, each with the facts that it establishes.
use pq_enclave_binding.Base.{
  ℕ, ◌≡◌, ◌↔◌, refl, sym, ◌∙◌, ap, arith, true, false, ◌&&◌, [], ◌∷◌, Option, none, some, Bytes,
  String, as_bytes, ok, >>=-eq-ok, map_err, map_err-eq-ok, fail_if, fail_if-eq-ok,
  fail_unless-eq-ok, bytes_eq→eq, bytes_eq_refl, ne_true, All,
}
use pq_enclave_binding.External.{Sha256, TextCodec, Json}
use pq_enclave_binding.Bundle.{
  debug_mode, pcr_mismatch, hex_decode, json, quote_parse, QuoteData, TimestampVerifier,
  ExpectedPcrs, PqRootBundle, Decoded, to_json, all_zero, decode_fields, check_timestamp, check_pcr,
  check_pcrs,
}

abbrev pub AllZero : Bytes → Type 0
AllZero = All (λ b. b ≡ 0)

pub all_zero_iff : (b : Bytes) → (all_zero b ≡ true) ↔ AllZero b
unfolding all_zero
all_zero_iff [] = (λ _. tt, λ _. refl)
all_zero_iff (b ∷ bs) = ground (arith, all_zero_iff bs)

-- What a timestamp verifier was asked, and that it agreed.
abbrev pub Timestamped :
    Sha256 → Json PqRootBundle → PqRootBundle → Option (TimestampVerifier × Bytes) → Type 0
Timestamped sha serde bundle none = Unit
Timestamped sha serde bundle (some (verify_timestamp, ots_bytes)) =
    (text : String) × (serde.to_string_pretty bundle ≡ ok text)
    × (verify_timestamp (sha.digest (as_bytes text)) ots_bytes ≡ ok tt)

module _ (hex base64 : TextCodec) where
  pub record Decodes (bundle : PqRootBundle) (d : Decoded) : Type 0 where
    pub ml_pk_hex : hex.decode bundle.ml_dsa_pk ≡ ok d.ml_pk
    pub slh_pk_hex : hex.decode bundle.slh_dsa_pk ≡ ok d.slh_pk
    pub ml_sig_hex : hex.decode bundle.ml_dsa_sig ≡ ok d.ml_sig
    pub slh_sig_hex : hex.decode bundle.slh_dsa_sig ≡ ok d.slh_sig
    pub quote_base64 : base64.decode bundle.nsm_quote ≡ ok d.quote

  pub decode_fields-eq-ok :
      (bundle : PqRootBundle) (d : Decoded)
      → decode_fields hex base64 bundle ≡ ok d
      → Decodes bundle d
  unfolding decode_fields
  decode_fields-eq-ok bundle d h = ground arith

  pub decode_fields_lem :
      (bundle : PqRootBundle) (d : Decoded)
      → Decodes bundle d
      → decode_fields hex base64 bundle ≡ ok d
  unfolding decode_fields
  decode_fields_lem bundle d h = ground arith

module _ (hex : TextCodec) where
  -- The PCRs are not all zero, and each is the one that the bundle expects.
  pub record Pinned (expected : ExpectedPcrs) (q : QuoteData) : Type 0 where
    pub not_debug : AllZero q.pcr0 × AllZero q.pcr1 × AllZero q.pcr2 → ⊥
    pub pcr0_hex : hex.decode expected.pcr0 ≡ ok q.pcr0
    pub pcr1_hex : hex.decode expected.pcr1 ≡ ok q.pcr1
    pub pcr2_hex : hex.decode expected.pcr2 ≡ ok q.pcr2

  pub check_pcr-eq-ok :
      (i : ℕ) (text : String) (actual : Bytes)
      → check_pcr hex i text actual ≡ ok tt
      → hex.decode text ≡ ok actual
  unfolding check_pcr
  check_pcr-eq-ok i text actual h =
      let (expected, e, k) =
        >>=-eq-ok (map_err (hex_decode "expected_pcrs") (hex.decode text)) _ h in
      map_err-eq-ok _ (hex.decode text) e
      ∙ ap ok (
          sym (
            bytes_eq→eq actual expected
              (fail_unless-eq-ok _ (pcr_mismatch i text (hex.encode actual)) k)))

  pub check_pcr_lem :
      (i : ℕ) (text : String) (actual : Bytes)
      → hex.decode text ≡ ok actual
      → check_pcr hex i text actual ≡ ok tt
  unfolding check_pcr
  check_pcr_lem i text actual h = rw (h, bytes_eq_refl)

  pub check_pcrs-eq-ok :
      (expected : ExpectedPcrs) (q : QuoteData)
      → check_pcrs hex expected q ≡ ok tt
      → Pinned expected q
  unfolding check_pcrs
  check_pcrs-eq-ok expected q h =
      let debug = all_zero q.pcr0 && (all_zero q.pcr1 && all_zero q.pcr2) in
      let (_, h₀, k₀) = >>=-eq-ok (fail_if debug debug_mode) _ h in
      let (_, h₁, k₁) = >>=-eq-ok (check_pcr hex 0 expected.pcr0 q.pcr0) _ k₀ in
      let (_, h₂, k₂) = >>=-eq-ok (check_pcr hex 1 expected.pcr1 q.pcr1) _ k₁ in
      record {
        not_debug = not_debug_of (fail_if-eq-ok debug debug_mode h₀);
        pcr0_hex = check_pcr-eq-ok 0 expected.pcr0 q.pcr0 h₁;
        pcr1_hex = check_pcr-eq-ok 1 expected.pcr1 q.pcr1 h₂;
        pcr2_hex = check_pcr-eq-ok 2 expected.pcr2 q.pcr2 k₂;
      }
    where
      not_debug_of :
          (all_zero q.pcr0 && (all_zero q.pcr1 && all_zero q.pcr2)) ≡ false
          → AllZero q.pcr0 × AllZero q.pcr1 × AllZero q.pcr2
          → ⊥
      not_debug_of e (a, b, c) =
          cc (e, (all_zero_iff q.pcr0).1 a, (all_zero_iff q.pcr1).1 b, (all_zero_iff q.pcr2).1 c)

  pub check_pcrs_lem :
      (expected : ExpectedPcrs) (q : QuoteData)
      → Pinned expected q
      → check_pcrs hex expected q ≡ ok tt
  unfolding check_pcrs
  check_pcrs_lem expected q p =
      rw
        (
          debug,
          check_pcr_lem 0 expected.pcr0 q.pcr0 p.pcr0_hex,
          check_pcr_lem 1 expected.pcr1 q.pcr1 p.pcr1_hex,
        )
        (check_pcr_lem 2 expected.pcr2 q.pcr2 p.pcr2_hex)
    where
      debug : (all_zero q.pcr0 && (all_zero q.pcr1 && all_zero q.pcr2)) ≡ false
      debug = ne_true _ (λ e. p.not_debug (
        (all_zero_iff q.pcr0).0 (ground arith),
        (all_zero_iff q.pcr1).0 (ground arith),
        (all_zero_iff q.pcr2).0 (ground arith),
      ))

module _ (sha : Sha256) (serde : Json PqRootBundle) (bundle : PqRootBundle) where
  pub check_timestamp-eq-ok :
      (ts : Option (TimestampVerifier × Bytes))
      → check_timestamp sha serde bundle ts ≡ ok tt
      → Timestamped sha serde bundle ts
  unfolding check_timestamp
  check_timestamp-eq-ok none h = tt
  check_timestamp-eq-ok (some (v, ots)) h =
      let (text, e, k) = >>=-eq-ok (to_json serde bundle) _ h in
      (
        text,
        map_err-eq-ok json (serde.to_string_pretty bundle) e,
        map_err-eq-ok quote_parse (v (sha.digest (as_bytes text)) ots) k,
      )

  pub check_timestamp_lem :
      (ts : Option (TimestampVerifier × Bytes))
      → Timestamped sha serde bundle ts
      → check_timestamp sha serde bundle ts ≡ ok tt
  unfolding check_timestamp
  check_timestamp_lem none h = refl
  check_timestamp_lem (some (v, ots)) (text, e, k) = rw (e, k)
