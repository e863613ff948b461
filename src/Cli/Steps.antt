-- ===== src/Cli/Steps.antt =====
-- crates/pq-cli/src/main.rs: the seven steps of `verify_bundle_steps`. What is printed is left out,
-- and with it the count of steps. `now` is the system's clock in seconds.
pub mod Earliest
pub mod Unordered
pub mod Passed
pub mod Verdict
pub mod Diagnosis
use pq_enclave_binding.Base.{
  ℕ, ◌-◌, Bool, true, false, not, List, [], ◌∷◌, ◌++◌, Option, none, some, Bytes, String, str_eq,
  Outcome, ok, err, panic, ◌>>=◌, ◌>>◌, map_err, expect, fail_if, length, ltb, if◌then◌else◌,
  bytes_eq, be32, u32_mod,
}
use pq_enclave_binding.External.{Sha256, TextCodec, Json, Fips}
use pq_enclave_binding.Core.{canonical_payload, user_data_commitment}
use pq_enclave_binding.Bundle
use pq_enclave_binding.Bundle.{PqRootBundle, VerifyReport, QuoteVerifier, binding_mismatch}
use pq_enclave_binding.Ots
use pq_enclave_binding.Ots.{
  OtsCodec, OtsError, codec, digest_mismatch, merkle_root_mismatch, not_anchored, header_source,
  calendar, BitcoinHeaderSource, BitcoinAnchor,
}
use pq_enclave_binding.Quote.{FromCose, at_unix_secs, root_sha256_hex, verify_quote}
use pq_enclave_binding.Cli.{
  Error, header_source_missing, block_time, override_disagrees, no_block_time, timestamp,
  root_ca_mismatch, older_ceremony, unknown_commitment, bundle_context,
}

abbrev pub override_tolerance_secs : ℕ
override_tolerance_secs = 7200

-- `anchors.iter().min_by_key(|a| a.height)`: the first of the least.
lower : BitcoinAnchor → List BitcoinAnchor → BitcoinAnchor
lower a [] = a
lower a (b ∷ rest) = lower (if ltb b.height a.height then b else a) rest

unfoldable pub earliest : List BitcoinAnchor → Option BitcoinAnchor
unfolding lower
earliest [] = none
earliest (a ∷ rest) = some (lower a rest)

abbrev pub abs_diff : ℕ → ℕ → ℕ
abs_diff a b = if ltb a b then b - a else a - b

unfoldable pub choose_time : ℕ → Option ℕ → Option ℕ → Outcome Error ℕ
choose_time height (some bt) (some ov) = do
  fail_if (ltb override_tolerance_secs (abs_diff bt ov))
      (override_disagrees height bt ov (abs_diff bt ov))
  ok bt
choose_time height (some bt) none = ok bt
choose_time height none (some ov) = ok ov
choose_time height none none = err (no_block_time height)

-- Whether the proof is pending, the verification instant, and the height of the anchor.
abbrev pub Timed : Type 0
Timed = Bool × ℕ × Option ℕ

module _ (source : BitcoinHeaderSource) (source_given : Bool) (quote_time_unix : Option ℕ)
    (now : ℕ) where
  unfoldable pub anchored_time : List BitcoinAnchor → Outcome Error Timed
  unfolding earliest choose_time
  anchored_time anchors = do
    fail_if (not source_given) header_source_missing
    e ← expect (earliest anchors)
    bt ← map_err block_time (source.block_time e.height)
    t ← choose_time e.height bt quote_time_unix
    ok (false, t, some e.height)

  -- The `match` on the result of `pq_ots::verify`.
  unfoldable pub anchor_step : Outcome OtsError (List BitcoinAnchor) → Outcome Error Timed
  unfolding anchored_time
  anchor_step (ok anchors) = anchored_time anchors
  anchor_step (err not_anchored) = ok (true, now, none)
  anchor_step (err (header_source e)) =
      if source_given then err (timestamp (header_source e)) else err header_source_missing
  anchor_step (err (codec e)) = err (timestamp (codec e))
  anchor_step (err (digest_mismatch a b)) = err (timestamp (digest_mismatch a b))
  anchor_step (err (merkle_root_mismatch h a b)) = err (timestamp (merkle_root_mismatch h a b))
  anchor_step (err (calendar e)) = err (timestamp (calendar e))
  anchor_step panic = panic

-- `.unwrap_or(false)`
abbrev pub or_false : Outcome String Bool → Outcome Error Bool
or_false (ok b) = ok b
or_false (err e) = ok false
or_false panic = panic

module _ (hex base64 : TextCodec) (sha : Sha256) where
  -- The payload of ceremonies before the subkey count was bound.
  unfoldable pub legacy_payload {ℓ} : {E : Type ℓ} → Bytes → Bytes → Bytes → Outcome E Bytes
  unfolding be32
  legacy_payload ml_pk slh_pk subkey_root = do
    payload ← canonical_payload ml_pk slh_pk
    let len = (if ltb (length subkey_root) u32_mod then length subkey_root else 0)
    ok (payload ++ (be32 len ++ subkey_root))

  unfoldable pub legacy_probe : PqRootBundle → QuoteVerifier → Outcome String Bool
  unfolding legacy_payload bytes_eq
  legacy_probe bundle verify_quote = do
    quote_bytes ← base64.decode bundle.nsm_quote
    qd ← verify_quote quote_bytes
    ml_pk ← hex.decode bundle.ml_dsa_pk
    slh_pk ← hex.decode bundle.slh_dsa_pk
    subkey_root ← hex.decode bundle.subkey_merkle_root
    legacy ← legacy_payload ml_pk slh_pk subkey_root
    ok (bytes_eq qd.user_data (user_data_commitment sha legacy))

  unfoldable pub diagnose_binding_mismatch :
      PqRootBundle → QuoteVerifier → Outcome Error VerifyReport
  unfolding legacy_probe
  diagnose_binding_mismatch bundle verify_quote = do
    probe ← or_false (legacy_probe bundle verify_quote)
    if probe then err older_ceremony else err unknown_commitment

  -- The `match` on the result of `pq_bundle::verify`.
  unfoldable pub report_step :
      PqRootBundle → QuoteVerifier → Outcome Bundle.Error VerifyReport → Outcome Error VerifyReport
  unfolding diagnose_binding_mismatch
  report_step bundle verify_quote (ok report) = ok report
  report_step bundle verify_quote (err binding_mismatch) =
      diagnose_binding_mismatch bundle verify_quote
  report_step bundle verify_quote (err e) = err (bundle_context "bundle verification failed" e)
  report_step bundle verify_quote panic = panic

  unfoldable pub verify_bundle_steps :
      {Op : Type 0}
      → Json PqRootBundle
      → Fips
      → FromCose
      → OtsCodec Op
      → ℕ
      → PqRootBundle
      → Bytes
      → Bytes
      → Bytes
      → BitcoinHeaderSource
      → Bool
      → Option ℕ
      → Outcome Error (Bool × ℕ × Option ℕ × VerifyReport)
  unfolding anchor_step report_step
  verify_bundle_steps serde fips from_cose crate now bundle ots_bytes digest root_der source
        source_given quote_time_unix =
      do
        (pending, quote_time, anchor_height) ←
            anchor_step source source_given quote_time_unix now
              (Ots.verify crate hex ots_bytes digest source)
        let quote_verifier = at_unix_secs root_der quote_time
        fail_if (not (str_eq (root_sha256_hex hex sha quote_verifier) bundle.aws_root_ca_sha256))
            (root_ca_mismatch (root_sha256_hex hex sha quote_verifier) bundle.aws_root_ca_sha256)
        report ← report_step bundle (verify_quote from_cose quote_verifier) (
            Bundle.verify hex base64 serde sha fips bundle (verify_quote from_cose quote_verifier)
              none)
        ok (pending, quote_time, anchor_height, report)
