-- ===== src/Cli/Steps/Diagnosis.antt =====
-- crates/pq-cli/src/main.rs: when `diagnose_binding_mismatch` blames an older ceremony.
use pq_enclave_binding.Base.{
  ◌<◌, ◌≡◌, ◌↔◌, sym, ap, ◌∙◌, ◌++◌, be32, length, ltb, u32_mod, if◌then◌else◌, refl, inl, inr,
  true, false, Bytes, String, Outcome, ok, err, panic, >>=-eq-ok, ok-injective, Outcome-cases,
  bytes_eq_iff,
}
use pq_enclave_binding.External.{Sha256, TextCodec}
use pq_enclave_binding.Core.{canonical_payload, user_data_commitment}
use pq_enclave_binding.Core.Payload.{canonical_payload-eq-ok, canonical_payload_lem}
use pq_enclave_binding.Bundle
use pq_enclave_binding.Bundle.{
  PqRootBundle, VerifyReport, QuoteVerifier, QuoteData, quote_parse, debug_mode, pcr_mismatch,
  binding_mismatch, hex_decode, base64_decode, signature, json,
}
use pq_enclave_binding.Cli.{older_ceremony}
use pq_enclave_binding.Cli.Steps.{
  legacy_payload, legacy_probe, diagnose_binding_mismatch, report_step,
}

module _ (hex base64 : TextCodec) (sha : Sha256) where
  -- The payload of an older ceremony: each key and the Merkle root after its length, and no count. A
  -- root that is too long for its length has the length 0.
  abbrev pub legacy_text : Bytes → Bytes → Bytes → Bytes
  legacy_text ml slh root =
      (be32 (length ml) ++ (ml ++ (be32 (length slh) ++ slh)))
      ++ (be32 (if ltb (length root) u32_mod then length root else 0) ++ root)

  legacy_payload-eq-ok :
      (ml slh root payload : Bytes)
      → legacy_payload hex base64 sha {E = String} ml slh root ≡ ok payload
      → (length ml < u32_mod) × (length slh < u32_mod) × (payload ≡ legacy_text ml slh root)
  unfolding legacy_payload
  legacy_payload-eq-ok ml slh root payload h =
      let (v, e, k) = >>=-eq-ok (canonical_payload ml slh) _ h in
      let (a, b, same) = canonical_payload-eq-ok String ml slh e in
      let tail = be32 (if ltb (length root) u32_mod then length root else 0) ++ root in
      (a, b, sym (ok-injective String k) ∙ ap (λ (t : Bytes). t ++ tail) same)

  legacy_payload_lem :
      (ml slh root : Bytes)
      → length ml < u32_mod
      → length slh < u32_mod
      → legacy_payload hex base64 sha {E = String} ml slh root ≡ ok (legacy_text ml slh root)
  unfolding legacy_payload
  legacy_payload_lem ml slh root a b = rw (canonical_payload_lem String ml slh a b) refl

  -- The quote commits to the payload without the subkey count.
  pub record Legacy (bundle : PqRootBundle) (verify_quote : QuoteVerifier) : Type 0 where
    pub quote_bytes : Bytes
    pub quoted : QuoteData
    pub ml_pk : Bytes
    pub slh_pk : Bytes
    pub subkey_root : Bytes
    pub quote_read : base64.decode bundle.nsm_quote ≡ ok quote_bytes
    pub quote_verified : verify_quote quote_bytes ≡ ok quoted
    pub ml_read : hex.decode bundle.ml_dsa_pk ≡ ok ml_pk
    pub slh_read : hex.decode bundle.slh_dsa_pk ≡ ok slh_pk
    pub root_read : hex.decode bundle.subkey_merkle_root ≡ ok subkey_root
    pub ml_size : length ml_pk < u32_mod
    pub slh_size : length slh_pk < u32_mod
    pub committed :
        quoted.user_data ≡ user_data_commitment sha (legacy_text ml_pk slh_pk subkey_root)

  legacy_probe-Legacy :
      (bundle : PqRootBundle) (vq : QuoteVerifier)
      → legacy_probe hex base64 sha bundle vq ≡ ok true
      → Legacy bundle vq
  unfolding legacy_probe
  legacy_probe-Legacy bundle vq h =
      let (quote_bytes, e₁, h₁) = >>=-eq-ok (base64.decode bundle.nsm_quote) _ h in
      let (quoted, e₂, h₂) = >>=-eq-ok (vq quote_bytes) _ h₁ in
      let (ml_pk, e₃, h₃) = >>=-eq-ok (hex.decode bundle.ml_dsa_pk) _ h₂ in
      let (slh_pk, e₄, h₄) = >>=-eq-ok (hex.decode bundle.slh_dsa_pk) _ h₃ in
      let (subkey_root, e₅, h₅) = >>=-eq-ok (hex.decode bundle.subkey_merkle_root) _ h₄ in
      let (payload, e₆, h₆) =
        >>=-eq-ok (legacy_payload hex base64 sha {E = String} ml_pk slh_pk subkey_root) _ h₅ in
      let (a, b, text) = legacy_payload-eq-ok ml_pk slh_pk subkey_root payload e₆ in
      record {
        quote_bytes = quote_bytes;
        quoted = quoted;
        ml_pk = ml_pk;
        slh_pk = slh_pk;
        subkey_root = subkey_root;
        quote_read = e₁;
        quote_verified = e₂;
        ml_read = e₃;
        slh_read = e₄;
        root_read = e₅;
        ml_size = a;
        slh_size = b;
        committed =
            (bytes_eq_iff _ _).0 (ok-injective String h₆) ∙ ap (user_data_commitment sha) text;
      }

  Legacy-legacy_probe :
      (bundle : PqRootBundle) (vq : QuoteVerifier)
      → Legacy bundle vq
      → legacy_probe hex base64 sha bundle vq ≡ ok true
  unfolding legacy_probe
  Legacy-legacy_probe bundle vq l = rw (
    l.quote_read,
    l.quote_verified,
    l.ml_read,
    l.slh_read,
    l.root_read,
    legacy_payload_lem l.ml_pk l.slh_pk l.subkey_root l.ml_size l.slh_size,
    (bytes_eq_iff _ _).1 l.committed,
  )

  diagnose_iff :
      (bundle : PqRootBundle) (vq : QuoteVerifier)
      → (diagnose_binding_mismatch hex base64 sha bundle vq ≡ err older_ceremony) ↔ Legacy bundle vq
  unfolding diagnose_binding_mismatch
  diagnose_iff bundle vq = (blamed, λ l. rw (Legacy-legacy_probe bundle vq l))
    where
      blamed :
          diagnose_binding_mismatch hex base64 sha bundle vq ≡ err older_ceremony → Legacy bundle vq
      blamed h = elim (Outcome-cases (legacy_probe hex base64 sha bundle vq)) [
        | inl (true, e) ↦ legacy_probe-Legacy bundle vq e
        | inl (false, e) ↦ absurd (let bad = rw (e, diagnose_binding_mismatch) at h in cc)
        | inr (inl (x, e)) ↦ absurd (let bad = rw (e, diagnose_binding_mismatch) at h in cc)
        | inr (inr e) ↦ absurd (let bad = rw (e, diagnose_binding_mismatch) at h in cc)
      ]

  -- The command line blames an older ceremony exactly if the bundle's `verify` finds a binding
  -- mismatch and the verified quote commits to the payload without the subkey count: the two decoded
  -- keys and the decoded Merkle root, each after its length.
  pub report_step-older_ceremony_iff :
      (bundle : PqRootBundle) (vq : QuoteVerifier) (result : Outcome Bundle.Error VerifyReport)
      → (report_step hex base64 sha bundle vq result ≡ err older_ceremony)
        ↔ ((result ≡ err binding_mismatch) × Legacy bundle vq)
  unfolding report_step
  report_step-older_ceremony_iff bundle vq result =
      (blamed result, λ (e, l). rw e ((diagnose_iff bundle vq).1 l))
    where
      blamed :
          (result : Outcome Bundle.Error VerifyReport)
          → report_step hex base64 sha bundle vq result ≡ err older_ceremony
          → (result ≡ err binding_mismatch) × Legacy bundle vq
      blamed (ok r) h = absurd (cc h)
      blamed (err binding_mismatch) h = (refl, (diagnose_iff bundle vq).0 h)
      blamed (err (quote_parse e)) h = absurd (cc h)
      blamed (err debug_mode) h = absurd (cc h)
      blamed (err (pcr_mismatch i a b)) h = absurd (cc h)
      blamed (err (hex_decode a b)) h = absurd (cc h)
      blamed (err (base64_decode a b)) h = absurd (cc h)
      blamed (err (signature e)) h = absurd (cc h)
      blamed (err (json e)) h = absurd (cc h)
      blamed panic h = absurd (cc h)
