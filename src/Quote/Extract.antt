-- ===== src/Quote/Extract.antt =====
-- crates/pq-quote/src/lib.rs: which documents yield quote data, and which data.
use pq_enclave_binding.Base.{
  ℕ, suc, ◌*◌, ◌≤◌, ◌<◌, ◌≡◌, ◌↔◌, arith, [], some, Bytes, ok, min, ◌-◌, ◌<>◌, map_err,
  map_err-eq-ok, >>=-eq-ok, get, unwrap_or, u64_mod, Bool-cases, ltb, ltb→lt, ltb→le, inl, inr,
}
use pq_enclave_binding.Bundle.{QuoteData}
use pq_enclave_binding.Quote.{
  AttestationDoc, FromCose, extract_quote_data, at_unix_secs, verify_quote,
}

-- What a quote shows of a document: its PCRs 0, 1 and 2, and its user data or none.
pub record Shows (doc : AttestationDoc) (q : QuoteData) : Type 0 where
  pub has_pcr0 : get doc.pcrs 0 ≡ some q.pcr0
  pub has_pcr1 : get doc.pcrs 1 ≡ some q.pcr1
  pub has_pcr2 : get doc.pcrs 2 ≡ some q.pcr2
  pub has_user_data : q.user_data ≡ unwrap_or doc.user_data []

extract_iff : (doc : AttestationDoc) (q : QuoteData) → (extract_quote_data doc ≡ ok q) ↔ Shows doc q
unfolding extract_quote_data
extract_iff doc q = (λ h. ground arith, λ s. ground arith)

instant :
    (secs at : ℕ)
    → (secs * 1000 < u64_mod → at ≡ secs * 1000)
    → (u64_mod ≤ secs * 1000 → suc at ≡ u64_mod)
    → min (secs * 1000) (u64_mod - 1) ≡ at
instant secs at fits saturates = elim (Bool-cases (ltb (secs * 1000) u64_mod)) [
  | inl h ↦ below (ltb→lt (secs * 1000) u64_mod h) (fits (ltb→lt (secs * 1000) u64_mod h))
  | inr h ↦ above (ltb→le (secs * 1000) u64_mod h) (saturates (ltb→le (secs * 1000) u64_mod h))
]
  where
    below : secs * 1000 < u64_mod → at ≡ secs * 1000 → min (secs * 1000) (u64_mod - 1) ≡ at
    below l e = omega (arith, l, e)

    above : u64_mod ≤ secs * 1000 → suc at ≡ u64_mod → min (secs * 1000) (u64_mod - 1) ≡ at
    above l e = omega (arith, l, e)

-- `verify_quote` of a verifier made for a `u64` time in seconds succeeds exactly if the attestation
-- library accepts the document under the pinned root at that time in milliseconds, or at the
-- greatest `u64` where the product does not fit, and the document has PCRs 0, 1 and 2. The quote
-- has these and the document's user data, empty if it has none.
pub verify_quote_iff :
    (from_cose : FromCose) (root quote : Bytes) (secs : ℕ) (q : QuoteData)
    → (verify_quote from_cose (at_unix_secs root secs) quote ≡ ok q) ↔ (
        (doc : AttestationDoc) × (at : ℕ) × (from_cose quote root at ≡ ok doc)
        × (secs * 1000 < u64_mod → at ≡ secs * 1000)
        × (u64_mod ≤ secs * 1000 → suc at ≡ u64_mod)
        × Shows doc q)
unfolding verify_quote at_unix_secs
verify_quote_iff from_cose root quote secs q = (accepted, made)
  where
    at : ℕ
    at = min (secs * 1000) (u64_mod - 1)

    accepted :
        verify_quote from_cose (at_unix_secs root secs) quote ≡ ok q
        → (doc : AttestationDoc) × (at : ℕ) × (from_cose quote root at ≡ ok doc)
          × (secs * 1000 < u64_mod → at ≡ secs * 1000)
          × (u64_mod ≤ secs * 1000 → suc at ≡ u64_mod)
          × Shows doc q
    accepted h =
        let (doc, e, k) =
          >>=-eq-ok
            (map_err (λ e. "nitro attestation verification failed: " <> e)
              (from_cose quote root at))
            _ h in
        (
          doc,
          at,
          map_err-eq-ok _ (from_cose quote root at) e,
          λ fits. omega arith,
          λ over. omega arith,
          (extract_iff doc q).0 k,
        )

    made :
        (doc : AttestationDoc) × (at : ℕ) × (from_cose quote root at ≡ ok doc)
          × (secs * 1000 < u64_mod → at ≡ secs * 1000)
          × (u64_mod ≤ secs * 1000 → suc at ≡ u64_mod)
          × Shows doc q
        → verify_quote from_cose (at_unix_secs root secs) quote ≡ ok q
    made (doc, t, e, fits, over, shows) =
        rw (instant secs t fits over, e) ((extract_iff doc q).1 shows)
