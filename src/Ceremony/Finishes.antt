-- ===== src/Ceremony/Finishes.antt =====
-- crates/pq-ceremony/src/lib.rs: a ceremony ends, with a state or with the error of the NSM.
use pq_enclave_binding.Base.{
  ℕ, ◌+◌, ◌^◌, ◌≤◌, ◌<◌, ◌≡◌, sym, ◌∙◌, arith, ◌⊎◌, inl, inr, none, Bytes, Outcome, ok, err, ◌>>=◌,
  map_err, Outcome-cases, NoPanic, length, u32_mod,
}
use pq_enclave_binding.External.{Sha256, TextCodec, Fips, FipsLaws}
use pq_enclave_binding.Core.{user_data_commitment}
use pq_enclave_binding.Core.Payload.{with_subkeys_lem, payload_text, length-user_data_commitment}
use pq_enclave_binding.Core.Signing.{sign_payload-Verifies}
use pq_enclave_binding.Enclave.{NsmError, Nsm, attest_bundle_payload}
use pq_enclave_binding.Derive.{Keyfork}
use pq_enclave_binding.Ceremony.{CeremonyError, nsm, CeremonyConfig, CeremonyState, run_ceremony}
use pq_enclave_binding.Ceremony.Nodes.{Numbered-IsNode, merkle_root-IsNode}
use pq_enclave_binding.Ceremony.Ran.{state_of}
use pq_enclave_binding.Ceremony.Lanes.{derive_subkeys-Aligned}
use pq_enclave_binding.Ceremony.Total.{
  KeyforkLaws, derive_keypair-total, length-IsKeypair, derive_subkeys-total,
}

-- The module refuses a request of the ceremony: user data within the NSM's 512 bytes, or one of the
-- PCRs 0, 1 and 2.
abbrev pub Refuses : Nsm → NsmError → Type 0
Refuses n e =
    ((shown : Bytes) × (length shown ≤ 512) × (Nsm.attest n shown none none ≡ err e))
    ⊎ ((i : ℕ) × (i < 3) × (Nsm.describe_pcr n i ≡ err e))

-- Its calls return.
pub record NsmReturns (n : Nsm) : Type 0 where
  pub attest-NoPanic : (shown : Bytes) → NoPanic (Nsm.attest n shown none none)
  pub describe_pcr-NoPanic : (i : ℕ) → NoPanic (Nsm.describe_pcr n i)

-- Either the four requests of a ceremony are answered, or one is refused, and its error ends the
-- chain of calls.
nsm_calls {ℓ} :
    (A : Type ℓ) (n : Nsm) (shown : Bytes)
    → NsmReturns n
    → length shown ≤ 512
    → ((quote : Bytes) × (p0 : Bytes) × (p1 : Bytes) × (p2 : Bytes) × (Nsm.attest n shown none none
          ≡ ok quote)
        × (Nsm.describe_pcr n 0 ≡ ok p0)
        × (Nsm.describe_pcr n 1 ≡ ok p1)
        × (Nsm.describe_pcr n 2 ≡ ok p2))
      ⊎ ((e : NsmError) × Refuses n e
          × ((next : Bytes → Bytes → Bytes → Bytes → Outcome CeremonyError A)
              → (do
                quote ← map_err nsm (Nsm.attest n shown none none)
                p0 ← map_err nsm (Nsm.describe_pcr n 0)
                p1 ← map_err nsm (Nsm.describe_pcr n 1)
                p2 ← map_err nsm (Nsm.describe_pcr n 2)
                next quote p0 p1 p2)
                ≡ err (nsm e)))
nsm_calls A n shown returns fits = elim (Outcome-cases (Nsm.attest n shown none none)) [
  | inl (quote, a) ↦ elim (Outcome-cases (Nsm.describe_pcr n 0)) [
    | inl (p0, a0) ↦ elim (Outcome-cases (Nsm.describe_pcr n 1)) [
      | inl (p1, a1) ↦ elim (Outcome-cases (Nsm.describe_pcr n 2)) [
        | inl (p2, a2) ↦ inl (quote, p0, p1, p2, a, a0, a1, a2)
        | inr (inl (e, r)) ↦ inr (e, inr (2, omega arith, r), λ next. rw (a, a0, a1, r))
        | inr (inr r) ↦ absurd (returns.describe_pcr-NoPanic 2 r)
      ]
      | inr (inl (e, r)) ↦ inr (e, inr (1, omega arith, r), λ next. rw (a, a0, r))
      | inr (inr r) ↦ absurd (returns.describe_pcr-NoPanic 1 r)
    ]
    | inr (inl (e, r)) ↦ inr (e, inr (0, omega arith, r), λ next. rw (a, r))
    | inr (inr r) ↦ absurd (returns.describe_pcr-NoPanic 0 r)
  ]
  | inr (inl (e, r)) ↦ inr (e, inl (shown, fits, r), λ next. rw r)
  | inr (inr r) ↦ absurd (returns.attest-NoPanic shown r)
]

module _ (k : Keyfork) (laws : KeyforkLaws k) (sha : Sha256) (fips : Fips)
    (fips_laws : FipsLaws fips) (hex base64 : TextCodec) where
  -- A ceremony over 32 bytes of entropy, with at most `2 ^ 31` subkeys in each lane and a `u32` sum,
  -- always ends, if keyfork and the signature crates obey their laws and the calls of the NSM return:
  -- either with a state that has all subkeys, or with the error of a request that the NSM refused,
  -- which was for a document with at most 512 bytes of user data or for PCR 0, 1 or 2.
  pub run_ceremony-finishes :
      (n : Nsm) (root_ca_der : Bytes) (config : CeremonyConfig) (entropy ml_drawn slh_drawn : Bytes)
      → NsmReturns n
      → length entropy ≡ 32
      → config.auth_count ≤ 2 ^ 31
      → config.enc_count ≤ 2 ^ 31
      → config.auth_count + config.enc_count < u32_mod
      → ((state : CeremonyState k) × (run_ceremony k sha fips hex base64 n root_ca_der config
              entropy ml_drawn slh_drawn
            ≡ ok state)
          × (length state.subkeys ≡ config.auth_count + config.enc_count))
        ⊎ ((e : NsmError) × Refuses n e
            × (run_ceremony k sha fips hex base64 n root_ca_der config entropy ml_drawn slh_drawn
                ≡ err (nsm e)))
  unfolding run_ceremony attest_bundle_payload
  run_ceremony-finishes n root_ca_der config entropy ml_drawn slh_drawn returns size auth enc
        small =
      let (mnemonic, e₁) = laws.mnemonic_of entropy size in
      let (path, kp, e₂, e₃, pair) =
        derive_keypair-total k laws sha fips fips_laws mnemonic 0 0 (omega arith) (omega arith) in
      let (ml, slh) = length-IsKeypair k laws sha fips fips_laws kp pair in
      let (d, e₄) = derive_subkeys-total k laws sha fips fips_laws mnemonic config auth enc in
      let ((numbered, next), total) =
        derive_subkeys-Aligned k sha fips mnemonic config d small e₄ in
      let (root, e₅, node) = merkle_root-IsNode sha d.1 (Numbered-IsNode sha 0 d.0 d.1 numbered) in
      let payload = payload_text kp.ml_dsa_pk kp.slh_dsa_pk root d.2 in
      let e₆ =
        with_subkeys_lem CeremonyError kp.ml_dsa_pk kp.slh_dsa_pk root d.2 ml slh
          (omega (arith, node.1)) in
      let (sig, e₇, _, _, _, _) =
        sign_payload-Verifies fips fips_laws CeremonyError kp ml_drawn slh_drawn payload pair in
      elim (nsm_calls (CeremonyState k) n (user_data_commitment sha payload) returns
        (length-user_data_commitment sha payload).1) [
          | inl (quote, p0, p1, p2, a, a0, a1, a2) ↦ inl (
            state_of k sha fips hex base64 root_ca_der mnemonic kp d root sig quote p0 p1 p2,
            rw (e₁, e₂, e₃, e₄, e₅, e₆, e₇, a, a0, a1, a2),
            sym next ∙ total,
          )
          | inr (e, refuses, ends) ↦ inr (e, refuses, rw (e₁, e₂, e₃, e₄, e₅, e₆, e₇) (ends _))
        ]
