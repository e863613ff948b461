-- ===== src/Ots/Anchored.antt =====
-- crates/pq-ots/src/lib.rs: what `verify` accepts, and when a proof is not anchored.
use pq_enclave_binding.Base.{
  ℕ, ◌≡◌, ◌≢◌, ◌↔◌, refl, sym, ap, subst, arith, Bool, true, false, not, List, [], ◌∷◌, map,
  is_empty, Bytes, String, All, ok, err, >>=-eq-ok, >>=-err_past, >>=-err_first, map_err-eq-ok,
  fail_if, fail_if-eq-ok, fail_unless-eq-ok, bytes_eq, bytes_eq→eq, bytes_eq_refl,
}
use pq_enclave_binding.External.{TextCodec}
use pq_enclave_binding.Ots.{
  OtsCodec, DetachedTimestampFile, codec, digest_mismatch, not_anchored, BitcoinHeaderSource,
  BitcoinAnchor, collect_attestations, parse_proof, verify,
}
use pq_enclave_binding.Ots.Tree.{Attested, bitcoin_of, pending_of, collect_attestations_lem}
use pq_enclave_binding.Ots.Collected.{Holds, collected, each_collected}
use pq_enclave_binding.Ots.Confirmed.{
  anchor_of, Matches, check_anchors-eq-ok, check_anchors_lem, check_anchors-ne-not_anchored,
}

map-ne-nil :
    (xs : List (ℕ × Bytes)) (ys : List BitcoinAnchor)
    → is_empty xs ≡ false
    → ys ≡ map anchor_of xs
    → ys ≢ []
map-ne-nil [] ys h e k = cc
map-ne-nil (x ∷ xs) ys h e k = cc

none_found : (xs : List (ℕ × Bytes)) → All (Holds (λ _ _. ⊥)) xs → xs ≡ []
none_found [] all = refl
none_found (x ∷ xs) all = absurd all.0

no_bitcoin :
    (xs : List (ℕ × Bytes))
    → fail_if (is_empty xs) not_anchored ≡ err not_anchored
    → All (Holds (λ _ _. ⊥)) xs
no_bitcoin [] h = tt
no_bitcoin (x ∷ xs) h = cc

digest_mismatch-ne : (b : Bool) (x y : String) → fail_if b (digest_mismatch x y) ≢ err not_anchored
digest_mismatch-ne true x y h = cc
digest_mismatch-ne false x y h = cc

is_empty-map : (xs : List (ℕ × Bytes)) → map anchor_of xs ≢ [] → is_empty xs ≡ false
is_empty-map [] h = absurd (h refl)
is_empty-map (x ∷ xs) h = refl

module _ {Op : Type 0} (crate : OtsCodec Op) (hex : TextCodec) (source : BitcoinHeaderSource)
    (ots_bytes expected : Bytes) where
  -- The proof parses to a file that commits to the expected digest.
  abbrev pub Commits : DetachedTimestampFile Op → Type 0
  Commits file = (crate.from_reader ots_bytes ≡ ok file) × (file.timestamp.start_digest ≡ expected)

  commits :
      (file : DetachedTimestampFile Op) (a b : String)
      → parse_proof crate ots_bytes ≡ ok file
      → fail_if (not (bytes_eq file.timestamp.start_digest expected)) (digest_mismatch a b) ≡ ok tt
      → Commits file
  unfolding parse_proof
  commits file a b e k = (
    map_err-eq-ok codec (crate.from_reader ots_bytes) e,
    bytes_eq→eq _ expected (fail_unless-eq-ok _ (digest_mismatch a b) k),
  )

  found_in :
      (file : DetachedTimestampFile Op)
      → collect_attestations file.timestamp.first_step ([], [])
        ≡ (bitcoin_of file.timestamp.first_step, pending_of file.timestamp.first_step)
  found_in file = collect_attestations_lem file.timestamp.first_step [] []

  abbrev pub Anchored : List BitcoinAnchor → Type 0
  Anchored anchors =
      (file : DetachedTimestampFile Op) × Commits file
      × ((height : ℕ) (committed : Bytes)
          → Attested Op height committed file.timestamp.first_step
          → source.merkle_root height ≡ ok committed)
      × (anchors ≡ map anchor_of (bitcoin_of file.timestamp.first_step))
      × (anchors ≢ [])

  verify_sound :
      (anchors : List BitcoinAnchor)
      → verify crate hex ots_bytes expected source ≡ ok anchors
      → Anchored anchors
  unfolding verify
  verify_sound anchors h =
      let (file, e₁, k₁) = >>=-eq-ok (parse_proof crate ots_bytes) _ h in
      let (_, e₂, k₂) =
        >>=-eq-ok
          (fail_if (not (bytes_eq file.timestamp.start_digest expected))
            (digest_mismatch (hex.encode file.timestamp.start_digest) (hex.encode expected)))
          _ k₁ in
      let k₃ = rw (found_in file) at k₂ in
      let (_, e₄, k₄) =
        >>=-eq-ok (fail_if (is_empty (bitcoin_of file.timestamp.first_step)) not_anchored) _ k₃ in
      let (all, listed) =
        check_anchors-eq-ok hex source (bitcoin_of file.timestamp.first_step) anchors k₄ in
      (
        file,
        commits file _ _ e₁ e₂,
        collected (Matches source) file.timestamp.first_step all,
        listed,
        map-ne-nil _ anchors (fail_if-eq-ok _ not_anchored e₄) listed,
      )

  verify_complete :
      (anchors : List BitcoinAnchor)
      → Anchored anchors
      → verify crate hex ots_bytes expected source ≡ ok anchors
  unfolding verify parse_proof
  verify_complete anchors (file, (parsed, same), each, listed, some_anchor) =
      rw
        (
          parsed,
          same,
          bytes_eq_refl,
          found_in file,
          is_empty-map _ (subst (λ a. a ≢ []) listed some_anchor),
          check_anchors_lem hex source _
              (each_collected (Matches source) file.timestamp.first_step each),
        )
        (ap ok (sym listed))

  -- `verify` succeeds exactly if the proof parses, commits to the expected digest, has at least one
  -- Bitcoin attestation, and the header source confirms the output of every Bitcoin attestation in
  -- the tree as the Merkle root of its block. The anchors are all these attestations, in order.
  pub anchors_verify_iff :
      (anchors : List BitcoinAnchor)
      → (verify crate hex ots_bytes expected source ≡ ok anchors) ↔ Anchored anchors
  anchors_verify_iff anchors = (verify_sound anchors, verify_complete anchors)

  parse_proof_lem :
      (file : DetachedTimestampFile Op)
      → crate.from_reader ots_bytes ≡ ok file
      → parse_proof crate ots_bytes ≡ ok file
  unfolding parse_proof
  parse_proof_lem file e = rw e

  parse_proof-ne : parse_proof crate ots_bytes ≢ err not_anchored
  unfolding parse_proof
  parse_proof-ne h = ground arith

  -- `verify` answers `NotAnchored` exactly if the proof parses and commits to the expected digest
  -- but its tree has no Bitcoin attestation.
  pub verify-not_anchored_iff : (verify crate hex ots_bytes expected source ≡ err not_anchored) ↔ (
      (file : DetachedTimestampFile Op) × Commits file
      × ((height : ℕ) (committed : Bytes)
          → Attested Op height committed file.timestamp.first_step
          → ⊥))
  unfolding verify
  verify-not_anchored_iff = (found, made)
    where
      found :
          verify crate hex ots_bytes expected source ≡ err not_anchored
          → (file : DetachedTimestampFile Op) × Commits file
            × ((height : ℕ) (committed : Bytes)
                → Attested Op height committed file.timestamp.first_step
                → ⊥)
      found h =
          let (file, e₁, k₁) = >>=-err_past (parse_proof crate ots_bytes) _ parse_proof-ne h in
          let differs = not (bytes_eq file.timestamp.start_digest expected) in
          let (_, e₂, k₂) =
            >>=-err_past
              (fail_if differs
                (digest_mismatch (hex.encode file.timestamp.start_digest) (hex.encode expected)))
              _ (digest_mismatch-ne differs _ _) k₁ in
          let attested = bitcoin_of file.timestamp.first_step in
          let empty =
            >>=-err_first (fail_if (is_empty attested) not_anchored) _
              (λ _. check_anchors-ne-not_anchored hex source attested) (rw (found_in file) at k₂) in
          (
            file,
            commits file _ _ e₁ e₂,
            collected (λ _ _. ⊥) file.timestamp.first_step (no_bitcoin attested empty),
          )

      made :
          (file : DetachedTimestampFile Op) × Commits file
            × ((height : ℕ) (committed : Bytes)
                → Attested Op height committed file.timestamp.first_step
                → ⊥)
          → verify crate hex ots_bytes expected source ≡ err not_anchored
      made (file, (parsed, same), none_at) = rw (
        parse_proof_lem file parsed,
        same,
        bytes_eq_refl,
        found_in file,
        none_found (bitcoin_of file.timestamp.first_step)
            (each_collected (λ _ _. ⊥) file.timestamp.first_step none_at),
      )
