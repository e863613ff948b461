-- ===== src/Cli/Commands/Verdicts.antt =====
-- crates/pq-cli/src/main.rs: what the verdicts of `verify` and `verify-subkey` rest on.
use pq_enclave_binding.Base.{
  ℕ, ◌≡◌, ◌↔◌, refl, sym, ap, subst, Bool, true, false, Option, none, some, String, Outcome, ok,
  ◌>>=◌, >>=-eq-ok, ok-injective, map_err, map_err-eq-ok, expect, expect-eq-ok, ok_or, ok_or-eq-ok,
  if◌then◌else◌,
}
use pq_enclave_binding.Bundle.{PqRootBundle}
use pq_enclave_binding.Cli.{Error, plain, root_required, load_bundle}
use pq_enclave_binding.Cli.Commands.{
  World, Verdict, SubkeyVerdict, SubkeyResponse, Options, check_bundle, cmd_verify, check_subkey,
  check_provenance, subkey_verdict, verify_subkey,
}
use pq_enclave_binding.Cli.Commands.Member.{Checked, check_subkey_iff}

module _ {Op : Type 0} (w : World Op) where
  -- What a verdict says of the proof: pending, or anchored in the block at that height.
  abbrev pub Says : Verdict → Bool × Option ℕ → Type 0
  Says Verdict.partial (pending, height) = pending ≡ true
  Says (Verdict.verified n) (pending, height) = (pending ≡ false) × (height ≡ some n)

  says :
      (pending : Bool) (height : Option ℕ) (v : Verdict)
      → ◌≡◌ {A = Outcome Error Verdict}
          (if pending then ok Verdict.partial else (expect height >>= λ n. ok (Verdict.verified n)))
          (ok v)
      → Says v (pending, height)
  says true height v h =
      subst {A = Verdict} (λ v. Says v (true, height)) (ok-injective Error h) refl
  says false height v h =
      let (n, e, k) = >>=-eq-ok (expect height) _ h in
      subst {A = Verdict} (λ v. Says v (false, height)) (ok-injective Error k)
        (refl, expect-eq-ok height e)

  said :
      (pending : Bool) (height : Option ℕ) (v : Verdict)
      → Says v (pending, height)
      → ◌≡◌ {A = Outcome Error Verdict}
          (if pending then ok Verdict.partial else (expect height >>= λ n. ok (Verdict.verified n)))
          (ok v)
  said pending height Verdict.partial s = rw s
  said pending height (Verdict.verified n) (p, q) = rw (p, q)

  -- `verify` prints that all is verified exactly if the bundle loads and its checks pass with an
  -- anchored proof, whose earliest block it names; and that it is partial exactly if they pass with
  -- a pending proof.
  pub cmd_verify_iff :
      (bundle_path ots_path root_path : String) (o : Options) (v : Verdict)
      → (cmd_verify w bundle_path ots_path root_path o ≡ ok v) ↔ (
          (bundle : PqRootBundle) × (x : Bool × Option ℕ) × (load_bundle w.bundle_json w.files
              bundle_path
            ≡ ok bundle)
          × (check_bundle w bundle ots_path root_path o ≡ ok x)
          × Says v x)
  unfolding cmd_verify
  cmd_verify_iff bundle_path ots_path root_path o v = (
    λ h.
        let (bundle, e₁, h₁) = >>=-eq-ok (load_bundle w.bundle_json w.files bundle_path) _ h in
        let (x, e₂, h₂) = >>=-eq-ok (check_bundle w bundle ots_path root_path o) _ h₁ in
        (bundle, x, e₁, e₂, says x.0 x.1 v h₂),
    λ (bundle, x, e₁, e₂, s). rw (e₁, e₂) (said x.0 x.1 v s),
  )

  -- What has been checked of the bundle itself.
  abbrev pub Provenance :
      PqRootBundle → Option String → Option String → Options → Bool × Option ℕ → Type 0
  Provenance bundle none root_path o x = x ≡ (false, none)
  Provenance bundle (some ots_path) root_path o x =
      (path : String) × (root_path ≡ some path) × (check_bundle w bundle ots_path path o ≡ ok x)

  check_provenance_iff :
      (bundle : PqRootBundle) (ots_path root_path : Option String) (o : Options)
      (x : Bool × Option ℕ)
      → (check_provenance w bundle ots_path root_path o ≡ ok x)
        ↔ Provenance bundle ots_path root_path o x
  unfolding check_provenance
  check_provenance_iff bundle none root_path o x =
      (λ h. sym (ok-injective Error h), λ e. ap ok (sym e))
  check_provenance_iff bundle (some ots_path) root_path o x = (
    λ h.
        let (path, e, k) = >>=-eq-ok (ok_or root_path root_required) _ h in
        (path, ok_or-eq-ok root_path root_required e, k),
    λ (path, e, k). rw e k,
  )

  -- What a verdict on a subkey says: the proof is pending; the proof that was given is anchored at
  -- the height that its check answered, if it did; or no proof was given.
  abbrev pub SubkeySays : SubkeyVerdict → Option String → Bool × Option ℕ → Type 0
  SubkeySays SubkeyVerdict.partial ots_path (pending, height) = pending ≡ true
  SubkeySays (SubkeyVerdict.verified h) ots_path (pending, height) =
      (pending ≡ false) × ((p : String) × (ots_path ≡ some p)) × (h ≡ height)
  SubkeySays SubkeyVerdict.verified_membership ots_path (pending, height) =
      (pending ≡ false) × (ots_path ≡ none)

  pub subkey_verdict-SubkeySays :
      (pending : Bool) (ots_path : Option String) (height : Option ℕ)
      → SubkeySays (subkey_verdict w pending ots_path height) ots_path (pending, height)
  subkey_verdict-SubkeySays true ots_path height = refl
  subkey_verdict-SubkeySays false (some p) height = (refl, (p, refl), refl)
  subkey_verdict-SubkeySays false none height = (refl, refl)

  SubkeySays-subkey_verdict :
      (v : SubkeyVerdict) (ots_path : Option String) (pending : Bool) (height : Option ℕ)
      → SubkeySays v ots_path (pending, height)
      → v ≡ subkey_verdict w pending ots_path height
  SubkeySays-subkey_verdict SubkeyVerdict.partial ots_path pending height s = rw s refl
  SubkeySays-subkey_verdict (SubkeyVerdict.verified h) ots_path pending height (a, (p, b), c) =
      rw (a, b, c) refl
  SubkeySays-subkey_verdict SubkeyVerdict.verified_membership ots_path pending height (a, b) =
      rw (a, b) refl

  -- `verify-subkey` succeeds exactly if bundle and response load, the subkey checks pass, and, if
  -- a proof file is given, a root certificate is given too and the whole check of the bundle
  -- passes. Without a proof file nothing of the bundle is checked but that the subkey is under its
  -- Merkle root. The verdict is `partial` if the proof is pending, and if it is not, it is `verified`
  -- with the height that the check answered when a proof file is given, else `verified_membership`.
  pub verify_subkey_iff :
      (bundle_path subkey_path : String) (message_hex ots_path root_path : Option String)
      (o : Options) (v : SubkeyVerdict)
      → (verify_subkey w bundle_path subkey_path message_hex ots_path root_path o ≡ ok v) ↔ (
          (bundle : PqRootBundle) × (raw : String) × (sk : SubkeyResponse) × (x : Bool × Option ℕ)
          × (load_bundle w.bundle_json w.files bundle_path ≡ ok bundle)
          × (w.files.read_to_string subkey_path ≡ ok raw)
          × (w.subkey_json.from_str raw ≡ ok sk)
          × Provenance bundle ots_path root_path o x
          × Checked w bundle sk message_hex
          × SubkeySays v ots_path x)
  unfolding verify_subkey
  verify_subkey_iff bundle_path subkey_path message_hex ots_path root_path o v = (
    λ h.
        let (bundle, e₁, h₁) = >>=-eq-ok (load_bundle w.bundle_json w.files bundle_path) _ h in
        let (raw, e₂, h₂) = >>=-eq-ok (map_err plain (w.files.read_to_string subkey_path)) _ h₁ in
        let (sk, e₃, h₃) = >>=-eq-ok (map_err plain (w.subkey_json.from_str raw)) _ h₂ in
        let (x, e₄, h₄) = >>=-eq-ok (check_provenance w bundle ots_path root_path o) _ h₃ in
        let (_, e₅, h₅) = >>=-eq-ok (check_subkey w bundle sk message_hex) _ h₄ in
        (
          bundle,
          raw,
          sk,
          x,
          e₁,
          map_err-eq-ok plain _ e₂,
          map_err-eq-ok plain _ e₃,
          (check_provenance_iff bundle ots_path root_path o x).0 e₄,
          (check_subkey_iff w bundle sk message_hex).0 e₅,
          subst {A = SubkeyVerdict} (λ v. SubkeySays v ots_path x) (ok-injective Error h₅)
              (subkey_verdict-SubkeySays x.0 ots_path x.1),
        ),
    λ (bundle, raw, sk, x, e₁, e₂, e₃, p, c, s). rw (
      e₁,
      e₂,
      e₃,
      (check_provenance_iff bundle ots_path root_path o x).1 p,
      (check_subkey_iff w bundle sk message_hex).1 c,
      sym (SubkeySays-subkey_verdict v ots_path x.0 x.1 s),
    ),
  )
