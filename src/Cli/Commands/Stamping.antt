-- ===== src/Cli/Commands/Stamping.antt =====
-- crates/pq-cli/src/main.rs: `stamp` uses the first calendar that answers.
use pq_enclave_binding.Base.{
  ◌≡◌, ◌↔◌, refl, ap, subst, List, [], ◌∷◌, ◌++◌, Option, none, some, Bytes, String, ◌<>◌, ok, err,
  >>=-eq-ok, ok-injective, map_err, map_err-eq-ok, Outcome-cases, All, inl, inr,
}
use pq_enclave_binding.Bundle.{PqRootBundle}
use pq_enclave_binding.Ots.{OtsError}
use pq_enclave_binding.Cli.{Error, context, bundle_digest, load_bundle}
use pq_enclave_binding.Cli.Commands.{World, stamp_via, try_calendars, cmd_stamp}

module _ {Op : Type 0} (w : World Op) (digest : Bytes) (out : String) where
  abbrev pub Fails : String → Type 0
  Fails url = (e : OtsError) × (stamp_via w digest url ≡ err e)

  -- All calendars before this one fail, and its proof is written.
  pub record FirstStamped (urls : List String) (url : String) (proof : Bytes) : Type 0 where
    pub before : List String
    pub after : List String
    pub split : urls ≡ before ++ (url ∷ after)
    pub failed : All Fails before
    pub stamped : stamp_via w digest url ≡ ok proof
    pub written : w.files.write out proof ≡ ok tt

  pub try_calendars-eq-ok :
      (urls : List String) (last : Option OtsError) (x : String × Bytes)
      → try_calendars w digest out urls last ≡ ok x
      → FirstStamped urls x.0 x.1
  unfolding try_calendars
  try_calendars-eq-ok [] none x h = absurd (cc h)
  try_calendars-eq-ok [] (some e) x h = absurd (cc h)
  try_calendars-eq-ok (url ∷ rest) last x h = elim (Outcome-cases (stamp_via w digest url)) [
    | inl (proof, e) ↦
        let (_, wrote, k) =
          >>=-eq-ok (map_err (context ("writing proof " <> out)) (w.files.write out proof)) _
            (rw (e, try_calendars) at h) in
        subst {A = String × Bytes} (λ x. FirstStamped (url ∷ rest) x.0 x.1) (ok-injective Error k)
          (record {
            before = [];
            after = rest;
            split = refl;
            failed = tt;
            stamped = e;
            written = map_err-eq-ok _ (w.files.write out proof) wrote;
          })
    | inr (inl (e, failed)) ↦
        let f = try_calendars-eq-ok rest (some e) x (rw (failed, try_calendars) at h) in
        record {
          before = url ∷ f.before;
          after = f.after;
          split = ap (λ xs. url ∷ xs) f.split;
          failed = ((e, failed), f.failed);
          stamped = f.stamped;
          written = f.written;
        }
    | inr (inr panics) ↦ absurd (let bad = rw (panics, try_calendars) at h in cc)
  ]

  try_calendars-append :
      (before after : List String) (url : String) (proof : Bytes) (last : Option OtsError)
      → All Fails before
      → stamp_via w digest url ≡ ok proof
      → w.files.write out proof ≡ ok tt
      → try_calendars w digest out (before ++ (url ∷ after)) last ≡ ok (url, proof)
  unfolding try_calendars
  try_calendars-append [] after url proof last failed e wrote = rw (e, try_calendars, wrote)
  try_calendars-append (b ∷ before) after url proof last ((x, fails), failed) e wrote =
      rw (fails, try_calendars)
        (try_calendars-append before after url proof (some x) failed e wrote)

-- `stamp` succeeds with a URL and a proof exactly if the bundle loads and serializes, every
-- calendar before that URL fails on the bundle's digest, that one gives the proof, and the proof
-- is written. The calendars after it are not asked.
pub cmd_stamp_iff :
    {Op : Type 0} (w : World Op) (bundle_path out : String) (calendars : List String) (url : String)
    (proof : Bytes)
    → (cmd_stamp w bundle_path out calendars ≡ ok (url, proof)) ↔ (
        (bundle : PqRootBundle) × (digest : Bytes) × (load_bundle w.bundle_json w.files bundle_path
          ≡ ok bundle)
        × (bundle_digest w.sha w.bundle_json bundle ≡ ok digest)
        × FirstStamped w digest out calendars url proof)
unfolding cmd_stamp
cmd_stamp_iff w bundle_path out calendars url proof = (ran, runs)
  where
    ran :
        cmd_stamp w bundle_path out calendars ≡ ok (url, proof)
        → (bundle : PqRootBundle) × (digest : Bytes) × (load_bundle w.bundle_json w.files
              bundle_path
            ≡ ok bundle)
          × (bundle_digest w.sha w.bundle_json bundle ≡ ok digest)
          × FirstStamped w digest out calendars url proof
    ran h =
        let (bundle, e₁, h₁) = >>=-eq-ok (load_bundle w.bundle_json w.files bundle_path) _ h in
        let (digest, e₂, h₂) = >>=-eq-ok (bundle_digest w.sha w.bundle_json bundle) _ h₁ in
        (bundle, digest, e₁, e₂, try_calendars-eq-ok w digest out calendars none (url, proof) h₂)

    runs :
        (bundle : PqRootBundle) × (digest : Bytes) × (load_bundle w.bundle_json w.files bundle_path
            ≡ ok bundle)
          × (bundle_digest w.sha w.bundle_json bundle ≡ ok digest)
          × FirstStamped w digest out calendars url proof
        → cmd_stamp w bundle_path out calendars ≡ ok (url, proof)
    runs (bundle, digest, e₁, e₂, f) =
        rw (e₁, e₂, f.split)
          (try_calendars-append w digest out f.before f.after url proof none f.failed f.stamped
            f.written)
