-- ===== src/Subkey/Accepted.antt =====
-- crates/pq-subkey/src/lib.rs: what `verify` accepts, and for which root.
use pq_enclave_binding.Base.{
  ℕ, ◌<◌, ◌≤◌, ◌≡◌, ◌↔◌, refl, sym, ◌∙◌, ap, arith, not, ◌⊎◌, inl, inr, Option, none, some, Bytes,
  ok, ok-injective, >>=-eq-ok, map_err, map_err-eq-ok, fail_if, fail_unless-eq-ok, bytes_eq,
  bytes_eq→eq, bytes_eq_refl, length, prefixed_split, be32_split,
}
use pq_enclave_binding.External.{Sha256, Collides, TextCodec, Fips}
use pq_enclave_binding.Core.{canonical_payload, verify_dual, DualSignature}
use pq_enclave_binding.Core.Payload.{canonical_payload-eq-ok}
use pq_enclave_binding.Core.Signing.{Verifies, verify_dual_iff}
use pq_enclave_binding.Merkle.Leaves.{digest_cases}
use pq_enclave_binding.Subkey.{
  Error, hex_decode, root_binding_mismatch, signature, SubkeyPublicKeys, SubkeyCert, root_binding,
  signing_bytes, check_window, meta_of, verify,
}

-- The time lies in the validity window; a bound of 0 is no bound.
abbrev pub InWindow : ℕ → ℕ → Option ℕ → Type 0
InWindow not_before not_after none = Unit
InWindow not_before not_after (some now) =
    ((not_before ≡ 0) ⊎ (not_before ≤ now)) × ((not_after ≡ 0) ⊎ (now < not_after))

check_window-eq-ok :
    (cert : SubkeyCert) (as_of : Option ℕ)
    → check_window cert as_of ≡ ok tt
    → InWindow cert.not_before cert.not_after as_of
unfolding check_window
check_window-eq-ok cert none h = tt
check_window-eq-ok cert (some now) h = ground arith

check_window_lem :
    (cert : SubkeyCert) (as_of : Option ℕ)
    → InWindow cert.not_before cert.not_after as_of
    → check_window cert as_of ≡ ok tt
unfolding check_window
check_window_lem cert none h = refl
check_window_lem cert (some now) h = ground arith

-- Everything that an accepting run of `verify` has established.
pub record Accepted (hex : TextCodec) (sha : Sha256) (fips : Fips) (cert : SubkeyCert)
    (root_ml root_slh : Bytes) (as_of : Option ℕ) (keys : SubkeyPublicKeys) : Type 0 where
  pub sub_ml : Bytes
  pub sub_slh : Bytes
  pub binding : Bytes
  pub msg : Bytes
  pub ml_sig : Bytes
  pub slh_sig : Bytes
  pub ml_pk_hex : hex.decode cert.ml_dsa_pk ≡ ok sub_ml
  pub slh_pk_hex : hex.decode cert.slh_dsa_pk ≡ ok sub_slh
  pub binding_hex : hex.decode cert.root_binding ≡ ok binding
  pub ml_sig_hex : hex.decode cert.ml_dsa_sig ≡ ok ml_sig
  pub slh_sig_hex : hex.decode cert.slh_dsa_sig ≡ ok slh_sig
  pub of_root : root_binding {E = Error} sha root_ml root_slh ≡ ok binding
  pub signed : signing_bytes {E = Error} binding sub_ml sub_slh (meta_of cert) ≡ ok msg
  pub ml_verifies : Verifies fips.ml_dsa root_ml msg ml_sig
  pub slh_verifies : Verifies fips.slh_dsa root_slh msg slh_sig
  pub in_window : InWindow cert.not_before cert.not_after as_of
  pub reported : keys ≡ record {
    ml_dsa_pk = sub_ml;
    slh_dsa_pk = sub_slh;
    purpose = cert.purpose;
    serial = cert.serial;
  }

pub root_binding-injective :
    (sha : Sha256) (ml slh ml' slh' : Bytes) {b : Bytes}
    → root_binding {E = Error} sha ml slh ≡ ok b
    → root_binding {E = Error} sha ml' slh' ≡ ok b
    → ((ml ≡ ml') × (slh ≡ slh'))
      ⊎ ((v : Bytes) × (v' : Bytes) × (canonical_payload {E = Error} ml slh ≡ ok v)
          × (canonical_payload {E = Error} ml' slh' ≡ ok v')
          × Collides sha v v')
unfolding root_binding
root_binding-injective sha ml slh ml' slh' h h' =
    let (v, e, k) = >>=-eq-ok (canonical_payload ml slh) _ h in
    let (v', e', k') = >>=-eq-ok (canonical_payload ml' slh') _ h' in
    elim (digest_cases sha v v' (ok-injective Error (k ∙ sym k'))) [
      | inl same ↦
          let (a, b, t) = canonical_payload-eq-ok Error ml slh e in
          let (a', b', t') = canonical_payload-eq-ok Error ml' slh' e' in
          let (p, rest) = prefixed_split ml ml' a a' (sym t ∙ same ∙ t') in
          let (_, q) = be32_split (length slh) (length slh') b b' rest in inl (p, q)
      | inr c ↦ inr (v, v', e, e', c)
    ]

module _ (hex : TextCodec) (sha : Sha256) (fips : Fips) (cert : SubkeyCert)
    (root_ml root_slh : Bytes) (as_of : Option ℕ) (keys : SubkeyPublicKeys) where
  verify_sound :
      verify hex sha fips cert root_ml root_slh as_of ≡ ok keys
      → Accepted hex sha fips cert root_ml root_slh as_of keys
  unfolding verify
  verify_sound h =
      let (sub_ml, e₁, k₁) =
        >>=-eq-ok (map_err (hex_decode "ml_dsa_pk") (hex.decode cert.ml_dsa_pk)) _ h in
      let (sub_slh, e₂, k₂) =
        >>=-eq-ok (map_err (hex_decode "slh_dsa_pk") (hex.decode cert.slh_dsa_pk)) _ k₁ in
      let (found, e₃, k₃) =
        >>=-eq-ok (map_err (hex_decode "root_binding") (hex.decode cert.root_binding)) _ k₂ in
      let (ml_sig, e₄, k₄) =
        >>=-eq-ok (map_err (hex_decode "ml_dsa_sig") (hex.decode cert.ml_dsa_sig)) _ k₃ in
      let (slh_sig, e₅, k₅) =
        >>=-eq-ok (map_err (hex_decode "slh_dsa_sig") (hex.decode cert.slh_dsa_sig)) _ k₄ in
      let (expected, e₆, k₆) = >>=-eq-ok (root_binding sha root_ml root_slh) _ k₅ in
      let (_, e₇, k₇) =
        >>=-eq-ok (fail_if (not (bytes_eq found expected)) root_binding_mismatch) _ k₆ in
      let (msg, e₈, k₈) = >>=-eq-ok (signing_bytes expected sub_ml sub_slh (meta_of cert)) _ k₇ in
      let dual : DualSignature = record { ml_dsa = ml_sig; slh_dsa = slh_sig } in
      let (_, e₉, k₉) =
        >>=-eq-ok (map_err signature (verify_dual fips root_ml root_slh msg dual)) _ k₈ in
      let (_, e, k) = >>=-eq-ok (check_window cert as_of) _ k₉ in
      let both =
        (verify_dual_iff fips root_ml root_slh msg dual).0 (map_err-eq-ok signature _ e₉) in
      record {
        sub_ml = sub_ml;
        sub_slh = sub_slh;
        binding = expected;
        msg = msg;
        ml_sig = ml_sig;
        slh_sig = slh_sig;
        ml_pk_hex = map_err-eq-ok _ (hex.decode cert.ml_dsa_pk) e₁;
        slh_pk_hex = map_err-eq-ok _ (hex.decode cert.slh_dsa_pk) e₂;
        binding_hex =
            map_err-eq-ok _ (hex.decode cert.root_binding) e₃
            ∙ ap ok (bytes_eq→eq found expected (fail_unless-eq-ok _ root_binding_mismatch e₇));
        ml_sig_hex = map_err-eq-ok _ (hex.decode cert.ml_dsa_sig) e₄;
        slh_sig_hex = map_err-eq-ok _ (hex.decode cert.slh_dsa_sig) e₅;
        of_root = e₆;
        signed = e₈;
        ml_verifies = both.0;
        slh_verifies = both.1;
        in_window = check_window-eq-ok cert as_of e;
        reported = sym (ok-injective Error k);
      }

  verify_complete :
      Accepted hex sha fips cert root_ml root_slh as_of keys
      → verify hex sha fips cert root_ml root_slh as_of ≡ ok keys
  unfolding verify
  verify_complete a =
      rw
        (
          a.ml_pk_hex,
          a.slh_pk_hex,
          a.binding_hex,
          a.ml_sig_hex,
          a.slh_sig_hex,
          a.of_root,
          bytes_eq_refl,
          a.signed,
          (verify_dual_iff fips root_ml root_slh a.msg _).1 (a.ml_verifies, a.slh_verifies),
          check_window_lem cert as_of a.in_window,
        )
        (ap ok (sym a.reported))

  -- `verify` succeeds exactly if the fields decode, `root_binding` is that of the given root keys,
  -- both root signatures over the certificate's signing bytes verify, and the time (if one is
  -- given) is at least `not_before` and less than `not_after`, where 0 is no bound. It then returns
  -- the decoded subkeys with the certificate's purpose and serial number.
  pub cert_verify_iff :
      (verify hex sha fips cert root_ml root_slh as_of ≡ ok keys)
      ↔ Accepted hex sha fips cert root_ml root_slh as_of keys
  cert_verify_iff = (verify_sound, verify_complete)

-- A certificate that `verify` accepts under two pairs of root keys has been given one pair, or the
-- canonical payloads of the two pairs, which `root_binding` hashes, differ and have one digest.
pub verify_one_root :
    (hex : TextCodec) (sha : Sha256) (fips : Fips) (cert : SubkeyCert) (ml slh ml' slh' : Bytes)
    (as_of as_of' : Option ℕ) (keys keys' : SubkeyPublicKeys)
    → verify hex sha fips cert ml slh as_of ≡ ok keys
    → verify hex sha fips cert ml' slh' as_of' ≡ ok keys'
    → ((ml ≡ ml') × (slh ≡ slh'))
      ⊎ ((v : Bytes) × (v' : Bytes) × (canonical_payload {E = Error} ml slh ≡ ok v)
          × (canonical_payload {E = Error} ml' slh' ≡ ok v')
          × Collides sha v v')
verify_one_root hex sha fips cert ml slh ml' slh' as_of as_of' keys keys' h h' =
    let a = (cert_verify_iff hex sha fips cert ml slh as_of keys).0 h in
    let a' = (cert_verify_iff hex sha fips cert ml' slh' as_of' keys').0 h' in
    root_binding-injective sha ml slh ml' slh' a.of_root
      (a'.of_root ∙ ap ok (ok-injective _ (sym a'.binding_hex ∙ a.binding_hex)))
