-- ===== src/Ots/Confirmed.antt =====
-- crates/pq-ots/src/lib.rs: the loop of `verify` that asks the header source for each attestation.
use pq_enclave_binding.Base.{
  ℕ, ◌≡◌, ◌≢◌, refl, sym, ◌∙◌, ap, arith, not, List, [], ◌∷◌, map, Bytes, String, All, ok, err,
  >>=-eq-ok, ok-injective, map_err, map_err-eq-ok, fail_if, fail_unless-eq-ok, bytes_eq,
  bytes_eq→eq, bytes_eq_refl,
}
use pq_enclave_binding.External.{TextCodec}
use pq_enclave_binding.Ots.{
  OtsError, digest_mismatch, merkle_root_mismatch, not_anchored, header_source, BitcoinHeaderSource,
  BitcoinAnchor, check_anchors,
}
use pq_enclave_binding.Ots.Collected.{Holds}

abbrev pub anchor_of : ℕ × Bytes → BitcoinAnchor
anchor_of (h, c) = record { height = h; merkle_root = c }

anchors_eq :
    (height : ℕ) (c actual : Bytes) (xs ys : List BitcoinAnchor)
    → c ≡ actual
    → xs ≡ ys
    → record { height = height; merkle_root = actual } ∷ xs
      ≡ record { height = height; merkle_root = c } ∷ ys
anchors_eq height c actual xs ys e k =
    ap (λ a. record { height = height; merkle_root = a } ∷ xs) (sym e)
    ∙ ap (λ zs. record { height = height; merkle_root = c } ∷ zs) k

-- The headers have the committed roots.
abbrev pub Matches : BitcoinHeaderSource → ℕ → Bytes → Type 0
Matches source h c = source.merkle_root h ≡ ok c

module _ (hex : TextCodec) (source : BitcoinHeaderSource) where
  pub check_anchors-eq-ok :
      (found : List (ℕ × Bytes)) (anchors : List BitcoinAnchor)
      → check_anchors hex source found ≡ ok anchors
      → All (Holds (Matches source)) found × (anchors ≡ map anchor_of found)
  unfolding check_anchors
  check_anchors-eq-ok [] anchors h = (tt, sym (ok-injective OtsError h))
  check_anchors-eq-ok ((height, committed) ∷ rest) anchors h =
      let (actual, e₁, k₁) = >>=-eq-ok (map_err header_source (source.merkle_root height)) _ h in
      let (_, e₂, k₂) =
        >>=-eq-ok
          (fail_if (not (bytes_eq committed actual))
            (merkle_root_mismatch height (hex.encode committed) (hex.encode actual)))
          _ k₁ in
      let (more, e₃, k₃) = >>=-eq-ok (check_anchors hex source rest) _ k₂ in
      let same = bytes_eq→eq committed actual (
        fail_unless-eq-ok _ (merkle_root_mismatch height (hex.encode committed) (hex.encode actual))
          e₂) in
      let (all, listed) = check_anchors-eq-ok rest more e₃ in
      (
        (map_err-eq-ok header_source (source.merkle_root height) e₁ ∙ ap ok (sym same), all),
        sym (ok-injective OtsError k₃) ∙ anchors_eq height committed actual more _ same listed,
      )

  pub check_anchors_lem :
      (found : List (ℕ × Bytes))
      → All (Holds (Matches source)) found
      → check_anchors hex source found ≡ ok (map anchor_of found)
  unfolding check_anchors
  check_anchors_lem [] all = refl
  check_anchors_lem ((height, committed) ∷ rest) (e, all) =
      rw (e, bytes_eq_refl, check_anchors_lem rest all)

  pub check_anchors-ne-not_anchored :
      (found : List (ℕ × Bytes)) → check_anchors hex source found ≢ err not_anchored
  unfolding check_anchors
  check_anchors-ne-not_anchored [] h = cc
  check_anchors-ne-not_anchored ((height, committed) ∷ rest) h =
      ground (arith, check_anchors-ne-not_anchored rest)

  pub check_anchors-ne-digest_mismatch :
      (found : List (ℕ × Bytes)) (a b : String)
      → check_anchors hex source found ≢ err (digest_mismatch a b)
  unfolding check_anchors
  check_anchors-ne-digest_mismatch [] a b h = cc
  check_anchors-ne-digest_mismatch ((height, committed) ∷ rest) a b h =
      ground (arith, check_anchors-ne-digest_mismatch rest a b)
