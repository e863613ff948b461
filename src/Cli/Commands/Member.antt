-- ===== src/Cli/Commands/Member.antt =====
-- crates/pq-cli/src/main.rs: what `verify-subkey` establishes of a subkey.
use pq_enclave_binding.Base.{
  ℕ, ◌<◌, ◌≡◌, ◌↔◌, ◌⊎◌, inl, inr, refl, sym, ap, ◌∙◌, true, not, List, ◌∷◌, Option, none, some,
  Bytes, String, ok, >>=-eq-ok, ok-injective, map_err, map_err-eq-ok, fail_if, fail_unless-eq-ok,
  length, ◌==◌, ==_iff, All, get_elem?, u32_mod,
}
use pq_enclave_binding.Merkle.{merkle_root, verify_membership}
use pq_enclave_binding.Merkle.Leaves.{Subkey, Fits}
use pq_enclave_binding.Merkle.Soundness.{
  hashes, verifier_texts, tree_texts, verify_membership_sound,
}
use pq_enclave_binding.Merkle.Texts.{CollisionIn}
use pq_enclave_binding.Core.Signing.{Verifies, verify_dual_iff}
use pq_enclave_binding.Bundle.{PqRootBundle}
use pq_enclave_binding.Cli.{Error, context, subkey_root_not_32_bytes, not_a_member, authenticity}
use pq_enclave_binding.Cli.Commands.{
  World, SubkeyResponse, decode_nodes, both_signatures, check_message, check_subkey,
}
use pq_enclave_binding.Cli.Commands.Nodes.{Nodes, decode_nodes-Nodes, Nodes-decode_nodes, Nodes-All}

-- The subkey that a response claims, with its keys decoded.
abbrev pub claim_of : SubkeyResponse → Bytes → Bytes → Subkey
claim_of sk ml_pk slh_pk = record {
  position = sk.index;
  purpose_tag = sk.purpose_tag;
  ml_dsa_pk = ml_pk;
  slh_dsa_pk = slh_pk;
}

module _ {Op : Type 0} (w : World Op) where
  -- A message, if one is given, is signed by both keys of the subkey.
  abbrev pub SignedBy : SubkeyResponse → Bytes → Bytes → Option String → Type 0
  SignedBy sk ml_pk slh_pk none = Unit
  SignedBy sk ml_pk slh_pk (some message_hex) =
      (msg : Bytes) × (ml_text : String) × (slh_text : String) × (ml : Bytes) × (slh : Bytes)
      × (w.hex.decode message_hex ≡ ok msg)
      × (sk.ml_dsa_sig ≡ some ml_text)
      × (sk.slh_dsa_sig ≡ some slh_text)
      × (w.hex.decode ml_text ≡ ok ml)
      × (w.hex.decode slh_text ≡ ok slh)
      × Verifies w.fips.ml_dsa ml_pk msg ml
      × Verifies w.fips.slh_dsa slh_pk msg slh

  both_signatures-eq-ok :
      (ml slh : Option String) (x : String × String)
      → both_signatures w ml slh ≡ ok x
      → (ml ≡ some x.0) × (slh ≡ some x.1)
  unfolding both_signatures
  both_signatures-eq-ok (some ml) (some slh) x h =
      let same = ok-injective Error h in (ap (λ p. some p.0) same, ap (λ p. some p.1) same)
  both_signatures-eq-ok (some ml) none x h = absurd (cc h)
  both_signatures-eq-ok none slh x h = absurd (cc h)

  check_message_iff :
      (sk : SubkeyResponse) (ml_pk slh_pk : Bytes) (message_hex : Option String)
      → (check_message w sk ml_pk slh_pk message_hex ≡ ok tt) ↔ SignedBy sk ml_pk slh_pk message_hex
  unfolding check_message
  check_message_iff sk ml_pk slh_pk none = (λ h. tt, λ s. refl)
  check_message_iff sk ml_pk slh_pk (some message_hex) = (
    λ h.
        let (msg, e₁, h₁) =
          >>=-eq-ok (map_err (context "--message-hex") (w.hex.decode message_hex)) _ h in
        let (x, e₂, h₂) = >>=-eq-ok (both_signatures w sk.ml_dsa_sig sk.slh_dsa_sig) _ h₁ in
        let (ml, e₃, h₃) = >>=-eq-ok (map_err (context "ml_dsa_sig") (w.hex.decode x.0)) _ h₂ in
        let (slh, e₄, h₄) = >>=-eq-ok (map_err (context "slh_dsa_sig") (w.hex.decode x.1)) _ h₃ in
        let (first, second) = both_signatures-eq-ok sk.ml_dsa_sig sk.slh_dsa_sig x e₂ in
        let (a, b) =
          (verify_dual_iff w.fips ml_pk slh_pk msg (record { ml_dsa = ml; slh_dsa = slh })).0
            (map_err-eq-ok authenticity _ h₄) in
        (
          msg,
          x.0,
          x.1,
          ml,
          slh,
          map_err-eq-ok _ (w.hex.decode message_hex) e₁,
          first,
          second,
          map_err-eq-ok _ (w.hex.decode x.0) e₃,
          map_err-eq-ok _ (w.hex.decode x.1) e₄,
          a,
          b,
        ),
    λ (msg, ml_text, slh_text, ml, slh, e₁, first, second, e₃, e₄, a, b).
        let good =
          (verify_dual_iff w.fips ml_pk slh_pk msg (record { ml_dsa = ml; slh_dsa = slh })).1
            (a, b) in
        rw (e₁, first, second, both_signatures, e₃, e₄, good),
  )

  -- What an accepting check of a subkey against a bundle has established.
  pub record Checked (bundle : PqRootBundle) (sk : SubkeyResponse) (message_hex : Option String)
      : Type 0 where
    pub root : Bytes
    pub ml_pk : Bytes
    pub slh_pk : Bytes
    pub siblings : List Bytes
    pub root_hex : w.hex.decode bundle.subkey_merkle_root ≡ ok root
    pub root_size : length root ≡ 32
    pub ml_hex : w.hex.decode sk.ml_dsa_pk ≡ ok ml_pk
    pub slh_hex : w.hex.decode sk.slh_dsa_pk ≡ ok slh_pk
    pub nodes : Nodes w sk.merkle_proof siblings
    pub member :
        verify_membership w.sha {E = Error} root sk.index sk.purpose_tag ml_pk slh_pk siblings
        ≡ ok true
    pub signed : SignedBy sk ml_pk slh_pk message_hex

  -- The subkey checks of `verify-subkey` pass exactly if the bundle's Merkle root is 32 bytes in
  -- hexadecimal, keys and proof nodes decode, `verify_membership` accepts them, and for a message
  -- that is given, the response has both signatures and they verify over it under these keys.
  pub check_subkey_iff :
      (bundle : PqRootBundle) (sk : SubkeyResponse) (message_hex : Option String)
      → (check_subkey w bundle sk message_hex ≡ ok tt) ↔ Checked bundle sk message_hex
  unfolding check_subkey
  check_subkey_iff bundle sk message_hex = (
    λ h.
        let (root, e₁, h₁) =
          >>=-eq-ok
            (map_err (context "decoding bundle.subkey_merkle_root")
              (w.hex.decode bundle.subkey_merkle_root))
            _ h in
        let (_, e₂, h₂) =
          >>=-eq-ok (fail_if (not (length root == 32)) subkey_root_not_32_bytes) _ h₁ in
        let (ml, e₃, h₃) =
          >>=-eq-ok (map_err (context "subkey ml_dsa_pk") (w.hex.decode sk.ml_dsa_pk)) _ h₂ in
        let (slh, e₄, h₄) =
          >>=-eq-ok (map_err (context "subkey slh_dsa_pk") (w.hex.decode sk.slh_dsa_pk)) _ h₃ in
        let (siblings, e₅, h₅) = >>=-eq-ok (decode_nodes w sk.merkle_proof) _ h₄ in
        let (member, e₆, h₆) =
          >>=-eq-ok (verify_membership w.sha root sk.index sk.purpose_tag ml slh siblings) _ h₅ in
        let (_, e₇, h₇) = >>=-eq-ok (fail_if (not member) (not_a_member sk.index)) _ h₆ in
        record {
          root = root;
          ml_pk = ml;
          slh_pk = slh;
          siblings = siblings;
          root_hex = map_err-eq-ok _ (w.hex.decode bundle.subkey_merkle_root) e₁;
          root_size = (==_iff _ _).0 (fail_unless-eq-ok _ subkey_root_not_32_bytes e₂);
          ml_hex = map_err-eq-ok _ (w.hex.decode sk.ml_dsa_pk) e₃;
          slh_hex = map_err-eq-ok _ (w.hex.decode sk.slh_dsa_pk) e₄;
          nodes = decode_nodes-Nodes w sk.merkle_proof siblings e₅;
          member = e₆ ∙ ap ok (fail_unless-eq-ok member (not_a_member sk.index) e₇);
          signed = (check_message_iff sk ml slh message_hex).0 h₇;
        },
    λ c. rw (
      c.root_hex,
      (==_iff _ _).1 c.root_size,
      c.ml_hex,
      c.slh_hex,
      Nodes-decode_nodes w sk.merkle_proof c.siblings c.nodes,
      c.member,
      (check_message_iff sk c.ml_pk c.slh_pk message_hex).1 c.signed,
    ),
  )

  -- Against a bundle whose root is the Merkle root of a non-empty list of subkeys, the checks pass
  -- only for a response whose index, purpose tag and public keys are those of a subkey of the
  -- list. Otherwise a text that the check of the response's decoded path hashes and a different
  -- text that the tree of the list hashed have one digest.
  pub check_subkey_sound :
      (bundle : PqRootBundle) (sk : SubkeyResponse) (message_hex : Option String) (first : Subkey)
      (rest : List Subkey) (root ml_pk slh_pk : Bytes)
      → All Fits (first ∷ rest)
      → sk.index < u32_mod
      → sk.purpose_tag < 256
      → w.hex.decode bundle.subkey_merkle_root ≡ ok root
      → merkle_root w.sha {E = Error} (hashes w.sha (first ∷ rest)) ≡ ok root
      → w.hex.decode sk.ml_dsa_pk ≡ ok ml_pk
      → w.hex.decode sk.slh_dsa_pk ≡ ok slh_pk
      → check_subkey w bundle sk message_hex ≡ ok tt
      → ((i : ℕ) × (get_elem? (first ∷ rest) i ≡ some (claim_of sk ml_pk slh_pk)))
        ⊎ ((siblings : List Bytes) × Nodes w sk.merkle_proof siblings
            × CollisionIn w.sha
                (verifier_texts w.sha (claim_of sk ml_pk slh_pk) siblings)
                (tree_texts w.sha (first ∷ rest)))
  check_subkey_sound bundle sk message_hex first rest root ml_pk slh_pk fits index purpose root_hex
        made ml_hex slh_hex h =
      let c = (check_subkey_iff bundle sk message_hex).0 h in
      let same_root : root ≡ c.root = ok-injective String (sym root_hex ∙ c.root_hex) in
      let same_ml : ml_pk ≡ c.ml_pk = ok-injective String (sym ml_hex ∙ c.ml_hex) in
      let same_slh : slh_pk ≡ c.slh_pk = ok-injective String (sym slh_hex ∙ c.slh_hex) in
      elim (verify_membership_sound w.sha Error first rest (claim_of sk ml_pk slh_pk) root
        c.siblings fits index purpose (Nodes-All w sk.merkle_proof c.siblings c.nodes) made
        (rw (same_root, same_ml, same_slh) c.member)) [
          | inl found ↦ inl found
          | inr clash ↦ inr (c.siblings, c.nodes, clash)
        ]
