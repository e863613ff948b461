-- ===== src/Cli/Commands/Issued.antt =====
-- crates/pq-cli/src/main.rs with crates/pq-ceremony/src/lib.rs: what the commands accept comes from a
-- ceremony.
use pq_enclave_binding.Base.{
  ℕ, ◌+◌, ◌<◌, ◌≡◌, sym, ap, ◌∙◌, arith, Bool, List, [], Option, none, some, map, Bytes, String, ok,
  ok-injective, some-injective, inl, inr, ◌⊎◌, All, IsByte, get, get_elem?, unwrap_or, u32_mod,
}
use pq_enclave_binding.External.{FipsLaws}
use pq_enclave_binding.Merkle.Leaves.{Subkey}
use pq_enclave_binding.Merkle.Empty.{Forged, merkle_root-transfer, verify_membership_sound_of_all}
use pq_enclave_binding.Core.{user_data_commitment}
use pq_enclave_binding.Bundle.{PqRootBundle}
use pq_enclave_binding.Bundle.Tamper.{PayloadsCollide}
use pq_enclave_binding.Enclave.{Nsm}
use pq_enclave_binding.Derive.{Keyfork}
use pq_enclave_binding.Quote.{AttestationDoc}
use pq_enclave_binding.Quote.Extract.{verify_quote_iff}
use pq_enclave_binding.Ceremony.{
  CeremonyError, CeremonyConfig, SubkeyRecord, CeremonyState, run_ceremony,
}
use pq_enclave_binding.Ceremony.Lanes.{get_elem?-Numbered}
use pq_enclave_binding.Ceremony.Ran.{run_ceremony-Ran}
use pq_enclave_binding.Ceremony.Members.{Tree, run_ceremony-Tree, subkey_of, get_elem?-subkey_of}
use pq_enclave_binding.Ceremony.Born.{SameContent, Accepted-SameContent}
use pq_enclave_binding.Cli.{Error, load_bundle}
use pq_enclave_binding.Cli.Commands.{
  World, SubkeyResponse, SubkeyVerdict, Options, check_bundle, verify_subkey,
}
use pq_enclave_binding.Cli.Commands.Nodes.{Nodes, Nodes-All}
use pq_enclave_binding.Cli.Commands.Member.{Checked, claim_of}
use pq_enclave_binding.Cli.Commands.Whole.{check_bundle_iff}
use pq_enclave_binding.Cli.Commands.Verdicts.{verify_subkey_iff}

module _ {Op : Type 0} (w : World Op) (k : Keyfork) (n : Nsm) where
  -- A finished ceremony, with counts whose sum is a `u32`, whose bundle carries the quote.
  pub record Issued (quote : Bytes) : Type 0 where
    pub root_ca_der : Bytes
    pub config : CeremonyConfig
    pub entropy : Bytes
    pub ml_drawn : Bytes
    pub slh_drawn : Bytes
    pub state : CeremonyState k
    pub small : config.auth_count + config.enc_count < u32_mod
    pub finished :
        run_ceremony k w.sha w.fips w.hex w.base64 n root_ca_der config entropy ml_drawn slh_drawn
        ≡ ok state
    pub carried : w.base64.decode state.bundle.nsm_quote ≡ ok quote

  -- What attestation promises under a root certificate, for the PCRs of an audited enclave image:
  -- the library accepts with these PCRs only documents that ceremonies of the image had made, and
  -- an accepted document shows the user data that the module was given. Documents are bytes.
  pub record Genuine (root_der pcr0 pcr1 pcr2 : Bytes) : Type 0 where
    pub issued :
        (quote : Bytes) (at : ℕ) (doc : AttestationDoc)
        → w.from_cose quote root_der at ≡ ok doc
        → get doc.pcrs 0 ≡ some pcr0
        → get doc.pcrs 1 ≡ some pcr1
        → get doc.pcrs 2 ≡ some pcr2
        → Issued quote
    pub faithful :
        (shown quote : Bytes) (at : ℕ) (doc : AttestationDoc)
        → Nsm.attest n shown none none ≡ ok quote
        → w.from_cose quote root_der at ≡ ok doc
        → doc.user_data ≡ some shown
    pub attest-IsByte :
        (shown quote : Bytes) → Nsm.attest n shown none none ≡ ok quote → All IsByte quote

  -- When the check of a bundle passes under a genuine root, and the bundle expects the PCRs of the
  -- audited image and has a `u32` subkey count, its quote comes from a finished ceremony of this
  -- image, and its public keys and Merkle root, decoded, and its subkey count are those that this
  -- ceremony published. Otherwise the payloads of the two bundles differ and have one SHA-256
  -- digest. The signature crates obey their laws.
  pub check_bundle-SameContent :
      (laws : FipsLaws w.fips) (bundle : PqRootBundle) (ots_path root_path : String) (o : Options)
      (x : Bool × Option ℕ) (root_der pcr0 pcr1 pcr2 : Bytes)
      → Genuine root_der pcr0 pcr1 pcr2
      → w.files.read root_path ≡ ok root_der
      → w.hex.decode bundle.expected_pcrs.pcr0 ≡ ok pcr0
      → w.hex.decode bundle.expected_pcrs.pcr1 ≡ ok pcr1
      → w.hex.decode bundle.expected_pcrs.pcr2 ≡ ok pcr2
      → bundle.subkey_count < u32_mod
      → check_bundle w bundle ots_path root_path o ≡ ok x
      → (quote : Bytes) × (i : Issued quote) × (w.base64.decode bundle.nsm_quote ≡ ok quote)
        × (SameContent w.hex bundle i.state.bundle
            ⊎ PayloadsCollide w.hex w.sha bundle i.state.bundle)
  check_bundle-SameContent laws bundle ots_path root_path o x root_der pcr0 pcr1 pcr2 genuine
        root_read expect0 expect1 expect2 count h =
      let c = (check_bundle_iff w bundle ots_path root_path o x).0 h in
      let a = c.accepted in
      let (doc, at, opened, _, _, shows) =
        (verify_quote_iff w.from_cose c.root_der a.d.quote c.instant a.q).0 a.quoted in
      let same_root : c.root_der ≡ root_der = ok-injective String (sym c.root_read ∙ root_read) in
      let opened' = ap (λ r. w.from_cose a.d.quote r at) (sym same_root) ∙ opened in
      let i =
        genuine.issued a.d.quote at doc opened'
          (shows.has_pcr0 ∙ ap some (ok-injective String (sym a.pinned.pcr0_hex ∙ expect0)))
          (shows.has_pcr1 ∙ ap some (ok-injective String (sym a.pinned.pcr1_hex ∙ expect1)))
          (shows.has_pcr2 ∙ ap some (ok-injective String (sym a.pinned.pcr2_hex ∙ expect2))) in
      let p =
        run_ceremony-Ran k w.sha w.fips w.hex w.base64 n i.root_ca_der i.config i.entropy i.ml_drawn
          i.slh_drawn i.state i.finished in
      let bytes = genuine.attest-IsByte (user_data_commitment w.sha p.payload) p.quote p.attested in
      let published = sym (ap (λ s. CeremonyState.bundle s) p.made) in
      let same_quote : p.quote ≡ a.d.quote = ok-injective String (
        sym (w.base64.decode-encode p.quote bytes)
        ∙ sym (ap (λ b. w.base64.decode (PqRootBundle.nsm_quote b)) published)
        ∙ i.carried) in
      let user_data =
        genuine.faithful (user_data_commitment w.sha p.payload) a.d.quote at doc
          (p.attested ∙ ap ok same_quote) opened' in
      (
        a.d.quote,
        i,
        a.decodes.quote_base64,
        Accepted-SameContent k w.sha w.fips w.hex w.base64 laws i.config i.state bundle i.small
            count p a (shows.has_user_data ∙ ap (λ d. unwrap_or d []) user_data),
      )

  -- The record of a ceremony that a response is of.
  abbrev pub IsRecord : List SubkeyRecord → SubkeyResponse → Type 0
  IsRecord rs sk =
      (r : SubkeyRecord) × (get_elem? rs sk.index ≡ some r)
      × (sk.purpose_tag ≡ r.purpose_tag)
      × (w.hex.decode sk.ml_dsa_pk ≡ ok r.ml_dsa_pk)
      × (w.hex.decode sk.slh_dsa_pk ≡ ok r.slh_dsa_pk)

  -- The decoded claim and path of a response are forged against the records of a ceremony.
  abbrev pub ForgedRecord : List SubkeyRecord → SubkeyResponse → Type 0
  ForgedRecord rs sk =
      (ml_pk : Bytes) × (slh_pk : Bytes) × (siblings : List Bytes) × (w.hex.decode sk.ml_dsa_pk
        ≡ ok ml_pk)
      × (w.hex.decode sk.slh_dsa_pk ≡ ok slh_pk)
      × Nodes w sk.merkle_proof siblings
      × Forged w.sha (map subkey_of rs) (claim_of sk ml_pk slh_pk) siblings

  Checked-IsRecord :
      (state : CeremonyState k) (bundle : PqRootBundle) (sk : SubkeyResponse)
      (message_hex : Option String)
      → Tree k w.sha w.fips w.hex w.base64 state
      → SameContent w.hex bundle state.bundle
      → sk.index < u32_mod
      → sk.purpose_tag < 256
      → Checked w bundle sk message_hex
      → IsRecord state.subkeys sk ⊎ ForgedRecord state.subkeys sk
  Checked-IsRecord state bundle sk message_hex t same index purpose c =
      let same_root : t.root ≡ c.root =
        ok-injective String (sym t.root_hex ∙ sym same.subkey_merkle_root ∙ c.root_hex) in
      let rooted = merkle_root-transfer w.sha CeremonyError Error _ t.rooted in
      elim (verify_membership_sound_of_all w.sha Error (map subkey_of state.subkeys)
        (claim_of sk c.ml_pk c.slh_pk) c.root c.siblings t.fits index purpose
        (Nodes-All w sk.merkle_proof c.siblings c.nodes) (rooted ∙ ap ok same_root) c.member) [
          | inl (i, at) ↦
              let (r, there, is_claim) = get_elem?-subkey_of state.subkeys i at in
              let numbered =
                (get_elem?-Numbered w.sha 0 state.subkeys state.leaves i t.numbered there).0 in
              let at_index : i ≡ sk.index = omega (arith, numbered, ap Subkey.position is_claim) in
              inl (
                r,
                ap (get_elem? state.subkeys) (sym at_index) ∙ there,
                sym (ap Subkey.purpose_tag is_claim),
                c.ml_hex ∙ ap ok (sym (ap Subkey.ml_dsa_pk is_claim)),
                c.slh_hex ∙ ap ok (sym (ap Subkey.slh_dsa_pk is_claim)),
              )
          | inr forged ↦ inr (c.ml_pk, c.slh_pk, c.siblings, c.ml_hex, c.slh_hex, c.nodes, forged)
        ]

  -- `verify-subkey` with a proof file and a genuine root accepts only subkeys of a ceremony: if it
  -- succeeds on a bundle that expects the PCRs of the audited image, then the bundle's quote comes
  -- from a finished ceremony of this image, and at the response's index this ceremony derived a
  -- subkey of that purpose with those two public keys. Otherwise two texts that were hashed differ
  -- and have one digest, a text that the check of the decoded path hashes and one that the tree of
  -- the ceremony's subkeys hashed, or the payloads of the two bundles; or the ceremony had no subkey
  -- and the check hashed a text with the zero digest. The subkey count, the index and the purpose
  -- are within their Rust types, and the signature crates obey their laws.
  pub verify_subkey-IsRecord :
      (laws : FipsLaws w.fips) (bundle_path subkey_path : String) (message_hex : Option String)
      (ots_path root_path : String) (o : Options) (v : SubkeyVerdict) (bundle : PqRootBundle)
      (raw : String) (sk : SubkeyResponse) (root_der pcr0 pcr1 pcr2 : Bytes)
      → Genuine root_der pcr0 pcr1 pcr2
      → load_bundle w.bundle_json w.files bundle_path ≡ ok bundle
      → w.files.read_to_string subkey_path ≡ ok raw
      → w.subkey_json.from_str raw ≡ ok sk
      → w.files.read root_path ≡ ok root_der
      → w.hex.decode bundle.expected_pcrs.pcr0 ≡ ok pcr0
      → w.hex.decode bundle.expected_pcrs.pcr1 ≡ ok pcr1
      → w.hex.decode bundle.expected_pcrs.pcr2 ≡ ok pcr2
      → bundle.subkey_count < u32_mod
      → sk.index < u32_mod
      → sk.purpose_tag < 256
      → verify_subkey w bundle_path subkey_path message_hex (some ots_path) (some root_path) o
        ≡ ok v
      → (quote : Bytes) × (i : Issued quote) × (w.base64.decode bundle.nsm_quote ≡ ok quote)
        × (IsRecord i.state.subkeys sk
            ⊎ (ForgedRecord i.state.subkeys sk ⊎ PayloadsCollide w.hex w.sha bundle i.state.bundle))
  verify_subkey-IsRecord laws bundle_path subkey_path message_hex ots_path root_path o v bundle raw
        sk root_der pcr0 pcr1 pcr2 genuine loaded read parsed root_read expect0 expect1 expect2
        count index purpose h =
      let (b, raw', s, x, loaded', read', parsed', (path, given, checked), c, _) =
        (verify_subkey_iff w bundle_path subkey_path message_hex (some ots_path) (some root_path) o
            v).0
          h in
      let same_path : path ≡ root_path = sym (some-injective _ _ given) in
      let same_bundle : b ≡ bundle = ok-injective Error (sym loaded' ∙ loaded) in
      let same_raw : raw' ≡ raw = ok-injective String (sym read' ∙ read) in
      let same_sk : s ≡ sk =
        ok-injective String (sym parsed' ∙ ap w.subkey_json.from_str same_raw ∙ parsed) in
      let checked' : check_bundle w bundle ots_path root_path o ≡ ok x =
        rw (same_path, same_bundle) at checked in
      let c' : Checked w bundle sk message_hex = rw (same_bundle, same_sk) at c in
      let (quote, i, quoted, content) =
        check_bundle-SameContent laws bundle ots_path root_path o x root_der pcr0 pcr1 pcr2 genuine
          root_read expect0 expect1 expect2 count checked' in
      let t =
        run_ceremony-Tree k w.sha w.fips w.hex w.base64 n i.root_ca_der i.config i.entropy
          i.ml_drawn i.slh_drawn i.state i.small i.finished in
      (
        quote,
        i,
        quoted,
        elim content [
          | inl same ↦
              elim (Checked-IsRecord i.state bundle sk message_hex t same index purpose c') [
                | inl issued ↦ inl issued
                | inr forged ↦ inr (inl forged)
              ]
          | inr clash ↦ inr (inr clash)
        ],
      )
