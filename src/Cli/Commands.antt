-- ===== src/Cli/Commands.antt =====
-- crates/pq-cli/src/main.rs: the commands `inspect`, `verify`, `stamp` and `verify-subkey`, from their options
-- to the verdict that they print. Paths are texts.
pub mod Stamping
pub mod Nodes
pub mod Member
pub mod Verdicts
pub mod Served
pub mod Whole
pub mod Issued
pub mod EndToEnd
pub mod Stamped
use pq_enclave_binding.Base.{
  ℕ, Bool, true, false, not, List, [], ◌∷◌, Option, none, some, Bytes, String, ◌<>◌, Outcome, ok,
  err, panic, ◌>>=◌, ◌>>◌, map_err, expect, ok_or, fail_if, length, ◌==◌, if◌then◌else◌,
}
use pq_enclave_binding.External.{Sha256, TextCodec, Json, Fips}
use pq_enclave_binding.Merkle.{verify_membership}
use pq_enclave_binding.Core.{verify_dual}
use pq_enclave_binding.Bundle.{PqRootBundle}
use pq_enclave_binding.Ots
use pq_enclave_binding.Ots.{OtsCodec, OtsError}
use pq_enclave_binding.Ots.Http
use pq_enclave_binding.Ots.Http.{Ureq, HttpCalendar}
use pq_enclave_binding.Quote.{FromCose}
use pq_enclave_binding.Cli.{
  Error, context, plain, sources_exclusive, root_required, subkey_root_not_32_bytes, proof_node,
  not_a_member, no_signatures, authenticity, all_calendars_failed, no_calendars, Files, BlockInfo,
  HeaderSource, source_of, load_header_file, bundle_digest, load_bundle,
}
use pq_enclave_binding.Cli.Steps.{verify_bundle_steps}

-- What `verify` prints at its end: a pending proof, or the anchor's block.
pub data Verdict : Type 0 where
  partial : Verdict
  verified : ℕ → Verdict

-- What `verify-subkey` prints at its end. Without `--ots` no bundle check has run.
pub data SubkeyVerdict : Type 0 where
  partial : SubkeyVerdict
  verified : Option ℕ → SubkeyVerdict
  verified_membership : SubkeyVerdict

pub record SubkeyResponse : Type 0 where
  pub index : ℕ
  pub purpose_tag : ℕ
  pub ml_dsa_pk : String
  pub slh_dsa_pk : String
  pub ml_dsa_sig : Option String
  pub slh_dsa_sig : Option String
  pub merkle_proof : List String

-- The options that `verify` and `verify-subkey` share.
pub record Options : Type 0 where
  pub headers : Option String
  pub esplora : Option String
  pub quote_time_unix : Option ℕ

-- `headers.is_some() || esplora.is_some()`
unfoldable pub source_given : Option String → Option String → Bool
source_given none none = false
source_given none (some url) = true
source_given (some path) esplora = true

-- What the commands call besides: the crates, the files, the network and the clock.
pub record World (Op : Type 0) : Type 1 where
  pub hex : TextCodec
  pub base64 : TextCodec
  pub sha : Sha256
  pub fips : Fips
  pub from_cose : FromCose
  pub crate : OtsCodec Op
  pub ureq : Ureq
  pub files : Files
  pub now : ℕ
  pub bundle_json : Json PqRootBundle
  pub headers_json : Json (List (ℕ × BlockInfo))
  pub subkey_json : Json SubkeyResponse

module _ {Op : Type 0} (w : World Op) where
  unfoldable pub choose_source : Option String → Option String → Outcome Error HeaderSource
  unfolding load_header_file
  choose_source (some path) (some url) = err sources_exclusive
  choose_source (some path) none = load_header_file w.hex w.headers_json w.files path
  choose_source none (some url) = ok (HeaderSource.esplora (record { base_url = url }))
  choose_source none none = ok (HeaderSource.map [] [])

  -- What `inspect` works out: the lengths of both keys and of the quote, and the digest.
  unfoldable pub cmd_inspect : String → Outcome Error (ℕ × ℕ × ℕ × String)
  unfolding load_bundle bundle_digest
  cmd_inspect path = do
    bundle ← load_bundle w.bundle_json w.files path
    ml ← map_err (context "ml_dsa_pk hex") (w.hex.decode bundle.ml_dsa_pk)
    slh ← map_err (context "slh_dsa_pk hex") (w.hex.decode bundle.slh_dsa_pk)
    quote ← map_err (context "nsm_quote base64") (w.base64.decode bundle.nsm_quote)
    digest ← bundle_digest w.sha w.bundle_json bundle
    ok (length ml, length slh, length quote, w.hex.encode digest)

  -- From the loaded bundle on: whether the proof is pending, and the anchor's height.
  unfoldable pub check_bundle :
      PqRootBundle → String → String → Options → Outcome Error (Bool × Option ℕ)
  unfolding bundle_digest choose_source source_of verify_bundle_steps source_given
  check_bundle bundle ots_path root_path o = do
    ots_bytes ← map_err (context ("reading ots " <> ots_path)) (w.files.read ots_path)
    root_der ← map_err (context ("reading root CA " <> root_path)) (w.files.read root_path)
    digest ← bundle_digest w.sha w.bundle_json bundle
    source ← choose_source o.headers o.esplora
    (pending, _, anchor_height, _) ←
        verify_bundle_steps w.hex w.base64 w.sha w.bundle_json w.fips w.from_cose w.crate w.now
          bundle ots_bytes digest root_der (source_of w.ureq w.hex source)
          (source_given o.headers o.esplora) o.quote_time_unix
    ok (pending, anchor_height)

  unfoldable pub cmd_verify : String → String → String → Options → Outcome Error Verdict
  unfolding load_bundle check_bundle
  cmd_verify bundle_path ots_path root_path o = do
    bundle ← load_bundle w.bundle_json w.files bundle_path
    (pending, anchor_height) ← check_bundle bundle ots_path root_path o
    let anchored = (do height ← expect anchor_height; ok (verified height))
    if pending then ok partial else anchored

  unfoldable pub stamp_via : Bytes → String → Outcome OtsError Bytes
  unfolding Ots.stamp Http.submit
  stamp_via digest url = Ots.stamp w.crate digest (Http.submit w.ureq (record { base_url = url }))

  -- The loop over the calendars: the URL and the proof that is written to `out`.
  unfoldable pub try_calendars :
      Bytes → String → List String → Option OtsError → Outcome Error (String × Bytes)
  unfolding stamp_via
  try_calendars digest out [] none = err no_calendars
  try_calendars digest out [] (some e) = err (all_calendars_failed e)
  try_calendars digest out (url ∷ rest) last_err = elim (stamp_via digest url) [
    | ok proof ↦ (do
      map_err (context ("writing proof " <> out)) (w.files.write out proof)
      ok (url, proof))
    | err e ↦ try_calendars digest out rest (some e)
    | panic ↦ panic
  ]

  unfoldable pub cmd_stamp : String → String → List String → Outcome Error (String × Bytes)
  unfolding load_bundle bundle_digest try_calendars
  cmd_stamp bundle_path out calendars = do
    bundle ← load_bundle w.bundle_json w.files bundle_path
    digest ← bundle_digest w.sha w.bundle_json bundle
    try_calendars digest out calendars none

  unfoldable pub decode_node : String → Outcome Error Bytes
  decode_node h = elim (w.hex.decode h) [
    | ok b ↦ if length b == 32 then ok b else err proof_node
    | err e ↦ err proof_node
    | panic ↦ panic
  ]

  unfoldable pub decode_nodes : List String → Outcome Error (List Bytes)
  unfolding decode_node
  decode_nodes [] = ok []
  decode_nodes (h ∷ rest) = do node ← decode_node h; nodes ← decode_nodes rest; ok (node ∷ nodes)

  -- `let (Some(ml_sig), Some(slh_sig)) = … else`
  unfoldable pub both_signatures : Option String → Option String → Outcome Error (String × String)
  both_signatures (some ml) (some slh) = ok (ml, slh)
  both_signatures (some ml) none = err no_signatures
  both_signatures none slh = err no_signatures

  unfoldable pub check_message :
      SubkeyResponse → Bytes → Bytes → Option String → Outcome Error (Unit {0})
  unfolding both_signatures
  check_message sk ml_pk slh_pk none = ok tt
  check_message sk ml_pk slh_pk (some message_hex) = do
    msg ← map_err (context "--message-hex") (w.hex.decode message_hex)
    (ml_sig, slh_sig) ← both_signatures sk.ml_dsa_sig sk.slh_dsa_sig
    ml ← map_err (context "ml_dsa_sig") (w.hex.decode ml_sig)
    slh ← map_err (context "slh_dsa_sig") (w.hex.decode slh_sig)
    map_err authenticity
        (verify_dual w.fips ml_pk slh_pk msg (record { ml_dsa = ml; slh_dsa = slh }))

  -- Membership in the bundle's set, and the signature over a message if one is given.
  unfoldable pub check_subkey :
      PqRootBundle → SubkeyResponse → Option String → Outcome Error (Unit {0})
  unfolding decode_nodes check_message
  check_subkey bundle sk message_hex = do
    root ←
        map_err (context "decoding bundle.subkey_merkle_root")
          (w.hex.decode bundle.subkey_merkle_root)
    fail_if (not (length root == 32)) subkey_root_not_32_bytes
    ml_pk ← map_err (context "subkey ml_dsa_pk") (w.hex.decode sk.ml_dsa_pk)
    slh_pk ← map_err (context "subkey slh_dsa_pk") (w.hex.decode sk.slh_dsa_pk)
    siblings ← decode_nodes sk.merkle_proof
    member ← verify_membership w.sha root sk.index sk.purpose_tag ml_pk slh_pk siblings
    fail_if (not member) (not_a_member sk.index)
    check_message sk ml_pk slh_pk message_hex

  -- `if let Some(ots_p) = ots_path`
  unfoldable pub check_provenance :
      PqRootBundle → Option String → Option String → Options → Outcome Error (Bool × Option ℕ)
  unfolding check_bundle
  check_provenance bundle none root_path o = ok (false, none)
  check_provenance bundle (some ots_path) root_path o = do
    root_path ← ok_or root_path root_required
    check_bundle bundle ots_path root_path o

  abbrev pub subkey_verdict : Bool → Option String → Option ℕ → SubkeyVerdict
  subkey_verdict true ots_path height = SubkeyVerdict.partial
  subkey_verdict false (some ots_path) height = SubkeyVerdict.verified height
  subkey_verdict false none height = verified_membership

  unfoldable pub verify_subkey :
      String
      → String
      → Option String
      → Option String
      → Option String
      → Options
      → Outcome Error SubkeyVerdict
  unfolding load_bundle check_provenance check_subkey
  verify_subkey bundle_path subkey_path message_hex ots_path root_path o = do
    bundle ← load_bundle w.bundle_json w.files bundle_path
    raw ← map_err plain (w.files.read_to_string subkey_path)
    sk ← map_err plain (w.subkey_json.from_str raw)
    (pending, anchor_height) ← check_provenance bundle ots_path root_path o
    check_subkey bundle sk message_hex
    ok (subkey_verdict pending ots_path anchor_height)
