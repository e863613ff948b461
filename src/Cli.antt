-- ===== src/Cli.antt =====
-- crates/pq-cli/src/main.rs: the data of the command line, its Bitcoin header sources, and the
-- helpers that the commands share. An `anyhow` error is a constructor with what its message shows.
pub mod Sources
pub mod Steps
pub mod Commands
pub mod Run
use pq_enclave_binding.Base.{
  ℕ, Bool, not, List, [], ◌∷◌, Option, none, some, Bytes, String, as_bytes, Outcome, ok, err, ◌>>=◌,
  ◌>>◌, map_err, ok_or, fail_if, length, ◌==◌, ◌<>◌, display, is_empty, get, insert,
}
use pq_enclave_binding.External.{Sha256, TextCodec, Json}
use pq_enclave_binding.Core
use pq_enclave_binding.Bundle
use pq_enclave_binding.Bundle.{PqRootBundle, TimestampVerifier}
use pq_enclave_binding.Ots
use pq_enclave_binding.Ots.{OtsCodec, OtsError, BitcoinHeaderSource, BitcoinAnchor, ots_message}
use pq_enclave_binding.Ots.Http
use pq_enclave_binding.Ots.Http.{Ureq, EsploraHeaderSource}

pub data Error : Type 0 where
  -- A context and the error under it; the files and the codecs are other crates'.
  context : String → String → Error
  plain : String → Error
  -- The context of a header's height.
  bad_root_hex : ℕ → String → Error
  root_not_32_bytes : ℕ → Error
  bundle_context : String → Bundle.Error → Error
  header_source_missing : Error
  sources_exclusive : Error
  block_time : String → Error
  -- Height, block time, override, and their distance.
  override_disagrees : ℕ → ℕ → ℕ → ℕ → Error
  no_block_time : ℕ → Error
  timestamp : OtsError → Error
  root_ca_mismatch : String → String → Error
  older_ceremony : Error
  unknown_commitment : Error
  root_required : Error
  subkey_root_not_32_bytes : Error
  proof_node : Error
  not_a_member : ℕ → Error
  no_signatures : Error
  authenticity : Core.Error → Error
  all_calendars_failed : OtsError → Error
  no_calendars : Error

-- The reads and the write of files, by their paths.
pub record Files : Type 0 where
  pub read : String → Outcome String Bytes
  pub read_to_string : String → Outcome String String
  pub write : String → Bytes → Outcome String (Unit {0})

pub record BlockInfo : Type 0 where
  pub merkle_root : String
  pub time : Option ℕ

pub data HeaderSource : Type 0 where
  map : List (ℕ × Bytes) → List (ℕ × ℕ) → HeaderSource
  esplora : EsploraHeaderSource → HeaderSource

-- `HeaderSource`'s two methods.
unfoldable pub source_of : Ureq → TextCodec → HeaderSource → BitcoinHeaderSource
unfolding display
source_of ureq hex (map roots times) = record {
  merkle_root = λ height.
      ok_or (get roots height) ("no block at height " <> (display height <> " in header file"));
  block_time = λ height. ok (get times height);
}
source_of ureq hex (esplora e) = Http.header_source ureq hex e

-- `if let Some(t) = info.time`
unfoldable pub note_time : ℕ → Option ℕ → List (ℕ × ℕ) → List (ℕ × ℕ)
unfolding insert
note_time height none times = times
note_time height (some t) times = insert height t times

-- The loop over the entries of a header file.
unfoldable pub load_entries :
    TextCodec → List (ℕ × BlockInfo) → List (ℕ × Bytes) → List (ℕ × ℕ) → Outcome Error HeaderSource
unfolding insert note_time
load_entries hex [] roots times = ok (map roots times)
load_entries hex ((height, info) ∷ rest) roots times = do
  bytes ← map_err (bad_root_hex height) (hex.decode info.merkle_root)
  fail_if (not (length bytes == 32)) (root_not_32_bytes height)
  load_entries hex rest (insert height bytes roots) (note_time height info.time times)

unfoldable pub load_header_file :
    TextCodec → Json (List (ℕ × BlockInfo)) → Files → String → Outcome Error HeaderSource
unfolding load_entries
load_header_file hex serde files path = do
  raw ← map_err (context ("reading header file " <> path)) (files.read_to_string path)
  parsed ← map_err (context "parsing header file JSON") (serde.from_str raw)
  load_entries hex parsed [] []

-- The adapter `OtsTimestampVerifier`.
unfoldable pub verify_timestamp :
    {Op : Type 0} → OtsCodec Op → TextCodec → BitcoinHeaderSource → TimestampVerifier
unfolding Ots.verify ots_message
verify_timestamp crate hex source bundle_digest ots_bytes = do
  anchors ← map_err (ots_message) (Ots.verify crate hex ots_bytes bundle_digest source)
  fail_if (is_empty anchors) "OTS proof has no Bitcoin anchor"

unfoldable pub bundle_digest : Sha256 → Json PqRootBundle → PqRootBundle → Outcome Error Bytes
unfolding Bundle.to_json as_bytes
bundle_digest sha serde bundle = do
  json ← map_err (bundle_context "serializing bundle") (Bundle.to_json serde bundle)
  ok (sha.digest (as_bytes json))

unfoldable pub load_bundle : Json PqRootBundle → Files → String → Outcome Error PqRootBundle
unfolding Bundle.from_json
load_bundle serde files path = do
  raw ← map_err (context ("reading bundle " <> path)) (files.read_to_string path)
  map_err (bundle_context "parsing bundle JSON") (Bundle.from_json serde raw)
