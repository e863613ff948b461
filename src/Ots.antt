-- ===== src/Ots.antt =====
-- crates/pq-ots/src/lib.rs: verifying an OpenTimestamps proof against Bitcoin headers, and
-- stamping. The data of the `opentimestamps` crate has the constructors and fields that this code
-- matches and, in its tests, builds; an operation is of an unknown type `Op`, and the fields of an
-- unknown attestation, which the code only passes on, are one value.
pub mod Tree
pub mod Collected
pub mod Confirmed
pub mod Anchored
pub mod Stamped
pub mod Http
use pq_enclave_binding.Base.{
  ℕ, Bool, true, false, not, List, [], ◌∷◌, ◌++◌, map, is_empty, Option, none, Bytes, String, ◌<>◌,
  display, Outcome, ok, err, ◌>>=◌, ◌>>◌, map_err, fail_if, bytes_eq,
}
use pq_enclave_binding.External.{TextCodec}

pub data Attestation : Type 0 where
  bitcoin : ℕ → Attestation
  pending : String → Attestation
  unknown : Bytes → Attestation

pub data StepData (Op : Type 0) : Type 0 where
  attestation : Attestation → StepData Op
  op : Op → StepData Op
  fork : StepData Op

-- A step has its data, its output and the steps that follow.
mutual
  pub data Step (Op : Type 0) : Type 0 where
    step : StepData Op → Bytes → Steps Op → Step Op

  pub data Steps (Op : Type 0) : Type 0 where
    nil : Steps Op
    cons : Step Op → Steps Op → Steps Op

pub record Timestamp (Op : Type 0) : Type 0 where
  pub start_digest : Bytes
  pub first_step : Step Op

pub data DigestType : Type 0 where
  sha256 other : DigestType

pub record DetachedTimestampFile (Op : Type 0) : Type 0 where
  pub digest_type : DigestType
  pub timestamp : Timestamp Op

-- The reader and the writer of that crate; `deserialize` is given the start digest.
pub record OtsCodec (Op : Type 0) : Type 0 where
  pub from_reader : Bytes → Outcome String (DetachedTimestampFile Op)
  pub to_writer : DetachedTimestampFile Op → Outcome String Bytes
  pub deserialize : Bytes → Bytes → Outcome String (Timestamp Op)

-- Digests in hexadecimal; for a Merkle root, the height, the committed and the actual root.
pub data OtsError : Type 0 where
  codec : String → OtsError
  digest_mismatch : String → String → OtsError
  merkle_root_mismatch : ℕ → String → String → OtsError
  not_anchored : OtsError
  header_source : String → OtsError
  calendar : String → OtsError

-- How an error is displayed.
unfoldable pub ots_message : OtsError → String
unfolding display
ots_message (codec e) = "opentimestamps codec error: " <> e
ots_message (digest_mismatch proof expected) =
    "proof digest mismatch: proof commits to " <> (proof <> (", expected " <> expected))
ots_message (merkle_root_mismatch height committed actual) =
    "bitcoin attestation at height "
    <> (display height
        <> (": committed merkle root " <> (committed <> (" != block merkle root " <> actual))))
ots_message not_anchored =
    "proof is not anchored in Bitcoin yet (only pending attestations); upgrade it first"
ots_message (header_source e) = "bitcoin header source error: " <> e
ots_message (calendar e) = "calendar error: " <> e

pub record BitcoinHeaderSource : Type 0 where
  pub merkle_root : ℕ → Outcome String Bytes
  pub block_time : ℕ → Outcome String (Option ℕ)

-- The trait's default for `block_time`.
unfoldable pub default_block_time : ℕ → Outcome String (Option ℕ)
default_block_time height = ok none

-- The trait `CalendarClient`, by its method `submit`.
abbrev pub CalendarClient : Type 0
CalendarClient = Bytes → Outcome String Bytes

pub record BitcoinAnchor : Type 0 where
  pub height : ℕ
  pub merkle_root : Bytes

pub record PendingAttestation : Type 0 where
  pub uri : String

-- The two vectors that `collect_attestations` pushes to.
abbrev pub Found : Type 0
Found = List (ℕ × Bytes) × List String

module _ {Op : Type 0} where
  unfoldable pub push : StepData Op → Bytes → Found → Found
  push (attestation (bitcoin height)) output (bs, ps) = (bs ++ ((height, output) ∷ []), ps)
  push (attestation (pending uri)) output (bs, ps) = (bs, ps ++ (uri ∷ []))
  push (attestation (unknown u)) output found = found
  push (op o) output found = found
  push fork output found = found

  unfoldable mutual
    unfolding push

    pub collect_attestations : Step Op → Found → Found
    collect_attestations (step d output next) found = collect_all next (push d output found)

    pub collect_all : Steps Op → Found → Found
    collect_all nil found = found
    collect_all (cons s next) found = collect_all next (collect_attestations s found)

unfoldable pub check_anchors :
    TextCodec → BitcoinHeaderSource → List (ℕ × Bytes) → Outcome OtsError (List BitcoinAnchor)
unfolding bytes_eq
check_anchors hex source [] = ok []
check_anchors hex source ((height, committed) ∷ rest) = do
  actual ← map_err header_source (source.merkle_root height)
  fail_if (not (bytes_eq committed actual))
      (merkle_root_mismatch height (hex.encode committed) (hex.encode actual))
  anchors ← check_anchors hex source rest
  ok (record { height = height; merkle_root = actual } ∷ anchors)

module _ {Op : Type 0} (crate : OtsCodec Op) where
  unfoldable pub parse_proof : Bytes → Outcome OtsError (DetachedTimestampFile Op)
  parse_proof ots_bytes = map_err codec (crate.from_reader ots_bytes)

  unfoldable pub pending_calendars : Bytes → Outcome OtsError (List PendingAttestation)
  unfolding parse_proof collect_attestations
  pending_calendars ots_bytes = do
    dtf ← parse_proof ots_bytes
    let (_, uris) = collect_attestations dtf.timestamp.first_step ([], [])
    ok (map (λ uri. record { uri = uri }) uris)

  unfoldable pub verify :
      TextCodec → Bytes → Bytes → BitcoinHeaderSource → Outcome OtsError (List BitcoinAnchor)
  unfolding parse_proof collect_attestations check_anchors bytes_eq
  verify hex ots_bytes expected_digest source = do
    dtf ← parse_proof ots_bytes
    fail_if (not (bytes_eq dtf.timestamp.start_digest expected_digest))
        (digest_mismatch (hex.encode dtf.timestamp.start_digest) (hex.encode expected_digest))
    let (attested, _) = collect_attestations dtf.timestamp.first_step ([], [])
    fail_if (is_empty attested) not_anchored
    check_anchors hex source attested

  unfoldable pub stamp : Bytes → CalendarClient → Outcome OtsError Bytes
  stamp digest submit = do
    response ← map_err calendar (submit digest)
    timestamp ← map_err codec (crate.deserialize response digest)
    map_err codec (crate.to_writer (record { digest_type = sha256; timestamp = timestamp }))
