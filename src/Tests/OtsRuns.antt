-- ===== src/Tests/OtsRuns.antt =====
-- Runs of timestamp proofs, the quote verifier and the mock on proofs and documents of few bytes.
use pq_enclave_binding.Base.{
  ℕ, zero, suc, ◌≡◌, ◌↔◌, ◌<◌, ◌≤◌, ◌*◌, Bool, true, u64_mod, none, [], ◌∷◌, Bytes, String, Outcome,
  ok, err, ok-injective, ap, sym,
}
use pq_enclave_binding.Bundle.{QuoteData}
use pq_enclave_binding.Ots.{
  bitcoin, pending, unknown, attestation, fork, op, Step, step, nil, cons, Timestamp, DigestType,
  sha256, other, DetachedTimestampFile, OtsCodec, not_anchored, default_block_time,
  BitcoinHeaderSource, BitcoinAnchor, verify,
}
use pq_enclave_binding.Ots.Tree.{Attested}
use pq_enclave_binding.Ots.Anchored.{Anchored, Commits, anchors_verify_iff, verify-not_anchored_iff}
use pq_enclave_binding.Ots.Stamped.{OtsLaws}
use pq_enclave_binding.Quote.{AttestationDoc, FromCose, at_unix_secs, verify_quote}
use pq_enclave_binding.Quote.Extract.{Shows, verify_quote_iff}
use pq_enclave_binding.Tests.Doubles.{test_codec}

-- A tree with a Bitcoin attestation in one branch and a pending calendar in the other.
abbrev tree : Step Bool
tree = step fork (1 ∷ []) (
    cons (step (op true) (2 ∷ []) (cons (step (attestation (bitcoin 7)) (2 ∷ []) nil) nil))
      (cons (step (attestation (pending "cal")) (1 ∷ []) nil) nil))

abbrev waiting : Step Bool
waiting = step (attestation (pending "cal")) (1 ∷ []) nil

-- A proof is its digest behind a byte that names its tree.
abbrev tree_of : ℕ → Step Bool
tree_of zero = waiting
tree_of (suc n) = tree

abbrev file_of : Step Bool → Bytes → DetachedTimestampFile Bool
file_of s digest = record {
  digest_type = sha256;
  timestamp = record { start_digest = digest; first_step = s };
}

abbrev read_file : Bytes → Outcome String (DetachedTimestampFile Bool)
read_file [] = err "empty"
read_file (n ∷ digest) = ok (file_of (tree_of n) digest)

abbrev pub proofs : OtsCodec Bool
proofs = record {
  from_reader = read_file;
  to_writer = λ file. err "read only";
  deserialize = λ response digest. err "read only";
}

-- Block 7 has the output of the tree's attestation as its root.
abbrev pub headers : BitcoinHeaderSource
headers = record { merkle_root = λ height. ok (2 ∷ []); block_time = default_block_time }

abbrev anchor : BitcoinAnchor
anchor = record { height = 7; merkle_root = 2 ∷ [] }

anchors_verify_iff_example :
    (verify proofs test_codec (1 ∷ 4 ∷ []) (4 ∷ []) headers ≡ ok (anchor ∷ []))
    ↔ Anchored proofs test_codec headers (1 ∷ 4 ∷ []) (4 ∷ []) (anchor ∷ [])
anchors_verify_iff_example =
    anchors_verify_iff proofs test_codec headers (1 ∷ 4 ∷ []) (4 ∷ []) (anchor ∷ [])

verify-not_anchored_iff_example :
    (verify proofs test_codec (0 ∷ 4 ∷ []) (4 ∷ []) headers ≡ err not_anchored) ↔ (
      (file : DetachedTimestampFile Bool) × Commits proofs test_codec headers
        (0 ∷ 4 ∷ [])
        (4 ∷ [])
        file
      × ((height : ℕ) (committed : Bytes)
          → Attested Bool height committed file.timestamp.first_step
          → ⊥))
verify-not_anchored_iff_example =
    verify-not_anchored_iff proofs test_codec headers (0 ∷ 4 ∷ []) (4 ∷ [])

-- A reader and writer of files with one attestation, of a calendar with an empty URI.
abbrev pub fresh : Bytes → Timestamp Bool
fresh digest = record { start_digest = digest; first_step = step (attestation (pending "")) [] nil }

abbrev write_file : DigestType → Step Bool → Bytes → Outcome String Bytes
write_file sha256 (step (attestation (pending String.[])) [] nil) digest = ok digest
write_file _ _ _ = err "too large"

pub read-write_file :
    (t : DigestType) (s : Step Bool) (digest b : Bytes)
    → write_file t s digest ≡ ok b
    → ◌≡◌ {A = Outcome String (DetachedTimestampFile Bool)}
        (ok (record { digest_type = sha256; timestamp = fresh b }))
        (ok (record {
          digest_type = t;
          timestamp = record { start_digest = digest; first_step = s };
        }))
read-write_file other s d b h = cc
read-write_file sha256 (step (op o) out n) d b h = cc
read-write_file sha256 (step fork out n) d b h = cc
read-write_file sha256 (step (attestation (unknown u)) out n) d b h = cc
read-write_file sha256 (step (attestation (bitcoin height)) out n) d b h = cc
read-write_file sha256 (step (attestation (pending (String.◌∷◌ c s))) out n) d b h = cc
read-write_file sha256 (step (attestation (pending String.[])) (x ∷ out) n) d b h = cc
read-write_file sha256 (step (attestation (pending String.[])) [] (cons s n)) d b h = cc
read-write_file sha256 (step (attestation (pending String.[])) [] nil) d b h =
    ap (λ x. ok (record { digest_type = sha256; timestamp = fresh x }))
      (sym (ok-injective String h))

abbrev pub single : OtsCodec Bool
single = record {
  from_reader = λ b. ok (record { digest_type = sha256; timestamp = fresh b });
  to_writer =
      λ file. write_file file.digest_type file.timestamp.first_step file.timestamp.start_digest;
  deserialize = λ response digest. ok (fresh digest);
}

pub single_laws : OtsLaws single
single_laws = record {
  from_reader-to_writer =
      λ response digest t b made h. read-write_file sha256 t.first_step t.start_digest b h;
  deserialize-start =
      λ response digest t h. sym (ap Timestamp.start_digest (ok-injective String h));
}

-- The attestation library stood in for accepts a quote under the root that starts it.
abbrev document : AttestationDoc
document = record { pcrs = (0, 1 ∷ []) ∷ (1, 2 ∷ []) ∷ (2, 3 ∷ []) ∷ []; user_data = none }

abbrev pub accept : FromCose
accept quote root at = ok document

abbrev quoted : QuoteData
quoted = record { pcr0 = 1 ∷ []; pcr1 = 2 ∷ []; pcr2 = 3 ∷ []; user_data = [] }

verify_quote_iff_example :
    (verify_quote accept (at_unix_secs (9 ∷ []) 1000) (9 ∷ []) ≡ ok quoted) ↔ (
      (doc : AttestationDoc) × (at : ℕ) × (accept (9 ∷ []) (9 ∷ []) at ≡ ok doc)
      × (1000 * 1000 < u64_mod → at ≡ 1000 * 1000)
      × (u64_mod ≤ 1000 * 1000 → suc at ≡ u64_mod)
      × Shows doc quoted)
verify_quote_iff_example = verify_quote_iff accept (9 ∷ []) (9 ∷ []) 1000 quoted
