-- ===== src/Ots/Stamped.antt =====
-- crates/pq-ots/src/lib.rs: a stamped proof commits to the digest that was stamped.
use pq_enclave_binding.Base.{
  ◌≡◌, ◌≢◌, Bytes, String, List, map, Outcome, ok, err, ◌>>=◌, >>=-eq-ok, map_err, map_err-eq-ok,
  fail_if, bytes_eq_refl, Bool, true, false, is_empty,
}
use pq_enclave_binding.External.{TextCodec}
use pq_enclave_binding.Ots.{
  OtsCodec, OtsError, codec, calendar, digest_mismatch, not_anchored, DetachedTimestampFile,
  Timestamp, CalendarClient, BitcoinHeaderSource, BitcoinAnchor, parse_proof, pending_calendars,
  verify, stamp, sha256,
}
use pq_enclave_binding.Ots.Tree.{pending_of, collect_attestations_lem}
use pq_enclave_binding.Ots.Confirmed.{check_anchors-ne-digest_mismatch}

-- A file whose timestamp was deserialized is read back after it was written: the outputs of its
-- steps are not stored, and both readings compute them from the start digest. A deserialized
-- timestamp starts from the digest it was given.
pub record OtsLaws {Op : Type 0} (crate : OtsCodec Op) : Type 0 where
  pub from_reader-to_writer :
      (response digest : Bytes) (t : Timestamp Op) (b : Bytes)
      → crate.deserialize response digest ≡ ok t
      → crate.to_writer (record { digest_type = sha256; timestamp = t }) ≡ ok b
      → crate.from_reader b ≡ ok (record { digest_type = sha256; timestamp = t })
  pub deserialize-start :
      (response digest : Bytes) (t : Timestamp Op)
      → crate.deserialize response digest ≡ ok t
      → t.start_digest ≡ digest

module _ {Op : Type 0} (crate : OtsCodec Op) (laws : OtsLaws crate) where
  -- A proof that `stamp` returns parses to a file that starts from the stamped digest, and
  -- `pending_calendars` lists the pending calendars of its tree. So `verify` of that proof against
  -- that digest does not answer `DigestMismatch`, whatever the header source.
  pub verify-stamp :
      (hex : TextCodec) (digest : Bytes) (submit : CalendarClient) (source : BitcoinHeaderSource)
      (proof : Bytes)
      → stamp crate digest submit ≡ ok proof
      → (file : DetachedTimestampFile Op) × (parse_proof crate proof ≡ ok file)
        × (file.timestamp.start_digest ≡ digest)
        × (pending_calendars crate proof
            ≡ ok (map (λ uri. record { uri = uri }) (pending_of file.timestamp.first_step)))
        × ((a b : String) → verify crate hex proof digest source ≢ err (digest_mismatch a b))
  unfolding stamp parse_proof pending_calendars verify
  verify-stamp hex digest submit source proof h =
      let (response, e₁, k₁) = >>=-eq-ok (map_err calendar (submit digest)) _ h in
      let (t, e₂, k₂) = >>=-eq-ok (map_err codec (crate.deserialize response digest)) _ k₁ in
      let file : DetachedTimestampFile Op = record { digest_type = sha256; timestamp = t } in
      let made = map_err-eq-ok codec (crate.deserialize response digest) e₂ in
      let read =
        laws.from_reader-to_writer response digest t proof made
          (map_err-eq-ok codec (crate.to_writer file) k₂) in
      let start = laws.deserialize-start response digest t made in
      (
        file,
        rw read,
        start,
        rw (read, collect_attestations_lem),
        λ a b g.
            late (is_empty _) _ a b (check_anchors-ne-digest_mismatch hex source _ a b)
              (rw (read, start, bytes_eq_refl) at g),
      )
    where
      late :
          (empty : Bool) (m : Outcome OtsError (List BitcoinAnchor)) (a b : String)
          → m ≢ err (digest_mismatch a b)
          → (fail_if empty not_anchored >>= λ _. m) ≢ err (digest_mismatch a b)
      late true m a b n k = cc
      late false m a b n k = n k
