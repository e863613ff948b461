-- ===== src/Enclave/Mock.antt =====
-- crates/pq-enclave/src/lib.rs: the mock in the eyes of the bundle verifier.
use pq_enclave_binding.Base.{
  ℕ, suc, ◌+◌, ◌%◌, ◌<◌, ◌≡◌, refl, arith, false, Bytes, ok, length, replicate, ltb, if◌then◌else◌,
  length-replicate,
}
use pq_enclave_binding.Bundle.{all_zero}
use pq_enclave_binding.Enclave.{mock_nsm, mock_describe_pcr}
use pq_enclave_binding.Enclave.{Nsm}

mock_byte : ℕ → ℕ
mock_byte i = ((if ltb (i % 251) 256 then i % 251 else 0) + 1) % 256

mock_byte-lt : (i : ℕ) → 0 < mock_byte i
unfolding mock_byte
mock_byte-lt i = ground arith

all_zero-replicate : (n b : ℕ) → 0 < b → all_zero (replicate (suc n) b) ≡ false
unfolding all_zero
all_zero-replicate n b h = ground arith

-- Every PCR of the mock has the size of a PCR and is not all zero, so that a bundle made with the
-- mock does not look like one of a debug enclave.
pub mock_describe_pcr-all_zero :
    (i : ℕ)
    → (b : Bytes) × (Nsm.describe_pcr mock_nsm i ≡ ok b) × (length b ≡ 48) × (all_zero b ≡ false)
unfolding mock_nsm mock_describe_pcr mock_byte
mock_describe_pcr-all_zero i = (
  replicate 48 (mock_byte i),
  refl,
  length-replicate 48 (mock_byte i),
  all_zero-replicate 47 (mock_byte i) (mock_byte-lt i),
)
