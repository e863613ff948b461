-- ===== src/Ceremony/Request/Panics.antt =====
-- crates/pq-ceremony/src/main.rs: reading a request does not panic.
use pq_enclave_binding.Base.{
  ℕ, List, [], ◌∷◌, ◌++◌, Option-cases, inl, inr, refl, Bytes, String, Outcome, ok, err, panic,
  NoPanic, ok-NoPanic, err-NoPanic, if-NoPanic, >>=-NoPanic, All, length, ltb,
}
use pq_enclave_binding.Ceremony.Request.{
  find_subslice, header_end_mark, read_body, read_rest, read_request,
}

read_body-NoPanic :
    (need : ℕ) (buf : Bytes) (reads : List (Outcome String Bytes))
    → All NoPanic reads
    → NoPanic (read_body need buf reads)
unfolding read_body
read_body-NoPanic need buf [] all = ok-NoPanic buf
read_body-NoPanic need buf (err e ∷ reads) all =
    if-NoPanic (ltb (length buf) need) _ _ (err-NoPanic e) (ok-NoPanic buf)
read_body-NoPanic need buf (panic ∷ reads) all = absurd (all.0 refl)
read_body-NoPanic need buf (ok [] ∷ reads) all = ok-NoPanic buf
read_body-NoPanic need buf (ok (b ∷ chunk) ∷ reads) all =
    if-NoPanic (ltb (length buf) need) _ _ (read_body-NoPanic need (buf ++ (b ∷ chunk)) reads all.1)
      (ok-NoPanic buf)

pub read_request-NoPanic :
    (buf : Bytes) (reads : List (Outcome String Bytes))
    → All NoPanic reads
    → NoPanic (read_request buf reads)
unfolding read_request read_rest
read_request-NoPanic buf [] all = ok-NoPanic _
read_request-NoPanic buf (err e ∷ reads) all = err-NoPanic e
read_request-NoPanic buf (panic ∷ reads) all = absurd (all.0 refl)
read_request-NoPanic buf (ok [] ∷ reads) all = ok-NoPanic _
read_request-NoPanic buf (ok (b ∷ chunk) ∷ reads) all =
    elim (Option-cases (find_subslice (buf ++ (b ∷ chunk)) header_end_mark)) [
      | inl miss ↦
          λ h. read_request-NoPanic (buf ++ (b ∷ chunk)) reads all.1 (rw (read_request, miss) at h)
      | inr (pos, hit) ↦ λ h.
          >>=-NoPanic _ _ (read_body-NoPanic _ (buf ++ (b ∷ chunk)) reads all.1)
            (λ all e. ok-NoPanic _) (rw (read_request, hit) at h)
    ]
