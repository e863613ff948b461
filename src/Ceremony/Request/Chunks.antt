-- ===== src/Ceremony/Request/Chunks.antt =====
-- crates/pq-ceremony/src/main.rs: how a request is cut into reads does not matter.
use pq_enclave_binding.Base.{
  ℕ, zero, suc, ◌+◌, ◌≤◌, ◌<◌, ◌%◌, ◌≡◌, refl, sym, ap, ◌∙◌, subst, arith, true, List, [], ◌∷◌,
  ◌++◌, append_assoc, append-nil, none, some, some-injective, Bytes, String, Outcome, ok, err,
  panic, length, length-append, take, ltb, lt→ltb, le→ltb, Option-cases, inl, inr, from_utf8_lossy,
  u64_mod,
}
use pq_enclave_binding.Ceremony.Request.{
  find_subslice, header_end_mark, content_length, read_body, read_rest, read_request,
}
use pq_enclave_binding.Ceremony.Request.Found.{find_subslice-length, find_subslice-append}

-- Reads that each give a byte at least: the first one and the others.
abbrev pub Chunks : Type 0
Chunks = List (ℕ × Bytes)

abbrev pub sent : Chunks → Bytes
sent [] = []
sent ((b, chunk) ∷ chunks) = (b ∷ chunk) ++ sent chunks

abbrev pub reads : Chunks → List (Outcome String Bytes) → List (Outcome String Bytes)
reads [] after = after
reads ((b, chunk) ∷ chunks) after = ok (b ∷ chunk) ∷ reads chunks after

take-append : (n : ℕ) (a b : Bytes) → n ≤ length a → take n (a ++ b) ≡ take n a
take-append zero a b h = refl
take-append (suc n) [] b h = absurd (omega (arith, h))
take-append (suc n) (x ∷ a) b h = ap (λ t. x ∷ t) (take-append n a b (omega (arith, h)))

read_body_done :
    (need : ℕ) (buf : Bytes) (after : List (Outcome String Bytes))
    → need ≤ length buf
    → read_body need buf after ≡ ok buf
unfolding read_body
read_body_done need buf [] h = refl
read_body_done need buf (err e ∷ after) h = rw (le→ltb _ _ h)
read_body_done need buf (panic ∷ after) h = rw (le→ltb _ _ h)
read_body_done need buf (ok [] ∷ after) h = refl
read_body_done need buf (ok (b ∷ chunk) ∷ after) h = rw (read_body, le→ltb _ _ h)

read_body_all :
    (need : ℕ) (buf : Bytes) (chunks : Chunks) (after : List (Outcome String Bytes))
    → length (buf ++ sent chunks) ≡ need
    → read_body need buf (reads chunks after) ≡ ok (buf ++ sent chunks)
unfolding read_body
read_body_all need buf [] after h =
    read_body_done need buf after (omega (arith, h, length-append buf []))
    ∙ ap ok (sym (append-nil buf))
read_body_all need buf ((b, chunk) ∷ chunks) after h =
    let same : (buf ++ (b ∷ chunk)) ++ sent chunks ≡ buf ++ ((b ∷ chunk) ++ sent chunks) =
      append_assoc buf (b ∷ chunk) (sent chunks) in
    let all = read_body_all need (buf ++ (b ∷ chunk)) chunks after (ap length same ∙ h) in
    let short : ltb (length buf) need ≡ true =
      lt→ltb _ _ (omega (arith, h, length-append buf ((b ∷ chunk) ++ sent chunks))) in
    rw (read_body, short) (all ∙ ap ok same)

mod_small : (n : ℕ) → n < u64_mod → n % u64_mod ≡ n
mod_small n h = omega (arith, h)

module _ (request : Bytes) (pos : ℕ) (after : List (Outcome String Bytes))
    (found : find_subslice request header_end_mark ≡ some pos)
    (whole : length request ≡ pos + 4 + content_length (from_utf8_lossy (take pos request)))
    (small : length request < u64_mod) where
  read_rest_all :
      (buf : Bytes) (chunks : Chunks)
      → buf ++ sent chunks ≡ request
      → pos ≤ length buf
      → read_rest pos buf (reads chunks after) ≡ ok (request, pos)
  unfolding read_rest
  read_rest_all buf chunks same fits =
      let head : take pos buf ≡ take pos request =
        sym (take-append pos buf (sent chunks) fits) ∙ ap (take pos) same in
      let announced : length request ≡ pos + 4 + content_length (from_utf8_lossy (take pos buf)) =
        whole ∙ ap (λ t. pos + 4 + content_length (from_utf8_lossy t)) (sym head) in
      let need : (pos + 4 + content_length (from_utf8_lossy (take pos buf))) % u64_mod
          ≡ length request =
        mod_small _ (subst {A = ℕ} (λ n. n < u64_mod) announced small) ∙ sym announced in
      rw (read_rest, need, read_body_all (length request) buf chunks after (ap length same), same)

  read_from :
      (buf : Bytes) (chunks : Chunks)
      → buf ++ sent chunks ≡ request
      → find_subslice buf header_end_mark ≡ none
      → read_request buf (reads chunks after) ≡ ok (request, pos)
  unfolding read_request
  read_from buf [] same missing = absurd (
      let bad : some pos ≡ none =
        sym found
        ∙ ap (λ r. find_subslice r header_end_mark) (sym same ∙ append-nil buf)
        ∙ missing in
      cc)
  read_from buf ((b, chunk) ∷ chunks) same missing =
      let buf' = buf ++ (b ∷ chunk) in
      let same' : buf' ++ sent chunks ≡ request =
        append_assoc buf (b ∷ chunk) (sent chunks) ∙ same in
      elim (Option-cases (find_subslice buf' header_end_mark)) [
        | inl miss ↦ rw (read_request, miss) (read_from buf' chunks same' miss)
        | inr (p, hit) ↦
            let at : p ≡ pos = some-injective _ _ (
              sym (find_subslice-append buf' (sent chunks) header_end_mark p hit)
              ∙ ap (λ r. find_subslice r header_end_mark) same'
              ∙ found) in
            rw (read_request, hit, at)
              (read_rest_all buf' chunks same'
                (omega (arith, at, find_subslice-length buf' header_end_mark p hit)))
      ]

-- A request whose length is what its header announces, shorter than 2^64, is read as a whole and its
-- headers are found at their end, into whatever non-empty reads it is cut; nothing is read behind it.
pub read_request-reads :
    (request : Bytes) (pos : ℕ) (chunks : Chunks) (after : List (Outcome String Bytes))
    → find_subslice request header_end_mark ≡ some pos
    → length request ≡ pos + 4 + content_length (from_utf8_lossy (take pos request))
    → length request < u64_mod
    → sent chunks ≡ request
    → read_request [] (reads chunks after) ≡ ok (request, pos)
unfolding find_subslice
read_request-reads request pos chunks after found whole small cut =
    read_from request pos after found whole small [] chunks cut refl
