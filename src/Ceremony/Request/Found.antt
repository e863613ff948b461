-- ===== src/Ceremony/Request/Found.antt =====
-- crates/pq-ceremony/src/main.rs: what `find_subslice` finds in a text and in its first part.
use pq_enclave_binding.Base.{
  ℕ, suc, ◌+◌, ◌≤◌, ◌≡◌, refl, sym, ap, ◌∙◌, arith, true, false, [], ◌∷◌, ◌++◌, Option, none, some,
  some-injective, Bytes, length, ◌==◌, if◌then◌else◌, Bool-cases, inl, inr,
}
use pq_enclave_binding.Ceremony.Request.{starts_with, next_position, find_subslice}

starts_with_cut :
    (needle a b : Bytes)
    → length needle ≤ length a
    → starts_with needle (a ++ b) ≡ starts_with needle a
unfolding starts_with
starts_with_cut [] a b h = refl
starts_with_cut (n ∷ needle) [] b h = absurd (omega (arith, h))
starts_with_cut (n ∷ needle) (x ∷ a) b h =
    ap (λ rest. if n == x then rest else false) (starts_with_cut needle a b (omega (arith, h)))

starts_with-length : (needle a : Bytes) → starts_with needle a ≡ true → length needle ≤ length a
unfolding starts_with
starts_with-length [] a h = omega arith
starts_with-length (n ∷ needle) [] h = cc
starts_with-length (n ∷ needle) (x ∷ a) h = ground (arith, starts_with-length needle a)

next_position-eq-some :
    (o : Option ℕ) (i : ℕ) → next_position o ≡ some i → (j : ℕ) × (o ≡ some j) × (i ≡ suc j)
next_position-eq-some none i h = absurd (cc h)
next_position-eq-some (some j) i h = (j, refl, sym (some-injective _ _ h))

-- The needle fits into the text behind where it is found.
pub find_subslice-length :
    (a needle : Bytes) (i : ℕ) → find_subslice a needle ≡ some i → i + length needle ≤ length a
unfolding find_subslice
find_subslice-length [] needle i h = absurd (cc h)
find_subslice-length (x ∷ a) needle i h = elim (Bool-cases (starts_with needle (x ∷ a))) [
  | inl here ↦
      let at : 0 ≡ i = some-injective _ _ (rw (find_subslice, here) at h) in
      omega (arith, at, starts_with-length needle (x ∷ a) here)
  | inr other ↦
      let (j, found, at) =
        next_position-eq-some (find_subslice a needle) i (rw (find_subslice, other) at h) in
      omega (arith, at, find_subslice-length a needle j found)
]

-- What is found in a text is found there when more follows.
pub find_subslice-append :
    (a b needle : Bytes) (i : ℕ)
    → find_subslice a needle ≡ some i
    → find_subslice (a ++ b) needle ≡ some i
unfolding find_subslice
find_subslice-append [] b needle i h = absurd (cc h)
find_subslice-append (x ∷ a) b needle i h =
    let fits = find_subslice-length (x ∷ a) needle i h in
    let same = starts_with_cut needle (x ∷ a) b (omega (arith, fits)) in
    elim (Bool-cases (starts_with needle (x ∷ a))) [
      | inl here ↦
          let at : some 0 ≡ some i = rw (find_subslice, here) at h in
          rw (find_subslice, same ∙ here) at
      | inr other ↦
          let (j, found, at) =
            next_position-eq-some (find_subslice a needle) i (rw (find_subslice, other) at h) in
          let later = find_subslice-append a b needle j found in
          rw (find_subslice, same ∙ other, later, at)
    ]
