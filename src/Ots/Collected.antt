-- ===== src/Ots/Collected.antt =====
-- crates/pq-ots/src/lib.rs: predicates on all that the walk of a tree collects.
use pq_enclave_binding.Base.{ℕ, ◌≡◌, refl, subst, Bytes, All, All-append, All-append_parts}
use pq_enclave_binding.Ots.{
  bitcoin, pending, unknown, StepData, attestation, op, fork, Step, step, Steps, nil, cons,
}
use pq_enclave_binding.Ots.Tree.{
  own_bitcoin, Attested, here, below, AttestedIn, first, later, bitcoin_of, bitcoin_all,
}

abbrev pub Holds : (ℕ → Bytes → Type 0) → ℕ × Bytes → Type 0
Holds P (h, c) = P h c

-- A predicate holds of all that the walk collects exactly if it holds of all attestations.
module _ {Op : Type 0} (P : ℕ → Bytes → Type 0) where
  own :
      (d : StepData Op) (output : Bytes) (h : ℕ) (c : Bytes)
      → All (Holds P) (own_bitcoin d output)
      → d ≡ attestation (bitcoin h)
      → output ≡ c
      → P h c
  own d output h c all e o =
      let d' : StepData Op = attestation (bitcoin h) in
      (subst (λ o. All (Holds P) (own_bitcoin d' o)) o
        (subst (λ d. All (Holds P) (own_bitcoin d output)) e all)).0

  mutual
    unfolding bitcoin_of

    pub collected :
        (s : Step Op)
        → All (Holds P) (bitcoin_of s)
        → (h : ℕ) (c : Bytes) → Attested Op h c s
        → P h c
    collected (step d output next) all h c (here e o) =
        own d output h c
          (All-append_parts (Holds P) (own_bitcoin d output) (bitcoin_all next) all).0 e o
    collected (step d output next) all h c (below a) =
        collected_all next
          (All-append_parts (Holds P) (own_bitcoin d output) (bitcoin_all next) all).1 h c a

    collected_all :
        (next : Steps Op)
        → All (Holds P) (bitcoin_all next)
        → (h : ℕ) (c : Bytes) → AttestedIn Op h c next
        → P h c
    collected_all nil all h c a = elim a [ ]
    collected_all (cons s next) all h c (first a) =
        collected s (All-append_parts (Holds P) (bitcoin_of s) (bitcoin_all next) all).0 h c a
    collected_all (cons s next) all h c (later a) =
        collected_all next (All-append_parts (Holds P) (bitcoin_of s) (bitcoin_all next) all).1 h c
          a

  each_own :
      (d : StepData Op) (output : Bytes)
      → ((h : ℕ) (c : Bytes) → d ≡ attestation (bitcoin h) → output ≡ c → P h c)
      → All (Holds P) (own_bitcoin d output)
  each_own (attestation (bitcoin h)) output each = (each h output refl refl, tt)
  each_own (attestation (pending uri)) output each = tt
  each_own (attestation (unknown u)) output each = tt
  each_own (op o) output each = tt
  each_own fork output each = tt

  mutual
    unfolding bitcoin_of

    pub each_collected :
        (s : Step Op)
        → ((h : ℕ) (c : Bytes) → Attested Op h c s → P h c)
        → All (Holds P) (bitcoin_of s)
    each_collected (step d output next) each =
        All-append (Holds P) (own_bitcoin d output) (bitcoin_all next)
          (each_own d output (λ h c e o. each h c (here e o)))
          (each_collected_next next (λ h c a. each h c (below a)))

    each_collected_next :
        (next : Steps Op)
        → ((h : ℕ) (c : Bytes) → AttestedIn Op h c next → P h c)
        → All (Holds P) (bitcoin_all next)
    each_collected_next nil each = tt
    each_collected_next (cons s next) each =
        All-append (Holds P) (bitcoin_of s) (bitcoin_all next)
          (each_collected s (λ h c a. each h c (first a)))
          (each_collected_next next (λ h c a. each h c (later a)))
