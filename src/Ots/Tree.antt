-- ===== src/Ots/Tree.antt =====
-- crates/pq-ots/src/lib.rs: the walk of the step tree against the attestations that stand in it.
use pq_enclave_binding.Base.{ℕ, ◌≡◌, List, [], ◌∷◌, ◌++◌, list_laws, Bytes, String}
use pq_enclave_binding.Ots.{
  bitcoin, pending, unknown, StepData, attestation, op, fork, Step, step, Steps, nil, cons, push,
  collect_attestations, collect_all,
}

-- A Bitcoin attestation of a height and an output stands somewhere in the tree.
mutual
  pub data Attested (Op : Type 0) (height : ℕ) (committed : Bytes) : Step Op → Type 0 where
    here :
        {d : StepData Op} {output : Bytes} {next : Steps Op}
        → d ≡ attestation (bitcoin height)
        → output ≡ committed
        → Attested Op height committed (step d output next)
    below :
        {d : StepData Op} {output : Bytes} {next : Steps Op}
        → AttestedIn Op height committed next
        → Attested Op height committed (step d output next)

  pub data AttestedIn (Op : Type 0) (height : ℕ) (committed : Bytes) : Steps Op → Type 0 where
    first :
        {s : Step Op} {next : Steps Op}
        → Attested Op height committed s
        → AttestedIn Op height committed (cons s next)
    later :
        {s : Step Op} {next : Steps Op}
        → AttestedIn Op height committed next
        → AttestedIn Op height committed (cons s next)

module _ {Op : Type 0} where
  abbrev pub own_bitcoin : StepData Op → Bytes → List (ℕ × Bytes)
  own_bitcoin (attestation (bitcoin height)) output = (height, output) ∷ []
  own_bitcoin (attestation (pending uri)) output = []
  own_bitcoin (attestation (unknown u)) output = []
  own_bitcoin (op o) output = []
  own_bitcoin fork output = []

  abbrev pub own_pending : StepData Op → List String
  own_pending (attestation (bitcoin height)) = []
  own_pending (attestation (pending uri)) = uri ∷ []
  own_pending (attestation (unknown u)) = []
  own_pending (op o) = []
  own_pending fork = []

  -- The attestations in the order of a walk from the root, a step before those that follow it.
  unfoldable mutual
    pub bitcoin_of : Step Op → List (ℕ × Bytes)
    bitcoin_of (step d output next) = own_bitcoin d output ++ bitcoin_all next

    pub bitcoin_all : Steps Op → List (ℕ × Bytes)
    bitcoin_all nil = []
    bitcoin_all (cons s next) = bitcoin_of s ++ bitcoin_all next

  unfoldable mutual
    pub pending_of : Step Op → List String
    pending_of (step d output next) = own_pending d ++ pending_all next

    pub pending_all : Steps Op → List String
    pending_all nil = []
    pending_all (cons s next) = pending_of s ++ pending_all next

  push_lem :
      (d : StepData Op) (output : Bytes) (bs : List (ℕ × Bytes)) (ps : List String)
      → push d output (bs, ps) ≡ (bs ++ own_bitcoin d output, ps ++ own_pending d)
  unfolding push
  push_lem (attestation (bitcoin height)) output bs ps = simp list_laws
  push_lem (attestation (pending uri)) output bs ps = simp list_laws
  push_lem (attestation (unknown u)) output bs ps = simp list_laws
  push_lem (op o) output bs ps = simp list_laws
  push_lem fork output bs ps = simp list_laws

  mutual
    unfolding collect_attestations bitcoin_of pending_of

    walk :
        (s : Step Op) (bs : List (ℕ × Bytes)) (ps : List String)
        → collect_attestations s (bs, ps) ≡ (bs ++ bitcoin_of s, ps ++ pending_of s)
    walk (step d output next) bs ps = rw (push_lem, walk_all next) (simp list_laws)

    walk_all :
        (next : Steps Op) (bs : List (ℕ × Bytes)) (ps : List String)
        → collect_all next (bs, ps) ≡ (bs ++ bitcoin_all next, ps ++ pending_all next)
    walk_all nil bs ps = simp list_laws
    walk_all (cons s next) bs ps = rw (walk s, walk_all next) (simp list_laws)

  -- `collect_attestations` appends to its two vectors the Bitcoin attestations and the pending
  -- calendars of the tree, each in the order of the walk, and keeps what they held.
  pub collect_attestations_lem :
      (s : Step Op) (bs : List (ℕ × Bytes)) (ps : List String)
      → collect_attestations s (bs, ps) ≡ (bs ++ bitcoin_of s, ps ++ pending_of s)
  collect_attestations_lem s bs ps = walk s bs ps
