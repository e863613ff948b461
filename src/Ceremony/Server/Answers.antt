-- ===== src/Ceremony/Server/Answers.antt =====
-- crates/pq-ceremony/src/main.rs: the answers about the subkeys do not panic.
use pq_enclave_binding.Base.{
  ℕ, suc, ◌≡◌, refl, sym, ap, ◌∙◌, Bool-cases, inl, inr, List, [], ◌∷◌, some, some-injective,
  Outcome, ok, err, panic, NoPanic, ok-NoPanic, ok_or-NoPanic, >>=-NoPanic, get_elem?,
  get_elem?-some, length, ltb, ltb→lt, ◌==◌, ==_iff,
}
use pq_enclave_binding.External.{Sha256, TextCodec, Json, Fips}
use pq_enclave_binding.Merkle.Completeness.{merkle_proof-climb}
use pq_enclave_binding.Derive.{Keyfork}
use pq_enclave_binding.Ceremony.{SubkeyRecord, CeremonyState, find_subkey, proof}
use pq_enclave_binding.Ceremony.Server.{
  Req, Render, Reply, replied, unknown_index, public_objects, subkeys_list_response,
  subkey_response,
}

pub replied-NoPanic {ℓ} :
    {E : Type ℓ} (m : Outcome Reply Reply) → NoPanic m → NoPanic (replied {E = E} m)
replied-NoPanic (ok a) p = λ h. cc h
replied-NoPanic (err e) p = λ h. cc h
replied-NoPanic panic p = absurd (p refl)

pub find_subkey-eq-some :
    (rs : List SubkeyRecord) (i : ℕ) (r : SubkeyRecord)
    → find_subkey rs i ≡ some r
    → (j : ℕ) × (get_elem? rs j ≡ some r) × (r.global_index ≡ i)
unfolding find_subkey
find_subkey-eq-some [] i r h = absurd (cc h)
find_subkey-eq-some (x ∷ rs) i r h = elim (Bool-cases (x.global_index == i)) [
  | inl hit ↦
      let same : x ≡ r = some-injective _ _ (rw (find_subkey, hit) at h) in
      (0, ap some same, ap SubkeyRecord.global_index (sym same) ∙ (==_iff _ _).0 hit)
  | inr miss ↦
      let (j, at, index) = find_subkey-eq-some rs i r (rw (find_subkey, miss) at h) in
      (suc j, at, index)
]

module _ (k : Keyfork) (sha : Sha256) (fips : Fips) where
  proof-NoPanic {ℓ} :
      (E : Type ℓ) (state : CeremonyState k) (i : ℕ) → NoPanic (proof k sha fips {E = E} state i)
  unfolding proof
  proof-NoPanic E state i = elim (Bool-cases (ltb i (length state.leaves))) [
    | inl inside ↦
        let (leaf, at) = get_elem?-some state.leaves i (ltb→lt _ _ inside) in
        let (path, made, _) = merkle_proof-climb sha E E state.leaves i leaf at in
        λ h. (let bad = rw (proof, inside, made) at h in cc)
    | inr outside ↦ λ h. (let bad = rw (proof, outside) at h in cc)
  ]

  module _ (hex : TextCodec) (requests : Json Req) (render : Render) (state : CeremonyState k) where
    public_objects-NoPanic {ℓ} :
        (E : Type ℓ) (rs : List SubkeyRecord)
        → NoPanic (public_objects k sha fips hex requests render state {E = E} rs)
    unfolding public_objects
    public_objects-NoPanic E [] = ok-NoPanic []
    public_objects-NoPanic E (r ∷ rs) =
        >>=-NoPanic _ _
          (>>=-NoPanic _ _ (proof-NoPanic E state r.global_index) (λ path e. ok-NoPanic _))
          (λ object e. >>=-NoPanic _ _ (public_objects-NoPanic E rs) (λ objects e. ok-NoPanic _))

    pub subkeys_list_response-NoPanic {ℓ} :
        (E : Type ℓ) → NoPanic (subkeys_list_response k sha fips hex requests render state {E = E})
    unfolding subkeys_list_response
    subkeys_list_response-NoPanic E =
        >>=-NoPanic _ _ (public_objects-NoPanic E state.subkeys) (λ objects e. ok-NoPanic _)

    pub subkey_response-NoPanic {ℓ} :
        (E : Type ℓ) (i : ℕ)
        → NoPanic (subkey_response k sha fips hex requests render state {E = E} i)
    unfolding subkey_response
    subkey_response-NoPanic E i = replied-NoPanic _ (
        >>=-NoPanic _ _ (ok_or-NoPanic (find_subkey state.subkeys i) unknown_index)
          (λ r e. >>=-NoPanic _ _ (proof-NoPanic Reply state i) (λ path e. ok-NoPanic _)))
