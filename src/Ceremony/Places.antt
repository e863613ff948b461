-- ===== src/Ceremony/Places.antt =====
-- crates/pq-ceremony/src/lib.rs: the account, the index in it and the purpose of each subkey.
use pq_enclave_binding.Base.{
  ℕ, zero, suc, ◌+◌, ◌-◌, ◌⊎◌, inl, inr, Bool-cases, ltb, ltb→lt, ltb→le, ◌<◌, ◌≡◌, refl, sym, ap,
  ◌∙◌, arith, List, [], ◌∷◌, ◌++◌, append_assoc, append-nil, some, some-injective, Bytes, ok,
  >>=-eq-ok, ok-injective, map_err, length, get_elem?, get_elem?-lt,
}
use pq_enclave_binding.External.{Sha256, TextCodec, Fips}
use pq_enclave_binding.Merkle.{subkey_leaf}
use pq_enclave_binding.Enclave.{Nsm}
use pq_enclave_binding.Derive.{Keyfork, subkey_path, derive_keypair}
use pq_enclave_binding.Ceremony.{
  CeremonyError, derive, CeremonyConfig, SubkeyRecord, CeremonyState, Derived, derive_subkey,
  derive_lane, derive_subkeys, run_ceremony,
}
use pq_enclave_binding.Ceremony.Ran.{run_ceremony-Ran}

-- Records of one account and purpose, whose indices in it count up from the first.
abbrev pub InLane : ℕ → ℕ → ℕ → List SubkeyRecord → Type 0
InLane account purpose_tag index [] = Unit
InLane account purpose_tag index (r ∷ rs) =
    (r.account ≡ account)
    × (r.purpose_tag ≡ purpose_tag)
    × (r.account_index ≡ index)
    × InLane account purpose_tag (index + 1) rs

get_elem?-InLane :
    (account purpose_tag index : ℕ) (rs : List SubkeyRecord) (i : ℕ) {r : SubkeyRecord}
    → InLane account purpose_tag index rs
    → get_elem? rs i ≡ some r
    → (r.account ≡ account) × (r.purpose_tag ≡ purpose_tag) × (r.account_index ≡ index + i)
get_elem?-InLane account purpose_tag index [] i lane at = absurd (cc at)
get_elem?-InLane account purpose_tag index (s ∷ rs) zero {r} (a, p, n, rest) at =
    let same : s ≡ r = some-injective _ _ at in
    (
      sym (ap SubkeyRecord.account same) ∙ a,
      sym (ap SubkeyRecord.purpose_tag same) ∙ p,
      sym (ap SubkeyRecord.account_index same) ∙ n ∙ omega arith,
    )
get_elem?-InLane account purpose_tag index (s ∷ rs) (suc i) (a, p, n, rest) at =
    let (a', p', n') = get_elem?-InLane account purpose_tag (index + 1) rs i rest at in
    (a', p', n' ∙ omega arith)

-- An element of joined lists stands in the one or the other.
get_elem?-append-lt {ℓ} :
    {A : Type ℓ} (xs ys : List A) (i : ℕ) → i < length xs → get_elem? (xs ++ ys) i ≡ get_elem? xs i
get_elem?-append-lt [] ys i h = absurd (omega (arith, h))
get_elem?-append-lt (x ∷ xs) ys zero h = refl
get_elem?-append-lt (x ∷ xs) ys (suc i) h = get_elem?-append-lt xs ys i (omega (arith, h))

get_elem?-append-add {ℓ} :
    {A : Type ℓ} (xs ys : List A) (i : ℕ) → get_elem? (xs ++ ys) (length xs + i) ≡ get_elem? ys i
get_elem?-append-add [] ys i = ap (get_elem? ys) (omega arith)
get_elem?-append-add (x ∷ xs) ys i =
    let same : suc (length xs) + i ≡ suc (length xs + i) = omega arith in
    ap (get_elem? (x ∷ (xs ++ ys))) same ∙ get_elem?-append-add xs ys i

module _ (k : Keyfork) (sha : Sha256) (fips : Fips) (mnemonic : k.Mnemonic) where
  derive_subkey-InLane :
      (account purpose_tag account_index : ℕ) (d d' : Derived)
      → derive_subkey k sha fips mnemonic account purpose_tag account_index d ≡ ok d'
      → (r : SubkeyRecord) × (d'.0 ≡ d.0 ++ (r ∷ []))
        × (r.account ≡ account)
        × (r.purpose_tag ≡ purpose_tag)
        × (r.account_index ≡ account_index)
  unfolding derive_subkey
  derive_subkey-InLane account purpose_tag account_index (rs, leaves, next) d' h =
      let (path, e₁, h₁) = >>=-eq-ok (subkey_path k account account_index) _ h in
      let (kp, e₂, h₂) =
        >>=-eq-ok (map_err derive (derive_keypair k sha fips mnemonic path)) _ h₁ in
      let (leaf, made, h₃) =
        >>=-eq-ok (subkey_leaf sha next purpose_tag kp.ml_dsa_pk kp.slh_dsa_pk) _ h₂ in
      let r : SubkeyRecord = record {
        global_index = next;
        account = account;
        account_index = account_index;
        purpose_tag = purpose_tag;
        ml_dsa_pk = kp.ml_dsa_pk;
        slh_dsa_pk = kp.slh_dsa_pk;
      } in
      (r, sym (ap (λ (x : Derived). x.0) (ok-injective CeremonyError h₃)), refl, refl, refl)

  derive_lane-InLane :
      (account purpose_tag count account_index : ℕ) (d d' : Derived)
      → derive_lane k sha fips mnemonic account purpose_tag count account_index d ≡ ok d'
      → (lane : List SubkeyRecord) × (d'.0 ≡ d.0 ++ lane)
        × (length lane ≡ count)
        × InLane account purpose_tag account_index lane
  unfolding derive_lane
  derive_lane-InLane account purpose_tag zero account_index d d' h = (
    [],
    sym (ap (λ (x : Derived). x.0) (ok-injective CeremonyError h)) ∙ sym (append-nil d.0),
    refl,
    tt,
  )
  derive_lane-InLane account purpose_tag (suc count) account_index d d' h =
      let (m, e, h₁) =
        >>=-eq-ok (derive_subkey k sha fips mnemonic account purpose_tag account_index d) _ h in
      let (r, first, a, p, n) = derive_subkey-InLane account purpose_tag account_index d m e in
      let (lane, others, size, rest) =
        derive_lane-InLane account purpose_tag count (account_index + 1) m d' h₁ in
      (
        r ∷ lane,
        others ∙ ap (λ rs. rs ++ lane) first ∙ append_assoc d.0 (r ∷ []) lane,
        ap suc size,
        (a, p, n, rest),
      )

  derive_subkeys-InLane :
      (config : CeremonyConfig) (d : Derived)
      → derive_subkeys k sha fips mnemonic config ≡ ok d
      → (auth : List SubkeyRecord) × (enc : List SubkeyRecord) × (d.0 ≡ auth ++ enc)
        × (length auth ≡ config.auth_count)
        × (length enc ≡ config.enc_count)
        × InLane 1 1 0 auth
        × InLane 2 2 0 enc
  unfolding derive_subkeys
  derive_subkeys-InLane config d h =
      let (m, e, h₁) =
        >>=-eq-ok (derive_lane k sha fips mnemonic 1 1 config.auth_count 0 ([], [], 0)) _ h in
      let (auth, first, size, lane) = derive_lane-InLane 1 1 config.auth_count 0 ([], [], 0) m e in
      let (enc, second, size', lane') = derive_lane-InLane 2 2 config.enc_count 0 m d h₁ in
      (auth, enc, second ∙ ap (λ rs. rs ++ enc) first, size, size', lane, lane')

-- The place of the subkey at a position: the Auth lane first, then the second lane.
abbrev pub Place : CeremonyConfig → ℕ → SubkeyRecord → Type 0
Place config i r =
    ((i < config.auth_count) × (r.account ≡ 1) × (r.purpose_tag ≡ 1) × (r.account_index ≡ i))
    ⊎ ((r.account ≡ 2)
        × (r.purpose_tag ≡ 2)
        × (i ≡ config.auth_count + r.account_index)
        × (r.account_index < config.enc_count))

module _ (k : Keyfork) (sha : Sha256) (fips : Fips) (hex base64 : TextCodec) where
  Place-lanes :
      (config : CeremonyConfig) (auth enc : List SubkeyRecord) (i : ℕ) {r : SubkeyRecord}
      → length auth ≡ config.auth_count
      → length enc ≡ config.enc_count
      → InLane 1 1 0 auth
      → InLane 2 2 0 enc
      → get_elem? (auth ++ enc) i ≡ some r
      → Place config i r
  Place-lanes config auth enc i {r} size size' lane lane' at = elim (lt_or_ge i (length auth)) [
    | inl before ↦
        let (a, p, n) =
          get_elem?-InLane 1 1 0 auth i lane (sym (get_elem?-append-lt auth enc i before) ∙ at) in
        inl (omega (arith, before, size), a, p, omega (arith, n))
    | inr (j, behind) ↦
        let there =
          sym (get_elem?-append-add auth enc j) ∙ ap (get_elem? (auth ++ enc)) (sym behind) ∙ at in
        let (a, p, n) = get_elem?-InLane 2 2 0 enc j lane' there in
        inr (
          a,
          p,
          omega (arith, behind, size, n),
          omega (arith, n, size', get_elem?-lt enc j r there),
        )
  ]
    where
      lt_or_ge : (i n : ℕ) → (i < n) ⊎ ((j : ℕ) × (i ≡ n + j))
      lt_or_ge i n = elim (Bool-cases (ltb i n)) [
        | inl below ↦ inl (ltb→lt i n below)
        | inr above ↦ inr (i - n, omega (arith, ltb→le i n above))
      ]

  -- In a ceremony that finishes, the subkey at a position below the count of the Auth lane is of
  -- account 1 and purpose 1, with the position as its index in the account; any other is of account 2
  -- and purpose 2, and its index in the account is the rest of the position, below the count of the
  -- second lane.
  pub run_ceremony-Place :
      (n : Nsm) (root_ca_der : Bytes) (config : CeremonyConfig) (entropy ml_drawn slh_drawn : Bytes)
      (state : CeremonyState k) (i : ℕ) (r : SubkeyRecord)
      → run_ceremony k sha fips hex base64 n root_ca_der config entropy ml_drawn slh_drawn
        ≡ ok state
      → get_elem? state.subkeys i ≡ some r
      → Place config i r
  run_ceremony-Place n root_ca_der config entropy ml_drawn slh_drawn state i r h at =
      let p =
        run_ceremony-Ran k sha fips hex base64 n root_ca_der config entropy ml_drawn slh_drawn state
          h in
      let (auth, enc, joined, size, size', lane, lane') =
        derive_subkeys-InLane k sha fips p.mnemonic config p.d p.derived in
      let subkeys : state.subkeys ≡ auth ++ enc =
        sym (ap (λ (s : CeremonyState k). s.subkeys) p.made) ∙ joined in
      Place-lanes config auth enc i size size' lane lane'
        (ap (λ rs. get_elem? rs i) (sym subkeys) ∙ at)
