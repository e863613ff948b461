-- ===== src/Ceremony/Lanes.antt =====
-- crates/pq-ceremony/src/lib.rs: the derivation loops number the subkeys by their positions, and
-- each leaf is that of its record.
use pq_enclave_binding.Base.{
  ℕ, zero, suc, ◌+◌, ◌<◌, ◌≡◌, refl, ap, subst, arith, List, [], ◌∷◌, ◌++◌, some, Bytes, ok,
  >>=-eq-ok, ok-injective, map_err, length, length-append, get_elem?, u32_mod,
}
use pq_enclave_binding.External.{Sha256, Fips}
use pq_enclave_binding.Merkle.{subkey_leaf}
use pq_enclave_binding.Derive.{Keyfork, subkey_path, derive_keypair}
use pq_enclave_binding.Ceremony.{
  CeremonyError, derive, CeremonyConfig, SubkeyRecord, Derived, derive_subkey, derive_lane,
  derive_subkeys,
}

-- Records from position `n` on, with their leaves.
pub data Numbered (sha : Sha256) : ℕ → List SubkeyRecord → List Bytes → Type 0 where
  nil : {n : ℕ} → Numbered sha n [] []
  cons :
      {n : ℕ} {r : SubkeyRecord} {leaf : Bytes} {rs : List SubkeyRecord} {leaves : List Bytes}
      → r.global_index ≡ n
      → subkey_leaf sha {E = CeremonyError} r.global_index r.purpose_tag r.ml_dsa_pk r.slh_dsa_pk
        ≡ ok leaf
      → Numbered sha (suc n) rs leaves
      → Numbered sha n (r ∷ rs) (leaf ∷ leaves)

module _ (sha : Sha256) where
  pub Numbered-append :
      {n : ℕ} (rs : List SubkeyRecord) (leaves : List Bytes) (r : SubkeyRecord) (leaf : Bytes)
      → Numbered sha n rs leaves
      → r.global_index ≡ length rs + n
      → subkey_leaf sha {E = CeremonyError} r.global_index r.purpose_tag r.ml_dsa_pk r.slh_dsa_pk
        ≡ ok leaf
      → Numbered sha n (rs ++ (r ∷ [])) (leaves ++ (leaf ∷ []))
  Numbered-append [] (l ∷ leaves) r leaf x e made = elim x [ ]
  Numbered-append (r' ∷ rs) [] r leaf x e made = elim x [ ]
  Numbered-append [] [] r leaf nil e made = cons (omega (arith, e)) made nil
  Numbered-append (r' ∷ rs) (leaf' ∷ leaves) r leaf (cons e' made' rest) e made =
      cons e' made' (Numbered-append rs leaves r leaf rest (omega (arith, e)) made)

  pub length-Numbered :
      {n : ℕ} (rs : List SubkeyRecord) (leaves : List Bytes)
      → Numbered sha n rs leaves
      → length leaves ≡ length rs
  length-Numbered [] (l ∷ leaves) x = elim x [ ]
  length-Numbered (r ∷ rs) [] x = elim x [ ]
  length-Numbered [] [] nil = refl
  length-Numbered (r ∷ rs) (leaf ∷ leaves) (cons e made rest) =
      ap suc (length-Numbered rs leaves rest)

  -- The record at a position has it as its index, behind the start, and its leaf stands there.
  pub get_elem?-Numbered :
      (n : ℕ) (rs : List SubkeyRecord) (leaves : List Bytes) (i : ℕ) {r : SubkeyRecord}
      → Numbered sha n rs leaves
      → get_elem? rs i ≡ some r
      → (r.global_index ≡ i + n)
        × (leaf : Bytes) × (get_elem? leaves i ≡ some leaf)
        × (subkey_leaf sha {E = CeremonyError} r.global_index r.purpose_tag r.ml_dsa_pk r.slh_dsa_pk
            ≡ ok leaf)
  get_elem?-Numbered n [] leaves i x at = cc
  get_elem?-Numbered n (r ∷ rs) [] i x at = elim x [ ]
  get_elem?-Numbered n (r ∷ rs) (leaf ∷ leaves) zero {r = s} (cons e made rest) at =
      subst {A = SubkeyRecord}
        (λ s.
          (s.global_index ≡ 0 + n)
          × (leaf' : Bytes) × (some leaf ≡ some leaf')
          × (subkey_leaf sha {E = CeremonyError} s.global_index s.purpose_tag s.ml_dsa_pk
                s.slh_dsa_pk
              ≡ ok leaf'))
        {x = r} {y = s} (cc at) (omega (arith, e), leaf, refl, made)
  get_elem?-Numbered n (r ∷ rs) (leaf ∷ leaves) (suc i) (cons e made rest) at =
      let (index, leaf', found, made') = get_elem?-Numbered (suc n) rs leaves i rest at in
      (omega (arith, index), leaf', found, made')

-- The state of the loops: records and leaves are numbered, and the next index is their number.
abbrev pub Aligned : Sha256 → Derived → Type 0
Aligned sha (subkeys, leaves, next) = Numbered sha 0 subkeys leaves × (next ≡ length subkeys)

module _ (k : Keyfork) (sha : Sha256) (fips : Fips) where
  derive_subkey-Aligned :
      (mnemonic : k.Mnemonic) (account purpose_tag account_index : ℕ) (d d' : Derived)
      → d.2 + 1 < u32_mod
      → Aligned sha d
      → derive_subkey k sha fips mnemonic account purpose_tag account_index d ≡ ok d'
      → Aligned sha d' × (d'.2 ≡ d.2 + 1)
  unfolding derive_subkey
  derive_subkey-Aligned mnemonic account purpose_tag account_index (rs, leaves, next) d' small
        (numbered, e) h =
      let (path, e₁, h₁) = >>=-eq-ok (subkey_path k account account_index) _ h in
      let (kp, e₂, h₂) =
        >>=-eq-ok (map_err derive (derive_keypair k sha fips mnemonic path)) _ h₁ in
      let (leaf, made, h₃) =
        >>=-eq-ok (subkey_leaf sha next purpose_tag kp.ml_dsa_pk kp.slh_dsa_pk) _ h₂ in
      let r : SubkeyRecord = record {
        global_index = next;
        account = account;
        account_index = account_index;
        purpose_tag = purpose_tag;
        ml_dsa_pk = kp.ml_dsa_pk;
        slh_dsa_pk = kp.slh_dsa_pk;
      } in
      subst {A = Derived} (λ x. Aligned sha x × (x.2 ≡ next + 1)) (ok-injective CeremonyError h₃)
        (
          (
            Numbered-append sha rs leaves r leaf numbered (omega (arith, e)) made,
            omega (arith, e, length-append rs (r ∷ [])),
          ),
          omega (arith, small),
        )

  derive_lane-Aligned :
      (mnemonic : k.Mnemonic) (account purpose_tag count account_index : ℕ) (d d' : Derived)
      → d.2 + count < u32_mod
      → Aligned sha d
      → derive_lane k sha fips mnemonic account purpose_tag count account_index d ≡ ok d'
      → Aligned sha d' × (d'.2 ≡ d.2 + count)
  unfolding derive_lane
  derive_lane-Aligned mnemonic account purpose_tag zero account_index d d' small a h =
      subst {A = Derived} (λ x. Aligned sha x × (x.2 ≡ d.2 + 0)) (ok-injective CeremonyError h)
        (a, omega arith)
  derive_lane-Aligned mnemonic account purpose_tag (suc count) account_index d d' small a h =
      let (m, e, h₁) =
        >>=-eq-ok (derive_subkey k sha fips mnemonic account purpose_tag account_index d) _ h in
      let (a₁, n₁) =
        derive_subkey-Aligned mnemonic account purpose_tag account_index d m (omega (arith, small))
          a e in
      let (a₂, n₂) =
        derive_lane-Aligned mnemonic account purpose_tag count (account_index + 1) m d'
          (omega (arith, small, n₁)) a₁ h₁ in
      (a₂, omega (arith, n₁, n₂))

  -- When the two counts together are a `u32`, the derived subkeys are numbered by their positions,
  -- each leaf is the hash of its record, and the final index is the sum of the counts.
  pub derive_subkeys-Aligned :
      (mnemonic : k.Mnemonic) (config : CeremonyConfig) (d : Derived)
      → config.auth_count + config.enc_count < u32_mod
      → derive_subkeys k sha fips mnemonic config ≡ ok d
      → Aligned sha d × (d.2 ≡ config.auth_count + config.enc_count)
  unfolding derive_subkeys
  derive_subkeys-Aligned mnemonic config d small h =
      let (m, e, h₁) =
        >>=-eq-ok (derive_lane k sha fips mnemonic 1 1 config.auth_count 0 ([], [], 0)) _ h in
      let (a₁, n₁) =
        derive_lane-Aligned mnemonic 1 1 config.auth_count 0 ([], [], 0) m (omega (arith, small))
          (nil, refl) e in
      let (a₂, n₂) =
        derive_lane-Aligned mnemonic 2 2 config.enc_count 0 m d (omega (arith, small, n₁)) a₁ h₁ in
      (a₂, omega (arith, n₁, n₂))
