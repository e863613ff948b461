-- ===== src/Core/Payload.antt =====
-- crates/pq-core/src/lib.rs: the signed payloads are unambiguous, and the commitment fits the NSM.
use pq_enclave_binding.Base.{
  ℕ, ◌≤◌, ◌<◌, ◌≡◌, sym, ap, ◌∙◌, arith, Bytes, ◌++◌, ok, length, length-append, be32, u32_mod,
  be32-injective, prefixed_split, list_laws,
}
use pq_enclave_binding.External.{Sha256}
use pq_enclave_binding.Core.{
  canonical_payload, canonical_payload_with_subkeys, user_data_commitment, user_data_prefix,
}

-- The two lengths that `canonical_payload` writes fit 32 bits exactly if it does not panic.
pub canonical_payload-eq-ok {ℓ} :
    (E : Type ℓ) (ml slh : Bytes) {v : Bytes}
    → canonical_payload {E = E} ml slh ≡ ok v
    → (length ml < u32_mod)
      × (length slh < u32_mod)
      × (v ≡ be32 (length ml) ++ (ml ++ (be32 (length slh) ++ slh)))
unfolding canonical_payload
canonical_payload-eq-ok E ml slh h = ground arith

pub canonical_payload_lem {ℓ} :
    (E : Type ℓ) (ml slh : Bytes)
    → length ml < u32_mod
    → length slh < u32_mod
    → canonical_payload {E = E} ml slh ≡ ok (be32 (length ml) ++ (ml ++ (be32 (length slh) ++ slh)))
unfolding canonical_payload
canonical_payload_lem E ml slh h k = ground arith

-- What the payload with subkeys is, as one text.
abbrev pub payload_text : Bytes → Bytes → Bytes → ℕ → Bytes
payload_text ml slh root count =
    be32 (length ml)
    ++ (ml ++ (be32 (length slh) ++ (slh ++ (be32 (length root) ++ (root ++ be32 count)))))

joined :
    (ml slh tail : Bytes)
    → (be32 (length ml) ++ (ml ++ (be32 (length slh) ++ slh))) ++ tail
      ≡ be32 (length ml) ++ (ml ++ (be32 (length slh) ++ (slh ++ tail)))
joined ml slh tail = simp list_laws

pub with_subkeys-eq-ok {ℓ} :
    (E : Type ℓ) (ml slh root : Bytes) (count : ℕ) {v : Bytes}
    → canonical_payload_with_subkeys {E = E} ml slh root count ≡ ok v
    → (length ml < u32_mod)
      × (length slh < u32_mod)
      × (length root < u32_mod)
      × (v ≡ payload_text ml slh root count)
unfolding canonical_payload_with_subkeys
with_subkeys-eq-ok E ml slh root count h =
    ground (arith, joined ml slh (be32 (length root) ++ (root ++ be32 count)))

pub with_subkeys_lem {ℓ} :
    (E : Type ℓ) (ml slh root : Bytes) (count : ℕ)
    → length ml < u32_mod
    → length slh < u32_mod
    → length root < u32_mod
    → canonical_payload_with_subkeys {E = E} ml slh root count ≡ ok (payload_text ml slh root count)
unfolding canonical_payload_with_subkeys
with_subkeys_lem E ml slh root count a b c =
    ground (arith, joined ml slh (be32 (length root) ++ (root ++ be32 count)))

-- The payload does not depend on the caller's errors.
pub with_subkeys-transfer {ℓ κ} :
    (E : Type ℓ) (F : Type κ) (ml slh root : Bytes) (count : ℕ) {v : Bytes}
    → canonical_payload_with_subkeys {E = E} ml slh root count ≡ ok v
    → canonical_payload_with_subkeys {E = F} ml slh root count ≡ ok v
with_subkeys-transfer E F ml slh root count h =
    let (a, b, c, e) = with_subkeys-eq-ok E ml slh root count h in
    with_subkeys_lem F ml slh root count a b c ∙ ap ok (sym e)

payload_text-injective :
    (ml slh root : Bytes) (count : ℕ) (ml' slh' root' : Bytes) (count' : ℕ)
    → length ml < u32_mod
    → length slh < u32_mod
    → length root < u32_mod
    → count < u32_mod
    → length ml' < u32_mod
    → length slh' < u32_mod
    → length root' < u32_mod
    → count' < u32_mod
    → payload_text ml slh root count ≡ payload_text ml' slh' root' count'
    → (ml ≡ ml') × (slh ≡ slh') × (root ≡ root') × (count ≡ count')
payload_text-injective ml slh root count ml' slh' root' count' a b c d a' b' c' d' e =
    let (eml, e₁) = prefixed_split ml ml' a a' e in
    let (eslh, e₂) = prefixed_split slh slh' b b' e₁ in
    let (eroot, e₃) = prefixed_split root root' c c' e₂ in
    (eml, eslh, eroot, be32-injective count count' d d' e₃)

-- Two calls of `canonical_payload_with_subkeys` that give one payload were given the same ML-DSA
-- key, SLH-DSA key, Merkle root and count; the counts are `u32` values.
pub with_subkeys-injective {ℓ} :
    (E : Type ℓ) (ml slh root : Bytes) (count : ℕ) (ml' slh' root' : Bytes) (count' : ℕ) (v : Bytes)
    → count < u32_mod
    → count' < u32_mod
    → canonical_payload_with_subkeys {E = E} ml slh root count ≡ ok v
    → canonical_payload_with_subkeys {E = E} ml' slh' root' count' ≡ ok v
    → (ml ≡ ml') × (slh ≡ slh') × (root ≡ root') × (count ≡ count')
with_subkeys-injective E ml slh root count ml' slh' root' count' v d d' h h' =
    let (a, b, c, e) = with_subkeys-eq-ok E ml slh root count h in
    let (a', b', c', e') = with_subkeys-eq-ok E ml' slh' root' count' h' in
    payload_text-injective ml slh root count ml' slh' root' count' a b c d a' b' c' d' (sym e ∙ e')

-- The commitment is the 14-byte prefix and a digest, 46 bytes, within the 512 of the NSM.
pub length-user_data_commitment :
    (sha : Sha256) (payload : Bytes)
    → (length (user_data_commitment sha payload) ≡ 46)
      × (length (user_data_commitment sha payload) ≤ 512)
unfolding user_data_commitment user_data_prefix
length-user_data_commitment sha payload =
    let n = length-append user_data_prefix (sha.digest payload) in
    (omega (arith, n, sha.length-digest payload), omega (arith, n, sha.length-digest payload))
