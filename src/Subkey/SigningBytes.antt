-- ===== src/Subkey/SigningBytes.antt =====
-- crates/pq-subkey/src/lib.rs: the signed bytes of a certificate determine what they were made of.
use pq_enclave_binding.Base.{
  ℕ, ◌<◌, ◌≡◌, refl, sym, ◌∙◌, ap, arith, ◌∷◌, ◌++◌, Bytes, as_bytes, ok, ok-injective, >>=-eq-ok,
  length, append_assoc, append_split, be32, be64, u32_mod, u64_mod, u32_len_lem, be64_split,
  be64-injective, prefixed_split,
}
use pq_enclave_binding.Subkey.{
  cert_version, signing_domain, SubkeyPurpose, auth, encryption, tag, SubkeyMeta, lp, signing_bytes,
}

tag-injective : (p q : SubkeyPurpose) → tag p ≡ tag q → p ≡ q
unfolding tag
tag-injective auth auth e = refl
tag-injective auth encryption e = cc
tag-injective encryption auth e = cc
tag-injective encryption encryption e = refl

-- The numbers are `u64` values.
pub record IsMeta (m : SubkeyMeta) : Type 0 where
  pub serial_lt : m.serial < u64_mod
  pub not_before_lt : m.not_before < u64_mod
  pub not_after_lt : m.not_after < u64_mod

abbrev pub header : Bytes
unfolding as_bytes be32
header = (be32 17 ++ signing_domain) ++ (be32 1 ++ as_bytes cert_version)

-- The bytes behind the constant header, as one text.
abbrev pub body : Bytes → Bytes → Bytes → SubkeyMeta → Bytes
body binding ml slh meta =
    be32 (length binding)
    ++ (binding
        ++ (be32 (length ml)
            ++ (ml
                ++ (be32 (length slh)
                    ++ (slh
                        ++ (be64 meta.serial
                            ++ (tag meta.purpose
                                ∷ (be64 meta.not_before ++ be64 meta.not_after))))))))

cons_head : {x y : ℕ} {xs ys : Bytes} → x ∷ xs ≡ y ∷ ys → x ≡ y
cons_head e = cc

cons_tail : {x y : ℕ} {xs ys : Bytes} → x ∷ xs ≡ y ∷ ys → xs ≡ ys
cons_tail e = cc

lp-eq-ok {ℓ} : (E : Type ℓ) (b : Bytes) {v : Bytes} → lp {E = E} b ≡ ok v → length b < u32_mod
unfolding lp
lp-eq-ok E b h = ground arith

regroup :
    (d v a b c a' b' c' rest : Bytes)
    → d ++ (v ++ ((a ++ a') ++ ((b ++ b') ++ ((c ++ c') ++ rest))))
      ≡ (d ++ v) ++ (a ++ (a' ++ (b ++ (b' ++ (c ++ (c' ++ rest))))))
regroup d v a b c a' b' c' rest = simp append_assoc

tail_bytes : SubkeyMeta → Bytes
tail_bytes meta =
    be64 meta.serial ++ (tag meta.purpose ∷ (be64 meta.not_before ++ be64 meta.not_after))

pub signing_bytes_lem {ℓ} :
    (E : Type ℓ) (binding ml slh : Bytes) (meta : SubkeyMeta)
    → length binding < u32_mod
    → length ml < u32_mod
    → length slh < u32_mod
    → signing_bytes {E = E} binding ml slh meta ≡ ok (header ++ body binding ml slh meta)
unfolding signing_bytes lp tail_bytes header be32
signing_bytes_lem E binding ml slh meta a b c =
    rw (u32_len_lem binding a, u32_len_lem ml b, u32_len_lem slh c)
      (ap ok (
        regroup (be32 17 ++ signing_domain) (be32 1 ++ as_bytes cert_version)
          (be32 (length binding)) (be32 (length ml)) (be32 (length slh)) binding ml slh
          (tail_bytes meta)))

pub signing_bytes-eq-ok {ℓ} :
    (E : Type ℓ) (binding ml slh : Bytes) (meta : SubkeyMeta) {v : Bytes}
    → signing_bytes {E = E} binding ml slh meta ≡ ok v
    → (length binding < u32_mod)
      × (length ml < u32_mod)
      × (length slh < u32_mod)
      × (v ≡ header ++ body binding ml slh meta)
unfolding signing_bytes
signing_bytes-eq-ok E binding ml slh meta h =
    let (_, e, k) = >>=-eq-ok (lp {E = E} binding) _ h in
    let (_, e', k') = >>=-eq-ok (lp {E = E} ml) _ k in
    let (_, e'', k'') = >>=-eq-ok (lp {E = E} slh) _ k' in
    let a = lp-eq-ok E binding e in
    let b = lp-eq-ok E ml e' in
    let c = lp-eq-ok E slh e'' in
    (a, b, c, ok-injective E (sym h ∙ signing_bytes_lem E binding ml slh meta a b c))

tail_bytes-injective :
    (m m' : SubkeyMeta)
    → IsMeta m
    → IsMeta m'
    → be64 m.serial ++ (tag m.purpose ∷ (be64 m.not_before ++ be64 m.not_after))
      ≡ be64 m'.serial ++ (tag m'.purpose ∷ (be64 m'.not_before ++ be64 m'.not_after))
    → m ≡ m'
tail_bytes-injective m m' i i' e =
    let (serial, e₁) = be64_split m.serial m'.serial i.serial_lt i'.serial_lt e in
    let (start, e₂) =
      be64_split m.not_before m'.not_before i.not_before_lt i'.not_before_lt (cons_tail e₁) in
    let stop = be64-injective m.not_after m'.not_after i.not_after_lt i'.not_after_lt e₂ in
    let purpose = tag-injective m.purpose m'.purpose (cons_head e₁) in ground arith

-- Two calls of `signing_bytes` that give one message were given the same root binding, public keys,
-- serial number, purpose and validity bounds; the numbers are `u64` values.
pub signing_bytes-injective {ℓ} :
    (E : Type ℓ) (binding ml slh : Bytes) (meta : SubkeyMeta) (binding' ml' slh' : Bytes)
    (meta' : SubkeyMeta) (v : Bytes)
    → IsMeta meta
    → IsMeta meta'
    → signing_bytes {E = E} binding ml slh meta ≡ ok v
    → signing_bytes {E = E} binding' ml' slh' meta' ≡ ok v
    → (binding ≡ binding') × (ml ≡ ml') × (slh ≡ slh') × (meta ≡ meta')
signing_bytes-injective E binding ml slh meta binding' ml' slh' meta' v m m' h h' =
    let (a, b, c, e) = signing_bytes-eq-ok E binding ml slh meta h in
    let (a', b', c', e') = signing_bytes-eq-ok E binding' ml' slh' meta' h' in
    let (_, e₀) = append_split header header refl (sym e ∙ e') in
    let (p, e₁) = prefixed_split binding binding' a a' e₀ in
    let (q, e₂) = prefixed_split ml ml' b b' e₁ in
    let (r, e₃) = prefixed_split slh slh' c c' e₂ in
    (p, q, r, tail_bytes-injective meta meta' m m' e₃)
