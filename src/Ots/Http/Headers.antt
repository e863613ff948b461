-- ===== src/Ots/Http/Headers.antt =====
-- crates/pq-ots/src/http.rs: what the Esplora header source answers.
use mathlib.Core.List.{reverse_aux}
use pq_enclave_binding.Base.{
  ℕ, ◌+◌, ◌<◌, ◌≡◌, ◌↔◌, sym, ap, ◌∙◌, arith, not, ◌==◌, ==_iff, [], ◌∷◌, reverse, Option, some,
  Bytes, String, ◌<>◌, ok, >>=-eq-ok, ok-injective, map_err, map_err-eq-ok, fail_if,
  fail_unless-eq-ok, refl, display, trim, Fresh, CutAt, length, parse, parse_bound, u64_mod, ok_or,
  after_first, digit_prefix,
}
use pq_enclave_binding.External.{TextCodec}
use pq_enclave_binding.Ots.Http.Fields.{json_str_field_iff}
use pq_enclave_binding.Ots.Http.{
  Ureq, EsploraHeaderSource, json_str_field, json_u64_field, block_json, merkle_root, block_time,
}

length-reverse_aux : (xs ys : Bytes) → length (reverse_aux xs ys) ≡ length xs + length ys
length-reverse_aux [] ys = omega arith
length-reverse_aux (x ∷ xs) ys = omega (arith, length-reverse_aux xs (x ∷ ys))

module _ (ureq : Ureq) where
  json_u64_field_bound :
      (body name : String) (n : ℕ) → json_u64_field ureq body name ≡ ok n → n < u64_mod
  unfolding json_u64_field
  json_u64_field_bound body name n h =
      let key = "\"" <> (name <> "\":") in
      let (rest, e, k) =
        >>=-eq-ok (ok_or (after_first key body) ("no " <> (name <> " in block response"))) _ h in
      let value = parse u64_mod (digit_prefix rest) in
      parse_bound u64_mod (digit_prefix rest) (omega arith) (map_err-eq-ok _ value k)

  -- The body that two requests answer: the hash of the block at the height, in decimal, and then
  -- the block of that hash, with the white space around it removed.
  abbrev pub Fetched : EsploraHeaderSource → ℕ → String → Type 0
  Fetched esplora height body =
      (hash : String) × (ureq.get (esplora.base_url <> ("/block-height/" <> display height))
        ≡ ok (ok hash))
      × (ureq.get (esplora.base_url <> ("/block/" <> trim hash)) ≡ ok (ok body))

  -- The value stands in quotes behind the first place of the body with the name in quotes, a colon
  -- and a quote.
  abbrev pub Shows : String → String → String → Type 0
  Shows body name value =
      (pre : String) × (rest : String) × (body ≡ pre <> (("\"" <> (name <> "\":\"")) <> rest))
      × Fresh ("\"" <> (name <> "\":\"")) pre (("\"" <> (name <> "\":\"")) <> rest)
      × CutAt b'"' rest value

  block_json_iff :
      (esplora : EsploraHeaderSource) (height : ℕ) (body : String)
      → (block_json ureq esplora height ≡ ok body) ↔ Fetched esplora height body
  unfolding block_json
  block_json_iff esplora height body = (
    λ h.
        let hash_url = esplora.base_url <> ("/block-height/" <> display height) in
        let (response, e₁, h₁) = >>=-eq-ok (map_err _ (ureq.get hash_url)) _ h in
        let (hash, e₂, h₂) = >>=-eq-ok (map_err _ response) _ h₁ in
        let block_url = esplora.base_url <> ("/block/" <> trim hash) in
        let (reply, e₃, h₃) = >>=-eq-ok (map_err _ (ureq.get block_url)) _ h₂ in
        (
          hash,
          map_err-eq-ok _ (ureq.get hash_url) e₁ ∙ ap ok (map_err-eq-ok _ response e₂),
          map_err-eq-ok _ (ureq.get block_url) e₃ ∙ ap ok (map_err-eq-ok _ reply h₃),
        ),
    λ (hash, e₁, e₂). rw (e₁, e₂) refl,
  )

  -- The Esplora source answers a root exactly if a request for the hash at the height and a request
  -- for the block of that hash, trimmed, are answered, and the first `merkle_root` field of the
  -- block is 32 bytes in hexadecimal, and the root is these bytes in reverse: the
  -- display order turned into the order that a proof commits to.
  pub merkle_root_iff :
      (hex : TextCodec) (esplora : EsploraHeaderSource) (height : ℕ) (root : Bytes)
      → (merkle_root ureq hex esplora height ≡ ok root) ↔ (
          (body : String) × (shown : String) × (bytes : Bytes) × Fetched esplora height body
          × Shows body "merkle_root" shown
          × (hex.decode shown ≡ ok bytes)
          × (length bytes ≡ 32)
          × (root ≡ reverse bytes))
  unfolding merkle_root
  merkle_root_iff hex esplora height root = (read, made)
    where
      read :
          merkle_root ureq hex esplora height ≡ ok root
          → (body : String) × (shown : String) × (bytes : Bytes) × Fetched esplora height body
            × Shows body "merkle_root" shown
            × (hex.decode shown ≡ ok bytes)
            × (length bytes ≡ 32)
            × (root ≡ reverse bytes)
      read h =
          let (body, e₁, h₁) = >>=-eq-ok (block_json ureq esplora height) _ h in
          let (shown, e₂, h₂) = >>=-eq-ok (json_str_field body "merkle_root") _ h₁ in
          let (bytes, e₃, h₃) = >>=-eq-ok (map_err _ (hex.decode shown)) _ h₂ in
          let (_, e₄, h₄) = >>=-eq-ok (fail_if (not (length bytes == 32)) _) _ h₃ in
          (
            body,
            shown,
            bytes,
            (block_json_iff esplora height body).0 e₁,
            (json_str_field_iff body "merkle_root" shown).0 e₂,
            map_err-eq-ok _ (hex.decode shown) e₃,
            (==_iff _ _).0 (fail_unless-eq-ok _ _ e₄),
            sym (ok-injective String h₄),
          )

      made :
          (body : String) × (shown : String) × (bytes : Bytes) × Fetched esplora height body
            × Shows body "merkle_root" shown
            × (hex.decode shown ≡ ok bytes)
            × (length bytes ≡ 32)
            × (root ≡ reverse bytes)
          → merkle_root ureq hex esplora height ≡ ok root
      made (body, shown, bytes, e₁, e₂, e₃, size, same) = rw (
        (block_json_iff esplora height body).1 e₁,
        (json_str_field_iff body "merkle_root" shown).1 e₂,
        e₃,
        (==_iff _ _).1 size,
        same,
      )

  -- Every root that the Esplora source answers is 32 bytes, and every answer on a block's time is
  -- a `u64`: it never answers that there is no time.
  pub esplora_bounds :
      (hex : TextCodec) (esplora : EsploraHeaderSource) (height : ℕ)
      → ((root : Bytes) → merkle_root ureq hex esplora height ≡ ok root → length root ≡ 32)
        × ((time : Option ℕ)
            → block_time ureq esplora height ≡ ok time
            → (n : ℕ) × (time ≡ some n) × (n < u64_mod))
  unfolding block_time
  esplora_bounds hex esplora height = (sized, timed)
    where
      sized : (root : Bytes) → merkle_root ureq hex esplora height ≡ ok root → length root ≡ 32
      sized root h =
          let (_, _, bytes, _, _, _, size, same) = (merkle_root_iff hex esplora height root).0 h in
          ap length same ∙ length-reverse_aux bytes [] ∙ omega (arith, size)

      timed :
          (time : Option ℕ)
          → block_time ureq esplora height ≡ ok time
          → (n : ℕ) × (time ≡ some n) × (n < u64_mod)
      timed time h =
          let (body, _, h₁) = >>=-eq-ok (block_json ureq esplora height) _ h in
          let (n, e, h₂) = >>=-eq-ok (json_u64_field ureq body "timestamp") _ h₁ in
          (n, sym (ok-injective String h₂), json_u64_field_bound body "timestamp" n e)
