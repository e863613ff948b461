-- ===== src/External.antt =====
-- The crates that the workspace calls and does not contain, as records of their operations with
-- the documented behaviour that the code relies on. Every definition that uses one takes it as a
-- parameter; the tests instantiate them by concrete functions. An error of such a crate is the
-- text that it displays.
use pq_enclave_binding.Base.{
  ℕ, ◌≡◌, ◌<◌, Bytes, Option, some, length, Bool, true, Outcome, ok, String, All, IsByte, u32_mod,
}

-- `sha2::Sha256`. Streaming `update` calls are one `digest` of the joined bytes.
pub record Sha256 : Type 0 where
  pub digest : Bytes → Bytes
  pub length-digest : (b : Bytes) → length (digest b) ≡ 32
  pub digest-IsByte : (b : Bytes) → All IsByte (digest b)

-- Two different texts with one digest. A security theorem that has this as its alternative names
-- the two texts, which are texts that the runs hash.
pub record Collides (sha : Sha256) (left right : Bytes) : Type 0 where
  pub differ : left ≡ right → ⊥
  pub same : sha.digest left ≡ sha.digest right

-- The `hex` crate, and the standard engine of `base64`.
pub record TextCodec : Type 0 where
  pub encode : Bytes → String
  pub decode : String → Outcome String Bytes
  pub decode-encode : (b : Bytes) → All IsByte b → decode (encode b) ≡ ok b

-- `serde_json` at a type that derives `Serialize` and `Deserialize`.
pub record Json (A : Type 0) : Type 0 where
  pub to_string_pretty : A → Outcome String String
  pub from_str : String → Outcome String A

-- One signature algorithm of `fips204` or `fips205`, with the empty context. `try_sign` is given
-- what the random generator yields. `Pair` says that two keys were generated together.
pub record Scheme : Type 1 where
  pub PublicKey : Type 0
  pub PrivateKey : Type 0
  pub Pair : PublicKey → PrivateKey → Type 0
  pub pk_len : ℕ
  pub sig_len : ℕ
  pub into_bytes : PublicKey → Bytes
  pub try_from_bytes : Bytes → Option PublicKey
  pub try_sign : PrivateKey → Bytes → Bytes → Option Bytes
  pub verify : PublicKey → Bytes → Bytes → Bool

-- Encoded keys decode, and a generated key signs what its public key accepts.
pub record SchemeLaws (s : Scheme) : Type 0 where
  pub length-into_bytes : (pk : s.PublicKey) → length (s.into_bytes pk) ≡ s.pk_len
  pub into_bytes-IsByte : (pk : s.PublicKey) → All IsByte (s.into_bytes pk)
  pub try_from_bytes-into_bytes : (pk : s.PublicKey) → s.try_from_bytes (s.into_bytes pk) ≡ some pk
  pub verify-try_sign :
      (pk : s.PublicKey) (sk : s.PrivateKey) (drawn payload : Bytes)
      → s.Pair pk sk
      → (sig : Bytes) × (s.try_sign sk drawn payload ≡ some sig)
        × (length sig ≡ s.sig_len)
        × All IsByte sig
        × (s.verify pk payload sig ≡ true)

-- `fips204::ml_dsa_65` and `fips205::slh_dsa_shake_128f` with their key generators. The one of
-- SLH-DSA is `try_keygen_with_rng` over `ChaCha20Rng::from_seed`.
pub record Fips : Type 1 where
  pub ml_dsa : Scheme
  pub slh_dsa : Scheme
  pub ml_dsa_keygen_from_seed : Bytes → ml_dsa.PublicKey × ml_dsa.PrivateKey
  pub ml_dsa_try_keygen : Bytes → Option (ml_dsa.PublicKey × ml_dsa.PrivateKey)
  pub slh_dsa_keygen_from_chacha : Bytes → Option (slh_dsa.PublicKey × slh_dsa.PrivateKey)
  pub slh_dsa_try_keygen : Bytes → Option (slh_dsa.PublicKey × slh_dsa.PrivateKey)

-- Generated keys are pairs. Over an in-memory generator SLH-DSA key generation does not fail.
pub record FipsLaws (f : Fips) : Type 0 where
  pub ml_dsa_laws : SchemeLaws f.ml_dsa
  pub slh_dsa_laws : SchemeLaws f.slh_dsa
  pub ml_dsa_pair :
      (seed : Bytes)
      → f.ml_dsa.Pair (f.ml_dsa_keygen_from_seed seed).0 (f.ml_dsa_keygen_from_seed seed).1
  pub slh_dsa_pair :
      (seed : Bytes)
      → (pk : f.slh_dsa.PublicKey) × (sk : f.slh_dsa.PrivateKey) × (f.slh_dsa_keygen_from_chacha
            seed
          ≡ some (pk, sk))
        × f.slh_dsa.Pair pk sk
  pub pk_len_lt : (f.ml_dsa.pk_len < u32_mod) × (f.slh_dsa.pk_len < u32_mod)
