-- ===== src/Tests/Doubles.antt =====
-- Concrete stand-ins for the crates of `External`, for the runs beside this file. The digest keeps
-- the first 32 bytes, the text codec writes a byte as so many strokes and a dot, and a signature
-- is the key's byte with the first bytes of the message.
use Prim.Native.Char.{code}
use pq_enclave_binding.Base.{
  ℕ, zero, suc, ◌%◌, ◌+◌, ◌∙◌, ◌<◌, ◌≡◌, refl, ap, arith, Bool, true, false, [], ◌∷◌, Option, none,
  some, Bytes, String, Outcome, ok, err, ◌==◌, length, All, IsByte, bytes_eq, bytes_eq_refl,
  if◌then◌else◌, NoPanic, ok-NoPanic, err-NoPanic, if-NoPanic,
}
use pq_enclave_binding.External.{Sha256, TextCodec, Json, Scheme, SchemeLaws, Fips, FipsLaws}

abbrev pub fill : ℕ → Bytes → Bytes
fill zero b = []
fill (suc n) [] = 0 ∷ fill n []
fill (suc n) (x ∷ b) = (x % 256) ∷ fill n b

pub length-fill : (n : ℕ) (b : Bytes) → length (fill n b) ≡ n
length-fill zero b = refl
length-fill (suc n) [] = ap suc (length-fill n [])
length-fill (suc n) (x ∷ b) = ap suc (length-fill n b)

pub fill-IsByte : (n : ℕ) (b : Bytes) → All IsByte (fill n b)
fill-IsByte zero b = tt
fill-IsByte (suc n) [] = (omega arith, fill-IsByte n [])
fill-IsByte (suc n) (x ∷ b) = (omega arith, fill-IsByte n b)

abbrev pub test_sha : Sha256
test_sha = record {
  digest = fill 32;
  length-digest = length-fill 32;
  digest-IsByte = fill-IsByte 32;
}

abbrev strokes : ℕ → String → String
strokes zero s = String.◌∷◌ "." s
strokes (suc n) s = String.◌∷◌ "1" (strokes n s)

abbrev write : Bytes → String
write [] = ""
write (b ∷ bs) = strokes b (write bs)

abbrev pair_up : ℕ → Outcome String Bytes → Outcome String Bytes
pair_up n (ok bs) = ok (n ∷ bs)
pair_up n (err e) = err e
pair_up n Outcome.panic = Outcome.panic

abbrev read : ℕ → String → Outcome String Bytes
read n String.[] = if n == 0 then ok [] else err "text ends in a byte"
read n (String.◌∷◌ c s) = elim (code c == 46) [
  | true ↦ pair_up n (read 0 s)
  | false ↦ read (suc n) s
]

read-strokes : (n m : ℕ) (s : String) → read m (strokes n s) ≡ pair_up (n + m) (read 0 s)
read-strokes zero m s = ap (λ k. pair_up k (read 0 s)) (omega arith)
read-strokes (suc n) m s = read-strokes n (suc m) s ∙ ap (λ k. pair_up k (read 0 s)) (omega arith)

pub read-write : (b : Bytes) → read 0 (write b) ≡ ok b
read-write [] = refl
read-write (b ∷ bs) =
    read-strokes b 0 (write bs)
    ∙ ap (pair_up (b + 0)) (read-write bs)
    ∙ ap (λ n. ok (n ∷ bs)) (omega arith)

pair_up-NoPanic : (n : ℕ) (m : Outcome String Bytes) → NoPanic m → NoPanic (pair_up n m)
pair_up-NoPanic n (ok bs) p h = cc h
pair_up-NoPanic n (err e) p h = cc h
pair_up-NoPanic n Outcome.panic p h = p refl

pub read-NoPanic : (n : ℕ) (s : String) → NoPanic (read n s)
read-NoPanic n String.[] =
    if-NoPanic (n == 0) _ _ (ok-NoPanic []) (err-NoPanic "text ends in a byte")
read-NoPanic n (String.◌∷◌ c s) =
    by_code (code c == 46) _ _ (pair_up-NoPanic n (read 0 s) (read-NoPanic 0 s))
      (read-NoPanic (suc n) s)
  where
    by_code :
        (dot : Bool) (x y : Outcome String Bytes)
        → NoPanic x
        → NoPanic y
        → NoPanic (elim dot [ true ↦ x | false ↦ y ])
    by_code true x y p q = p
    by_code false x y p q = q

abbrev pub test_codec : TextCodec
test_codec = record { encode = write; decode = read 0; decode-encode = λ b all. read-write b }

-- A key is one bit, and a private key is its public key.
abbrev key_byte : Bool → ℕ
key_byte true = 1
key_byte false = 0

abbrev read_key : Bytes → Option Bool
read_key [] = none
read_key (b ∷ []) = if b == 0 then some false else (if b == 1 then some true else none)
read_key (b ∷ c ∷ bs) = none

abbrev test_sign : Bool → Bytes → Bytes
test_sign key payload = key_byte key ∷ fill 60 payload

abbrev pub test_scheme : Scheme
test_scheme = record {
  PublicKey = Bool;
  PrivateKey = Bool;
  Pair = λ pk sk. pk ≡ sk;
  pk_len = 1;
  sig_len = 61;
  into_bytes = λ key. key_byte key ∷ [];
  try_from_bytes = read_key;
  try_sign = λ key drawn payload. some (test_sign key payload);
  verify = λ key payload sig. bytes_eq sig (test_sign key payload);
}

pub test_scheme_laws : SchemeLaws test_scheme
test_scheme_laws = record {
  length-into_bytes = λ pk. refl;
  into_bytes-IsByte = λ pk. (key_byte-IsByte pk, tt);
  try_from_bytes-into_bytes = λ pk. read_key-key_byte pk;
  verify-try_sign = λ pk sk drawn payload pair. (
    test_sign sk payload,
    refl,
    ap suc (length-fill 60 payload),
    (key_byte-IsByte sk, fill-IsByte 60 payload),
    ap (λ k. bytes_eq (test_sign sk payload) (test_sign k payload)) pair
        ∙ bytes_eq_refl (test_sign sk payload),
  );
}
  where
    key_byte-IsByte : (key : Bool) → key_byte key < 256
    key_byte-IsByte true = omega arith
    key_byte-IsByte false = omega arith

    read_key-key_byte : (key : Bool) → read_key (key_byte key ∷ []) ≡ some key
    read_key-key_byte true = refl
    read_key-key_byte false = refl

abbrev seed_key : Bytes → Bool
seed_key [] = false
seed_key (b ∷ bs) = b % 2 == 1

abbrev pub test_fips : Fips
test_fips = record {
  ml_dsa = test_scheme;
  slh_dsa = test_scheme;
  ml_dsa_keygen_from_seed = λ seed. (seed_key seed, seed_key seed);
  ml_dsa_try_keygen = λ drawn. some (seed_key drawn, seed_key drawn);
  slh_dsa_keygen_from_chacha = λ seed. some (seed_key seed, seed_key seed);
  slh_dsa_try_keygen = λ drawn. some (seed_key drawn, seed_key drawn);
}

pub test_fips_laws : FipsLaws test_fips
test_fips_laws = record {
  ml_dsa_laws = test_scheme_laws;
  slh_dsa_laws = test_scheme_laws;
  ml_dsa_pair = λ seed. refl;
  slh_dsa_pair = λ seed. (seed_key seed, seed_key seed, refl, refl);
  pk_len_lt = (omega arith, omega arith);
}

-- A serializer that writes one text for every value.
abbrev pub test_json : (A : Type 0) → Json A
test_json A = record { to_string_pretty = λ a. ok "{}"; from_str = λ s. err "expected value" }
