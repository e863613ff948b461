-- ===== src/Base/Calls.antt =====
-- What a Rust call comes to: a value, an `Err`, or a panic (`expect`, `assert!`, an index out of
-- range). A function that returns no `Result` leaves the error type open.
use Prim.Native.Nat.{ℕ}
use mathlib.Core.Path.{◌≡◌, refl}
use mathlib.Core.Bool.{Bool, true, false, not}
use mathlib.Core.Logic.{◌≢◌, ◌⊎◌, inl, inr}
use mathlib.Core.Option.{Option, none, some}
use mathlib.Core.List.{List}
use pq_enclave_binding.Base.Lists.{get_elem?}

pub data Outcome {ℓ κ} (E : Type ℓ) (A : Type κ) : Type (ℓ ⊔ κ) where
  ok : A → Outcome E A
  err : E → Outcome E A
  panic : Outcome E A

infixl 5 ◌>>=◌ ◌>>◌
abbrev pub ◌>>=◌ {ℓ κ μ} :
    {E : Type ℓ} {A : Type κ} {B : Type μ} → Outcome E A → (A → Outcome E B) → Outcome E B
ok a >>= f = f a
err e >>= f = err e
panic >>= f = panic

abbrev pub ◌>>◌ {ℓ κ} : {E : Type ℓ} {B : Type κ} → Outcome E (Unit {0}) → Outcome E B → Outcome E B
m >> k = m >>= λ _. k

-- `Result::map_err`, and `Option::ok_or_else`, `Option::expect`.
abbrev pub map_err {ℓ κ μ} :
    {E : Type ℓ} {F : Type κ} {A : Type μ} → (E → F) → Outcome E A → Outcome F A
map_err f (ok a) = ok a
map_err f (err e) = err (f e)
map_err f panic = panic

abbrev pub ok_or {ℓ κ} : {E : Type ℓ} {A : Type κ} → Option A → E → Outcome E A
ok_or none e = err e
ok_or (some a) e = ok a

abbrev pub expect {ℓ κ} : {E : Type ℓ} {A : Type κ} → Option A → Outcome E A
expect none = panic
expect (some a) = ok a

-- `Result::expect`
abbrev pub expect_ok {ℓ κ μ} : {E : Type ℓ} {F : Type κ} {A : Type μ} → Outcome E A → Outcome F A
expect_ok (ok a) = ok a
expect_ok (err e) = panic
expect_ok panic = panic

-- `if bad { return Err(e) }`
abbrev pub fail_if {ℓ} : {E : Type ℓ} → Bool → E → Outcome E (Unit {0})
fail_if true e = err e
fail_if false e = ok tt

-- `Result::ok`, for a call that does not panic.
abbrev pub unwrap_or_none {ℓ κ μ} :
    {E : Type ℓ} {F : Type κ} {A : Type μ} → Outcome E A → Outcome F (Option A)
unwrap_or_none (ok a) = ok (some a)
unwrap_or_none (err e) = ok none
unwrap_or_none panic = panic

-- `xs[i]`
abbrev pub index {ℓ κ} : {E : Type ℓ} {A : Type κ} → List A → ℕ → Outcome E A
index xs i = expect (get_elem? xs i)

pub >>=-eq-ok {ℓ κ μ} :
    {E : Type ℓ} {A : Type κ} {B : Type μ} (call : Outcome E A) (next : A → Outcome E B) {y : B}
    → (call >>= next) ≡ ok y
    → (x : A) × (call ≡ ok x) × (next x ≡ ok y)
>>=-eq-ok panic next returned = cc
>>=-eq-ok (ok x) next returned = (x, refl, returned)
>>=-eq-ok (err e) next returned = cc

pub map_err-eq-ok {ℓ κ μ} :
    {E : Type ℓ} {F : Type κ} {A : Type μ} (f : E → F) (m : Outcome E A) {a : A}
    → map_err f m ≡ ok a
    → m ≡ ok a
map_err-eq-ok f (ok a) h = cc
map_err-eq-ok f (err e) h = cc
map_err-eq-ok f panic h = cc

pub fail_if-eq-ok {ℓ} : {E : Type ℓ} (b : Bool) (e : E) → fail_if b e ≡ ok tt → b ≡ false
fail_if-eq-ok true e h = cc
fail_if-eq-ok false e h = refl

pub fail_unless-eq-ok {ℓ} : {E : Type ℓ} (b : Bool) (e : E) → fail_if (not b) e ≡ ok tt → b ≡ true
fail_unless-eq-ok true e h = refl
fail_unless-eq-ok false e h = cc

pub >>=-eq-err {ℓ κ μ} :
    {E : Type ℓ} {A : Type κ} {B : Type μ} (m : Outcome E A) (f : A → Outcome E B) {e : E}
    → (m >>= f) ≡ err e
    → (m ≡ err e) ⊎ ((a : A) × (m ≡ ok a) × (f a ≡ err e))
>>=-eq-err (ok a) f h = inr (a, refl, h)
>>=-eq-err (err e) f h = inl (cc)
>>=-eq-err panic f h = cc

-- An error that the first call does not give comes from the second, and the other way round.
pub >>=-err_past {ℓ κ μ} :
    {E : Type ℓ} {A : Type κ} {B : Type μ} (m : Outcome E A) (f : A → Outcome E B) {e : E}
    → m ≢ err e
    → (m >>= f) ≡ err e
    → (a : A) × (m ≡ ok a) × (f a ≡ err e)
>>=-err_past (ok a) f n h = (a, refl, h)
>>=-err_past (err e) f n h = absurd (n (cc))
>>=-err_past panic f n h = cc

pub >>=-err_first {ℓ κ μ} :
    {E : Type ℓ} {A : Type κ} {B : Type μ} (m : Outcome E A) (f : A → Outcome E B) {e : E}
    → ((a : A) → f a ≢ err e)
    → (m >>= f) ≡ err e
    → m ≡ err e
>>=-err_first (ok a) f n h = absurd (n a h)
>>=-err_first (err e) f n h = cc
>>=-err_first panic f n h = cc

pub ok-injective {ℓ κ} :
    (E : Type ℓ) {A : Type κ} {a b : A} → ◌≡◌ {A = Outcome E A} (ok a) (ok b) → a ≡ b
ok-injective E h = cc

pub ok_or-eq-ok {ℓ κ} :
    {E : Type ℓ} {A : Type κ} (o : Option A) (e : E) {a : A} → ok_or o e ≡ ok a → o ≡ some a
ok_or-eq-ok none e h = cc
ok_or-eq-ok (some x) e h = cc

pub expect-eq-ok {ℓ κ} :
    {E : Type ℓ} {A : Type κ} (o : Option A) {a : A}
    → ◌≡◌ {A = Outcome E A} (expect o) (ok a)
    → o ≡ some a
expect-eq-ok none h = cc
expect-eq-ok (some x) h = cc

-- A split on a call that keeps the equation.
pub Outcome-cases {ℓ κ} :
    {E : Type ℓ} {A : Type κ} (m : Outcome E A)
    → ((a : A) × (m ≡ ok a)) ⊎ (((e : E) × (m ≡ err e)) ⊎ (m ≡ panic))
Outcome-cases (ok a) = inl (a, refl)
Outcome-cases (err e) = inr (inl (e, refl))
Outcome-cases panic = inr (inr refl)
