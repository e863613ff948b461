-- ===== src/Base/Panics.antt =====
-- Calls that do not panic.
use mathlib.Core.Path.{◌≡◌, refl}
use mathlib.Core.Logic.{◌≢◌}
use mathlib.Core.Bool.{Bool, true, false}
use mathlib.Core.Option.{Option, none, some}
use pq_enclave_binding.Base.Tests.{if◌then◌else◌}
use pq_enclave_binding.Base.Calls.{Outcome, ok, err, panic, ◌>>=◌, map_err, ok_or}

module _ {ℓ κ} {E : Type ℓ} {A : Type κ} where
  abbrev pub NoPanic : Outcome E A → Type (ℓ ⊔ κ)
  NoPanic m = m ≢ panic

  pub ok-NoPanic : (a : A) → NoPanic (ok a)
  ok-NoPanic a h = cc h

  pub err-NoPanic : (e : E) → NoPanic (err e)
  err-NoPanic e h = cc h

  pub ok_or-NoPanic : (o : Option A) (e : E) → NoPanic (ok_or o e)
  ok_or-NoPanic none e = err-NoPanic e
  ok_or-NoPanic (some a) e = ok-NoPanic a

  pub if-NoPanic :
      (b : Bool) (x y : Outcome E A) → NoPanic x → NoPanic y → NoPanic (if b then x else y)
  if-NoPanic true x y p q = p
  if-NoPanic false x y p q = q

pub >>=-NoPanic {ℓ κ μ} :
    {E : Type ℓ} {A : Type κ} {B : Type μ} (m : Outcome E A) (f : A → Outcome E B)
    → NoPanic m
    → ((a : A) → m ≡ ok a → NoPanic (f a))
    → NoPanic (m >>= f)
>>=-NoPanic (ok a) f p q = q a refl
>>=-NoPanic (err e) f p q = λ h. cc h
>>=-NoPanic panic f p q = absurd (p refl)

pub map_err-NoPanic {ℓ κ μ} :
    {E : Type ℓ} {F : Type κ} {A : Type μ} (f : E → F) (m : Outcome E A)
    → NoPanic m
    → NoPanic (map_err f m)
map_err-NoPanic f (ok a) p = λ h. cc h
map_err-NoPanic f (err e) p = λ h. cc h
map_err-NoPanic f panic p = absurd (p refl)
