-- ===== src/Base/Maps.antt =====
-- `BTreeMap` with number keys: pairs in ascending order of the keys.
use Prim.Native.Nat.{ℕ, ◌<◌}
use mathlib.Core.Path.{◌≡◌, refl}
use mathlib.Core.Option.{Option, none, some}
use mathlib.Core.List.{List, [], ◌∷◌}
use native.Mathlib.Omega.{arith}
use pq_enclave_binding.Base.Tests.{◌==◌, ltb, if◌then◌else◌}

module _ {ℓ} {V : Type ℓ} where
  abbrev pub get : List (ℕ × V) → ℕ → Option V
  get [] i = none
  get ((j, v) ∷ m) i = if j == i then some v else get m i

  unfoldable pub insert : ℕ → V → List (ℕ × V) → List (ℕ × V)
  insert k v [] = (k, v) ∷ []
  insert k v ((j, w) ∷ m) =
      let rest = insert k v m in
      if k == j then (k, v) ∷ m else (if ltb k j then (k, v) ∷ (j, w) ∷ m else (j, w) ∷ rest)

  pub get-insert :
      (k i : ℕ) (v : V) (m : List (ℕ × V))
      → get (insert k v m) i ≡ (if k == i then some v else get m i)
  unfolding insert
  get-insert k i v [] = refl
  get-insert k i v ((j, w) ∷ m) = ground (arith, get-insert k i v m)

  -- All keys lie above a bound.
  abbrev pub Above : ℕ → List (ℕ × V) → Type 0
  Above n [] = Unit
  Above n ((k, v) ∷ m) = (n < k) × Above n m

  abbrev pub IsMap : List (ℕ × V) → Type 0
  IsMap [] = Unit
  IsMap ((k, v) ∷ m) = Above k m × IsMap m

  pub get-Above : (n : ℕ) (m : List (ℕ × V)) → Above n m → get m n ≡ none
  get-Above n [] h = refl
  get-Above n ((k, v) ∷ m) h = ground (arith, get-Above n m)
