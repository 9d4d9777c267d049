-- ===== src/Base/Results.antt =====
-- The outcomes of a fallible call: a value or an error, and a value or a panic.
use mathlib.Core.Path.{◌≡◌, refl}
use mathlib.Core.Logic.{◌⊎◌, inl, inr}
use mathlib.Core.Option.{Option, none, some}

-- `Result<A, E>`
pub data Result {ℓ κ} (E : Type ℓ) (A : Type κ) : Type (ℓ ⊔ κ) where
  ok : A → Result E A
  err : E → Result E A

-- A call that may panic.
pub data Panics {ℓ} (A : Type ℓ) : Type ℓ where
  returned : A → Panics A
  panicked : Panics A

module _ {ℓ κ} {E : Type ℓ} {A : Type κ} where
  -- `Result::ok`
  abbrev pub to_option : Result E A → Option A
  to_option (ok a) = some a
  to_option (err e) = none

  -- `Result::map_err`
  abbrev pub map_err {μ} : {F : Type μ} → (E → F) → Result E A → Result F A
  map_err f (ok a) = ok a
  map_err f (err e) = err (f e)

  -- `Option::ok_or` and `ok_or_else`
  abbrev pub ok_or : Option A → E → Result E A
  ok_or none e = err e
  ok_or (some a) e = ok a

  abbrev pub bind {μ} : {B : Type μ} → Result E A → (A → Result E B) → Result E B
  bind (ok a) f = f a
  bind (err e) f = err e

  pub Result-cases : (r : Result E A) → ((a : A) × (r ≡ ok a)) ⊎ ((e : E) × (r ≡ err e))
  Result-cases (ok a) = inl (a, refl)
  Result-cases (err e) = inr (e, refl)

pub Panics-cases {ℓ} : {A : Type ℓ} (p : Panics A) → ((a : A) × (p ≡ returned a)) ⊎ (p ≡ panicked)
Panics-cases (returned a) = inl (a, refl)
Panics-cases panicked = inr refl
