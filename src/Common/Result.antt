-- ===== src/Common/Result.antt =====
-- `Result<A, E>` and its `?`.
use mathlib.Core.Path.{◌≡◌, refl}
use mathlib.Core.Logic.{◌⊎◌, inl, inr}
use mathlib.Core.Bool.{Bool, true, false}
use mathlib.Core.Option.{Option, none, some}

pub data Result {ℓ} (E A : Type ℓ) : Type ℓ where
  ok : A → Result E A
  err : E → Result E A

module _ {ℓ} {E A B : Type ℓ} where
  infixl 5 ◌>>=◌
  abbrev pub ◌>>=◌ : Result E A → (A → Result E B) → Result E B
  ok a >>= f = f a
  err e >>= f = err e

module _ {ℓ} {E D A : Type ℓ} where
  abbrev pub map_err : (E → D) → Result E A → Result D A
  map_err f (ok a) = ok a
  map_err f (err e) = err (f e)

module _ {ℓ} {E A : Type ℓ} where
  abbrev pub ok_or : Option A → E → Result E A
  ok_or none e = err e
  ok_or (some a) e = ok a

  abbrev pub is_ok : Result E A → Bool
  is_ok (ok a) = true
  is_ok (err e) = false

  -- `Result::ok`
  abbrev pub to_option : Result E A → Option A
  to_option (ok a) = some a
  to_option (err e) = none

  pub Result-cases : (r : Result E A) → ((a : A) × (r ≡ ok a)) ⊎ ((e : E) × (r ≡ err e))
  Result-cases (ok a) = inl (a, refl)
  Result-cases (err e) = inr (e, refl)
