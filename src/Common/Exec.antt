-- ===== src/Common/Exec.antt =====
-- Code that changes a state `S` and may return early with an error `E`: the state comes back beside
-- the error too, since what a device has done stays done.
use mathlib.Core.Path.{◌≡◌, refl, ◌∙◌}
use mathlib.Core.Logic.{inl, inr}
use mathlib.Core.Bool.{Bool}
use mathlib.Core.Option.{Option, none, some}
use native.Mathlib.Omega.{arith}
use espbewi.Common.Tests.{if◌then◌else◌}
use espbewi.Common.Result
use espbewi.Common.Result.{Result, ok, err, ok_or, Result-cases}

abbrev pub Exec {ℓ} : Type ℓ → Type ℓ → Type ℓ → Type ℓ
Exec S E A = S → Result E A × S

module _ {ℓ} {S E A : Type ℓ} where
  abbrev pub pure : A → Exec S E A
  pure a s = (ok a, s)

  abbrev pub fail : E → Exec S E A
  fail e s = (err e, s)

  abbrev pub lift : Result E A → Exec S E A
  lift r s = (r, s)

  -- `ok_or(e)?`
  abbrev pub or_fail : Option A → E → Exec S E A
  or_fail o e s = (ok_or o e, s)

  -- A device call whose error value the caller replaces: `call().map_err(|_| e)?`.
  abbrev pub attempt : (S → Option A × S) → E → Exec S E A
  attempt call e s = let (r, s') = call s in or_fail r e s'

-- `if bad { return Err(e) }`
abbrev pub fail_if {ℓ} : {S E : Type ℓ} → Bool → E → Exec S E (Unit {ℓ})
fail_if bad e s = (if bad then err e else ok tt, s)

module _ {ℓ} {S E A B : Type ℓ} where
  abbrev pub continue : Result E A → (A → Exec S E B) → Exec S E B
  continue (ok a) f s = f a s
  continue (err e) f s = (err e, s)

  infixl 5 ◌>>=◌ ◌>>◌
  abbrev pub ◌>>=◌ : Exec S E A → (A → Exec S E B) → Exec S E B
  ◌>>=◌ m f s = let (r, s') = m s in continue r f s'

  abbrev pub ◌>>◌ : Exec S E A → Exec S E B → Exec S E B
  m >> k = m >>= λ _. k

module _ {ℓ} {S E D A : Type ℓ} where
  abbrev pub map_err : (E → D) → Exec S E A → Exec S D A
  map_err f m s = let (r, s') = m s in (Result.map_err f r, s')

module _ {ℓ} {S E A : Type ℓ} where
  pub attempt_ok :
      (call : S → Option A × S) (e : E) (s : S) (a : A)
      → (attempt call e s).0 ≡ ok a
      → (call s).0 ≡ some a
  attempt_ok call e s a h = ok_or_ok (call s).0 a h
    where
      ok_or_ok : (o : Option A) (b : A) → ok_or o e ≡ ok b → o ≡ some b
      ok_or_ok (some c) b h' = ground arith
      ok_or_ok none b h' = cc

-- Where the first of two steps decides: a chain that succeeds, and what a chain leaves alone.
module _ {ℓ} {S E A B : Type ℓ} where
  pub bind_ok :
      (m : Exec S E A) (f : A → Exec S E B) (s : S) (b : B)
      → ((m >>= f) s).0 ≡ ok b
      → (a : A) × ((m s).0 ≡ ok a) × ((m >>= f) s ≡ f a (m s).1)
  bind_ok m f s b h = elim (Result-cases (m s).0) [
    | inl (a, e) ↦ (a, e, rw e refl)
    | inr (c, e) ↦ let h' = rw e at h in absurd (cc)
  ]

  pub bind_next :
      (m : Exec S E A) (f : A → Exec S E B) (s : S) (a : A)
      → (m s).0 ≡ ok a
      → (m >>= f) s ≡ f a (m s).1
  bind_next m f s a e = rw e refl

  pub bind_stop :
      (m : Exec S E A) (f : A → Exec S E B) (s : S) (c : E)
      → (m s).0 ≡ err c
      → (m >>= f) s ≡ (err c, (m s).1)
  bind_stop m f s c e = rw e refl

-- `view` of the state is the same afterwards, whatever the answer.
abbrev pub Keeps {ℓ κ} : {S E A : Type ℓ} {V : Type κ} → (S → V) → Exec S E A → Type (ℓ ⊔ κ)
Keeps {S = S} view m = (s : S) → view (m s).1 ≡ view s

module _ {ℓ κ} {S E : Type ℓ} {V : Type κ} (view : S → V) where
  pub bind-Keeps :
      {A B : Type ℓ} (m : Exec S E A) (f : A → Exec S E B)
      → Keeps view m
      → ((a : A) → Keeps view (f a))
      → Keeps view (m >>= f)
  bind-Keeps m f first rest s = elim (Result-cases (m s).0) [
    | inl (a, e) ↦ rw e (rest a (m s).1 ∙ first s)
    | inr (c, e) ↦ rw e (first s)
  ]

-- `P` of the state before gives `P` of the state after, whatever the answer.
abbrev pub Preserves {ℓ κ} : {S E A : Type ℓ} → (S → Type κ) → Exec S E A → Type (ℓ ⊔ κ)
Preserves {S = S} P m = (s : S) → P s → P (m s).1

module _ {ℓ κ} {S E : Type ℓ} (P : S → Type κ) where
  pub bind-Preserves :
      {A B : Type ℓ} (m : Exec S E A) (f : A → Exec S E B)
      → Preserves P m
      → ((a : A) → Preserves P (f a))
      → Preserves P (m >>= f)
  bind-Preserves m f first rest s p = elim (Result-cases (m s).0) [
    | inl (a, e) ↦ rw e (rest a (m s).1 (first s p))
    | inr (c, e) ↦ rw e (first s p)
  ]
