-- ===== src/Common/Bytes.antt =====
-- Bytes as numbers below 256: little-endian words (`to_le_bytes`, `from_le_bytes`), equality of
-- byte strings, and the bytes of a text literal.
use Prim.Native.Nat.{ℕ, zero, suc, ◌+◌, ◌*◌, ◌/◌, ◌%◌, ◌^◌, ◌<◌}
use Prim.Native.Char.{code}
use Prim.Native.String.{String}
use mathlib.Core.Path.{◌≡◌, refl, ap}
use mathlib.Core.Logic.{◌↔◌}
use mathlib.Core.Bool.{Bool, true, false, ◌&&◌}
use mathlib.Core.List.{List, [], ◌∷◌}
use native.Mathlib.Nat.{pow-suc}
use native.Mathlib.Omega.{arith}
use espbewi.Common.Tests.{◌==◌}
use espbewi.Common.Lists.{length, All}

abbrev pub IsByte : ℕ → Type 0
IsByte b = b < 256

abbrev pub IsBytes : List ℕ → Type 0
IsBytes = All IsByte

abbrev pub codes : String → List ℕ
codes String.[] = []
codes (String.◌∷◌ c s) = code c ∷ codes s

-- The `n` low bytes of `v`, the lowest first.
abbrev pub le_bytes : ℕ → ℕ → List ℕ
le_bytes zero v = []
le_bytes (suc n) v = v % 256 ∷ le_bytes n (v / 256)

abbrev pub from_le_bytes : List ℕ → ℕ
from_le_bytes [] = 0
from_le_bytes (b ∷ bs) = b + 256 * from_le_bytes bs

abbrev pub eq_bytes : List ℕ → List ℕ → Bool
eq_bytes [] [] = true
eq_bytes [] (b ∷ bs) = false
eq_bytes (a ∷ as') [] = false
eq_bytes (a ∷ as') (b ∷ bs) = a == b && eq_bytes as' bs

pub eq_bytes_iff : (as' bs : List ℕ) → (eq_bytes as' bs ≡ true) ↔ (as' ≡ bs)
eq_bytes_iff [] [] = (λ _. refl, λ _. refl)
eq_bytes_iff [] (b ∷ bs) = (λ e. cc, λ e. cc)
eq_bytes_iff (a ∷ as') [] = (λ e. cc, λ e. cc)
eq_bytes_iff (a ∷ as') (b ∷ bs) = ground (arith, eq_bytes_iff as' bs)

pub eq_bytes_refl : (bs : List ℕ) → eq_bytes bs bs ≡ true
eq_bytes_refl bs = (eq_bytes_iff bs bs).1 refl

pub length-le_bytes : (n v : ℕ) → length (le_bytes n v) ≡ n
length-le_bytes zero v = refl
length-le_bytes (suc n) v = ap suc (length-le_bytes n (v / 256))

pub le_bytes-IsBytes : (n v : ℕ) → IsBytes (le_bytes n v)
le_bytes-IsBytes zero v = tt
le_bytes-IsBytes (suc n) v = (omega arith, le_bytes-IsBytes n (v / 256))

pub from_le_bytes-le_bytes : (n v : ℕ) → v < 256 ^ n → from_le_bytes (le_bytes n v) ≡ v
from_le_bytes-le_bytes zero v h = omega arith
from_le_bytes-le_bytes (suc n) v h =
    omega (arith, pow-suc 256 n, from_le_bytes-le_bytes n (v / 256) (omega (arith, pow-suc 256 n)))

pub le_bytes-from_le_bytes :
    (bs : List ℕ) → IsBytes bs → le_bytes (length bs) (from_le_bytes bs) ≡ bs
le_bytes-from_le_bytes [] h = refl
le_bytes-from_le_bytes (b ∷ bs) (hb, h) = rw (low, high, le_bytes-from_le_bytes bs h)
  where
    low : (b + 256 * from_le_bytes bs) % 256 ≡ b
    low = omega arith

    high : (b + 256 * from_le_bytes bs) / 256 ≡ from_le_bytes bs
    high = omega arith

pub from_le_bytes-lt : (bs : List ℕ) → IsBytes bs → from_le_bytes bs < 256 ^ length bs
from_le_bytes-lt [] h = omega arith
from_le_bytes-lt (b ∷ bs) (hb, h) = omega (arith, pow-suc 256 (length bs), from_le_bytes-lt bs h)
