-- ===== src/Common/Words.antt =====
-- The arithmetic of `u32`, `u64` and the 32-bit `usize` of both chips: checked, saturating and
-- wrapping (release builds have no overflow checks).
use Prim.Native.Nat.{ℕ, ◌+◌, ◌-◌, ◌*◌, ◌/◌, ◌%◌, ◌^◌, ◌<◌, min}
use mathlib.Core.Path.{◌≡◌}
use native.Mathlib.Omega.{arith}
use mathlib.Core.Option.{Option, none, some}
use espbewi.Common.Tests.{ltb, if◌then◌else◌}

abbrev pub two_32 : ℕ
two_32 = 2 ^ 32

abbrev pub two_64 : ℕ
two_64 = 2 ^ 64

-- `u32::try_from`, `usize::try_from` of a `u64`
abbrev pub to_u32 : ℕ → Option ℕ
to_u32 n = if ltb n two_32 then some n else none

abbrev pub checked_add : ℕ → ℕ → Option ℕ
checked_add a b = to_u32 (a + b)

abbrev pub checked_mul : ℕ → ℕ → Option ℕ
checked_mul a b = to_u32 (a * b)

abbrev pub saturating_add : ℕ → ℕ → ℕ
saturating_add a b = min (a + b) (two_32 - 1)

abbrev pub add_u32 : ℕ → ℕ → ℕ
add_u32 a b = (a + b) % two_32

abbrev pub add_u64 : ℕ → ℕ → ℕ
add_u64 a b = (a + b) % two_64

abbrev pub sub_u64 : ℕ → ℕ → ℕ
sub_u64 a b = (a + (two_64 - b % two_64)) % two_64

-- `a.div_ceil(b)` for a positive `b`
abbrev pub div_ceil : ℕ → ℕ → ℕ
div_ceil a b = (a + (b - 1)) / b

-- A sum that does not wrap around.
pub add_u32-below : (a b : ℕ) → a + b < two_32 → add_u32 a b ≡ a + b
add_u32-below a b h = omega arith
