-- ===== src/Common/Bits.antt =====
-- A test of every number under a bound, by evaluation: for facts about single bytes and masks.
use Prim.Native.Nat.{ℕ, zero, suc, ◌<◌}
use mathlib.Core.Path.{◌≡◌}
use mathlib.Core.Bool.{Bool, true, false}
use espbewi.Common.Tests.{if◌then◌else◌}
use native.Mathlib.Omega.{arith}

unfoldable pub holds_below : (ℕ → Bool) → ℕ → Bool
holds_below test zero = true
holds_below test (suc bound) = if test bound then holds_below test bound else false

module _ (test : ℕ → Bool) (x : ℕ) where
  pub holds_below_sound : (bound : ℕ) → x < bound → holds_below test bound ≡ true → test x ≡ true
  unfolding holds_below
  holds_below_sound (suc bound) below passed = ground (arith, holds_below_sound bound)
  holds_below_sound zero below passed = absurd (omega arith)
