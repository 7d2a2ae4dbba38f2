-- ===== src/Tls/Identity/Serial.antt =====
-- The serial number of the certificate, which the DER encoding reads as a signed integer.
use espbewi.Common.{
  ℕ, suc, ◌+◌, ◌*◌, ◌^◌, ◌≤◌, ◌<◌, ◌≡◌, refl, true, ◌&&◌, List, [], ◌∷◌, arith, length, bit_and,
  bit_or, leb,
}
use espbewi.Common.Bytes.{IsBytes}
use espbewi.Common.Bits.{holds_below, holds_below_sound}
use espbewi.Tls.Identity.{serial_of}
use native.Mathlib.Nat.{pow-suc, mul-le-mul_right}

-- The number that bytes stand for, the highest first.
abbrev pub be_value : List ℕ → ℕ
be_value [] = 0
be_value (b ∷ bs) = b * 256 ^ length bs + be_value bs

be_value_lt : (bs : List ℕ) → IsBytes bs → be_value bs < 256 ^ length bs
be_value_lt [] h = omega arith
be_value_lt (b ∷ bs) (hb, h) =
    bound (256 ^ length bs) (be_value bs) (256 ^ suc (length bs)) (be_value_lt bs h)
      (pow-suc 256 (length bs))
  where
    bound : (p v q : ℕ) → v < p → q ≡ p * 256 → b * p + v < q
    bound p v q lt e = omega (arith, mul-le-mul_right {m = b} {n = 255} p (omega arith))

head_table :
    holds_below
      (λ b. leb 1 (bit_or (bit_and b 0x7f) 0x01) && leb (bit_or (bit_and b 0x7f) 0x01) 127)
      256
    ≡ true
unfolding holds_below
head_table = refl

-- Sixteen random bytes give a serial of sixteen bytes that is, highest byte first, at least 256 ^ 15
-- and below 2 ^ 127: its first byte is not 0, and its sign bit is clear.
pub serial_of_bounds :
    (bytes : List ℕ)
    → IsBytes bytes
    → length bytes ≡ 16
    → (length (serial_of bytes) ≡ 16)
      × (256 ^ 15 ≤ be_value (serial_of bytes))
      × (be_value (serial_of bytes) < 2 ^ 127)
serial_of_bounds [] h e = absurd (omega arith)
serial_of_bounds (b ∷ bs) (hb, h) e =
    let rest : length bs ≡ 15 = omega arith in
    let low = be_value_lt bs h in
    let head =
      holds_below_sound
        (λ b. leb 1 (bit_or (bit_and b 0x7f) 0x01) && leb (bit_or (bit_and b 0x7f) 0x01) 127) b 256
        hb head_table in
    let small : be_value bs < 256 ^ 15 = rw rest at low in
    let (lo, hi) = in_range (bit_or (bit_and b 0x7f) 0x01) (be_value bs) head small in
    rw rest (refl, lo, hi)
  where
    in_range :
        (x v : ℕ)
        → leb 1 x && leb x 127 ≡ true
        → v < 256 ^ 15
        → (256 ^ 15 ≤ x * 256 ^ 15 + v) × (x * 256 ^ 15 + v < 2 ^ 127)
    in_range x v h lt = ground arith
