-- ===== src/Bootloader/Readable.antt =====
-- Reading a line of the bootloader back: which failure it names, and its numbers.
use espbewi.Common.{
  ℕ, ◌+◌, ◌-◌, ◌*◌, ◌<◌, ◌≡◌, refl, ap, ltb, Bool, Option, none, some, List, [], ◌∷◌, if◌then◌else◌,
  arith, take, drop, length,
}
use espbewi.Common.Bytes.{codes, eq_bytes}
use espbewi.Common.Words.{two_32}
use espbewi.Bootloader.{
  BootError, flash_read_failed, missing_partition, halt, mmu, no_partition_table, image_refused,
  otadata_write,
}
use espbewi.Bootloader.Log.{nibble, hex_digit, put_u32, report, log}

-- The value of a lower-case hexadecimal digit.
abbrev pub digit_value : ℕ → ℕ
digit_value b = if ltb b 0x61 then b - 0x30 else b - 0x61 + 10

abbrev pub read_digits : ℕ → List ℕ → ℕ
read_digits sum [] = sum
read_digits sum (b ∷ bs) = read_digits (sum * 16 + digit_value b) bs

-- The number behind `skip` bytes, `0x` and eight digits.
abbrev pub number_at : ℕ → List ℕ → ℕ
number_at skip line = read_digits 0 (take 8 (drop (skip + 2) line))

abbrev pub starts : List ℕ → List ℕ → Bool
starts prefix line = eq_bytes (take (length prefix) line) prefix

unfoldable pub read_report : List ℕ → Option BootError
read_report line =
    if starts (codes "boot: FAILED flash read at 0x") line
    then some (flash_read_failed (number_at 27 line))
    else if starts (codes "boot: FAILED no partition table") line
    then some no_partition_table
    else if starts (codes "boot: FAILED missing partition 0x") line
    then some (missing_partition (number_at 31 line))
    else if starts (codes "boot: HALT, nothing safe to boot, reason 0x") line
    then some (halt (number_at 41 line))
    else if starts (codes "boot: FAILED otadata write step 0x") line
    then some (otadata_write (number_at 32 line) (number_at 46 line))
    else if starts (codes "boot: FAILED image no longer validates") line
    then some image_refused
    else if starts (codes "boot: FAILED MMU rc 0x") line
    then some (mmu (number_at 20 line))
    else none

digit_value-hex_digit : (d : ℕ) → d < 16 → digit_value (hex_digit d) ≡ d
digit_value-hex_digit d h = ground arith

-- The numbers that a failure carries fit 32 bits.
abbrev pub IsU32 : BootError → Type 0
IsU32 (flash_read_failed at) = at < two_32
IsU32 (missing_partition which) = which < two_32
IsU32 (halt why) = why < two_32
IsU32 (mmu rc) = rc < two_32
IsU32 (otadata_write step at) = (step < two_32) × (at < two_32)
IsU32 no_partition_table = Unit
IsU32 image_refused = Unit

-- The sum of the digits' values, the highest first.
abbrev read_digits_of : ℕ → ℕ
read_digits_of n =
    (((((((0 + nibble n 0) * 16 + nibble n 1) * 16 + nibble n 2) * 16 + nibble n 3) * 16
                + nibble n 4)
              * 16
            + nibble n 5)
          * 16
        + nibble n 6)
      * 16
    + nibble n 7

nibbles : (n : ℕ) → n < two_32 → read_digits_of n ≡ n
nibbles n h = omega arith

digit : (n i : ℕ) → digit_value (hex_digit (nibble n i)) ≡ nibble n i
digit n i = digit_value-hex_digit (nibble n i) (omega arith)

-- Eight digits are enough for 32 bits.
number_at-put_u32 : (n : ℕ) → n < two_32 → number_at 0 (put_u32 n) ≡ n
number_at-put_u32 n h =
    simp (digit n 0, digit n 1, digit n 2, digit n 3, digit n 4, digit n 5, digit n 6, digit n 7)
      (nibbles n h)

-- Reading the line that `report` prints for a failure gives back that failure, with the numbers that
-- it carries, where they fit 32 bits.
pub read_report-report : (e : BootError) → IsU32 e → read_report (report e) ≡ some e
unfolding read_report report log
read_report-report no_partition_table h = refl
read_report-report image_refused h = refl
read_report-report (mmu rc) h = ap (λ n. some (mmu n)) (number_at-put_u32 rc h)
read_report-report (flash_read_failed rc) h =
    ap (λ n. some (flash_read_failed n)) (number_at-put_u32 rc h)
read_report-report (missing_partition rc) h =
    ap (λ n. some (missing_partition n)) (number_at-put_u32 rc h)
read_report-report (halt rc) h = ap (λ n. some (halt n)) (number_at-put_u32 rc h)
read_report-report (otadata_write step at) (h, k) =
    λ i. some (otadata_write (number_at-put_u32 step h i) (number_at-put_u32 at k i))
