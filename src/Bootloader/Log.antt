-- ===== src/Bootloader/Log.antt =====
-- bootloader/esp/src/main.rs: what the bootloader prints. A line is the bytes that `log!` hands to
-- the printer; `Loggable` has two instances, text and a `u32`, of which a `Part` is a value.
use espbewi.Common.{
  ℕ, zero, suc, ◌+◌, ◌-◌, ◌*◌, ◌/◌, ◌%◌, ◌^◌, ltb, List, [], ◌∷◌, ◌++◌, if◌then◌else◌,
}
use espbewi.Common.Bytes.{codes}
use espbewi.Bootloader.{
  BootError, flash_read_failed, missing_partition, halt, mmu, no_partition_table, image_refused,
  otadata_write,
}

pub data Part : Type 0 where
  text : List ℕ → Part
  number : ℕ → Part

-- `(*self >> ((7 - i) * 4)) & 0xF`
abbrev pub nibble : ℕ → ℕ → ℕ
nibble n i = n / 2 ^ ((7 - i) * 4) % 16

-- `b'0' + nibble` or `b'a' + nibble - 10`
abbrev pub hex_digit : ℕ → ℕ
hex_digit d = if ltb d 10 then 0x30 + d else 0x61 + d - 10

abbrev pub set_at : ℕ → ℕ → List ℕ → List ℕ
set_at i b [] = []
set_at zero b (x ∷ xs) = b ∷ xs
set_at (suc i) b (x ∷ xs) = x ∷ set_at i b xs

-- The loop of `put` for a `u32`: the passes that are left, from pass `i` on.
abbrev pub put_digits : ℕ → ℕ → ℕ → List ℕ → List ℕ
put_digits zero n i out = out
put_digits (suc left) n i out =
    put_digits left n (i + 1) (set_at (2 + i) (hex_digit (nibble n i)) out)

abbrev pub put_u32 : ℕ → List ℕ
put_u32 n = put_digits 8 n 0 (codes "0x00000000")

abbrev pub put : Part → List ℕ
put (text bytes) = bytes
put (number n) = put_u32 n

abbrev pub put_all : List Part → List ℕ
put_all [] = []
put_all (part ∷ parts) = put part ++ put_all parts

-- `log!`
unfoldable pub log : List Part → List ℕ
log parts = put_all parts ++ (13 ∷ 10 ∷ [])

unfoldable pub report : BootError → List ℕ
unfolding log
report (flash_read_failed at) = log (text (codes "boot: FAILED flash read at ") ∷ number at ∷ [])
report no_partition_table = log (text (codes "boot: FAILED no partition table") ∷ [])
report (missing_partition which) =
    log (text (codes "boot: FAILED missing partition ") ∷ number which ∷ [])
report (halt why) = log (text (codes "boot: HALT, nothing safe to boot, reason ") ∷ number why ∷ [])
report (otadata_write step at) = log (
    text (codes "boot: FAILED otadata write step ")
    ∷ number step
    ∷ text (codes " at ")
    ∷ number at
    ∷ [])
report image_refused = log (text (codes "boot: FAILED image no longer validates") ∷ [])
report (mmu rc) = log (text (codes "boot: FAILED MMU rc ") ∷ number rc ∷ [])
