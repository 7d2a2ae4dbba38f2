-- ===== src/Boot.antt =====
-- hardware/boot/src/lib.rs: the primitives of the second-stage boot code, `esp32c3::hw`;
-- `esp32s3::hw` differs in two watchdog offsets, which `clear_flashboot_watchdogs` takes. The ROM
-- routines are a record of operations over the chip's state `S`; where `rc` is not 0 the answer is
-- `none`, whose code no caller keeps. Both chips are little-endian, so a buffer of words that the
-- ROM fills or takes is written here as its bytes.
pub mod Laws
pub mod Steps
pub mod Reads
pub mod Programs
pub mod Cache
pub mod Watchdogs
pub mod Esp32s3
use espbewi.Common.{
  ℕ, zero, suc, ◌+◌, ◌-◌, ◌*◌, ◌/◌, ◌%◌, ◌^◌, ◌==◌, min, Bool, true, false, not, ◌||◌, Option, List,
  [], ◌∷◌, ◌++◌, length, take, drop, get_or, replicate, ltb, if◌then◌else◌,
}
use espbewi.Common.Words.{two_32, add_u32, div_ceil}
use espbewi.Common.Result.{Result, ok, err}
use espbewi.Common.Exec.{Exec, pure, attempt, fail_if, ◌>>=◌, ◌>>◌}

pub record Rom (S : Type 0) : Type 0 where
  pub spiflash_read : ℕ → ℕ → S → Option (List ℕ) × S
  pub spiflash_write : ℕ → List ℕ → S → Option (Unit {0}) × S
  pub spiflash_erase_sector : ℕ → S → Option (Unit {0}) × S
  pub spiflash_unlock : S → Option (Unit {0}) × S
  pub spiflash_attach : S → S
  -- the five arguments behind the device id 0
  pub spiflash_config_param : ℕ → ℕ → ℕ → ℕ → ℕ → S → S
  -- the store to `(*rom_spiflash_legacy_data)[1]`
  pub set_chip_size : ℕ → S → S
  pub read_volatile : ℕ → S → ℕ × S
  pub write_volatile : ℕ → ℕ → S → S

pub data FlashError : Type 0 where
  read_failed program_failed erase_failed : ℕ → FlashError
  unlock_failed : FlashError

-- `pos & !3`
abbrev pub word_start : ℕ → ℕ
word_start pos = pos - pos % 4

-- The bytes of the next window, of 64 words, that the loop of `flash_read` takes.
abbrev pub want_of : ℕ → ℕ → ℕ
want_of n done = min (n - done) 252

abbrev pub window_bytes : ℕ → ℕ → ℕ
window_bytes skip want = div_ceil (skip + want) 4 * 4

-- The size that the upper half of the header's fourth byte stands for.
abbrev pub size_of_code : ℕ → ℕ
size_of_code code =
    if code == 0
    then 2 ^ 20
    else if code == 1
    then 2 * 2 ^ 20
    else if code == 2
    then 4 * 2 ^ 20
    else if code == 3
    then 8 * 2 ^ 20
    else if code == 4
    then 16 * 2 ^ 20
    else 4 * 2 ^ 20

abbrev pub unwrap_or : Result FlashError ℕ → ℕ → ℕ
unwrap_or (ok size) d = size
unwrap_or (err e) d = d

-- `before & !(1 << bit)`
abbrev pub without_bit : ℕ → ℕ → ℕ
without_bit before bit = before - before / 2 ^ bit % 2 * 2 ^ bit

module _ {S : Type 0} (rom : Rom S) where
  -- One pass of the loop of `flash_read`, at `pos`.
  unfoldable pub read_window : ℕ → ℕ → Exec S FlashError (List ℕ)
  read_window pos want =
      let start = word_start pos in
      let skip = pos - start in
      do
        bytes ← attempt (rom.spiflash_read start (window_bytes skip want)) (read_failed start)
        pure (take want (drop skip bytes))

  -- The loop of `flash_read`, on fuel; the answer is what it puts behind `done`.
  unfoldable pub read_loop : ℕ → ℕ → ℕ → ℕ → Exec S FlashError (List ℕ)
  read_loop zero offset n done = pure []
  read_loop (suc fuel) offset n done = elim (ltb done n) [
    | true ↦ do
      chunk ← read_window (add_u32 offset done) (want_of n done)
      rest ← read_loop fuel offset n (done + want_of n done)
      pure (chunk ++ rest)
    | false ↦ pure []
  ]

  -- `out` is given by its length and comes back as the answer.
  unfoldable pub flash_read : ℕ → ℕ → Exec S FlashError (List ℕ)
  flash_read offset n = read_loop n offset n 0

  -- The loop of `flash_program`, on fuel.
  unfoldable pub program_loop : ℕ → ℕ → List ℕ → ℕ → Exec S FlashError (Unit {0})
  program_loop zero at bytes done = pure tt
  program_loop (suc fuel) at bytes done = elim (ltb done (length bytes)) [
    | true ↦
        attempt
          (rom.spiflash_write (add_u32 at done)
            (take (min (length bytes - done) 256) (drop done bytes)))
          (program_failed (add_u32 at done))
        >> program_loop fuel at bytes (done + min (length bytes - done) 256)
    | false ↦ pure tt
  ]

  unfoldable pub flash_program : ℕ → List ℕ → Exec S FlashError (Unit {0})
  flash_program at bytes =
      fail_if (not (at % 4 == 0) || not (length bytes % 4 == 0)) (program_failed at)
      >> program_loop (length bytes) at bytes 0

  unfoldable pub flash_unlock : Exec S FlashError (Unit {0})
  flash_unlock = attempt rom.spiflash_unlock unlock_failed

  unfoldable pub flash_erase_sector : ℕ → Exec S FlashError (Unit {0})
  flash_erase_sector sector_number =
      attempt (rom.spiflash_erase_sector sector_number) (erase_failed sector_number)

  unfoldable pub flash_size_from_header : Exec S FlashError ℕ
  flash_size_from_header = do header ← flash_read 0 4; pure (size_of_code (get_or header 3 0 / 16))

  unfoldable pub set_flash_size_from_header : Exec S FlashError ℕ
  set_flash_size_from_header = do
    size ← flash_size_from_header
    λ s. (ok size, rom.set_chip_size size s)

  unfoldable pub flash_reinit : S → ℕ × S
  flash_reinit s =
      let (r, s1) = flash_size_from_header s in
      let chip_size = unwrap_or r (4 * 2 ^ 20) in
      (
        chip_size,
        rom.spiflash_config_param chip_size 0x10000 0x1000 0x100 0xFFFF (rom.spiflash_attach s1),
      )

  unfoldable pub clear_bit : ℕ → ℕ → ℕ → ℕ → S → ℕ × S
  clear_bit base config protect bit s =
      let (before, s1) = rom.read_volatile (base + config) s in
      let s2 = rom.write_volatile (base + protect) 0x50D83AA1 s1 in
      let s3 = rom.write_volatile (base + config) (without_bit before bit) s2 in
      (before, rom.write_volatile (base + protect) 0 s3)

  -- The offsets of the second watchdog: 0x90 and 0xA8 on the esp32c3, 0x98 and 0xB0 on the esp32s3.
  unfoldable pub clear_flashboot_watchdogs : ℕ → ℕ → S → (ℕ × ℕ) × S
  clear_flashboot_watchdogs rtc_config rtc_protect s =
      let (tg0, s1) = clear_bit 0x6001F000 0x48 0x64 14 s in
      let (rtc, s2) = clear_bit 0x60008000 rtc_config rtc_protect 12 s1 in ((tg0, rtc), s2)
