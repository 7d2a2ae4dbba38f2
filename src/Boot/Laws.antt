-- ===== src/Boot/Laws.antt =====
-- What the boot code relies on of the ROM's flash driver: an aligned read of at most 64 words, the
-- size of the buffer, yields the bytes of the flash and changes none.
use espbewi.Common.{ℕ, ◌*◌, ◌%◌, ◌≤◌, ◌≡◌, some, List, length}
use espbewi.Flash.Laws.{Cells, SameOutside}
use espbewi.Flash.Slices.{slice}
use espbewi.Boot.{Rom}

pub record RomLaws {S : Type 0} (rom : Rom S) : Type 0 where
  pub cells : S → Cells
  pub read_slice :
      (start len : ℕ) (s : S) (bytes : List ℕ)
      → start % 4 ≡ 0
      → len % 4 ≡ 0
      → len ≤ 256
      → (rom.spiflash_read start len s).0 ≡ some bytes
      → bytes ≡ slice (cells s) start len
  pub read_keeps : (start len : ℕ) (s : S) → cells (rom.spiflash_read start len s).1 ≡ cells s
  pub write_frame :
      (at : ℕ) (bytes : List ℕ) (s : S)
      → SameOutside (cells s) (cells (rom.spiflash_write at bytes s).1) at (length bytes)
  pub erase_frame :
      (sector : ℕ) (s : S)
      → SameOutside (cells s) (cells (rom.spiflash_erase_sector sector s).1) (sector * 4096) 4096
  pub unlock_keeps : (s : S) → cells (rom.spiflash_unlock s).1 ≡ cells s

-- A driver that answers every aligned read below the end of the 32-bit addresses.
pub record IsReadable {S : Type 0} (rom : Rom S) : Type 0 where
  pub answers :
      (start len : ℕ) (s : S)
      → start % 4 ≡ 0
      → len % 4 ≡ 0
      → len ≤ 256
      → (bytes : List ℕ) × ((rom.spiflash_read start len s).0 ≡ some bytes)
