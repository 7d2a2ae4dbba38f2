-- ===== src/Examples/BootRuns.antt =====
-- The second-stage bootloader on a concrete chip, whose state is its flash.
use espbewi.Common.{
  ℕ, ◌+◌, ◌*◌, ◌≤◌, ◌≡◌, refl, true, some, List, [], ◌∷◌, ◌++◌, none, replicate, arith,
}
use espbewi.Common.Result.{ok}
use espbewi.Flash.Laws.{Cells}
use espbewi.Flash.Slices.{slice}
use espbewi.Boot.{
  Rom, flash_read, flash_program, flash_unlock, flash_erase_sector, program_loop, read_loop,
  read_window, set_flash_size_from_header, flash_size_from_header,
}
use espbewi.Boot.Laws.{RomLaws, IsReadable}
use espbewi.Boot.Reads.{flash_read-slice, flash_read_total}
use espbewi.BootEntries.{Write}
use espbewi.Ota.{ota_0}
use espbewi.Platform.{esp32c3_map}
use espbewi.Bootloader.{Image, Layout, boot_slot, Planner, Loader, layout_in, layout_of, scan}
use espbewi.Bootloader.Stages
use espbewi.Bootloader.Stages.{
  execute, execute_all, boot, load, load_image, copy_segments, map_segments, read_layout,
  read_table, read_otadata, set_flash_size,
}
use espbewi.Bootloader.Listing.{table_rows, layout_listed, layout_in-layout_listed}
use espbewi.Bootloader.Table.{IsListed, layout_in-IsListed}
use espbewi.Bootloader.Commit.{execute-slice}
use espbewi.Bootloader.Order.{Jumps, boot-Jumps}
use espbewi.Examples.Ram.{set_cells, clear_cells, clear_outside, set_outside}
use espbewi.Examples.Core.{small_core}

abbrev pub chip : Rom Cells
chip = record {
  spiflash_read = λ start len c. (some (slice c start len), c);
  spiflash_write = λ at bytes c. (some tt, set_cells at bytes c);
  spiflash_erase_sector = λ n c. (some tt, clear_cells (n * 4096) (n * 4096 + 4096) c);
  spiflash_unlock = λ c. (some tt, c);
  spiflash_attach = λ c. c;
  spiflash_config_param = λ size block sector page mask c. c;
  set_chip_size = λ size c. c;
  read_volatile = λ at c. (0, c);
  write_volatile = λ at value c. c;
}

pub some_injective : (bs cs : List ℕ) → some bs ≡ some cs → cs ≡ bs
some_injective bs cs e = cc

abbrev pub chip_laws : RomLaws chip
chip_laws = record {
  cells = λ c. c;
  read_slice = λ start len c bytes a b d e. some_injective (slice c start len) bytes e;
  read_keeps = λ start len c. refl;
  write_frame = λ at bytes c. set_outside at bytes c;
  erase_frame = λ n c. clear_outside (n * 4096) 4096 c;
  unlock_keeps = λ c. refl;
}

abbrev pub chip-IsReadable : IsReadable chip
chip-IsReadable = record { answers = λ start len c a b d. (slice c start len, refl) }

abbrev numbered : Cells
numbered i = i

unaligned_read : 5 ∷ 6 ∷ 7 ∷ 8 ∷ 9 ∷ [] ≡ slice numbered 5 5
unfolding flash_read read_loop read_window
unaligned_read =
    flash_read-slice chip chip_laws 5 5 numbered (5 ∷ 6 ∷ 7 ∷ 8 ∷ 9 ∷ []) (omega arith) refl

flash_read_total_example : (flash_read chip 1001 300 numbered).0 ≡ ok (slice numbered 1001 300)
flash_read_total_example =
    flash_read_total chip chip_laws chip-IsReadable 1001 300 numbered (omega arith)

-- A row of the partition table, its offset and size in units of 256 bytes.
abbrev pub row : ℕ → ℕ → ℕ → ℕ → List ℕ
row kind subtype offset size =
    (0xAA ∷ 0x50 ∷ kind ∷ subtype ∷ 0 ∷ offset ∷ 0 ∷ 0 ∷ 0 ∷ size ∷ 0 ∷ 0 ∷ []) ++ replicate 20 0

abbrev pub rows : List ℕ
rows = row 1 0 64 32 ++ (row 0 0x10 80 16 ++ row 0 0x11 96 16)

abbrev pub flashed : Cells
flashed = set_cells 0x8000 rows (λ i. 255)

abbrev pub layout : Layout
layout = record { otadata = (16384, 8192); app_0 = (20480, 4096); app_1 = (24576, 4096) }

abbrev image : Image
image = record { entry = 0x42000020; segments = [] }

abbrev pub update : Write ℕ
update = record { sector = 1; entry = 6 }

-- Plans one update and slot 0, whose image is always good.
abbrev planner : Planner Cells ℕ
planner = record {
  plan_boot = λ raws good c. (record { choice = boot_slot ota_0 6; writes = update ∷ [] }, c);
  validate = λ reader offset size map c. (ok image, c);
  ram_target = λ seg map. none;
}

abbrev loader : Loader Cells
loader = record {
  copy = λ target bytes c. c;
  cache_begin_mapping = λ c. (0, c);
  map_drom = λ v p n c. (0, c);
  map_irom = λ v p n c. (0, c);
  cache_finish_mapping = λ autoload c. c;
  delay_us = λ us c. c;
}

layout_run : (read_layout chip flashed).0 ≡ ok layout
unfolding read_layout read_table Stages.flash_read flash_read read_loop read_window layout_in scan
    layout_of
layout_run = refl

execute-slice_example :
    (slice (execute chip small_core update layout flashed).1 20480 8
      ≡ 6 ∷ 1 ∷ 2 ∷ 3 ∷ 9 ∷ 9 ∷ 9 ∷ 9 ∷ [])
    × (small_core.entry_eq (small_core.decode (small_core.encode 6)) 6 ≡ true)
unfolding execute flash_program program_loop flash_unlock flash_erase_sector Stages.flash_read
    flash_read read_loop read_window
execute-slice_example =
    execute-slice chip chip_laws small_core update layout flashed (omega arith) refl

Jumps-run : Jumps chip small_core planner loader esp32c3_map flashed 0x42000020
unfolding boot set_flash_size set_flash_size_from_header flash_size_from_header read_layout
    read_table Stages.flash_read flash_read read_loop read_window layout_in scan layout_of
    read_otadata execute_all execute flash_program program_loop flash_unlock flash_erase_sector load
    load_image copy_segments map_segments
Jumps-run = boot-Jumps chip small_core planner loader esp32c3_map flashed 0x42000020 refl

IsListed-run :
    IsListed 96 1 0 (slice flashed 0x8000 0xC00) layout.otadata
    × IsListed 96 0 0x10 (slice flashed 0x8000 0xC00) layout.app_0
    × IsListed 96 0 0x11 (slice flashed 0x8000 0xC00) layout.app_1
    × (8192 ≤ layout.otadata.1)
unfolding layout_in scan layout_of
IsListed-run = layout_in-IsListed (slice flashed 0x8000 0xC00) layout refl

layout_in-layout_listed_example :
    let table = slice flashed 0x8000 0xC00 in layout_in table ≡ layout_listed (table_rows 96 table)
layout_in-layout_listed_example = layout_in-layout_listed (slice flashed 0x8000 0xC00)
