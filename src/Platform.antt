-- ===== src/Platform.antt =====
-- hardware/platform/src/lib.rs: the memory geometry of the two chips.
use espbewi.Common.{ℕ, Bool, ◌&&◌, ◌||◌, leb, ltb}

-- `Range<u32>`
pub record Range : Type 0 where
  pub start : ℕ
  pub end : ℕ

unfoldable pub contains : Range → ℕ → Bool
contains range addr = leb range.start addr && ltb addr range.end

pub record MemoryMap : Type 0 where
  pub chip_id : ℕ
  pub drom : Range
  pub irom : Range
  pub iram : Range
  pub dram : Range
  pub rtc : Range
  pub sram_alias_offset : ℕ
  pub boot_window : Range
  pub mmu_page : ℕ

unfoldable pub is_flash_mapped : MemoryMap → ℕ → Bool
unfolding contains
is_flash_mapped map addr = contains map.drom addr || contains map.irom addr

abbrev pub esp32c3_map : MemoryMap
esp32c3_map = record {
  chip_id = 0x0005;
  drom = record { start = 0x3C000000; end = 0x3C800000 };
  irom = record { start = 0x42000000; end = 0x42800000 };
  iram = record { start = 0x4037C000; end = 0x403E0000 };
  dram = record { start = 0x3FC80000; end = 0x3FCE0000 };
  rtc = record { start = 0x50000000; end = 0x50002000 };
  sram_alias_offset = 0x00700000;
  boot_window = record { start = 0x3FCCB000; end = 0x3FCE0000 };
  mmu_page = 0x10000;
}

abbrev pub esp32s3_map : MemoryMap
esp32s3_map = record {
  chip_id = 0x0009;
  drom = record { start = 0x3C000000; end = 0x3D000000 };
  irom = record { start = 0x42000000; end = 0x42800000 };
  iram = record { start = 0x40370000; end = 0x403E0000 };
  dram = record { start = 0x3FC88000; end = 0x3FD00000 };
  rtc = record { start = 0x600FE000; end = 0x60100000 };
  sram_alias_offset = 0x006F0000;
  boot_window = record { start = 0x3FCC8000; end = 0x3FD00000 };
  mmu_page = 0x10000;
}
