-- ===== src/Bootloader/Hardware.antt =====
-- bootloader/esp/src/main.rs: the loader on the ROM's cache routines, and `main`. The start of the
-- HAL (`esp_hal::init`) is a step of the state.
use espbewi.Common.{ℕ, List}
use espbewi.Common.Result.{Result}
use espbewi.Boot.{Rom}
use espbewi.Boot.Cache.{
  CacheRom, cache_begin_mapping, map_drom, map_irom, cache_finish_mapping, delay_us,
}
use espbewi.BootEntries.{BootCore}
use espbewi.Platform.{MemoryMap, esp32c3_map, esp32s3_map}
use espbewi.Bootloader.{BootError, Planner, Loader}
use espbewi.Bootloader.Stages.{boot}
use espbewi.Bootloader.Mapping.{Mapping, IsMapCall, MmuLaws}

-- The routines that `load` uses, with the copy to RAM.
abbrev pub rom_loader : {S : Type 0} → CacheRom S → (ℕ → List ℕ → S → S) → Loader S
rom_loader cache copy = record {
  copy = copy;
  cache_begin_mapping = cache_begin_mapping cache;
  map_drom = map_drom cache;
  map_irom = map_irom cache;
  cache_finish_mapping = cache_finish_mapping cache;
  delay_us = delay_us cache;
}

-- What the ROM documents of its two MMU routines, for pages of 64 KiB of the flash, whose table has
-- pages for `span` bytes and serves both windows.
pub record CacheLaws {S : Type 0} (cache : CacheRom S) : Type 0 where
  pub span : ℕ
  pub mapping : S → Mapping
  pub dbus :
      (v p n : ℕ) (s : S)
      → let (rc, s') = cache.dbus_mmu_set 0 v p 64 n 0 s in
        IsMapCall span v p n rc (mapping s) (mapping s')
  pub ibus :
      (v p n : ℕ) (s : S)
      → let (rc, s') = cache.ibus_mmu_set 0 v p 64 n 0 s in
        IsMapCall span v p n rc (mapping s) (mapping s')

abbrev pub rom_loader-MmuLaws :
    {S : Type 0}
    → (cache : CacheRom S) (copy : ℕ → List ℕ → S → S) → CacheLaws cache
    → MmuLaws (rom_loader cache copy)
rom_loader-MmuLaws cache copy laws = record {
  span = laws.span;
  mapping = laws.mapping;
  drom = laws.dbus;
  irom = laws.ibus;
}

-- The map of the chip, field by field, in the type of the image loader.
abbrev pub memory_map : MemoryMap → MemoryMap
memory_map p = record {
  chip_id = p.chip_id;
  drom = p.drom;
  irom = p.irom;
  iram = p.iram;
  dram = p.dram;
  rtc = p.rtc;
  sram_alias_offset = p.sram_alias_offset;
  boot_window = p.boot_window;
  mmu_page = p.mmu_page;
}

abbrev pub memory_map_esp32c3 : MemoryMap
memory_map_esp32c3 = memory_map esp32c3_map

abbrev pub memory_map_esp32s3 : MemoryMap
memory_map_esp32s3 = memory_map esp32s3_map

-- `main`, up to the endless loop behind a failed `boot`: the answer is that of `boot`.
module _ {S E : Type 0} (rom : Rom S) (core : BootCore E) (planner : Planner S E)
    (loader : Loader S) (map : MemoryMap) (watchdogs : S → (ℕ × ℕ) × S) (hal_init : S → S) where
  unfoldable pub main : S → Result BootError ℕ × S
  unfolding boot
  main s = let (cleared, s1) = watchdogs s in boot rom core planner loader map (hal_init s1)
