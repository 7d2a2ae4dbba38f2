-- ===== src/Boot/Cache.antt =====
-- hardware/boot/src/lib.rs: the cache and the MMU while an image is mapped, the delay, and the
-- watchdogs of each chip. The ROM routines are a record of operations over the chip's state `S`.
use espbewi.Common.{ℕ}
use espbewi.Boot.{Rom, clear_flashboot_watchdogs}

pub record CacheRom (S : Type 0) : Type 0 where
  pub mmu_init : S → S
  pub enable_icache : ℕ → S → S
  pub suspend_icache : S → ℕ × S
  pub resume_icache : ℕ → S → S
  pub invalidate_icache_all : S → S
  -- `ext_ram`, `vaddr`, `paddr`, `psize` in KiB, `num`, `fixed`
  pub ibus_mmu_set : ℕ → ℕ → ℕ → ℕ → ℕ → ℕ → S → ℕ × S
  pub dbus_mmu_set : ℕ → ℕ → ℕ → ℕ → ℕ → ℕ → S → ℕ × S
  pub rom_delay_us : ℕ → S → S

module _ {S : Type 0} (cache : CacheRom S) where
  abbrev pub cache_begin_mapping : S → ℕ × S
  cache_begin_mapping s = cache.suspend_icache (cache.enable_icache 0 (cache.mmu_init s))

  abbrev pub map_irom : ℕ → ℕ → ℕ → S → ℕ × S
  map_irom vaddr paddr pages = cache.ibus_mmu_set 0 vaddr paddr 64 pages 0

  abbrev pub map_drom : ℕ → ℕ → ℕ → S → ℕ × S
  map_drom vaddr paddr pages = cache.dbus_mmu_set 0 vaddr paddr 64 pages 0

  abbrev pub cache_finish_mapping : ℕ → S → S
  cache_finish_mapping autoload s = cache.resume_icache autoload (cache.invalidate_icache_all s)

  abbrev pub delay_us : ℕ → S → S
  delay_us us = cache.rom_delay_us us

-- The second watchdog of the esp32c3 and of the esp32s3, by its offsets.
abbrev pub esp32c3_watchdogs : {S : Type 0} → Rom S → S → (ℕ × ℕ) × S
esp32c3_watchdogs rom = clear_flashboot_watchdogs rom 0x90 0xA8

abbrev pub esp32s3_watchdogs : {S : Type 0} → Rom S → S → (ℕ × ℕ) × S
esp32s3_watchdogs rom = clear_flashboot_watchdogs rom 0x98 0xB0
