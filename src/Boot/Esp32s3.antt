-- ===== src/Boot/Esp32s3.antt =====
-- hardware/boot/src/lib.rs, `esp32s3::hw`. The text of each function is that of `esp32c3::hw`, so each
-- stands for the same definition, but for the offsets of the second watchdog.
use espbewi.Common.{ℕ, List}
use espbewi.Common.Exec.{Exec}
use espbewi.Boot
use espbewi.Boot.{Rom, FlashError}
use espbewi.Boot.Cache as Cache
use espbewi.Boot.Cache.{CacheRom, esp32s3_watchdogs}

module _ {S : Type 0} (rom : Rom S) where
  abbrev pub flash_read : ℕ → ℕ → Exec S FlashError (List ℕ)
  flash_read = Boot.flash_read rom

  abbrev pub flash_program : ℕ → List ℕ → Exec S FlashError (Unit {0})
  flash_program = Boot.flash_program rom

  abbrev pub flash_unlock : Exec S FlashError (Unit {0})
  flash_unlock = Boot.flash_unlock rom

  abbrev pub flash_erase_sector : ℕ → Exec S FlashError (Unit {0})
  flash_erase_sector = Boot.flash_erase_sector rom

  abbrev pub flash_size_from_header : Exec S FlashError ℕ
  flash_size_from_header = Boot.flash_size_from_header rom

  abbrev pub set_flash_size_from_header : Exec S FlashError ℕ
  set_flash_size_from_header = Boot.set_flash_size_from_header rom

  abbrev pub flash_reinit : S → ℕ × S
  flash_reinit = Boot.flash_reinit rom

  abbrev pub clear_flashboot_watchdogs : S → (ℕ × ℕ) × S
  clear_flashboot_watchdogs = esp32s3_watchdogs rom

module _ {S : Type 0} (cache : CacheRom S) where
  abbrev pub cache_begin_mapping : S → ℕ × S
  cache_begin_mapping = Cache.cache_begin_mapping cache

  abbrev pub map_irom : ℕ → ℕ → ℕ → S → ℕ × S
  map_irom = Cache.map_irom cache

  abbrev pub map_drom : ℕ → ℕ → ℕ → S → ℕ × S
  map_drom = Cache.map_drom cache

  abbrev pub cache_finish_mapping : ℕ → S → S
  cache_finish_mapping = Cache.cache_finish_mapping cache

  abbrev pub delay_us : ℕ → S → S
  delay_us = Cache.delay_us cache
