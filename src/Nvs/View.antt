-- ===== src/Nvs/View.antt =====
-- hardware/nvs/src/lib.rs: `NvsFlash`, the shared flash as `esp-nvs` sees it. It borrows the flash,
-- so its state is that of the flash.
use espbewi.Common.{ℕ, Option, List}
use espbewi.Flash.{NorFlash}
use espbewi.Flash.Esp
use espbewi.Flash.Esp.{EspFlash}

module _ {D : Type 0} (driver : NorFlash D) where
  abbrev pub read : ℕ → ℕ → EspFlash D → Option (List ℕ) × EspFlash D
  read offset len = Esp.read driver offset len

  abbrev pub erase : ℕ → ℕ → EspFlash D → Option (Unit {0}) × EspFlash D
  erase from to = Esp.erase driver from to

  abbrev pub write : ℕ → List ℕ → EspFlash D → Option (Unit {0}) × EspFlash D
  write offset bytes = Esp.write driver offset bytes

  -- The flash that the store is opened over, the constants being those of `EspFlash`.
  abbrev pub nvs_flash : NorFlash (EspFlash D)
  nvs_flash = record {
    erase_size = driver.erase_size;
    write_size = driver.write_size;
    read = read;
    erase = erase;
    program = write;
  }
