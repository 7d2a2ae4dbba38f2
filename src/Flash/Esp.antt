-- ===== src/Flash/Esp.antt =====
-- hardware/flash/src/lib.rs: `EspFlash`, the owner of the driver, as a NOR flash of its own.
use espbewi.Common.{ℕ, Option, List}
use espbewi.Flash.{NorFlash}
use espbewi.Flash.Laws.{NorFlashLaws}

pub record EspFlash (D : Type 0) : Type 0 where
  pub storage : D

-- The one owner, over a fresh driver; its static cell and its mutex are not part of the state.
abbrev pub init : {D : Type 0} → D → EspFlash D
init driver = record { storage = driver }

-- A call of the driver that it owns.
abbrev pub on_storage : {D A : Type 0} → (D → A × D) → EspFlash D → A × EspFlash D
on_storage call flash = let (r, storage) = call flash.storage in (r, record { storage = storage })

module _ {D : Type 0} (driver : NorFlash D) where
  abbrev pub read : ℕ → ℕ → EspFlash D → Option (List ℕ) × EspFlash D
  read offset len = on_storage (driver.read offset len)

  abbrev pub erase : ℕ → ℕ → EspFlash D → Option (Unit {0}) × EspFlash D
  erase from to = on_storage (driver.erase from to)

  abbrev pub write : ℕ → List ℕ → EspFlash D → Option (Unit {0}) × EspFlash D
  write offset bytes = on_storage (driver.program offset bytes)

  -- The trait's constants are the driver's.
  abbrev pub esp_flash : NorFlash (EspFlash D)
  esp_flash = record {
    erase_size = driver.erase_size;
    write_size = driver.write_size;
    read = read;
    erase = erase;
    program = write;
  }

  -- What callers rely on of the driver holds of the owner too.
  pub esp_flash-NorFlashLaws : NorFlashLaws driver → NorFlashLaws esp_flash
  esp_flash-NorFlashLaws laws = record {
    cells = λ flash. laws.cells flash.storage;
    erase_size_pos = laws.erase_size_pos;
    write_size_pos = laws.write_size_pos;
    read_keeps = λ a n flash. laws.read_keeps a n flash.storage;
    read_length = λ a n flash. laws.read_length a n flash.storage;
    read_holds = λ a n flash. laws.read_holds a n flash.storage;
    erase_clears = λ a n flash. laws.erase_clears a n flash.storage;
    erase_frame = λ a n flash. laws.erase_frame a n flash.storage;
    program_stores = λ a bytes flash. laws.program_stores a bytes flash.storage;
    program_frame = λ a bytes flash. laws.program_frame a bytes flash.storage;
  }
