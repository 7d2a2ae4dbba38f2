-- ===== src/Ota/SharedFlash/Locked.antt =====
-- adapters/ota/src/shared_flash.rs: the wrappers that lock the shared flash and call `otadata` on its
-- driver, with a fresh buffer for the table. The lock is held for the whole call.
use espbewi.Common.Exec.{Exec}
use espbewi.Flash.{NorFlash}
use espbewi.Flash.Esp.{EspFlash, on_storage}
use espbewi.Partitions.{TableParser}
use espbewi.BootEntries.{BootCore}
use espbewi.Ota.{AppSlot, AppPartition}
use espbewi.Ota.Otadata

module _ {D Table E : Type 0} (nor : NorFlash D) (parser : TableParser D Table)
    (core : BootCore E) where
  abbrev pub write_target_locked : Exec (EspFlash D) Otadata.Error AppPartition
  write_target_locked = on_storage (Otadata.write_target nor parser core)

  abbrev pub write_target : Exec (EspFlash D) Otadata.Error AppPartition
  write_target = write_target_locked

  abbrev pub confirm : Exec (EspFlash D) Otadata.Error (Unit {0})
  confirm = on_storage (Otadata.confirm nor parser core)

  abbrev pub reject : Exec (EspFlash D) Otadata.Error (Unit {0})
  reject = on_storage (Otadata.reject nor parser core)

  abbrev pub activate : AppSlot → Exec (EspFlash D) Otadata.Error (Unit {0})
  activate target = on_storage (Otadata.activate nor parser core target)
