-- ===== src/Flash.antt =====
-- hardware/flash/src/lib.rs: the NOR flash that the process owns. `EspFlash` hands each call to the
-- driver `esp_storage::FlashStorage`, which is not part of the repository: it enters as a record of
-- operations over a flash state `F`. `none` is the driver's error, whose value no caller keeps.
-- The mutex around the flash is held for the whole of each operation that a caller makes.
pub mod Laws
pub mod Slices
pub mod Splice
pub mod Leaves
pub mod Esp
use espbewi.Common.{ℕ, Option, List}

pub record NorFlash (F : Type 0) : Type 0 where
  pub erase_size : ℕ
  pub write_size : ℕ
  pub read : ℕ → ℕ → F → Option (List ℕ) × F
  pub erase : ℕ → ℕ → F → Option (Unit {0}) × F
  pub program : ℕ → List ℕ → F → Option (Unit {0}) × F
