-- ===== src/BootEntries.antt =====
-- The boot entries of FiBeWI's crate `fibewi::boot`, which is not part of the repository: the type
-- `E` of its entries, what it decides and how it encodes enter as a record of operations. `Write`
-- and `Op` have the fields that the adapter and the bootloader take out of them.
pub mod Updates
pub mod Entries
use espbewi.Common.{ℕ, Bool, Option, List}

-- A command of an entry update.
pub data Op : Type 0 where
  erase_op : Op
  program_op : ℕ → ℕ → List ℕ → Op

pub record Write (E : Type 0) : Type 0 where
  pub sector : ℕ
  pub entry : E

pub record BootCore (E : Type 0) : Type 0 where
  pub entry_size : ℕ
  pub blank : List ℕ
  pub decode : List ℕ → Option E
  pub encode : E → List ℕ
  pub body : E → List ℕ
  pub entry_eq : Option E → E → Bool
  pub seq : E → ℕ
  pub state : E → ℕ
  pub state_new : ℕ
  pub state_pending_verify : ℕ
  pub state_valid : ℕ
  pub state_invalid : ℕ
  pub state_aborted : ℕ
  pub slot_of : ℕ → ℕ → ℕ
  pub ops : Write E → Op × Op × Op
  pub confirm : List (List ℕ) → Option (Write E)
  pub reject : List (List ℕ) → Option (Write E)
  pub activate : List (List ℕ) → ℕ → ℕ → Option (Write E)
