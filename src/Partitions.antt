-- ===== src/Partitions.antt =====
-- hardware/partitions/src/lib.rs: partition lookup and erasing inside a partition. The table parser
-- is the crate `esp-bootloader-esp-idf`: reading the table and looking in it are a parameter.
pub mod Erase
use espbewi.Common.{ℕ, ◌%◌, ◌==◌, Bool, true, false, not, ◌||◌, Option, none, some, List, ltb}
use espbewi.Common.Words.{to_u32, checked_add}
use espbewi.Common.Exec.{Exec, pure, or_fail, attempt, fail_if, ◌>>=◌, ◌>>◌}
use espbewi.Flash.{NorFlash}

pub record PartitionRange : Type 0 where
  pub offset : ℕ
  pub size : ℕ

pub data PartitionError : Type 0 where
  table_unreadable not_found address_overflow unaligned flash_failed : PartitionError

-- The types of `PartitionType` that the adapters ask for.
pub data PartitionType : Type 0 where
  app_ota_0 app_ota_1 data_ota : PartitionType

-- An entry of the table: `offset()`, `len()` and the label's bytes.
pub record TableEntry : Type 0 where
  pub start : ℕ
  pub len : ℕ
  pub label : List ℕ

pub record TableParser (F Table : Type 0) : Type 0 where
  pub read_table : F → Option Table × F
  pub find_partition : Table → PartitionType → Option (Option TableEntry)
  pub booted_partition : Table → Option (Option TableEntry)

module _ {F Table : Type 0} (parser : TableParser F Table) where
  unfoldable pub find : PartitionType → Exec F PartitionError PartitionRange
  find kind = do
    table ← attempt parser.read_table table_unreadable
    entry ← or_fail (parser.find_partition table kind) table_unreadable
    located ← or_fail entry not_found
    pure (record { offset = located.start; size = located.len })

module _ {F : Type 0} (nor : NorFlash F) where
  abbrev pub erase_absolute : ℕ → ℕ → ℕ → Exec F PartitionError (Unit {0})
  erase_absolute base from to = do
    absolute_from ← or_fail (checked_add base from) address_overflow
    absolute_to ← or_fail (checked_add base to) address_overflow
    attempt (nor.erase absolute_from absolute_to) flash_failed

  unfoldable pub erase_range : PartitionRange → ℕ → ℕ → Exec F PartitionError (Unit {0})
  erase_range partition logical_from logical_to = do
    fail_if (ltb logical_to logical_from) address_overflow
    from ← or_fail (to_u32 logical_from) address_overflow
    to ← or_fail (to_u32 logical_to) address_overflow
    fail_if (not (from % nor.erase_size == 0) || not (to % nor.erase_size == 0)) unaligned
    fail_if (ltb partition.size to) address_overflow
    elim (from == to) [ true ↦ pure tt | false ↦ erase_absolute partition.offset from to ]
