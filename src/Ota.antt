-- ===== src/Ota.antt =====
-- adapters/ota/src/lib.rs: slots and partitions of the OTA adapter.
pub mod Storage
pub mod Otadata
pub mod SharedFlash
pub mod Interleaved
use espbewi.Common.{ℕ, Bool, Option, none, some, List, if◌then◌else◌}
use espbewi.Common.Bytes.{codes, eq_bytes}
use espbewi.Common.Exec.{Exec, pure, map_err, ◌>>=◌}
use espbewi.Flash.{NorFlash}
use espbewi.Partitions.{
  PartitionRange, PartitionType, app_ota_0, app_ota_1, TableParser, find, erase_range,
}
use espbewi.Partitions

pub data AppSlot : Type 0 where
  ota_0 ota_1 : AppSlot

-- `from_name`, over the bytes of the name.
unfoldable pub from_name : List ℕ → Option AppSlot
from_name name =
    if eq_bytes name (codes "ota_0")
    then some ota_0
    else if eq_bytes name (codes "ota_1")
    then some ota_1
    else none

unfoldable pub as_str : AppSlot → List ℕ
as_str ota_0 = codes "ota_0"
as_str ota_1 = codes "ota_1"

unfoldable pub other : AppSlot → AppSlot
other ota_0 = ota_1
other ota_1 = ota_0

abbrev pub subtype : AppSlot → PartitionType
subtype ota_0 = app_ota_0
subtype ota_1 = app_ota_1

pub record AppPartition : Type 0 where
  pub slot : AppSlot
  pub offset : ℕ
  pub size : ℕ

pub data PartitionError : Type 0 where
  table_unreadable not_found : PartitionError

pub data FlashWriteError : Type 0 where
  scratch_too_small address_overflow unaligned flash : FlashWriteError

abbrev pub find_error : Partitions.PartitionError → PartitionError
find_error Partitions.PartitionError.not_found = not_found
find_error _ = table_unreadable

unfoldable pub find_app_partition :
    {F Table : Type 0} → TableParser F Table → AppSlot → Exec F PartitionError AppPartition
unfolding find
find_app_partition parser slot = do
  range ← map_err find_error (find parser (subtype slot))
  pure (record { slot = slot; offset = range.offset; size = range.size })

abbrev pub erase_error : Partitions.PartitionError → FlashWriteError
erase_error Partitions.PartitionError.address_overflow = address_overflow
erase_error Partitions.PartitionError.unaligned = unaligned
erase_error _ = flash

abbrev pub range_of : AppPartition → PartitionRange
range_of p = record { offset = p.offset; size = p.size }

unfoldable pub erase_partition_range :
    {F : Type 0} → NorFlash F → AppPartition → ℕ → ℕ → Exec F FlashWriteError (Unit {0})
unfolding erase_range
erase_partition_range nor partition logical_from logical_to =
    map_err erase_error (erase_range nor (range_of partition) logical_from logical_to)
