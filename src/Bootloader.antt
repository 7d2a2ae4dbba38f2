-- ===== src/Bootloader.antt =====
-- bootloader/esp/src/main.rs: the second-stage bootloader, from the partition table to the jump.
-- The crate `fibewi-boot` decides (`plan_boot`) and validates images, and is not part of the
-- repository: both are parameters. So are the copy into RAM and the routines for the cache and the
-- MMU, which Bootloader/Hardware takes from the ROM; their answer `rc` is a number here, 0 for success.
-- A slot is an index below `SLOT_COUNT`, which is 2: `AppSlot` stands for it. Log lines are left out,
-- but for those of a failed boot, which are in Bootloader/Log.
pub mod Stages
pub mod Commit
pub mod Committed
pub mod Table
pub mod Listing
pub mod Log
pub mod Readable
pub mod Order
pub mod Copying
pub mod Loaded
pub mod Mapping
pub mod Hardware
pub mod Ready
pub mod Entered
pub mod Reaches
pub mod PowerCut
pub mod Ends
use espbewi.Common.{
  ℕ, zero, suc, ◌+◌, ◌-◌, ◌*◌, ◌/◌, ◌%◌, ◌==◌, min, ltb, Bool, true, false, not, ◌&&◌, ◌||◌, Option,
  none, some, List, [], ◌∷◌, length, take, drop, get_or, if◌then◌else◌,
}
use espbewi.Common.Bytes.{from_le_bytes, eq_bytes}
use espbewi.Common.Words.{add_u32, div_ceil}
use espbewi.Common.Result.{Result, ok, err}
use espbewi.Common.Exec.{Exec, pure, fail, lift, or_fail, fail_if, map_err, ◌>>=◌, ◌>>◌}
use espbewi.Boot.{
  Rom, FlashError, read_failed, flash_read, flash_program, flash_unlock, flash_erase_sector,
  set_flash_size_from_header, flash_reinit,
}
use espbewi.BootEntries.{Op, erase_op, program_op, Write, BootCore}
use espbewi.Ota.{AppSlot, ota_0, ota_1}
use espbewi.Platform.{MemoryMap, contains}

abbrev pub sector : ℕ
sector = 0x1000

abbrev pub partition_table_offset : ℕ
partition_table_offset = 0x8000

abbrev pub partition_table_len : ℕ
partition_table_len = 0xC00

abbrev pub partition_entry_magic : ℕ
partition_entry_magic = 0x50AA

pub data BootError : Type 0 where
  flash_read_failed missing_partition halt mmu : ℕ → BootError
  no_partition_table image_refused : BootError
  otadata_write : ℕ → ℕ → BootError

abbrev pub le32 : List ℕ → ℕ → ℕ
le32 bytes at = from_le_bytes (take 4 (drop at bytes))

abbrev pub le16 : List ℕ → ℕ
le16 bytes = from_le_bytes (take 2 bytes)

-- (offset, size) of each partition
pub record Layout : Type 0 where
  pub otadata : ℕ × ℕ
  pub app_0 : ℕ × ℕ
  pub app_1 : ℕ × ℕ

abbrev pub app : Layout → AppSlot → ℕ × ℕ
app layout ota_0 = layout.app_0
app layout ota_1 = layout.app_1

-- The partitions that the scan of the table has seen.
pub record Seen : Type 0 where
  pub otadata : Option (ℕ × ℕ)
  pub app_0 : Option (ℕ × ℕ)
  pub app_1 : Option (ℕ × ℕ)

abbrev pub see : Seen → List ℕ → Seen
see seen entry =
    let found = some (le32 entry 4, le32 entry 8) in
    let kind = get_or entry 2 0 in
    let subtype = get_or entry 3 0 in
    if kind == 1 && subtype == 0
    then record seen { otadata = found }
    else if kind == 0 && subtype == 0x10
    then record seen { app_0 = found }
    else if kind == 0 && subtype == 0x11
    then record seen { app_1 = found }
    else seen

-- The loop over `chunks_exact(32)`, for a number of chunks; it ends at an entry without the magic.
unfoldable pub scan : ℕ → List ℕ → Seen → Seen
scan zero table seen = seen
scan (suc count) table seen =
    let entry = take 32 table in
    let rest = scan count (drop 32 table) (see seen entry) in
    if le16 entry == partition_entry_magic then rest else seen

unfoldable pub layout_of : Seen → Result BootError Layout
layout_of seen = elim seen.otadata [
  | none ↦ err (missing_partition 1)
  | some (offset, size) ↦
      if ltb size (2 * sector)
      then err (missing_partition 1)
      else apps_of (offset, size) seen.app_0 seen.app_1
]
  where
    apps_of : ℕ × ℕ → Option (ℕ × ℕ) → Option (ℕ × ℕ) → Result BootError Layout
    apps_of otadata none app_1 = err (missing_partition 2)
    apps_of otadata (some app_0) none = err (missing_partition 3)
    apps_of otadata (some app_0) (some app_1) =
        ok (record { otadata = otadata; app_0 = app_0; app_1 = app_1 })

unfoldable pub layout_in : List ℕ → Result BootError Layout
unfolding layout_of scan
layout_in table =
    if not (le16 table == partition_entry_magic)
    then err no_partition_table
    else layout_of (scan 96 table (record { otadata = none; app_0 = none; app_1 = none }))

-- `image::ImageError`, of which the bootloader only reports a number.
pub data ImageError : Type 0 where
  read_error bad_entry truncated bad_checksum hash_missing bad_hash : ImageError
  bad_magic bad_chip bad_segment_count segment_outside_partition : ℕ → ImageError
  bad_load_range misaligned overlaps_bootloader : ℕ → ImageError

unfoldable pub image_error_code : ImageError → ℕ
image_error_code read_error = 1
image_error_code (bad_magic n) = 2
image_error_code (bad_chip n) = 3
image_error_code (bad_segment_count n) = 4
image_error_code (segment_outside_partition n) = 5
image_error_code (bad_load_range n) = 6
image_error_code (misaligned n) = 7
image_error_code (overlaps_bootloader n) = 8
image_error_code bad_entry = 9
image_error_code truncated = 10
image_error_code bad_checksum = 11
image_error_code hash_missing = 12
image_error_code bad_hash = 13

pub record Segment : Type 0 where
  pub load : ℕ
  pub len : ℕ
  pub data_offset : ℕ

pub record Image : Type 0 where
  pub entry : ℕ
  pub segments : List Segment

pub data BootChoice : Type 0 where
  boot_slot : AppSlot → ℕ → BootChoice
  halt_no_image halt_no_usable_entry : BootChoice

pub record Plan (E : Type 0) : Type 0 where
  pub choice : BootChoice
  pub writes : List (Write E)

-- `plan_boot`, `image::validate`, `Segment::ram_target`; a validator reads through its first argument.
pub record Planner (S E : Type 0) : Type 0 where
  pub plan_boot : List (List ℕ) → (AppSlot → S → Bool × S) → S → Plan E × S
  pub validate :
      (ℕ → ℕ → Exec S (Unit {0}) (List ℕ)) → ℕ → ℕ → MemoryMap → S → Result ImageError Image × S
  pub ram_target : Segment → MemoryMap → Option ℕ

-- RAM, cache and MMU while an image is loaded.
pub record Loader (S : Type 0) : Type 0 where
  pub copy : ℕ → List ℕ → S → S
  pub cache_begin_mapping : S → ℕ × S
  pub map_drom : ℕ → ℕ → ℕ → S → ℕ × S
  pub map_irom : ℕ → ℕ → ℕ → S → ℕ × S
  pub cache_finish_mapping : ℕ → S → S
  pub delay_us : ℕ → S → S

-- The address of a failed read, for any error of `hw::flash_read`.
abbrev pub read_error_of : ℕ → FlashError → BootError
read_error_of offset (read_failed at) = flash_read_failed at
read_error_of offset _ = flash_read_failed offset
