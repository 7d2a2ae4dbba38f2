-- ===== src/Bootloader/Stages.antt =====
-- bootloader/esp/src/main.rs: what the bootloader does with the flash, stage by stage, and `boot`.
-- A jump is an answer here, the entry address: `load` and `boot` return in no other case but errors.
use espbewi.Common.{
  ℕ, zero, suc, ◌+◌, ◌-◌, ◌*◌, ◌/◌, ◌%◌, ◌==◌, min, ltb, Bool, true, false, not, ◌||◌, Option, none,
  some, List, [], ◌∷◌, take, if◌then◌else◌,
}
use espbewi.Common.Bytes.{eq_bytes}
use espbewi.Common.Words.{add_u32, div_ceil}
use espbewi.Common.Result.{Result, ok, err}
use espbewi.Common.Exec.{Exec, pure, fail, lift, fail_if, map_err, ◌>>=◌, ◌>>◌}
use espbewi.Boot
use espbewi.Boot.{
  Rom, FlashError, read_failed, flash_program, flash_unlock, flash_erase_sector,
  set_flash_size_from_header, flash_reinit,
}
use espbewi.BootEntries.{Op, erase_op, program_op, Write, BootCore}
use espbewi.Ota.{AppSlot}
use espbewi.Platform.{MemoryMap, contains}
use espbewi.Bootloader.{
  BootError, halt, mmu, image_refused, otadata_write, sector, Layout, app, layout_in,
  partition_table_offset, partition_table_len, ImageError, Segment, Image, BootChoice, boot_slot,
  halt_no_image, halt_no_usable_entry, Planner, Loader, read_error_of,
}

-- The page that an address lies in: `x & !(page - 1)`, for a page that is a power of two.
abbrev pub page_start : ℕ → ℕ → ℕ
page_start x page = x - x % page

abbrev pub chosen : BootChoice → Result BootError AppSlot
chosen (boot_slot slot seq) = ok slot
chosen halt_no_image = err (halt 1)
chosen halt_no_usable_entry = err (halt 2)

module _ {S : Type 0} (rom : Rom S) where
  unfoldable pub flash_read : ℕ → ℕ → Exec S BootError (List ℕ)
  flash_read offset n = map_err (read_error_of offset) (Boot.flash_read rom offset n)

  unfoldable pub set_flash_size : Exec S BootError ℕ
  set_flash_size = map_err (read_error_of 0) (set_flash_size_from_header rom)

  -- The second attempt to read the table, after a failure.
  abbrev pub or_retry : Result BootError (List ℕ) → Exec S BootError (List ℕ)
  or_retry (ok table) s = (ok table, s)
  or_retry (err e) s = flash_read partition_table_offset partition_table_len (flash_reinit rom s).1

  unfoldable pub read_table : Exec S BootError (List ℕ)
  read_table s =
      let (first, s1) = flash_read partition_table_offset partition_table_len s in or_retry first s1

  unfoldable pub read_layout : Exec S BootError Layout
  read_layout = do table ← read_table; lift (layout_in table)

  -- `RomFlash::read`
  abbrev pub rom_flash : ℕ → ℕ → Exec S (Unit {0}) (List ℕ)
  rom_flash offset n = map_err (λ _. tt) (flash_read offset n)

module _ {S E : Type 0} (rom : Rom S) (core : BootCore E) where
  unfoldable pub read_otadata : Layout → Exec S BootError (List (List ℕ))
  read_otadata layout = do
    first ← flash_read rom (add_u32 layout.otadata.0 0) core.entry_size
    second ← flash_read rom (add_u32 layout.otadata.0 sector) core.entry_size
    pure (first ∷ second ∷ [])

  -- Reads the entry back and compares it.
  abbrev pub checked_read : ℕ → BootError → (List ℕ → Bool) → Exec S BootError (Unit {0})
  checked_read base e good = do
    back ← flash_read rom base core.entry_size
    fail_if (not (good back)) e

  abbrev pub program_verified : ℕ → BootError → Op → (List ℕ → Bool) → Exec S BootError (Unit {0})
  program_verified base e erase_op good = fail e
  program_verified base e (program_op offset len bytes) good =
      map_err (λ _. e) (flash_program rom (add_u32 base offset) (take len bytes))
      >> checked_read base e good

  abbrev pub erase_verified : ℕ → BootError → Op → Exec S BootError (Unit {0})
  erase_verified base e (program_op offset len bytes) = fail e
  erase_verified base e erase_op =
      map_err (λ _. e) (flash_erase_sector rom (base / sector))
      >> checked_read base e (λ back. eq_bytes back core.blank)

  abbrev pub is_committed : E → List ℕ → Bool
  is_committed entry back =
      if eq_bytes back (core.encode entry) then core.entry_eq (core.decode back) entry else false

  abbrev pub base_of : Write E → Layout → ℕ
  base_of write layout = add_u32 layout.otadata.0 (write.sector * sector)

  unfoldable pub execute : Write E → Layout → Exec S BootError (Unit {0})
  execute write layout =
      let base = base_of write layout in
      let (erase, body, commit) = core.ops write in
      map_err (λ _. otadata_write 0 base) (flash_unlock rom)
      >> erase_verified base (otadata_write 0 base) erase
      >> program_verified base (otadata_write 1 base) body
          (λ back. eq_bytes back (core.body write.entry))
      >> program_verified base (otadata_write 2 base) commit (is_committed write.entry)

  unfoldable pub execute_all : List (Write E) → Layout → Exec S BootError (Unit {0})
  execute_all [] layout = pure tt
  execute_all (write ∷ writes) layout = execute write layout >> execute_all writes layout

-- Loading an image, and `boot`.
module _ {S E : Type 0} (rom : Rom S) (core : BootCore E) (planner : Planner S E)
    (loader : Loader S) (map : MemoryMap) where
  abbrev pub validate : ℕ × ℕ → S → Result ImageError Image × S
  validate (offset, size) = planner.validate (rom_flash rom) offset size map

  -- The loop that copies a segment in pieces of 256 bytes, on fuel.
  unfoldable pub copy_loop : ℕ → Segment → ℕ → ℕ → Exec S BootError (Unit {0})
  copy_loop zero seg target copied = pure tt
  copy_loop (suc fuel) seg target copied = elim (ltb copied seg.len) [
    | true ↦ do
      chunk ← flash_read rom (add_u32 seg.data_offset copied) (min (seg.len - copied) 256)
      λ s. (ok tt, loader.copy (target + copied) chunk s)
      copy_loop fuel seg target (copied + min (seg.len - copied) 256)
    | false ↦ pure tt
  ]

  abbrev pub copy_to : Option ℕ → Segment → Exec S BootError (Unit {0})
  copy_to none seg = pure tt
  copy_to (some target) seg = copy_loop seg.len seg target 0

  unfoldable pub copy_segments : List Segment → Exec S BootError (Unit {0})
  copy_segments [] = pure tt
  copy_segments (seg ∷ segs) =
      (if ltb 0 seg.len then copy_to (planner.ram_target seg map) seg else pure tt)
      >> copy_segments segs

  -- One MMU call, for a segment in the data or the instruction window.
  abbrev pub mmu_call : Segment → S → ℕ × S
  mmu_call seg =
      let vaddr = page_start seg.load map.mmu_page in
      let paddr = page_start seg.data_offset map.mmu_page in
      let pages = div_ceil (add_u32 seg.len (seg.load - vaddr)) map.mmu_page in
      if contains map.drom seg.load
      then loader.map_drom vaddr paddr pages
      else loader.map_irom vaddr paddr pages

  abbrev pub map_segment : Segment → Exec S BootError (Unit {0})
  map_segment seg s = let (rc, s') = mmu_call seg s in (if rc == 0 then ok tt else err (mmu rc), s')

  unfoldable pub map_segments : List Segment → Exec S BootError (Unit {0})
  map_segments [] = pure tt
  map_segments (seg ∷ segs) =
      (if ltb 0 seg.len
        then (if contains map.drom seg.load || contains map.irom seg.load
            then map_segment seg
            else pure tt)
        else pure tt)
      >> map_segments segs

  -- What `load` does with a validated image.
  unfoldable pub load_image : Image → Exec S BootError ℕ
  load_image image = do
    copy_segments image.segments
    autoload ← λ s. let (a, s') = loader.cache_begin_mapping s in (ok a, s')
    map_segments image.segments
    λ s. (ok image.entry, loader.delay_us 50000 (loader.cache_finish_mapping autoload s))

  unfoldable pub load : Layout → AppSlot → Exec S BootError ℕ
  load layout slot = do
    image ← map_err (λ _. image_refused) (validate (app layout slot))
    load_image image

  -- The closure `image_ok`.
  abbrev pub image_ok : Layout → AppSlot → S → Bool × S
  image_ok layout slot s =
      let (r, s') = validate (app layout slot) s in
      elim r [ ok image ↦ (true, s') | err e ↦ (false, s') ]

  unfoldable pub boot : Exec S BootError ℕ
  boot = do
    set_flash_size rom
    layout ← read_layout rom
    entries ← read_otadata rom core layout
    plan ← λ s. let (p, s') = planner.plan_boot entries (image_ok layout) s in (ok p, s')
    slot ← lift (chosen plan.choice)
    execute_all rom core plan.writes layout
    load layout slot
