-- ===== src/Bootloader/Reaches.antt =====
-- The stages of `boot` before the plan, on a driver that works.
use espbewi.Common.{
  ℕ, ◌+◌, ◌*◌, ◌/◌, ◌%◌, ◌<◌, ◌≤◌, ◌≡◌, refl, sym, ap, ◌∙◌, List, [], ◌∷◌, arith, All, get_or,
}
use espbewi.Common.Words.{two_32, add_u32}
use espbewi.Common.Result.{Result, ok}
use espbewi.Flash.Laws.{SameOutside}
use espbewi.Flash.Leaves.{Answers}
use espbewi.Flash.Slices.{slice}
use espbewi.Boot.{Rom, size_of_code, set_flash_size_from_header, flash_size_from_header}
use espbewi.Boot.Laws.{RomLaws, IsReadable}
use espbewi.Boot.Reads.{flash_read_total, flash_read-keeps}
use espbewi.Boot.Programs.{IsWritable}
use espbewi.BootEntries.{Write, BootCore}
use espbewi.Bootloader.{BootError, sector, Layout, layout_in}
use espbewi.Bootloader.Stages.{
  flash_read, set_flash_size, read_table, read_layout, read_otadata, base_of, execute, execute_all,
}
use espbewi.BootEntries.Entries.{replace_all, entries_in, entries_in-replace_at}
use espbewi.BootEntries.Updates.{Updates, IsPlanned}
use espbewi.Bootloader.Committed.{execute_total}

-- The two sectors of the boot entries are whole and end below the end of the 32-bit addresses.
pub record IsPlaced (layout : Layout) : Type 0 where
  pub at_sector : layout.otadata.0 % 4096 ≡ 0
  pub fits : layout.otadata.0 + 8192 < two_32

module _ {S : Type 0} (rom : Rom S) (laws : RomLaws rom) (readable : IsReadable rom)
    (size_keeps : (size : ℕ) (s : S) → laws.cells (rom.set_chip_size size s) ≡ laws.cells s) where
  open laws use {cells}

  pub flash_read-Answers :
      (offset n : ℕ) (s : S)
      → offset + n ≤ two_32
      → Answers cells (slice (cells s) offset n) s (flash_read rom offset n s)
  unfolding flash_read
  flash_read-Answers offset n s fits =
      rw (flash_read_total rom laws readable offset n s fits)
        (record { is_ok = refl; kept = flash_read-keeps rom laws offset n s })

  pub set_flash_size-Answers :
      (s : S)
      → Answers cells
          (size_of_code (get_or (slice (cells s) 0 4) 3 0 / 16))
          s
          (set_flash_size rom s)
  unfolding set_flash_size set_flash_size_from_header flash_size_from_header
  set_flash_size-Answers s =
      let read = flash_read_total rom laws readable 0 4 s (omega arith) in
      rw read (record { is_ok = refl; kept = size_keeps _ _ ∙ flash_read-keeps rom laws 0 4 s })

  pub read_layout-Answers :
      (layout : Layout) (s : S)
      → layout_in (slice (cells s) 0x8000 0xC00) ≡ ok layout
      → Answers cells layout s (read_layout rom s)
  unfolding read_layout read_table
  read_layout-Answers layout s listed =
      let read = flash_read-Answers 0x8000 0xC00 s (omega arith) in
      rw (read.is_ok, listed) (record { is_ok = refl; kept = read.kept })

module _ {S E : Type 0} (rom : Rom S) (laws : RomLaws rom) (readable : IsReadable rom)
    (size_keeps : (size : ℕ) (s : S) → laws.cells (rom.set_chip_size size s) ≡ laws.cells s)
    (core : BootCore E) (small : core.entry_size ≤ 4096) where
  open laws use {cells}

  pub read_otadata-Answers :
      (layout : Layout) (s : S)
      → IsPlaced layout
      → Answers cells
          (entries_in core layout.otadata.0 (cells s))
          s
          (read_otadata rom core layout s)
  unfolding read_otadata
  read_otadata-Answers layout s placed =
      let fits = placed.fits in
      let first =
        flash_read-Answers rom laws readable size_keeps layout.otadata.0 core.entry_size s
          (omega arith) in
      let s1 = (flash_read rom layout.otadata.0 core.entry_size s).1 in
      let second =
        flash_read-Answers rom laws readable size_keeps (layout.otadata.0 + 4096) core.entry_size s1
          (omega arith) in
      let here : add_u32 layout.otadata.0 0 ≡ layout.otadata.0 = omega arith in
      let next : add_u32 layout.otadata.0 sector ≡ layout.otadata.0 + 4096 = omega arith in
      rw (here, next)
        (rw (first.is_ok) (
          rw (second.is_ok) (record {
            is_ok =
                ap
                  (λ c. ok (
                    slice (cells s) layout.otadata.0 core.entry_size
                    ∷ slice c (layout.otadata.0 + 4096) core.entry_size
                    ∷ []))
                  first.kept;
            kept = second.kept ∙ first.kept;
          })))

module _ {S E : Type 0} (rom : Rom S) (laws : RomLaws rom) (readable : IsReadable rom)
    (writable : IsWritable rom laws) (core : BootCore E) (layout : Layout)
    (placed : IsPlaced layout) where
  open laws use {cells}

  -- Updates that succeed, leave the entries made of theirs, and stay within the two sectors.
  pub record Writes (writes : List (Write E)) (s : S) (out : Result BootError (Unit {0}) × S)
      : Type 0 where
    pub is_ok : out.0 ≡ ok tt
    pub entries :
        entries_in core layout.otadata.0 (cells out.1)
        ≡ replace_all core writes (entries_in core layout.otadata.0 (cells s))
    pub frame : SameOutside (cells s) (cells out.1) layout.otadata.0 8192

  pub base_of-sector :
      (write : Write E)
      → write.sector < 2
      → base_of rom core write layout ≡ layout.otadata.0 + write.sector * 4096
  base_of-sector write two = let fits = placed.fits in omega arith

  execute-Writes :
      (write : Write E) (s : S)
      → write.sector < 2
      → Updates core write
      → Writes (write ∷ []) s (execute rom core write layout s)
  unfolding replace_all
  execute-Writes write s two updates =
      let fits = placed.fits in
      let at_sector = placed.at_sector in
      let base = base_of-sector write two in
      let (done, stored, frame) =
        execute_total rom laws readable writable core write layout s (omega (arith, base))
          (omega (arith, base)) updates in
      let out = (execute rom core write layout s).1 in
      record {
        is_ok = done;
        entries =
            entries_in-replace_at core layout.otadata.0 updates.small write.sector
              (core.encode write.entry) (cells s) (cells out) two
              (ap (λ a. slice (cells out) a core.entry_size) (sym base) ∙ stored)
              (λ i out. frame i (omega (arith, base, out)));
        frame = λ i out. frame i (omega (arith, base, out));
      }

  pub execute_all-Writes :
      (writes : List (Write E)) (s : S)
      → All (IsPlanned core) writes
      → Writes writes s (execute_all rom core writes layout s)
  unfolding execute_all replace_all
  execute_all-Writes [] s all = record { is_ok = refl; entries = refl; frame = λ i out. refl }
  execute_all-Writes (write ∷ writes) s ((two, updates), all) =
      let first = execute-Writes write s two updates in
      let rest = execute_all-Writes writes (execute rom core write layout s).1 all in
      rw (first.is_ok) (record {
        is_ok = rest.is_ok;
        entries = rest.entries ∙ ap (replace_all core writes) first.entries;
        frame = λ i out. rest.frame i out ∙ first.frame i out;
      })
