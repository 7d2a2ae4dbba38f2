-- ===== src/Ota/Otadata/Transitions.antt =====
-- `confirm`, `reject` and `activate` as what they do to the two entries.
use espbewi.Common.{
  ℕ, ◌+◌, ◌*◌, ◌%◌, ◌≤◌, ◌<◌, ◌≡◌, refl, ap, ◌∙◌, Option, some, List, [], ◌∷◌, arith,
}
use espbewi.Common.Words.{two_32, add_u32}
use espbewi.Common.Result.{Result, ok}
use espbewi.Common.Exec.{Exec}
use espbewi.Flash.{NorFlash}
use espbewi.Flash.Laws.{NorFlashLaws, Cells, SameOutside}
use espbewi.Flash.Leaves.{Answers}
use espbewi.Flash.Slices.{slice}
use espbewi.Partitions.{TableEntry, TableParser, data_ota}
use espbewi.BootEntries.{Write, BootCore}
use espbewi.BootEntries.Updates.{IsPlanned}
use espbewi.BootEntries.Entries.{replace_at, entries_in, entries_in-replace_at}
use espbewi.Ota.{AppSlot}
use espbewi.Ota.Otadata.{
  Error, sector_size, slot_count, slot_index, read_at, read_raws, read_entries, execute_at, execute,
  confirm, reject, activate,
}
use espbewi.Ota.Otadata.Works.{NorWorks, read-slice, execute_at-Leaves}

-- The operations that move an entry, and what FiBeWI plans for each.
pub data Transition : Type 0 where
  confirming rejecting : Transition
  activating : AppSlot → Transition

abbrev pub planned : {E : Type 0} → BootCore E → Transition → List (List ℕ) → Option (Write E)
planned core confirming raws = core.confirm raws
planned core rejecting raws = core.reject raws
planned core (activating target) raws = core.activate raws slot_count (slot_index target)

abbrev pub run :
    {F Table E : Type 0}
    → NorFlash F
    → TableParser F Table
    → BootCore E
    → Transition
    → Exec F Error (Unit {0})
run nor parser core confirming = confirm nor parser core
run nor parser core rejecting = reject nor parser core
run nor parser core (activating target) = activate nor parser core target

-- The table is found, with the entries' partition at `start`, in every flash that differs from `c` in
-- the two sectors of the entries alone; reading it changes no byte.
pub record TableAt {F Table : Type 0} (parser : TableParser F Table) (cells : F → Cells) (c : Cells)
    (start : ℕ) : Type 0 where
  pub finds :
      (f : F)
      → SameOutside c (cells f) start 8192
      → (table : Table) × (entry : TableEntry) × ((parser.read_table f).0 ≡ some table)
        × (parser.find_partition table data_ota ≡ some (some entry))
        × (entry.start ≡ start)
  pub keeps : (f : F) → cells (parser.read_table f).1 ≡ cells f

module _ {F Table E : Type 0} (nor : NorFlash F) (laws : NorFlashLaws nor) (works : NorWorks nor)
    (parser : TableParser F Table) (core : BootCore E) (start : ℕ) (at_sector : start % 4096 ≡ 0)
    (fits : start + 8192 < two_32) (small : core.entry_size ≤ 4096) where
  open laws use {cells}

  read_raws-Answers :
      (f : F)
      → Answers cells (entries_in core start (cells f)) f (read_raws nor parser core start f)
  read_raws-Answers f =
      let first = read-slice nor laws works start core.entry_size f in
      let f1 = (nor.read start core.entry_size f).1 in
      let kept = laws.read_keeps start core.entry_size f in
      let second = read-slice nor laws works (start + 4096) core.entry_size f1 in
      let here : add_u32 start 0 ≡ start = omega arith in
      let next : add_u32 start sector_size ≡ start + 4096 = omega arith in
      rw (here, next)
        (rw first (
          rw second (record {
            is_ok =
                ap
                  (λ c. ok (
                    slice (cells f) start core.entry_size
                    ∷ slice c (start + 4096) core.entry_size
                    ∷ []))
                  kept;
            kept = laws.read_keeps (start + 4096) core.entry_size f1 ∙ kept;
          })))

  module _ (c : Cells) (table_at : TableAt parser cells c start) where
    read_at-Answers :
        (f : F)
        → SameOutside c (cells f) start 8192
        → Answers cells (start, entries_in core start (cells f)) f (read_at nor parser core f)
    unfolding read_at
    read_at-Answers f same =
        let (table, entry, read, found, here) = table_at.finds f same in
        let f1 = (parser.read_table f).1 in
        let raws = read_raws-Answers f1 in
        rw (read, found, here, raws.is_ok)
          (record {
            is_ok = ap (λ d. ok (start, entries_in core start d)) (table_at.keeps f);
            kept = raws.kept ∙ table_at.keeps f;
          })

    pub read_entries-Answers :
        (f : F)
        → SameOutside c (cells f) start 8192
        → Answers cells (entries_in core start (cells f)) f (read_entries nor parser core f)
    unfolding read_entries
    read_entries-Answers f same =
        let located = read_at-Answers f same in
        rw located.is_ok (record { is_ok = refl; kept = located.kept })

    -- An update that succeeds, replaces one entry, and changes nothing outside the two sectors.
    pub record Replaces (write : Write E) (f : F) (out : Result Error (Unit {0}) × F) : Type 0 where
      pub is_ok : out.0 ≡ ok tt
      pub entries :
          entries_in core start (cells out.1)
          ≡ replace_at write.sector (core.encode write.entry) (entries_in core start (cells f))
      pub frame : SameOutside (cells f) (cells out.1) start 8192

    pub execute-Replaces :
        (write : Write E) (f : F)
        → SameOutside c (cells f) start 8192
        → IsPlanned core write
        → Replaces write f (execute nor parser core write f)
    unfolding execute
    execute-Replaces write f same (two, updates) =
        let located = read_at-Answers f same in
        let f1 = (read_at nor parser core f).1 in
        let base = start + write.sector * 4096 in
        let here : add_u32 start (write.sector * sector_size) ≡ base = omega arith in
        let kept = located.kept in
        let done =
          execute_at-Leaves nor laws works parser core base (omega arith) (omega arith) small write
            f1 updates in
        rw (located.is_ok, here)
          (record {
            is_ok = done.is_ok;
            entries =
                entries_in-replace_at core start small write.sector (core.encode write.entry)
                  (cells f1) (cells (execute_at nor parser core base write f1).1) two done.holds
                  done.frame
                ∙ ap
                    (λ d.
                      replace_at write.sector (core.encode write.entry) (entries_in core start d))
                    kept;
            frame = λ i out. done.frame i (omega (arith, out)) ∙ ap (λ d. d i) kept;
          })
