-- ===== src/Handover/Restart.antt =====
-- A restart in the middle of an upload: what the bootloader reads of the flash then.
use espbewi.Common.{
  ℕ, ◌+◌, ◌^◌, ◌≤◌, ◌<◌, ◌≡◌, ◌⊎◌, inr, ap, ◌∙◌, List, [], ◌∷◌, ◌++◌, arith, length, length-drop,
  drop,
}
use espbewi.Common.Words.{two_32}
use espbewi.Common.Result.{ok}
use espbewi.Flash.{NorFlash}
use espbewi.Flash.Laws.{Cells, NorFlashLaws}
use espbewi.Flash.Slices.{slice, slice_cong}
use espbewi.Partitions.{TableParser}
use espbewi.Nvs.{NvsPartition}
use espbewi.BootEntries.{BootCore}
use espbewi.BootEntries.Entries.{entries_in}
use espbewi.Ota.Otadata.Frame.{ParserAt, StaysInside}
use espbewi.Ota.Storage.{EspArtifactStorage, write}
use espbewi.Ota.Storage.Durable.{write_frame}
use espbewi.Ota.Storage.Upload.{IsFresh}
use espbewi.Ota.Interleaved.{AreApart, Session, session-Holds}
use espbewi.Boot.{Rom}
use espbewi.Boot.Laws.{RomLaws, IsReadable}
use espbewi.Bootloader.{Layout}
use espbewi.Bootloader.Stages.{flash_read, read_otadata}
use espbewi.Bootloader.Reaches.{IsPlaced, flash_read-Answers, read_otadata-Answers}

module _ {F S Table E : Type 0} (nor : NorFlash F) (laws : NorFlashLaws nor)
    (parser : TableParser F Table) (core : BootCore E) (small : core.entry_size ≤ 4096)
    (layout : Layout) (placed : IsPlaced layout) (nvs : NvsPartition)
    (opened : EspArtifactStorage F) (small_part : opened.partition_size < 2 ^ 32)
    (at_start : ParserAt parser laws.cells layout.otadata.0)
    (inside : StaysInside nor laws parser core layout.otadata.0 placed.fits at_start)
    (entries_apart : AreApart layout.otadata.0 8192 opened.partition_offset opened.partition_size)
    (nvs_apart : AreApart nvs.offset nvs.size opened.partition_offset opened.partition_size)
    (rom : Rom S) (rom_laws : RomLaws rom) (readable : IsReadable rom)
    (size_keeps : (size : ℕ) (s : S)
      → rom_laws.cells (rom.set_chip_size size s) ≡ rom_laws.cells s) where
  open laws use {cells}

  -- The bootloader reads the two entries and the range of `n` bytes from `a` on as they are in `before`.
  pub record ReadsBefore (before : Cells) (a n : ℕ) (s : S) : Type 0 where
    pub entries : (read_otadata rom core layout s).0 ≡ ok (entries_in core layout.otadata.0 before)
    pub range : (flash_read rom a n s).0 ≡ ok (slice before a n)

  write_outside :
      (received bytes : List ℕ) (durable : ℕ) (last : F) (storage : EspArtifactStorage F)
      → IsFresh nor laws opened small_part
      → Session nor laws parser core layout.otadata.0 nvs opened received durable last storage
      → length (received ++ bytes) < two_32
      → (i : ℕ)
      → (i < opened.partition_offset) ⊎ (opened.partition_offset + opened.partition_size ≤ i)
      → cells (write nor durable (drop durable (received ++ bytes)) storage).1.device i
        ≡ cells last i
  write_outside received bytes durable last storage fresh session short i out =
      let held =
        session-Holds nor laws parser core layout.otadata.0 nvs opened small_part placed.fits
          at_start inside entries_apart nvs_apart fresh session in
      let room = held.fits in
      let within = held.within in
      let offset = held.same.offset in
      let size = held.same.size in
      let pending = drop durable (received ++ bytes) in
      let left = length-drop durable (received ++ bytes) in
      write_frame nor laws durable pending storage (omega (arith, small_part)) i
        (inr (omega (arith, out)))
      ∙ held.frame i out

  -- An upload as in Ota/Interleaved, with any answer to its last `write`, of fewer than 2 ^ 32 bytes in
  -- all, also more than the partition holds. If the device restarts then, with a ROM that answers every
  -- read, the bootloader reads both entries, and each range apart from the partition, as the last step
  -- of another user left them.
  pub write-ReadsBefore :
      (received bytes : List ℕ) (durable : ℕ) (last : F) (storage : EspArtifactStorage F) (a n : ℕ)
      (s : S)
      → IsFresh nor laws opened small_part
      → Session nor laws parser core layout.otadata.0 nvs opened received durable last storage
      → length (received ++ bytes) < two_32
      → a + n ≤ two_32
      → AreApart a n opened.partition_offset opened.partition_size
      → rom_laws.cells s
        ≡ cells (write nor durable (drop durable (received ++ bytes)) storage).1.device
      → ReadsBefore (cells last) a n s
  write-ReadsBefore received bytes durable last storage a n s fresh session short below apart same =
      let start = layout.otadata.0 in
      let flash = rom_laws.cells s in
      let kept =
        λ (b m i : ℕ) (lt : i < m)
            (gap : AreApart b m opened.partition_offset opened.partition_size).
          ap (λ (c : Cells). c (b + i)) same
          ∙ write_outside received bytes durable last storage fresh session short (b + i)
              (omega (arith, lt, gap)) in
      let entries =
        read_otadata-Answers rom rom_laws readable size_keeps core small layout s placed in
      let range = flash_read-Answers rom rom_laws readable size_keeps a n s below in
      let first : slice flash start core.entry_size ≡ slice (cells last) start core.entry_size =
        slice_cong flash (cells last) start core.entry_size
          (λ i lt. kept start core.entry_size i lt (omega (arith, entries_apart))) in
      let second : slice flash (start + 4096) core.entry_size
          ≡ slice (cells last) (start + 4096) core.entry_size =
        slice_cong flash (cells last) (start + 4096) core.entry_size
          (λ i lt. kept (start + 4096) core.entry_size i lt (omega (arith, entries_apart))) in
      record {
        entries = entries.is_ok ∙ (λ i. ok (first i ∷ second i ∷ []));
        range =
            range.is_ok ∙ ap ok (slice_cong flash (cells last) a n (λ i lt. kept a n i lt apart));
      }
