-- ===== src/Handover.antt =====
-- From the running system to the bootloader: an image is uploaded, its slot activated, and the device
-- restarted. The state of the running system has the flash driver of adapters/ota, that of the
-- bootloader the ROM; what they share is the bytes of the flash.
pub mod Restart
use espbewi.Common.{
  ℕ, ◌+◌, ◌^◌, ◌≤◌, ◌<◌, ◌≡◌, inl, inr, sym, ap, subst, ◌∙◌, none, some, List, arith, length, drop,
}
use espbewi.Common.Words.{two_32}
use espbewi.Common.Result.{Result, ok}
use espbewi.Flash.{NorFlash}
use espbewi.Flash.Laws.{NorFlashLaws, SameOutside}
use espbewi.Flash.Slices.{slice, slice_cong}
use espbewi.Partitions.{TableParser}
use espbewi.Nvs.{NvsPartition}
use espbewi.BootEntries.{Write, BootCore}
use espbewi.BootEntries.Updates.{IsPlanned}
use espbewi.BootEntries.Entries.{replace_at, entries_in}
use espbewi.Ota.{AppSlot}
use espbewi.Ota.Otadata.{Error, activate}
use espbewi.Ota.Otadata.Works.{NorWorks}
use espbewi.Ota.Otadata.Transitions.{activating, planned, TableAt, read_entries-Answers}
use espbewi.Ota.Otadata.Moves.{run-Moves}
use espbewi.Ota.Otadata.Frame.{ParserAt, StaysInside}
use espbewi.Ota.Storage.{EspArtifactStorage, finish}
use espbewi.Ota.Storage.Upload.{IsFresh}
use espbewi.Ota.Interleaved.{AreApart, Session, session-Holds, session-IsUploaded}
use espbewi.Boot.{Rom}
use espbewi.Boot.Laws.{RomLaws, IsReadable}
use espbewi.Bootloader.{Layout}
use espbewi.Bootloader.Stages.{flash_read, read_otadata}
use espbewi.Bootloader.Reaches.{IsPlaced, flash_read-Answers, read_otadata-Answers}

module _ {F Table E : Type 0} (nor : NorFlash F) (laws : NorFlashLaws nor) (works : NorWorks nor)
    (parser : TableParser F Table) (core : BootCore E) (small : core.entry_size ≤ 4096)
    (layout : Layout) (placed : IsPlaced layout) where
  open laws use {cells}

  abbrev entries_at : ℕ
  entries_at = layout.otadata.0

  -- An activation for which `write` is planned, with its outcome on the flash.
  activate-entries_in :
      (target : AppSlot) (f : F) (write : Write E)
      → TableAt parser cells (cells f) entries_at
      → planned core (activating target) (entries_in core entries_at (cells f)) ≡ some write
      → IsPlanned core write
      → let out = activate nor parser core target f in
        (out.0 ≡ ok tt)
        × (entries_in core entries_at (cells out.1)
            ≡ replace_at write.sector
                (core.encode write.entry)
                (entries_in core entries_at (cells f)))
        × SameOutside (cells f) (cells out.1) entries_at 8192
  activate-entries_in target f write table_at plan documented =
      let raws = entries_in core entries_at (cells f) in
      elim (run-Moves nor laws works parser core entries_at placed.at_sector placed.fits small
        (activating target) f table_at
        (λ w e. subst (IsPlanned core) (same_write write w (sym plan ∙ e)) documented)) [
          | inl (nothing, _, _) ↦ let clash : some write ≡ none = sym plan ∙ nothing in absurd (cc)
          | inr (w, planned_w, done, read, frame) ↦
              let same = same_write write w (sym plan ∙ planned_w) in
              let again =
                read_entries-Answers nor laws works parser core entries_at placed.at_sector
                  placed.fits small (cells f) table_at (activate nor parser core target f).1
                  frame in
              let entries = ok_injective _ _ (sym again.is_ok ∙ read) in
              (
                done,
                entries
                    ∙ ap (λ (v : Write E). replace_at v.sector (core.encode v.entry) raws)
                        (sym same),
                frame,
              )
        ]
    where
      same_write : (v w : Write E) → some v ≡ some w → v ≡ w
      same_write v w e = cc

      ok_injective :
          (xs ys : List (List ℕ)) → ◌≡◌ {A = Result Error (List (List ℕ))} (ok xs) (ok ys) → xs ≡ ys
      ok_injective xs ys e = cc

module _ {F S Table E : Type 0} (nor : NorFlash F) (laws : NorFlashLaws nor) (works : NorWorks nor)
    (parser : TableParser F Table) (core : BootCore E) (small : core.entry_size ≤ 4096)
    (layout : Layout) (placed : IsPlaced layout) (nvs : NvsPartition)
    (opened : EspArtifactStorage F) (small_part : opened.partition_size < 2 ^ 32)
    (at_start : ParserAt parser laws.cells layout.otadata.0)
    (inside : StaysInside nor laws parser core layout.otadata.0 placed.fits at_start)
    (entries_apart : AreApart layout.otadata.0 8192 opened.partition_offset opened.partition_size)
    (nvs_apart : AreApart nvs.offset nvs.size opened.partition_offset opened.partition_size)
    (rom : Rom S) (rom_laws : RomLaws rom) (readable : IsReadable rom)
    (size_keeps : (size : ℕ) (s : S)
      → rom_laws.cells (rom.set_chip_size size s) ≡ rom_laws.cells s) where
  open laws use {cells}

  -- What the bootloader finds in a flash into which `image` was uploaded, and for which `write` was
  -- planned from the entries `raws`.
  pub record Finds (image : List ℕ) (raws : List (List ℕ)) (write : Write E) (s : S) : Type 0 where
    pub entries :
        (read_otadata rom core layout s).0
        ≡ ok (replace_at write.sector (core.encode write.entry) raws)
    pub image_bytes : (flash_read rom opened.partition_offset (length image) s).0 ≡ ok image

  -- An upload between the steps of the other users of the flash, whose calls of `write` and `finish`
  -- all answered `Ok`, into a partition below the end of the 32-bit addresses; on a driver that works,
  -- with the table and every other range apart from the partition and the entries, and an activation
  -- for which FiBeWI plans an update with commands as documented. Then `activate` answers `Ok`, and a
  -- bootloader that starts on that flash, with a ROM that answers every read, reads the two entries
  -- with the planned one in its place, and reads the bytes of the image as they were received.
  pub activate-Finds :
      (image : List ℕ) (durable r : ℕ) (last : F) (storage : EspArtifactStorage F)
      (target : AppSlot) (write : Write E) (s : S)
      → IsFresh nor laws opened small_part
      → Session nor laws parser core layout.otadata.0 nvs opened image durable last storage
      → (finish nor durable (drop durable image) storage).0 ≡ ok r
      → let f = (finish nor durable (drop durable image) storage).1.device in
        let raws = entries_in core layout.otadata.0 (cells f) in
        let out = activate nor parser core target f in
        opened.partition_offset + opened.partition_size ≤ two_32
        → TableAt parser cells (cells f) layout.otadata.0
        → planned core (activating target) raws ≡ some write
        → IsPlanned core write
        → rom_laws.cells s ≡ cells out.1
        → (out.0 ≡ ok tt) × Finds image raws write s
  activate-Finds image durable r last storage target write s fresh session answered below table_at
        plan documented same =
      let f = (finish nor durable (drop durable image) storage).1.device in
      let uploaded =
        session-IsUploaded nor laws parser core layout.otadata.0 nvs opened small_part placed.fits
          at_start inside entries_apart nvs_apart image durable r last storage fresh session
          answered in
      let held =
        session-Holds nor laws parser core layout.otadata.0 nvs opened small_part placed.fits
          at_start inside entries_apart nvs_apart fresh session in
      let room = held.fits in
      let (done, entries, frame) =
        activate-entries_in nor laws works parser core small layout placed target f write table_at
          plan documented in
      let g = (activate nor parser core target f).1 in
      let read = read_otadata-Answers rom rom_laws readable size_keeps core small layout s placed in
      let bytes =
        flash_read-Answers rom rom_laws readable size_keeps opened.partition_offset (length image) s
          (omega arith) in
      let kept : slice (cells g) opened.partition_offset (length image)
          ≡ slice (cells f) opened.partition_offset (length image) =
        slice_cong (cells g) (cells f) opened.partition_offset (length image)
          (λ j lt. frame (opened.partition_offset + j) (omega (arith, entries_apart))) in
      (
        done,
        record {
          entries =
              read.is_ok ∙ ap (λ c. ok (entries_in core layout.otadata.0 c)) same ∙ ap ok entries;
          image_bytes =
              bytes.is_ok
              ∙ ap (λ c. ok (slice c opened.partition_offset (length image))) same
              ∙ ap ok (kept ∙ uploaded.held);
        },
      )
