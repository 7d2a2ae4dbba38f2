-- ===== src/Examples/HandoverRuns.antt =====
-- The upload of Examples/SharedRuns, activated and found by a bootloader.
use espbewi.Common.{◌≡◌, refl, inl, inr, ℕ, List, replicate, ◌++◌, arith, drop}
use espbewi.Common.Result.{Result, ok, err}
use espbewi.Flash.Laws.{Cells}
use espbewi.BootEntries.Entries.{entries_in}
use espbewi.Ota.{FlashWriteError, address_overflow, ota_1}
use espbewi.Ota.Otadata.{activate}
use espbewi.Ota.Otadata.Transitions.{TableAt}
use espbewi.Ota.Storage.{EspArtifactStorage, flush_block, write_loop, write, finish}
use espbewi.Bootloader.{Layout}
use espbewi.Bootloader.Reaches.{IsPlaced}
use espbewi.Handover.{Finds, activate-Finds}
use espbewi.Handover.Restart.{ReadsBefore, write-ReadsBefore}
use espbewi.Examples.Ram.{ram, ram_laws}
use espbewi.Examples.Core.{small_core, small_table}
use espbewi.Examples.BootRuns.{chip, chip_laws, chip-IsReadable}
use espbewi.Examples.CommitRuns.{update-Updates}
use espbewi.Examples.MoveRuns.{ram-NorWorks}
use espbewi.Examples.StreamRuns.{opened, piece_1, piece_2, partition_is_small}
use espbewi.Examples.SharedRuns.{
  nvs, small_table-ParserAt, small_core-StaysInside, erased, after_2, mixed, last_answer, update_6,
}

abbrev layout : Layout
layout = record { otadata = (8192, 8192); app_0 = (64, 64); app_1 = (128, 64) }

abbrev layout-IsPlaced : IsPlaced layout
layout-IsPlaced = record { at_sector = refl; fits = omega arith }

abbrev uploaded : Cells
uploaded = (finish ram 16 (drop 16 (piece_1 ++ piece_2)) after_2).1.device

abbrev uploaded-TableAt : TableAt small_table ram_laws.cells uploaded 8192
uploaded-TableAt = record { finds = λ c same. (tt, _, refl, refl, refl); keeps = λ c. refl }

activate-Finds_example :
    ((activate ram small_table small_core ota_1 uploaded).0 ≡ ok tt)
    × Finds ram ram_laws ram-NorWorks small_table small_core
        (omega arith)
        layout
        layout-IsPlaced
        nvs
        opened
        partition_is_small
        small_table-ParserAt
        small_core-StaysInside
        (inr (omega arith))
        (inr (omega arith))
        chip
        chip_laws
        chip-IsReadable
        (λ size c. refl)
        (piece_1 ++ piece_2)
        (entries_in small_core 8192 uploaded)
        update_6
        (activate ram small_table small_core ota_1 uploaded).1
activate-Finds_example =
    activate-Finds ram ram_laws ram-NorWorks small_table small_core (omega arith) layout
      layout-IsPlaced nvs opened partition_is_small small_table-ParserAt small_core-StaysInside
      (inr (omega arith)) (inr (omega arith)) chip chip_laws chip-IsReadable (λ size c. refl)
      (piece_1 ++ piece_2) 16 30 erased after_2 ota_1 update_6
      (activate ram small_table small_core ota_1 uploaded).1 (inl refl) mixed last_answer
      (omega arith) uploaded-TableAt refl (omega arith, update-Updates) refl

-- More bytes than the partition has room for.
abbrev too_many : List ℕ
too_many = replicate 60 5

abbrev overrun : Result FlashWriteError ℕ × EspArtifactStorage Cells
overrun = write ram 16 (drop 16 ((piece_1 ++ piece_2) ++ too_many)) after_2

overrun_refused : overrun.0 ≡ err address_overflow
unfolding write write_loop flush_block
overrun_refused = refl

write-ReadsBefore_example :
    ReadsBefore ram ram_laws small_table small_core
      (omega arith)
      layout
      layout-IsPlaced
      nvs
      opened
      partition_is_small
      small_table-ParserAt
      small_core-StaysInside
      (inr (omega arith))
      (inr (omega arith))
      chip
      chip_laws
      chip-IsReadable
      (λ size c. refl)
      erased
      130
      50
      overrun.1.device
write-ReadsBefore_example =
    write-ReadsBefore ram ram_laws small_table small_core (omega arith) layout layout-IsPlaced nvs
      opened partition_is_small small_table-ParserAt small_core-StaysInside (inr (omega arith))
      (inr (omega arith)) chip chip_laws chip-IsReadable (λ size c. refl) (piece_1 ++ piece_2)
      too_many 16 erased after_2 130 50 overrun.1.device (inl refl) mixed (omega arith)
      (omega arith) (inr (omega arith)) refl
