-- ===== src/Examples/EntryRuns.antt =====
-- Boot entry updates on a concrete flash.
use espbewi.Common.{ℕ, ◌+◌, true, ◌≡◌, refl, inl, List, [], ◌∷◌, All, arith, replicate}
use espbewi.Common.Result.{ok}
use espbewi.Flash.Laws.{Cells}
use espbewi.Flash.Slices.{slice}
use espbewi.Partitions.{find}
use espbewi.Ota.{AppPartition, ota_1, find_app_partition}
use espbewi.BootEntries.{Write}
use espbewi.Ota.Otadata.{read_at, read_entries, execute, write_target, slot_index}
use espbewi.Ota.Otadata.Execute.{execute-IsCommitted, execute_frame}
use espbewi.Ota.Otadata.Target.{HasRunning, IsNotLater, write_target-slot}
use espbewi.Examples.Ram.{ram, ram_laws, set_cells}
use espbewi.Examples.Core.{small_core, small_table}

-- A flash of which the first entry, number 4, is committed.
abbrev pub with_entry : Cells
with_entry = set_cells 8192 (4 ∷ 1 ∷ 2 ∷ 3 ∷ 9 ∷ 9 ∷ 9 ∷ 9 ∷ []) (λ i. 255)

abbrev update : Write ℕ
update = record { sector = 1; entry = 6 }

abbrev raw_entries : List (List ℕ)
raw_entries = (4 ∷ 1 ∷ 2 ∷ 3 ∷ 9 ∷ 9 ∷ 9 ∷ 9 ∷ []) ∷ replicate 8 255 ∷ []

execute-IsCommitted_example :
    (slice (execute ram small_table small_core update with_entry).1 12288 8
      ≡ 6 ∷ 1 ∷ 2 ∷ 3 ∷ 9 ∷ 9 ∷ 9 ∷ 9 ∷ [])
    × (small_core.entry_eq (small_core.decode (small_core.encode 6)) 6 ≡ true)
unfolding execute read_at
execute-IsCommitted_example =
    execute-IsCommitted ram ram_laws small_table small_core update with_entry 8192 raw_entries refl
      refl

frame_run : (execute ram small_table small_core update with_entry).1 8192 ≡ 4
unfolding read_at
frame_run =
    execute_frame ram ram_laws small_table small_core update with_entry 8192 raw_entries 8192 refl
      refl (omega arith) (omega arith) (omega arith) (inl (omega arith))

abbrev second_slot : AppPartition
second_slot = record { slot = ota_1; offset = 131072; size = 8192 }

write_target-slot_example :
    (raws : List (List ℕ)) × (seq : ℕ) × ((read_entries ram small_table small_core with_entry).0
      ≡ ok raws)
    × HasRunning ram small_table small_core seq raws
    × All (IsNotLater ram small_table small_core seq) raws
    × (slot_index second_slot.slot + small_core.slot_of seq 2 ≡ 1)
unfolding write_target read_entries read_at find_app_partition find
write_target-slot_example = write_target-slot ram small_table small_core with_entry second_slot refl
