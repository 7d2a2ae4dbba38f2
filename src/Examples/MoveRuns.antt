-- ===== src/Examples/MoveRuns.antt =====
-- Activating a slot on a flash in memory.
use espbewi.Common.{ℕ, ◌≡◌, refl, subst, some, arith}
use espbewi.Flash.Slices.{slice}
use espbewi.BootEntries.{Write}
use espbewi.BootEntries.Updates.{IsPlanned}
use espbewi.Ota.{ota_1}
use espbewi.Ota.Otadata.Works.{NorWorks}
use espbewi.Ota.Otadata.Transitions.{activating, TableAt, run}
use espbewi.Ota.Otadata.Moves.{Moves, run-Moves}
use espbewi.Examples.Ram.{ram, ram_laws}
use espbewi.Examples.Core.{small_core, small_table}
use espbewi.Examples.BootRuns.{update}
use espbewi.Examples.CommitRuns.{update-Updates}
use espbewi.Examples.EntryRuns.{with_entry}

abbrev pub ram-NorWorks : NorWorks ram
ram-NorWorks = record {
  reads = λ a n c. (slice c a n, refl);
  erases = λ a c e. refl;
  programs = λ a bytes c d e. refl;
}

abbrev small_table-TableAt : TableAt small_table ram_laws.cells with_entry 8192
small_table-TableAt = record { finds = λ c same. (tt, _, refl, refl, refl); keeps = λ c. refl }

only_update : (write : Write ℕ) → some update ≡ some write → update ≡ write
only_update write e = cc

documented : (write : Write ℕ) → some update ≡ some write → IsPlanned small_core write
documented write e =
    subst (IsPlanned small_core) (only_update write e) (omega arith, update-Updates)

run-Moves_example :
    Moves ram ram_laws ram-NorWorks small_table small_core 8192 refl
      (omega arith)
      (omega arith)
      (activating ota_1)
      with_entry
      (run ram small_table small_core (activating ota_1) with_entry)
run-Moves_example =
    run-Moves ram ram_laws ram-NorWorks small_table small_core 8192 refl (omega arith) (omega arith)
      (activating ota_1) with_entry small_table-TableAt documented
