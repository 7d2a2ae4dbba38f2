-- ===== src/Examples/CommitRuns.antt =====
-- An entry update of the bootloader on a concrete chip that works.
use espbewi.Common.{◌*◌, ◌≡◌, refl, [], ◌∷◌, arith}
use espbewi.Common.Result.{ok}
use espbewi.Flash.Laws.{SameOutside}
use espbewi.Flash.Slices.{slice, Holds-slice}
use espbewi.Boot.Programs.{IsWritable}
use espbewi.Bootloader.Stages.{execute}
use espbewi.BootEntries.Updates.{Updates}
use espbewi.Bootloader.Committed.{execute_total}
use espbewi.Examples.Ram.{set_cells, clear_inside, set_inside}
use espbewi.Examples.Core.{small_core}
use espbewi.Examples.BootRuns.{chip, chip_laws, chip-IsReadable, flashed, layout, update}

abbrev pub chip-IsWritable : IsWritable chip chip_laws
chip-IsWritable = record {
  writes = λ at bytes c a b d e.
      (refl, Holds-slice (set_cells at bytes c) at bytes (set_inside at bytes c));
  erases = λ n c. (refl, clear_inside (n * 4096) 4096 c);
  unlocks = λ c. refl;
}

abbrev pub update-Updates : Updates small_core update
update-Updates = record {
  body_at = 0;
  body_len = 4;
  body_bytes = 6 ∷ 1 ∷ 2 ∷ 3 ∷ [];
  commit_at = 4;
  commit_len = 4;
  commit_bytes = 9 ∷ 9 ∷ 9 ∷ 9 ∷ [];
  commands = refl;
  small = omega arith;
  blank_bytes = refl;
  body_program = record {
    aligned = refl;
    whole = refl;
    inside = omega arith;
    erased = refl;
    result = refl;
  };
  commit_program = record {
    aligned = refl;
    whole = refl;
    inside = omega arith;
    erased = refl;
    result = refl;
  };
  reads_back = refl;
}

execute_total_example :
    ((execute chip small_core update layout flashed).0 ≡ ok tt)
    × (slice (execute chip small_core update layout flashed).1 20480 8
        ≡ 6 ∷ 1 ∷ 2 ∷ 3 ∷ 9 ∷ 9 ∷ 9 ∷ 9 ∷ [])
    × SameOutside flashed (execute chip small_core update layout flashed).1 20480 4096
execute_total_example =
    execute_total chip chip_laws chip-IsReadable chip-IsWritable small_core update layout flashed
      refl (omega arith) update-Updates
