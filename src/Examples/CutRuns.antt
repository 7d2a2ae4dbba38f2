-- ===== src/Examples/CutRuns.antt =====
-- An update of the second entry that is cut off behind the body.
use espbewi.Common.{ℕ, ◌≡◌, refl, List, [], arith, get_or}
use espbewi.Common.Result.{ok}
use espbewi.Flash.Laws.{Cells, SameOutside}
use espbewi.BootEntries.Entries.{entries_in, replace_at}
use espbewi.Bootloader.Stages.{read_otadata}
use espbewi.Bootloader.Committed.{cut_after}
use espbewi.Bootloader.PowerCut.{IsOneOf, cut_after-IsOneOf}
use espbewi.Examples.Core.{small_core}
use espbewi.Examples.BootRuns.{chip, chip_laws, chip-IsReadable, flashed, layout, update}
use espbewi.Examples.CommitRuns.{chip-IsWritable, update-Updates}

abbrev cut_state : Cells
cut_state = (cut_after chip small_core update layout 3 flashed).1

cut_after-IsOneOf_example :
    let raws = entries_in small_core 16384 flashed in
    (x : List ℕ) × ((read_otadata chip small_core layout cut_state).0 ≡ ok (replace_at 1 x raws))
    × IsOneOf small_core update (get_or raws 1 []) x
    × SameOutside flashed cut_state 16384 8192
cut_after-IsOneOf_example =
    cut_after-IsOneOf chip chip_laws chip-IsReadable chip-IsWritable (λ size c. refl) small_core
      update layout 3 flashed cut_state (record { at_sector = refl; fits = omega arith })
      (omega arith, update-Updates) (record { blank_none = refl; body_none = refl }) refl
