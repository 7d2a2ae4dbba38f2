-- ===== src/Examples/EndRuns.antt =====
-- `boot` of a machine that works, with one entry update and the image of Examples/LoadRuns.
use espbewi.Common.{ℕ, ◌*◌, ◌≡◌, refl, subst, arith, [], ◌∷◌}
use espbewi.Common.Result.{Result, ok}
use espbewi.Flash.Laws.{SameOutside}
use espbewi.Flash.Slices.{Holds-slice}
use espbewi.Boot.Programs.{IsWritable}
use espbewi.Ota.{ota_0}
use espbewi.Platform.{esp32c3_map}
use espbewi.Bootloader.{Image, ImageError, Planner, boot_slot, layout_in, scan, layout_of}
use espbewi.Bootloader.Stages.{boot}
use espbewi.Bootloader.Ready.{IsLoadable}
use espbewi.Bootloader.Ends.{PlannerLaws, BootEnds, boot-BootEnds}
use espbewi.Examples.Ram.{set_cells, clear_inside, set_inside}
use espbewi.Examples.Core.{small_core}
use espbewi.Examples.BootRuns.{layout, update}
use espbewi.Examples.CommitRuns.{update-Updates}
use espbewi.Examples.EnterRuns.{flashed}
use espbewi.Examples.LoadRuns.{
  Machine, machine_rom, machine_laws, machine-IsReadable, machine_loader, machine_ram, machine_mmu,
  machine-IsQuiet, planner, loaded_image, segments, segments-IsLoadable,
}

abbrev updating : Planner Machine ℕ
updating = record planner {
  plan_boot = λ raws good m. (record { choice = boot_slot ota_0 6; writes = update ∷ [] }, m);
}

abbrev machine-IsWritable : IsWritable machine_rom machine_laws
machine-IsWritable = record {
  writes = λ at bytes m a b d e.
      (refl, Holds-slice (set_cells at bytes m.flash) at bytes (set_inside at bytes m.flash));
  erases = λ n m. (refl, clear_inside (n * 4096) 4096 m.flash);
  unlocks = λ m. refl;
}

abbrev good : Image → Result ImageError Image
good image = ok image

only_image : (image : Image) → good loaded_image ≡ good image → loaded_image ≡ image
only_image image e = cc

image-IsLoadable : IsLoadable updating esp32c3_map machine_mmu.span segments
image-IsLoadable = record {
  fit = segments-IsLoadable.fit;
  places = segments-IsLoadable.places;
  aligned = segments-IsLoadable.aligned;
  pages = segments-IsLoadable.pages;
}

abbrev updating_laws : PlannerLaws updating esp32c3_map machine_laws.cells
updating_laws = record {
  plan_keeps = λ raws good m kept. refl;
  validate_keeps = λ reader offset size m kept. refl;
}

boot-BootEnds_example :
    let out = boot machine_rom small_core updating machine_loader esp32c3_map flashed in
    BootEnds machine_rom machine_laws machine-IsReadable machine-IsWritable
      (λ size m. refl)
      small_core
      (omega arith)
      updating
      machine_loader
      machine_ram
      machine_mmu
      machine-IsQuiet
      esp32c3_map
      refl
      updating_laws
      layout
      flashed
      out
    × SameOutside flashed.flash out.1.flash 16384 8192
unfolding layout_in scan layout_of
boot-BootEnds_example =
    boot-BootEnds machine_rom machine_laws machine-IsReadable machine-IsWritable (λ size m. refl)
      small_core (omega arith) updating machine_loader machine_ram machine_mmu machine-IsQuiet
      esp32c3_map refl updating_laws layout flashed refl
      (record { at_sector = refl; fits = omega arith }) ((omega arith, update-Updates), tt)
      (λ slot image e.
        subst (λ (i : Image). IsLoadable updating esp32c3_map machine_mmu.span i.segments)
          (only_image image e) image-IsLoadable)
