-- ===== src/Examples/EnterRuns.antt =====
-- `boot` of the image of Examples/LoadRuns, from the partition table to the jump.
use espbewi.Common.{◌%◌, ◌≡◌, refl, subst, none}
use espbewi.Common.Result.{Result, ok}
use espbewi.Boot.{
  flash_read, read_loop, read_window, set_flash_size_from_header, flash_size_from_header,
}
use espbewi.Platform.{esp32c3_map, contains}
use espbewi.Bootloader.{Image, ImageError, layout_in, scan, layout_of}
use espbewi.Bootloader.Stages
use espbewi.Bootloader.Stages.{
  boot, set_flash_size, read_layout, read_table, read_otadata, execute_all, load, load_image,
  copy_segments, copy_loop, map_segments, validate,
}
use espbewi.Bootloader.Order.{boot-Jumps}
use espbewi.Bootloader.Ready.{IsLoadable, IsReady}
use espbewi.Bootloader.Entered.{validated, boot-IsReady}
use espbewi.Examples.Ram.{set_cells}
use espbewi.Examples.Core.{small_core}
use espbewi.Examples.BootRuns.{rows}
use espbewi.Examples.LoadRuns.{
  Machine, machine_rom, machine_laws, machine-IsReadable, machine_loader, machine_ram, machine_mmu,
  machine-IsQuiet, planner, loaded_image, segments-IsLoadable,
}

abbrev pub flashed : Machine
flashed = record { flash = set_cells 0x8000 rows (λ i. i % 256); ram = λ i. 0; pages = λ i. none }

jump : (boot machine_rom small_core planner machine_loader esp32c3_map flashed).0 ≡ ok 0x3FC80000
unfolding boot set_flash_size set_flash_size_from_header flash_size_from_header read_layout
    read_table Stages.flash_read flash_read read_loop read_window layout_in scan layout_of
    read_otadata execute_all load load_image copy_segments copy_loop map_segments contains
jump = refl

abbrev good : Image → Result ImageError Image
good image = ok image

only_image : (image : Image) → good loaded_image ≡ good image → loaded_image ≡ image
only_image image e = cc

boot-IsReady_example :
    let j =
      boot-Jumps machine_rom small_core planner machine_loader esp32c3_map flashed 0x3FC80000
        jump in
    IsReady machine_rom machine_laws machine-IsReadable small_core planner machine_loader
      machine_ram machine_mmu machine-IsQuiet esp32c3_map refl j.image
      (validated machine_rom small_core planner machine_loader esp32c3_map flashed 0x3FC80000 j)
      (boot machine_rom small_core planner machine_loader esp32c3_map flashed)
boot-IsReady_example =
    boot-IsReady machine_rom machine_laws machine-IsReadable small_core planner machine_loader
      machine_ram machine_mmu machine-IsQuiet esp32c3_map refl flashed 0x3FC80000 jump
      (subst (λ (image : Image). IsLoadable planner esp32c3_map machine_mmu.span image.segments)
        (only_image _
          (boot-Jumps machine_rom small_core planner machine_loader esp32c3_map flashed 0x3FC80000
            jump).is_valid)
        segments-IsLoadable)
