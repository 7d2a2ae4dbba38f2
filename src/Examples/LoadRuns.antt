-- ===== src/Examples/LoadRuns.antt =====
-- Loading an image with three segments: two for the RAM and one for the data window.
use espbewi.Common.{
  ℕ, ◌+◌, ◌-◌, ◌*◌, ◌%◌, ◌<◌, ◌≡◌, ◌≢◌, ◌⊎◌, refl, inl, inr, true, ltb, Option, none, some, List,
  [], ◌∷◌, arith, All, Bool-cases, if◌then◌else◌,
}
use espbewi.Common.Result.{ok, err}
use espbewi.Flash.Laws.{Cells}
use espbewi.Flash.Slices.{slice}
use espbewi.Boot.{Rom}
use espbewi.Boot.Laws.{RomLaws, IsReadable}
use espbewi.Ota.{ota_0}
use espbewi.Platform.{contains, esp32c3_map}
use espbewi.Bootloader.{Image, mmu, Segment, boot_slot, Planner, Loader}
use espbewi.Bootloader.Stages.{copy_segments, map_segments, load_image}
use espbewi.Bootloader.Copying.{LoaderLaws}
use espbewi.Bootloader.Loaded as Loaded
use espbewi.Bootloader.Loaded.{IsLoaded, copy_segments_total}
use espbewi.Bootloader.Mapping as Mapping
use espbewi.Bootloader.Mapping.{IsMapCall, MmuLaws, map_segments_maps}
use espbewi.Bootloader.Ready.{KeepsView, IsLoadable, IsQuiet, IsReady, load_image-IsReady}
use espbewi.Bootloader.Hardware.{rom_loader, rom_loader-MmuLaws}
use espbewi.Boot.Cache.{CacheRom}
use espbewi.Examples.Ram.{set_cells, clear_cells, clear_outside, set_inside, set_outside}
use espbewi.Examples.BootRuns.{some_injective}
use espbewi.Examples.Core.{small_core}

pub record Machine : Type 0 where
  pub flash : Cells
  pub ram : Cells
  pub pages : ℕ → Option ℕ

abbrev pub machine_rom : Rom Machine
machine_rom = record {
  spiflash_read = λ start len m. (some (slice m.flash start len), m);
  spiflash_write = λ at bytes m. (some tt, record m { flash = set_cells at bytes m.flash });
  spiflash_erase_sector =
      λ n m. (some tt, record m { flash = clear_cells (n * 4096) (n * 4096 + 4096) m.flash });
  spiflash_unlock = λ m. (some tt, m);
  spiflash_attach = λ m. m;
  spiflash_config_param = λ size block sector page mask m. m;
  set_chip_size = λ size m. m;
  read_volatile = λ at m. (0, m);
  write_volatile = λ at value m. m;
}

abbrev pub machine_laws : RomLaws machine_rom
machine_laws = record {
  cells = λ m. m.flash;
  read_slice = λ start len m bytes a b d e. some_injective (slice m.flash start len) bytes e;
  read_keeps = λ start len m. refl;
  write_frame = λ at bytes m. set_outside at bytes m.flash;
  erase_frame = λ n m. clear_outside (n * 4096) 4096 m.flash;
  unlock_keeps = λ m. refl;
}

abbrev pub machine-IsReadable : IsReadable machine_rom
machine-IsReadable = record { answers = λ start len m a b d. (slice m.flash start len, refl) }

-- A table of 128 pages, as on the chip with the smaller flash window, which the two windows share.
abbrev table_span : ℕ
table_span = 0x800000

-- Where an address falls in the pages that start at that of `v`.
abbrev past : ℕ → ℕ → ℕ
past v i = (i + (table_span - v % table_span)) % table_span

-- `n` pages from that of `v` on stand for those from `p` on, in both windows.
abbrev set_pages : ℕ → ℕ → ℕ → (ℕ → Option ℕ) → ℕ → Option ℕ
set_pages v p n pages i = if ltb (past v i) (n * 0x10000) then some (p + past v i) else pages i

pub set_pages-IsMapCall :
    (v p n : ℕ) (pages : ℕ → Option ℕ) → IsMapCall table_span v p n 0 pages (set_pages v p n pages)
set_pages-IsMapCall v p n pages = record {
  maps = λ a b few rc j lt.
      let back : past v (v + j) ≡ j = omega arith in
      let inside : ltb j (n * 0x10000) ≡ true = ground arith in rw (back, inside) refl;
  leaves = λ i apart. elim (Bool-cases (ltb (past v i) (n * 0x10000))) [
    | inr outside ↦ rw outside refl
    | inl inside ↦
        let lt : past v i < n * 0x10000 = ground arith in absurd (apart (past v i) lt (omega arith))
  ];
}

abbrev machine_cache : CacheRom Machine
machine_cache = record {
  mmu_init = λ m. m;
  enable_icache = λ autoload m. m;
  suspend_icache = λ m. (0, m);
  resume_icache = λ autoload m. m;
  invalidate_icache_all = λ m. m;
  ibus_mmu_set = λ ext v p size n fixed m. (0, record m { pages = set_pages v p n m.pages });
  dbus_mmu_set = λ ext v p size n fixed m. (0, record m { pages = set_pages v p n m.pages });
  rom_delay_us = λ us m. m;
}

abbrev copy_bytes : ℕ → List ℕ → Machine → Machine
copy_bytes target bytes m = record m { ram = set_cells target bytes m.ram }

abbrev pub machine_loader : Loader Machine
machine_loader = rom_loader machine_cache copy_bytes

abbrev pub machine_mmu : MmuLaws machine_loader
machine_mmu = rom_loader-MmuLaws machine_cache copy_bytes (record {
  span = table_span;
  mapping = λ m. m.pages;
  dbus = λ v p n m. set_pages-IsMapCall v p n m.pages;
  ibus = λ v p n m. set_pages-IsMapCall v p n m.pages;
})

abbrev pub machine_ram : LoaderLaws machine_rom machine_laws machine_loader
machine_ram = record {
  ram = λ m. m.ram;
  copy_stores = λ a bytes m. set_inside a bytes m.ram;
  copy_frame = λ a bytes m. set_outside a bytes m.ram;
  copy_keeps = λ a bytes m. refl;
  read_keeps = λ start len m. refl;
}

abbrev code : Segment
code = record { load = 0x3FC80000; len = 300; data_offset = 0x20 }

abbrev data_seg : Segment
data_seg = record { load = 0x3FC90000; len = 5; data_offset = 0x200 }

abbrev tables : Segment
tables = record { load = 0x3C000040; len = 70000; data_offset = 0x10040 }

abbrev pub segments : List Segment
segments = code ∷ data_seg ∷ tables ∷ []

-- An address from 0x3FC00000 on is one of the RAM.
abbrev pub planner : Planner Machine ℕ
planner = record {
  plan_boot = λ raws good m. (record { choice = boot_slot ota_0 6; writes = [] }, m);
  validate =
      λ reader offset size map m. (ok (record { entry = 0x3FC80000; segments = segments }), m);
  ram_target = λ seg map. if ltb seg.load 0x3FC00000 then none else some seg.load;
}

abbrev start : Machine
start = record { flash = λ i. i % 256; ram = λ i. 0; pages = λ i. none }

target_is : (a t : ℕ) → some a ≡ some t → t ≡ a
target_is a t e = cc

no_target : {P : Type 0} → (t : ℕ) → none ≡ some t → P
no_target t e = absurd (cc)

segments-AreApart : Loaded.AreApart planner esp32c3_map segments
segments-AreApart = (
  (
    λ t e j lt u f. inl (omega (arith, target_is 0x3FC80000 t e, target_is 0x3FC90000 u f)),
    (λ t e j lt u f. no_target u f, tt),
  ),
  (((λ t e j lt u f. no_target u f), tt), (tt, tt)),
)

copy_run :
    IsLoaded machine_rom machine_laws machine-IsReadable small_core planner machine_loader
      machine_ram esp32c3_map segments start
      (copy_segments machine_rom small_core planner machine_loader esp32c3_map segments start)
copy_run =
    copy_segments_total machine_rom machine_laws machine-IsReadable small_core planner
      machine_loader machine_ram esp32c3_map segments start
      (omega arith, (omega arith, (omega arith, tt))) segments-AreApart

-- The 70000 bytes of the tables take two pages, the second of which is only partly used.
map_segments_run :
    (map_segments machine_rom small_core planner machine_loader esp32c3_map segments start).0
    ≡ ok tt
unfolding map_segments contains
map_segments_run = refl

segments-AreAligned :
    All
      (λ seg. Mapping.in_window esp32c3_map seg ≡ true → Mapping.IsAligned table_span seg)
      segments
unfolding contains
segments-AreAligned =
    (λ e. absurd (cc), (λ e. absurd (cc), (λ e. (omega arith, refl, omega arith), tt)))

segments_on_own_pages : Mapping.AreApart table_span esp32c3_map segments
unfolding contains
segments_on_own_pages = (
  (λ j lt full e k less. absurd (cc), (λ j lt full e k less same. omega arith, tt)),
  ((λ j lt full e k less same. omega arith, tt), (tt, tt)),
)

pub segments-IsLoadable : IsLoadable planner esp32c3_map table_span segments
segments-IsLoadable = record {
  fit = (omega arith, (omega arith, (omega arith, tt)));
  places = segments-AreApart;
  aligned = segments-AreAligned;
  pages = segments_on_own_pages;
}

flash_kept : KeepsView machine_loader (λ m. m.flash)
flash_kept = record {
  begin = λ m. refl;
  drom = λ v p n m. refl;
  irom = λ v p n m. refl;
  finish = λ autoload m. refl;
  delay = λ us m. refl;
}

ram_kept : KeepsView machine_loader (λ m. m.ram)
ram_kept = record {
  begin = λ m. refl;
  drom = λ v p n m. refl;
  irom = λ v p n m. refl;
  finish = λ autoload m. refl;
  delay = λ us m. refl;
}

pub machine-IsQuiet : IsQuiet machine_rom machine_laws machine_loader machine_ram machine_mmu
machine-IsQuiet = record {
  cells_kept = flash_kept;
  ram_kept = ram_kept;
  finish_kept = λ autoload m. refl;
  delay_kept = λ us m. refl;
}

abbrev pub loaded_image : Image
loaded_image = record { entry = 0x3FC80000; segments = segments }

three_segments_load :
    let out =
      load_image machine_rom small_core planner machine_loader esp32c3_map loaded_image start in
    ((rc : ℕ) × (out.0 ≡ err (mmu rc)) × (rc ≢ 0))
    ⊎ IsReady machine_rom machine_laws machine-IsReadable small_core planner machine_loader
        machine_ram machine_mmu machine-IsQuiet esp32c3_map refl loaded_image start out
three_segments_load =
    load_image-IsReady machine_rom machine_laws machine-IsReadable small_core planner machine_loader
      machine_ram machine_mmu machine-IsQuiet esp32c3_map refl loaded_image start
      segments-IsLoadable
