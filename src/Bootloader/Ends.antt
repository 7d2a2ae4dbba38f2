-- ===== src/Bootloader/Ends.antt =====
-- `boot` on a driver that works: all the ways in which it ends, and what it leaves in the flash.
use espbewi.Common.{ℕ, ◌≤◌, ◌≡◌, ◌≢◌, ◌⊎◌, inl, inr, refl, ap, ◌∙◌, Bool, List, All}
use espbewi.Common.Result.{Result, ok, err, Result-cases}
use espbewi.Common.Exec.{Exec, lift, bind_next, bind_stop, ◌>>=◌, ◌>>◌}
use espbewi.Flash.Laws.{Cells, SameOutside}
use espbewi.Flash.Slices.{slice}
use espbewi.Boot.{Rom}
use espbewi.Boot.Laws.{RomLaws, IsReadable}
use espbewi.Boot.Reads.{flash_read-keeps}
use espbewi.Boot.Programs.{IsWritable}
use espbewi.BootEntries.{BootCore}
use espbewi.BootEntries.Entries.{replace_all, entries_in}
use espbewi.BootEntries.Updates.{IsPlanned}
use espbewi.Ota.{AppSlot}
use espbewi.Platform.{MemoryMap}
use espbewi.Bootloader.{
  BootError, mmu, image_refused, ImageError, Layout, app, layout_in, Image, Plan, Planner, Loader,
}
use espbewi.Bootloader.Stages.{
  flash_read, rom_flash, set_flash_size, read_layout, read_otadata, execute_all, validate, load,
  image_ok, chosen, boot,
}
use espbewi.Bootloader.Copying.{LoaderLaws}
use espbewi.Bootloader.Mapping.{MmuLaws}
use espbewi.Bootloader.Order.{sized, located, plan_of, written, go_on, make_plan, after_layout}
use espbewi.Bootloader.Ready.{IsLoadable, IsQuiet, IsReady, load_image-IsReady, load_image-keeps}
use espbewi.Bootloader.Reaches.{
  IsPlaced, set_flash_size-Answers, read_layout-Answers, read_otadata-Answers, execute_all-Writes,
}

-- What the bootloader relies on of the validator and of the plan: they change the flash only as what
-- they call does.
pub record PlannerLaws {S E : Type 0} (planner : Planner S E) (map : MemoryMap) (cells : S → Cells)
    : Type 0 where
  pub plan_keeps :
      (raws : List (List ℕ)) (good : AppSlot → S → Bool × S) (s : S)
      → ((slot : AppSlot) (t : S) → cells (good slot t).1 ≡ cells t)
      → cells (planner.plan_boot raws good s).1 ≡ cells s
  pub validate_keeps :
      (reader : ℕ → ℕ → Exec S (Unit {0}) (List ℕ)) (offset size : ℕ) (s : S)
      → ((o n : ℕ) (t : S) → cells (reader o n t).1 ≡ cells t)
      → cells (planner.validate reader offset size map s).1 ≡ cells s

module _ {S E : Type 0} (rom : Rom S) (laws : RomLaws rom) (core : BootCore E)
    (planner : Planner S E) (loader : Loader S) (map : MemoryMap)
    (reads : PlannerLaws planner map laws.cells) where
  open laws use {cells}

  rom_flash-keeps : (offset n : ℕ) (s : S) → cells (rom_flash rom offset n s).1 ≡ cells s
  unfolding flash_read
  rom_flash-keeps offset n s = flash_read-keeps rom laws offset n s

  pub validate-keeps :
      (part : ℕ × ℕ) (s : S) → cells (validate rom core planner loader map part s).1 ≡ cells s
  validate-keeps (offset, size) s =
      reads.validate_keeps (rom_flash rom) offset size s rom_flash-keeps

  image_ok-keeps :
      (layout : Layout) (slot : AppSlot) (s : S)
      → cells (image_ok rom core planner loader map layout slot s).1 ≡ cells s
  image_ok-keeps layout slot s =
      elim (Result-cases (validate rom core planner loader map (app layout slot) s).0) [
        | inl (image, e) ↦ rw (e, image_ok) (validate-keeps (app layout slot) s)
        | inr (c, e) ↦ rw (e, image_ok) (validate-keeps (app layout slot) s)
      ]

  pub plan_boot-keeps :
      (layout : Layout) (raws : List (List ℕ)) (s : S)
      → cells (planner.plan_boot raws (image_ok rom core planner loader map layout) s).1 ≡ cells s
  plan_boot-keeps layout raws s =
      reads.plan_keeps raws (image_ok rom core planner loader map layout) s (image_ok-keeps layout)

module _ {S E : Type 0} (rom : Rom S) (laws : RomLaws rom) (readable : IsReadable rom)
    (writable : IsWritable rom laws)
    (size_keeps : (size : ℕ) (s : S) → laws.cells (rom.set_chip_size size s) ≡ laws.cells s)
    (core : BootCore E) (small : core.entry_size ≤ 4096) (planner : Planner S E) (loader : Loader S)
    (ram_laws : LoaderLaws rom laws loader) (mmu_laws : MmuLaws loader)
    (quiet : IsQuiet rom laws loader ram_laws mmu_laws) (map : MemoryMap)
    (page : map.mmu_page ≡ 0x10000) (reads : PlannerLaws planner map laws.cells) where
  open laws use {cells}

  -- The plan for what the two entries are.
  abbrev pub plan_for : Layout → S → Plan E
  plan_for layout s =
      (plan_of rom core planner loader map layout (entries_in core layout.otadata.0 (cells s)) s).0

  -- The state after the updates of that plan, and the image of a slot as it validates then.
  abbrev pub updated : Layout → S → S
  updated layout s =
      (written rom core planner loader map layout (entries_in core layout.otadata.0 (cells s)) s).1

  abbrev pub check : Layout → AppSlot → S → Result ImageError Image × S
  check layout slot s = validate rom core planner loader map (app layout slot) (updated layout s)

  -- The end for a slot that the plan chose: its image is refused, the MMU refuses it, or it is entered.
  abbrev pub LoadEnds : Layout → AppSlot → S → Result BootError ℕ × S → Type 0
  LoadEnds layout slot s out =
      ((c : ImageError) × ((check layout slot s).0 ≡ err c) × (out.0 ≡ err image_refused))
      ⊎ ((image : Image) × ((check layout slot s).0 ≡ ok image)
          × (((rc : ℕ) × (out.0 ≡ err (mmu rc)) × (rc ≢ 0))
              ⊎ IsReady rom laws readable core planner loader ram_laws mmu_laws quiet map page image
                  (check layout slot s).1 out))

  -- A plan that halts changes nothing; otherwise the entries are those with the updates made.
  abbrev pub BootEnds : Layout → S → Result BootError ℕ × S → Type 0
  BootEnds layout s out =
      ((c : BootError) × (chosen (plan_for layout s).choice ≡ err c)
        × (out.0 ≡ err c)
        × (cells out.1 ≡ cells s))
      ⊎ ((slot : AppSlot) × (chosen (plan_for layout s).choice ≡ ok slot)
          × LoadEnds layout slot s out
          × (entries_in core layout.otadata.0 (cells out.1)
              ≡ replace_all core (plan_for layout s).writes
                  (entries_in core layout.otadata.0 (cells s))))

  boot_run :
      (layout : Layout) (s : S)
      → layout_in (slice (cells s) 0x8000 0xC00) ≡ ok layout
      → IsPlaced layout
      → let raws = entries_in core layout.otadata.0 (cells s) in
        let (plan, s') = plan_of rom core planner loader map layout raws s in
        (boot rom core planner loader map s ≡ go_on rom core planner loader map layout plan s')
        × (cells s' ≡ cells s)
  unfolding boot
  boot_run layout s listed placed =
      let sizes = set_flash_size-Answers rom laws readable size_keeps s in
      let s1 = sized rom core planner loader map s in
      let found =
        read_layout-Answers rom laws readable size_keeps layout s1
          (ap (λ c. layout_in (slice c 0x8000 0xC00)) sizes.kept ∙ listed) in
      let s2 = located rom core planner loader map s in
      let same : cells s2 ≡ cells s = found.kept ∙ sizes.kept in
      let entries = read_otadata-Answers rom laws readable size_keeps core small layout s2 placed in
      let raws = entries_in core layout.otadata.0 (cells s) in
      let read : (read_otadata rom core layout s2).0 ≡ ok raws =
        entries.is_ok ∙ ap (λ c. ok (entries_in core layout.otadata.0 c)) same in
      let rest = after_layout rom core planner loader map in
      (
        bind_next (set_flash_size rom) (λ _. read_layout rom >>= rest) s _ sizes.is_ok
            ∙ bind_next (read_layout rom) rest s1 layout found.is_ok
            ∙ bind_next (read_otadata rom core layout)
                (λ raws.
                  make_plan rom core planner loader map layout raws
                  >>= go_on rom core planner loader map layout)
                s2 raws read,
        plan_boot-keeps rom laws core planner loader map reads layout raws
              (read_otadata rom core layout s2).1
            ∙ entries.kept
            ∙ same,
      )

  -- The images that validate after the updates are loadable: a property of what is in the flash, since
  -- the validator does not compare the segments with each other.
  abbrev pub AreLoadable : Layout → S → Type 0
  AreLoadable layout s =
      (slot : AppSlot) (image : Image)
      → (check layout slot s).0 ≡ ok image
      → IsLoadable planner map mmu_laws.span image.segments

  -- What a loaded slot comes to, and that loading changes no byte of the flash.
  load_ends :
      (layout : Layout) (slot : AppSlot) (s : S)
      → AreLoadable layout s
      → let out = load rom core planner loader map layout slot (updated layout s) in
        LoadEnds layout slot s out × (cells out.1 ≡ cells (updated layout s))
  unfolding load
  load_ends layout slot s loadable =
      let t = updated layout s in
      let kept : cells (check layout slot s).1 ≡ cells t =
        validate-keeps rom laws core planner loader map reads (app layout slot) t in
      elim (Result-cases (check layout slot s).0) [
        | inr (c, refused) ↦ rw refused (inl (c, refl, refl), kept)
        | inl (image, valid) ↦
            let can = loadable slot image valid in
            rw valid (
              inr (
                image,
                refl,
                load_image-IsReady rom laws readable core planner loader ram_laws mmu_laws quiet map
                    page image (check layout slot s).1 can,
              ),
              load_image-keeps rom laws readable core planner loader ram_laws mmu_laws quiet map
                    page image (check layout slot s).1 can
                  ∙ kept,
            )
      ]

  -- On a driver that works, with pages of 64 KiB, a validator and a plan that change no byte themselves,
  -- and images in the flash that are loadable where they validate (their segments lie below the end of
  -- the 32-bit flash addresses, have places in the RAM and pages in the table of the MMU apart from each
  -- other, and lie in those pages as in the flash): where the table lists a layout whose two entry
  -- sectors lie below the end of the 32-bit addresses, entries fit a sector, and every update of the
  -- plan has commands as documented, `boot` ends in one of four ways. The plan halts, and that is the
  -- error; or it chooses a slot whose image is refused after the updates; or the MMU refuses that image
  -- with a code that is not 0; or the image is entered, with its segments in place. A plan that halts
  -- leaves the flash as it was. In the other three ways the two entries are those before with all
  -- updates of the plan made, in their order, and no byte outside their two sectors differs.
  pub boot-BootEnds :
      (layout : Layout) (s : S)
      → layout_in (slice (cells s) 0x8000 0xC00) ≡ ok layout
      → IsPlaced layout
      → All (IsPlanned core) (plan_for layout s).writes
      → AreLoadable layout s
      → let out = boot rom core planner loader map s in
        BootEnds layout s out × SameOutside (cells s) (cells out.1) layout.otadata.0 8192
  boot-BootEnds layout s listed placed planned loadable =
      let raws = entries_in core layout.otadata.0 (cells s) in
      let plan = plan_for layout s in
      let s1 = (plan_of rom core planner loader map layout raws s).1 in
      let (run, same) = boot_run layout s listed placed in
      let loads = load rom core planner loader map layout in
      let go = λ (slot : AppSlot). execute_all rom core plan.writes layout >> loads slot in
      let writes =
        execute_all-Writes rom laws readable writable core layout placed plan.writes s1 planned in
      elim (Result-cases (chosen plan.choice)) [
        | inr (c, halts) ↦
            let ends = bind_stop (lift (chosen plan.choice)) go s1 c halts in
            rw (run, ends) (inl (c, halts, refl, same), λ i out. ap (λ f. f i) same)
        | inl (slot, picked) ↦
            let goes =
              bind_next (lift (chosen plan.choice)) go s1 slot picked
              ∙ bind_next (execute_all rom core plan.writes layout) (λ _. loads slot) s1 tt
                  writes.is_ok in
            let (ends, kept) = load_ends layout slot s loadable in
            rw (run, goes)
              (
                inr (
                  slot,
                  picked,
                  ends,
                  ap (entries_in core layout.otadata.0) kept
                      ∙ writes.entries
                      ∙ ap (λ c. replace_all core plan.writes (entries_in core layout.otadata.0 c))
                          same,
                ),
                λ i out. ap (λ f. f i) kept ∙ writes.frame i out ∙ ap (λ f. f i) same,
              )
      ]
