-- ===== src/Bootloader/Entered.antt =====
-- `boot` as a whole: what the memory and the MMU hold when it jumps.
use espbewi.Common.{ℕ, ◌≡◌, inl, inr, sym, subst, ap, ◌∙◌}
use espbewi.Common.Result.{ok, err}
use espbewi.Boot.{Rom}
use espbewi.Boot.Laws.{RomLaws, IsReadable}
use espbewi.BootEntries.{BootCore}
use espbewi.Platform.{MemoryMap}
use espbewi.Bootloader.{mmu, app, Planner, Loader}
use espbewi.Bootloader.Stages.{validate, boot}
use espbewi.Bootloader.Copying.{LoaderLaws}
use espbewi.Bootloader.Mapping.{MmuLaws}
use espbewi.Bootloader.Order.{Jumps, written, boot-Jumps}
use espbewi.Bootloader.Ready.{IsLoadable, IsQuiet, IsReady, load_image-IsReady}

module _ {S E : Type 0} (rom : Rom S) (core : BootCore E) (planner : Planner S E)
    (loader : Loader S) (map : MemoryMap) where
  -- The state in which the image of a run has just been validated.
  abbrev pub validated : (s : S) (entry : ℕ) → Jumps rom core planner loader map s entry → S
  validated s entry j =
      (validate rom core planner loader map (app j.layout j.slot)
        (written rom core planner loader map j.layout j.raws s).1).1

module _ {S E : Type 0} (rom : Rom S) (laws : RomLaws rom) (readable : IsReadable rom)
    (core : BootCore E) (planner : Planner S E) (loader : Loader S)
    (ram_laws : LoaderLaws rom laws loader) (mmu_laws : MmuLaws loader)
    (quiet : IsQuiet rom laws loader ram_laws mmu_laws) (map : MemoryMap)
    (page : map.mmu_page ≡ 0x10000) where
  -- Where every read answers and `boot` comes to jump, the image that it validated last, if it is
  -- loadable, is the one that it enters: each segment with a place in the RAM is there, each address
  -- of a segment in the data or the instruction window stands for its own byte in the flash, and the
  -- flash is what it was when the image was validated.
  pub boot-IsReady :
      (s : S) (entry : ℕ) (jumped : (boot rom core planner loader map s).0 ≡ ok entry)
      → let j = boot-Jumps rom core planner loader map s entry jumped in
        IsLoadable planner map mmu_laws.span j.image.segments
        → IsReady rom laws readable core planner loader ram_laws mmu_laws quiet map page j.image
            (validated rom core planner loader map s entry j)
            (boot rom core planner loader map s)
  boot-IsReady s entry jumped can =
      let j = boot-Jumps rom core planner loader map s entry jumped in
      elim (load_image-IsReady rom laws readable core planner loader ram_laws mmu_laws quiet map
        page j.image (validated rom core planner loader map s entry j) can) [
          | inl (rc, failed, nonzero) ↦
              let fails : ok entry ≡ err (mmu rc) =
                sym jumped ∙ ap (λ out. out.0) j.is_run ∙ failed in
              absurd (cc)
          | inr ready ↦
              subst
                (IsReady rom laws readable core planner loader ram_laws mmu_laws quiet map page
                  j.image (validated rom core planner loader map s entry j))
                (sym j.is_run) ready
        ]
