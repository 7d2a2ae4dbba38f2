-- ===== src/Bootloader/Ready.antt =====
-- `load` behind the validation: what the memory and the MMU hold when the image is entered.
use espbewi.Common.{
  ℕ, ◌+◌, ◌==◌, ◌≤◌, ◌≡◌, ◌≢◌, ◌⊎◌, inl, inr, refl, ap, subst, sym, ◌∙◌, true, List, [], ◌∷◌, arith,
  ltb, All, Bool-cases, if◌then◌else◌,
}
use espbewi.Common.Words.{two_32}
use espbewi.Common.Result.{Result, ok, err, Result-cases}
use espbewi.Common.Exec.{Exec, pure}
use espbewi.Boot.{Rom}
use espbewi.Boot.Laws.{RomLaws, IsReadable}
use espbewi.BootEntries.{BootCore}
use espbewi.Platform.{MemoryMap, contains}
use espbewi.Bootloader.{BootError, mmu, Segment, Image, Planner, Loader}
use espbewi.Bootloader.Stages.{mmu_call, map_segment, copy_segments, map_segments, load_image}
use espbewi.Bootloader.Copying.{LoaderLaws}
use espbewi.Bootloader.Loaded as Loaded
use espbewi.Bootloader.Loaded.{copy_segments_total}
use espbewi.Bootloader.Mapping.{IsMapped, IsAligned, in_window, MmuLaws, map_segments_maps}
use espbewi.Bootloader.Mapping as Mapping

-- A view of the state that the cache, the MMU and the delay leave alone.
pub record KeepsView {S V : Type 0} (loader : Loader S) (view : S → V) : Type 0 where
  pub begin : (s : S) → view (loader.cache_begin_mapping s).1 ≡ view s
  pub drom : (v p n : ℕ) (s : S) → view (loader.map_drom v p n s).1 ≡ view s
  pub irom : (v p n : ℕ) (s : S) → view (loader.map_irom v p n s).1 ≡ view s
  pub finish : (autoload : ℕ) (s : S) → view (loader.cache_finish_mapping autoload s) ≡ view s
  pub delay : (us : ℕ) (s : S) → view (loader.delay_us us s) ≡ view s

module _ {S E V : Type 0} (rom : Rom S) (core : BootCore E) (planner : Planner S E)
    (loader : Loader S) (map : MemoryMap) (view : S → V) (keeps : KeepsView loader view) where
  mmu_call_view :
      (seg : Segment) (s : S) → view (mmu_call rom core planner loader map seg s).1 ≡ view s
  mmu_call_view seg s = elim (Bool-cases (contains map.drom seg.load)) [
    | inl e ↦ rw e (keeps.drom _ _ _ s)
    | inr e ↦ rw e (keeps.irom _ _ _ s)
  ]

  abbrev map_one : Segment → Exec S BootError (Unit {0})
  map_one seg =
      if ltb 0 seg.len
      then (if in_window map seg then map_segment rom core planner loader map seg else pure tt)
      else pure tt

  map_one_view : (seg : Segment) (s : S) → view (map_one seg s).1 ≡ view s
  map_one_view seg s = elim (Bool-cases (ltb 0 seg.len)) [
    | inr e ↦ rw e refl
    | inl full ↦ elim (Bool-cases (in_window map seg)) [
      | inr e ↦ rw (full, e) refl
      | inl inside ↦ rw (full, inside) (mmu_call_view seg s)
    ]
  ]

  map_segments_view :
      (segs : List Segment) (s : S)
      → view (map_segments rom core planner loader map segs s).1 ≡ view s
  unfolding map_segments
  map_segments_view [] s = refl
  map_segments_view (seg ∷ segs) s = elim (Result-cases (map_one seg s).0) [
    | inl (u, e) ↦ rw e (map_segments_view segs (map_one seg s).1 ∙ map_one_view seg s)
    | inr (c, e) ↦ rw e (map_one_view seg s)
  ]

  -- From the copies to the jump.
  abbrev pub entered : List Segment → S → S
  entered segs s =
      let (autoload, s1) = loader.cache_begin_mapping s in
      loader.delay_us 50000
        (loader.cache_finish_mapping autoload (map_segments rom core planner loader map segs s1).1)

  entered_view : (segs : List Segment) (s : S) → view (entered segs s) ≡ view s
  entered_view segs s =
      keeps.delay 50000 _
      ∙ keeps.finish _ _
      ∙ map_segments_view segs (loader.cache_begin_mapping s).1
      ∙ keeps.begin s

  -- A failure is a code of the MMU.
  map_one_error :
      (seg : Segment) (s : S) (c : BootError)
      → (map_one seg s).0 ≡ err c
      → (rc : ℕ) × (c ≡ mmu rc) × (rc ≢ 0)
  map_one_error seg s c e = elim (Bool-cases (ltb 0 seg.len)) [
    | inr empty ↦ let e' = rw empty at e in absurd (cc)
    | inl full ↦ elim (Bool-cases (in_window map seg)) [
      | inr out ↦ let e' = rw (full, out) at e in absurd (cc)
      | inl inside ↦
          let e' = rw (full, inside) at e in code (mmu_call rom core planner loader map seg s).0 e'
    ]
  ]
    where
      code :
          (rc : ℕ)
          → (if rc == 0 then ok tt else err (mmu rc)) ≡ err c
          → (rc' : ℕ) × (c ≡ mmu rc') × (rc' ≢ 0)
      code rc h = elim (Bool-cases (rc == 0)) [
        | inl z ↦ let h' = rw z at h in absurd (cc)
        | inr nz ↦ let h' = rw nz at h in (rc, cc, λ z. ground arith)
      ]

  map_segments_error :
      (segs : List Segment) (s : S) (c : BootError)
      → (map_segments rom core planner loader map segs s).0 ≡ err c
      → (rc : ℕ) × (c ≡ mmu rc) × (rc ≢ 0)
  unfolding map_segments
  map_segments_error [] s c e = absurd (cc)
  map_segments_error (seg ∷ segs) s c e = elim (Result-cases (map_one seg s).0) [
    | inl (u, done) ↦ let e' = rw done at e in map_segments_error segs (map_one seg s).1 c e'
    | inr (d, failed) ↦
        let e' = rw failed at e in
        let same : d ≡ c = cc in map_one_error seg s c (failed ∙ ap err same)
  ]

-- An image whose segments lie below the end of the 32-bit flash addresses, have places of their own
-- in the RAM, and pages of their own in the table of the MMU, in which they lie as in the flash.
pub record IsLoadable {S E : Type 0} (planner : Planner S E) (map : MemoryMap) (span : ℕ)
    (segs : List Segment) : Type 0 where
  pub fit : All (λ seg. seg.data_offset + seg.len ≤ two_32) segs
  pub places : Loaded.AreApart planner map segs
  pub aligned : All (λ seg. in_window map seg ≡ true → IsAligned span seg) segs
  pub pages : Mapping.AreApart span map segs

-- Cache, MMU and delay change neither the flash nor the RAM of the images, and the mapping stays when
-- the cache is resumed.
pub record IsQuiet {S : Type 0} (rom : Rom S) (laws : RomLaws rom) (loader : Loader S)
    (ram_laws : LoaderLaws rom laws loader) (mmu_laws : MmuLaws loader) : Type 0 where
  pub cells_kept : KeepsView loader laws.cells
  pub ram_kept : KeepsView loader ram_laws.ram
  pub finish_kept :
      (autoload : ℕ) (s : S)
      → mmu_laws.mapping (loader.cache_finish_mapping autoload s) ≡ mmu_laws.mapping s
  pub delay_kept : (us : ℕ) (s : S) → mmu_laws.mapping (loader.delay_us us s) ≡ mmu_laws.mapping s

module _ {S E : Type 0} (rom : Rom S) (laws : RomLaws rom) (readable : IsReadable rom)
    (core : BootCore E) (planner : Planner S E) (loader : Loader S)
    (ram_laws : LoaderLaws rom laws loader) (mmu_laws : MmuLaws loader)
    (quiet : IsQuiet rom laws loader ram_laws mmu_laws) (map : MemoryMap)
    (page : map.mmu_page ≡ 0x10000) where
  open laws use {cells}
  open ram_laws use {ram}
  open mmu_laws use {span, mapping}

  -- The image is entered, with its segments in the RAM and in the windows.
  pub record IsReady (image : Image) (s : S) (out : Result BootError ℕ × S) : Type 0 where
    pub enters : out.0 ≡ ok image.entry
    pub in_ram : All (Loaded.IsCopied planner map (ram out.1) (cells out.1)) image.segments
    pub in_windows : All (IsMapped map (mapping out.1)) image.segments
    pub flash_kept : cells out.1 ≡ cells s

  -- Where every read answers, loading a loadable image fails in no other way than by a code of the MMU
  -- that is not 0. Otherwise it enters the image, and then each segment with a place in the RAM is
  -- there, each address of a segment in the data or the instruction window stands for its own byte
  -- in the flash, and the flash is as before.
  pub load_image-IsReady :
      (image : Image) (s : S)
      → IsLoadable planner map span image.segments
      → let out = load_image rom core planner loader map image s in
        ((rc : ℕ) × (out.0 ≡ err (mmu rc)) × (rc ≢ 0)) ⊎ IsReady image s out
  unfolding load_image
  load_image-IsReady image s can =
      let segs = image.segments in
      let copied =
        copy_segments_total rom laws readable core planner loader ram_laws map segs s can.fit
          can.places in
      let s1 = (copy_segments rom core planner loader map segs s).1 in
      let (autoload, s2) = loader.cache_begin_mapping s1 in
      let s3 = (map_segments rom core planner loader map segs s2).1 in
      let s4 = loader.cache_finish_mapping autoload s3 in
      elim (Result-cases (map_segments rom core planner loader map segs s2).0) [
        | inr (c, failed) ↦
            let (rc, is_mmu, nonzero) =
              map_segments_error rom core planner loader map laws.cells quiet.cells_kept segs s2 c
                failed in
            inl (rc, rw (copied.is_ok, failed) (ap err is_mmu), nonzero)
        | inl (u, mapped) ↦
            let maps =
              map_segments_maps rom core planner loader mmu_laws map page segs s2 can.aligned
                can.pages mapped in
            let end = loader.delay_us 50000 s4 in
            let cells_same : cells end ≡ cells s =
              entered_view rom core planner loader map cells quiet.cells_kept segs s1
              ∙ copied.cells_kept in
            let ram_same : ram end ≡ ram s1 =
              entered_view rom core planner loader map ram quiet.ram_kept segs s1 in
            inr (
              rw (copied.is_ok, mapped)
                (record {
                  enters = refl;
                  in_ram =
                      subst (λ r. All (Loaded.IsCopied planner map r (cells end)) segs)
                        (sym ram_same)
                        (subst (λ c. All (Loaded.IsCopied planner map (ram s1) c) segs)
                          (sym cells_same) copied.stored);
                  in_windows =
                      subst (λ m. All (IsMapped map m) segs)
                        (sym (quiet.delay_kept 50000 s4 ∙ quiet.finish_kept autoload s3)) maps;
                  flash_kept = cells_same;
                }))
      ]

  -- Whether or not the MMU refuses, loading changes no byte of the flash.
  pub load_image-keeps :
      (image : Image) (s : S)
      → IsLoadable planner map span image.segments
      → cells (load_image rom core planner loader map image s).1 ≡ cells s
  unfolding load_image
  load_image-keeps image s can =
      let segs = image.segments in
      let copied =
        copy_segments_total rom laws readable core planner loader ram_laws map segs s can.fit
          can.places in
      let s1 = (copy_segments rom core planner loader map segs s).1 in
      let s2 = (loader.cache_begin_mapping s1).1 in
      elim (Result-cases (map_segments rom core planner loader map segs s2).0) [
        | inr (c, failed) ↦
            rw (copied.is_ok, failed)
              (map_segments_view rom core planner loader map cells quiet.cells_kept segs s2
                ∙ quiet.cells_kept.begin s1
                ∙ copied.cells_kept)
        | inl (u, mapped) ↦
            rw (copied.is_ok, mapped)
              (entered_view rom core planner loader map cells quiet.cells_kept segs s1
                ∙ copied.cells_kept)
      ]
