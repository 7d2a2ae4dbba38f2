-- ===== src/Bootloader/Mapping.antt =====
-- `load`: the segments that the flash MMU maps into the data and instruction windows.
use espbewi.Common.{
  ℕ, ◌+◌, ◌-◌, ◌*◌, ◌%◌, ◌≤◌, ◌<◌, ◌≡◌, ◌≢◌, inl, inr, refl, subst, sym, ◌∙◌, Bool, true, ◌==◌,
  ◌||◌, Option, some, List, [], ◌∷◌, arith, ltb, All, All-map, Bool-cases, if◌then◌else◌,
}
use espbewi.Common.Words.{two_32, add_u32, div_ceil}
use espbewi.Common.Result.{ok, err, Result-cases}
use espbewi.Common.Exec.{Exec, pure, bind_ok}
use espbewi.Boot.{Rom}
use espbewi.BootEntries.{BootCore}
use espbewi.Platform.{MemoryMap, contains}
use espbewi.Bootloader.{BootError, Segment, Planner, Loader}
use espbewi.Bootloader.Stages.{page_start, mmu_call, map_segment, map_segments}

abbrev pub Mapping : Type 0
Mapping = ℕ → Option ℕ

-- A call of the MMU that changes `m` to `m'`: where it answers 0, `n` pages of 64 KiB from the virtual
-- address `v` on stand for those of the flash from `p` on, unless they are more than the table has. The
-- table is one for both windows: an address whose remainder by `span` is the same has the same page
-- in it, so a call changes that page of the other window too, and no other page.
pub record IsMapCall (span v p n rc : ℕ) (m m' : Mapping) : Type 0 where
  pub maps :
      v % 0x10000 ≡ 0
      → p % 0x10000 ≡ 0
      → n * 0x10000 ≤ span
      → rc ≡ 0
      → (j : ℕ) → j < n * 0x10000
      → m' (v + j) ≡ some (p + j)
  pub leaves : (i : ℕ) → ((j : ℕ) → j < n * 0x10000 → (v + j) % span ≢ i % span) → m' i ≡ m i

pub record MmuLaws {S : Type 0} (loader : Loader S) : Type 0 where
  pub span : ℕ
  pub mapping : S → Mapping
  pub drom :
      (v p n : ℕ) (s : S)
      → let (rc, s') = loader.map_drom v p n s in IsMapCall span v p n rc (mapping s) (mapping s')
  pub irom :
      (v p n : ℕ) (s : S)
      → let (rc, s') = loader.map_irom v p n s in IsMapCall span v p n rc (mapping s) (mapping s')

-- The pages of a segment: enough, and not wrapped around.
page_bounds :
    (load len offset j : ℕ)
    → load + len < two_32
    → load % 0x10000 ≡ offset % 0x10000
    → j < len
    → let v = page_start load 0x10000 in
      (load - v + j < div_ceil (add_u32 len (load - v)) 0x10000 * 0x10000)
      × (v + (load - v + j) ≡ load + j)
      × (page_start offset 0x10000 + (load - v + j) ≡ offset + j)
page_bounds load len offset j small same lt = (omega arith, omega arith, omega arith)

page_start_whole : (x : ℕ) → page_start x 0x10000 % 0x10000 ≡ 0
page_start_whole x = omega arith

-- The pages that the call for a segment takes.
abbrev pub pages_of : Segment → ℕ
pages_of seg = div_ceil (add_u32 seg.len (seg.load - page_start seg.load 0x10000)) 0x10000

-- A segment whose offset in the flash lies in its page as its address does, and whose pages are no
-- more than the table has.
abbrev pub IsAligned : ℕ → Segment → Type 0
IsAligned span seg =
    (seg.load + seg.len < two_32)
    × (seg.load % 0x10000 ≡ seg.data_offset % 0x10000)
    × (pages_of seg * 0x10000 ≤ span)

module _ (map : MemoryMap) where
  abbrev pub in_window : Segment → Bool
  in_window seg = contains map.drom seg.load || contains map.irom seg.load

  abbrev pub IsMapped : Mapping → Segment → Type 0
  IsMapped m seg =
      in_window seg ≡ true → (j : ℕ) → j < seg.len → m (seg.load + j) ≡ some (seg.data_offset + j)

module _ (span : ℕ) (map : MemoryMap) where
  -- An address that has none of the pages of a segment in the table, if the segment is mapped at all.
  abbrev pub Outside : Segment → ℕ → Type 0
  Outside seg i =
      0 < seg.len
      → in_window map seg ≡ true
      → (j : ℕ) → j < pages_of seg * 0x10000
      → (page_start seg.load 0x10000 + j) % span ≢ i % span

  -- The second segment takes no page of the first in the table.
  abbrev pub Apart : Segment → Segment → Type 0
  Apart a b = (j : ℕ) → j < a.len → Outside b (a.load + j)

  abbrev pub AreApart : List Segment → Type 0
  AreApart [] = Unit {0}
  AreApart (seg ∷ segs) = All (Apart seg) segs × AreApart segs

module _ {S E : Type 0} (rom : Rom S) (core : BootCore E) (planner : Planner S E)
    (loader : Loader S) (laws : MmuLaws loader) (map : MemoryMap)
    (page : map.mmu_page ≡ 0x10000) where
  open laws use {span, mapping}

  mmu_call-IsMapCall :
      (seg : Segment) (s : S)
      → let (rc, s') = mmu_call rom core planner loader map seg s in
        IsMapCall span
          (page_start seg.load 0x10000)
          (page_start seg.data_offset 0x10000)
          (pages_of seg)
          rc
          (mapping s)
          (mapping s')
  mmu_call-IsMapCall seg s = elim (Bool-cases (contains map.drom seg.load)) [
    | inl e ↦
        rw (page, e)
          (laws.drom (page_start seg.load 0x10000) (page_start seg.data_offset 0x10000)
            (pages_of seg) s)
    | inr e ↦
        rw (page, e)
          (laws.irom (page_start seg.load 0x10000) (page_start seg.data_offset 0x10000)
            (pages_of seg) s)
  ]

  abbrev map_one : Segment → Exec S BootError (Unit {0})
  map_one seg =
      if ltb 0 seg.len
      then (if in_window map seg then map_segment rom core planner loader map seg else pure tt)
      else pure tt

  map_one_maps :
      (seg : Segment) (s : S)
      → IsAligned span seg
      → (map_one seg s).0 ≡ ok tt
      → IsMapped map (mapping (map_one seg s).1) seg
  map_one_maps seg s (small, same, few) done inside j lt =
      let full : ltb 0 seg.len ≡ true = ground arith in
      let (rc, s') = mmu_call rom core planner loader map seg s in
      let call = mmu_call-IsMapCall seg s in
      let (near, at, from) = page_bounds seg.load seg.len seg.data_offset j small same lt in
      let zero_rc : rc ≡ 0 = let done' = rw (full, inside) at done in success rc done' in
      rw (full, inside)
        (rw (← at, ← from)
          (call.maps (page_start_whole seg.load) (page_start_whole seg.data_offset) few zero_rc
            (seg.load - page_start seg.load 0x10000 + j) near))
    where
      success : (rc : ℕ) → (if rc == 0 then ok tt else err (BootError.mmu rc)) ≡ ok tt → rc ≡ 0
      success rc e = ground arith

  map_one_frame :
      (seg : Segment) (s : S) (i : ℕ)
      → Outside span map seg i
      → mapping (map_one seg s).1 i ≡ mapping s i
  map_one_frame seg s i out = elim (Bool-cases (ltb 0 seg.len)) [
    | inr e ↦ rw e refl
    | inl full ↦ elim (Bool-cases (in_window map seg)) [
      | inr e ↦ rw (full, e) refl
      | inl inside ↦
          rw (full, inside) ((mmu_call-IsMapCall seg s).leaves i (out (ground arith) inside))
    ]
  ]

  map_segments_frame :
      (segs : List Segment) (s : S) (i : ℕ)
      → All (λ seg. Outside span map seg i) segs
      → mapping (map_segments rom core planner loader map segs s).1 i ≡ mapping s i
  unfolding map_segments
  map_segments_frame [] s i out = refl
  map_segments_frame (seg ∷ segs) s i (out, outs) = elim (Result-cases (map_one seg s).0) [
    | inl (u, e) ↦
        rw e (map_segments_frame segs (map_one seg s).1 i outs ∙ map_one_frame seg s i out)
    | inr (c, e) ↦ rw e (map_one_frame seg s i out)
  ]

  -- Where the segments in the data and the instruction window are aligned with their bytes in the
  -- flash and share no page of the table with an earlier one, and mapping them answers `Ok`, every address of such a
  -- segment stands for its own byte in the flash.
  pub map_segments_maps :
      (segs : List Segment) (s : S)
      → All (λ seg. in_window map seg ≡ true → IsAligned span seg) segs
      → AreApart span map segs
      → (map_segments rom core planner loader map segs s).0 ≡ ok tt
      → All (IsMapped map (mapping (map_segments rom core planner loader map segs s).1)) segs
  unfolding map_segments
  map_segments_maps [] s aligned apart done = tt
  map_segments_maps (seg ∷ segs) s (aligned_seg, aligned) (apart_seg, apart) done =
      let (u, first, run) =
        bind_ok (map_one seg) (λ _. map_segments rom core planner loader map segs) s tt done in
      let s1 = (map_one seg s).1 in
      let here = λ (inside : in_window map seg ≡ true).
        map_one_maps seg s (aligned_seg inside) first inside in
      let all : All (IsMapped map (mapping (map_segments rom core planner loader map segs s1).1))
          (seg ∷ segs) =
        (
          λ inside j lt.
              map_segments_frame segs s1 (seg.load + j) (
                All-map (Apart span map seg) (λ b. Outside span map b (seg.load + j)) segs
                  (λ b h. h j lt) apart_seg)
              ∙ here inside j lt,
          map_segments_maps segs s1 aligned apart (rw run at done),
        ) in
      subst (λ out. All (IsMapped map (mapping out.1)) (seg ∷ segs)) (sym run) all
