-- ===== src/Bootloader/Loaded.antt =====
-- `load`: all the segments in the RAM, where their places there are apart.
use espbewi.Common.{
  ℕ, ◌+◌, ◌≤◌, ◌<◌, ◌≡◌, ◌⊎◌, inl, inr, refl, subst, ◌∙◌, some, List, [], ◌∷◌, arith, ltb, All,
  All-map, Bool-cases, Option-cases, if◌then◌else◌,
}
use espbewi.Common.Words.{two_32}
use espbewi.Common.Result.{Result, ok}
use espbewi.Common.Exec.{pure}
use espbewi.Flash.Laws.{Cells}
use espbewi.Boot.{Rom}
use espbewi.Boot.Laws.{RomLaws, IsReadable}
use espbewi.BootEntries.{BootCore}
use espbewi.Platform.{MemoryMap}
use espbewi.Bootloader.{BootError, Segment, Planner, Loader}
use espbewi.Bootloader.Stages.{copy_to, copy_segments}
use espbewi.Bootloader.Copying.{LoaderLaws, Copied, copy_loop_total}

module _ {S E : Type 0} (planner : Planner S E) (map : MemoryMap) where
  -- An address that the copy of a segment leaves alone.
  abbrev pub Outside : Segment → ℕ → Type 0
  Outside seg i = (t : ℕ) → planner.ram_target seg map ≡ some t → (i < t) ⊎ (t + seg.len ≤ i)

  -- The copy of the second segment leaves the memory of the first alone.
  abbrev pub Apart : Segment → Segment → Type 0
  Apart a b = (t : ℕ) → planner.ram_target a map ≡ some t → (j : ℕ) → j < a.len → Outside b (t + j)

  abbrev pub AreApart : List Segment → Type 0
  AreApart [] = Unit {0}
  AreApart (seg ∷ segs) = All (Apart seg) segs × AreApart segs

  abbrev pub IsCopied : Cells → Cells → Segment → Type 0
  IsCopied ram flash seg =
      (t : ℕ) → planner.ram_target seg map ≡ some t → Copied ram t flash seg.data_offset seg.len

module _ {S E : Type 0} (rom : Rom S) (laws : RomLaws rom) (readable : IsReadable rom)
    (core : BootCore E) (planner : Planner S E) (loader : Loader S)
    (ram_laws : LoaderLaws rom laws loader) (map : MemoryMap) where
  open laws use {cells}
  open ram_laws use {ram}

  pub record IsLoaded (segs : List Segment) (s : S) (out : Result BootError (Unit {0}) × S)
      : Type 0 where
    pub is_ok : out.0 ≡ ok tt
    pub cells_kept : cells out.1 ≡ cells s
    pub stored : All (IsCopied planner map (ram out.1) (cells s)) segs
    pub frame : (i : ℕ) → All (λ seg. Outside planner map seg i) segs → ram out.1 i ≡ ram s i

  -- One segment: copied, or none to copy.
  abbrev copy_one : Segment → S → Result BootError (Unit {0}) × S
  copy_one seg =
      if ltb 0 seg.len
      then copy_to rom core planner loader map (planner.ram_target seg map) seg
      else pure tt

  record IsPlaced (seg : Segment) (s : S) : Type 0 where
    one_ok : (copy_one seg s).0 ≡ ok tt
    one_cells : cells (copy_one seg s).1 ≡ cells s
    one_stored : IsCopied planner map (ram (copy_one seg s).1) (cells s) seg
    one_frame : (i : ℕ) → Outside planner map seg i → ram (copy_one seg s).1 i ≡ ram s i

  copy_one-IsPlaced : (seg : Segment) (s : S) → seg.data_offset + seg.len ≤ two_32 → IsPlaced seg s
  copy_one-IsPlaced seg s fits = elim (Bool-cases (ltb 0 seg.len)) [
    | inr empty ↦ record {
      one_ok = rw empty refl;
      one_cells = rw empty refl;
      one_stored = λ t e j lt. absurd (ground arith);
      one_frame = λ i out. rw empty refl;
    }
    | inl full ↦ elim (Option-cases (planner.ram_target seg map)) [
      | inl no_target ↦ record {
        one_ok = rw (full, no_target) refl;
        one_cells = rw (full, no_target) refl;
        one_stored = λ t e j lt. absurd (cc);
        one_frame = λ i out. rw (full, no_target) refl;
      }
      | inr (t, has_target) ↦
          let run =
            copy_loop_total rom laws readable core planner loader ram_laws map seg t s fits in
          record {
            one_ok = rw (full, has_target) run.is_ok;
            one_cells = rw (full, has_target) run.cells_kept;
            one_stored = λ u e j lt.
                let same : t ≡ u = cc in rw (full, has_target, ← same) (run.stored j lt);
            one_frame = λ i out. rw (full, has_target) (run.frame i (out t has_target));
          }
    ]
  ]

  segments_next :
      (seg : Segment) (segs : List Segment) (s : S)
      → (copy_one seg s).0 ≡ ok tt
      → copy_segments rom core planner loader map (seg ∷ segs) s
        ≡ copy_segments rom core planner loader map segs (copy_one seg s).1
  unfolding copy_segments
  segments_next seg segs s e = rw e refl

  -- Where every read answers, the segments lie below the end of the 32-bit flash addresses, and no copy falls on the memory of an
  -- earlier segment, copying them succeeds; then each segment with a place in the RAM is there, byte
  -- for byte as in the flash, and the flash and the memory outside their places are as before.
  pub copy_segments_total :
      (segs : List Segment) (s : S)
      → All (λ seg. seg.data_offset + seg.len ≤ two_32) segs
      → AreApart planner map segs
      → IsLoaded segs s (copy_segments rom core planner loader map segs s)
  unfolding copy_segments
  copy_segments_total [] s fit apart = record {
    is_ok = refl;
    cells_kept = refl;
    stored = tt;
    frame = λ i out. refl;
  }
  copy_segments_total (seg ∷ segs) s (fits, fit) (apart_seg, apart) =
      let one = copy_one-IsPlaced seg s fits in
      let s1 = (copy_one seg s).1 in
      let rest = copy_segments_total segs s1 fit apart in
      rw (segments_next seg segs s one.one_ok) (record {
        is_ok = rest.is_ok;
        cells_kept = rest.cells_kept ∙ one.one_cells;
        stored = (
          λ t e j lt.
              rest.frame (t + j) (
                All-map (Apart planner map seg) (λ b. Outside planner map b (t + j)) segs
                  (λ b h. h t e j lt) apart_seg)
              ∙ one.one_stored t e j lt,
          subst
              (λ c.
                All
                  (IsCopied planner map (ram (copy_segments rom core planner loader map segs s1).1)
                    c)
                  segs)
              one.one_cells rest.stored,
        );
        frame = λ i (out, outs). rest.frame i outs ∙ one.one_frame i out;
      })
