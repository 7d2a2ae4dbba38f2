-- ===== src/Bootloader/Copying.antt =====
-- `load`: the copies of the segments into RAM.
use espbewi.Common.{
  ℕ, zero, suc, ◌+◌, ◌-◌, ◌≤◌, ◌<◌, ◌≡◌, ◌⊎◌, inl, inr, refl, ap, sym, subst, ◌∙◌, true, false,
  List, arith, length, min, ltb, Bool-cases,
}
use espbewi.Common.Words.{two_32, add_u32}
use espbewi.Common.Result.{Result, ok}
use espbewi.Flash.Laws.{Cells, Holds, SameOutside}
use espbewi.Flash.Slices.{slice, length-slice, get_or-slice}
use espbewi.Boot.{Rom}
use espbewi.Boot.Laws.{RomLaws, IsReadable}
use espbewi.Boot.Steps.{flash_read_view}
use espbewi.Boot.Reads.{flash_read_total}
use espbewi.BootEntries.{BootCore}
use espbewi.Platform.{MemoryMap}
use espbewi.Bootloader.{BootError, Segment, Planner, Loader}
use espbewi.Bootloader.Stages.{flash_read, copy_loop}

-- The RAM of the images, apart from the bootloader's own: a copy stores its bytes and no others, and
-- neither a copy nor a read of the flash changes the other memory.
pub record LoaderLaws {S : Type 0} (rom : Rom S) (laws : RomLaws rom) (loader : Loader S)
    : Type 0 where
  pub ram : S → Cells
  pub copy_stores : (a : ℕ) (bytes : List ℕ) (s : S) → Holds (ram (loader.copy a bytes s)) a bytes
  pub copy_frame :
      (a : ℕ) (bytes : List ℕ) (s : S)
      → SameOutside (ram s) (ram (loader.copy a bytes s)) a (length bytes)
  pub copy_keeps :
      (a : ℕ) (bytes : List ℕ) (s : S) → laws.cells (loader.copy a bytes s) ≡ laws.cells s
  pub read_keeps : (start len : ℕ) (s : S) → ram (rom.spiflash_read start len s).1 ≡ ram s

-- The `n` bytes of the RAM from `target` on are those of the flash from `offset` on.
abbrev pub Copied : Cells → ℕ → Cells → ℕ → ℕ → Type 0
Copied ram target flash offset n = (j : ℕ) → j < n → ram (target + j) ≡ flash (offset + j)

module _ {S E : Type 0} (rom : Rom S) (laws : RomLaws rom) (readable : IsReadable rom)
    (core : BootCore E) (planner : Planner S E) (loader : Loader S)
    (ram_laws : LoaderLaws rom laws loader) (map : MemoryMap) where
  open laws use {cells}
  open ram_laws use {ram}

  read_total :
      (offset n : ℕ) (s : S)
      → offset + n ≤ two_32
      → (flash_read rom offset n s).0 ≡ ok (slice (cells s) offset n)
  unfolding flash_read
  read_total offset n s fits = rw (flash_read_total rom laws readable offset n s fits) refl

  read_ram : (offset n : ℕ) (s : S) → ram (flash_read rom offset n s).1 ≡ ram s
  unfolding flash_read
  read_ram offset n s = flash_read_view rom ram ram_laws.read_keeps offset n s

  read_cells : (offset n : ℕ) (s : S) → cells (flash_read rom offset n s).1 ≡ cells s
  unfolding flash_read
  read_cells offset n s = flash_read_view rom cells laws.read_keeps offset n s

  -- One piece: what is read, and the state with it in the RAM.
  abbrev piece_of : Segment → ℕ → ℕ
  piece_of seg copied = min (seg.len - copied) 256

  abbrev piece : Segment → ℕ → S → List ℕ
  piece seg copied s = slice (cells s) (add_u32 seg.data_offset copied) (piece_of seg copied)

  abbrev with_piece : Segment → ℕ → ℕ → S → S
  with_piece seg target copied s =
      loader.copy (target + copied) (piece seg copied s)
        (flash_read rom (add_u32 seg.data_offset copied) (piece_of seg copied) s).1

  copy_next :
      (fuel : ℕ) (seg : Segment) (target copied : ℕ) (s : S)
      → seg.data_offset + seg.len ≤ two_32
      → ltb copied seg.len ≡ true
      → copy_loop rom core planner loader map (suc fuel) seg target copied s
        ≡ copy_loop rom core planner loader map fuel seg target
            (copied + piece_of seg copied)
            (with_piece seg target copied s)
  unfolding copy_loop
  copy_next fuel seg target copied s fits more =
      let read =
        read_total (add_u32 seg.data_offset copied) (piece_of seg copied) s (ground arith) in
      rw (more, copy_loop) (rw read refl)

  copy_stop :
      (fuel : ℕ) (seg : Segment) (target copied : ℕ) (s : S)
      → ltb copied seg.len ≡ false
      → copy_loop rom core planner loader map fuel seg target copied s ≡ (ok tt, s)
  unfolding copy_loop
  copy_stop zero seg target copied s e = refl
  copy_stop (suc fuel) seg target copied s e = rw (e, copy_loop) refl

  -- A run that succeeds, copies `n` bytes from the flash, and changes no other memory.
  pub record Copies (at offset n : ℕ) (s : S) (out : Result BootError (Unit {0}) × S) : Type 0 where
    pub is_ok : out.0 ≡ ok tt
    pub cells_kept : cells out.1 ≡ cells s
    pub stored : Copied (ram out.1) at (cells s) offset n
    pub frame : SameOutside (ram s) (ram out.1) at n

  with_piece-Copies :
      (seg : Segment) (target copied : ℕ) (s : S)
      → seg.data_offset + seg.len ≤ two_32
      → ltb copied seg.len ≡ true
      → Copies
          (target + copied)
          (seg.data_offset + copied)
          (piece_of seg copied)
          s
          (ok tt, with_piece seg target copied s)
  with_piece-Copies seg target copied s fits more =
      let from = add_u32 seg.data_offset copied in
      let n = piece_of seg copied in
      let s1 = (flash_read rom from n s).1 in
      let bytes = piece seg copied s in
      let long : length bytes ≡ n = length-slice (cells s) from n in
      let start : from ≡ seg.data_offset + copied = ground arith in
      record {
        is_ok = refl;
        cells_kept = ram_laws.copy_keeps (target + copied) bytes s1 ∙ read_cells from n s;
        stored = λ j lt.
            ram_laws.copy_stores (target + copied) bytes s1 j (omega (arith, long, lt))
            ∙ get_or-slice (cells s) from n j 0 lt
            ∙ ap (λ a. cells s (a + j)) start;
        frame = λ i out.
            ram_laws.copy_frame (target + copied) bytes s1 i (omega (arith, long, out))
            ∙ ap (λ m. m i) (read_ram from n s);
      }

  -- One run after another, on the memory behind it.
  Copies-append :
      (at offset n m : ℕ) (s t : S) (out : Result BootError (Unit {0}) × S)
      → Copies at offset n s (ok tt, t)
      → Copies (at + n) (offset + n) m t out
      → Copies at offset (n + m) s out
  Copies-append at offset n m s t out first second = record {
    is_ok = second.is_ok;
    cells_kept = second.cells_kept ∙ first.cells_kept;
    stored = λ j lt. elim (nat_cases j n) [
      | inl low ↦ second.frame (at + j) (omega (arith, low)) ∙ first.stored j low
      | inr high ↦
          ap (ram out.1) (omega (arith, high))
          ∙ second.stored (j - n) (omega (arith, lt, high))
          ∙ ap (cells t) (omega (arith, high))
          ∙ ap (λ c. c (offset + j)) first.cells_kept
    ];
    frame = λ i outside.
        second.frame i (omega (arith, outside)) ∙ first.frame i (omega (arith, outside));
  }
    where
      nat_cases : (j n : ℕ) → (j < n) ⊎ (n ≤ j)
      nat_cases j n = ground arith

  Copies-none : (at offset : ℕ) (s : S) → Copies at offset 0 s (ok tt, s)
  Copies-none at offset s = record {
    is_ok = refl;
    cells_kept = refl;
    stored = λ j lt. absurd (omega arith);
    frame = λ i out. refl;
  }

  copy_loop-Copies :
      (fuel : ℕ) (seg : Segment) (target copied : ℕ) (s : S)
      → seg.data_offset + seg.len ≤ two_32
      → seg.len - copied ≤ fuel
      → Copies
          (target + copied)
          (seg.data_offset + copied)
          (seg.len - copied)
          s
          (copy_loop rom core planner loader map fuel seg target copied s)
  copy_loop-Copies zero seg target copied s fits enough =
      let none_left : seg.len - copied ≡ 0 = omega arith in
      rw (copy_stop zero seg target copied s (ground arith), none_left)
        (Copies-none (target + copied) (seg.data_offset + copied) s)
  copy_loop-Copies (suc fuel) seg target copied s fits enough =
      elim (Bool-cases (ltb copied seg.len)) [
        | inr stop ↦
            let none_left : seg.len - copied ≡ 0 = ground arith in
            rw (copy_stop (suc fuel) seg target copied s stop, none_left)
              (Copies-none (target + copied) (seg.data_offset + copied) s)
        | inl more ↦
            let k = piece_of seg copied in
            let t = with_piece seg target copied s in
            let all : seg.len - copied ≡ k + (seg.len - (copied + k)) = ground arith in
            let at : target + (copied + k) ≡ target + copied + k = omega arith in
            let from : seg.data_offset + (copied + k) ≡ seg.data_offset + copied + k =
              omega arith in
            let rest = copy_loop-Copies fuel seg target (copied + k) t fits (ground arith) in
            let out = copy_loop rom core planner loader map fuel seg target (copied + k) t in
            rw (copy_next fuel seg target copied s fits more) (
              subst (λ n. Copies (target + copied) (seg.data_offset + copied) n s out) (sym all)
                (Copies-append (target + copied) (seg.data_offset + copied) k
                  (seg.len - (copied + k)) s t out (with_piece-Copies seg target copied s fits more)
                  (rw (at, from) at rest)))
      ]

  -- Where every read answers, a segment inside the flash is copied as a whole, with one unit of fuel
  -- for each byte, and no other memory is changed.
  pub copy_loop_total :
      (seg : Segment) (target : ℕ) (s : S)
      → seg.data_offset + seg.len ≤ two_32
      → Copies target seg.data_offset seg.len s
          (copy_loop rom core planner loader map seg.len seg target 0 s)
  copy_loop_total seg target s fits =
      let from : target + 0 ≡ target = omega arith in
      let at : seg.data_offset + 0 ≡ seg.data_offset = omega arith in
      let all : seg.len - 0 ≡ seg.len = omega arith in
      let run = copy_loop-Copies seg.len seg target 0 s fits (omega arith) in
      rw (from, at, all) at run
