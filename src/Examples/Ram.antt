-- ===== src/Examples/Ram.antt =====
-- A flash that never fails: its cells, with erase blocks of 16 bytes and write units of 4.
use espbewi.Common.{
  ℕ, ◌+◌, ◌-◌, ◌≡◌, refl, sym, ◌&&◌, some, List, arith, ltb, leb, if◌then◌else◌, length, get_or,
}
use espbewi.Flash.{NorFlash}
use espbewi.Flash.Laws.{NorFlashLaws, Cells, Holds, IsErased, SameOutside}
use espbewi.Flash.Slices.{slice, length-slice, get_or-slice}

abbrev pub clear_cells : ℕ → ℕ → Cells → Cells
clear_cells a b c i = if leb a i && ltb i b then 0xFF else c i

abbrev pub set_cells : ℕ → List ℕ → Cells → Cells
set_cells a bs c i = if leb a i && ltb i (a + length bs) then get_or bs (i - a) 0 else c i

abbrev pub ram : NorFlash Cells
ram = record {
  erase_size = 16;
  write_size = 4;
  read = λ a n c. (some (slice c a n), c);
  erase = λ a b c. (some tt, clear_cells a b c);
  program = λ a bs c. (some tt, set_cells a bs c);
}

pub clear_inside : (a n : ℕ) (c : Cells) → IsErased (clear_cells a (a + n) c) a n
clear_inside a n c j lt = ground arith

pub clear_outside : (a n : ℕ) (c : Cells) → SameOutside c (clear_cells a (a + n) c) a n
clear_outside a n c i out = ground arith

pub set_inside : (a : ℕ) (bs : List ℕ) (c : Cells) → Holds (set_cells a bs c) a bs
set_inside a bs c j lt = let here : a + j - a ≡ j = omega arith in rw here (ground arith)

pub set_outside : (a : ℕ) (bs : List ℕ) (c : Cells) → SameOutside c (set_cells a bs c) a (length bs)
set_outside a bs c i out = ground arith

pub some-slice-length :
    (a n : ℕ) (c : Cells) (bs : List ℕ) → some (slice c a n) ≡ some bs → length bs ≡ n
some-slice-length a n c bs e = let same : slice c a n ≡ bs = cc in rw (← same) (length-slice c a n)

pub some-slice-Holds :
    (a n : ℕ) (c : Cells) (bs : List ℕ) → some (slice c a n) ≡ some bs → Holds c a bs
some-slice-Holds a n c bs e j lt =
    let same : slice c a n ≡ bs = cc in
    rw (← same) (sym (get_or-slice c a n j 0 (rw (some-slice-length a n c bs e) at lt)))

abbrev pub ram_laws : NorFlashLaws ram
ram_laws = record {
  cells = λ c. c;
  erase_size_pos = omega arith;
  write_size_pos = omega arith;
  read_keeps = λ a n c. refl;
  read_length = some-slice-length;
  read_holds = some-slice-Holds;
  erase_clears = λ a n c e. clear_inside a n c;
  erase_frame = clear_outside;
  program_stores = λ a bs c e blank. set_inside a bs c;
  program_frame = set_outside;
}
