-- ===== src/Flash/Laws.antt =====
-- What callers rely on of a NOR flash driver: `erase` sets bytes to 0xFF, `program` stores bytes where
-- the flash is erased, `read` reads, and none of them touches a byte outside the range of its call.
use espbewi.Common.{ℕ, ◌+◌, ◌≤◌, ◌<◌, ◌≡◌, ◌⊎◌, some, List, length, get_or}
use espbewi.Flash.{NorFlash}

abbrev pub Cells : Type 0
Cells = ℕ → ℕ

-- The bytes from address `a` on are `bs`.
abbrev pub Holds : Cells → ℕ → List ℕ → Type 0
Holds cells a bs = (j : ℕ) → j < length bs → cells (a + j) ≡ get_or bs j 0

-- The `n` bytes from address `a` on are erased.
abbrev pub IsErased : Cells → ℕ → ℕ → Type 0
IsErased cells a n = (j : ℕ) → j < n → cells (a + j) ≡ 0xFF

-- Nothing outside the `n` bytes from address `a` on differs.
abbrev pub SameOutside : Cells → Cells → ℕ → ℕ → Type 0
SameOutside before after a n = (i : ℕ) → (i < a) ⊎ (a + n ≤ i) → after i ≡ before i

pub record NorFlashLaws {F : Type 0} (nor : NorFlash F) : Type 0 where
  pub cells : F → Cells
  pub erase_size_pos : 0 < nor.erase_size
  pub write_size_pos : 0 < nor.write_size
  pub read_keeps : (a n : ℕ) (f : F) → cells (nor.read a n f).1 ≡ cells f
  pub read_length : (a n : ℕ) (f : F) (bs : List ℕ) → (nor.read a n f).0 ≡ some bs → length bs ≡ n
  pub read_holds :
      (a n : ℕ) (f : F) (bs : List ℕ) → (nor.read a n f).0 ≡ some bs → Holds (cells f) a bs
  pub erase_clears :
      (a n : ℕ) (f : F)
      → (nor.erase a (a + n) f).0 ≡ some tt
      → IsErased (cells (nor.erase a (a + n) f).1) a n
  pub erase_frame : (a n : ℕ) (f : F) → SameOutside (cells f) (cells (nor.erase a (a + n) f).1) a n
  pub program_stores :
      (a : ℕ) (bs : List ℕ) (f : F)
      → (nor.program a bs f).0 ≡ some tt
      → IsErased (cells f) a (length bs)
      → Holds (cells (nor.program a bs f).1) a bs
  pub program_frame :
      (a : ℕ) (bs : List ℕ) (f : F)
      → SameOutside (cells f) (cells (nor.program a bs f).1) a (length bs)
