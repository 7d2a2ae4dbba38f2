-- ===== src/Flash/Leaves.antt =====
-- What a step of a program that drives a flash leaves in it, for any view `cells` of the state.
use espbewi.Common.{ℕ, ◌≡◌, ◌∙◌, List}
use espbewi.Common.Result.{Result, ok}
use espbewi.Common.Exec.{Exec, ◌>>◌}
use espbewi.Flash.Laws.{Cells, SameOutside}
use espbewi.Flash.Slices.{slice}

module _ {S D : Type 0} (cells : S → Cells) where
  -- A step that answers `a` and changes no byte of the flash.
  pub record Answers {A : Type 0} (a : A) (s : S) (out : Result D A × S) : Type 0 where
    pub is_ok : out.0 ≡ ok a
    pub kept : cells out.1 ≡ cells s

  -- A step that succeeds, after which the entry of `size` bytes at `base` is `entry` and only the sector
  -- at `base` differs.
  pub record Leaves (base size : ℕ) (entry : List ℕ) (s : S) (out : Result D (Unit {0}) × S)
      : Type 0 where
    pub is_ok : out.0 ≡ ok tt
    pub holds : slice (cells out.1) base size ≡ entry
    pub frame : SameOutside (cells s) (cells out.1) base 4096

  pub Leaves-next :
      (base size : ℕ) (m k : Exec S D (Unit {0})) (a b : List ℕ) (s : S)
      → Leaves base size a s (m s)
      → Leaves base size b (m s).1 (k (m s).1)
      → Leaves base size b s ((m >> k) s)
  Leaves-next base size m k a b s first second = rw first.is_ok (record {
    is_ok = second.is_ok;
    holds = second.holds;
    frame = λ i out. second.frame i out ∙ first.frame i out;
  })
