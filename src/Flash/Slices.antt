-- ===== src/Flash/Slices.antt =====
-- A range of flash as the list of its bytes.
use espbewi.Common.{
  ℕ, zero, suc, ◌+◌, ◌<◌, ◌≡◌, refl, ap, sym, ◌∙◌, List, [], ◌∷◌, ◌++◌, arith, length, get_or,
  replicate, get_or-replicate,
}
use espbewi.Flash.Laws.{Cells, Holds, IsErased}

-- The `n` bytes from address `a` on.
abbrev pub slice : Cells → ℕ → ℕ → List ℕ
slice cells a zero = []
slice cells a (suc n) = cells a ∷ slice cells (a + 1) n

pub length-slice : (cells : Cells) (a n : ℕ) → length (slice cells a n) ≡ n
length-slice cells a zero = refl
length-slice cells a (suc n) = ap suc (length-slice cells (a + 1) n)

pub get_or-slice :
    (cells : Cells) (a n j d : ℕ) → j < n → get_or (slice cells a n) j d ≡ cells (a + j)
get_or-slice cells a zero j d h = absurd (omega arith)
get_or-slice cells a (suc n) zero d h = ap cells (omega arith)
get_or-slice cells a (suc n) (suc j) d h =
    get_or-slice cells (a + 1) n j d (omega arith) ∙ ap cells (omega arith)

pub Holds-slice :
    (cells : Cells) (a : ℕ) (bs : List ℕ) → Holds cells a bs → slice cells a (length bs) ≡ bs
Holds-slice cells a [] h = refl
Holds-slice cells a (b ∷ bs) h = λ i. first i ∷ Holds-slice cells (a + 1) bs rest i
  where
    first : cells a ≡ b
    first = ap cells (omega arith) ∙ h 0 (omega arith)

    rest : Holds cells (a + 1) bs
    rest j lt = ap cells (omega arith) ∙ h (suc j) (omega arith)

pub IsErased-slice :
    (cells : Cells) (a n : ℕ) → IsErased cells a n → slice cells a n ≡ replicate n 0xFF
IsErased-slice cells a zero h = refl
IsErased-slice cells a (suc n) h = λ i. first i ∷ IsErased-slice cells (a + 1) n rest i
  where
    first : cells a ≡ 0xFF
    first = ap cells (omega arith) ∙ h 0 (omega arith)

    rest : IsErased cells (a + 1) n
    rest j lt = ap cells (omega arith) ∙ h (suc j) (omega arith)

pub slice-IsErased :
    (cells : Cells) (a n : ℕ) → slice cells a n ≡ replicate n 0xFF → IsErased cells a n
slice-IsErased cells a n e j lt =
    sym (get_or-slice cells a n j 0 lt)
    ∙ ap (λ bs. get_or bs j 0) e
    ∙ get_or-replicate n j 0xFF 0 lt

-- Slices agree where the cells do.
pub slice_cong :
    (c d : Cells) (a n : ℕ) → ((j : ℕ) → j < n → c (a + j) ≡ d (a + j)) → slice c a n ≡ slice d a n
slice_cong c d a zero h = refl
slice_cong c d a (suc n) h = λ i. first i ∷ slice_cong c d (a + 1) n rest i
  where
    first : c a ≡ d a
    first = ap c (omega arith) ∙ h 0 (omega arith) ∙ ap d (omega arith)

    rest : (j : ℕ) → j < n → c (a + 1 + j) ≡ d (a + 1 + j)
    rest j lt = ap c (omega arith) ∙ h (suc j) (omega arith) ∙ ap d (omega arith)

pub slice-append :
    (cells : Cells) (a m n : ℕ) → slice cells a (m + n) ≡ slice cells a m ++ slice cells (a + m) n
slice-append cells a zero n = λ i. slice cells (shift i) (count i)
  where
    shift : a ≡ a + 0
    shift = omega arith

    count : 0 + n ≡ n
    count = omega arith
slice-append cells a (suc m) n =
    ap (slice cells a) (count)
    ∙ ap (λ xs. cells a ∷ xs)
        (slice-append cells (a + 1) m n ∙ ap (λ b. slice cells (a + 1) m ++ slice cells b n) shift)
  where
    count : suc m + n ≡ suc (m + n)
    count = omega arith

    shift : a + 1 + m ≡ a + suc m
    shift = omega arith
