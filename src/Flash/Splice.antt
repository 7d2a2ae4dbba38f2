-- ===== src/Flash/Splice.antt =====
-- Parts of a slice of flash, and a slice over a part of which bytes were stored.
use espbewi.Common.{
  ℕ, ◌+◌, ◌-◌, ◌≤◌, ◌≡◌, sym, ap, ◌∙◌, inl, inr, List, ◌++◌, arith, length, take, drop, length-drop,
  take-length, take-append, drop-append,
}
use espbewi.Flash.Laws.{Cells, SameOutside}
use espbewi.Flash.Slices.{slice, slice_cong, slice-append, length-slice}

-- A part of a slice.
pub take-drop-slice :
    (c : Cells) (a n skip want : ℕ)
    → skip + want ≤ n
    → take want (drop skip (slice c a n)) ≡ slice c (a + skip) want
take-drop-slice c a n skip want h =
    let shape : n ≡ skip + (want + (n - skip - want)) = omega arith in
    rw shape (
      rw
        (
          slice-append c a skip (want + (n - skip - want)),
          drop-append skip (slice c a skip) (slice c (a + skip) (want + (n - skip - want)))
              (length-slice c a skip),
          slice-append c (a + skip) want (n - skip - want),
        )
        (take-append want (slice c (a + skip) want) (slice c (a + skip + want) (n - skip - want))
          (length-slice c (a + skip) want)))

abbrev pub overlay : ℕ → List ℕ → List ℕ → List ℕ
overlay o xs ys = take o ys ++ (xs ++ drop (o + length xs) ys)

module _ (c : Cells) (a : ℕ) where
  pub take-slice : (m n : ℕ) → m ≤ n → take m (slice c a n) ≡ slice c a m
  take-slice m n h =
      take-drop-slice c a n 0 m (omega (arith, h)) ∙ ap (λ b. slice c b m) (omega arith)

  pub drop-slice : (k n : ℕ) → k ≤ n → drop k (slice c a n) ≡ slice c (a + k) (n - k)
  drop-slice k n h =
      sym (
        take-length (n - k) (drop k (slice c a n))
          (omega (arith, length-drop k (slice c a n), length-slice c a n)))
      ∙ take-drop-slice c a n k (n - k) (omega arith)

-- A range in which some bytes were stored, and no others changed.
pub slice-overlay :
    (c d : Cells) (a o n : ℕ) (xs : List ℕ)
    → o + length xs ≤ n
    → SameOutside c d (a + o) (length xs)
    → slice d (a + o) (length xs) ≡ xs
    → slice d a n ≡ overlay o xs (slice c a n)
slice-overlay c d a o n xs inside same stored =
    ap (slice d a) shape
    ∙ slice-append d a o (length xs + (n - (o + length xs)))
    ∙ (λ i. before i ++ behind i)
  where
    shape : n ≡ o + (length xs + (n - (o + length xs)))
    shape = omega arith

    before : slice d a o ≡ take o (slice c a n)
    before =
        slice_cong d c a o (λ j lt. same (a + j) (inl (omega arith)))
        ∙ sym (take-slice c a o n (omega arith))

    tail : slice d (a + o + length xs) (n - (o + length xs)) ≡ drop (o + length xs) (slice c a n)
    tail =
        slice_cong d c (a + o + length xs) (n - (o + length xs))
          (λ j lt. same (a + o + length xs + j) (inr (omega arith)))
        ∙ ap (λ b. slice c b (n - (o + length xs))) (omega arith)
        ∙ sym (drop-slice c a (o + length xs) n inside)

    behind :
        slice d (a + o) (length xs + (n - (o + length xs)))
        ≡ xs ++ drop (o + length xs) (slice c a n)
    behind = slice-append d (a + o) (length xs) (n - (o + length xs)) ∙ (λ i. stored i ++ tail i)
