-- ===== src/BootEntries/Entries.antt =====
-- The two boot entries in the flash, one at the start of each of two sectors.
use espbewi.Common.{
  ℕ, zero, suc, ◌+◌, ◌*◌, ◌≤◌, ◌<◌, ◌≡◌, sym, ap, ◌∙◌, inl, inr, List, [], ◌∷◌, arith,
}
use espbewi.Flash.Laws.{Cells, SameOutside}
use espbewi.Flash.Slices.{slice, slice_cong}
use espbewi.BootEntries.{Write, BootCore}

-- The list with another element at a place.
abbrev pub replace_at : ℕ → List ℕ → List (List ℕ) → List (List ℕ)
replace_at i x [] = []
replace_at zero x (y ∷ ys) = x ∷ ys
replace_at (suc i) x (y ∷ ys) = y ∷ replace_at i x ys

-- The entries when the updates of a plan are made, in their order.
unfoldable pub replace_all :
    {E : Type 0} → BootCore E → List (Write E) → List (List ℕ) → List (List ℕ)
replace_all core [] raws = raws
replace_all core (write ∷ writes) raws =
    replace_all core writes (replace_at write.sector (core.encode write.entry) raws)

-- The two entries in the flash.
abbrev pub entries_in : {E : Type 0} → BootCore E → ℕ → Cells → List (List ℕ)
entries_in core start c =
    slice c start core.entry_size ∷ slice c (start + 4096) core.entry_size ∷ []

module _ {E : Type 0} (core : BootCore E) (start : ℕ) (small : core.entry_size ≤ 4096) where
  -- The entries when one sector holds `x` and the other is as before.
  pub entries_in-replace_at :
      (k : ℕ) (x : List ℕ) (a b : Cells)
      → k < 2
      → slice b (start + k * 4096) core.entry_size ≡ x
      → SameOutside a b (start + k * 4096) 4096
      → entries_in core start b ≡ replace_at k x (entries_in core start a)
  entries_in-replace_at zero x a b two holds same =
      let here : start + 0 * 4096 ≡ start = omega arith in
      let first : slice b start core.entry_size ≡ x =
        ap (λ i. slice b i core.entry_size) (sym here) ∙ holds in
      let second : slice b (start + 4096) core.entry_size ≡ slice a (start + 4096) core.entry_size =
        slice_cong b a (start + 4096) core.entry_size
          (λ j lt. same (start + 4096 + j) (inr (omega arith))) in
      λ i. first i ∷ second i ∷ []
  entries_in-replace_at (suc zero) x a b two holds same =
      let here : start + 1 * 4096 ≡ start + 4096 = omega arith in
      let second : slice b (start + 4096) core.entry_size ≡ x =
        ap (λ i. slice b i core.entry_size) (sym here) ∙ holds in
      let first : slice b start core.entry_size ≡ slice a start core.entry_size =
        slice_cong b a start core.entry_size (λ j lt. same (start + j) (inl (omega arith))) in
      λ i. first i ∷ second i ∷ []
  entries_in-replace_at (suc (suc k)) x a b two holds same = absurd (omega arith)
