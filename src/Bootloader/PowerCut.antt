-- ===== src/Bootloader/PowerCut.antt =====
-- An entry update that is cut off: what the next boot reads.
use espbewi.Common.{
  ℕ, zero, suc, ◌+◌, ◌*◌, ◌<◌, ◌≡◌, ◌⊎◌, inl, inr, refl, sym, subst, ap, ◌∙◌, none, List, [], arith,
  get_or,
}
use espbewi.Common.Result.{ok}
use espbewi.Flash.Laws.{SameOutside}
use espbewi.Flash.Slices.{slice}
use espbewi.Boot.{Rom}
use espbewi.Boot.Laws.{RomLaws, IsReadable}
use espbewi.Boot.Programs.{IsWritable}
use espbewi.BootEntries.{Write, BootCore}
use espbewi.BootEntries.Updates.{IsPlanned}
use espbewi.BootEntries.Entries.{replace_at, entries_in, entries_in-replace_at}
use espbewi.Bootloader.{Layout}
use espbewi.Bootloader.Stages.{base_of, read_otadata}
use espbewi.Bootloader.Committed.{cut_after, left_after, cut_after-Leaves}
use espbewi.Bootloader.Reaches.{IsPlaced, read_otadata-Answers, base_of-sector}

-- Without its commit word an entry does not decode.
pub record IsOpen {E : Type 0} (core : BootCore E) (write : Write E) : Type 0 where
  pub blank_none : core.decode core.blank ≡ none
  pub body_none : core.decode (core.body write.entry) ≡ none

-- The old entry, one that does not decode, or the new one.
abbrev pub IsOneOf : {E : Type 0} → BootCore E → Write E → List ℕ → List ℕ → Type 0
IsOneOf core write old x = (x ≡ old) ⊎ (core.decode x ≡ none) ⊎ (x ≡ core.encode write.entry)

module _ {S E : Type 0} (rom : Rom S) (laws : RomLaws rom) (readable : IsReadable rom)
    (writable : IsWritable rom laws)
    (size_keeps : (size : ℕ) (s : S) → laws.cells (rom.set_chip_size size s) ≡ laws.cells s)
    (core : BootCore E) (write : Write E) (layout : Layout) where
  open laws use {cells}

  old_entry :
      (s : S)
      → write.sector < 2
      → slice (cells s) (layout.otadata.0 + write.sector * 4096) core.entry_size
        ≡ get_or (entries_in core layout.otadata.0 (cells s)) write.sector []
  old_entry s two = at write.sector two
    where
      at :
          (k : ℕ)
          → k < 2
          → slice (cells s) (layout.otadata.0 + k * 4096) core.entry_size
            ≡ get_or (entries_in core layout.otadata.0 (cells s)) k []
      at zero h = ap (λ a. slice (cells s) a core.entry_size) (omega arith)
      at (suc zero) h = ap (λ a. slice (cells s) a core.entry_size) (omega arith)
      at (suc (suc k)) h = absurd (omega arith)

  left_after-IsOneOf :
      (n : ℕ) (old : List ℕ)
      → IsOpen core write
      → IsOneOf core write old (left_after rom core write layout n old)
  left_after-IsOneOf zero old open_entry = inl refl
  left_after-IsOneOf (suc zero) old open_entry = inl refl
  left_after-IsOneOf (suc (suc zero)) old open_entry = inr (inl open_entry.blank_none)
  left_after-IsOneOf (suc (suc (suc zero))) old open_entry = inr (inl open_entry.body_none)
  left_after-IsOneOf (suc (suc (suc (suc n)))) old open_entry = inr (inr refl)

  -- On a driver that works, an update of one of two entries in sectors below the end of the 32-bit
  -- addresses, with commands as documented and entries that do not decode without their commit word,
  -- is cut off behind any of its steps. Then the next boot, from any state with that flash, reads the
  -- other entry as it was, and in the place of the updated one the old entry, one that does not decode,
  -- or the new one; and no byte outside the two sectors differs.
  pub cut_after-IsOneOf :
      (n : ℕ) (s next_boot : S)
      → IsPlaced layout
      → IsPlanned core write
      → IsOpen core write
      → cells next_boot ≡ cells (cut_after rom core write layout n s).1
      → let raws = entries_in core layout.otadata.0 (cells s) in
        (x : List ℕ) × ((read_otadata rom core layout next_boot).0
          ≡ ok (replace_at write.sector x raws))
        × IsOneOf core write (get_or raws write.sector []) x
        × SameOutside (cells s) (cells next_boot) layout.otadata.0 8192
  cut_after-IsOneOf n s next_boot placed (two, updates) open_entry same =
      let fits = placed.fits in
      let at_sector = placed.at_sector in
      let small = updates.small in
      let base = base_of-sector rom laws readable writable core layout placed write two in
      let x =
        left_after rom core write layout n
          (slice (cells s) (base_of rom core write layout) core.entry_size) in
      let left =
        cut_after-Leaves rom laws readable writable core write layout (omega (arith, base))
          (omega (arith, base)) updates s n in
      let out = (cut_after rom core write layout n s).1 in
      let read =
        read_otadata-Answers rom laws readable size_keeps core small layout next_boot placed in
      let holds : slice (cells out) (layout.otadata.0 + write.sector * 4096) core.entry_size ≡ x =
        ap (λ a. slice (cells out) a core.entry_size) (sym base) ∙ left.holds in
      let entries : entries_in core layout.otadata.0 (cells out)
          ≡ replace_at write.sector x (entries_in core layout.otadata.0 (cells s)) =
        entries_in-replace_at core layout.otadata.0 small write.sector x (cells s) (cells out) two
          holds (λ i outside. left.frame i (omega (arith, base, outside))) in
      let old = ap (λ a. slice (cells s) a core.entry_size) base ∙ old_entry s two in
      (
        x,
        read.is_ok ∙ ap (λ c. ok (entries_in core layout.otadata.0 c)) same ∙ ap ok entries,
        subst (λ o. IsOneOf core write o x) old (left_after-IsOneOf n _ open_entry),
        λ i outside. ap (λ c. c i) same ∙ left.frame i (omega (arith, base, outside)),
      )
