-- ===== src/Ota/Otadata/Works.antt =====
-- `execute` on a driver that works: every entry update is committed.
use espbewi.Common.{
  ℕ, ◌+◌, ◌%◌, ◌≤◌, ◌<◌, ◌≡◌, refl, sym, ap, ◌∙◌, Bool, true, not, some, List, arith, take, drop,
  length, replicate,
}
use espbewi.Common.Bytes.{eq_bytes, eq_bytes_refl}
use espbewi.Common.Words.{two_32, add_u32-below}
use espbewi.Common.Exec.{attempt, fail_if, ◌>>=◌, ◌>>◌}
use espbewi.Flash.{NorFlash}
use espbewi.Flash.Laws.{NorFlashLaws, SameOutside}
use espbewi.Flash.Slices.{slice, Holds-slice, IsErased-slice, slice-IsErased}
use espbewi.Flash.Leaves.{Leaves, Leaves-next}
use espbewi.Flash.Splice.{take-drop-slice, overlay, slice-overlay}
use espbewi.Partitions.{TableParser}
use espbewi.BootEntries.{erase_op, program_op, Write, BootCore}
use espbewi.BootEntries.Updates.{IsProgram, Updates}
use espbewi.Ota.Otadata.{verify, program_verified, erase_verified, is_committed, execute_at}

-- A driver that answers: every read, the erase of a sector, the write of whole words.
pub record NorWorks {F : Type 0} (nor : NorFlash F) : Type 0 where
  pub reads : (a n : ℕ) (f : F) → (bytes : List ℕ) × ((nor.read a n f).0 ≡ some bytes)
  pub erases : (a : ℕ) (f : F) → a % 4096 ≡ 0 → (nor.erase a (a + 4096) f).0 ≡ some tt
  pub programs :
      (a : ℕ) (bytes : List ℕ) (f : F)
      → a % 4 ≡ 0
      → length bytes % 4 ≡ 0
      → (nor.program a bytes f).0 ≡ some tt

module _ {F : Type 0} (nor : NorFlash F) (laws : NorFlashLaws nor) (works : NorWorks nor) where
  open laws use {cells}

  pub read-slice : (a n : ℕ) (f : F) → (nor.read a n f).0 ≡ some (slice (cells f) a n)
  read-slice a n f =
      let (bytes, found) = works.reads a n f in
      let whole = laws.read_length a n f bytes found in
      let same : slice (cells f) a n ≡ bytes =
        ap (slice (cells f) a) (sym whole)
        ∙ Holds-slice (cells f) a bytes (laws.read_holds a n f bytes found) in
      found ∙ ap some (sym same)

module _ {F Table E : Type 0} (nor : NorFlash F) (laws : NorFlashLaws nor) (works : NorWorks nor)
    (parser : TableParser F Table) (core : BootCore E) (base : ℕ) (at_sector : base % 4096 ≡ 0)
    (fits : base + 4096 < two_32) (small : core.entry_size ≤ 4096) where
  open laws use {cells}

  -- The read-back of a step that has left `entry`.
  checked-Leaves :
      (good : List ℕ → Bool) (entry : List ℕ) (f g : F)
      → slice (cells g) base core.entry_size ≡ entry
      → good entry ≡ true
      → SameOutside (cells f) (cells g) base 4096
      → Leaves cells base core.entry_size entry f (
          ((attempt (nor.read base core.entry_size) verify) >>= λ back.
          fail_if (not (good back)) verify)
            g)
  checked-Leaves good entry f g same e frame =
      let read = read-slice nor laws works base core.entry_size g in
      let kept = laws.read_keeps base core.entry_size g in
      let passed : good (slice (cells g) base core.entry_size) ≡ true = ap good same ∙ e in
      rw (read, passed)
        (record {
          is_ok = refl;
          holds = ap (λ c. slice c base core.entry_size) kept ∙ same;
          frame = λ i out. ap (λ c. c i) kept ∙ frame i out;
        })

  erase_verified-Leaves :
      (f : F)
      → core.blank ≡ replicate core.entry_size 0xFF
      → Leaves cells base core.entry_size core.blank f
          (erase_verified nor parser core base erase_op f)
  erase_verified-Leaves f blank =
      let answered = works.erases base f at_sector in
      let g = (nor.erase base (base + 4096) f).1 in
      let erased = laws.erase_clears base 4096 f answered in
      let holds : slice (cells g) base core.entry_size ≡ core.blank =
        IsErased-slice (cells g) base core.entry_size (λ j lt. erased j (omega arith))
        ∙ sym blank in
      rw (add_u32-below base 4096 fits) (
        rw answered (
          checked-Leaves (λ back. eq_bytes back core.blank) core.blank f g holds
            (eq_bytes_refl core.blank) (laws.erase_frame base 4096 f)))

  program_verified-Leaves :
      (offset len : ℕ) (bytes : List ℕ) (good : List ℕ → Bool) (before after : List ℕ) (f : F)
      → IsProgram core.entry_size offset (take len bytes) before after
      → slice (cells f) base core.entry_size ≡ before
      → good after ≡ true
      → Leaves cells base core.entry_size after f
          (program_verified nor parser core base (program_op offset len bytes) good f)
  program_verified-Leaves offset len bytes good before after f program same e =
      let xs = take len bytes in
      let aligned = program.aligned in
      let inside = program.inside in
      let answered = works.programs (base + offset) xs f (omega arith) program.whole in
      let blank = slice-IsErased (cells f) (base + offset) (length xs) (
        sym (take-drop-slice (cells f) base core.entry_size offset (length xs) inside)
        ∙ ap (λ ys. take (length xs) (drop offset ys)) same
        ∙ program.erased) in
      let g = (nor.program (base + offset) xs f).1 in
      let frame = laws.program_frame (base + offset) xs f in
      let stored =
        Holds-slice (cells g) (base + offset) xs
          (laws.program_stores (base + offset) xs f answered blank) in
      let holds : slice (cells g) base core.entry_size ≡ after =
        slice-overlay (cells f) (cells g) base offset core.entry_size xs inside frame stored
        ∙ ap (overlay offset xs) same
        ∙ program.result in
      rw (add_u32-below base offset (omega arith)) (
        rw answered
          (checked-Leaves good after f g holds e (λ i out. frame i (omega (arith, out, inside)))))

  pub execute_at-Leaves :
      (write : Write E) (f : F)
      → Updates core write
      → Leaves cells base core.entry_size
          (core.encode write.entry)
          f
          (execute_at nor parser core base write f)
  execute_at-Leaves write f updates =
      let erase = erase_verified nor parser core base erase_op in
      let body =
        program_verified nor parser core base
          (program_op updates.body_at updates.body_len updates.body_bytes)
          (λ back. eq_bytes back (core.body write.entry)) in
      let commit =
        program_verified nor parser core base
          (program_op updates.commit_at updates.commit_len updates.commit_bytes)
          (is_committed nor parser core write.entry) in
      let erased = erase_verified-Leaves f updates.blank_bytes in
      let bodied = Leaves-next cells base core.entry_size erase body _ _ f erased (
        program_verified-Leaves updates.body_at updates.body_len updates.body_bytes _ core.blank
          (core.body write.entry) (erase f).1 updates.body_program erased.holds
          (eq_bytes_refl (core.body write.entry))) in
      let committed : is_committed nor parser core write.entry (core.encode write.entry) ≡ true =
        rw (eq_bytes_refl (core.encode write.entry)) updates.reads_back in
      let all = Leaves-next cells base core.entry_size (erase >> body) commit _ _ f bodied (
        program_verified-Leaves updates.commit_at updates.commit_len updates.commit_bytes _
          (core.body write.entry) (core.encode write.entry) ((erase >> body) f).1
          updates.commit_program bodied.holds committed) in
      rw updates.commands all
