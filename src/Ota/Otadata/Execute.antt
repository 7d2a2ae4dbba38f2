-- ===== src/Ota/Otadata/Execute.antt =====
-- `execute`: what an entry update leaves in the flash.
use espbewi.Common.{
  ℕ, ◌+◌, ◌*◌, ◌≤◌, ◌<◌, ◌≡◌, refl, sym, ap, ◌∙◌, ◌⊎◌, inl, inr, Bool, true, not, List, arith, take,
  length-take, Bool-cases, Option-cases,
}
use espbewi.Common.Bytes.{eq_bytes, eq_bytes_iff}
use espbewi.Common.Words.{two_32, add_u32}
use espbewi.Common.Result.{ok}
use espbewi.Common.Exec.{Exec, attempt, fail_if, Keeps, bind_ok, bind-Keeps, ◌>>=◌, ◌>>◌}
use espbewi.Flash.{NorFlash}
use espbewi.Flash.Laws.{NorFlashLaws}
use espbewi.Flash.Slices.{slice, Holds-slice}
use espbewi.Partitions.{TableParser}
use espbewi.BootEntries.{Op, erase_op, program_op, Write, BootCore}
use espbewi.Ota.Otadata.{
  Error, verify, sector_size, read_at, program_verified, erase_verified, is_committed, execute_at,
  execute,
}

module _ {F Table E : Type 0} (nor : NorFlash F) (laws : NorFlashLaws nor)
    (parser : TableParser F Table) (core : BootCore E) where
  open laws use {cells}

  -- A verified read-back.
  abbrev checked_read : ℕ → (List ℕ → Bool) → Exec F Error (Unit {0})
  checked_read base good = do
    back ← attempt (nor.read base core.entry_size) verify
    fail_if (not (good back)) verify

  checked_read_ok :
      (base : ℕ) (good : List ℕ → Bool) (f : F)
      → (checked_read base good f).0 ≡ ok tt
      → good (slice (cells (checked_read base good f).1) base core.entry_size) ≡ true
  checked_read_ok base good f e = elim (Option-cases (nor.read base core.entry_size f).0) [
    | inl failed ↦ let e' = rw failed at e in absurd (cc)
    | inr (back, found) ↦
        let e' = rw found at e in
        let whole = laws.read_length base core.entry_size f back found in
        let same =
          ap (slice (cells f) base) (sym whole)
          ∙ Holds-slice (cells f) base back (laws.read_holds base core.entry_size f back found) in
        rw found (rw (laws.read_keeps base core.entry_size f) (rw same (ground arith)))
  ]

  program_verified_ok :
      (base : ℕ) (op : Op) (good : List ℕ → Bool) (f : F)
      → (program_verified nor parser core base op good f).0 ≡ ok tt
      → good
          (slice (cells (program_verified nor parser core base op good f).1) base core.entry_size)
        ≡ true
  program_verified_ok base erase_op good f e = absurd (cc)
  program_verified_ok base (program_op offset len bytes) good f e =
      let (a, programmed, run) =
        bind_ok (attempt (nor.program (add_u32 base offset) (take len bytes)) verify)
          (λ _. checked_read base good) f tt e in
      let e' = rw run at e in
      rw run (checked_read_ok base good (nor.program (add_u32 base offset) (take len bytes) f).1 e')

  -- The three verified commands of an update, the last one alone.
  execute_at_ok :
      (base : ℕ) (write : Write E) (f : F)
      → (execute_at nor parser core base write f).0 ≡ ok tt
      → is_committed nor parser core write.entry
          (slice (cells (execute_at nor parser core base write f).1) base core.entry_size)
        ≡ true
  execute_at_ok base write f e =
      let (erase, body, commit) = core.ops write in
      let before_commit =
        erase_verified nor parser core base erase
        >> program_verified nor parser core base body
            (λ back. eq_bytes back (core.body write.entry)) in
      let (a, prepared, run) =
        bind_ok before_commit
          (λ _.
            program_verified nor parser core base commit (is_committed nor parser core write.entry))
          f tt e in
      let e' = rw run at e in
      rw run (
        program_verified_ok base commit (is_committed nor parser core write.entry)
          (before_commit f).1 e')

  -- The address of the sector that `execute` updates, of the entries' partition at `start`.
  abbrev pub sector_at : ℕ → Write E → ℕ
  sector_at start write = add_u32 start (write.sector * sector_size)

  execute_run :
      (write : Write E) (f : F) (start : ℕ) (raws : List (List ℕ))
      → (read_at nor parser core f).0 ≡ ok (start, raws)
      → execute nor parser core write f
        ≡ execute_at nor parser core (sector_at start write) write (read_at nor parser core f).1
  unfolding execute
  execute_run write f start raws e = rw e refl

  -- If `execute` answers `Ok`, the sector of the update holds exactly the encoded entry, and
  -- decoding what it holds yields the entry: by the laws of reading alone, whatever the erase and
  -- program commands were and did.
  pub execute-IsCommitted :
      (write : Write E) (f : F) (start : ℕ) (raws : List (List ℕ))
      → (read_at nor parser core f).0 ≡ ok (start, raws)
      → (execute nor parser core write f).0 ≡ ok tt
      → (slice (cells (execute nor parser core write f).1) (sector_at start write) core.entry_size
          ≡ core.encode write.entry)
        × (core.entry_eq (core.decode (core.encode write.entry)) write.entry ≡ true)
  execute-IsCommitted write f start raws located e =
      let run = execute_run write f start raws located in
      let f' = (read_at nor parser core f).1 in
      let base = sector_at start write in
      let answered = rw run at e in
      let committed = execute_at_ok base write f' answered in
      rw run (
        committed_parts
          (slice (cells (execute_at nor parser core base write f').1) base core.entry_size)
          write.entry committed)
    where
      committed_parts :
          (back : List ℕ) (entry : E)
          → is_committed nor parser core entry back ≡ true
          → (back ≡ core.encode entry)
            × (core.entry_eq (core.decode (core.encode entry)) entry ≡ true)
      committed_parts back entry h = elim (Bool-cases (eq_bytes back (core.encode entry))) [
        | inr differs ↦ let h' = rw differs at h in absurd (cc)
        | inl equal ↦
            let same = (eq_bytes_iff back (core.encode entry)).0 equal in
            let h' = rw equal at h in
            (same, ap (λ raw. core.entry_eq (core.decode raw) entry) (sym same) ∙ h')
      ]

  -- A program command that stays in the sector.
  abbrev pub IsInSector : Op → Type 0
  IsInSector erase_op = Unit
  IsInSector (program_op offset len bytes) = offset + len ≤ sector_size

  -- A byte outside the sector of an update, which has no wrap-around.
  module _ (base i : ℕ) (fits : base + sector_size < two_32)
      (out : (i < base) ⊎ (base + sector_size ≤ i)) where
    abbrev cell : F → ℕ
    cell f = cells f i

    checked_read-Keeps : (good : List ℕ → Bool) → Keeps cell (checked_read base good)
    checked_read-Keeps good =
        bind-Keeps cell (attempt (nor.read base core.entry_size) verify)
          (λ back. fail_if (not (good back)) verify)
          (λ f. ap (λ c. c i) (laws.read_keeps base core.entry_size f)) (λ back f. refl)

    program_verified-Keeps :
        (op : Op) (good : List ℕ → Bool)
        → IsInSector op
        → Keeps cell (program_verified nor parser core base op good)
    program_verified-Keeps erase_op good inside = λ f. refl
    program_verified-Keeps (program_op offset len bytes) good inside =
        bind-Keeps cell (attempt (nor.program (add_u32 base offset) (take len bytes)) verify)
          (λ _. checked_read base good)
          (λ f.
            laws.program_frame (add_u32 base offset) (take len bytes) f i
              (omega (arith, length-take len bytes)))
          (λ _. checked_read-Keeps good)

    erase_verified-Keeps : (op : Op) → Keeps cell (erase_verified nor parser core base op)
    erase_verified-Keeps (program_op offset len bytes) = λ f. refl
    erase_verified-Keeps erase_op =
        bind-Keeps cell (attempt (nor.erase base (add_u32 base sector_size)) verify)
          (λ _. checked_read base (λ back. eq_bytes back core.blank))
          (λ f.
            let end : add_u32 base sector_size ≡ base + sector_size = omega arith in
            rw end (laws.erase_frame base sector_size f i out))
          (λ _. checked_read-Keeps (λ back. eq_bytes back core.blank))

    execute_at-Keeps :
        (write : Write E)
        → IsInSector (core.ops write).1
        → IsInSector (core.ops write).2
        → Keeps cell (execute_at nor parser core base write)
    execute_at-Keeps write body_inside commit_inside =
        let (erase, body, commit) = core.ops write in
        bind-Keeps cell
          (erase_verified nor parser core base erase
            >> program_verified nor parser core base body
                (λ back. eq_bytes back (core.body write.entry)))
          (λ _.
            program_verified nor parser core base commit (is_committed nor parser core write.entry))
          (bind-Keeps cell (erase_verified nor parser core base erase)
            (λ _.
              program_verified nor parser core base body
                (λ back. eq_bytes back (core.body write.entry)))
            (erase_verified-Keeps erase)
            (λ _.
              program_verified-Keeps body (λ back. eq_bytes back (core.body write.entry))
                body_inside))
          (λ _.
            program_verified-Keeps commit (is_committed nor parser core write.entry) commit_inside)

  -- Whatever `execute` answers, a byte outside the sector of the update, of the entries' partition
  -- as `read_at` finds it, is what it was: where the program commands stay in the sector, the sector
  -- ends below the end of the 32-bit addresses, and reading the entries changed no byte.
  pub execute_frame :
      (write : Write E) (f : F) (start : ℕ) (raws : List (List ℕ)) (i : ℕ)
      → (read_at nor parser core f).0 ≡ ok (start, raws)
      → cells (read_at nor parser core f).1 ≡ cells f
      → IsInSector (core.ops write).1
      → IsInSector (core.ops write).2
      → sector_at start write + sector_size < two_32
      → (i < sector_at start write) ⊎ (sector_at start write + sector_size ≤ i)
      → cells (execute nor parser core write f).1 i ≡ cells f i
  execute_frame write f start raws i located kept body_inside commit_inside fits out =
      let run = execute_run write f start raws located in
      rw run (
        execute_at-Keeps (sector_at start write) i fits out write body_inside commit_inside
          (read_at nor parser core f).1
        ∙ ap (λ c. c i) kept)
