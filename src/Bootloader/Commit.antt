-- ===== src/Bootloader/Commit.antt =====
-- `execute`: what an entry update of the bootloader leaves in the flash.
use espbewi.Common.{
  ℕ, ◌+◌, ◌≤◌, ◌≡◌, sym, ap, ◌∙◌, inl, inr, Bool, true, not, List, arith, take, Bool-cases,
}
use espbewi.Common.Bytes.{eq_bytes, eq_bytes_iff}
use espbewi.Common.Words.{two_32, add_u32}
use espbewi.Common.Result.{ok, Result-cases}
use espbewi.Common.Exec.{fail_if, map_err, bind_ok, ◌>>◌}
use espbewi.Flash.Slices.{slice}
use espbewi.Boot
use espbewi.Boot.{Rom, flash_program, flash_unlock}
use espbewi.Boot.Laws.{RomLaws}
use espbewi.Boot.Reads.{flash_read-slice, flash_read-keeps}
use espbewi.BootEntries.{Op, erase_op, program_op, Write, BootCore}
use espbewi.Bootloader.{BootError, otadata_write, Layout}
use espbewi.Bootloader.Stages.{
  flash_read, checked_read, program_verified, erase_verified, is_committed, base_of, execute,
}

module _ {S E : Type 0} (rom : Rom S) (laws : RomLaws rom) (core : BootCore E) where
  open laws use {cells}

  read_back :
      (base : ℕ) (s : S) (back : List ℕ)
      → base + core.entry_size ≤ two_32
      → (flash_read rom base core.entry_size s).0 ≡ ok back
      → (back ≡ slice (cells s) base core.entry_size)
        × (cells (flash_read rom base core.entry_size s).1 ≡ cells s)
  unfolding flash_read
  read_back base s back fits e =
      elim (Result-cases (Boot.flash_read rom base core.entry_size s).0) [
        | inl (bytes, found) ↦
            let e' = rw found at e in
            let same : bytes ≡ back = cc in
            (
              sym same ∙ flash_read-slice rom laws base core.entry_size s bytes fits found,
              flash_read-keeps rom laws base core.entry_size s,
            )
        | inr (c, failed) ↦ let e' = rw failed at e in absurd (cc)
      ]

  checked_read_ok :
      (base : ℕ) (c : BootError) (good : List ℕ → Bool) (s : S)
      → base + core.entry_size ≤ two_32
      → (checked_read rom core base c good s).0 ≡ ok tt
      → good (slice (cells (checked_read rom core base c good s).1) base core.entry_size) ≡ true
  checked_read_ok base c good s fits e =
      let (back, read, run) =
        bind_ok (flash_read rom base core.entry_size) (λ back. fail_if (not (good back)) c) s tt
          e in
      let e' = rw run at e in
      let (same, kept) = read_back base s back fits read in
      rw run (rw kept (rw (← same) (ground arith)))

  program_verified_ok :
      (base : ℕ) (c : BootError) (op : Op) (good : List ℕ → Bool) (s : S)
      → base + core.entry_size ≤ two_32
      → (program_verified rom core base c op good s).0 ≡ ok tt
      → good (slice (cells (program_verified rom core base c op good s).1) base core.entry_size)
        ≡ true
  program_verified_ok base c erase_op good s fits e = absurd (cc)
  program_verified_ok base c (program_op offset len bytes) good s fits e =
      let program = map_err (λ _. c) (flash_program rom (add_u32 base offset) (take len bytes)) in
      let (a, programmed, run) = bind_ok program (λ _. checked_read rom core base c good) s tt e in
      let e' = rw run at e in rw run (checked_read_ok base c good (program s).1 fits e')

  committed_parts :
      (back : List ℕ) (entry : E)
      → is_committed rom core entry back ≡ true
      → (back ≡ core.encode entry) × (core.entry_eq (core.decode (core.encode entry)) entry ≡ true)
  committed_parts back entry h = elim (Bool-cases (eq_bytes back (core.encode entry))) [
    | inr differs ↦ let h' = rw differs at h in absurd (cc)
    | inl equal ↦
        let same = (eq_bytes_iff back (core.encode entry)).0 equal in
        let h' = rw equal at h in
        (same, ap (λ raw. core.entry_eq (core.decode raw) entry) (sym same) ∙ h')
  ]

  -- If `execute` of the bootloader answers `Ok` for a sector below the end of the 32-bit addresses,
  -- the sector holds exactly the encoded entry, and decoding what it holds yields the entry:
  -- whatever the erase and program commands were and did.
  pub execute-slice :
      (write : Write E) (layout : Layout) (s : S)
      → base_of rom core write layout + core.entry_size ≤ two_32
      → (execute rom core write layout s).0 ≡ ok tt
      → (slice
            (cells (execute rom core write layout s).1)
            (base_of rom core write layout)
            core.entry_size
          ≡ core.encode write.entry)
        × (core.entry_eq (core.decode (core.encode write.entry)) write.entry ≡ true)
  unfolding execute
  execute-slice write layout s fits e =
      let base = base_of rom core write layout in
      let (erase, body, commit) = core.ops write in
      let before_commit =
        map_err (λ _. otadata_write 0 base) (flash_unlock rom)
        >> erase_verified rom core base (otadata_write 0 base) erase
        >> program_verified rom core base (otadata_write 1 base) body
            (λ back. eq_bytes back (core.body write.entry)) in
      let last =
        program_verified rom core base (otadata_write 2 base) commit
          (is_committed rom core write.entry) in
      let (a, prepared, run) = bind_ok before_commit (λ _. last) s tt e in
      let e' = rw run at e in
      let good =
        program_verified_ok base (otadata_write 2 base) commit (is_committed rom core write.entry)
          (before_commit s).1 fits e' in
      rw run (
        committed_parts (slice (cells (last (before_commit s).1).1) base core.entry_size)
          write.entry good)
