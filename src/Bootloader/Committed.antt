-- ===== src/Bootloader/Committed.antt =====
-- `execute` on a driver that works: every entry update is committed.
use espbewi.Common.{
  ℕ, zero, suc, ◌+◌, ◌*◌, ◌/◌, ◌%◌, ◌≤◌, ◌<◌, ◌≡◌, refl, sym, ap, ◌∙◌, Bool, true, List, arith,
  take, drop, length, replicate,
}
use espbewi.Common.Bytes.{eq_bytes, eq_bytes_refl}
use espbewi.Common.Words.{two_32, add_u32-below}
use espbewi.Common.Result.{Result, ok}
use espbewi.Common.Exec.{Exec, pure, map_err, ◌>>◌}
use espbewi.Flash.Laws.{SameOutside}
use espbewi.Flash.Slices.{slice, IsErased-slice, slice-IsErased}
use espbewi.Boot.{Rom, flash_program, flash_unlock, flash_erase_sector}
use espbewi.Boot.Laws.{RomLaws, IsReadable}
use espbewi.Boot.Reads.{flash_read_total, flash_read-keeps}
use espbewi.Boot.Programs.{IsWritable, flash_program_total}
use espbewi.BootEntries.{Op, erase_op, program_op, Write, BootCore}
use espbewi.Bootloader.{BootError, otadata_write, sector, Layout}
use espbewi.Flash.Leaves.{Leaves, Leaves-next}
use espbewi.Flash.Splice.{take-drop-slice, overlay, slice-overlay}
use espbewi.BootEntries.Updates.{IsProgram, Updates}
use espbewi.Bootloader.Stages.{
  flash_read, checked_read, program_verified, erase_verified, is_committed, base_of, execute,
}

module _ {S E : Type 0} (rom : Rom S) (laws : RomLaws rom) (readable : IsReadable rom)
    (writable : IsWritable rom laws) (core : BootCore E) (base : ℕ) (at_sector : base % 4096 ≡ 0)
    (fits : base + 4096 < two_32) (small : core.entry_size ≤ 4096) where
  open laws use {cells}

  checked_read-Leaves :
      (c : BootError) (good : List ℕ → Bool) (entry : List ℕ) (s : S)
      → slice (cells s) base core.entry_size ≡ entry
      → good entry ≡ true
      → Leaves cells base core.entry_size entry s (checked_read rom core base c good s)
  unfolding flash_read
  checked_read-Leaves c good entry s same e =
      let read = flash_read_total rom laws readable base core.entry_size s (omega arith) in
      let kept = flash_read-keeps rom laws base core.entry_size s in
      let passed : good (slice (cells s) base core.entry_size) ≡ true = ap good same ∙ e in
      rw (read, passed)
        (record {
          is_ok = refl;
          holds = ap (λ f. slice f base core.entry_size) kept ∙ same;
          frame = λ i out. ap (λ f. f i) kept;
        })

  erase_verified-Leaves :
      (c : BootError) (s : S)
      → core.blank ≡ replicate core.entry_size 0xFF
      → Leaves cells base core.entry_size core.blank s (erase_verified rom core base c erase_op s)
  unfolding flash_erase_sector
  erase_verified-Leaves c s blank =
      let (answered, erased) = writable.erases (base / sector) s in
      let start : base / 4096 * 4096 ≡ base = omega arith in
      let s' = (rom.spiflash_erase_sector (base / sector) s).1 in
      let holds : slice (cells s') base core.entry_size ≡ core.blank =
        IsErased-slice (cells s') base core.entry_size
          (λ j lt. ap (λ b. cells s' (b + j)) (sym start) ∙ erased j (omega arith))
        ∙ sym blank in
      let checked =
        checked_read-Leaves c (λ back. eq_bytes back core.blank) core.blank s' holds
          (eq_bytes_refl core.blank) in
      rw answered (record {
        is_ok = checked.is_ok;
        holds = checked.holds;
        frame = λ i out.
            checked.frame i out ∙ laws.erase_frame (base / sector) s i (omega (arith, start, out));
      })

  program_verified-Leaves :
      (c : BootError) (offset len : ℕ) (bytes : List ℕ) (good : List ℕ → Bool)
      (before after : List ℕ) (s : S)
      → IsProgram core.entry_size offset (take len bytes) before after
      → slice (cells s) base core.entry_size ≡ before
      → good after ≡ true
      → Leaves cells base core.entry_size after s
          (program_verified rom core base c (program_op offset len bytes) good s)
  program_verified-Leaves c offset len bytes good before after s program same e =
      let xs = take len bytes in
      let aligned = program.aligned in
      let inside = program.inside in
      let blank = slice-IsErased (cells s) (base + offset) (length xs) (
        sym (take-drop-slice (cells s) base core.entry_size offset (length xs) inside)
        ∙ ap (λ ys. take (length xs) (drop offset ys)) same
        ∙ program.erased) in
      let done =
        flash_program_total rom laws writable (base + offset) xs (omega arith) program.whole
          (omega arith) s blank in
      let s' = (flash_program rom (base + offset) xs s).1 in
      let holds : slice (cells s') base core.entry_size ≡ after =
        slice-overlay (cells s) (cells s') base offset core.entry_size xs inside done.frame
          done.stored
        ∙ ap (overlay offset xs) same
        ∙ program.result in
      let checked = checked_read-Leaves c good after s' holds e in
      rw (add_u32-below base offset (omega arith), done.is_ok)
        (record {
          is_ok = checked.is_ok;
          holds = checked.holds;
          frame = λ i out. checked.frame i out ∙ done.frame i (omega (arith, out, inside));
        })

module _ {S E : Type 0} (rom : Rom S) (core : BootCore E) (write : Write E) (layout : Layout) where
  abbrev base : ℕ
  base = base_of rom core write layout

  abbrev unlock : Exec S BootError (Unit {0})
  unlock = map_err (λ _. otadata_write 0 base) (flash_unlock rom)

  abbrev erase : Op → Exec S BootError (Unit {0})
  erase = erase_verified rom core base (otadata_write 0 base)

  abbrev program_body : Op → Exec S BootError (Unit {0})
  program_body body =
      program_verified rom core base (otadata_write 1 base) body
        (λ back. eq_bytes back (core.body write.entry))

  abbrev commit : Op → Exec S BootError (Unit {0})
  commit op =
      program_verified rom core base (otadata_write 2 base) op (is_committed rom core write.entry)

  -- `execute` up to its step `n`: the unlock, the erase, the body, and the commit word as the last.
  abbrev pub cut_after : ℕ → Exec S BootError (Unit {0})
  cut_after zero = pure tt
  cut_after (suc zero) = unlock
  cut_after (suc (suc zero)) = unlock >> erase (core.ops write).0
  cut_after (suc (suc (suc zero))) =
      unlock >> erase (core.ops write).0 >> program_body (core.ops write).1
  cut_after (suc (suc (suc (suc n)))) = execute rom core write layout

  -- What that leaves of an entry that was `old`.
  abbrev pub left_after : ℕ → List ℕ → List ℕ
  left_after zero old = old
  left_after (suc zero) old = old
  left_after (suc (suc zero)) old = core.blank
  left_after (suc (suc (suc zero))) old = core.body write.entry
  left_after (suc (suc (suc (suc n)))) old = core.encode write.entry

module _ {S E : Type 0} (rom : Rom S) (laws : RomLaws rom) (readable : IsReadable rom)
    (writable : IsWritable rom laws) (core : BootCore E) (write : Write E) (layout : Layout)
    (at_sector : base_of rom core write layout % 4096 ≡ 0)
    (fits : base_of rom core write layout + 4096 < two_32) (updates : Updates core write)
    (s : S) where
  open laws use {cells}

  abbrev at : ℕ
  at = base_of rom core write layout

  abbrev Left : List ℕ → Result BootError (Unit {0}) × S → Type 0
  Left entry = Leaves cells at core.entry_size entry s

  abbrev step_0 : Exec S BootError (Unit {0})
  step_0 = unlock rom core write layout

  abbrev step_1 : Exec S BootError (Unit {0})
  step_1 = erase rom core write layout erase_op

  abbrev step_2 : Exec S BootError (Unit {0})
  step_2 =
      program_body rom core write layout
        (program_op updates.body_at updates.body_len updates.body_bytes)

  abbrev step_3 : Exec S BootError (Unit {0})
  step_3 =
      commit rom core write layout
        (program_op updates.commit_at updates.commit_len updates.commit_bytes)

  unlocked : Left (slice (cells s) at core.entry_size) (step_0 s)
  unfolding flash_unlock
  unlocked = rw (writable.unlocks s) (record {
    is_ok = refl;
    holds = ap (λ f. slice f at core.entry_size) (laws.unlock_keeps s);
    frame = λ i out. ap (λ f. f i) (laws.unlock_keeps s);
  })

  erased : Left core.blank ((step_0 >> step_1) s)
  erased = Leaves-next cells at core.entry_size step_0 step_1 _ _ s unlocked (
      erase_verified-Leaves rom laws readable writable core at at_sector fits updates.small
        (otadata_write 0 at) (step_0 s).1 updates.blank_bytes)

  bodied : Left (core.body write.entry) ((step_0 >> step_1 >> step_2) s)
  bodied = Leaves-next cells at core.entry_size (step_0 >> step_1) step_2 _ _ s erased (
      program_verified-Leaves rom laws readable writable core at at_sector fits updates.small
        (otadata_write 1 at) updates.body_at updates.body_len updates.body_bytes _ core.blank
        (core.body write.entry) ((step_0 >> step_1) s).1 updates.body_program erased.holds
        (eq_bytes_refl (core.body write.entry)))

  committed : Left (core.encode write.entry) ((step_0 >> step_1 >> step_2 >> step_3) s)
  committed =
      let good : is_committed rom core write.entry (core.encode write.entry) ≡ true =
        rw (eq_bytes_refl (core.encode write.entry)) updates.reads_back in
      Leaves-next cells at core.entry_size (step_0 >> step_1 >> step_2) step_3 _ _ s bodied (
        program_verified-Leaves rom laws readable writable core at at_sector fits updates.small
          (otadata_write 2 at) updates.commit_at updates.commit_len updates.commit_bytes _
          (core.body write.entry) (core.encode write.entry) ((step_0 >> step_1 >> step_2) s).1
          updates.commit_program bodied.holds good)

  -- Each step leaves its entry, and only the sector of the update differs.
  pub cut_after-Leaves :
      (n : ℕ)
      → Left
          (left_after rom core write layout n
            (slice (cells s) (base_of rom core write layout) core.entry_size))
          (cut_after rom core write layout n s)
  unfolding execute
  cut_after-Leaves zero = record { is_ok = refl; holds = refl; frame = λ i out. refl }
  cut_after-Leaves (suc zero) = unlocked
  cut_after-Leaves (suc (suc zero)) = rw updates.commands erased
  cut_after-Leaves (suc (suc (suc zero))) = rw updates.commands bodied
  cut_after-Leaves (suc (suc (suc (suc n)))) = rw updates.commands committed

module _ {S E : Type 0} (rom : Rom S) (laws : RomLaws rom) (readable : IsReadable rom)
    (writable : IsWritable rom laws) (core : BootCore E) where
  open laws use {cells}

  -- On a driver that works, an update with commands as documented, in a sector that ends below the end
  -- of the 32-bit addresses, succeeds: the entry there is the encoded one, and no byte outside the sector
  -- differs.
  pub execute_total :
      (write : Write E) (layout : Layout) (s : S)
      → (base_of rom core write layout % 4096 ≡ 0)
      → base_of rom core write layout + 4096 < two_32
      → Updates core write
      → let base = base_of rom core write layout in
        let out = execute rom core write layout s in
        (out.0 ≡ ok tt)
        × (slice (cells out.1) base core.entry_size ≡ core.encode write.entry)
        × SameOutside (cells s) (cells out.1) base 4096
  execute_total write layout s at_sector fits updates =
      let all =
        cut_after-Leaves rom laws readable writable core write layout at_sector fits updates s 4 in
      (all.is_ok, all.holds, all.frame)
