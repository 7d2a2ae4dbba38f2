-- ===== src/Ota/Otadata/Moves.antt =====
-- `confirm`, `reject` and `activate` refine one step on the list of the two entries.
use espbewi.Common.{
  ℕ, ◌+◌, ◌%◌, ◌≤◌, ◌<◌, ◌≡◌, ◌⊎◌, refl, ap, ◌∙◌, inl, inr, Option, none, some, Option-cases,
}
use espbewi.Common.Words.{two_32}
use espbewi.Common.Result.{Result, ok, err}
use espbewi.Common.Exec.{Exec, or_fail, bind_next, ◌>>=◌}
use espbewi.Flash.{NorFlash}
use espbewi.Flash.Laws.{NorFlashLaws, SameOutside}
use espbewi.Partitions.{TableParser}
use espbewi.BootEntries.{Write, BootCore}
use espbewi.BootEntries.Updates.{IsPlanned}
use espbewi.BootEntries.Entries.{replace_at, entries_in}
use espbewi.Ota.Otadata.{Error, no_transition, read_entries, execute, confirm, reject, activate}
use espbewi.Ota.Otadata.Works.{NorWorks}
use espbewi.Ota.Otadata.Transitions.{
  Transition, confirming, rejecting, activating, planned, run, TableAt, read_entries-Answers,
  execute-Replaces,
}

module _ {F Table E : Type 0} (nor : NorFlash F) (parser : TableParser F Table)
    (core : BootCore E) where
  -- What the three operations do with the entries that they read.
  abbrev pub step_with : Option (Write E) → Exec F Error (Unit {0})
  step_with plan = or_fail plan no_transition >>= execute nor parser core

  pub run_is :
      (t : Transition) (f : F)
      → run nor parser core t f
        ≡ (read_entries nor parser core >>= λ raws. step_with (planned core t raws)) f
  unfolding confirm reject activate
  run_is confirming f = refl
  run_is rejecting f = refl
  run_is (activating target) f = refl

module _ {F Table E : Type 0} (nor : NorFlash F) (laws : NorFlashLaws nor) (works : NorWorks nor)
    (parser : TableParser F Table) (core : BootCore E) (start : ℕ) (at_sector : start % 4096 ≡ 0)
    (fits : start + 8192 < two_32) (small : core.entry_size ≤ 4096) where
  open laws use {cells}

  -- A step on the two entries `raws`: none is planned, and nothing happens; or one is, and the entries
  -- read afterwards are those before with the planned one in its place.
  abbrev pub Moves : Transition → F → Result Error (Unit {0}) × F → Type 0
  Moves t f out =
      let raws = entries_in core start (cells f) in
      ((planned core t raws ≡ none) × (out.0 ≡ err no_transition) × (cells out.1 ≡ cells f))
      ⊎ ((write : Write E) × (planned core t raws ≡ some write)
          × (out.0 ≡ ok tt)
          × ((read_entries nor parser core out.1).0
              ≡ ok (replace_at write.sector (core.encode write.entry) raws))
          × SameOutside (cells f) (cells out.1) start 8192)

  -- On a driver that works, with the table outside the two sectors of the entries, which end below the
  -- end of the 32-bit addresses and of which each holds an entry, and for planned updates with commands
  -- as documented: `confirm`, `reject` and `activate` answer `NoTransition` and change no byte of the flash where FiBeWI plans nothing for
  -- the two entries; otherwise they succeed, `read_entries` then answers the entries with the planned
  -- one in its place, and no byte outside the two sectors differs.
  pub run-Moves :
      (t : Transition) (f : F)
      → TableAt parser cells (cells f) start
      → ((write : Write E)
          → planned core t (entries_in core start (cells f)) ≡ some write
          → IsPlanned core write)
      → Moves t f (run nor parser core t f)
  run-Moves t f table_at documented =
      let raws = entries_in core start (cells f) in
      let entries =
        read_entries-Answers nor laws works parser core start at_sector fits small (cells f)
          table_at f (λ i out. refl) in
      let f1 = (read_entries nor parser core f).1 in
      let begun =
        run_is nor parser core t f
        ∙ bind_next (read_entries nor parser core)
            (λ raws. step_with nor parser core (planned core t raws)) f raws entries.is_ok in
      elim (Option-cases (planned core t raws)) [
        | inl nothing ↦ rw (begun, nothing) (inl (refl, refl, entries.kept))
        | inr (write, plan) ↦
            let same : SameOutside (cells f) (cells f1) start 8192 =
              λ i out. ap (λ c. c i) entries.kept in
            let done =
              execute-Replaces nor laws works parser core start at_sector fits small (cells f)
                table_at write f1 same (documented write plan) in
            let g = (execute nor parser core write f1).1 in
            let frame : SameOutside (cells f) (cells g) start 8192 =
              λ i out. done.frame i out ∙ same i out in
            let again =
              read_entries-Answers nor laws works parser core start at_sector fits small (cells f)
                table_at g frame in
            let read : (read_entries nor parser core g).0
                ≡ ok (replace_at write.sector (core.encode write.entry) raws) =
              again.is_ok
              ∙ ap ok done.entries
              ∙ ap
                  (λ c.
                    ok
                      (replace_at write.sector (core.encode write.entry) (entries_in core start c)))
                  entries.kept in
            rw (begun, plan) (inr (write, refl, done.is_ok, read, frame))
      ]
