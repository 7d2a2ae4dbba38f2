-- ===== src/Ota/Otadata/Frame.antt =====
-- `confirm`, `reject` and `activate`, whatever they answer: the bytes that they leave alone.
use espbewi.Common.{
  ℕ, ◌+◌, ◌*◌, ◌≤◌, ◌<◌, ◌≡◌, ◌⊎◌, refl, sym, ap, ◌∙◌, inl, inr, none, some, List, arith,
  Option-cases,
}
use espbewi.Common.Words.{two_32, add_u32}
use espbewi.Common.Result.{Result, ok, err, Result-cases}
use espbewi.Common.Exec.{Keeps, bind_next, bind_stop}
use espbewi.Flash.{NorFlash}
use espbewi.Flash.Laws.{NorFlashLaws, SameOutside}
use espbewi.Partitions.{TableEntry, TableParser, data_ota}
use espbewi.BootEntries.{Write, BootCore}
use espbewi.Ota.Otadata.{Error, sector_size, read_raws, read_at, read_entries, execute}
use espbewi.Ota.Otadata.Execute.{IsInSector, sector_at, execute_frame}
use espbewi.Ota.Otadata.Transitions.{Transition, planned, run}
use espbewi.Ota.Otadata.Moves.{step_with, run_is}

-- The partition of the entries is found at `start` only, and reading the table changes no byte.
pub record ParserAt {F Table : Type 0} (parser : TableParser F Table) (cells : F → ℕ → ℕ)
    (start : ℕ) : Type 0 where
  pub keeps : (f : F) → cells (parser.read_table f).1 ≡ cells f
  pub located :
      (table : Table) (entry : TableEntry)
      → parser.find_partition table data_ota ≡ some (some entry)
      → entry.start ≡ start

module _ {F Table E : Type 0} (nor : NorFlash F) (laws : NorFlashLaws nor)
    (parser : TableParser F Table) (core : BootCore E) (start : ℕ) (fits : start + 8192 < two_32)
    (at_start : ParserAt parser laws.cells start) where
  open laws use {cells}

  -- The commands of every planned update stay in the sector of one of the two entries.
  abbrev pub StaysInside : Type 0
  StaysInside =
      (t : Transition) (raws : List (List ℕ)) (write : Write E)
      → planned core t raws ≡ some write
      → (write.sector < 2)
        × IsInSector nor laws parser core (core.ops write).1
        × IsInSector nor laws parser core (core.ops write).2

  read_raws-Keeps : (base : ℕ) → Keeps cells (read_raws nor parser core base)
  read_raws-Keeps base f =
      let first = nor.read (add_u32 base 0) core.entry_size in
      let second = nor.read (add_u32 base sector_size) core.entry_size in
      let kept = laws.read_keeps (add_u32 base 0) core.entry_size f in
      elim (Option-cases (first f).0) [
        | inl none_read ↦ rw none_read kept
        | inr (raw, read) ↦
            let both =
              laws.read_keeps (add_u32 base sector_size) core.entry_size (first f).1 ∙ kept in
            elim (Option-cases (second (first f).1).0) [
              | inl none_read ↦ rw (read, none_read) both
              | inr (raw', read') ↦ rw (read, read') both
            ]
      ]

  -- Where the entries are read from, and that reading them changes no byte.
  read_at_view :
      (f : F)
      → (cells (read_at nor parser core f).1 ≡ cells f)
        × ((found : ℕ) (raws : List (List ℕ))
            → (read_at nor parser core f).0 ≡ ok (found, raws)
            → found ≡ start)
  unfolding read_at
  read_at_view f =
      let kept = at_start.keeps f in
      let f1 = (parser.read_table f).1 in
      elim (Option-cases (parser.read_table f).0) [
        | inl missing ↦ rw missing (kept, λ found raws e. absurd (cc))
        | inr (table, read) ↦ elim (Option-cases (parser.find_partition table data_ota)) [
          | inl missing ↦ rw (read, missing) (kept, λ found raws e. absurd (cc))
          | inr (none, missing) ↦ rw (read, missing) (kept, λ found raws e. absurd (cc))
          | inr (some entry, listed) ↦
              let all = read_raws-Keeps entry.start f1 ∙ kept in
              elim (Result-cases (read_raws nor parser core entry.start f1).0) [
                | inr (c, failed) ↦ rw (read, listed, failed) (all, λ found raws e. absurd (cc))
                | inl (entries, answered) ↦
                    rw (read, listed, answered)
                      (
                        all,
                        λ found raws e.
                            ap_start found raws entries entry.start e
                            ∙ at_start.located table entry listed,
                      )
              ]
        ]
      ]
    where
      ap_start :
          (found : ℕ) (raws entries : List (List ℕ)) (at : ℕ)
          → ◌≡◌ {A = Result Error (ℕ × List (List ℕ))} (ok (at, entries)) (ok (found, raws))
          → found ≡ at
      ap_start found raws entries at e = ap start_of (sym e)
        where
          start_of : Result Error (ℕ × List (List ℕ)) → ℕ
          start_of (ok (a, xs)) = a
          start_of (err c) = at

  read_entries-Keeps : Keeps cells (read_entries nor parser core)
  unfolding read_entries
  read_entries-Keeps f = elim (Result-cases (read_at nor parser core f).0) [
    | inl (located, e) ↦ rw e (read_at_view f).0
    | inr (c, e) ↦ rw e (read_at_view f).0
  ]

  module _ (i : ℕ) (out : (i < start) ⊎ (start + 8192 ≤ i)) where
    execute_stops :
        (write : Write E) (f : F) (c : Error)
        → (read_at nor parser core f).0 ≡ err c
        → cells (execute nor parser core write f).1 i ≡ cells f i
    unfolding execute
    execute_stops write f c e = rw e (ap (λ d. d i) (read_at_view f).0)

    execute-Keeps :
        (write : Write E) (f : F)
        → write.sector < 2
        → IsInSector nor laws parser core (core.ops write).1
        → IsInSector nor laws parser core (core.ops write).2
        → cells (execute nor parser core write f).1 i ≡ cells f i
    execute-Keeps write f two body_inside commit_inside =
        elim (Result-cases (read_at nor parser core f).0) [
          | inr (c, e) ↦ execute_stops write f c e
          | inl ((found, raws), e) ↦
              let here : found ≡ start = (read_at_view f).1 found raws e in
              let base : sector_at nor laws parser core found write ≡ start + write.sector * 4096 =
                omega (arith, here) in
              execute_frame nor laws parser core write f found raws i e (read_at_view f).0
                body_inside commit_inside (omega (arith, base)) (omega (arith, base, out))
        ]

    step_with-Keeps :
        (t : Transition) (raws : List (List ℕ)) (f : F)
        → StaysInside
        → cells (step_with nor parser core (planned core t raws) f).1 i ≡ cells f i
    step_with-Keeps t raws f inside = elim (Option-cases (planned core t raws)) [
      | inl nothing ↦ rw nothing refl
      | inr (write, plan) ↦
          let (two, body_inside, commit_inside) = inside t raws write plan in
          rw plan (execute-Keeps write f two body_inside commit_inside)
    ]

  -- Whatever `confirm`, `reject` and `activate` answer, a byte outside the two sectors of the entries is
  -- what it was: where the commands of planned updates stay in their sector.
  pub run_frame :
      (t : Transition) (f : F)
      → StaysInside
      → SameOutside (cells f) (cells (run nor parser core t f).1) start 8192
  run_frame t f inside i out =
      let entries = read_entries nor parser core in
      let begun = run_is nor parser core t f in
      let kept = ap (λ d. d i) (read_entries-Keeps f) in
      elim (Result-cases (entries f).0) [
        | inr (c, e) ↦
            rw
              (
                begun,
                bind_stop entries (λ raws. step_with nor parser core (planned core t raws)) f c e,
              )
              kept
        | inl (raws, e) ↦
            rw
              (
                begun,
                bind_next entries (λ raws. step_with nor parser core (planned core t raws)) f raws
                    e,
              )
              (step_with-Keeps i out t raws (entries f).1 inside ∙ kept)
      ]
