-- ===== src/Ota/Interleaved.antt =====
-- An upload into one partition while the other users of the flash work in theirs: the mutex makes each
-- operation one step, and the steps come in any order.
use espbewi.Common.{
  ℕ, ◌+◌, ◌^◌, ◌≤◌, ◌<◌, ◌≡◌, ◌⊎◌, inl, inr, refl, ◌∙◌, List, [], ◌++◌, arith, length, drop,
}
use espbewi.Common.Words.{two_32}
use espbewi.Common.Result.{ok}
use espbewi.Flash.{NorFlash}
use espbewi.Flash.Laws.{NorFlashLaws, SameOutside}
use espbewi.Flash.Slices.{slice_cong}
use espbewi.Partitions.{PartitionRange, TableParser, erase_range}
use espbewi.Partitions.Erase.{erase_range_frame}
use espbewi.Nvs.{NvsPartition}
use espbewi.BootEntries.{BootCore}
use espbewi.Ota.Otadata.Transitions.{Transition, run}
use espbewi.Ota.Otadata.Frame.{ParserAt, StaysInside, run_frame}
use espbewi.Ota.Storage.{EspArtifactStorage, write, finish}
use espbewi.Ota.Storage.Upload.{IsFresh, HoldsReceived, start-HoldsReceived, write-HoldsReceived}
use espbewi.Ota.Storage.Uploaded.{IsUploaded, finish_held}

-- Two ranges of the flash, each given by its start and its size, without a common byte.
abbrev pub AreApart : ℕ → ℕ → ℕ → ℕ → Type 0
AreApart a n b m = (a + n ≤ b) ⊎ (b + m ≤ a)

module _ {F Table E : Type 0} (nor : NorFlash F) (laws : NorFlashLaws nor)
    (parser : TableParser F Table) (core : BootCore E) (entries_at : ℕ) (nvs : NvsPartition)
    (opened : EspArtifactStorage F) where
  open laws use {cells}

  -- A step of another user: an update of the boot entries, the erase of a range of another partition,
  -- or anything that the configuration store does within its own partition.
  pub data OtherStep (f : F) : F → Type 0 where
    update : (t : Transition) → OtherStep f (run nor parser core t f).1
    erase :
        (p : PartitionRange) (from to : ℕ)
        → AreApart p.offset p.size opened.partition_offset opened.partition_size
        → OtherStep f (erase_range nor p from to f).1
    configure : {g : F} → SameOutside (cells f) (cells g) nvs.offset nvs.size → OtherStep f g

  -- The bytes received, the durable offset, the flash as the last step of another user left it, and the
  -- storage.
  pub data Session : List ℕ → ℕ → F → EspArtifactStorage F → Type 0 where
    start : Session [] 0 opened.device opened
    chunk :
        {received : List ℕ} {durable : ℕ} {last : F} {s : EspArtifactStorage F}
        → Session received durable last s
        → (bytes : List ℕ) (r : ℕ) → length (received ++ bytes) ≤ opened.partition_size
        → (write nor durable (drop durable (received ++ bytes)) s).0 ≡ ok r
        → Session
            (received ++ bytes)
            r
            last
            (write nor durable (drop durable (received ++ bytes)) s).1
    other :
        {received : List ℕ} {durable : ℕ} {last g : F} {s : EspArtifactStorage F}
        → Session received durable last s
        → OtherStep s.device g
        → Session received durable g (record s { device = g })

  module _ (small : opened.partition_size < 2 ^ 32) (fits : entries_at + 8192 < two_32)
      (at_start : ParserAt parser cells entries_at)
      (inside : StaysInside nor laws parser core entries_at fits at_start)
      (entries_apart : AreApart entries_at 8192 opened.partition_offset opened.partition_size)
      (nvs_apart : AreApart nvs.offset nvs.size opened.partition_offset opened.partition_size) where
    -- The upload as it would be, had it begun on the flash `last`.
    abbrev pub rebased : F → EspArtifactStorage F
    rebased last = record opened { device = last }

    other-keeps :
        {f g : F} (i : ℕ)
        → OtherStep f g
        → opened.partition_offset ≤ i
        → i < opened.partition_offset + opened.partition_size
        → cells g i ≡ cells f i
    other-keeps {f} i (update t) low high =
        run_frame nor laws parser core entries_at fits at_start t f inside i
          (omega (arith, entries_apart))
    other-keeps {f} i (erase p from to apart) low high =
        erase_range_frame nor laws p from to f i (inr (omega (arith, apart)))
    other-keeps i (configure same) low high = same i (omega (arith, nvs_apart))

    abbrev pub Holds : List ℕ → ℕ → F → EspArtifactStorage F → Type 0
    Holds received durable last s = HoldsReceived nor laws (rebased last) small received durable s

    other-Holds :
        (received : List ℕ) (durable : ℕ) (last g : F) (s : EspArtifactStorage F)
        → Holds received durable last s
        → OtherStep s.device g
        → Holds received durable g (record s { device = g })
    other-Holds received durable last g s h step =
        let within = h.within in
        let room = h.fits in
        record {
          same = record {
            offset = h.same.offset;
            size = h.same.size;
            scratch = h.same.scratch;
            mode = h.same.mode;
          };
          within = within;
          fits = room;
          held =
              slice_cong (cells g) (cells s.device) opened.partition_offset durable
                (λ j lt. other-keeps (opened.partition_offset + j) step (omega arith) (omega arith))
              ∙ h.held;
          clean = elim h.clean [
            | inl mode ↦ inl mode
            | inr erased ↦ inr (λ j lt.
                other-keeps (opened.partition_offset + durable + j) step (omega arith)
                  (omega (arith, lt))
                ∙ erased j lt)
          ];
          frame = λ i out. refl;
        }

    pub session-Holds :
        {received : List ℕ} {durable : ℕ} {last : F} {s : EspArtifactStorage F}
        → IsFresh nor laws opened small
        → Session received durable last s
        → Holds received durable last s
    session-Holds fresh start = start-HoldsReceived nor laws opened small fresh
    session-Holds fresh (chunk {received} {durable} {last} {s} before bytes r room answered) =
        write-HoldsReceived nor laws (rebased last) small received bytes durable r s
          (session-Holds fresh before) room answered
    session-Holds fresh (other {received} {durable} {last} {g} {s} before step) =
        other-Holds received durable last g s (session-Holds fresh before) step

    -- An upload into a partition that was erased, or with blocks erased before they are written, of which
    -- every `write` answered `Ok`, mixed in any order with updates of the boot entries, erases in
    -- other partitions and changes of the configuration store, all in ranges apart from the
    -- partition and with the commands of updates inside their sectors. If `finish` then answers `Ok(r)`,
    -- `r` is the number of bytes received, the partition starts with exactly these bytes, and every
    -- byte outside the partition is as the last step of another user left it.
    pub session-IsUploaded :
        (received : List ℕ) (durable r : ℕ) (last : F) (s : EspArtifactStorage F)
        → IsFresh nor laws opened small
        → Session received durable last s
        → (finish nor durable (drop durable received) s).0 ≡ ok r
        → IsUploaded nor laws
            (rebased last)
            small
            received
            r
            (finish nor durable (drop durable received) s).1
    session-IsUploaded received durable r last s fresh session answered =
        finish_held nor laws (rebased last) small received durable r s (session-Holds fresh session)
          answered
