-- ===== src/Examples/SharedRuns.antt =====
-- An upload in two pieces; between them a slot is activated and a part of another partition erased.
use espbewi.Common.{
  ℕ, ◌+◌, ◌<◌, ◌≡◌, refl, subst, sym, ap, inl, inr, Option, none, some, ◌++◌, arith, drop,
}
use espbewi.Common.Result.{ok}
use espbewi.Common.Words.{two_32}
use espbewi.Flash.Laws.{Cells, SameOutside}
use espbewi.Partitions.{TableEntry, PartitionRange, erase_range}
use espbewi.Nvs.{NvsPartition}
use espbewi.BootEntries.{Write}
use espbewi.Ota.{ota_1}
use espbewi.Ota.Otadata.Execute.{IsInSector}
use espbewi.Ota.Otadata.Transitions.{confirming, rejecting, activating, run}
use espbewi.Ota.Otadata.Frame.{ParserAt, StaysInside, run_frame}
use espbewi.Ota.Storage.{EspArtifactStorage, flush_block, write_loop, write, finish}
use espbewi.Ota.Storage.Uploaded.{IsUploaded}
use espbewi.Ota.Interleaved.{Session, start, chunk, other, update, erase, session-IsUploaded}
use espbewi.Examples.Ram.{ram, ram_laws}
use espbewi.Examples.Core.{small_core, small_table, entry_at}
use espbewi.Examples.StreamRuns.{opened, piece_1, piece_2, after_1, partition_is_small}

abbrev pub nvs : NvsPartition
nvs = record { offset = 0x9000; size = 0x6000 }

abbrev neighbour : PartitionRange
neighbour = record { offset = 128; size = 64 }

pub found_there :
    (entry : TableEntry) → some (some (entry_at 8192)) ≡ some (some entry) → entry.start ≡ 8192
found_there entry e = ap start_of (sym e)
  where
    start_of : Option (Option TableEntry) → ℕ
    start_of (some (some found)) = found.start
    start_of (some none) = 8192
    start_of none = 8192

abbrev pub small_table-ParserAt : ParserAt small_table ram_laws.cells 8192
small_table-ParserAt = record { keeps = λ c. refl; located = λ table entry e. found_there entry e }

abbrev pub update_6 : Write ℕ
update_6 = record { sector = 1; entry = 6 }

abbrev activated : Cells
activated = (run ram small_table small_core (activating ota_1) after_1.device).1

abbrev pub erased : Cells
erased = (erase_range ram neighbour 0 16 activated).1

commands_stay :
    (write : Write ℕ)
    → some update_6 ≡ some write
    → (write.sector < 2)
      × IsInSector ram ram_laws small_table small_core (small_core.ops write).1
      × IsInSector ram ram_laws small_table small_core (small_core.ops write).2
commands_stay write e =
    let same : update_6 ≡ write = cc in
    subst
      (λ (w : Write ℕ).
        (w.sector < 2)
        × IsInSector ram ram_laws small_table small_core (small_core.ops w).1
        × IsInSector ram ram_laws small_table small_core (small_core.ops w).2)
      same (omega arith, omega arith, omega arith)

pub entries_fit : 8192 + 8192 < two_32
entries_fit = omega arith

pub small_core-StaysInside :
    StaysInside ram ram_laws small_table small_core 8192 entries_fit small_table-ParserAt
small_core-StaysInside confirming raws write e = commands_stay write e
small_core-StaysInside rejecting raws write e = commands_stay write e
small_core-StaysInside (activating target) raws write e = commands_stay write e

abbrev between : EspArtifactStorage Cells
between = record after_1 { device = erased }

abbrev pub after_2 : EspArtifactStorage Cells
after_2 = (write ram 16 (drop 16 (piece_1 ++ piece_2)) between).1

pub mixed :
    Session ram ram_laws small_table small_core 8192 nvs opened
      (piece_1 ++ piece_2)
      16
      erased
      after_2
unfolding write write_loop flush_block
mixed =
    chunk
      (other (other (chunk start piece_1 16 (omega arith) refl) (update (activating ota_1)))
        (erase neighbour 0 16 (inr (omega arith))))
      piece_2 16 (omega arith) refl

pub last_answer : (finish ram 16 (drop 16 (piece_1 ++ piece_2)) after_2).0 ≡ ok 30
unfolding write write_loop flush_block finish
last_answer = refl

session-IsUploaded_example :
    IsUploaded ram ram_laws
      (record opened { device = erased })
      partition_is_small
      (piece_1 ++ piece_2)
      30
      (finish ram 16 (drop 16 (piece_1 ++ piece_2)) after_2).1
session-IsUploaded_example =
    session-IsUploaded ram ram_laws small_table small_core 8192 nvs opened partition_is_small
      entries_fit small_table-ParserAt small_core-StaysInside (inr (omega arith))
      (inr (omega arith)) (piece_1 ++ piece_2) 16 30 erased after_2 (inl refl) mixed last_answer

run_frame_example :
    SameOutside after_1.device
      (run ram small_table small_core (activating ota_1) after_1.device).1
      8192
      8192
run_frame_example =
    run_frame ram ram_laws small_table small_core 8192 entries_fit small_table-ParserAt
      (activating ota_1) after_1.device small_core-StaysInside
