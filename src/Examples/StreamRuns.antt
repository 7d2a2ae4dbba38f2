-- ===== src/Examples/StreamRuns.antt =====
-- An upload in two pieces, the second of which does not fill an erase block.
use espbewi.Common.{ℕ, ◌^◌, ◌<◌, ◌≡◌, refl, inl, true, List, ◌++◌, arith, drop, replicate}
use espbewi.Common.Result.{ok}
use espbewi.Flash.Laws.{Cells}
use espbewi.Ota.Storage.{EspArtifactStorage, flush_block, write_loop, write, finish}
use espbewi.Ota.Storage.Upload.{Upload, start, chunk}
use espbewi.Ota.Storage.Uploaded.{IsUploaded, finish-IsUploaded}
use espbewi.Examples.Ram.{ram, ram_laws}

abbrev pub opened : EspArtifactStorage Cells
opened = record {
  device = λ i. 7;
  partition_offset = 64;
  partition_size = 64;
  scratch = replicate 16 9;
  erase_before_write = true;
}

abbrev pub piece_1 : List ℕ
piece_1 = replicate 20 1

abbrev pub piece_2 : List ℕ
piece_2 = replicate 10 2

abbrev pub after_1 : EspArtifactStorage Cells
after_1 = (write ram 0 piece_1 opened).1

abbrev after_2 : EspArtifactStorage Cells
after_2 = (write ram 16 (drop 16 (piece_1 ++ piece_2)) after_1).1

pub partition_is_small : opened.partition_size < 2 ^ 32
partition_is_small = omega arith

two_pieces : Upload ram opened (piece_1 ++ piece_2) 16 after_2
unfolding write write_loop flush_block
two_pieces = chunk (chunk start piece_1 16 (omega arith) refl) piece_2 16 (omega arith) refl

-- One block is durable after both pieces, and `finish` adds the other 14 bytes.
last_answer : (finish ram 16 (drop 16 (piece_1 ++ piece_2)) after_2).0 ≡ ok 30
unfolding write write_loop flush_block finish
last_answer = refl

stream_run :
    IsUploaded ram ram_laws opened partition_is_small
      (piece_1 ++ piece_2)
      30
      (finish ram 16 (drop 16 (piece_1 ++ piece_2)) after_2).1
stream_run =
    finish-IsUploaded ram ram_laws opened partition_is_small (piece_1 ++ piece_2) 16 30 after_2
      (inl refl) two_pieces last_answer
