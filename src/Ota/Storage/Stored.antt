-- ===== src/Ota/Storage/Stored.antt =====
-- `write` and `finish` against the flash: what is durable when they answer.
use espbewi.Common.{
  ℕ, zero, suc, ◌+◌, ◌-◌, ◌*◌, ◌^◌, ◌≤◌, ◌<◌, ◌≡◌, ◌⊎◌, inl, inr, ap, sym, ◌∙◌, true, List, ◌++◌,
  arith, length, take, drop, leb, Bool-cases, take-add, drop-drop,
}
use espbewi.Common.Words.{add_u64}
use espbewi.Common.Result.{Result, ok, Result-cases}
use espbewi.Flash.{NorFlash}
use espbewi.Flash.Laws.{NorFlashLaws, IsErased}
use espbewi.Flash.Slices.{slice, slice-append}
use espbewi.Ota.{FlashWriteError}
use espbewi.Ota.Storage.{EspArtifactStorage, write_loop}
use espbewi.Ota.Storage.Block.{flush_block-SameSettings}
use espbewi.Ota.Storage.Write.{
  block_at, flush_at, write_loop_stop, write_loop_fail, write_loop_next, write_loop-zero,
  block_stored, block_kept, clean_kept,
}

module _ {F : Type 0} (nor : NorFlash F) (laws : NorFlashLaws nor) (durable : ℕ) (pending : List ℕ)
    (fits : durable + length pending < 2 ^ 64) where
  open laws use {cells}

  -- Where the loop has got to when it answers `n`, from `consumed`: after `blocks` erase blocks,
  -- with less than a block left, and the flash holds what was consumed.
  pub record IsWritten (s : EspArtifactStorage F) (consumed n : ℕ) (s' : EspArtifactStorage F)
      : Type 0 where
    pub blocks : ℕ
    pub counted : n ≡ consumed + blocks * nor.erase_size
    pub inside : n ≤ length pending
    pub done : length pending < n + nor.erase_size
    pub held :
        slice (cells s'.device) (s.partition_offset + durable + consumed) (blocks * nor.erase_size)
        ≡ take (blocks * nor.erase_size) (drop consumed pending)

  abbrev IsClean : EspArtifactStorage F → ℕ → Type 0
  IsClean s consumed =
      (s.erase_before_write ≡ true)
      ⊎ IsErased (cells s.device) (s.partition_offset + durable + consumed)
          (length pending - consumed)

  clean_first :
      (consumed : ℕ) (s : EspArtifactStorage F)
      → consumed + nor.erase_size ≤ length pending
      → IsClean s consumed
      → (s.erase_before_write ≡ true)
        ⊎ IsErased (cells s.device) (s.partition_offset + durable + consumed) nor.erase_size
  clean_first consumed s more (inl mode) = inl mode
  clean_first consumed s more (inr erased) = inr λ j lt. erased j (omega arith)

  next_block :
      (fuel consumed n : ℕ) (s : EspArtifactStorage F)
      → consumed + nor.erase_size ≤ length pending
      → (flush_at nor durable pending consumed s).0 ≡ ok tt
      → IsClean s consumed
      → IsWritten
          (flush_at nor durable pending consumed s).1
          (consumed + nor.erase_size)
          n
          (write_loop nor fuel durable pending
            (consumed + nor.erase_size)
            (flush_at nor durable pending consumed s).1).1
      → IsWritten s consumed n
          (write_loop nor fuel durable pending
            (consumed + nor.erase_size)
            (flush_at nor durable pending consumed s).1).1
  next_block fuel consumed n s more flushed clean w =
      let same =
        flush_block-SameSettings nor s (add_u64 durable consumed)
          (block_at nor durable pending consumed) laws.write_size_pos in
      let s' = (flush_at nor durable pending consumed s).1 in
      let c' =
        cells (write_loop nor fuel durable pending (consumed + nor.erase_size) s').1.device in
      let at = s.partition_offset + durable + consumed in
      let m = w.blocks * nor.erase_size in
      let first : slice c' at nor.erase_size ≡ take nor.erase_size (drop consumed pending) =
        block_kept nor durable pending laws fits fuel consumed s more
        ∙ block_stored nor durable pending laws fits consumed s more flushed
            (clean_first consumed s more clean) in
      let next : at + nor.erase_size ≡ s'.partition_offset + durable + (consumed + nor.erase_size) =
        omega (arith, same.offset) in
      let rest : slice c' (at + nor.erase_size) m
          ≡ take m (drop nor.erase_size (drop consumed pending)) =
        ap (λ a. slice c' a m) next
        ∙ w.held
        ∙ ap (take m) (sym (drop-drop nor.erase_size consumed pending)) in
      let size : suc w.blocks * nor.erase_size ≡ nor.erase_size + m = omega arith in
      record {
        blocks = suc w.blocks;
        counted = omega (arith, w.counted);
        inside = w.inside;
        done = w.done;
        held =
            ap (slice c' at) size
            ∙ slice-append c' at nor.erase_size m
            ∙ (λ i. first i ++ rest i)
            ∙ sym (take-add nor.erase_size m (drop consumed pending))
            ∙ ap (λ k. take k (drop consumed pending)) (sym size);
      }

  stopped :
      (consumed n : ℕ) (s : EspArtifactStorage F)
      (r : Result FlashWriteError ℕ × EspArtifactStorage F)
      → consumed ≤ length pending
      → length pending < consumed + nor.erase_size
      → r ≡ (ok consumed, s)
      → r.0 ≡ ok n
      → IsWritten s consumed n r.1
  stopped consumed n s r le short run e =
      let at_once : n ≡ consumed = ground arith in
      let no_bytes : 0 * nor.erase_size ≡ 0 = omega arith in
      rw run (record {
        blocks = 0;
        counted = omega (arith, at_once);
        inside = omega (arith, at_once);
        done = omega (arith, at_once);
        held =
            ap (slice (cells s.device) (s.partition_offset + durable + consumed)) no_bytes
            ∙ ap (λ k. take k (drop consumed pending)) (sym no_bytes);
      })

  pub write_loop-IsWritten :
      (fuel consumed n : ℕ) (s : EspArtifactStorage F)
      → consumed ≤ length pending
      → length pending - consumed ≤ fuel
      → (write_loop nor fuel durable pending consumed s).0 ≡ ok n
      → IsClean s consumed
      → IsWritten s consumed n (write_loop nor fuel durable pending consumed s).1
  write_loop-IsWritten zero consumed n s le enough e clean =
      stopped consumed n s _ le (omega (arith, laws.erase_size_pos))
        (write_loop-zero nor durable pending consumed s) e
  write_loop-IsWritten (suc fuel) consumed n s le enough e clean =
      elim (Bool-cases (leb nor.erase_size (length pending - consumed))) [
        | inr stop ↦
            stopped consumed n s _ le (ground arith)
              (write_loop_stop nor durable pending fuel consumed s stop) e
        | inl go ↦
            let more : consumed + nor.erase_size ≤ length pending =
              ground (arith, laws.erase_size_pos) in
            elim (Result-cases (flush_at nor durable pending consumed s).0) [
              | inr (c, failed) ↦
                  absurd (cc (write_loop_fail nor durable pending fuel consumed s c go failed))
              | inl (u, flushed) ↦
                  let run = write_loop_next nor durable pending fuel consumed s go flushed in
                  rw run (
                    next_block fuel consumed n s more flushed clean (
                      write_loop-IsWritten fuel (consumed + nor.erase_size) n
                        (flush_at nor durable pending consumed s).1 more
                        (omega (arith, laws.erase_size_pos)) (rw run at e)
                        (clean_kept nor durable pending laws fits consumed s more clean)))
            ]
      ]
