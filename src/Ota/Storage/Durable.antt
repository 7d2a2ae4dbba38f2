-- ===== src/Ota/Storage/Durable.antt =====
-- The contract of `write` and `finish`: what they answer, what is durable then, and what they never
-- touch.
use native.Mathlib.Nat.{div-eq_of_lt-le}
use espbewi.Common.{
  ℕ, ◌+◌, ◌-◌, ◌*◌, ◌/◌, ◌^◌, ◌≤◌, ◌<◌, ◌≡◌, ◌⊎◌, inl, inr, ap, sym, ◌∙◌, true, List, arith, length,
  take, replicate,
}
use espbewi.Common.Words.{add_u64}
use espbewi.Common.Result.{ok}
use espbewi.Flash.{NorFlash}
use espbewi.Flash.Laws.{NorFlashLaws, Cells, IsErased}
use espbewi.Flash.Slices.{slice, slice-IsErased}
use espbewi.Ota.Storage.{EspArtifactStorage, write_loop, write}
use espbewi.Ota.Storage.Write.{write_loop_frame}
use espbewi.Ota.Storage.Stored.{IsWritten, write_loop-IsWritten}

module _ {F : Type 0} (nor : NorFlash F) (durable : ℕ) (pending : List ℕ)
    (s : EspArtifactStorage F) where
  -- `write` answers the end of its loop, as an offset.
  pub write_answer :
      (r : ℕ)
      → (write nor durable pending s).0 ≡ ok r
      → (n : ℕ) × ((write_loop nor (length pending) durable pending 0 s).0 ≡ ok n)
        × (r ≡ add_u64 durable n)
  unfolding write
  write_answer r e = ground arith

  pub write_state :
      (write nor durable pending s).1 ≡ (write_loop nor (length pending) durable pending 0 s).1
  unfolding write
  write_state = ground arith

  -- The bytes that `write` takes: the whole erase blocks of what is pending.
  abbrev pub whole_blocks : ℕ
  whole_blocks = length pending / nor.erase_size * nor.erase_size

  -- The flash under the pending bytes is erased, or each block is erased before it is written.
  abbrev pub IsPrepared : Cells → Type 0
  IsPrepared cells =
      (s.erase_before_write ≡ true)
      ⊎ (slice cells (s.partition_offset + durable) (length pending)
          ≡ replicate (length pending) 0xFF)

module _ {F : Type 0} (nor : NorFlash F) (laws : NorFlashLaws nor) (durable : ℕ) (pending : List ℕ)
    (s : EspArtifactStorage F) (fits : durable + length pending < 2 ^ 64) where
  open laws use {cells}

  clean_from :
      IsPrepared nor durable pending s (cells s.device)
      → (s.erase_before_write ≡ true)
        ⊎ IsErased (cells s.device) (s.partition_offset + durable + 0) (length pending - 0)
  clean_from (inl mode) = inl mode
  clean_from (inr erased) = inr λ j lt.
      ap (cells s.device) (omega arith)
      ∙ slice-IsErased (cells s.device) (s.partition_offset + durable) (length pending) erased j
          (omega arith)

  -- Whatever `write` answers, with offsets that do not reach 2 ^ 64, a byte in front of the durable
  -- offset, behind the pending bytes, or outside the partition is what it was before.
  pub write_frame :
      (i : ℕ)
      → ((i < s.partition_offset + durable) ⊎ (s.partition_offset + durable + length pending ≤ i))
        ⊎ ((i < s.partition_offset) ⊎ (s.partition_offset + s.partition_size ≤ i))
      → cells (write nor durable pending s).1.device i ≡ cells s.device i
  write_frame i out = rw (write_state nor durable pending s) (
      write_loop_frame nor durable pending laws fits (length pending) 0 s i (omega arith)
        (omega arith))

  written_result :
      (n r : ℕ)
      → r ≡ add_u64 durable n
      → IsWritten nor laws durable pending fits s 0 n
          (write_loop nor (length pending) durable pending 0 s).1
      → (r ≡ durable + whole_blocks nor durable pending s)
        × (slice
              (cells (write nor durable pending s).1.device)
              (s.partition_offset + durable)
              (whole_blocks nor durable pending s)
            ≡ take (whole_blocks nor durable pending s) pending)
  written_result n r sum w =
      let all_blocks : length pending / nor.erase_size ≡ w.blocks =
        div-eq_of_lt-le nor.erase_size (omega (arith, w.counted, w.inside))
          (omega (arith, w.counted, w.done)) in
      let size : whole_blocks nor durable pending s ≡ w.blocks * nor.erase_size =
        ap (λ b. b * nor.erase_size) all_blocks in
      let start : s.partition_offset + durable ≡ s.partition_offset + durable + 0 = omega arith in
      (
        omega (arith, sum, w.counted, w.inside, size),
        rw (write_state nor durable pending s) (
            (λ i.
              slice (cells (write_loop nor (length pending) durable pending 0 s).1.device) (start i)
                (size i))
            ∙ w.held
            ∙ ap (λ k. take k pending) (sym size)),
      )

  -- If `write` answers `Ok(r)`, on flash that is erased or is erased before each write, with offsets
  -- that do not reach 2 ^ 64, then `r` is the durable offset advanced by the whole erase blocks of the
  -- pending bytes, and the flash holds those bytes from the old durable offset on.
  pub write_stores :
      (r : ℕ)
      → (write nor durable pending s).0 ≡ ok r
      → IsPrepared nor durable pending s (cells s.device)
      → (r ≡ durable + whole_blocks nor durable pending s)
        × (slice
              (cells (write nor durable pending s).1.device)
              (s.partition_offset + durable)
              (whole_blocks nor durable pending s)
            ≡ take (whole_blocks nor durable pending s) pending)
  write_stores r e prepared =
      let (n, answered, sum) = write_answer nor durable pending s r e in
      written_result n r sum (
        write_loop-IsWritten nor laws durable pending fits (length pending) 0 n s (omega arith)
          (omega arith) answered (clean_from prepared))
