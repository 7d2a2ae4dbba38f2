-- ===== src/Ota/Storage/Flush.antt =====
-- What `flush_block` leaves on the flash.
use espbewi.Common.{
  ℕ, ◌+◌, ◌-◌, ◌≤◌, ◌<◌, ◌≡◌, ◌⊎◌, inl, inr, ap, sym, ◌∙◌, true, List, ◌++◌, arith, length, take,
  drop, replicate, length-append, length-replicate, take-append,
}
use mathlib.Core.List.{append_assoc}
use espbewi.Common.Result.{ok}
use espbewi.Flash.{NorFlash}
use espbewi.Flash.Laws.{NorFlashLaws, IsErased}
use espbewi.Flash.Slices.{slice, Holds-slice}
use espbewi.Ota.Storage.{EspArtifactStorage, padded_length, flush_block}
use espbewi.Ota.Storage.Device.{commit_block_frame, commit_block_stores}
use espbewi.Ota.Storage.Block.{IsFlushable, filled, flush_block_outcome, padded_length_bounds}

-- The bytes of a block with the padding up to the write size.
abbrev pub padded_block : {F : Type 0} → NorFlash F → List ℕ → List ℕ
padded_block nor bytes = bytes ++ replicate (padded_length nor bytes - length bytes) 0

module _ {F : Type 0} (nor : NorFlash F) (laws : NorFlashLaws nor) where
  open laws use {cells}

  -- Whatever a flush answers, a byte outside the erase block, or outside the partition, is what it
  -- was before.
  pub flush_block_frame :
      (s : EspArtifactStorage F) (logical : ℕ) (bytes : List ℕ) (i : ℕ)
      → ((i < s.partition_offset + logical) ⊎ (s.partition_offset + logical + nor.erase_size ≤ i))
        ⊎ ((i < s.partition_offset) ⊎ (s.partition_offset + s.partition_size ≤ i))
      → cells (flush_block nor logical bytes s).1.device i ≡ cells s.device i
  flush_block_frame s logical bytes i out = elim (flush_block_outcome nor s logical bytes) [
    | inr (_, same) ↦ rw same
    | inl (fits, run) ↦ rw run (
        commit_block_frame nor laws (s.partition_offset + logical) (padded_length nor bytes)
          (filled nor s bytes) i fits.padded (omega (arith, fits.inside)))
  ]

  take-filled :
      (s : EspArtifactStorage F) (bytes : List ℕ)
      → take (padded_length nor bytes) (filled nor s bytes).scratch ≡ padded_block nor bytes
  take-filled s bytes =
      let padded = padded_length nor bytes in
      let zeros = replicate {A = ℕ} (padded - length bytes) 0 in
      ap (take padded) (sym (append_assoc bytes zeros (drop padded s.scratch)))
      ∙ take-append padded (padded_block nor bytes) (drop padded s.scratch) (
          omega (
            arith,
            length-append bytes zeros,
            length-replicate {A = ℕ} (padded - length bytes) 0,
            padded_length_bounds nor bytes laws.write_size_pos,
          ))

  -- If a flush answers `Ok`, on a block that is erased before the write or was erased already, the
  -- block is one that may be flushed, and the flash holds its bytes and then zeros up to the write
  -- size.
  pub flush_block_stores :
      (s : EspArtifactStorage F) (logical : ℕ) (bytes : List ℕ)
      → (flush_block nor logical bytes s).0 ≡ ok tt
      → (s.erase_before_write ≡ true)
        ⊎ IsErased (cells s.device) (s.partition_offset + logical) nor.erase_size
      → IsFlushable nor s logical bytes
        × (slice
              (cells (flush_block nor logical bytes s).1.device)
              (s.partition_offset + logical)
              (length (padded_block nor bytes))
            ≡ padded_block nor bytes)
  flush_block_stores s logical bytes done clean = elim (flush_block_outcome nor s logical bytes) [
    | inr (failed, _) ↦ absurd (failed done)
    | inl (fits, run) ↦
        let held =
          commit_block_stores nor laws (s.partition_offset + logical) (padded_length nor bytes)
            (filled nor s bytes) fits.padded (rw run at done) clean in
        (fits, rw run (Holds-slice _ _ (padded_block nor bytes) (rw (take-filled s bytes) at held)))
  ]
