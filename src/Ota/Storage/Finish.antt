-- ===== src/Ota/Storage/Finish.antt =====
-- `finish`: the last, partial block.
use espbewi.Common.{
  ℕ, ◌+◌, ◌^◌, ◌≤◌, ◌<◌, ◌≡◌, ◌≢◌, ◌⊎◌, inl, inr, refl, true, List, [], ◌∷◌, arith, length,
  replicate,
}
use espbewi.Common.Words.{add_u64}
use espbewi.Common.Result.{ok}
use espbewi.Flash.{NorFlash}
use espbewi.Flash.Laws.{NorFlashLaws, IsErased}
use espbewi.Flash.Slices.{slice, slice-IsErased}
use espbewi.Ota.Storage.{EspArtifactStorage, flush_block, finish}
use espbewi.Ota.Storage.Block.{IsFlushable}
use espbewi.Ota.Storage.Flush.{padded_block, flush_block_stores}

module _ {F : Type 0} (nor : NorFlash F) (durable : ℕ) (s : EspArtifactStorage F) where
  pub finish_answer :
      (pending : List ℕ) (r : ℕ)
      → pending ≢ []
      → (finish nor durable pending s).0 ≡ ok r
      → (length pending < nor.erase_size)
        × ((flush_block nor durable pending s).0 ≡ ok tt)
        × (r ≡ add_u64 durable (length pending))
        × ((finish nor durable pending s).1 ≡ (flush_block nor durable pending s).1)
  unfolding finish
  finish_answer [] r some_bytes e = absurd (some_bytes refl)
  finish_answer (b ∷ bs) r some_bytes e = ground arith

  -- With nothing pending `finish` answers the durable offset, and with an erase block or more it
  -- fails; in both cases the storage is left alone.
  pub finish_idle :
      (pending : List ℕ)
      → (pending ≡ []) ⊎ (nor.erase_size ≤ length pending)
      → 0 < nor.erase_size
      → (finish nor durable pending s).1 ≡ s
  unfolding finish
  finish_idle [] short pos = refl
  finish_idle (b ∷ bs) short pos = ground arith

  -- If `finish` answers `Ok(r)` for a partial block, on a block that is erased before the write or was
  -- erased already, then `r` is the durable offset advanced by all pending bytes, less than an erase
  -- block was pending, and the flash holds the bytes, and then zeros up to the write size, at a block
  -- that lies in the partition.
  pub finish_stores :
      (laws : NorFlashLaws nor) (pending : List ℕ) (r : ℕ)
      → pending ≢ []
      → durable + length pending < 2 ^ 64
      → (finish nor durable pending s).0 ≡ ok r
      → (s.erase_before_write ≡ true)
        ⊎ (slice (laws.cells s.device) (s.partition_offset + durable) nor.erase_size
            ≡ replicate nor.erase_size 0xFF)
      → (r ≡ durable + length pending)
        × (length pending < nor.erase_size)
        × IsFlushable nor s durable pending
        × (slice
              (laws.cells (finish nor durable pending s).1.device)
              (s.partition_offset + durable)
              (length (padded_block nor pending))
            ≡ padded_block nor pending)
  finish_stores laws pending r some_bytes fits e clean =
      let (short, flushed, sum, state) = finish_answer pending r some_bytes e in
      let (flushable, stored) =
        flush_block_stores nor laws s durable pending flushed (prepared clean) in
      (omega (arith, sum), short, flushable, rw state stored)
    where
      prepared :
          (s.erase_before_write ≡ true)
            ⊎ (slice (laws.cells s.device) (s.partition_offset + durable) nor.erase_size
                ≡ replicate nor.erase_size 0xFF)
          → (s.erase_before_write ≡ true)
            ⊎ IsErased (laws.cells s.device) (s.partition_offset + durable) nor.erase_size
      prepared (inl mode) = inl mode
      prepared (inr erased) = inr (slice-IsErased _ _ nor.erase_size erased)
