-- ===== src/Ota/Storage.antt =====
-- `EspArtifactStorage` of adapters/ota/src/lib.rs: artifact bytes go to the flash in erase blocks.
-- Offsets into the artifact are `u64`, `usize` has 32 bits.
pub mod Device
pub mod Block
pub mod Flush
pub mod Write
pub mod Stored
pub mod Durable
pub mod Finish
pub mod Total
pub mod Behind
pub mod Upload
pub mod Uploaded
use espbewi.Common.{
  ℕ, zero, suc, ◌+◌, ◌-◌, ◌*◌, ◌%◌, ◌==◌, Bool, true, false, not, ◌||◌, Option, List, [], ◌∷◌, ◌++◌,
  ltb, leb, if◌then◌else◌, length, take, drop, replicate,
}
use espbewi.Common.Words.{to_u32, checked_add, add_u64, div_ceil}
use espbewi.Common.Result
use espbewi.Common.Result.{Result, ok, err, ok_or}
use espbewi.Common.Exec.{Exec, pure, lift, or_fail, attempt, fail_if, ◌>>=◌, ◌>>◌}
use espbewi.Flash.{NorFlash}
use espbewi.Ota.{
  AppPartition, FlashWriteError, scratch_too_small, address_overflow, unaligned, flash,
}

pub record EspArtifactStorage (F : Type 0) : Type 0 where
  pub device : F
  pub partition_offset : ℕ
  pub partition_size : ℕ
  pub scratch : List ℕ
  pub erase_before_write : Bool

module _ {F : Type 0} (nor : NorFlash F) where
  -- `self.flash.call(..).map_err(|_| FlashWriteError::Flash)?`
  abbrev pub on_device :
      (F → Option (Unit {0}) × F) → Exec (EspArtifactStorage F) FlashWriteError (Unit {0})
  on_device call s =
      let (r, device) = call s.device in (ok_or r flash, record s { device = device })

  unfoldable pub new_with_erase_mode :
      F → AppPartition → List ℕ → Bool → Result FlashWriteError (EspArtifactStorage F)
  new_with_erase_mode device partition scratch erase_before_write =
      if ltb (length scratch) nor.erase_size
      then err scratch_too_small
      else ok (record {
        device = device;
        partition_offset = partition.offset;
        partition_size = partition.size;
        scratch = scratch;
        erase_before_write = erase_before_write;
      })

  unfoldable pub new : F → AppPartition → List ℕ → Result FlashWriteError (EspArtifactStorage F)
  unfolding new_with_erase_mode
  new device partition scratch = new_with_erase_mode device partition scratch true

  unfoldable pub new_pre_erased :
      F → AppPartition → List ℕ → Result FlashWriteError (EspArtifactStorage F)
  unfolding new_with_erase_mode
  new_pre_erased device partition scratch = new_with_erase_mode device partition scratch false

  abbrev pub padded_length : List ℕ → ℕ
  padded_length bytes = div_ceil (length bytes) nor.write_size * nor.write_size

  -- The two assignments to `scratch`: the bytes, and zeros up to `padded`.
  abbrev pub fill_scratch : List ℕ → ℕ → Exec (EspArtifactStorage F) FlashWriteError (Unit {0})
  fill_scratch bytes padded s = (
    ok tt,
    record s { scratch = bytes ++ (replicate (padded - length bytes) 0 ++ drop padded s.scratch) },
  )

  abbrev pub erase_block : ℕ → ℕ → Exec (EspArtifactStorage F) FlashWriteError (Unit {0})
  erase_block absolute erase_end s =
      if s.erase_before_write then on_device (nor.erase absolute erase_end) s else pure tt s

  abbrev pub program_block : ℕ → ℕ → Exec (EspArtifactStorage F) FlashWriteError (Unit {0})
  program_block absolute padded s = on_device (nor.program absolute (take padded s.scratch)) s

  -- The device calls at the end of `flush_block`.
  pub commit_block : ℕ → ℕ → ℕ → Exec (EspArtifactStorage F) FlashWriteError (Unit {0})
  commit_block absolute erase_end padded = do
    erase_block absolute erase_end
    program_block absolute padded

  -- The address of the block on the device, and the device calls.
  pub place_block : ℕ → ℕ → Exec (EspArtifactStorage F) FlashWriteError (Unit {0})
  unfolding commit_block
  place_block logical padded s =
      (do
        absolute ← or_fail (checked_add s.partition_offset logical) address_overflow
        erase_end ← or_fail (checked_add absolute nor.erase_size) address_overflow
        commit_block absolute erase_end padded)
        s

  unfoldable pub flush_block : ℕ → List ℕ → Exec (EspArtifactStorage F) FlashWriteError (Unit {0})
  unfolding place_block
  flush_block logical_offset bytes s =
      let padded = padded_length bytes in
      (do
        fail_if (ltb nor.erase_size (length bytes)) flash
        logical ← or_fail (to_u32 logical_offset) address_overflow
        fail_if (not (logical % nor.erase_size == 0)) unaligned
        erase_logical_end ← or_fail (checked_add logical nor.erase_size) address_overflow
        fail_if (ltb s.partition_size erase_logical_end) address_overflow
        fail_if (ltb nor.erase_size padded || ltb (length s.scratch) padded) scratch_too_small
        fill_scratch bytes padded
        place_block logical padded)
        s

  -- The loop of `write`, on fuel: it stops where less than an erase block is pending.
  unfoldable pub write_loop : ℕ → ℕ → List ℕ → ℕ → Exec (EspArtifactStorage F) FlashWriteError ℕ
  write_loop zero durable_offset pending consumed = pure consumed
  write_loop (suc fuel) durable_offset pending consumed =
      elim (leb nor.erase_size (length pending - consumed)) [
        | true ↦
            flush_block (add_u64 durable_offset consumed)
              (take nor.erase_size (drop consumed pending))
            >> write_loop fuel durable_offset pending (consumed + nor.erase_size)
        | false ↦ pure consumed
      ]

  unfoldable pub write : ℕ → List ℕ → Exec (EspArtifactStorage F) FlashWriteError ℕ
  write durable_offset pending = do
    consumed ← write_loop (length pending) durable_offset pending 0
    pure (add_u64 durable_offset consumed)

  unfoldable pub finish : ℕ → List ℕ → Exec (EspArtifactStorage F) FlashWriteError ℕ
  finish durable_offset [] = pure durable_offset
  finish durable_offset (b ∷ bs) = do
    fail_if (leb nor.erase_size (length (b ∷ bs))) flash
    flush_block durable_offset (b ∷ bs)
    pure (add_u64 durable_offset (length (b ∷ bs)))
