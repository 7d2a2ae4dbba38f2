-- ===== src/Ota/Storage/Device.antt =====
-- `commit_block`: the device calls of one block, by the laws of the device.
use espbewi.Common.{
  ℕ, ◌+◌, ◌≤◌, ◌<◌, ◌≡◌, ◌⊎◌, inl, inr, ◌∙◌, true, false, arith, length, take, some, Bool-cases,
  length-take,
}
use espbewi.Common.Result.{ok}
use espbewi.Flash.{NorFlash}
use espbewi.Flash.Laws.{NorFlashLaws, Cells, Holds, IsErased}
use espbewi.Ota.Storage.{EspArtifactStorage, commit_block}

-- The parts of the storage object that no operation changes.
pub record SameSettings {F : Type 0} (s s' : EspArtifactStorage F) : Type 0 where
  pub offset : s'.partition_offset ≡ s.partition_offset
  pub size : s'.partition_size ≡ s.partition_size
  pub scratch : length s'.scratch ≡ length s.scratch
  pub mode : s'.erase_before_write ≡ s.erase_before_write

pub SameSettings-trans :
    {F : Type 0} {s t u : EspArtifactStorage F}
    → SameSettings s t
    → SameSettings t u
    → SameSettings s u
SameSettings-trans h k = record {
  offset = k.offset ∙ h.offset;
  size = k.size ∙ h.size;
  scratch = k.scratch ∙ h.scratch;
  mode = k.mode ∙ h.mode;
}

module _ {F : Type 0} (nor : NorFlash F) where
  pub commit_block-SameSettings :
      (a padded : ℕ) (s : EspArtifactStorage F)
      → SameSettings s (commit_block nor a (a + nor.erase_size) padded s).1
  unfolding commit_block
  commit_block-SameSettings a padded s = ground arith

  -- What a success says of the calls, with and without the erase.
  erased_calls :
      (a padded : ℕ) (s : EspArtifactStorage F)
      → s.erase_before_write ≡ true
      → (commit_block nor a (a + nor.erase_size) padded s).0 ≡ ok tt
      → let erased = nor.erase a (a + nor.erase_size) s.device in
        let programmed = nor.program a (take padded s.scratch) erased.1 in
        (erased.0 ≡ some tt)
        × (programmed.0 ≡ some tt)
        × ((commit_block nor a (a + nor.erase_size) padded s).1.device ≡ programmed.1)
  unfolding commit_block
  erased_calls a padded s mode done = ground arith

  direct_calls :
      (a padded : ℕ) (s : EspArtifactStorage F)
      → s.erase_before_write ≡ false
      → (commit_block nor a (a + nor.erase_size) padded s).0 ≡ ok tt
      → let programmed = nor.program a (take padded s.scratch) s.device in
        (programmed.0 ≡ some tt)
        × ((commit_block nor a (a + nor.erase_size) padded s).1.device ≡ programmed.1)
  unfolding commit_block
  direct_calls a padded s mode done = ground arith

module _ {F : Type 0} (nor : NorFlash F) (laws : NorFlashLaws nor) where
  open laws use {cells}

  -- The device calls change nothing outside the erase block.
  pub commit_block_frame :
      (a padded : ℕ) (s : EspArtifactStorage F) (i : ℕ)
      → padded ≤ nor.erase_size
      → (i < a) ⊎ (a + nor.erase_size ≤ i)
      → cells (commit_block nor a (a + nor.erase_size) padded s).1.device i ≡ cells s.device i
  unfolding commit_block
  commit_block_frame a padded s i fits out =
      let erased = (nor.erase a (a + nor.erase_size) s.device).1 in
      ground (
        arith,
        laws.erase_frame a nor.erase_size s.device i,
        laws.program_frame a (take padded s.scratch) s.device i,
        laws.program_frame a (take padded s.scratch) erased i,
        length-take padded s.scratch,
      )

  -- Where the calls succeed and the block was erased, it holds the padded bytes.
  pub commit_block_stores :
      (a padded : ℕ) (s : EspArtifactStorage F)
      → padded ≤ nor.erase_size
      → (commit_block nor a (a + nor.erase_size) padded s).0 ≡ ok tt
      → (s.erase_before_write ≡ true) ⊎ IsErased (cells s.device) a nor.erase_size
      → Holds
          (cells (commit_block nor a (a + nor.erase_size) padded s).1.device)
          a
          (take padded s.scratch)
  unfolding commit_block
  commit_block_stores a padded s fits done clean = elim (Bool-cases s.erase_before_write) [
    | inl first ↦
        let (cleared, stored, after) = erased_calls nor a padded s first done in
        rw after (
          laws.program_stores a (take padded s.scratch) _ stored (
            IsErased_shorter (cells (nor.erase a (a + nor.erase_size) s.device).1)
              (laws.erase_clears a nor.erase_size s.device cleared)))
    | inr only ↦
        let (stored, after) = direct_calls nor a padded s only done in
        rw after (
          laws.program_stores a (take padded s.scratch) _ stored
            (IsErased_shorter (cells s.device) (was_erased clean only)))
  ]
    where
      IsErased_shorter :
          (c : Cells) → IsErased c a nor.erase_size → IsErased c a (length (take padded s.scratch))
      IsErased_shorter c h j lt = h j (omega (arith, length-take padded s.scratch))

      was_erased :
          (s.erase_before_write ≡ true) ⊎ IsErased (cells s.device) a nor.erase_size
          → s.erase_before_write ≡ false
          → IsErased (cells s.device) a nor.erase_size
      was_erased (inl e) o = cc
      was_erased (inr h) o = h
