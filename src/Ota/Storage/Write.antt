-- ===== src/Ota/Storage/Write.antt =====
-- `write`: the whole erase blocks of the pending bytes, one after another.
use espbewi.Common.{
  ℕ, zero, suc, ◌+◌, ◌-◌, ◌^◌, ◌≤◌, ◌<◌, ◌≡◌, ◌⊎◌, inl, inr, refl, ap, sym, ◌∙◌, true, false, List,
  ◌++◌, arith, length, take, drop, replicate, leb, Bool-cases, length-take, length-drop,
}
use mathlib.Core.Path.{subst}
use mathlib.Core.List.{append-nil}
use espbewi.Common.Words.{add_u64}
use espbewi.Common.Result.{Result, ok, err, Result-cases}
use espbewi.Flash.{NorFlash}
use espbewi.Flash.Laws.{NorFlashLaws, IsErased}
use espbewi.Flash.Slices.{slice, slice_cong}
use espbewi.Ota.{FlashWriteError}
use espbewi.Ota.Storage.{EspArtifactStorage, flush_block, write_loop, padded_length}
use espbewi.Ota.Storage.Device.{SameSettings, SameSettings-trans}
use espbewi.Ota.Storage.Block.{flush_block-SameSettings}
use espbewi.Ota.Storage.Flush.{padded_block, flush_block_frame, flush_block_stores}

module _ {F : Type 0} (nor : NorFlash F) (durable : ℕ) (pending : List ℕ) where
  -- The block that the loop flushes at `consumed`, and its offset.
  abbrev pub block_at : ℕ → List ℕ
  block_at consumed = take nor.erase_size (drop consumed pending)

  abbrev pub flush_at :
      ℕ → EspArtifactStorage F → Result FlashWriteError (Unit {0}) × EspArtifactStorage F
  flush_at consumed s = flush_block nor (add_u64 durable consumed) (block_at consumed) s

  pub write_loop_stop :
      (fuel consumed : ℕ) (s : EspArtifactStorage F)
      → leb nor.erase_size (length pending - consumed) ≡ false
      → write_loop nor (suc fuel) durable pending consumed s ≡ (ok consumed, s)
  unfolding write_loop
  write_loop_stop fuel consumed s e = rw (e, write_loop)

  pub write_loop_fail :
      (fuel consumed : ℕ) (s : EspArtifactStorage F) (c : FlashWriteError)
      → leb nor.erase_size (length pending - consumed) ≡ true
      → (flush_at consumed s).0 ≡ err c
      → write_loop nor (suc fuel) durable pending consumed s ≡ (err c, (flush_at consumed s).1)
  unfolding write_loop
  write_loop_fail fuel consumed s c e failed = rw (e, write_loop) (rw failed)

  pub write_loop_next :
      (fuel consumed : ℕ) (s : EspArtifactStorage F)
      → leb nor.erase_size (length pending - consumed) ≡ true
      → (flush_at consumed s).0 ≡ ok tt
      → write_loop nor (suc fuel) durable pending consumed s
        ≡ write_loop nor fuel durable pending (consumed + nor.erase_size) (flush_at consumed s).1
  unfolding write_loop
  write_loop_next fuel consumed s e done = rw (e, write_loop) (rw done)

  pub write_loop-zero :
      (consumed : ℕ) (s : EspArtifactStorage F)
      → write_loop nor zero durable pending consumed s ≡ (ok consumed, s)
  unfolding write_loop
  write_loop-zero consumed s = refl

  pub write_loop-SameSettings :
      (fuel consumed : ℕ) (s : EspArtifactStorage F)
      → 0 < nor.write_size
      → SameSettings s (write_loop nor fuel durable pending consumed s).1
  write_loop-SameSettings zero consumed s pos =
      rw (write_loop-zero consumed s)
        (record { offset = refl; size = refl; scratch = refl; mode = refl })
  write_loop-SameSettings (suc fuel) consumed s pos =
      let flushed =
        flush_block-SameSettings nor s (add_u64 durable consumed) (block_at consumed) pos in
      let rest =
        write_loop-SameSettings fuel (consumed + nor.erase_size) (flush_at consumed s).1 pos in
      elim (Bool-cases (leb nor.erase_size (length pending - consumed))) [
        | inr e ↦
            rw (write_loop_stop fuel consumed s e)
              (record { offset = refl; size = refl; scratch = refl; mode = refl })
        | inl e ↦ elim (Result-cases (flush_at consumed s).0) [
          | inr (c, failed) ↦ rw (write_loop_fail fuel consumed s c e failed) flushed
          | inl (u, done) ↦
              rw (write_loop_next fuel consumed s e done) (SameSettings-trans flushed rest)
        ]
      ]

  module _ (laws : NorFlashLaws nor) (fits : durable + length pending < 2 ^ 64) where
    open laws use {cells}

    offset_at :
        (consumed : ℕ) → consumed ≤ length pending → add_u64 durable consumed ≡ durable + consumed
    offset_at consumed le = omega arith

    -- The loop changes nothing in front of its first block and nothing behind the pending bytes.
    pub write_loop_frame :
        (fuel consumed : ℕ) (s : EspArtifactStorage F) (i : ℕ)
        → consumed ≤ length pending
        → ((i < s.partition_offset + durable + consumed)
            ⊎ (s.partition_offset + durable + length pending ≤ i))
          ⊎ ((i < s.partition_offset) ⊎ (s.partition_offset + s.partition_size ≤ i))
        → cells (write_loop nor fuel durable pending consumed s).1.device i ≡ cells s.device i
    write_loop_frame zero consumed s i le out = rw (write_loop-zero consumed s)
    write_loop_frame (suc fuel) consumed s i le out =
        elim (Bool-cases (leb nor.erase_size (length pending - consumed))) [
          | inr e ↦ rw (write_loop_stop fuel consumed s e)
          | inl e ↦
              let more : consumed + nor.erase_size ≤ length pending =
                ground (arith, laws.erase_size_pos) in
              let same =
                flush_block-SameSettings nor s (add_u64 durable consumed) (block_at consumed)
                  laws.write_size_pos in
              let flushed =
                flush_block_frame nor laws s (add_u64 durable consumed) (block_at consumed) i
                  (omega (arith, offset_at consumed le)) in
              elim (Result-cases (flush_at consumed s).0) [
                | inr (c, failed) ↦ rw (write_loop_fail fuel consumed s c e failed) flushed
                | inl (u, done) ↦ rw (write_loop_next fuel consumed s e done) (
                    write_loop_frame fuel (consumed + nor.erase_size) (flush_at consumed s).1 i more
                      (omega (arith, same.offset, same.size))
                    ∙ flushed)
              ]
        ]

    -- A whole block needs no padding.
    whole_block :
        (consumed : ℕ)
        → consumed + nor.erase_size ≤ length pending
        → padded_length nor (block_at consumed) ≤ nor.erase_size
        → padded_block nor (block_at consumed) ≡ block_at consumed
    whole_block consumed more padded =
        ap (λ n. block_at consumed ++ replicate n 0) no_padding ∙ append-nil (block_at consumed)
      where
        no_padding : padded_length nor (block_at consumed) - length (block_at consumed) ≡ 0
        no_padding = omega (
          arith,
          length-take nor.erase_size (drop consumed pending),
          length-drop consumed pending,
        )

    length_block :
        (consumed : ℕ)
        → consumed + nor.erase_size ≤ length pending
        → nor.erase_size ≡ length (block_at consumed)
    length_block consumed more =
        omega
          (arith, length-take nor.erase_size (drop consumed pending), length-drop consumed pending)

    pub block_stored :
        (consumed : ℕ) (s : EspArtifactStorage F)
        → consumed + nor.erase_size ≤ length pending
        → (flush_at consumed s).0 ≡ ok tt
        → (s.erase_before_write ≡ true)
          ⊎ IsErased (cells s.device) (s.partition_offset + durable + consumed) nor.erase_size
        → slice
            (cells (flush_at consumed s).1.device)
            (s.partition_offset + durable + consumed)
            nor.erase_size
          ≡ block_at consumed
    block_stored consumed s more done clean =
        let after = cells (flush_at consumed s).1.device in
        let here : s.partition_offset + durable + consumed
            ≡ s.partition_offset + add_u64 durable consumed =
          omega (arith, offset_at consumed (omega arith)) in
        let (flushable, stored) =
          flush_block_stores nor laws s (add_u64 durable consumed) (block_at consumed) done (
            subst (λ a. (s.erase_before_write ≡ true) ⊎ IsErased (cells s.device) a nor.erase_size)
              here clean) in
        let whole = whole_block consumed more flushable.padded in
        let size : nor.erase_size ≡ length (padded_block nor (block_at consumed)) =
          length_block consumed more ∙ ap length (sym whole) in
        (λ i. slice after (here i) (size i)) ∙ stored ∙ whole

    -- The bytes that a later part of the loop leaves alone.
    pub block_kept :
        (fuel consumed : ℕ) (s : EspArtifactStorage F)
        → consumed + nor.erase_size ≤ length pending
        → let s' = (flush_at consumed s).1 in
          slice
            (cells (write_loop nor fuel durable pending (consumed + nor.erase_size) s').1.device)
            (s.partition_offset + durable + consumed)
            nor.erase_size
          ≡ slice (cells s'.device) (s.partition_offset + durable + consumed) nor.erase_size
    block_kept fuel consumed s more =
        let same =
          flush_block-SameSettings nor s (add_u64 durable consumed) (block_at consumed)
            laws.write_size_pos in
        slice_cong _ _ _ _ λ j lt.
          write_loop_frame fuel (consumed + nor.erase_size) (flush_at consumed s).1
            (s.partition_offset + durable + consumed + j) more (omega (arith, same.offset))

    -- What is not yet written is still erased, or is erased before each write.
    pub clean_kept :
        (consumed : ℕ) (s : EspArtifactStorage F)
        → consumed + nor.erase_size ≤ length pending
        → (s.erase_before_write ≡ true)
          ⊎ IsErased
              (cells s.device)
              (s.partition_offset + durable + consumed)
              (length pending - consumed)
        → let s' = (flush_at consumed s).1 in
          (s'.erase_before_write ≡ true)
          ⊎ IsErased
              (cells s'.device)
              (s'.partition_offset + durable + (consumed + nor.erase_size))
              (length pending - (consumed + nor.erase_size))
    clean_kept consumed s more (inl mode) = inl (
        (flush_block-SameSettings nor s (add_u64 durable consumed) (block_at consumed)
          laws.write_size_pos).mode
        ∙ mode)
    clean_kept consumed s more (inr erased) = inr λ j lt.
        let same =
          flush_block-SameSettings nor s (add_u64 durable consumed) (block_at consumed)
            laws.write_size_pos in
        let i =
          (flush_at consumed s).1.partition_offset + durable + (consumed + nor.erase_size) + j in
        let there : i ≡ s.partition_offset + durable + consumed + (nor.erase_size + j) =
          omega (arith, same.offset) in
        flush_block_frame nor laws s (add_u64 durable consumed) (block_at consumed) i
          (omega (arith, offset_at consumed (omega arith), same.offset))
        ∙ ap (cells s.device) there
        ∙ erased (nor.erase_size + j) (omega arith)
