-- ===== src/Ota/Storage/Behind.antt =====
-- `write`: the bytes behind the last block that it flushed.
use espbewi.Common.{
  ℕ, zero, suc, ◌+◌, ◌-◌, ◌^◌, ◌≤◌, ◌<◌, ◌≡◌, inl, inr, refl, ◌∙◌, List, arith, length, leb,
  Bool-cases,
}
use espbewi.Common.Words.{add_u64}
use espbewi.Common.Result.{ok, Result-cases}
use espbewi.Flash.{NorFlash}
use espbewi.Flash.Laws.{NorFlashLaws}
use espbewi.Ota.Storage.{EspArtifactStorage, write_loop}
use espbewi.Ota.Storage.Block.{flush_block-SameSettings}
use espbewi.Ota.Storage.Flush.{flush_block_frame}
use espbewi.Ota.Storage.Write.{
  block_at, flush_at, write_loop_stop, write_loop_fail, write_loop_next, write_loop-zero,
}

module _ {F : Type 0} (nor : NorFlash F) (laws : NorFlashLaws nor) (durable : ℕ) (pending : List ℕ)
    (fits : durable + length pending < 2 ^ 64) where
  open laws use {cells}

  -- The answer of the loop does not go back and lies in the pending bytes; behind it nothing changes.
  pub write_loop_behind :
      (fuel consumed n : ℕ) (s : EspArtifactStorage F)
      → consumed ≤ length pending
      → (write_loop nor fuel durable pending consumed s).0 ≡ ok n
      → (consumed ≤ n)
        × (n ≤ length pending)
        × ((i : ℕ)
            → s.partition_offset + durable + n ≤ i
            → cells (write_loop nor fuel durable pending consumed s).1.device i ≡ cells s.device i)
  write_loop_behind zero consumed n s le e =
      let same : consumed ≡ n =
        let e' = rw (write_loop-zero nor durable pending consumed s) at e in cc in
      (
        omega (arith, same),
        omega (arith, same, le),
        λ i h. rw (write_loop-zero nor durable pending consumed s) refl,
      )
  write_loop_behind (suc fuel) consumed n s le e =
      elim (Bool-cases (leb nor.erase_size (length pending - consumed))) [
        | inr stop ↦
            let same : consumed ≡ n =
              let e' = rw (write_loop_stop nor durable pending fuel consumed s stop) at e in cc in
            (
              omega (arith, same),
              omega (arith, same, le),
              λ i h. rw (write_loop_stop nor durable pending fuel consumed s stop) refl,
            )
        | inl more ↦ elim (Result-cases (flush_at nor durable pending consumed s).0) [
          | inr (c, failed) ↦
              let e' =
                rw (write_loop_fail nor durable pending fuel consumed s c more failed) at e in
              absurd (cc)
          | inl (u, done) ↦
              let next = write_loop_next nor durable pending fuel consumed s more done in
              let inside : consumed + nor.erase_size ≤ length pending =
                ground (arith, laws.erase_size_pos) in
              let s' = (flush_at nor durable pending consumed s).1 in
              let (forward, inside_n, behind) =
                write_loop_behind fuel (consumed + nor.erase_size) n s' inside (rw next at e) in
              let same =
                flush_block-SameSettings nor s (add_u64 durable consumed)
                  (block_at nor durable pending consumed) laws.write_size_pos in
              let at : add_u64 durable consumed ≡ durable + consumed = omega (arith, le) in
              (
                omega (arith, forward),
                inside_n,
                λ i h. rw next (
                    behind i (omega (arith, same.offset, h))
                    ∙ flush_block_frame nor laws s (add_u64 durable consumed)
                        (block_at nor durable pending consumed) i
                        (inl (inr (omega (arith, at, forward, h))))),
              )
        ]
      ]
