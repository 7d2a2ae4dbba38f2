-- ===== src/Examples/OtaRuns.antt =====
-- The OTA storage and partition erasing on a concrete flash.
use espbewi.Common.{
  ℕ, ◌+◌, ◌<◌, ◌≡◌, ◌⊎◌, refl, true, List, [], ◌∷◌, ◌++◌, arith, inl, inr, length, replicate, take,
}
use espbewi.Common.Result.{ok, err}
use espbewi.Flash.Laws.{Cells, SameOutside}
use espbewi.Flash.Slices.{slice}
use espbewi.Partitions.{PartitionRange, address_overflow, unaligned, flash_failed, erase_range}
use espbewi.Partitions.Erase.{IsErasable, erase_range_lem}
use espbewi.Ota.Storage.{EspArtifactStorage, flush_block, write_loop, write, finish}
use espbewi.Ota.Storage.Block.{IsFlushable}
use espbewi.Ota.Storage.Flush.{padded_block}
use espbewi.Ota.Storage.Durable.{whole_blocks, write_frame, write_stores}
use espbewi.Ota.Storage.Finish.{finish_stores}
use espbewi.Ota.Storage.Total.{IsReliable, write_total}
use espbewi.Examples.Ram.{ram, ram_laws}

abbrev dirty : Cells
dirty _ = 7

abbrev slot : PartitionRange
slot = record { offset = 64; size = 64 }

abbrev store : EspArtifactStorage Cells
store = record {
  device = dirty;
  partition_offset = 64;
  partition_size = 64;
  scratch = replicate 16 9;
  erase_before_write = true;
}

abbrev image : List ℕ
image = replicate 16 1 ++ (replicate 16 2 ++ (3 ∷ 4 ∷ []))

-- Two whole blocks are durable, and the rest is finished with a padded block.
upload :
    let (a, s1) = write ram 0 image store in
    let (b, s2) = finish ram 32 (3 ∷ 4 ∷ []) s1 in
    (a ≡ ok 32) × (b ≡ ok 34) × (slice s2.device 64 38 ≡ image ++ (0 ∷ 0 ∷ 0xFF ∷ 0xFF ∷ []))
unfolding write write_loop finish flush_block
upload = (refl, refl, refl)

erase_range_lem_example :
    let out = erase_range ram slot 16 32 dirty in
    SameOutside dirty (ram_laws.cells out.1) 80 16
    × SameOutside dirty (ram_laws.cells out.1) 64 64
    × (((¬ IsErasable 16 slot 16 32)
          × ((out ≡ (err address_overflow, dirty)) ⊎ (out ≡ (err unaligned, dirty))))
        ⊎ ((◌≡◌ {A = ℕ} 16 32) × (out ≡ (ok tt, dirty)))
        ⊎ (IsErasable 16 slot 16 32
            × (16 < 32)
            × ((out.0 ≡ err flash_failed)
                ⊎ ((out.0 ≡ ok tt) × (slice (ram_laws.cells out.1) 80 16 ≡ replicate 16 0xFF)))))
erase_range_lem_example = erase_range_lem ram ram_laws slot 16 32 dirty

write_frame_example : ram_laws.cells (write ram 0 image store).1.device 98 ≡ 7
write_frame_example =
    write_frame ram ram_laws 0 image store (omega arith) 98 (inl (inr (omega arith)))

write_stores_example :
    (32 ≡ 0 + whole_blocks ram 0 image store)
    × (slice (ram_laws.cells (write ram 0 image store).1.device) 64 (whole_blocks ram 0 image store)
        ≡ take (whole_blocks ram 0 image store) image)
unfolding write write_loop flush_block
write_stores_example = write_stores ram ram_laws 0 image store (omega arith) 32 refl (inl refl)

finish_stores_example :
    (18 ≡ 16 + 2)
    × (2 < 16)
    × IsFlushable ram store 16 (3 ∷ 4 ∷ [])
    × (slice
          (ram_laws.cells (finish ram 16 (3 ∷ 4 ∷ []) store).1.device)
          80
          (length (padded_block ram (3 ∷ 4 ∷ [])))
        ≡ padded_block ram (3 ∷ 4 ∷ []))
unfolding finish flush_block
finish_stores_example =
    finish_stores ram 16 store ram_laws (3 ∷ 4 ∷ []) 18 (λ e. cc) (omega arith) refl (inl refl)

ram-IsReliable : IsReliable ram 4096
ram-IsReliable = record {
  erases = λ a c aligned inside. refl;
  programs = λ a bytes c aligned units inside. refl;
}

write_total_example :
    ((write ram 0 image store).0 ≡ ok (0 + whole_blocks ram 0 image store))
    × (slice (ram_laws.cells (write ram 0 image store).1.device) 64 (whole_blocks ram 0 image store)
        ≡ take (whole_blocks ram 0 image store) image)
write_total_example =
    write_total ram 4096 ram-IsReliable 4 (omega arith) ram_laws 0 image 4 store 0
      (record {
        inside = omega arith;
        starts = omega arith;
        ends = omega arith;
        addressable = omega arith;
        room = omega arith;
      })
      (omega arith) (inl refl)
