-- ===== src/Examples/UploadRuns.antt =====
-- An upload to the flash in memory, and the hash of a preloaded image.
use espbewi.Common.{
  ℕ, ◌+◌, ◌≤◌, ◌≡◌, refl, subst, ◌⊎◌, true, false, List, [], ◌∷◌, ◌++◌, length, arith,
}
use mathlib.Core.List.{append-nil, append_assoc}
use espbewi.Common.Result.{Result, ok}
use espbewi.Common.Words.{two_32}
use espbewi.Flash.Laws.{Cells}
use espbewi.Flash.Slices.{slice}
use espbewi.Partitions.{find}
use espbewi.Ota.{AppPartition, ota_1, find_app_partition}
use espbewi.Ota.Otadata
use espbewi.Ota.Otadata.{write_target, read_entries, read_at}
use espbewi.Ota.SharedFlash.{
  Hasher, hash_preloaded, hash_loop, SessionApi, Upload, append, new_writer,
}
use espbewi.Ota.SharedFlash.Preloaded.{HasherLaws, hash_preloaded-slice}
use espbewi.Ota.SharedFlash.EraseAhead.{SessionLaws, IsAhead, append-erased_through}
use espbewi.Examples.Ram.{ram, ram_laws, set_cells, set_outside}
use espbewi.Examples.Core.{small_core, small_table}

-- A digest that is the bytes themselves.
abbrev plain : Hasher (List ℕ)
plain = record { start = []; update = λ d bytes. d ++ bytes; finalize = λ d. d }

abbrev plain_laws : HasherLaws plain
plain_laws = record { update_nothing = append-nil; update_twice = append_assoc }

-- The first entry, number 4, and an image in the second slot.
abbrev preloaded : Cells
preloaded =
    set_cells 131072 (1 ∷ 2 ∷ 3 ∷ 4 ∷ 5 ∷ [])
      (set_cells 8192 (4 ∷ 1 ∷ 2 ∷ 3 ∷ 9 ∷ 9 ∷ 9 ∷ 9 ∷ []) (λ i. 255))

abbrev second_slot : AppPartition
second_slot = record { slot = ota_1; offset = 131072; size = 8192 }

-- The partition that is chosen ends below the end of the addresses.
chosen_below :
    (target : AppPartition)
    → (write_target ram small_table small_core preloaded).0 ≡ ok target
    → target.offset + target.size ≤ two_32
unfolding write_target read_entries read_at find_app_partition find
chosen_below target e =
    let same : second_slot ≡ target = only_target second_slot target e in
    subst (λ (t : AppPartition). t.offset + t.size ≤ two_32) same (omega arith)
  where
    only_target :
        (a b : AppPartition) → ◌≡◌ {A = Result Otadata.Error AppPartition} (ok a) (ok b) → a ≡ b
    only_target a b e = cc

hash_preloaded-slice_example :
    (target : AppPartition) × ((write_target ram small_table small_core preloaded).0 ≡ ok target)
    × (ota_1 ≡ target.slot)
    × (3 ≤ target.size)
    × (1 ∷ 2 ∷ 3 ∷ []
        ≡ plain.finalize (
            plain.update plain.start
              (slice (write_target ram small_table small_core preloaded).1 target.offset 3)))
unfolding hash_preloaded hash_loop write_target read_entries read_at find_app_partition find
hash_preloaded-slice_example =
    hash_preloaded-slice ram ram_laws small_table small_core plain plain_laws 3 preloaded ota_1
      (1 ∷ 2 ∷ 3 ∷ []) chosen_below refl

-- A session that counts, and writes the bytes where they belong.
abbrev counting : SessionApi Cells ℕ ℕ ℕ
counting = record {
  can_append = λ w n. true;
  received = λ w. w;
  durable = λ w. w;
  append = λ bytes w s. (
    true,
    w + length bytes,
    record s { device = set_cells (s.partition_offset + w) bytes s.device },
  );
  finish = λ w s. (ok w, s);
  incomplete = λ n. n;
  backend_error = λ e. 0;
  committed_size = λ c. c;
}

abbrev started : Upload Cells ℕ
started = record {
  writer = new_writer ram counting (record { slot = ota_1; offset = 131072; size = 131072 });
  session = 0;
  flash = λ i. 7;
}

abbrev counting_laws : SessionLaws ram ram_laws counting
counting_laws = record {
  append_writes =
      λ bytes w s i out. set_outside (s.partition_offset + w) bytes s.device i (omega (arith, out));
}

append-erased_through_example :
    let (good, u') = append ram counting (5 ∷ 6 ∷ []) started in
    (0 ≤ u'.writer.erased_through)
    × (u'.writer.erased_through ≤ u'.writer.partition.size)
    × (u'.writer.partition ≡ started.writer.partition)
    × IsAhead ram ram_laws counting counting_laws 2 u'
    × ((good ≡ false) ⊎ (2 ≤ u'.writer.erased_through))
unfolding new_writer append
append-erased_through_example =
    append-erased_through ram ram_laws counting counting_laws (5 ∷ 6 ∷ []) started
      (λ j low high. absurd (omega arith)) (omega arith) (omega arith) (omega arith)
