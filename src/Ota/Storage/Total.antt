-- ===== src/Ota/Storage/Total.antt =====
-- `write` on a device that answers every call: it succeeds, and its loop ends by its own test.
use native.Mathlib.Nat.{div-eq_of_lt-le, mul-mod_left, mul_assoc, add-mul}
use espbewi.Common.{
  ℕ, zero, suc, ◌+◌, ◌-◌, ◌*◌, ◌%◌, ◌^◌, ◌≤◌, ◌<◌, ◌≡◌, inl, inr, refl, ap, sym, ◌∙◌, true, false,
  ◌||◌, some, List, arith, length, take, drop, ltb, leb, Bool-cases, length-take, length-drop,
}
use espbewi.Common.Words.{add_u64, div_ceil}
use espbewi.Common.Result.{ok}
use espbewi.Flash.{NorFlash}
use espbewi.Flash.Laws.{NorFlashLaws}
use espbewi.Flash.Slices.{slice}
use espbewi.Ota.Storage.{
  EspArtifactStorage, padded_length, commit_block, place_block, flush_block, write_loop, write,
}
use espbewi.Ota.Storage.Block.{filled, length-filled, flush_block-SameSettings}
use espbewi.Ota.Storage.Write.{
  block_at, flush_at, write_loop_stop, write_loop_next, write_loop-zero,
}
use espbewi.Ota.Storage.Durable.{whole_blocks, IsPrepared, write_stores}

-- A device of `capacity` bytes that answers what the trait `NorFlash` promises: the erase of a whole
-- block and the programming of whole write units, at an aligned address, inside the device.
pub record IsReliable {F : Type 0} (nor : NorFlash F) (capacity : ℕ) : Type 0 where
  pub erases :
      (a : ℕ) (f : F)
      → a % nor.erase_size ≡ 0
      → a + nor.erase_size ≤ capacity
      → (nor.erase a (a + nor.erase_size) f).0 ≡ some tt
  pub programs :
      (a : ℕ) (bytes : List ℕ) (f : F)
      → a % nor.write_size ≡ 0
      → length bytes % nor.write_size ≡ 0
      → a + length bytes ≤ capacity
      → (nor.program a bytes f).0 ≡ some tt

-- A multiple of a multiple.
block_aligned :
    (a blocks units size unit : ℕ) → a ≡ blocks * size → size ≡ units * unit → a % unit ≡ 0
block_aligned a blocks units size unit e whole =
    ap (λ n. n % unit) (e ∙ ap (λ n. blocks * n) whole ∙ sym (mul_assoc blocks units unit))
    ∙ mul-mod_left (blocks * units) unit

module _ {F : Type 0} (nor : NorFlash F) (capacity : ℕ) (reliable : IsReliable nor capacity)
    (units : ℕ) (whole : nor.erase_size ≡ units * nor.write_size) where
  commit_block_total :
      (a blocks padded : ℕ) (s : EspArtifactStorage F)
      → padded ≡ nor.erase_size
      → a ≡ blocks * nor.erase_size
      → a + nor.erase_size ≤ capacity
      → nor.erase_size ≤ length s.scratch
      → (commit_block nor a (a + nor.erase_size) padded s).0 ≡ ok tt
  unfolding commit_block
  commit_block_total a blocks padded s is_block at inside room =
      let long : length (take padded s.scratch) ≡ nor.erase_size =
        omega (arith, is_block, length-take padded s.scratch) in
      let units_long : length (take padded s.scratch) % nor.write_size ≡ 0 =
        ap (λ n. n % nor.write_size) (long ∙ whole) ∙ mul-mod_left units nor.write_size in
      let unit = block_aligned a blocks units nor.erase_size nor.write_size at whole in
      let erases = λ (f : F).
        reliable.erases a f (ap (λ n. n % nor.erase_size) at ∙ mul-mod_left blocks nor.erase_size)
          inside in
      let programs = λ (f : F).
        reliable.programs a (take padded s.scratch) f unit units_long (omega (arith, long)) in
      elim (Bool-cases s.erase_before_write) [
        | inl first ↦
            rw (first, erases s.device, programs (nor.erase a (a + nor.erase_size) s.device).1) refl
        | inr only ↦ rw (only, programs s.device) refl
      ]

  flush_block_total :
      (logical blocks : ℕ) (bytes : List ℕ) (s : EspArtifactStorage F)
      → length bytes ≤ nor.erase_size
      → logical % nor.erase_size ≡ 0
      → s.partition_offset + logical ≡ blocks * nor.erase_size
      → s.partition_offset + s.partition_size ≤ capacity
      → logical + nor.erase_size ≤ s.partition_size
      → s.partition_offset + s.partition_size < 2 ^ 32
      → padded_length nor bytes ≡ nor.erase_size
      → nor.erase_size ≤ length s.scratch
      → 0 < nor.write_size
      → (flush_block nor logical bytes s).0 ≡ ok tt
  unfolding flush_block place_block
  flush_block_total logical blocks bytes s short aligned at ends inside addressable padded room
        pos =
      let t1 : ltb nor.erase_size (length bytes) ≡ false = ground arith in
      let t2 : ltb logical (2 ^ 32) ≡ true = ground arith in
      let t4 : ltb (logical + nor.erase_size) (2 ^ 32) ≡ true = ground arith in
      let t5 : ltb s.partition_size (logical + nor.erase_size) ≡ false = ground arith in
      let t6 : ltb nor.erase_size (padded_length nor bytes)
            || ltb (length s.scratch) (padded_length nor bytes)
          ≡ false =
        ground arith in
      let t7 : ltb (s.partition_offset + logical) (2 ^ 32) ≡ true = ground arith in
      let t8 : ltb (s.partition_offset + logical + nor.erase_size) (2 ^ 32) ≡ true = ground arith in
      rw (t1, t2, aligned, t4, t5, t6, t7, t8)
        (commit_block_total (s.partition_offset + logical) blocks (padded_length nor bytes)
          (filled nor s bytes) padded at (omega arith)
          (omega (arith, length-filled nor s bytes (omega (arith, padded)) pos)))

  -- A block of whole write units needs no padding.
  whole_padded :
      (units : ℕ) (bytes : List ℕ)
      → 0 < nor.write_size
      → nor.erase_size ≡ units * nor.write_size
      → length bytes ≡ nor.erase_size
      → padded_length nor bytes ≡ nor.erase_size
  whole_padded units bytes pos whole long =
      let e : div_ceil (length bytes) nor.write_size ≡ units =
        div-eq_of_lt-le nor.write_size (omega (arith, whole, long)) (omega (arith, whole, long)) in
      ap (λ n. n * nor.write_size) e ∙ sym whole

  module _ (laws : NorFlashLaws nor) (durable : ℕ) (pending : List ℕ) (first : ℕ) where
    -- The pending bytes lie in the partition, which starts at the block `first` of the device, and a
    -- block fits the scratch area.
    pub record HasRoom (s : EspArtifactStorage F) : Type 0 where
      pub inside : durable + length pending ≤ s.partition_size
      pub starts : s.partition_offset ≡ first * nor.erase_size
      pub ends : s.partition_offset + s.partition_size ≤ capacity
      pub addressable : s.partition_offset + s.partition_size < 2 ^ 32
      pub room : nor.erase_size ≤ length s.scratch

    flush_at_total :
        (consumed blocks : ℕ) (s : EspArtifactStorage F)
        → HasRoom s
        → consumed + nor.erase_size ≤ length pending
        → durable + consumed ≡ blocks * nor.erase_size
        → (flush_at nor durable pending consumed s).0 ≡ ok tt
    flush_at_total consumed blocks s fits more aligned =
        let block = block_at nor durable pending consumed in
        let long : length block ≡ nor.erase_size = omega (
          arith,
          length-take nor.erase_size (drop consumed pending),
          length-drop consumed pending,
          more,
        ) in
        let padded = whole_padded units block laws.write_size_pos whole long in
        let at : add_u64 durable consumed ≡ durable + consumed =
          omega (arith, fits.inside, fits.addressable) in
        flush_block_total (add_u64 durable consumed) (first + blocks) block s (omega (arith, long))
          (ap (λ n. n % nor.erase_size) (at ∙ aligned) ∙ mul-mod_left blocks nor.erase_size)
          (omega (
            arith,
            at,
            aligned,
            fits.starts,
            fits.inside,
            fits.addressable,
            add-mul first blocks nor.erase_size,
          ))
          fits.ends (omega (arith, at, fits.inside)) fits.addressable padded fits.room
          laws.write_size_pos

    write_loop_total :
        (fuel consumed blocks : ℕ) (s : EspArtifactStorage F)
        → HasRoom s
        → consumed ≤ length pending
        → durable + consumed ≡ blocks * nor.erase_size
        → (n : ℕ) × ((write_loop nor fuel durable pending consumed s).0 ≡ ok n)
    write_loop_total zero consumed blocks s fits le aligned =
        (consumed, ap (λ r. r.0) (write_loop-zero nor durable pending consumed s))
    write_loop_total (suc fuel) consumed blocks s fits le aligned =
        elim (Bool-cases (leb nor.erase_size (length pending - consumed))) [
          | inr e ↦
              (consumed, ap (λ r. r.0) (write_loop_stop nor durable pending fuel consumed s e))
          | inl e ↦
              let more : consumed + nor.erase_size ≤ length pending =
                ground (arith, laws.erase_size_pos) in
              let done = flush_at_total consumed blocks s fits more aligned in
              let s' = (flush_at nor durable pending consumed s).1 in
              let same =
                flush_block-SameSettings nor s (add_u64 durable consumed)
                  (block_at nor durable pending consumed) laws.write_size_pos in
              let fits' : HasRoom s' = record {
                inside = omega (arith, same.size, fits.inside);
                starts = same.offset ∙ fits.starts;
                ends = omega (arith, same.size, same.offset, fits.ends);
                addressable = omega (arith, same.size, same.offset, fits.addressable);
                room = omega (arith, same.scratch, fits.room);
              } in
              let (n, rest) =
                write_loop_total fuel (consumed + nor.erase_size) (blocks + 1) s' fits' more
                  (omega (arith, aligned)) in
              (n, ap (λ r. r.0) (write_loop_next nor durable pending fuel consumed s e done) ∙ rest)
        ]

    -- On a device that answers every aligned erase of a block and every aligned programming inside it, and
    -- whose erase block is whole write units: `write` of bytes that lie in a partition inside the
    -- device, at a whole block, below the end of the 32-bit addresses, on flash that is erased or is
    -- erased before each write, from a durable offset of whole erase blocks on, with a scratch area of
    -- a block, succeeds: its loop ends by its own test, after all the whole blocks of the pending
    -- bytes, which the flash then holds.
    pub write_total :
        (s : EspArtifactStorage F) (blocks : ℕ)
        → HasRoom s
        → durable ≡ blocks * nor.erase_size
        → IsPrepared nor durable pending s (laws.cells s.device)
        → let n = whole_blocks nor durable pending s in
          ((write nor durable pending s).0 ≡ ok (durable + n))
          × (slice
                (laws.cells (write nor durable pending s).1.device)
                (s.partition_offset + durable)
                n
              ≡ take n pending)
    unfolding write
    write_total s blocks fits aligned prepared =
        let (n, looped) =
          write_loop_total (length pending) 0 blocks s fits (omega arith)
            (omega (arith, aligned)) in
        let answered : (write nor durable pending s).0 ≡ ok (add_u64 durable n) = rw looped refl in
        let (all, stored) =
          write_stores nor laws durable pending s (omega (arith, fits.inside, fits.addressable))
            (add_u64 durable n) answered prepared in
        (answered ∙ ap ok all, stored)
