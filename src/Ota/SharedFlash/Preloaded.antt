-- ===== src/Ota/SharedFlash/Preloaded.antt =====
-- `hash_preloaded`: which bytes are hashed.
use espbewi.Common.{
  ℕ, zero, suc, ◌+◌, ◌-◌, ◌≤◌, ◌≡◌, sym, ap, ◌∙◌, inl, inr, true, some, List, [], ◌++◌, arith, ltb,
  Bool-cases,
}
use espbewi.Common.Words.{two_32, add_u32}
use espbewi.Common.Result.{ok, Result-cases}
use espbewi.Common.Exec.{Exec, pure, attempt, attempt_ok, fail_if, bind_ok, ◌>>=◌}
use espbewi.Flash.{NorFlash}
use espbewi.Flash.Laws.{NorFlashLaws, Cells}
use espbewi.Flash.Slices.{slice, Holds-slice, slice-append}
use espbewi.Partitions.{TableParser}
use espbewi.BootEntries.{BootCore}
use espbewi.Ota.{AppSlot, AppPartition}
use espbewi.Ota.Otadata.{write_target}
use espbewi.Ota.SharedFlash.{
  PreloadedError, too_large, flash_failed, Hasher, take_of, hash_loop, hash_preloaded,
}

-- Hashing in pieces is hashing the whole.
pub record HasherLaws {D : Type 0} (hasher : Hasher D) : Type 0 where
  pub update_nothing : (d : D) → hasher.update d [] ≡ d
  pub update_twice :
      (d : D) (as' bs : List ℕ)
      → hasher.update (hasher.update d as') bs ≡ hasher.update d (as' ++ bs)

module _ {F Table E D : Type 0} (nor : NorFlash F) (laws : NorFlashLaws nor)
    (parser : TableParser F Table) (core : BootCore E) (hasher : Hasher D)
    (hasher_laws : HasherLaws hasher) where
  open laws use {cells}

  read_slice :
      (a n : ℕ) (f : F) (bytes : List ℕ)
      → (nor.read a n f).0 ≡ some bytes
      → slice (cells f) a n ≡ bytes
  read_slice a n f bytes e =
      ap (slice (cells f) a) (sym (laws.read_length a n f bytes e))
      ∙ Holds-slice (cells f) a bytes (laws.read_holds a n f bytes e)

  -- One piece and the rest of the image.
  join-slice :
      (c : Cells) (d : D) (base size offset : ℕ)
      → base + size ≤ two_32
      → ltb offset size ≡ true
      → hasher.update
          (hasher.update d (slice c (add_u32 base offset) (take_of size offset)))
          (slice c (base + (offset + take_of size offset)) (size - (offset + take_of size offset)))
        ≡ hasher.update d (slice c (base + offset) (size - offset))
  join-slice c d base size offset fits more =
      let at : add_u32 base offset ≡ base + offset = ground arith in
      let next : base + (offset + take_of size offset) ≡ base + offset + take_of size offset =
        omega arith in
      let whole : take_of size offset + (size - (offset + take_of size offset)) ≡ size - offset =
        ground arith in
      hasher_laws.update_twice d (slice c (add_u32 base offset) (take_of size offset))
        (slice c (base + (offset + take_of size offset)) (size - (offset + take_of size offset)))
      ∙ (λ i. hasher.update d (
          slice c (at i) (take_of size offset)
          ++ slice c (next i) (size - (offset + take_of size offset))))
      ∙ ap (hasher.update d) (
          sym (
            slice-append c (base + offset) (take_of size offset)
              (size - (offset + take_of size offset))))
      ∙ (λ i. hasher.update d (slice c (base + offset) (whole i)))

  nothing_left :
      (c : Cells) (d d' : D) (base size offset : ℕ)
      → size ≤ offset
      → d ≡ d'
      → d' ≡ hasher.update d (slice c (base + offset) (size - offset))
  nothing_left c d d' base size offset past same =
      let none_left : size - offset ≡ 0 = omega arith in
      rw none_left (sym same ∙ sym (hasher_laws.update_nothing d))

  hash_loop-slice :
      (fuel base size offset : ℕ) (d d' : D) (f : F)
      → base + size ≤ two_32
      → size - offset ≤ fuel
      → (hash_loop nor parser core hasher fuel base size offset d f).0 ≡ ok d'
      → d' ≡ hasher.update d (slice (cells f) (base + offset) (size - offset))
  unfolding hash_loop
  hash_loop-slice zero base size offset d d' f fits enough e =
      nothing_left (cells f) d d' base size offset (omega arith) (ground arith)
  hash_loop-slice (suc fuel) base size offset d d' f fits enough e =
      elim (Bool-cases (ltb offset size)) [
        | inr stop ↦
            let e' = rw (stop, hash_loop) at e in
            nothing_left (cells f) d d' base size offset (ground arith) (ground arith)
        | inl more ↦
            let e' = rw (more, hash_loop) at e in
            let piece =
              attempt (nor.read (add_u32 base offset) (take_of size offset)) flash_failed in
            let later = offset + take_of size offset in
            let (bytes, read, run) =
              bind_ok piece
                (λ bytes.
                  hash_loop nor parser core hasher fuel base size later (hasher.update d bytes))
                f d' e' in
            let e2 = rw run at e' in
            let found =
              attempt_ok (nor.read (add_u32 base offset) (take_of size offset)) flash_failed f bytes
                read in
            let same = read_slice (add_u32 base offset) (take_of size offset) f bytes found in
            let kept = laws.read_keeps (add_u32 base offset) (take_of size offset) f in
            hash_loop-slice fuel base size later (hasher.update d bytes) d' (piece f).1 fits
              (ground arith) e2
            ∙ (λ i.
                hasher.update (hasher.update d (sym same i))
                  (slice (kept i) (base + later) (size - later)))
            ∙ join-slice (cells f) d base size offset fits more
      ]

  hash_target-slice :
      (size : ℕ) (f : F) (slot : AppSlot) (digest : List ℕ) (target : AppPartition)
      → (write_target nor parser core f).0 ≡ ok target
      → target.offset + target.size ≤ two_32
      → (hash_preloaded nor parser core hasher size f).0 ≡ ok (slot, digest)
      → (slot ≡ target.slot)
        × (size ≤ target.size)
        × (digest
            ≡ hasher.finalize (
                hasher.update hasher.start
                  (slice (cells (write_target nor parser core f).1) target.offset size)))
  unfolding hash_preloaded
  hash_target-slice size f slot digest target chosen fits e =
      let f1 = (write_target nor parser core f).1 in
      let e1 = rw chosen at e in
      let answer : D → Exec F PreloadedError (AppSlot × List ℕ) =
        λ d. pure (target.slot, hasher.finalize d) in
      let hashing = hash_loop nor parser core hasher size target.offset size 0 hasher.start in
      let (a, small, run1) =
        bind_ok (fail_if (ltb target.size size) too_large) (λ _. hashing >>= answer) f1
          (slot, digest) e1 in
      let e2 = rw run1 at e1 in
      let (d, hashed, run2) = bind_ok hashing answer f1 (slot, digest) e2 in
      let e3 = rw run2 at e2 in
      let made : hasher.finalize d ≡ digest = cc in
      let inside : size ≤ target.size = ground arith in
      let whole =
        hash_loop-slice size target.offset size 0 hasher.start d f1 (omega arith) (omega arith)
          hashed in
      let from_start : target.offset + 0 ≡ target.offset = omega arith in
      let all : size - 0 ≡ size = omega arith in
      (
        cc,
        inside,
        sym made ∙ ap hasher.finalize whole ∙ (λ i.
            hasher.finalize (hasher.update hasher.start (slice (cells f1) (from_start i) (all i)))),
      )

  -- Where a partition that `write_target` chooses ends below the end of the 32-bit addresses: if
  -- `hash_preloaded` answers `Ok`, then `write_target` succeeds, the slot is the one of the partition
  -- that it chose, `size` does not exceed it, and the digest is the one of its first `size` bytes.
  pub hash_preloaded-slice :
      (size : ℕ) (f : F) (slot : AppSlot) (digest : List ℕ)
      → ((target : AppPartition)
          → (write_target nor parser core f).0 ≡ ok target
          → target.offset + target.size ≤ two_32)
      → (hash_preloaded nor parser core hasher size f).0 ≡ ok (slot, digest)
      → (target : AppPartition) × ((write_target nor parser core f).0 ≡ ok target)
        × (slot ≡ target.slot)
        × (size ≤ target.size)
        × (digest
            ≡ hasher.finalize (
                hasher.update hasher.start
                  (slice (cells (write_target nor parser core f).1) target.offset size)))
  unfolding hash_preloaded
  hash_preloaded-slice size f slot digest below e =
      elim (Result-cases (write_target nor parser core f).0) [
        | inr (c, failed) ↦ let e' = rw failed at e in absurd (cc)
        | inl (target, chosen) ↦
            let (same, inside, whole) =
              hash_target-slice size f slot digest target chosen (below target chosen) e in
            (target, chosen, same, inside, whole)
      ]
