-- ===== src/Partitions/Erase.antt =====
-- `erase_range`: which ranges it erases, and that it stays inside them.
use espbewi.Common.{
  ℕ, ◌+◌, ◌-◌, ◌%◌, ◌^◌, ◌≤◌, ◌<◌, ◌==◌, ◌≡◌, ◌⊎◌, inl, inr, arith, ap, replicate, Option, none,
  some, refl, if◌then◌else◌,
}
use espbewi.Common.Result.{ok, err, ok_or}
use espbewi.Common.Exec.{attempt, attempt_ok}
use espbewi.Flash.{NorFlash}
use espbewi.Flash.Laws.{NorFlashLaws, SameOutside}
use espbewi.Flash.Slices.{slice, IsErased-slice}
use espbewi.Partitions.{PartitionRange, flash_failed, address_overflow, unaligned, erase_range}

-- The ranges that `erase_range` accepts: ordered, aligned, inside the partition, addressable.
pub record IsErasable (erase_size : ℕ) (p : PartitionRange) (from to : ℕ) : Type 0 where
  pub ordered : from ≤ to
  pub aligned : (from % erase_size ≡ 0) × (to % erase_size ≡ 0)
  pub inside : to ≤ p.size
  pub addressable : p.offset + to < 2 ^ 32

module _ {F : Type 0} (nor : NorFlash F) where
  -- On an acceptable range `erase_range` is one erase of the device, or nothing if the range is empty.
  pub erase_range-IsErasable :
      (p : PartitionRange) (from to : ℕ) (f : F)
      → IsErasable nor.erase_size p from to
      → erase_range nor p from to f ≡ (
          if from == to
          then (ok tt, f)
          else attempt (nor.erase (p.offset + from) (p.offset + to)) flash_failed f)
  unfolding erase_range
  erase_range-IsErasable p from to f h = ground arith

  -- Every other call leaves the device alone, and succeeds on an empty range only.
  erase_range_outcome :
      (p : PartitionRange) (from to : ℕ) (f : F)
      → (IsErasable nor.erase_size p from to
          × (from < to)
          × (erase_range nor p from to f
              ≡ attempt (nor.erase (p.offset + from) (p.offset + to)) flash_failed f))
        ⊎ ((from ≡ to) × (erase_range nor p from to f ≡ (ok tt, f)))
        ⊎ ((¬ IsErasable nor.erase_size p from to)
            × ((erase_range nor p from to f ≡ (err address_overflow, f))
                ⊎ (erase_range nor p from to f ≡ (err unaligned, f))))
  unfolding erase_range
  erase_range_outcome p from to f = ground arith

-- What the device looks like after one erase call, by the laws of the device.
module _ {F : Type 0} (nor : NorFlash F) (laws : NorFlashLaws nor) (p : PartitionRange)
    (from to : ℕ) (f : F) where
  open laws use {cells}

  -- The erase call, with the length of its range.
  erase_length :
      from < to
      → nor.erase (p.offset + from) (p.offset + to) f
        ≡ nor.erase (p.offset + from) (p.offset + from + (to - from)) f
  erase_length lt = ap (λ end. nor.erase (p.offset + from) end f) (omega arith)

  -- Whatever `erase_range` answers, a byte outside the range that it was given, or outside the
  -- partition, is what it was before.
  pub erase_range_frame :
      (i : ℕ)
      → ((i < p.offset + from) ⊎ (p.offset + to ≤ i)) ⊎ ((i < p.offset) ⊎ (p.offset + p.size ≤ i))
      → cells (erase_range nor p from to f).1 i ≡ cells f i
  erase_range_frame i out = elim (erase_range_outcome nor p from to f) [
    | inr (inr (_, inl run)) ↦ rw run
    | inr (inr (_, inr run)) ↦ rw run
    | inr (inl (_, run)) ↦ rw run
    | inl (fits, lt, run) ↦
        rw (run, erase_length lt) (laws.erase_frame (p.offset + from) (to - from) f i (omega arith))
  ]

  driver_answers :
      (o : Option (Unit {0}))
      → (ok_or o flash_failed ≡ err flash_failed) ⊎ (ok_or o flash_failed ≡ ok tt)
  driver_answers none = inl refl
  driver_answers (some u) = inr refl

  -- An answer `Ok` of the driver leaves 0xFF bytes only in the range.
  erase_clears-slice :
      from < to
      → (attempt (nor.erase (p.offset + from) (p.offset + to)) flash_failed f).0 ≡ ok tt
      → slice
          (cells (attempt (nor.erase (p.offset + from) (p.offset + to)) flash_failed f).1)
          (p.offset + from)
          (to - from)
        ≡ replicate (to - from) 0xFF
  erase_clears-slice lt e =
      let answered = attempt_ok (nor.erase (p.offset + from) (p.offset + to)) flash_failed f tt e in
      rw (erase_length lt) (
        IsErased-slice _ (p.offset + from) (to - from)
          (laws.erase_clears (p.offset + from) (to - from) f (rw (erase_length lt) at answered)))

  -- In every call, no byte outside the range or outside the partition changes, and one of three
  -- things holds. The range is not acceptable, the answer is `AddressOverflow` or `Unaligned` and the device
  -- is as it was; or
  -- the range is empty, the answer `Ok` and the device as it was; or the range is acceptable and not
  -- empty, and the answer is the error of the driver, or `Ok` with 0xFF bytes only in the range.
  pub erase_range_lem :
      let out = erase_range nor p from to f in
      SameOutside (cells f) (cells out.1) (p.offset + from) (to - from)
      × SameOutside (cells f) (cells out.1) p.offset p.size
      × (((¬ IsErasable nor.erase_size p from to)
            × ((out ≡ (err address_overflow, f)) ⊎ (out ≡ (err unaligned, f))))
          ⊎ ((from ≡ to) × (out ≡ (ok tt, f)))
          ⊎ (IsErasable nor.erase_size p from to
              × (from < to)
              × ((out.0 ≡ err flash_failed)
                  ⊎ ((out.0 ≡ ok tt)
                      × (slice (cells out.1) (p.offset + from) (to - from)
                          ≡ replicate (to - from) 0xFF)))))
  erase_range_lem = (
    λ i apart. erase_range_frame i (inl (omega arith)),
    λ i apart. erase_range_frame i (inr apart),
    elim (erase_range_outcome nor p from to f) [
      | inr (inr refused) ↦ inl refused
      | inr (inl empty) ↦ inr (inl empty)
      | inl (fits, lt, run) ↦ inr (
          inr (
            fits,
            lt,
            rw run (elim (driver_answers (nor.erase (p.offset + from) (p.offset + to) f).0) [
              | inl failed ↦ inl failed
              | inr done ↦ inr (done, erase_clears-slice lt done)
            ]),
          ))
    ],
  )

  -- If `erase_range` answers `Ok` for a range that is not empty, the range is ordered and lies in the
  -- partition, and reading it would give 0xFF bytes only.
  erase_range_clears :
      from < to
      → (erase_range nor p from to f).0 ≡ ok tt
      → (to ≤ p.size)
        × (slice (cells (erase_range nor p from to f).1) (p.offset + from) (to - from)
            ≡ replicate (to - from) 0xFF)
  erase_range_clears lt e = elim erase_range_lem.2 [
    | inl (_, inl run) ↦ absurd (cc)
    | inl (_, inr run) ↦ absurd (cc)
    | inr (inl (empty, _)) ↦ absurd (omega (arith, empty))
    | inr (inr (fits, _, inl failed)) ↦ absurd (cc)
    | inr (inr (fits, _, inr (_, held))) ↦ (fits.inside, held)
  ]
