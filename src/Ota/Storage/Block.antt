-- ===== src/Ota/Storage/Block.antt =====
-- `flush_block`: when it reaches the device, and what it does there.
use native.Mathlib.Nat.{div-mul-le_self, lt-div-mul-add, mul-mod_left}
use espbewi.Common.{
  ℕ, ◌+◌, ◌-◌, ◌%◌, ◌^◌, ◌≤◌, ◌<◌, ◌≡◌, ◌≢◌, ◌⊎◌, inl, inr, refl, ◌∙◌, ◌||◌, List, ◌++◌, arith, ltb,
  ◌==◌, length, drop, replicate, length-append, length-replicate, length-drop, Bool-cases,
}
use espbewi.Common.Words.{div_ceil}
use espbewi.Common.Result.{Result, ok}
use espbewi.Flash.{NorFlash}
use espbewi.Ota.{FlashWriteError}
use espbewi.Ota.Storage.Device.{SameSettings, SameSettings-trans, commit_block-SameSettings}
use espbewi.Ota.Storage.{
  EspArtifactStorage, padded_length, commit_block, place_block, fill_scratch, flush_block,
}

module _ {F : Type 0} (nor : NorFlash F) where
  -- The blocks that `flush_block` takes.
  pub record IsFlushable (s : EspArtifactStorage F) (logical : ℕ) (bytes : List ℕ) : Type 0 where
    pub short : length bytes ≤ nor.erase_size
    pub aligned : logical % nor.erase_size ≡ 0
    pub inside : logical + nor.erase_size ≤ s.partition_size
    pub padded : padded_length nor bytes ≤ nor.erase_size
    pub room : padded_length nor bytes ≤ length s.scratch
    pub addressable : s.partition_offset + logical + nor.erase_size < 2 ^ 32

  abbrev pub filled : EspArtifactStorage F → List ℕ → EspArtifactStorage F
  filled s bytes = (fill_scratch nor bytes (padded_length nor bytes) s).1

  abbrev pub placed :
      EspArtifactStorage F → ℕ → ℕ → Result FlashWriteError (Unit {0}) × EspArtifactStorage F
  placed s logical padded =
      commit_block nor (s.partition_offset + logical)
        (s.partition_offset + logical + nor.erase_size) padded s

  place_block_outcome :
      (s : EspArtifactStorage F) (logical padded : ℕ)
      → ((s.partition_offset + logical + nor.erase_size < 2 ^ 32)
          × (place_block nor logical padded s ≡ placed s logical padded))
        ⊎ (((place_block nor logical padded s).0 ≢ ok tt)
            × ((place_block nor logical padded s).1 ≡ s))
  unfolding place_block
  place_block_outcome s logical padded = ground arith

  -- The checks in front of the scratch area.
  record PassesChecks (s : EspArtifactStorage F) (logical : ℕ) (bytes : List ℕ) : Type 0 where
    short : length bytes ≤ nor.erase_size
    small : logical < 2 ^ 32
    aligned : logical % nor.erase_size ≡ 0
    inside : logical + nor.erase_size ≤ s.partition_size
    padded : padded_length nor bytes ≤ nor.erase_size
    room : padded_length nor bytes ≤ length s.scratch

  flush_block_checks :
      (s : EspArtifactStorage F) (logical : ℕ) (bytes : List ℕ)
      → (PassesChecks s logical bytes
          × (flush_block nor logical bytes s
              ≡ place_block nor logical (padded_length nor bytes) (filled s bytes)))
        ⊎ (((flush_block nor logical bytes s).0 ≢ ok tt)
            × ((flush_block nor logical bytes s).1 ≡ s))
  unfolding flush_block
  flush_block_checks s logical bytes = elim (Bool-cases (ltb nor.erase_size (length bytes))) [
    | inl long ↦ inr (rw long ((λ e. cc), refl))
    | inr t1 ↦ elim (Bool-cases (ltb logical (2 ^ 32))) [
      | inr large ↦ inr (rw (t1, large) ((λ e. cc), refl))
      | inl t2 ↦ elim (Bool-cases (logical % nor.erase_size == 0)) [
        | inr skewed ↦ inr (rw (t1, t2, skewed) ((λ e. cc), refl))
        | inl t3 ↦ elim (Bool-cases (ltb (logical + nor.erase_size) (2 ^ 32))) [
          | inr large ↦ inr (rw (t1, t2, t3, large) ((λ e. cc), refl))
          | inl t4 ↦ elim (Bool-cases (ltb s.partition_size (logical + nor.erase_size))) [
            | inl outside ↦ inr (rw (t1, t2, t3, t4, outside) ((λ e. cc), refl))
            | inr t5 ↦
                elim (Bool-cases (
                  ltb nor.erase_size (padded_length nor bytes)
                  || ltb (length s.scratch) (padded_length nor bytes))) [
                    | inl small ↦ inr (rw (t1, t2, t3, t4, t5, small) ((λ e. cc), refl))
                    | inr t6 ↦ inl (ground arith, rw (t1, t2, t3, t4, t5, t6))
                  ]
          ]
        ]
      ]
    ]
  ]

  -- Padding is to a multiple of the write size, by less than one.
  pub padded_length_bounds :
      (bytes : List ℕ)
      → 0 < nor.write_size
      → (length bytes ≤ padded_length nor bytes)
        × (padded_length nor bytes < length bytes + nor.write_size)
        × (padded_length nor bytes % nor.write_size ≡ 0)
  padded_length_bounds bytes pos =
      let blocks = div_ceil (length bytes) nor.write_size in
      let above = lt-div-mul-add {a = length bytes + (nor.write_size - 1)} pos in
      let below = div-mul-le_self (length bytes + (nor.write_size - 1)) nor.write_size in
      (omega (arith, above), omega (arith, below), mul-mod_left blocks nor.write_size)

  pub length-filled :
      (s : EspArtifactStorage F) (bytes : List ℕ)
      → padded_length nor bytes ≤ length s.scratch
      → 0 < nor.write_size
      → length (filled s bytes).scratch ≡ length s.scratch
  length-filled s bytes room pos =
      let padded = padded_length nor bytes in
      omega (
        arith,
        length-append bytes (replicate (padded - length bytes) 0 ++ drop padded s.scratch),
        length-append (replicate (padded - length bytes) 0) (drop padded s.scratch),
        length-replicate {A = ℕ} (padded - length bytes) 0,
        length-drop padded s.scratch,
        padded_length_bounds bytes pos,
      )

  -- Any block leaves the settings as they were.
  pub flush_block-SameSettings :
      (s : EspArtifactStorage F) (logical : ℕ) (bytes : List ℕ)
      → 0 < nor.write_size
      → SameSettings s (flush_block nor logical bytes s).1
  flush_block-SameSettings s logical bytes pos = elim (flush_block_checks s logical bytes) [
    | inr (_, same) ↦ rw same (record { offset = refl; size = refl; scratch = refl; mode = refl })
    | inl (checks, run) ↦
        let scratch = length-filled s bytes checks.room pos in
        rw run (elim (place_block_outcome (filled s bytes) logical (padded_length nor bytes)) [
          | inr (_, same) ↦
              rw same (record { offset = refl; size = refl; scratch = scratch; mode = refl })
          | inl (_, run') ↦ rw run' (
              SameSettings-trans
                (record { offset = refl; size = refl; scratch = scratch; mode = refl })
                (commit_block-SameSettings nor _ _ (filled s bytes)))
        ])
  ]

  flush_block-IsFlushable :
      (s : EspArtifactStorage F) (logical : ℕ) (bytes : List ℕ)
      → PassesChecks s logical bytes
      → s.partition_offset + logical + nor.erase_size < 2 ^ 32
      → IsFlushable s logical bytes
  flush_block-IsFlushable s logical bytes c addressable = record {
    short = c.short;
    aligned = c.aligned;
    inside = c.inside;
    padded = c.padded;
    room = c.room;
    addressable = addressable;
  }

  -- A call of `flush_block` hands a block that it may take to the device, or fails and leaves the
  -- device alone.
  pub flush_block_outcome :
      (s : EspArtifactStorage F) (logical : ℕ) (bytes : List ℕ)
      → (IsFlushable s logical bytes
          × (flush_block nor logical bytes s
              ≡ placed (filled s bytes) logical (padded_length nor bytes)))
        ⊎ (((flush_block nor logical bytes s).0 ≢ ok tt)
            × ((flush_block nor logical bytes s).1.device ≡ s.device))
  flush_block_outcome s logical bytes = elim (flush_block_checks s logical bytes) [
    | inr (failed, same) ↦ inr (failed, rw same)
    | inl (checks, run) ↦
        elim (place_block_outcome (filled s bytes) logical (padded_length nor bytes)) [
          | inr (failed, same) ↦ inr (rw run (failed, rw same))
          | inl (addressable, run') ↦
              inl (flush_block-IsFlushable s logical bytes checks addressable, run ∙ run')
        ]
  ]
