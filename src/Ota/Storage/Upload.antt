-- ===== src/Ota/Storage/Upload.antt =====
-- An upload: any sequence of calls of `write` that answer `Ok`, each with the bytes that are not yet
-- durable, and `finish`.
use espbewi.Common.{
  ℕ, ◌+◌, ◌-◌, ◌^◌, ◌≤◌, ◌<◌, ◌≡◌, ◌⊎◌, inl, inr, refl, ap, sym, ◌∙◌, true, List, [], ◌++◌, arith,
  length, take, drop, replicate, length-append, length-take, length-drop, take-add,
  take-append-drop, take-append,
}
use mathlib.Core.List.{append_assoc}
use espbewi.Common.Result.{ok}
use espbewi.Flash.{NorFlash}
use espbewi.Flash.Laws.{NorFlashLaws, Cells, IsErased}
use espbewi.Flash.Slices.{slice, slice_cong, slice-append, length-slice, IsErased-slice}
use espbewi.Ota.Storage.{EspArtifactStorage, write}
use espbewi.Ota.Storage.Device.{SameSettings, SameSettings-trans}
use espbewi.Ota.Storage.Write.{write_loop-SameSettings}
use espbewi.Ota.Storage.Behind.{write_loop_behind}
use espbewi.Ota.Storage.Durable.{write_answer, write_state, whole_blocks, write_frame, write_stores}

-- The bytes received, the durable offset, and the storage, from `opened` on. The caller takes no more
-- bytes than the partition has.
pub data Upload {F : Type 0} (nor : NorFlash F) (opened : EspArtifactStorage F)
    : List ℕ → ℕ → EspArtifactStorage F → Type 0 where
  start : Upload nor opened [] 0 opened
  chunk :
      {received : List ℕ} {durable : ℕ} {s : EspArtifactStorage F}
      → Upload nor opened received durable s
      → (bytes : List ℕ) (r : ℕ) → length (received ++ bytes) ≤ opened.partition_size
      → (write nor durable (drop durable (received ++ bytes)) s).0 ≡ ok r
      → Upload nor opened
          (received ++ bytes)
          r
          (write nor durable (drop durable (received ++ bytes)) s).1

-- The first bytes of a range.
pub slice-first :
    (c : Cells) (a m n : ℕ) (xs ys : List ℕ)
    → length xs ≡ m
    → slice c a (m + n) ≡ xs ++ ys
    → slice c a m ≡ xs
slice-first c a m n xs ys long e =
    sym (take-append m (slice c a m) (slice c (a + m) n) (length-slice c a m))
    ∙ ap (take m) (sym (slice-append c a m n) ∙ e)
    ∙ take-append m xs ys long

take_within : (d : ℕ) (xs ys : List ℕ) → d ≤ length xs → take d (xs ++ ys) ≡ take d xs
take_within d xs ys h =
    ap (λ zs. take d (zs ++ ys)) (sym (take-append-drop d xs))
    ∙ ap (take d) (append_assoc (take d xs) (drop d xs) ys)
    ∙ take-append d (take d xs) (drop d xs ++ ys) (omega (arith, length-take d xs))

module _ {F : Type 0} (nor : NorFlash F) (laws : NorFlashLaws nor) (opened : EspArtifactStorage F)
    (small : opened.partition_size < 2 ^ 32) where
  open laws use {cells}

  -- The partition is erased, or each block is erased before it is written.
  abbrev pub IsFresh : Type 0
  IsFresh =
      (opened.erase_before_write ≡ true)
      ⊎ IsErased (cells opened.device) opened.partition_offset opened.partition_size

  -- The storage holds what is durable, and nothing outside the partition has changed.
  pub record HoldsReceived (received : List ℕ) (durable : ℕ) (s : EspArtifactStorage F)
      : Type 0 where
    pub same : SameSettings opened s
    pub within : durable ≤ length received
    pub fits : length received ≤ opened.partition_size
    pub held : slice (cells s.device) opened.partition_offset durable ≡ take durable received
    pub clean :
        (opened.erase_before_write ≡ true)
        ⊎ IsErased
            (cells s.device)
            (opened.partition_offset + durable)
            (opened.partition_size - durable)
    pub frame :
        (i : ℕ)
        → (i < opened.partition_offset) ⊎ (opened.partition_offset + opened.partition_size ≤ i)
        → cells s.device i ≡ cells opened.device i

  pub start-HoldsReceived : IsFresh → HoldsReceived [] 0 opened
  start-HoldsReceived fresh = record {
    same = record { offset = refl; size = refl; scratch = refl; mode = refl };
    within = omega arith;
    fits = omega arith;
    held = refl;
    clean = elim fresh [
      | inl mode ↦ inl mode
      | inr erased ↦
          inr (λ j lt. ap (cells opened.device) (omega arith) ∙ erased j (omega (arith, lt)))
    ];
    frame = λ i out. refl;
  }

  -- A call of `write` from such a state.
  module _ (received bytes : List ℕ) (durable r : ℕ) (s : EspArtifactStorage F)
      (h : HoldsReceived received durable s)
      (room : length (received ++ bytes) ≤ opened.partition_size)
      (answered : (write nor durable (drop durable (received ++ bytes)) s).0 ≡ ok r) where
    abbrev pending : List ℕ
    pending = drop durable (received ++ bytes)

    abbrev after : EspArtifactStorage F
    after = (write nor durable pending s).1

    length-pending : length pending ≡ length (received ++ bytes) - durable
    length-pending = length-drop durable (received ++ bytes)

    fits_64 : durable + length pending < 2 ^ 64
    fits_64 = omega (arith, length-pending, small, room, h.within, length-append received bytes)

    prepared :
        (s.erase_before_write ≡ true)
        ⊎ (slice (cells s.device) (s.partition_offset + durable) (length pending)
            ≡ replicate (length pending) 0xFF)
    prepared = elim h.clean [
      | inl mode ↦ inl (h.same.mode ∙ mode)
      | inr erased ↦ inr (
          IsErased-slice (cells s.device) (s.partition_offset + durable) (length pending) (λ j lt.
            ap (cells s.device) (omega (arith, h.same.offset))
            ∙ erased j (omega (arith, lt, length-pending, room))))
    ]

    -- The answer, and what is behind it.
    answer_bounds :
        (r ≤ length (received ++ bytes))
        × (durable ≤ r)
        × ((i : ℕ) → opened.partition_offset + r ≤ i → cells after.device i ≡ cells s.device i)
    answer_bounds =
        let (n, looped, sum) = write_answer nor durable pending s r answered in
        let (forward, inside, behind) =
          write_loop_behind nor laws durable pending fits_64 (length pending) 0 n s (omega arith)
            looped in
        let plain : r ≡ durable + n = omega (arith, sum, inside, fits_64) in
        let all : length (received ++ bytes) ≡ length received + length bytes =
          length-append received bytes in
        (
          omega (arith, plain, inside, length-pending, h.within, all),
          omega (arith, plain),
          λ i lt.
              rw (write_state nor durable pending s)
                (behind i (omega (arith, plain, h.same.offset, lt))),
        )

    write-held : slice (cells after.device) opened.partition_offset r ≡ take r (received ++ bytes)
    write-held =
        let all = received ++ bytes in
        let w = whole_blocks nor durable pending s in
        let (sum, stored) = write_stores nor laws durable pending s fits_64 r answered prepared in
        let offset : s.partition_offset ≡ opened.partition_offset = h.same.offset in
        let kept : slice (cells after.device) opened.partition_offset durable
            ≡ slice (cells s.device) opened.partition_offset durable =
          slice_cong _ _ _ _ λ j lt.
            write_frame nor laws durable pending s fits_64 (opened.partition_offset + j)
              (inl (inl (omega (arith, lt, offset)))) in
        ap (slice (cells after.device) opened.partition_offset) sum
        ∙ slice-append (cells after.device) opened.partition_offset durable w
        ∙ ap (λ xs. xs ++ slice (cells after.device) (opened.partition_offset + durable) w)
            (kept ∙ h.held ∙ sym (take_within durable received bytes h.within))
        ∙ ap (λ xs. take durable all ++ xs)
            (ap (λ a. slice (cells after.device) (a + durable) w) (sym offset) ∙ stored)
        ∙ sym (take-add durable w all)
        ∙ ap (λ n. take n all) (sym sum)

    pub write-HoldsReceived : HoldsReceived (received ++ bytes) r after
    write-HoldsReceived =
        let (within, forward, behind) = answer_bounds in
        record {
          same = SameSettings-trans h.same (
              rw (write_state nor durable pending s) (
                write_loop-SameSettings nor durable pending (length pending) 0 s
                  laws.write_size_pos));
          within = within;
          fits = room;
          held = write-held;
          clean = elim h.clean [
            | inl mode ↦ inl mode
            | inr erased ↦ inr (λ j lt.
                behind (opened.partition_offset + r + j) (omega arith)
                ∙ ap (cells s.device) (omega (arith, forward))
                ∙ erased (r - durable + j) (omega (arith, forward, lt)))
          ];
          frame = λ i out.
              write_frame nor laws durable pending s fits_64 i
                (inr (omega (arith, out, h.same.offset, h.same.size)))
              ∙ h.frame i out;
        }

  pub upload-HoldsReceived :
      {received : List ℕ} {durable : ℕ} {s : EspArtifactStorage F}
      → IsFresh
      → Upload nor opened received durable s
      → HoldsReceived received durable s
  upload-HoldsReceived fresh start = start-HoldsReceived fresh
  upload-HoldsReceived fresh (chunk {received} {durable} {s} before bytes r room answered) =
      write-HoldsReceived received bytes durable r s (upload-HoldsReceived fresh before) room
        answered
