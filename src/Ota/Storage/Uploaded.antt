-- ===== src/Ota/Storage/Uploaded.antt =====
-- The end of an upload: after `finish` the flash holds every byte that was received.
use espbewi.Common.{
  ℕ, ◌+◌, ◌-◌, ◌≤◌, ◌<◌, ◌^◌, ◌≡◌, ◌≢◌, ◌⊎◌, inl, inr, refl, ap, sym, ◌∙◌, true, List, [], ◌∷◌,
  ◌++◌, arith, length, take, drop, length-drop, take-append-drop, length-append, take-length,
  replicate, subst,
}
use espbewi.Common.Result.{ok}
use espbewi.Flash.{NorFlash}
use espbewi.Flash.Laws.{NorFlashLaws, IsErased}
use espbewi.Flash.Slices.{slice, slice_cong, slice-append}
use espbewi.Ota.Storage.{EspArtifactStorage, finish, padded_length}
use espbewi.Ota.Storage.Block.{flush_block_outcome, IsFlushable, padded_length_bounds}
use espbewi.Ota.Storage.Flush.{padded_block, flush_block_frame, flush_block_stores}
use espbewi.Ota.Storage.Finish.{finish_answer}
use espbewi.Ota.Storage.Upload.{Upload, IsFresh, HoldsReceived, upload-HoldsReceived, slice-first}

module _ {F : Type 0} (nor : NorFlash F) (laws : NorFlashLaws nor) (opened : EspArtifactStorage F)
    (small : opened.partition_size < 2 ^ 32) where
  open laws use {cells}

  -- What `finish` leaves of the whole upload.
  pub record IsUploaded (received : List ℕ) (r : ℕ) (s : EspArtifactStorage F) : Type 0 where
    pub all_durable : r ≡ length received
    pub held : slice (cells s.device) opened.partition_offset (length received) ≡ received
    pub frame :
        (i : ℕ)
        → (i < opened.partition_offset) ⊎ (opened.partition_offset + opened.partition_size ≤ i)
        → cells s.device i ≡ cells opened.device i

  -- Nothing was pending: all bytes are durable already.
  idle-IsUploaded :
      (received : List ℕ) (durable : ℕ) (s : EspArtifactStorage F)
      → HoldsReceived nor laws opened small received durable s
      → drop durable received ≡ []
      → IsUploaded received durable s
  idle-IsUploaded received durable s h none_left =
      let all : durable ≡ length received =
        omega (arith, h.within, length-drop durable received, ap length none_left) in
      record {
        all_durable = all;
        held =
            ap (slice (cells s.device) opened.partition_offset) (sym all)
            ∙ h.held
            ∙ ap (λ n. take n received) all
            ∙ take-length (length received) received (omega arith);
        frame = h.frame;
      }

  -- The last block.
  module _ (received : List ℕ) (durable r : ℕ) (s : EspArtifactStorage F)
      (h : HoldsReceived nor laws opened small received durable s)
      (some_left : drop durable received ≢ [])
      (answered : (finish nor durable (drop durable received) s).0 ≡ ok r) where
    abbrev pending : List ℕ
    pending = drop durable received

    flushable : IsFlushable nor s durable pending
    flushable =
        let (short, flushed, sum, state) =
          finish_answer nor durable s pending r some_left answered in
        elim (flush_block_outcome nor s durable pending) [
          | inl (fits, run) ↦ fits
          | inr (failed, same) ↦ absurd (failed flushed)
        ]

    block_is_clean :
        (s.erase_before_write ≡ true)
        ⊎ IsErased (cells s.device) (s.partition_offset + durable) nor.erase_size
    block_is_clean = elim h.clean [
      | inl mode ↦ inl (h.same.mode ∙ mode)
      | inr erased ↦ inr (λ j lt.
          ap (cells s.device) (omega (arith, h.same.offset))
          ∙ erased j (omega (arith, lt, flushable.inside, h.same.size)))
    ]

    flush_keeps :
        (i : ℕ)
        → ((i < s.partition_offset + durable) ⊎ (s.partition_offset + durable + nor.erase_size ≤ i))
          ⊎ ((i < s.partition_offset) ⊎ (s.partition_offset + s.partition_size ≤ i))
        → cells (finish nor durable pending s).1.device i ≡ cells s.device i
    flush_keeps i out =
        let (short, flushed, sum, state) =
          finish_answer nor durable s pending r some_left answered in
        rw state (flush_block_frame nor laws s durable pending i out)

    pending-stored :
        slice
          (cells (finish nor durable pending s).1.device)
          (s.partition_offset + durable)
          (length pending)
        ≡ pending
    pending-stored =
        let (short, flushed, sum, state) =
          finish_answer nor durable s pending r some_left answered in
        let (_, stored) = flush_block_stores nor laws s durable pending flushed block_is_clean in
        let (long, _, _) = padded_length_bounds nor pending laws.write_size_pos in
        let c = cells (finish nor durable pending s).1.device in
        let zeros = replicate {A = ℕ} (padded_length nor pending - length pending) 0 in
        let size : length (padded_block nor pending) ≡ length pending + length zeros =
          length-append pending zeros in
        slice-first c (s.partition_offset + durable) (length pending) (length zeros) pending zeros
          refl (ap (slice c (s.partition_offset + durable)) (sym size) ∙ rw state stored)

    last-IsUploaded : IsUploaded received r (finish nor durable pending s).1
    last-IsUploaded =
        let (short, flushed, sum, state) =
          finish_answer nor durable s pending r some_left answered in
        let c = cells (finish nor durable pending s).1.device in
        let n = length-drop durable received in
        let whole : length received ≡ durable + length pending = omega (arith, n, h.within) in
        let offset : s.partition_offset ≡ opened.partition_offset = h.same.offset in
        let kept : slice c opened.partition_offset durable
            ≡ slice (cells s.device) opened.partition_offset durable =
          slice_cong _ _ _ _ λ j lt.
            flush_keeps (opened.partition_offset + j) (inl (inl (omega (arith, lt, offset)))) in
        record {
          all_durable = omega (arith, sum, whole, h.fits, small);
          held =
              ap (slice c opened.partition_offset) whole
              ∙ slice-append c opened.partition_offset durable (length pending)
              ∙ ap (λ xs. xs ++ slice c (opened.partition_offset + durable) (length pending))
                  (kept ∙ h.held)
              ∙ ap (λ xs. take durable received ++ xs)
                  (ap (λ a. slice c (a + durable) (length pending)) (sym offset) ∙ pending-stored)
              ∙ take-append-drop durable received;
          frame = λ i out.
              flush_keeps i (inr (omega (arith, out, offset, h.same.size))) ∙ h.frame i out;
        }

  finish_idle_state :
      (pending : List ℕ) (durable r : ℕ) (s : EspArtifactStorage F)
      → pending ≡ []
      → (finish nor durable pending s).0 ≡ ok r
      → (durable ≡ r) × ((finish nor durable pending s).1 ≡ s)
  unfolding finish
  finish_idle_state [] durable r s e answered = (cc, refl)
  finish_idle_state (b ∷ bs) durable r s e answered = absurd (cc)

  -- `finish` from a storage that holds what is durable.
  pub finish_held :
      (received : List ℕ) (durable r : ℕ) (s : EspArtifactStorage F)
      → HoldsReceived nor laws opened small received durable s
      → (finish nor durable (drop durable received) s).0 ≡ ok r
      → IsUploaded received r (finish nor durable (drop durable received) s).1
  finish_held received durable r s h answered = elim (List-cases (drop durable received)) [
    | inl none_left ↦
        let (same, state) =
          finish_idle_state (drop durable received) durable r s none_left answered in
        rw state (
          subst (λ n. IsUploaded received n s) same
            (idle-IsUploaded received durable s h none_left))
    | inr some_left ↦ last-IsUploaded received durable r s h some_left answered
  ]
    where
      List-cases : (xs : List ℕ) → (xs ≡ []) ⊎ (xs ≢ [])
      List-cases [] = inl refl
      List-cases (x ∷ xs) = inr (λ e. cc)

  -- After any sequence of calls of `write` that answered `Ok`, into a partition that was erased or
  -- with blocks erased before they are written, and a `finish` that answers `Ok(r)`: `r` is the
  -- number of bytes received, the partition starts with exactly these bytes, and no byte outside
  -- the partition differs from what it was when the storage was opened.
  pub finish-IsUploaded :
      (received : List ℕ) (durable r : ℕ) (s : EspArtifactStorage F)
      → IsFresh nor laws opened small
      → Upload nor opened received durable s
      → (finish nor durable (drop durable received) s).0 ≡ ok r
      → IsUploaded received r (finish nor durable (drop durable received) s).1
  finish-IsUploaded received durable r s fresh upload answered =
      finish_held received durable r s (upload-HoldsReceived nor laws opened small fresh upload)
        answered
