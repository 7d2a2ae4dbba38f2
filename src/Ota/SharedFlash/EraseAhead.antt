-- ===== src/Ota/SharedFlash/EraseAhead.antt =====
-- `ArtifactWriter`: how far the flash is erased before a session writes to it.
use espbewi.Common.{
  ℕ, ◌+◌, ◌-◌, ◌/◌, ◌≤◌, ◌<◌, ◌≡◌, refl, sym, ap, ◌∙◌, ◌⊎◌, inl, inr, true, false, List, length,
  arith, ltb, Bool-cases,
}
use espbewi.Common.Words.{two_64, add_u64, add_u32}
use espbewi.Common.Result.{Result, ok, err, Result-cases}
use espbewi.Flash.{NorFlash}
use espbewi.Flash.Laws.{NorFlashLaws, SameOutside, IsErased}
use espbewi.Flash.Slices.{slice-IsErased}
use espbewi.Partitions.Erase.{erase_range_lem}
use espbewi.Ota.{AppPartition, FlashWriteError, range_of, erase_partition_range}
use espbewi.Ota.Storage.{EspArtifactStorage, new_pre_erased}
use espbewi.Ota.SharedFlash.{
  SessionApi, Upload, desired_erased, append_erased, erase_ahead, append, erase_batch_size,
}

-- Whole batches cover the bytes received, where the partition has room for them.
pub desired_covers :
    (end size : ℕ)
    → end ≤ size
    → size < two_64
    → (end ≤ desired_erased end size) × (desired_erased end size ≤ size)
desired_covers end size fits small = (omega arith, omega arith)

module _ {F W C D : Type 0} (nor : NorFlash F) (api : SessionApi F W C D) where
  append_erased-through :
      (bytes : List ℕ) (u : Upload F W)
      → ((append_erased nor api bytes u).1.writer.erased_through ≡ u.writer.erased_through)
        × ((append_erased nor api bytes u).1.writer.partition ≡ u.writer.partition)
  append_erased-through bytes u =
      elim (Result-cases (new_pre_erased nor u.flash u.writer.partition u.writer.scratch)) [
        | inl (storage, e) ↦ (rw e refl, rw e refl)
        | inr (c, e) ↦ (rw e refl, rw e refl)
      ]

  -- The answer of the erase call of `erase_ahead`.
  abbrev erased : ℕ → Upload F W → Result FlashWriteError (Unit {0}) × F
  erased desired u =
      erase_partition_range nor u.writer.partition u.writer.erased_through desired u.flash

  -- What `append_erased` is given after that call.
  abbrev cleared_upload : ℕ → Upload F W → Upload F W
  cleared_upload desired u = record {
    writer = record u.writer {
      erased_through = desired;
      erase_batches =
          add_u32 u.writer.erase_batches ((desired - u.writer.erased_through) / erase_batch_size);
    };
    session = u.session;
    flash = (erased desired u).1;
  }

  -- What `erase_ahead` does to the watermark, and that success covers the range asked for.
  erase_ahead-through :
      (bytes : List ℕ) (desired : ℕ) (u : Upload F W)
      → let (good, u') = erase_ahead nor api bytes desired u in
        (u.writer.erased_through ≤ u'.writer.erased_through)
        × ((u'.writer.erased_through ≡ u.writer.erased_through)
            ⊎ (u'.writer.erased_through ≡ desired))
        × (good ≡ true → desired ≤ u'.writer.erased_through)
        × (u'.writer.partition ≡ u.writer.partition)
  unfolding erase_ahead
  erase_ahead-through bytes desired u = elim (Bool-cases (ltb u.writer.erased_through desired)) [
    | inr enough ↦
        let (same, kept) = append_erased-through bytes u in
        rw (enough, erase_ahead) (omega (arith, same), inl same, λ _. ground (arith, same), kept)
    | inl more ↦ elim (Result-cases (erased desired u).0) [
      | inr (c, failed) ↦
          rw (more, erase_ahead) (rw failed (omega arith, inl refl, λ e. absurd (cc), refl))
      | inl (done, cleared) ↦
          let (same, kept) = append_erased-through bytes (cleared_upload desired u) in
          rw (more, erase_ahead)
            (rw cleared (ground (arith, same), inr same, λ _. omega (arith, same), kept))
    ]
  ]

-- What FiBeWI documents of a session: it writes through the storage no byte of the partition behind the
-- bytes that it has received with the call.
pub record SessionLaws {F W C D : Type 0} (nor : NorFlash F) (laws : NorFlashLaws nor)
    (api : SessionApi F W C D) : Type 0 where
  pub append_writes :
      (bytes : List ℕ) (w : W) (s : EspArtifactStorage F)
      → let (good, w', s') = api.append bytes w s in
        SameOutside
          (laws.cells s.device)
          (laws.cells s'.device)
          s.partition_offset
          (api.received w + length bytes)

module _ {F W C D : Type 0} (nor : NorFlash F) (laws : NorFlashLaws nor) (api : SessionApi F W C D)
    (session_laws : SessionLaws nor laws api) where
  open laws use {cells}

  erase_partition_frame :
      (part : AppPartition) (from to : ℕ) (f : F)
      → SameOutside
          (cells f)
          (cells (erase_partition_range nor part from to f).1)
          (part.offset + from)
          (to - from)
  unfolding erase_partition_range
  erase_partition_frame part from to f = (erase_range_lem nor laws (range_of part) from to f).0

  erase_partition-IsErased :
      (part : AppPartition) (from to : ℕ) (f : F)
      → (erase_partition_range nor part from to f).0 ≡ ok tt
      → IsErased
          (cells (erase_partition_range nor part from to f).1)
          (part.offset + from)
          (to - from)
  unfolding erase_partition_range
  erase_partition-IsErased part from to f done =
      elim (erase_range_lem nor laws (range_of part) from to f).2 [
        | inl (_, inl refused) ↦ let done' = rw refused at done in absurd (cc)
        | inl (_, inr refused) ↦ let done' = rw refused at done in absurd (cc)
        | inr (inl (same, _)) ↦ λ j lt. absurd (omega (arith, same))
        | inr (inr (_, _, inl failed)) ↦ let done' = rw failed at done in absurd (cc)
        | inr (inr (_, _, inr (_, held))) ↦ slice-IsErased _ (part.offset + from) (to - from) held
      ]

  append_erased_frame :
      (bytes : List ℕ) (u : Upload F W) (i : ℕ)
      → u.writer.partition.offset + (api.received u.session + length bytes) ≤ i
      → cells (append_erased nor api bytes u).1.flash i ≡ cells u.flash i
  unfolding new_pre_erased
  append_erased_frame bytes u i behind =
      elim (Result-cases (new_pre_erased nor u.flash u.writer.partition u.writer.scratch)) [
        | inr (c, e) ↦ rw e refl
        | inl (storage, e) ↦
            let (at, device) = opened_there u storage e in
            rw e (
              session_laws.append_writes bytes u.session storage i (inr (omega (arith, at, behind)))
              ∙ ap (λ f. cells f i) device)
      ]
    where
      offset_of : EspArtifactStorage F → Result FlashWriteError (EspArtifactStorage F) → ℕ
      offset_of d (ok s) = s.partition_offset
      offset_of d (err e) = d.partition_offset

      device_of : EspArtifactStorage F → Result FlashWriteError (EspArtifactStorage F) → F
      device_of d (ok s) = s.device
      device_of d (err e) = d.device

      opened_there :
          (u : Upload F W) (s : EspArtifactStorage F)
          → new_pre_erased nor u.flash u.writer.partition u.writer.scratch ≡ ok s
          → (s.partition_offset ≡ u.writer.partition.offset) × (s.device ≡ u.flash)
      opened_there u s e = elim (Bool-cases (ltb (length u.writer.scratch) nor.erase_size)) [
        | inl small ↦ let e' = rw small at e in absurd (cc)
        | inr room ↦ let e' = rw room at e in (ap (offset_of s) (sym e'), ap (device_of s) (sym e'))
      ]

  -- The partition is erased from `n` on, as far as the writer counts it as erased.
  abbrev pub IsAhead : ℕ → Upload F W → Type 0
  IsAhead n u =
      (j : ℕ)
      → n ≤ j
      → j < u.writer.erased_through
      → cells u.flash (u.writer.partition.offset + j) ≡ 0xFF

  append_erased-IsAhead :
      (bytes : List ℕ) (u : Upload F W)
      → IsAhead (api.received u.session) u
      → IsAhead (api.received u.session + length bytes) (append_erased nor api bytes u).1
  append_erased-IsAhead bytes u clean j low high =
      let (same, kept) = append_erased-through nor api bytes u in
      let at = ap (λ p. p.offset) kept in
      ap (λ o. cells (append_erased nor api bytes u).1.flash (o + j)) at
      ∙ append_erased_frame bytes u (u.writer.partition.offset + j) (omega arith)
      ∙ clean j (omega arith) (omega (arith, same))

  -- After the erase, the part up to `desired` is erased as well.
  cleared_upload-IsAhead :
      (desired : ℕ) (u : Upload F W)
      → (erased nor api desired u).0 ≡ ok tt
      → IsAhead (api.received u.session) u
      → IsAhead (api.received u.session) (cleared_upload nor api desired u)
  cleared_upload-IsAhead desired u done clean j low high =
      let part = u.writer.partition in
      let through = u.writer.erased_through in
      elim (Bool-cases (ltb j through)) [
        | inl before ↦
            let lt : j < through = ground arith in
            erase_partition_frame part through desired u.flash (part.offset + j) (inl (omega arith))
            ∙ clean j low lt
        | inr after ↦
            let le : through ≤ j = ground arith in
            let at : part.offset + through + (j - through) ≡ part.offset + j = omega arith in
            ap (cells (erased nor api desired u).1) (sym at)
            ∙ erase_partition-IsErased part through desired u.flash done (j - through) (omega arith)
      ]

  erase_ahead-IsAhead :
      (bytes : List ℕ) (desired : ℕ) (u : Upload F W)
      → IsAhead (api.received u.session) u
      → IsAhead (api.received u.session + length bytes) (erase_ahead nor api bytes desired u).1
  unfolding erase_ahead
  erase_ahead-IsAhead bytes desired u clean =
      elim (Bool-cases (ltb u.writer.erased_through desired)) [
        | inr enough ↦ rw (enough, erase_ahead) (append_erased-IsAhead bytes u clean)
        | inl more ↦ elim (Result-cases (erased nor api desired u).0) [
          | inr (c, failed) ↦
              rw (more, erase_ahead)
                (rw failed (λ j low high.
                  erase_partition_frame u.writer.partition u.writer.erased_through desired u.flash
                    (u.writer.partition.offset + j) (inl (omega arith))
                  ∙ clean j (omega arith) high))
          | inl (done, cleared) ↦
              rw (more, erase_ahead)
                (rw cleared (
                  append_erased-IsAhead bytes (cleared_upload nor api desired u)
                    (cleared_upload-IsAhead desired u cleared clean)))
        ]
      ]

  -- Where no byte behind the ones received is programmed yet in the part that the writer counts as
  -- erased, and that part lies in the partition: whatever `append` answers for bytes of a session that
  -- fits the partition, the erased part is no smaller and still lies in the partition, which stays the
  -- same, and behind the bytes received with this call it holds 0xFF bytes only; and unless the answer
  -- is `false`, it contains all of these bytes.
  pub append-erased_through :
      (bytes : List ℕ) (u : Upload F W)
      → IsAhead (api.received u.session) u
      → u.writer.erased_through ≤ u.writer.partition.size
      → u.writer.partition.size < two_64
      → api.received u.session + length bytes ≤ u.writer.partition.size
      → let (good, u') = append nor api bytes u in
        (u.writer.erased_through ≤ u'.writer.erased_through)
        × (u'.writer.erased_through ≤ u'.writer.partition.size)
        × (u'.writer.partition ≡ u.writer.partition)
        × IsAhead (api.received u.session + length bytes) u'
        × ((good ≡ false) ⊎ (api.received u.session + length bytes ≤ u'.writer.erased_through))
  unfolding append
  append-erased_through bytes u clean inside small fits =
      let no_wrap : add_u64 (api.received u.session) (length bytes)
          ≡ api.received u.session + length bytes =
        omega arith in
      let desired =
        desired_erased (add_u64 (api.received u.session) (length bytes)) u.writer.partition.size in
      let (enough, room) =
        desired_covers (add_u64 (api.received u.session) (length bytes)) u.writer.partition.size
          (omega arith) small in
      let (grows, moved, covers, kept) = erase_ahead-through nor api bytes desired u in
      let size_kept = ap (λ p. p.size) kept in
      elim (Bool-cases (api.can_append u.session (length bytes))) [
        | inr refused ↦
            rw refused
              (omega arith, inside, refl, λ j low high. clean j (omega arith) high, inl refl)
        | inl taken ↦ rw taken (
          grows,
          omega (arith, size_kept, moved, room, inside),
          kept,
          erase_ahead-IsAhead bytes desired u clean,
          elim (Bool-cases (erase_ahead nor api bytes desired u).0) [
            | inr bad ↦ inl bad
            | inl good ↦ inr (omega (arith, enough, no_wrap, covers good))
          ],
        )
      ]
