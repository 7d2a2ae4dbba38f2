-- ===== src/Boot/Reads.antt =====
-- `flash_read` at any alignment: which bytes come back, and that enough windows are read.
use espbewi.Common.{
  ℕ, zero, suc, ◌+◌, ◌-◌, ◌%◌, ◌≤◌, ◌<◌, ◌≡◌, refl, sym, ap, ◌∙◌, List, [], ◌++◌, take, drop, arith,
  ltb, Bool-cases, Option-cases, inl, inr,
}
use espbewi.Common.Words.{two_32, add_u32}
use espbewi.Common.Result.{ok, Result-cases}
use espbewi.Flash.Laws.{Cells}
use espbewi.Flash.Slices.{slice, slice-append}
use espbewi.Flash.Splice.{take-drop-slice}
use espbewi.Boot.{Rom, word_start, want_of, window_bytes, read_window, read_loop, flash_read}
use espbewi.Boot.Laws.{RomLaws, IsReadable}
use espbewi.Boot.Steps.{
  window_read, chunk_at, rest_at, loop_stop, loop_fail, loop_next, read_window_view,
  flash_read_view,
}

-- A window covers the bytes wanted, is whole words, and fits the buffer.
pub window_bounds :
    (skip want : ℕ)
    → skip < 4
    → want ≤ 252
    → (skip + want ≤ window_bytes skip want)
      × (window_bytes skip want ≤ 256)
      × (window_bytes skip want % 4 ≡ 0)
window_bounds skip want h k = (omega arith, omega arith, omega arith)

module _ {S : Type 0} (rom : Rom S) (laws : RomLaws rom) where
  open laws use {cells}

  pub read_window-slice :
      (pos want : ℕ) (s : S) (bytes : List ℕ)
      → want ≤ 252
      → (read_window rom pos want s).0 ≡ ok bytes
      → bytes ≡ slice (cells s) pos want
  unfolding read_window
  read_window-slice pos want s bytes small e = elim (Option-cases (window_read rom pos want s).0) [
    | inl failed ↦ absurd (ground arith)
    | inr (bs, found) ↦
        let (covered, small_enough, whole) =
          window_bounds (pos - word_start pos) want (omega arith) small in
        let all =
          laws.read_slice (word_start pos) (window_bytes (pos - word_start pos) want) s bs
            (omega arith) whole small_enough found in
        let taken : take want (drop (pos - word_start pos) bs) ≡ bytes = ground arith in
        sym taken
        ∙ ap (λ xs. take want (drop (pos - word_start pos) xs)) all
        ∙ take-drop-slice (cells s) (word_start pos) (window_bytes (pos - word_start pos) want)
            (pos - word_start pos) want covered
        ∙ ap (λ a. slice (cells s) a want) (omega arith)
  ]

  -- The chunk and what follows it are the slice from `done` on.
  chunk-slice :
      (c : Cells) (offset n done : ℕ) (chunk rest : List ℕ)
      → offset + n ≤ two_32
      → done < n
      → chunk ≡ slice c (add_u32 offset done) (want_of n done)
      → rest ≡ slice c (offset + (done + want_of n done)) (n - (done + want_of n done))
      → chunk ++ rest ≡ slice c (offset + done) (n - done)
  chunk-slice c offset n done chunk rest fits more first second =
      let whole : n - done ≡ want_of n done + (n - (done + want_of n done)) = omega arith in
      let at : add_u32 offset done ≡ offset + done = omega arith in
      let next : offset + (done + want_of n done) ≡ offset + done + want_of n done = omega arith in
      ap (λ xs. xs ++ rest) (first ∙ ap (λ a. slice c a (want_of n done)) at)
      ∙ ap (λ xs. slice c (offset + done) (want_of n done) ++ xs)
          (second ∙ ap (λ a. slice c a (n - (done + want_of n done))) next)
      ∙ sym (slice-append c (offset + done) (want_of n done) (n - (done + want_of n done)))
      ∙ ap (slice c (offset + done)) (sym whole)

  empty-slice :
      (c : Cells) (offset n done : ℕ) (bytes : List ℕ)
      → n ≤ done
      → [] ≡ bytes
      → bytes ≡ slice c (offset + done) (n - done)
  empty-slice c offset n done bytes past e =
      let none_left : n - done ≡ 0 = omega arith in rw none_left (sym e)

  -- What comes back from `done` on, with fuel for the bytes that are left.
  read_loop-slice :
      (fuel offset n done : ℕ) (s : S) (bytes : List ℕ)
      → offset + n ≤ two_32
      → n - done ≤ fuel
      → (read_loop rom fuel offset n done s).0 ≡ ok bytes
      → bytes ≡ slice (cells s) (offset + done) (n - done)
  unfolding read_loop
  read_loop-slice zero offset n done s bytes fits enough e =
      empty-slice (cells s) offset n done bytes (omega arith) (ground arith)
  read_loop-slice (suc fuel) offset n done s bytes fits enough e = elim (Bool-cases (ltb done n)) [
    | inr stop ↦
        let e' = rw (loop_stop rom (suc fuel) offset n done s stop) at e in
        empty-slice (cells s) offset n done bytes (ground arith) (ground arith)
    | inl more ↦ elim (Result-cases (chunk_at rom offset n done s).0) [
      | inr (c, failed) ↦
          let e' = rw (loop_fail rom fuel offset n done s c more failed) at e in absurd (cc)
      | inl (chunk, read) ↦
          let e' = rw (loop_next rom fuel offset n done s chunk more read) at e in
          let s' = (chunk_at rom offset n done s).1 in
          let later = done + want_of n done in
          elim (Result-cases (rest_at rom fuel offset n done s).0) [
            | inr (c, failed) ↦ let e'' = rw failed at e' in absurd (cc)
            | inl (rest, answered) ↦
                let e'' = rw answered at e' in
                let joined : chunk ++ rest ≡ bytes = cc in
                let first =
                  read_window-slice (add_u32 offset done) (want_of n done) s chunk (omega arith)
                    read in
                let second =
                  read_loop-slice fuel offset n later s' rest fits (ground arith) answered in
                let kept =
                  read_window_view rom cells laws.read_keeps (add_u32 offset done) (want_of n done)
                    s in
                sym joined
                ∙ chunk-slice (cells s) offset n done chunk rest fits (ground arith) first
                    (second ∙ ap (λ c. slice c (offset + later) (n - later)) kept)
          ]
    ]
  ]

  -- If `flash_read` answers `Ok`, at any alignment of a range below the end of the 32-bit addresses,
  -- the buffer holds exactly the bytes of the flash in that range.
  pub flash_read-slice :
      (offset n : ℕ) (s : S) (bytes : List ℕ)
      → offset + n ≤ two_32
      → (flash_read rom offset n s).0 ≡ ok bytes
      → bytes ≡ slice (cells s) offset n
  unfolding flash_read
  flash_read-slice offset n s bytes fits e =
      let from_start : offset + 0 ≡ offset = omega arith in
      let all : n - 0 ≡ n = omega arith in
      read_loop-slice n offset n 0 s bytes fits (omega arith) e
      ∙ (λ i. slice (cells s) (from_start i) (all i))

  -- `flash_read` changes no byte of the flash.
  pub flash_read-keeps : (offset n : ℕ) (s : S) → cells (flash_read rom offset n s).1 ≡ cells s
  flash_read-keeps offset n s = flash_read_view rom cells laws.read_keeps offset n s

-- On a driver that answers every aligned read.
module _ {S : Type 0} (rom : Rom S) (laws : RomLaws rom) (readable : IsReadable rom) where
  read_window_answers :
      (pos want : ℕ) (s : S)
      → want ≤ 252
      → (chunk : List ℕ) × ((read_window rom pos want s).0 ≡ ok chunk)
  unfolding read_window
  read_window_answers pos want s small =
      let (covered, small_enough, whole) =
        window_bounds (pos - word_start pos) want (omega arith) small in
      let (bytes, e) =
        readable.answers (word_start pos) (window_bytes (pos - word_start pos) want) s (omega arith)
          whole small_enough in
      (take want (drop (pos - word_start pos) bytes), rw e refl)

  read_loop_answers :
      (fuel offset n done : ℕ) (s : S)
      → (bytes : List ℕ) × ((read_loop rom fuel offset n done s).0 ≡ ok bytes)
  unfolding read_loop
  read_loop_answers zero offset n done s = ([], refl)
  read_loop_answers (suc fuel) offset n done s = elim (Bool-cases (ltb done n)) [
    | inr stop ↦ ([], rw (loop_stop rom (suc fuel) offset n done s stop) refl)
    | inl more ↦
        let (chunk, read) =
          read_window_answers (add_u32 offset done) (want_of n done) s (omega arith) in
        let (rest, answered) =
          read_loop_answers fuel offset n (done + want_of n done)
            (read_window rom (add_u32 offset done) (want_of n done) s).1 in
        (chunk ++ rest, rw (loop_next rom fuel offset n done s chunk more read) (rw answered refl))
  ]

  -- Where the driver answers every aligned read of at most 64 words, `flash_read` of a range below the
  -- end of the 32-bit addresses succeeds at any alignment, with exactly the bytes of the flash there.
  pub flash_read_total :
      (offset n : ℕ) (s : S)
      → offset + n ≤ two_32
      → (flash_read rom offset n s).0 ≡ ok (slice (laws.cells s) offset n)
  unfolding flash_read
  flash_read_total offset n s fits =
      let (bytes, e) = read_loop_answers n offset n 0 s in
      e ∙ ap ok (flash_read-slice rom laws offset n s bytes fits e)
