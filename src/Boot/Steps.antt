-- ===== src/Boot/Steps.antt =====
-- `flash_read`, one pass of its loop after another, and what a read leaves alone.
use espbewi.Common.{
  ℕ, zero, suc, ◌+◌, ◌-◌, ◌≡◌, refl, ◌∙◌, true, false, Option, List, [], ◌++◌, ltb, Bool-cases,
  Option-cases, inl, inr,
}
use espbewi.Common.Words.{add_u32}
use espbewi.Common.Result
use espbewi.Common.Result.{Result, ok, err, Result-cases}
use espbewi.Boot.{
  Rom, FlashError, word_start, want_of, window_bytes, read_window, read_loop, flash_read,
}

module _ {S : Type 0} (rom : Rom S) where
  abbrev pub window_read : ℕ → ℕ → S → Option (List ℕ) × S
  window_read pos want s =
      rom.spiflash_read (word_start pos) (window_bytes (pos - word_start pos) want) s

  -- One pass of the loop.
  abbrev pub chunk_at : ℕ → ℕ → ℕ → S → Result FlashError (List ℕ) × S
  chunk_at offset n done = read_window rom (add_u32 offset done) (want_of n done)

  abbrev pub rest_at : ℕ → ℕ → ℕ → ℕ → S → Result FlashError (List ℕ) × S
  rest_at fuel offset n done s =
      read_loop rom fuel offset n (done + want_of n done) (chunk_at offset n done s).1

  pub loop_stop :
      (fuel offset n done : ℕ) (s : S)
      → ltb done n ≡ false
      → read_loop rom fuel offset n done s ≡ (ok [], s)
  unfolding read_loop
  loop_stop zero offset n done s e = refl
  loop_stop (suc fuel) offset n done s e = rw (e, read_loop) refl

  pub loop_fail :
      (fuel offset n done : ℕ) (s : S) (c : FlashError)
      → ltb done n ≡ true
      → (chunk_at offset n done s).0 ≡ err c
      → read_loop rom (suc fuel) offset n done s ≡ (err c, (chunk_at offset n done s).1)
  unfolding read_loop
  loop_fail fuel offset n done s c more failed = rw (more, read_loop) (rw failed)

  pub loop_next :
      (fuel offset n done : ℕ) (s : S) (chunk : List ℕ)
      → ltb done n ≡ true
      → (chunk_at offset n done s).0 ≡ ok chunk
      → read_loop rom (suc fuel) offset n done s ≡ (
        Result.◌>>=◌ (rest_at fuel offset n done s).0 (λ rest. ok (chunk ++ rest)),
        (rest_at fuel offset n done s).1,
      )
  unfolding read_loop
  loop_next fuel offset n done s chunk more read =
      rw (more, read_loop)
        (rw read (elim (Result-cases (rest_at fuel offset n done s).0) [
          | inl (rest, e) ↦ rw e refl
          | inr (c, e) ↦ rw e refl
        ]))

-- A view of the state that no ROM read changes is the same after `flash_read`.
module _ {S V : Type 0} (rom : Rom S) (view : S → V)
    (keeps : (start len : ℕ) (s : S) → view (rom.spiflash_read start len s).1 ≡ view s) where
  pub read_window_view : (pos want : ℕ) (s : S) → view (read_window rom pos want s).1 ≡ view s
  unfolding read_window
  read_window_view pos want s = elim (Option-cases (window_read rom pos want s).0) [
    | inl e ↦ rw e (keeps (word_start pos) (window_bytes (pos - word_start pos) want) s)
    | inr (bs, e) ↦ rw e (keeps (word_start pos) (window_bytes (pos - word_start pos) want) s)
  ]

  read_loop_view :
      (fuel offset n done : ℕ) (s : S) → view (read_loop rom fuel offset n done s).1 ≡ view s
  unfolding read_loop
  read_loop_view zero offset n done s = refl
  read_loop_view (suc fuel) offset n done s = elim (Bool-cases (ltb done n)) [
    | inr stop ↦ rw (loop_stop rom (suc fuel) offset n done s stop) refl
    | inl more ↦
        let kept = read_window_view (add_u32 offset done) (want_of n done) s in
        elim (Result-cases (chunk_at rom offset n done s).0) [
          | inr (c, failed) ↦ rw (loop_fail rom fuel offset n done s c more failed) kept
          | inl (chunk, read) ↦ rw (loop_next rom fuel offset n done s chunk more read) (
              read_loop_view fuel offset n (done + want_of n done) (chunk_at rom offset n done s).1
              ∙ kept)
        ]
  ]

  pub flash_read_view : (offset n : ℕ) (s : S) → view (flash_read rom offset n s).1 ≡ view s
  unfolding flash_read
  flash_read_view offset n s = read_loop_view n offset n 0 s
