-- ===== src/Boot/Programs.antt =====
-- `flash_program` on a driver that works: it succeeds, and the flash holds the bytes.
use espbewi.Common.{
  ℕ, zero, suc, ◌+◌, ◌-◌, ◌%◌, ◌==◌, ◌≤◌, ◌≡◌, inl, inr, refl, ap, sym, ◌∙◌, true, false, not, ◌||◌,
  some, List, [], ◌++◌, arith, length, take, drop, min, ltb, Bool-cases, length-take, length-drop,
  length-append, take-append-drop, drop-drop, drop-length, subst, ◌*◌,
}
use espbewi.Common.Words.{two_32, add_u32}
use espbewi.Common.Result.{Result, ok}
use espbewi.Flash.Laws.{SameOutside, IsErased}
use espbewi.Flash.Slices.{slice, slice_cong, slice-append}
use espbewi.Boot.{Rom, FlashError, program_loop, flash_program}
use espbewi.Boot.Laws.{RomLaws}

-- A driver that answers: an aligned write of at most 64 words stores them on erased flash, a sector
-- is erased, and the flash can be unlocked.
pub record IsWritable {S : Type 0} (rom : Rom S) (laws : RomLaws rom) : Type 0 where
  pub writes :
      (at : ℕ) (bytes : List ℕ) (s : S)
      → at % 4 ≡ 0
      → length bytes % 4 ≡ 0
      → length bytes ≤ 256
      → IsErased (laws.cells s) at (length bytes)
      → ((rom.spiflash_write at bytes s).0 ≡ some tt)
        × (slice (laws.cells (rom.spiflash_write at bytes s).1) at (length bytes) ≡ bytes)
  pub erases :
      (sector : ℕ) (s : S)
      → ((rom.spiflash_erase_sector sector s).0 ≡ some tt)
        × IsErased (laws.cells (rom.spiflash_erase_sector sector s).1) (sector * 4096) 4096
  pub unlocks : (s : S) → (rom.spiflash_unlock s).0 ≡ some tt

module _ {S : Type 0} (rom : Rom S) (laws : RomLaws rom) where
  open laws use {cells}

  -- A run that succeeds, stores the bytes, and changes no others.
  pub record Programs (at : ℕ) (bytes : List ℕ) (s : S) (out : Result FlashError (Unit {0}) × S)
      : Type 0 where
    pub is_ok : out.0 ≡ ok tt
    pub stored : slice (cells out.1) at (length bytes) ≡ bytes
    pub frame : SameOutside (cells s) (cells out.1) at (length bytes)

  Programs-append :
      (at : ℕ) (xs ys : List ℕ) (s t : S) (out : Result FlashError (Unit {0}) × S)
      → Programs at xs s (ok tt, t)
      → Programs (at + length xs) ys t out
      → Programs at (xs ++ ys) s out
  Programs-append at xs ys s t out first second =
      let all = length-append xs ys in
      record {
        is_ok = second.is_ok;
        stored =
            ap (slice (cells out.1) at) all
            ∙ slice-append (cells out.1) at (length xs) (length ys)
            ∙ (λ i. kept i ++ second.stored i);
        frame = λ i outside.
            second.frame i (omega (arith, outside, all))
            ∙ first.frame i (omega (arith, outside, all));
      }
    where
      kept : slice (cells out.1) at (length xs) ≡ xs
      kept = slice_cong _ _ _ _ (λ j lt. second.frame (at + j) (inl (omega arith))) ∙ first.stored

module _ {S : Type 0} (rom : Rom S) (laws : RomLaws rom) (writable : IsWritable rom laws) (at : ℕ)
    (bytes : List ℕ) (aligned : at % 4 ≡ 0) (whole : length bytes % 4 ≡ 0)
    (fits : at + length bytes ≤ two_32) where
  open laws use {cells}

  abbrev size_at : ℕ → ℕ
  size_at done = min (length bytes - done) 256

  abbrev piece : ℕ → List ℕ
  piece done = take (size_at done) (drop done bytes)

  abbrev with_piece : ℕ → S → S
  with_piece done s = (rom.spiflash_write (add_u32 at done) (piece done) s).1

  loop_stop :
      (fuel done : ℕ) (s : S)
      → ltb done (length bytes) ≡ false
      → program_loop rom fuel at bytes done s ≡ (ok tt, s)
  unfolding program_loop
  loop_stop zero done s e = refl
  loop_stop (suc fuel) done s e = rw (e, program_loop) refl

  loop_next :
      (fuel done : ℕ) (s : S)
      → ltb done (length bytes) ≡ true
      → (rom.spiflash_write (add_u32 at done) (piece done) s).0 ≡ some tt
      → program_loop rom (suc fuel) at bytes done s
        ≡ program_loop rom fuel at bytes (done + size_at done) (with_piece done s)
  unfolding program_loop
  loop_next fuel done s more written = rw (more, program_loop) (rw written refl)

  piece-Programs :
      (done : ℕ) (s : S)
      → done % 4 ≡ 0
      → ltb done (length bytes) ≡ true
      → IsErased (cells s) (at + done) (length bytes - done)
      → ((rom.spiflash_write (add_u32 at done) (piece done) s).0 ≡ some tt)
        × Programs rom laws (at + done) (piece done) s (ok tt, with_piece done s)
  piece-Programs done s step more erased =
      let long : length (piece done) ≡ size_at done =
        omega (arith, length-take (size_at done) (drop done bytes), length-drop done bytes) in
      let here : add_u32 at done ≡ at + done = ground arith in
      let (answered, stored) =
        writable.writes (add_u32 at done) (piece done) s (omega (arith, here)) (omega (arith, long))
          (omega (arith, long))
          (λ j lt. ap (λ a. cells s (a + j)) here ∙ erased j (omega (arith, lt, long))) in
      (
        answered,
        record {
          is_ok = refl;
          stored =
              ap (λ a. slice (cells (with_piece done s)) a (length (piece done))) (sym here)
              ∙ stored;
          frame = λ i out.
              laws.write_frame (add_u32 at done) (piece done) s i (omega (arith, here, out));
        },
      )

  nothing :
      (done : ℕ) (s : S)
      → length bytes ≤ done
      → Programs rom laws (at + done) (drop done bytes) s (ok tt, s)
  nothing done s past =
      let none_left : drop done bytes ≡ [] = drop-length done bytes past in
      rw none_left (record { is_ok = refl; stored = refl; frame = λ i out. refl })

  -- From `done` on, with fuel for the bytes that are left.
  program_loop-Programs :
      (fuel done : ℕ) (s : S)
      → done % 4 ≡ 0
      → length bytes - done ≤ fuel
      → IsErased (cells s) (at + done) (length bytes - done)
      → Programs rom laws (at + done) (drop done bytes) s (program_loop rom fuel at bytes done s)
  program_loop-Programs zero done s step enough erased =
      rw (loop_stop zero done s (ground arith)) (nothing done s (omega arith))
  program_loop-Programs (suc fuel) done s step enough erased =
      elim (Bool-cases (ltb done (length bytes))) [
        | inr stop ↦ rw (loop_stop (suc fuel) done s stop) (nothing done s (ground arith))
        | inl more ↦
            let (answered, first) = piece-Programs done s step more erased in
            let long : length (piece done) ≡ size_at done =
              omega (arith, length-take (size_at done) (drop done bytes), length-drop done bytes) in
            let after = with_piece done s in
            let next = done + size_at done in
            let rest = program_loop-Programs fuel next after (ground arith) (ground arith) (λ j lt.
              first.frame (at + next + j) (inr (omega (arith, long)))
              ∙ ap (cells s) (omega arith)
              ∙ erased (size_at done + j) (omega (arith, lt))) in
            let start : at + next ≡ at + done + length (piece done) = omega (arith, long) in
            let parts : piece done ++ drop next bytes ≡ drop done bytes =
              ap (λ xs. piece done ++ xs) (sym (drop-drop (size_at done) done bytes))
              ∙ take-append-drop (size_at done) (drop done bytes) in
            rw (loop_next fuel done s more answered) (
              subst
                (λ xs.
                  Programs rom laws (at + done) xs s (program_loop rom fuel at bytes next after))
                parts
                (Programs-append rom laws (at + done) (piece done) (drop next bytes) s after _ first
                  (subst
                    (λ a.
                      Programs rom laws a (drop next bytes) after
                        (program_loop rom fuel at bytes next after))
                    start rest)))
      ]

  -- On a driver that works, an aligned program of whole words below the end of the 32-bit addresses, on
  -- erased flash, succeeds: the flash holds exactly the bytes there, and nothing else differs.
  pub flash_program_total :
      (s : S)
      → IsErased (cells s) at (length bytes)
      → Programs rom laws at bytes s (flash_program rom at bytes s)
  unfolding flash_program
  flash_program_total s erased =
      let t1 : not (at % 4 == 0) || not (length bytes % 4 == 0) ≡ false = ground arith in
      let start : at + 0 ≡ at = omega arith in
      let run =
        program_loop-Programs (length bytes) 0 s (omega arith) (omega arith)
          (λ j lt. ap (cells s) (omega arith) ∙ erased j (omega (arith, lt))) in
      rw t1 (rw start at run)
