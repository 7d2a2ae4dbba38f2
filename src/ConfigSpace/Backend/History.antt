-- ===== src/ConfigSpace/Backend/History.antt =====
-- A history of `commit` and `clear` on one space, and what a load answers behind it.
use espbewi.Common.{
  ℕ, zero, suc, ◌+◌, ◌≤◌, ◌<◌, ◌^◌, ◌≡◌, true, Option, none, some, List, [], ◌∷◌, length, arith,
  refl, if◌then◌else◌, ltb, lt→ltb,
}
use espbewi.Common.Result.{Result, ok, err}
use espbewi.Nvs.{NvsApi}
use espbewi.Nvs.Laws.{NvsLaws, IsReliable}
use espbewi.ConfigSpace.Record.{NvsConfigError, generation_overflow}
use espbewi.ConfigSpace.Units.{valid_space_name}
use espbewi.ConfigSpace.Backend.{World, NvsConfigBackend, Snapshot, load, commit, clear}
use espbewi.ConfigSpace.Backend.Replace.{generation_after}
use espbewi.ConfigSpace.Backend.Contract.{blob}
use espbewi.ConfigSpace.Backend.Reliable.{load-commit, load-clear}

pub data Change : Type 0 where
  committing : List ℕ → Change
  clearing : Change

-- A space as its clients see it: what a change of generation `g` leaves to load.
abbrev pub snapshot_of : Change → ℕ → Option Snapshot
snapshot_of (committing payload) g = some (record { generation = g; payload = payload })
snapshot_of clearing g = none

-- What is left after the changes, of which the first has generation `g`.
abbrev pub shown : List Change → ℕ → Option Snapshot → Option Snapshot
shown [] g before = before
shown (change ∷ changes) g before = shown changes (g + 1) (snapshot_of change g)

-- The generations that so many changes are answered.
abbrev pub numbered : ℕ → ℕ → List (Result NvsConfigError ℕ)
numbered g zero = []
numbered g (suc n) = ok g ∷ numbered (g + 1) n

module _ {F H Key : Type 0} (api : NvsApi F H Key) (b : NvsConfigBackend) (space : List ℕ) where
  abbrev pub change_by : Change → World F → Result NvsConfigError ℕ × World F
  change_by (committing payload) = commit api b space payload
  change_by clearing = clear api b space

  -- The changes one behind the other, with their answers.
  abbrev pub change_all : List Change → World F → List (Result NvsConfigError ℕ) × World F
  change_all [] w = ([], w)
  change_all (change ∷ changes) w =
      let (answer, w1) = change_by change w in
      let (answers, w2) = change_all changes w1 in (answer ∷ answers, w2)

module _ {F H Key : Type 0} (api : NvsApi F H Key) (laws : NvsLaws api)
    (sound : IsReliable api laws) (b : NvsConfigBackend) (space : List ℕ)
    (valid : valid_space_name space ≡ true) where
  -- The next generation is `g`, or there is none behind the last `u64`.
  abbrev pub IsNext : ℕ → World F → Type 0
  IsNext g w =
      generation_after (blob api laws b space w.flash)
      ≡ (if ltb g (2 ^ 64) then ok g else err generation_overflow)

  change_by-shown :
      (change : Change) (g : ℕ) (w : World F)
      → IsNext g w
      → g < 2 ^ 64
      → let (answer, w') = change_by api b space change w in
        (answer ≡ ok g) × ((load api b space w').0 ≡ ok (snapshot_of change g)) × IsNext (g + 1) w'
  change_by-shown (committing payload) g w next small =
      load-commit api laws sound b space valid payload g w (rw (lt→ltb g (2 ^ 64) small) at next)
  change_by-shown clearing g w next small =
      load-clear api laws sound b space valid g w (rw (lt→ltb g (2 ^ 64) small) at next)

  -- On a store without faults, with a valid name, a history of commits and clears that starts at the next
  -- generation `g` and stays within `u64` is answered `g`, `g + 1` and so on; a load behind it answers
  -- the payload and the generation of the last change where that is a commit, nothing where it is a
  -- clear, and what it answered before where the history is empty.
  pub load-change_all :
      (changes : List Change) (g : ℕ) (before : Option Snapshot) (w : World F)
      → IsNext g w
      → (load api b space w).0 ≡ ok before
      → g + length changes ≤ 2 ^ 64
      → let (answers, w') = change_all api b space changes w in
        (answers ≡ numbered g (length changes))
        × ((load api b space w').0 ≡ ok (shown changes g before))
  load-change_all [] g before w next loads fits = (refl, loads)
  load-change_all (change ∷ changes) g before w next loads fits =
      let (answer, shows, onward) = change_by-shown change g w next (omega arith) in
      let w1 = (change_by api b space change w).1 in
      let (answers, last) =
        load-change_all changes (g + 1) (snapshot_of change g) w1 onward shows (omega arith) in
      (λ i. answer i ∷ answers i, last)
