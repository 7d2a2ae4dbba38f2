-- ===== src/ConfigSpace/Backend/Reliable.antt =====
-- On a store without faults: `commit`, `clear` and `load` succeed and agree with one another.
use espbewi.Common.{
  ℕ, ◌+◌, ◌<◌, ◌^◌, ◌≡◌, Bool, true, false, Option, none, some, List, arith, refl, ◌∙◌, ap,
  if◌then◌else◌, [], ltb,
}
use espbewi.Common.Result.{Result, ok, err}
use espbewi.Nvs.{NvsApi}
use espbewi.Nvs.Laws.{NvsLaws, IsReliable}
use espbewi.ConfigSpace.Record.{NvsConfigError, generation_overflow, encode_record}
use espbewi.ConfigSpace.Record.RoundTrip.{decode_record-encode_record}
use espbewi.ConfigSpace.Units.{valid_space_name}
use espbewi.ConfigSpace.Backend.{
  World, NvsConfigBackend, namespace, replace, load, settle, load_opened, commit, clear,
}
use espbewi.ConfigSpace.Backend.Run.{replace_run, load_run}
use espbewi.ConfigSpace.Backend.Replace.{
  generation_after, snapshot_in, next_generation_of_held, read_snapshot_of_held, held,
}
use espbewi.ConfigSpace.Backend.Contract.{blob, Stores, replace-Stores, opened_held}

-- A generation that is handed out is a `u64`.
generation_after_lt :
    (stored : Option (List ℕ)) (g : ℕ) → generation_after stored ≡ ok g → g < 2 ^ 64
generation_after_lt none g e = ground arith
generation_after_lt (some raw) g e = ground arith

settle_answer :
    {F H Key A : Type 0} (api : NvsApi F H Key) (m : Result NvsConfigError A × H) (w : World F)
    → (settle api m w).0 ≡ m.0
settle_answer api (ok a, h) w = refl
settle_answer api (err e, h) w = refl

module _ {F H Key : Type 0} (api : NvsApi F H Key) (laws : NvsLaws api)
    (sound : IsReliable api laws) (b : NvsConfigBackend) (space : List ℕ)
    (valid : valid_space_name space ≡ true) where
  abbrev opened : World F → H
  opened w = (sound.opens w.flash b.partition).0

  held_blob :
      (w : World F)
      → held api laws (opened w) (namespace api) (api.key_of space) ≡ blob api laws b space w.flash
  held_blob w =
      ap (λ f. f (namespace api) (api.key_of space))
        (opened_held api laws b w.flash (opened w) (sound.opens w.flash b.partition).1)

  -- Without faults a replacement answers the next generation.
  pub replace_reliable :
      (present : Bool) (payload : List ℕ) (w : World F) (g : ℕ)
      → generation_after (blob api laws b space w.flash) ≡ ok g
      → (replace api b space present payload w).0 ≡ ok g
  replace_reliable present payload w g next =
      let k = api.key_of space in
      let gen = next_generation_of_held api laws sound k (opened w) _ (held_blob w) ∙ next in
      rw (replace_run api b space present payload w valid, (sound.opens w.flash b.partition).1)
        (ground (
          arith,
          gen,
          sound.sets (namespace api) k (encode_record g present payload)
              (api.get_blob (namespace api) k (opened w)).1,
        ))

  -- Without faults a load answers what the blob decodes to.
  pub load_reliable :
      (w : World F) → (load api b space w).0 ≡ snapshot_in (blob api laws b space w.flash)
  load_reliable w =
      let k = api.key_of space in
      let snap = read_snapshot_of_held api laws sound k (opened w) _ (held_blob w) in
      rw (load_run api b space w valid, (sound.opens w.flash b.partition).1)
        (settle_answer api (load_opened api k (opened w)) w ∙ snap)

  -- What is loaded and what generation comes next, once a record has been stored.
  load_stored :
      (present : Bool) (payload : List ℕ) (g : ℕ) (w w' : World F)
      → Stores api laws b space present payload g w w'
      → ((load api b space w').0
          ≡ ok (if present then some (record { generation = g; payload = payload }) else none))
        × (generation_after (blob api laws b space w'.flash)
            ≡ (if ltb (g + 1) (2 ^ 64) then ok (g + 1) else err generation_overflow))
  load_stored present payload g w w' s =
      let decoded =
        decode_record-encode_record g present payload
          (generation_after_lt (blob api laws b space w.flash) g s.generation) in
      (load_reliable w' ∙ (rw (s.written, decoded)), rw (s.written, decoded))

  -- On a store without faults, with a valid name and a stored state that has a next generation `g`,
  -- `commit` answers `g`, a load afterwards answers the committed payload with generation `g`, and
  -- the next generation is `g + 1`, or the overflow error at the end of `u64`.
  pub load-commit :
      (payload : List ℕ) (g : ℕ) (w : World F)
      → generation_after (blob api laws b space w.flash) ≡ ok g
      → let (answer, w') = commit api b space payload w in
        (answer ≡ ok g)
        × ((load api b space w').0 ≡ ok (some (record { generation = g; payload = payload })))
        × (generation_after (blob api laws b space w'.flash)
            ≡ (if ltb (g + 1) (2 ^ 64) then ok (g + 1) else err generation_overflow))
  unfolding commit
  load-commit payload g w next =
      let answered = replace_reliable true payload w g next in
      let after =
        load_stored true payload g w (replace api b space true payload w).1
          (replace-Stores api laws b space true payload g w answered) in
      (answered, after.0, after.1)

  -- On a store without faults, with a valid name and a stored state that has a next generation `g`,
  -- `clear` answers `g`; a load afterwards answers that the space holds nothing, and yet the next
  -- generation is `g + 1`, or the overflow error at the end of `u64`.
  pub load-clear :
      (g : ℕ) (w : World F)
      → generation_after (blob api laws b space w.flash) ≡ ok g
      → let (answer, w') = clear api b space w in
        (answer ≡ ok g)
        × ((load api b space w').0 ≡ ok none)
        × (generation_after (blob api laws b space w'.flash)
            ≡ (if ltb (g + 1) (2 ^ 64) then ok (g + 1) else err generation_overflow))
  unfolding clear
  load-clear g w next =
      let answered = replace_reliable false [] w g next in
      let after =
        load_stored false [] g w (replace api b space false [] w).1
          (replace-Stores api laws b space false [] g w answered) in
      (answered, after.0, after.1)
