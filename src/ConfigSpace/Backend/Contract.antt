-- ===== src/ConfigSpace/Backend/Contract.antt =====
-- `commit`, `clear` and `load` on the flash: what they store and what they answer.
use espbewi.Common.{
  ℕ, ◌≡◌, Bool, true, Option, some, List, refl, ◌∙◌, ap, inl, inr, sym, Bool-cases,
}
use espbewi.Common.Result.{Result, ok, err}
use espbewi.Nvs.{NvsApi, open_nvs}
use espbewi.Nvs.Laws.{NvsLaws}
use espbewi.ConfigSpace.Record.{NvsConfigError, encode_record}
use espbewi.ConfigSpace.Units.{valid_space_name}
use espbewi.ConfigSpace.Backend.{
  Snapshot, World, NvsConfigBackend, namespace, replace, load, run_opened, settle, replace_opened,
  load_opened,
}
use espbewi.ConfigSpace.Backend.Run.{replace_run, replace_invalid, load_run, load_invalid}
use espbewi.ConfigSpace.Backend.Replace.{
  generation_after, snapshot_in, replace_opened_generation, replace_opened_stores,
  replace_opened_others, load_opened_snapshot, held,
}

module _ {F H Key : Type 0} (api : NvsApi F H Key) (laws : NvsLaws api) (b : NvsConfigBackend) where
  open laws use {stored, partition_of}

  -- The blob of a space on the flash.
  abbrev pub blob : List ℕ → F → Option (List ℕ)
  blob space flash = stored b.partition flash (namespace api) (api.key_of space)

  -- What a successful write of a record for `space` has done to the world.
  pub record Stores (space : List ℕ) (present : Bool) (payload : List ℕ) (g : ℕ) (w w' : World F)
      : Type 0 where
    pub valid : valid_space_name space ≡ true
    pub generation : generation_after (blob space w.flash) ≡ ok g
    pub written : blob space w'.flash ≡ some (encode_record g present payload)
    pub others :
        (n k : Key)
        → ¬ ((namespace api ≡ n) × (api.key_of space ≡ k))
        → stored b.partition w'.flash n k ≡ stored b.partition w.flash n k
    pub health : w'.healthy ≡ w.healthy

  settle_ok :
      {A : Type 0} (m : Result NvsConfigError A × H) (w : World F) (a : A)
      → (settle api m w).0 ≡ ok a
      → (m.0 ≡ ok a) × ((settle api m w).1 ≡ record w { flash = api.release m.1 })
  settle_ok (ok a', h) w a e = (e, refl)
  settle_ok (err c, h) w a e = cc

  pub opened_held :
      (flash : F) (h : H)
      → open_nvs api flash b.partition ≡ ok h
      → held api laws h ≡ stored b.partition flash
  opened_held flash h o =
      ap (λ p. stored p (api.release h)) (laws.open_partition flash b.partition h o)
      ∙ laws.open_keeps flash b.partition h o

  replace_from_opened :
      (space : List ℕ) (present : Bool) (payload : List ℕ) (g : ℕ) (w : World F) (r : Result F H)
      → valid_space_name space ≡ true
      → open_nvs api w.flash b.partition ≡ r
      → (run_opened api r (replace_opened api (api.key_of space) present payload) w).0 ≡ ok g
      → Stores space present payload g w
          (run_opened api r (replace_opened api (api.key_of space) present payload) w).1
  replace_from_opened space present payload g w (err flash) v o e = cc
  replace_from_opened space present payload g w (ok h) v o e =
      let k = api.key_of space in
      let (done, world) = settle_ok (replace_opened api k present payload h) w g e in
      let at = laws.open_partition w.flash b.partition h o in
      let kept = opened_held w.flash h o in
      rw world (record {
        valid = v;
        generation =
            ap (λ f. generation_after (f (namespace api) k)) (sym kept)
            ∙ replace_opened_generation api laws k present payload h g done;
        written = rw (← at) (replace_opened_stores api laws k present payload h g done);
        others = λ n k' ne.
            rw (← at) (replace_opened_others api laws k present payload h g n k' done ne)
            ∙ ap (λ f. f n k') kept;
        health = refl;
      })

  -- If `replace` returns a generation, the name is valid, the generation follows the stored one
  -- (1 where nothing was stored), the blob of the space is the record of that generation, no other
  -- key changes, and `HEALTHY` stays as it was.
  pub replace-Stores :
      (space : List ℕ) (present : Bool) (payload : List ℕ) (g : ℕ) (w : World F)
      → (replace api b space present payload w).0 ≡ ok g
      → Stores space present payload g w (replace api b space present payload w).1
  replace-Stores space present payload g w e = elim (Bool-cases (valid_space_name space)) [
    | inl v ↦
        let run = replace_run api b space present payload w v in
        rw run (
          replace_from_opened space present payload g w (open_nvs api w.flash b.partition) v refl
            (rw run at e))
    | inr bad ↦ cc (replace_invalid api b space present payload w bad)
  ]

  load_from_opened :
      (space : List ℕ) (o : Option Snapshot) (w : World F) (r : Result F H)
      → open_nvs api w.flash b.partition ≡ r
      → (run_opened api r (load_opened api (api.key_of space)) w).0 ≡ ok o
      → snapshot_in (blob space w.flash) ≡ ok o
  load_from_opened space o w (err flash) q e = cc
  load_from_opened space o w (ok h) q e =
      let (done, world) = settle_ok (load_opened api (api.key_of space) h) w o e in
      ap (λ f. snapshot_in (f (namespace api) (api.key_of space))) (sym (opened_held w.flash h q))
      ∙ load_opened_snapshot api laws (api.key_of space) h o done

  -- Whatever a load answers is what the blob of the space decodes to.
  pub load-snapshot_in :
      (space : List ℕ) (o : Option Snapshot) (w : World F)
      → (load api b space w).0 ≡ ok o
      → snapshot_in (blob space w.flash) ≡ ok o
  load-snapshot_in space o w e = elim (Bool-cases (valid_space_name space)) [
    | inl v ↦ load_from_opened space o w _ refl (rw (load_run api b space w v) at e)
    | inr bad ↦ cc (load_invalid api b space w bad)
  ]
