-- ===== src/ConfigSpace/Backend/Health.antt =====
-- `HEALTHY`: which operations set it and to what.
use espbewi.Common.{
  ◌≡◌, Bool, true, false, Option, some, List, arith, refl, ◌⊎◌, inl, inr, Bool-cases, Option-cases,
  ℕ, if◌then◌else◌,
}
use espbewi.Common.Result.{Result, ok, err, is_ok, Result-cases}
use espbewi.Nvs.{NvsPartition, NvsApi, open_nvs, EntryCounts}
use espbewi.ConfigSpace.Record.{NvsConfigError, invalid_space}
use espbewi.ConfigSpace.Units.{valid_space_name}
use espbewi.ConfigSpace.Backend.{
  Snapshot, World, NvsConfigBackend, replace, load, new, owned_entries, run_opened, settle,
  replace_opened, load_opened,
}
use espbewi.ConfigSpace.Backend.Run.{replace_run, replace_invalid, load_run, load_invalid}

module _ {F H Key : Type 0} (api : NvsApi F H Key) where
  settle_health :
      {A : Type 0} (m : Result NvsConfigError A × H) (w : World F)
      → (settle api m w).1.healthy ≡ (if is_ok (settle api m w).0 then w.healthy else false)
  settle_health (ok a, h) w = refl
  settle_health (err e, h) w = refl

  run_opened_health :
      {A : Type 0} (r : Result F H) (f : H → Result NvsConfigError A × H) (w : World F)
      → let (answer, w') = run_opened api r f w in
        w'.healthy ≡ (if is_ok answer then w.healthy else false)
  run_opened_health (err flash) f w = refl
  run_opened_health (ok h) f w = settle_health (f h) w

  -- What an operation on a space does to `HEALTHY`: an invalid name is refused and changes nothing
  -- at all; with a valid name a success leaves the flag as it was and every error clears it.
  abbrev pub HealthRule :
      {A : Type 0} → List ℕ → World F → Result NvsConfigError A × World F → Type 0
  HealthRule space w out =
      ((valid_space_name space ≡ false) × (out.0 ≡ err invalid_space) × (out.1 ≡ w))
      ⊎ ((valid_space_name space ≡ true)
          × (out.1.healthy ≡ (if is_ok out.0 then w.healthy else false)))

  -- `replace`, by which `commit` and `clear` are defined, refuses an invalid name and then changes
  -- nothing; with a valid name a success leaves `HEALTHY` as it was and every error clears it.
  pub replace-HealthRule :
      (b : NvsConfigBackend) (space : List ℕ) (present : Bool) (payload : List ℕ) (w : World F)
      → HealthRule space w (replace api b space present payload w)
  replace-HealthRule b space present payload w = elim (Bool-cases (valid_space_name space)) [
    | inl v ↦ inr (
      v,
      rw (replace_run api b space present payload w v) (
          run_opened_health {A = ℕ} (open_nvs api w.flash b.partition)
            (replace_opened api (api.key_of space) present payload) w),
    )
    | inr bad ↦ let e = replace_invalid api b space present payload w bad in inl (bad, rw e, rw e)
  ]

  -- `load` refuses an invalid name and then changes nothing; with a valid name a success leaves
  -- `HEALTHY` as it was and every error clears it.
  load-HealthRule :
      (b : NvsConfigBackend) (space : List ℕ) (w : World F)
      → HealthRule space w (load api b space w)
  load-HealthRule b space w = elim (Bool-cases (valid_space_name space)) [
    | inl v ↦ inr (
      v,
      rw (load_run api b space w v) (
          run_opened_health {A = Option Snapshot} (open_nvs api w.flash b.partition)
            (load_opened api (api.key_of space)) w),
    )
    | inr bad ↦ let e = load_invalid api b space w bad in inl (bad, rw e, rw e)
  ]

  -- `new` leaves `HEALTHY` as it was, also if it is `true`, where the count of its own blobs fails,
  -- whatever the error; the answer is that error.
  pub new-owned_entries_error :
      (p : NvsPartition) (w : World F) (h : H) (counts : EntryCounts) (e : NvsConfigError)
      → open_nvs api w.flash p ≡ ok h
      → (api.statistics h).0 ≡ some counts
      → (owned_entries api (api.statistics h).1).0 ≡ err e
      → ((new api p w).0 ≡ err e) × ((new api p w).1.healthy ≡ w.healthy)
  unfolding new
  new-owned_entries_error p w h counts e opened stats failed = ground arith

  -- Every other end of `new` sets `HEALTHY` to whether it succeeded: a partition that does not open,
  -- statistics that cannot be read, and success.
  pub new_health :
      (p : NvsPartition) (w : World F)
      → ((new api p w).1.healthy ≡ is_ok (new api p w).0)
        ⊎ ((h : H) × (counts : EntryCounts) × (e : NvsConfigError) × (open_nvs api w.flash p ≡ ok h)
            × ((api.statistics h).0 ≡ some counts)
            × ((owned_entries api (api.statistics h).1).0 ≡ err e))
  unfolding new
  new_health p w = elim (Result-cases (open_nvs api w.flash p)) [
    | inr (flash, e) ↦ inl (ground arith)
    | inl (h, e) ↦ elim (Option-cases (api.statistics h).0) [
      | inl missing ↦ inl (ground arith)
      | inr (counts, found) ↦ elim (Result-cases (owned_entries api (api.statistics h).1).0) [
        | inl (owned, fine) ↦ inl (ground arith)
        | inr (c, failed) ↦ inr (h, counts, c, e, found, failed)
      ]
    ]
  ]
