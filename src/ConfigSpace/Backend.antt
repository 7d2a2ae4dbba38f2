-- ===== src/ConfigSpace/Backend.antt =====
-- `NvsConfigBackend`: the operations on stored records, over any NVS implementation. The flash
-- mutex is held for the whole of each operation, so an operation is one step on the flash; the
-- static `HEALTHY` is the other part of the state. Log lines are left out.
pub mod Run
pub mod Replace
pub mod Contract
pub mod Reliable
pub mod History
pub mod Health
use espbewi.Common.{
  ℕ, zero, suc, ◌+◌, ◌-◌, ◌==◌, ltb, Bool, true, false, Option, none, some, List, [], ◌∷◌, length,
  if◌then◌else◌,
}
use espbewi.Common.Bytes.{codes}
use espbewi.Common.Words.{two_64, saturating_add}
use espbewi.Common.Result.{Result, ok, err}
use espbewi.Common.Exec.{Exec, pure, fail, lift, or_fail, attempt, ◌>>=◌, ◌>>◌, map_err}
use espbewi.Nvs.{
  NvsPartition, NvsApi, NvsError, namespace_not_found, key_not_found, other_error, EntryCounts,
  open_nvs,
}
use espbewi.ConfigSpace.Record.{
  NvsConfigError, unavailable, write, invalid_space, corrupt_record, generation_overflow,
  encode_record, decode_record,
}
use espbewi.ConfigSpace.Units.{valid_space_name, entries_for_blob}

pub record Snapshot : Type 0 where
  pub generation : ℕ
  pub payload : List ℕ

-- The flash behind the mutex, and `HEALTHY`.
pub record World (F : Type 0) : Type 0 where
  pub flash : F
  pub healthy : Bool

pub record NvsConfigBackend : Type 0 where
  pub partition : NvsPartition
  pub capacity_units : ℕ

abbrev pub canary : ℕ
canary = 0xA5

abbrev pub ok_or_false : Result NvsConfigError Bool → Bool
ok_or_false (ok b) = b
ok_or_false (err e) = false

abbrev pub successor : Result NvsConfigError (ℕ × Bool × List ℕ) → Result NvsConfigError ℕ
successor (err e) = err e
successor (ok (generation, present, payload)) =
    if ltb (generation + 1) two_64 then ok (generation + 1) else err generation_overflow

-- The generation that `replace` writes, by what the key held.
abbrev pub next_generation : Result NvsError (List ℕ) → Result NvsConfigError ℕ
next_generation (err namespace_not_found) = ok 1
next_generation (err key_not_found) = ok 1
next_generation (err other_error) = err write
next_generation (ok raw) = successor (decode_record raw)

abbrev pub snapshot_of :
    Result NvsConfigError (ℕ × Bool × List ℕ) → Result NvsConfigError (Option Snapshot)
snapshot_of (err e) = err e
snapshot_of (ok (generation, present, payload)) =
    ok (if present then some (record { generation = generation; payload = payload }) else none)

abbrev pub read_snapshot : Result NvsError (List ℕ) → Result NvsConfigError (Option Snapshot)
read_snapshot (err namespace_not_found) = ok none
read_snapshot (err key_not_found) = ok none
read_snapshot (err other_error) = err write
read_snapshot (ok raw) = snapshot_of (decode_record raw)

module _ {F H Key : Type 0} (api : NvsApi F H Key) where
  abbrev pub namespace : Key
  namespace = api.key_of (codes "cfg_space")

  abbrev pub health_namespace : Key
  health_namespace = api.key_of (codes "cfg_health")

  abbrev pub health_key : Key
  health_key = api.key_of (codes "canary")

  -- The end of `with_nvs`: the handle is dropped, and a failure is marked in `HEALTHY`.
  abbrev pub settle :
      {A : Type 0} → Result NvsConfigError A × H → World F → Result NvsConfigError A × World F
  settle (ok a, h) w = (ok a, record w { flash = api.release h })
  settle (err e, h) w = (err e, record { flash = api.release h; healthy = false })

  abbrev pub run_opened :
      {A : Type 0} → Result F H → Exec H NvsConfigError A → Exec (World F) NvsConfigError A
  run_opened (err flash) f w = (err unavailable, record { flash = flash; healthy = false })
  run_opened (ok h) f w = settle (f h) w

  unfoldable pub with_nvs :
      {A : Type 0} → NvsPartition → Exec H NvsConfigError A → Exec (World F) NvsConfigError A
  unfolding open_nvs
  with_nvs partition f w = run_opened (open_nvs api w.flash partition) f w

  -- `key`: `Key::from_slice` of a valid name.
  unfoldable pub key : List ℕ → Result NvsConfigError Key
  unfolding valid_space_name
  key space = if valid_space_name space then ok (api.key_of space) else err invalid_space

  -- The first loop of `owned_entries`: the keys of the namespace, or the first entry's error.
  abbrev pub collect_keys : List (Option (Key × Key)) → Result NvsConfigError (List Key)
  collect_keys [] = ok []
  collect_keys (none ∷ entries) = err write
  collect_keys (some (entry_namespace, k) ∷ entries) =
      let rest = collect_keys entries in
      elim rest [
        | ok keys ↦ ok (if api.key_eq entry_namespace namespace then k ∷ keys else keys)
        | err e ↦ err e
      ]

  -- The second loop: the entries of each blob are added up.
  abbrev pub sum_entries : List Key → ℕ → Exec H NvsConfigError ℕ
  sum_entries [] owned = pure owned
  sum_entries (k ∷ keys) owned = do
    raw ← map_err (λ _. write) (api.get_blob namespace k)
    entries ←
        or_fail (entries_for_blob api.item_size api.max_blob_data_per_page (length raw))
          corrupt_record
    sum_entries keys (saturating_add owned entries)

  unfoldable pub owned_entries : Exec H NvsConfigError ℕ
  unfolding entries_for_blob
  owned_entries h =
      let (entries, h') = api.typed_entries h in
      (lift (collect_keys entries) >>= λ keys. sum_entries keys 0) h'

  -- `saturating_sub` is the truncated `-`.
  abbrev pub usable_units : EntryCounts → ℕ → ℕ
  usable_units counts owned =
      saturating_add (saturating_add counts.empty counts.erased) owned - api.entries_per_page

  -- The end of `new`. The `?` behind `owned_entries` returns without a store to `HEALTHY`.
  abbrev pub finish_new :
      NvsPartition
      → EntryCounts
      → Result NvsConfigError ℕ × H
      → World F
      → Result NvsConfigError NvsConfigBackend × World F
  finish_new partition counts (ok owned, h) w = (
    ok (record { partition = partition; capacity_units = usable_units counts owned }),
    record { flash = api.release h; healthy = true },
  )
  finish_new partition counts (err e, h) w = (err e, record w { flash = api.release h })

  abbrev pub new_with_statistics :
      NvsPartition
      → Option EntryCounts × H
      → World F
      → Result NvsConfigError NvsConfigBackend × World F
  new_with_statistics partition (none, h) w =
      (err write, record { flash = api.release h; healthy = false })
  new_with_statistics partition (some counts, h) w = finish_new partition counts (owned_entries h) w

  abbrev pub new_opened :
      NvsPartition → Result F H → World F → Result NvsConfigError NvsConfigBackend × World F
  new_opened partition (err flash) w = (err unavailable, record { flash = flash; healthy = false })
  new_opened partition (ok h) w = new_with_statistics partition (api.statistics h) w

  unfoldable pub new : NvsPartition → Exec (World F) NvsConfigError NvsConfigBackend
  unfolding owned_entries open_nvs
  new partition w = new_opened partition (open_nvs api w.flash partition) w

  abbrev pub check_canary : Exec H NvsConfigError Bool
  check_canary = do
    map_err (λ _. write) (api.set_u8 health_namespace health_key canary)
    value ← map_err (λ _. write) (api.get_u8 health_namespace health_key)
    map_err (λ _. write) (api.delete health_namespace health_key)
    pure (value == canary)

  unfoldable pub self_check : NvsConfigBackend → World F → Bool × World F
  unfolding with_nvs
  self_check backend w =
      let (r, w') = with_nvs backend.partition check_canary w in
      (ok_or_false r, record w' { healthy = ok_or_false r })

  abbrev pub replace_opened : Key → Bool → List ℕ → Exec H NvsConfigError ℕ
  replace_opened k present payload h =
      let (old, h') = api.get_blob namespace k h in
      (do
        generation ← lift (next_generation old)
        map_err (λ _. write) (api.set_blob namespace k (encode_record generation present payload))
        pure generation)
        h'

  unfoldable pub replace :
      NvsConfigBackend → List ℕ → Bool → List ℕ → Exec (World F) NvsConfigError ℕ
  unfolding with_nvs key
  replace backend space present payload = do
    k ← lift (key space)
    with_nvs backend.partition (replace_opened k present payload)

  abbrev pub load_opened : Key → Exec H NvsConfigError (Option Snapshot)
  load_opened k h = let (raw, h') = api.get_blob namespace k h in lift (read_snapshot raw) h'

  unfoldable pub load : NvsConfigBackend → List ℕ → Exec (World F) NvsConfigError (Option Snapshot)
  unfolding with_nvs key
  load backend space = do k ← lift (key space); with_nvs backend.partition (load_opened k)

  unfoldable pub commit : NvsConfigBackend → List ℕ → List ℕ → Exec (World F) NvsConfigError ℕ
  unfolding replace
  commit backend space payload = replace backend space true payload

  unfoldable pub clear : NvsConfigBackend → List ℕ → Exec (World F) NvsConfigError ℕ
  unfolding replace
  clear backend space = replace backend space false []
