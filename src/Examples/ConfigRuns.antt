-- ===== src/Examples/ConfigRuns.antt =====
-- The configuration backend on a concrete store.
use espbewi.Common.{
  ℕ, ◌-◌, ◌*◌, ◌^◌, ◌≤◌, ◌≡◌, refl, true, false, none, some, List, [], ◌∷◌, ◌++◌, arith, ◌⊎◌, ◌↔◌,
  length, replicate,
}
use espbewi.Common.Bytes.{codes}
use espbewi.Common.Result.{ok, err, is_ok}
use espbewi.Nvs.{NvsPartition, NvsApi, EntryCounts, open_nvs}
use espbewi.ConfigSpace.Record.{NvsConfigError, write, encode_record, decode_record}
use espbewi.ConfigSpace.Record.RoundTrip.{decode_record_iff}
use espbewi.ConfigSpace.Units.{
  valid_space_name, entries_for_blob, reservation_units, reservation_units-encode_record,
}
use espbewi.ConfigSpace.Backend.{
  World, NvsConfigBackend, replace, load, commit, clear, new, owned_entries,
}
use espbewi.ConfigSpace.Backend.Contract.{Stores, blob, replace-Stores, load-snapshot_in}
use espbewi.ConfigSpace.Backend.Replace.{snapshot_in}
use espbewi.ConfigSpace.Backend.History.{Change, committing, clearing, change_all, load-change_all}
use espbewi.ConfigSpace.Backend.Health.{
  HealthRule, replace-HealthRule, new-owned_entries_error, new_health,
}
use espbewi.Examples.Store.{Blobs, Opened, blob_store, blob_store_laws, blob_store-IsReliable}

abbrev partition : NvsPartition
partition = record { offset = 0x9000; size = 0x6000 }

abbrev backend : NvsConfigBackend
backend = record { partition = partition; capacity_units = 194 }

abbrev blank : World Blobs
blank = record { flash = []; healthy = true }

abbrev wifi : List ℕ
wifi = codes "wifi"

abbrev holding : List ℕ → World Blobs
holding content = record {
  flash = record { name = codes "cfg_space"; key = wifi; content = content } ∷ [];
  healthy = true;
}

-- The record of the last generation.
abbrev last_record : List ℕ
last_record = codes "CSM1" ++ (replicate 8 255 ++ (1 ∷ 7 ∷ []))

-- Two commits, a clear and a commit: the generations are 1, 2, 3 and 4.
generations_run :
    let (a, w1) = commit blob_store backend wifi (5 ∷ []) blank in
    let (b, w2) = commit blob_store backend wifi (6 ∷ 7 ∷ []) w1 in
    let (c, w3) = clear blob_store backend wifi w2 in
    let (d, w4) = commit blob_store backend wifi (8 ∷ []) w3 in
    (a ≡ ok 1)
    × (b ≡ ok 2)
    × (c ≡ ok 3)
    × ((load blob_store backend wifi w3).0 ≡ ok none)
    × (d ≡ ok 4)
unfolding commit clear load encode_record decode_record valid_space_name open_nvs
generations_run = (refl, refl, refl, refl, refl)

wifi_is_valid : valid_space_name wifi ≡ true
unfolding valid_space_name
wifi_is_valid = refl

decode_record_iff_example :
    (decode_record last_record ≡ ok (2 ^ 64 - 1, true, 7 ∷ []))
    ↔ (encode_record (2 ^ 64 - 1) true (7 ∷ []) ≡ last_record)
decode_record_iff_example =
    decode_record_iff last_record (7 ∷ []) (2 ^ 64 - 1) true (omega arith) (omega arith)

reservation_units-encode_record_example :
    (m : ℕ) × (entries_for_blob 32 4000 (length (encode_record 9 true (replicate 100 0))) ≡ some m)
    × (2 * m ≤ 12)
unfolding reservation_units entries_for_blob valid_space_name
reservation_units-encode_record_example =
    reservation_units-encode_record 32 4000 wifi (replicate 100 0) 100 12 9 true refl (omega arith)

replace-Stores_example :
    Stores blob_store blob_store_laws backend wifi true
      (5 ∷ [])
      1
      blank
      (replace blob_store backend wifi true (5 ∷ []) blank).1
unfolding replace encode_record decode_record valid_space_name
replace-Stores_example =
    replace-Stores blob_store blob_store_laws backend wifi true (5 ∷ []) 1 blank refl

load_run :
    snapshot_in (blob blob_store blob_store_laws backend wifi (holding last_record).flash)
    ≡ ok (some (record { generation = 2 ^ 64 - 1; payload = 7 ∷ [] }))
unfolding load decode_record valid_space_name
load_run =
    load-snapshot_in blob_store blob_store_laws backend wifi
      (some (record { generation = 2 ^ 64 - 1; payload = 7 ∷ [] })) (holding last_record) refl

-- The payload 5, then a clear, then the payload 6 and 7.
abbrev history : List Change
history = committing (5 ∷ []) ∷ clearing ∷ committing (6 ∷ 7 ∷ []) ∷ []

nothing_stored : (load blob_store backend wifi blank).0 ≡ ok none
unfolding load decode_record valid_space_name
nothing_stored = refl

load-change_all_example :
    let (answers, w') = change_all blob_store backend wifi history blank in
    (answers ≡ ok 1 ∷ ok 2 ∷ ok 3 ∷ [])
    × ((load blob_store backend wifi w').0
        ≡ ok (some (record { generation = 3; payload = 6 ∷ 7 ∷ [] })))
load-change_all_example =
    load-change_all blob_store blob_store_laws blob_store-IsReliable backend wifi wifi_is_valid
      history 1 none blank refl nothing_stored (omega arith)

replace-HealthRule_example :
    HealthRule blob_store (codes "") blank (replace blob_store backend (codes "") true [] blank)
replace-HealthRule_example = replace-HealthRule blob_store backend (codes "") true [] blank

-- A store whose enumeration fails at its first entry.
abbrev torn_store : NvsApi Blobs Opened (List ℕ)
torn_store = record blob_store { typed_entries = λ h. (none ∷ [], h) }

unhealthy_run :
    ((new torn_store partition blank).0 ≡ err write)
    × ((new torn_store partition blank).1.healthy ≡ true)
unfolding owned_entries open_nvs
unhealthy_run =
    new-owned_entries_error torn_store partition blank (partition, [])
      (record { empty = 300; erased = 20 }) write refl refl refl

health_run :
    let w = record blank { healthy = false } in
    ((new blob_store partition w).1.healthy ≡ is_ok (new blob_store partition w).0)
    ⊎ ((h : Opened) × (counts : EntryCounts) × (e : NvsConfigError) × (open_nvs blob_store w.flash
            partition
          ≡ ok h)
        × ((blob_store.statistics h).0 ≡ some counts)
        × ((owned_entries blob_store (blob_store.statistics h).1).0 ≡ err e))
health_run = new_health blob_store partition (record blank { healthy = false })
