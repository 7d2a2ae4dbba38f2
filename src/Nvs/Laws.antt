-- ===== src/Nvs/Laws.antt =====
-- What the configuration backend relies on of `esp-nvs`: a partition holds blobs under a namespace
-- and a key, reads return what was written, and a write touches only its own key.
use espbewi.Common.{ℕ, ◌≡◌, ◌⊎◌, Option, none, some, List}
use espbewi.Common.Result.{ok, err}
use espbewi.Nvs.{NvsPartition, NvsApi, namespace_not_found, key_not_found, open_nvs}

module _ {F H Key : Type 0} (api : NvsApi F H Key) where
  -- Of any implementation, whichever calls fail.
  pub record NvsLaws : Type 0 where
    pub stored : NvsPartition → F → Key → Key → Option (List ℕ)
    pub partition_of : H → NvsPartition
    pub open_partition :
        (flash : F) (p : NvsPartition) (h : H) → open_nvs api flash p ≡ ok h → partition_of h ≡ p
    pub open_keeps :
        (flash : F) (p : NvsPartition) (h : H)
        → open_nvs api flash p ≡ ok h
        → stored p (api.release h) ≡ stored p flash
    pub open_fails :
        (flash flash' : F) (p : NvsPartition)
        → open_nvs api flash p ≡ err flash'
        → stored p flash' ≡ stored p flash
    pub get_partition : (n k : Key) (h : H) → partition_of (api.get_blob n k h).1 ≡ partition_of h
    pub get_keeps :
        (n k : Key) (h : H)
        → stored (partition_of h) (api.release (api.get_blob n k h).1)
          ≡ stored (partition_of h) (api.release h)
    pub get_found :
        (n k : Key) (h : H) (raw : List ℕ)
        → (api.get_blob n k h).0 ≡ ok raw
        → stored (partition_of h) (api.release h) n k ≡ some raw
    pub get_no_namespace :
        (n k : Key) (h : H)
        → (api.get_blob n k h).0 ≡ err namespace_not_found
        → stored (partition_of h) (api.release h) n k ≡ none
    pub get_no_key :
        (n k : Key) (h : H)
        → (api.get_blob n k h).0 ≡ err key_not_found
        → stored (partition_of h) (api.release h) n k ≡ none
    pub set_stores :
        (n k : Key) (raw : List ℕ) (h : H)
        → (api.set_blob n k raw h).0 ≡ ok tt
        → stored (partition_of h) (api.release (api.set_blob n k raw h).1) n k ≡ some raw
    pub set_others :
        (n k n' k' : Key) (raw : List ℕ) (h : H)
        → ¬ ((n ≡ n') × (k ≡ k'))
        → stored (partition_of h) (api.release (api.set_blob n k raw h).1) n' k'
          ≡ stored (partition_of h) (api.release h) n' k'

  -- Of a device with no faults, no corruption and room for what is written.
  pub record IsReliable (laws : NvsLaws) : Type 0 where
    pub opens : (flash : F) (p : NvsPartition) → (h : H) × (open_nvs api flash p ≡ ok h)
    pub finds :
        (n k : Key) (h : H) (raw : List ℕ)
        → laws.stored (laws.partition_of h) (api.release h) n k ≡ some raw
        → (api.get_blob n k h).0 ≡ ok raw
    pub misses :
        (n k : Key) (h : H)
        → laws.stored (laws.partition_of h) (api.release h) n k ≡ none
        → ((api.get_blob n k h).0 ≡ err namespace_not_found)
          ⊎ ((api.get_blob n k h).0 ≡ err key_not_found)
    pub sets : (n k : Key) (raw : List ℕ) (h : H) → (api.set_blob n k raw h).0 ≡ ok tt
