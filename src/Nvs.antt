-- ===== src/Nvs.antt =====
-- hardware/nvs/src/lib.rs: a view of the shared flash as an NVS partition. The key-value store is
-- the crate `esp-nvs`; it enters as a record of operations over an opened handle `H`, which holds
-- the flash `F` until it is released.
pub mod Laws
pub mod View
use espbewi.Common.{ℕ, Bool, Option, List}
use espbewi.Common.Result.{Result}

pub record NvsPartition : Type 0 where
  pub offset : ℕ
  pub size : ℕ

-- `esp_nvs::error::Error`, as far as the callers tell the variants apart.
pub data NvsError : Type 0 where
  namespace_not_found key_not_found other_error : NvsError

-- `entries_overall` of the statistics
pub record EntryCounts : Type 0 where
  pub empty : ℕ
  pub erased : ℕ

pub record NvsApi (F H Key : Type 0) : Type 0 where
  pub open_at : ℕ → ℕ → F → Result F H
  pub release : H → F
  pub key_of : List ℕ → Key
  pub key_eq : Key → Key → Bool
  pub get_blob : Key → Key → H → Result NvsError (List ℕ) × H
  pub set_blob : Key → Key → List ℕ → H → Result NvsError (Unit {0}) × H
  pub get_u8 : Key → Key → H → Result NvsError ℕ × H
  pub set_u8 : Key → Key → ℕ → H → Result NvsError (Unit {0}) × H
  pub delete : Key → Key → H → Result NvsError (Unit {0}) × H
  pub statistics : H → Option EntryCounts × H
  pub typed_entries : H → List (Option (Key × Key)) × H
  pub entries_per_page : ℕ
  pub item_size : ℕ
  pub max_blob_data_per_page : ℕ

-- `open`: `Nvs::new` at the partition. The flash comes back where it fails.
unfoldable pub open_nvs : {F H Key : Type 0} → NvsApi F H Key → F → NvsPartition → Result F H
open_nvs api flash partition = api.open_at partition.offset partition.size flash
