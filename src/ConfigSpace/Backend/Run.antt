-- ===== src/ConfigSpace/Backend/Run.antt =====
-- `replace` and `load` as a run on an opened handle, or the refusal of the name.
use espbewi.Common.{ℕ, ◌≡◌, Bool, true, false, List}
use espbewi.Common.Result.{err}
use espbewi.Nvs.{NvsApi, open_nvs}
use espbewi.ConfigSpace.Record.{invalid_space}
use espbewi.ConfigSpace.Units.{valid_space_name}
use espbewi.ConfigSpace.Backend.{
  World, NvsConfigBackend, replace, load, run_opened, replace_opened, load_opened,
}

module _ {F H Key : Type 0} (api : NvsApi F H Key) (b : NvsConfigBackend) where
  -- `replace` from the run on the opened handle.
  pub replace_run :
      (space : List ℕ) (present : Bool) (payload : List ℕ) (w : World F)
      → valid_space_name space ≡ true
      → replace api b space present payload w
        ≡ run_opened api
            (open_nvs api w.flash b.partition)
            (replace_opened api (api.key_of space) present payload)
            w
  unfolding replace
  replace_run space present payload w v = rw v

  pub replace_invalid :
      (space : List ℕ) (present : Bool) (payload : List ℕ) (w : World F)
      → valid_space_name space ≡ false
      → replace api b space present payload w ≡ (err invalid_space, w)
  unfolding replace
  replace_invalid space present payload w v = rw v

  pub load_run :
      (space : List ℕ) (w : World F)
      → valid_space_name space ≡ true
      → load api b space w
        ≡ run_opened api (open_nvs api w.flash b.partition) (load_opened api (api.key_of space)) w
  unfolding load
  load_run space w v = rw v

  pub load_invalid :
      (space : List ℕ) (w : World F)
      → valid_space_name space ≡ false
      → load api b space w ≡ (err invalid_space, w)
  unfolding load
  load_invalid space w v = rw v
