-- ===== src/Ota/SharedFlash.antt =====
-- adapters/ota/src/shared_flash.rs: OTA operations over the shared flash. SHA-256 and the upload
-- session of the crate fibewi (`WriteSession`) are records of operations. The wrappers that only
-- lock the flash and call `otadata` are in Locked.
pub mod Preloaded
pub mod EraseAhead
pub mod Locked
use espbewi.Common.{
  ℕ, zero, suc, ◌+◌, ◌-◌, ◌*◌, ◌/◌, min, Bool, true, false, Option, none, some, List, [], ◌∷◌, ◌++◌,
  length, replicate, ltb, not, if◌then◌else◌,
}
use espbewi.Common.Bytes.{codes}
use espbewi.Common.Words.{two_64, add_u32, add_u64, sub_u64, div_ceil}
use espbewi.Common.Result.{Result, ok, err}
use espbewi.Common.Exec.{Exec, pure, fail, attempt, fail_if, map_err, ◌>>=◌, ◌>>◌}
use espbewi.Flash.{NorFlash}
use espbewi.Partitions.{TableParser}
use espbewi.Ota.{AppSlot, AppPartition, FlashWriteError, erase_partition_range}
use espbewi.Ota.Storage.{EspArtifactStorage, new_pre_erased}
use espbewi.Ota.Otadata
use espbewi.Ota.Otadata.{
  BackendOutcome, other_outcome, BootEntry, read_entries, booted_slot, write_target,
}
use espbewi.BootEntries.{BootCore}

pub data PreloadedError : Type 0 where
  no_target too_large flash_failed : PreloadedError

pub record Hasher (D : Type 0) : Type 0 where
  pub start : D
  pub update : D → List ℕ → D
  pub finalize : D → List ℕ

abbrev pub ok_or_else : {A : Type 0} → Result Otadata.Error A → A → A
ok_or_else (ok a) d = a
ok_or_else (err e) d = d

abbrev pub found_or : {A : Type 0} → Option A → A → A
found_or (some a) d = a
found_or none d = d

abbrev pub unknown : BootEntry
unknown = record { slot = codes ""; seq = 0; state = codes "unknown" }

-- The bytes of the next read of `hash_preloaded`.
abbrev pub take_of : ℕ → ℕ → ℕ
take_of size offset = min (size - offset) 4096

module _ {F Table E : Type 0} (nor : NorFlash F) (parser : TableParser F Table)
    (core : BootCore E) where
  unfoldable pub active_slot : F → List ℕ × F
  active_slot f = let (r, f') = booted_slot nor parser core f in (ok_or_else r (codes ""), f')

  abbrev pub outcome_of : Result Otadata.Error (List (List ℕ)) → BackendOutcome
  outcome_of (ok entries) = Otadata.image_outcome nor parser core entries
  outcome_of (err e) = other_outcome

  unfoldable pub image_outcome : F → BackendOutcome × F
  image_outcome f = let (r, f') = read_entries nor parser core f in (outcome_of r, f')

  abbrev pub info_of : Result Otadata.Error (List (List ℕ)) → BootEntry
  info_of (ok entries) = found_or (Otadata.boot_entry nor parser core entries) unknown
  info_of (err e) = unknown

  unfoldable pub boot_info : F → BootEntry × F
  boot_info f = let (r, f') = read_entries nor parser core f in (info_of r, f')

  -- The loop of `hash_preloaded`, on fuel.
  unfoldable pub hash_loop : {D : Type 0} → Hasher D → ℕ → ℕ → ℕ → ℕ → D → Exec F PreloadedError D
  hash_loop hasher zero base size offset d = pure d
  hash_loop hasher (suc fuel) base size offset d = elim (ltb offset size) [
    | true ↦ do
      bytes ← attempt (nor.read (add_u32 base offset) (take_of size offset)) flash_failed
      hash_loop hasher fuel base size (offset + take_of size offset) (hasher.update d bytes)
    | false ↦ pure d
  ]

  unfoldable pub hash_preloaded :
      {D : Type 0} → Hasher D → ℕ → Exec F PreloadedError (AppSlot × List ℕ)
  hash_preloaded hasher size = do
    target ← map_err (λ _. no_target) (write_target nor parser core)
    fail_if (ltb target.size size) too_large
    d ← hash_loop hasher size target.offset size 0 hasher.start
    pure (target.slot, hasher.finalize d)

abbrev pub erase_batch_size : ℕ
erase_batch_size = 64 * 1024

pub record ArtifactWriter : Type 0 where
  pub partition : AppPartition
  pub scratch : List ℕ
  pub erased_through : ℕ
  pub sectors_flushed : ℕ
  pub erase_batches : ℕ

-- `WriteSession`, which writes through the storage that it is given; `C` is `Committed`.
pub record SessionApi (F W C D : Type 0) : Type 0 where
  pub can_append : W → ℕ → Bool
  pub received : W → ℕ
  pub durable : W → ℕ
  pub append : List ℕ → W → EspArtifactStorage F → Bool × W × EspArtifactStorage F
  pub finish : W → EspArtifactStorage F → Result D C × EspArtifactStorage F
  pub incomplete : ℕ → D
  pub backend_error : FlashWriteError → D
  pub committed_size : C → ℕ

-- The writer, the session that it serves, and the flash.
pub record Upload (F W : Type 0) : Type 0 where
  pub writer : ArtifactWriter
  pub session : W
  pub flash : F

-- Where the erased part has to reach for `end_received` bytes: whole batches, inside the partition.
abbrev pub desired_erased : ℕ → ℕ → ℕ
desired_erased end_received size =
    min (min (div_ceil end_received erase_batch_size * erase_batch_size) (two_64 - 1)) size

module _ {F W C D : Type 0} (nor : NorFlash F) (api : SessionApi F W C D) where
  unfoldable pub new_writer : AppPartition → ArtifactWriter
  new_writer partition = record {
    partition = partition;
    scratch = replicate nor.erase_size 0;
    erased_through = 0;
    sectors_flushed = 0;
    erase_batches = 0;
  }

  -- `engine.append` through a storage that erases nothing.
  abbrev pub feed :
      List ℕ → Result FlashWriteError (EspArtifactStorage F) → Upload F W → Bool × Upload F W
  feed bytes (err e) u = (false, u)
  feed bytes (ok storage) u =
      let (good, session, storage') = api.append bytes u.session storage in
      (
        good,
        record {
          writer = record u.writer { scratch = storage'.scratch };
          session = session;
          flash = storage'.device;
        },
      )

  abbrev pub append_erased : List ℕ → Upload F W → Bool × Upload F W
  append_erased bytes u =
      feed bytes (new_pre_erased nor u.flash u.writer.partition u.writer.scratch) u

  abbrev pub after_erase :
      List ℕ → ℕ → Result FlashWriteError (Unit {0}) × F → Upload F W → Bool × Upload F W
  after_erase bytes desired (err e, flash) u = (false, record u { flash = flash })
  after_erase bytes desired (ok done, flash) u = append_erased bytes (record {
    writer = record u.writer {
      erased_through = desired;
      erase_batches =
          add_u32 u.writer.erase_batches ((desired - u.writer.erased_through) / erase_batch_size);
    };
    session = u.session;
    flash = flash;
  })

  unfoldable pub erase_ahead : List ℕ → ℕ → Upload F W → Bool × Upload F W
  erase_ahead bytes desired u = elim (ltb u.writer.erased_through desired) [
    | true ↦
        after_erase bytes desired
          (erase_partition_range nor u.writer.partition u.writer.erased_through desired u.flash) u
    | false ↦ append_erased bytes u
  ]

  -- The sectors between two durable watermarks.
  abbrev pub count_sectors : ℕ → ℕ → Upload F W → Upload F W
  count_sectors before after u = record u {
    writer = record u.writer {
      sectors_flushed =
          add_u32 u.writer.sectors_flushed (div_ceil (sub_u64 after before) nor.erase_size);
    };
  }

  unfoldable pub append : List ℕ → Upload F W → Bool × Upload F W
  append bytes u =
      let desired =
        desired_erased (add_u64 (api.received u.session) (length bytes)) u.writer.partition.size in
      let (good, u') = erase_ahead bytes desired u in
      if api.can_append u.session (length bytes)
      then (good, count_sectors (api.durable u.session) (api.durable u'.session) u')
      else (false, u)

  abbrev pub finish_with :
      ℕ → Result FlashWriteError (EspArtifactStorage F) → Upload F W → Result D C × Upload F W
  finish_with before (err e) u = (err (api.backend_error e), u)
  finish_with before (ok storage) u =
      let (r, storage') = api.finish u.session storage in
      let u' = record u {
        writer = record u.writer { scratch = storage'.scratch };
        flash = storage'.device;
      } in
      elim r [
        | err e ↦ (err e, u')
        | ok committed ↦ (ok committed, count_sectors before (api.committed_size committed) u')
      ]

  unfoldable pub finish : Upload F W → Result D C × Upload F W
  finish u =
      if ltb u.writer.erased_through (api.received u.session)
      then (err (api.incomplete (api.durable u.session)), u)
      else finish_with (api.durable u.session)
          (new_pre_erased nor u.flash u.writer.partition u.writer.scratch) u
