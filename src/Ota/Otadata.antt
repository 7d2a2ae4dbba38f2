-- ===== src/Ota/Otadata.antt =====
-- adapters/ota/src/otadata.rs: boot entries in the `otadata` partition, over any NOR flash, any
-- parser of the partition table and any `fibewi::boot`. An update is verified by reading back.
pub mod Execute
pub mod Works
pub mod Transitions
pub mod Moves
pub mod Frame
pub mod Target
use espbewi.Common.{
  ℕ, ◌+◌, ◌*◌, ◌==◌, ltb, Bool, true, false, not, ◌||◌, Option, none, some, List, [], ◌∷◌, take,
  if◌then◌else◌,
}
use espbewi.Common.Bytes.{codes, eq_bytes}
use espbewi.Common.Words.{add_u32}
use espbewi.Common.Result.{Result, ok, err}
use espbewi.Common.Exec.{Exec, pure, fail, lift, or_fail, attempt, fail_if, map_err, ◌>>=◌, ◌>>◌}
use espbewi.Flash.{NorFlash}
use espbewi.Partitions.{TableParser, data_ota}
use espbewi.Ota.{AppSlot, ota_0, ota_1, AppPartition, find_app_partition}
use espbewi.BootEntries.{Op, erase_op, program_op, Write, BootCore}

abbrev pub slot_count : ℕ
slot_count = 2

abbrev pub sector_size : ℕ
sector_size = 0x1000

pub data Error : Type 0 where
  unavailable no_transition verify : Error

pub data BackendOutcome : Type 0 where
  pending_confirmation confirmed other_outcome : BackendOutcome

-- `slot` and `state` are byte strings.
pub record BootEntry : Type 0 where
  pub slot : List ℕ
  pub seq : ℕ
  pub state : List ℕ

abbrev pub max_of : List ℕ → Option ℕ
max_of [] = none
max_of (n ∷ ns) =
    let rest = max_of ns in elim rest [ none ↦ some n | some m ↦ some (if ltb n m then m else n) ]

-- The label that is reported, of the three that are known.
abbrev pub known_label : List ℕ → Option (List ℕ)
known_label label =
    if eq_bytes label (codes "ota_0")
      || eq_bytes label (codes "ota_1")
      || eq_bytes label (codes "factory")
    then some label
    else none

abbrev pub other_slot : ℕ → Option AppSlot
other_slot slot = if slot == 0 then some ota_1 else if slot == 1 then some ota_0 else none

abbrev pub slot_index : AppSlot → ℕ
slot_index ota_0 = 0
slot_index ota_1 = 1

module _ {F Table E : Type 0} (nor : NorFlash F) (parser : TableParser F Table)
    (core : BootCore E) where
  -- One entry per sector, of the two that `entries` has.
  abbrev pub read_raws : ℕ → Exec F Error (List (List ℕ))
  read_raws base = do
    first ← attempt (nor.read (add_u32 base 0) core.entry_size) unavailable
    second ← attempt (nor.read (add_u32 base sector_size) core.entry_size) unavailable
    pure (first ∷ second ∷ [])

  unfoldable pub read_at : Exec F Error (ℕ × List (List ℕ))
  read_at = do
    table ← attempt parser.read_table unavailable
    found ← or_fail (parser.find_partition table data_ota) unavailable
    partition ← or_fail found unavailable
    entries ← read_raws partition.start
    pure (partition.start, entries)

  unfoldable pub read_entries : Exec F Error (List (List ℕ))
  read_entries = do located ← read_at; pure located.1

  unfoldable pub booted_slot : Exec F Error (List ℕ)
  booted_slot = do
    table ← attempt parser.read_table unavailable
    found ← or_fail (parser.booted_partition table) unavailable
    entry ← or_fail found unavailable
    or_fail (known_label entry.label) unavailable

  -- The sequence number of an entry that identifies a running image.
  abbrev pub running_seq : Option E → Option ℕ
  running_seq none = none
  running_seq (some e) =
      if core.state e == core.state_valid || core.state e == core.state_pending_verify
      then some (core.seq e)
      else none

  abbrev pub add_seq : Option ℕ → List ℕ → List ℕ
  add_seq none ns = ns
  add_seq (some n) ns = n ∷ ns

  abbrev pub running_seqs : List (List ℕ) → List ℕ
  running_seqs [] = []
  running_seqs (raw ∷ raws) = add_seq (running_seq (core.decode raw)) (running_seqs raws)

  unfoldable pub write_target : Exec F Error AppPartition
  write_target = do
    entries ← read_entries
    seq ← or_fail (max_of (running_seqs entries)) unavailable
    target ← or_fail (other_slot (core.slot_of seq slot_count)) unavailable
    map_err (λ _. unavailable) (find_app_partition parser target)

  abbrev pub has_state : ℕ → Option E → Bool
  has_state wanted none = false
  has_state wanted (some e) = core.state e == wanted

  abbrev pub any_in_state : ℕ → List (List ℕ) → Bool
  any_in_state wanted [] = false
  any_in_state wanted (raw ∷ raws) = has_state wanted (core.decode raw) || any_in_state wanted raws

  unfoldable pub image_outcome : List (List ℕ) → BackendOutcome
  image_outcome entries =
      if any_in_state core.state_pending_verify entries
      then pending_confirmation
      else if any_in_state core.state_valid entries
      then confirmed
      else other_outcome

  -- `max_by_key`: of equal keys the last.
  abbrev pub later_of : Option E → Option E → Option E
  later_of a none = a
  later_of none (some e) = some e
  later_of (some d) (some e) = some (if ltb (core.seq e) (core.seq d) then d else e)

  abbrev pub latest_entry : List (List ℕ) → Option E
  latest_entry [] = none
  latest_entry (raw ∷ raws) = later_of (core.decode raw) (latest_entry raws)

  abbrev pub slot_name : ℕ → List ℕ
  slot_name slot =
      if slot == 0 then codes "ota_0" else if slot == 1 then codes "ota_1" else codes ""

  abbrev pub state_name : ℕ → List ℕ
  state_name state =
      if state == core.state_new
      then codes "new"
      else if state == core.state_pending_verify
      then codes "pending_verify"
      else if state == core.state_valid
      then codes "valid"
      else if state == core.state_invalid
      then codes "invalid"
      else if state == core.state_aborted
      then codes "aborted"
      else codes "unknown"

  abbrev pub describe : Option E → Option BootEntry
  describe none = none
  describe (some e) = some (record {
    slot = slot_name (core.slot_of (core.seq e) slot_count);
    seq = core.seq e;
    state = state_name (core.state e);
  })

  unfoldable pub boot_entry : List (List ℕ) → Option BootEntry
  boot_entry entries = describe (latest_entry entries)

  -- `NorFlash::write` of the bytes of a program command, and what it reads like afterwards.
  abbrev pub program_verified : ℕ → Op → (List ℕ → Bool) → Exec F Error (Unit {0})
  program_verified base erase_op good = fail verify
  program_verified base (program_op offset len bytes) good = do
    attempt (nor.program (add_u32 base offset) (take len bytes)) verify
    back ← attempt (nor.read base core.entry_size) verify
    fail_if (not (good back)) verify

  abbrev pub erase_verified : ℕ → Op → Exec F Error (Unit {0})
  erase_verified base (program_op offset len bytes) = fail verify
  erase_verified base erase_op = do
    attempt (nor.erase base (add_u32 base sector_size)) verify
    back ← attempt (nor.read base core.entry_size) verify
    fail_if (not (eq_bytes back core.blank)) verify

  -- The last test of `execute`: the entry reads back committed and exact.
  abbrev pub is_committed : E → List ℕ → Bool
  is_committed entry back =
      if eq_bytes back (core.encode entry) then core.entry_eq (core.decode back) entry else false

  abbrev pub execute_at : ℕ → Write E → Exec F Error (Unit {0})
  execute_at base write =
      let (erase, body, commit) = core.ops write in
      erase_verified base erase
      >> program_verified base body (λ back. eq_bytes back (core.body write.entry))
      >> program_verified base commit (is_committed write.entry)

  unfoldable pub execute : Write E → Exec F Error (Unit {0})
  execute write = do
    located ← read_at
    execute_at (add_u32 located.0 (write.sector * sector_size)) write

  unfoldable pub confirm : Exec F Error (Unit {0})
  confirm = do
    entries ← read_entries
    write ← or_fail (core.confirm entries) no_transition
    execute write

  unfoldable pub reject : Exec F Error (Unit {0})
  reject = do
    entries ← read_entries
    write ← or_fail (core.reject entries) no_transition
    execute write

  unfoldable pub activate : AppSlot → Exec F Error (Unit {0})
  activate target = do
    entries ← read_entries
    write ← or_fail (core.activate entries slot_count (slot_index target)) no_transition
    execute write
