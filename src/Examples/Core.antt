-- ===== src/Examples/Core.antt =====
-- Boot entries of eight bytes: a number, its check, and a commit word.
use espbewi.Common.{
  ℕ, ◌%◌, ◌==◌, Bool, false, Option, none, some, List, [], ◌∷◌, get_or, replicate, if◌then◌else◌,
}
use espbewi.BootEntries.{erase_op, program_op, Write, BootCore}
use espbewi.Partitions.{PartitionType, app_ota_0, app_ota_1, data_ota, TableEntry, TableParser}
use espbewi.Flash.Laws.{Cells}

abbrev entry_bytes : ℕ → List ℕ
entry_bytes e = e ∷ 1 ∷ 2 ∷ 3 ∷ []

abbrev commit_word : List ℕ
commit_word = 9 ∷ 9 ∷ 9 ∷ 9 ∷ []

abbrev decoded : List ℕ → Option ℕ
decoded raw = if get_or raw 4 0 == 9 then some (get_or raw 0 0) else none

abbrev is_entry : Option ℕ → ℕ → Bool
is_entry none e = false
is_entry (some d) e = d == e

abbrev next_write : List (List ℕ) → Option (Write ℕ)
next_write raws = some (record { sector = 1; entry = 6 })

abbrev pub small_core : BootCore ℕ
small_core = record {
  entry_size = 8;
  blank = replicate 8 255;
  decode = decoded;
  encode = λ e. e ∷ 1 ∷ 2 ∷ 3 ∷ commit_word;
  body = λ e. e ∷ 1 ∷ 2 ∷ 3 ∷ replicate 4 255;
  entry_eq = is_entry;
  seq = λ e. e;
  state = λ e. 2;
  state_new = 0;
  state_pending_verify = 1;
  state_valid = 2;
  state_invalid = 3;
  state_aborted = 4;
  slot_of = λ seq count. seq % count;
  ops = λ w. (erase_op, program_op 0 4 (entry_bytes w.entry), program_op 4 4 commit_word);
  confirm = next_write;
  reject = next_write;
  activate = λ raws count index. next_write raws;
}

abbrev pub entry_at : ℕ → TableEntry
entry_at start = record { start = start; len = 8192; label = [] }

abbrev table_entry : PartitionType → TableEntry
table_entry data_ota = entry_at 8192
table_entry app_ota_0 = entry_at 65536
table_entry app_ota_1 = entry_at 131072

-- A table that reading does not change.
abbrev pub small_table : TableParser Cells (Unit {0})
small_table = record {
  read_table = λ c. (some tt, c);
  find_partition = λ table kind. some (some (table_entry kind));
  booted_partition = λ table. some (some (entry_at 65536));
}
