-- ===== src/BootEntries/Updates.antt =====
-- What `fibewi::boot` documents of the three commands of an entry update, for an entry that was erased.
use espbewi.Common.{ℕ, ◌+◌, ◌%◌, ◌≤◌, ◌<◌, ◌≡◌, true, List, length, take, drop, replicate}
use espbewi.Flash.Splice.{overlay}
use espbewi.BootEntries.{erase_op, program_op, Write, BootCore}

-- A program command of whole words inside an entry of `size` bytes, over bytes that are erased.
pub record IsProgram (size offset : ℕ) (xs before after : List ℕ) : Type 0 where
  pub aligned : offset % 4 ≡ 0
  pub whole : length xs % 4 ≡ 0
  pub inside : offset + length xs ≤ size
  pub erased : take (length xs) (drop offset before) ≡ replicate (length xs) 0xFF
  pub result : overlay offset xs before ≡ after

-- What the commands of an entry update are: the erase, the body, and the commit word behind it.
pub record Updates {E : Type 0} (core : BootCore E) (write : Write E) : Type 0 where
  pub body_at : ℕ
  pub body_len : ℕ
  pub body_bytes : List ℕ
  pub commit_at : ℕ
  pub commit_len : ℕ
  pub commit_bytes : List ℕ
  pub commands : core.ops write ≡ (
    erase_op,
    program_op body_at body_len body_bytes,
    program_op commit_at commit_len commit_bytes,
  )
  pub small : core.entry_size ≤ 4096
  pub blank_bytes : core.blank ≡ replicate core.entry_size 0xFF
  pub body_program :
      IsProgram core.entry_size body_at
        (take body_len body_bytes)
        core.blank
        (core.body write.entry)
  pub commit_program :
      IsProgram core.entry_size commit_at
        (take commit_len commit_bytes)
        (core.body write.entry)
        (core.encode write.entry)
  pub reads_back : core.entry_eq (core.decode (core.encode write.entry)) write.entry ≡ true

-- An update of one of the two entries, with commands as documented.
abbrev pub IsPlanned : {E : Type 0} → BootCore E → Write E → Type 0
IsPlanned core write = (write.sector < 2) × Updates core write
