-- ===== src/ConfigSpace/Record.antt =====
-- The record that a configuration space is stored as: magic `CSM1`, the generation as eight bytes,
-- a flags byte, the payload (`encode_record`, `decode_record`).
pub mod RoundTrip
use espbewi.Common.{
  ℕ, ◌-◌, Bool, not, ◌||◌, List, [], ◌∷◌, ◌++◌, ltb, ◌==◌, if◌then◌else◌, length, get_or, take,
  drop, bit_and,
}
use espbewi.Common.Bytes.{codes, eq_bytes, le_bytes, from_le_bytes}
use espbewi.Common.Result.{Result, ok, err}

pub data NvsConfigError : Type 0 where
  unavailable write invalid_space corrupt_record generation_overflow : NvsConfigError

abbrev pub magic : List ℕ
magic = codes "CSM1"

abbrev pub flag_present : ℕ
flag_present = 1

abbrev pub header_len : ℕ
header_len = 13

unfoldable pub encode_record : ℕ → Bool → List ℕ → List ℕ
encode_record generation present payload =
    magic ++ (le_bytes 8 generation ++ ((if present then flag_present else 0) ∷ payload))

-- The flags byte is a `u8`, so `!FLAG_PRESENT` is 0xFE.
unfoldable pub decode_record : List ℕ → Result NvsConfigError (ℕ × Bool × List ℕ)
decode_record raw =
    let generation = from_le_bytes (take 8 (drop 4 raw)) in
    let flags = get_or raw 12 0 in
    if ltb (length raw) header_len || not (eq_bytes (take 4 raw) magic)
    then err corrupt_record
    else if not (bit_and flags (255 - flag_present) == 0)
    then err corrupt_record
    else ok (generation, not (bit_and flags flag_present == 0), drop header_len raw)
