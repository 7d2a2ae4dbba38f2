-- ===== src/ConfigSpace/Units.antt =====
-- NVS capacity: space names, the entries that a blob takes, and the units a space reserves
-- (`valid_space_name`, `entries_for_blob`, `reservation_units`).
use native.Mathlib.Nat.{le-div_iff_mul-le, div-mul-le_self, le_trans}
use espbewi.Common.{
  ℕ, zero, suc, ◌+◌, ◌-◌, ◌*◌, ◌/◌, ◌≤◌, ◌≡◌, Bool, true, not, ◌&&◌, Option, none, some, List, [],
  ◌∷◌, arith, ltb, leb, ◌==◌, if◌then◌else◌, length, Option-cases, inl, inr,
}
use espbewi.Common.Words.{checked_add, checked_mul}
use espbewi.ConfigSpace.Record.{header_len, encode_record}

abbrev pub max_nvs_key_len : ℕ
max_nvs_key_len = 15

abbrev is_key_byte : ℕ → Bool
is_key_byte b = ltb b 128 && not (b == 0)

abbrev all_key_bytes : List ℕ → Bool
all_key_bytes [] = true
all_key_bytes (b ∷ bs) = is_key_byte b && all_key_bytes bs

-- The name is its UTF-8 bytes.
unfoldable pub valid_space_name : List ℕ → Bool
valid_space_name space =
    not (length space == 0) && (leb (length space) max_nvs_key_len && all_key_bytes space)

infixl 5 ◌>>=◌
abbrev ◌>>=◌ : Option ℕ → (ℕ → Option ℕ) → Option ℕ
none >>= f = none
some n >>= f = f n

-- The page geometry is that of `esp-nvs`: `ITEM_SIZE` and `MAX_BLOB_DATA_PER_PAGE`.
module _ (item_size max_blob_data_per_page : ℕ) where
  unfoldable pub entries_for_blob : ℕ → Option ℕ
  entries_for_blob encoded_size = do
    item_top ← checked_add encoded_size (item_size - 1)
    page_top ← checked_add encoded_size (max_blob_data_per_page - 1)
    both ← checked_add (item_top / item_size) (page_top / max_blob_data_per_page)
    checked_add both 1

  unfoldable pub reservation_units : List ℕ → ℕ → Option ℕ
  reservation_units space max_bytes =
      if valid_space_name space
      then (do
        encoded_size ← checked_add header_len max_bytes
        one_version ← entries_for_blob encoded_size
        checked_mul one_version 2)
      else none

length-encode_record :
    (generation : ℕ) (present : Bool) (payload : List ℕ)
    → length (encode_record generation present payload) ≡ header_len + length payload
unfolding encode_record
length-encode_record generation present payload = omega arith

-- The entries of a blob where nothing overflows: its data, an index for each page, and the header.
abbrev blob_entries : ℕ → ℕ → ℕ → ℕ
blob_entries item page size = (size + (item - 1)) / item + (size + (page - 1)) / page + 1

div_mono : (a b k : ℕ) → a ≤ b → a / k ≤ b / k
div_mono a b zero le = omega arith
div_mono a b (suc k) le =
    (le-div_iff_mul-le (omega arith)).1 (le_trans (div-mul-le_self a (suc k)) le)

blob_entries_mono :
    (item page small large : ℕ)
    → small ≤ large
    → blob_entries item page small ≤ blob_entries item page large
blob_entries_mono item page small large le = omega (
  arith,
  div_mono (small + (item - 1)) (large + (item - 1)) item (omega arith),
  div_mono (small + (page - 1)) (large + (page - 1)) page (omega arith),
)

-- A smaller blob takes no more entries, and its count does not overflow where the larger's does not.
entries_for_blob_mono :
    (item page small large n : ℕ)
    → small ≤ large
    → entries_for_blob item page large ≡ some n
    → (entries_for_blob item page small ≡ some (blob_entries item page small))
      × (blob_entries item page small ≤ n)
unfolding entries_for_blob
entries_for_blob_mono item page small large n le e =
    ground (arith, blob_entries_mono item page small large le)

-- Both the stored and the next version of a space fit in what it reserves: if `reservation_units`
-- answers `r` for a budget of `max_bytes`, the record of any payload within the budget takes a
-- number of entries that does not overflow, and twice that number is at most `r`.
pub reservation_units-encode_record :
    (item page : ℕ) (space payload : List ℕ) (max_bytes r generation : ℕ) (present : Bool)
    → reservation_units item page space max_bytes ≡ some r
    → length payload ≤ max_bytes
    → (m : ℕ) × (entries_for_blob item page (length (encode_record generation present payload))
        ≡ some m)
      × (2 * m ≤ r)
unfolding reservation_units
reservation_units-encode_record item page space payload max_bytes r generation present e h =
    let size = length (encode_record generation present payload) in
    elim (Option-cases (entries_for_blob item page (header_len + max_bytes))) [
      | inl full ↦ absurd (ground arith)
      | inr (n, one) ↦
          let (fits, less) =
            entries_for_blob_mono item page size (header_len + max_bytes) n
              (omega (arith, length-encode_record generation present payload)) one in
          (blob_entries item page size, fits, ground arith)
    ]
