-- ===== src/Bootloader/Listing.antt =====
-- The partition table as a list of rows: what the scan of `read_layout` computes, defined apart from
-- its loop.
use espbewi.Common.{
  ℕ, zero, suc, ◌*◌, ◌==◌, ltb, ◌≡◌, refl, ap, ◌∙◌, inl, inr, ◌&&◌, Option, none, some, List, [],
  ◌∷◌, take, drop, get_or, arith, Bool-cases, if◌then◌else◌,
}
use espbewi.Common.Result.{Result, ok, err, ok_or, ◌>>=◌}
use espbewi.Bootloader.{
  BootError, no_partition_table, missing_partition, Layout, Seen, see, scan, layout_of, layout_in,
  le16, le32, partition_entry_magic, sector,
}

-- The rows of 32 bytes before the first without the magic, of at most `count`.
unfoldable pub table_rows : ℕ → List ℕ → List (List ℕ)
table_rows zero table = []
table_rows (suc count) table =
    let later = table_rows count (drop 32 table) in
    if le16 (take 32 table) == partition_entry_magic then take 32 table ∷ later else []

-- Where a row places a partition of this type and subtype.
abbrev pub place_of : ℕ → ℕ → List ℕ → Option (ℕ × ℕ)
place_of kind subtype row =
    if get_or row 2 0 == kind && get_or row 3 0 == subtype
    then some (le32 row 4, le32 row 8)
    else none

abbrev pub or_before : Option (ℕ × ℕ) → Option (ℕ × ℕ) → Option (ℕ × ℕ)
or_before (some place) before = some place
or_before none before = before

-- Where the last row of this type and subtype places it.
unfoldable pub last_place : ℕ → ℕ → List (List ℕ) → Option (ℕ × ℕ)
last_place kind subtype [] = none
last_place kind subtype (row ∷ later) =
    or_before (last_place kind subtype later) (place_of kind subtype row)

abbrev pub sectors_needed : ℕ × ℕ → Result BootError (ℕ × ℕ)
sectors_needed place = if ltb place.1 (2 * sector) then err (missing_partition 1) else ok place

-- All three places, or what is missing first.
abbrev pub needed : Option (ℕ × ℕ) → Option (ℕ × ℕ) → Option (ℕ × ℕ) → Result BootError Layout
needed data' first second = do
  place ← ok_or data' (missing_partition 1)
  otadata ← sectors_needed place
  app_0 ← ok_or first (missing_partition 2)
  app_1 ← ok_or second (missing_partition 3)
  ok (record { otadata = otadata; app_0 = app_0; app_1 = app_1 })

-- The layout that a list of rows describes: the last row of each of the three kinds.
unfoldable pub layout_listed : List (List ℕ) → Result BootError Layout
layout_listed [] = err no_partition_table
layout_listed (row ∷ later) =
    let listed = row ∷ later in
    needed (last_place 1 0 listed) (last_place 0 0x10 listed) (last_place 0 0x11 listed)

or_before_assoc :
    (a b c : Option (ℕ × ℕ)) → or_before a (or_before b c) ≡ or_before (or_before a b) c
or_before_assoc (some a) b c = refl
or_before_assoc none b c = refl

-- For one of the partitions that `see` fills in: the scan ends with the last row that places it.
module _ (part : Seen → Option (ℕ × ℕ)) (kind subtype : ℕ)
    (step : (seen : Seen) (row : List ℕ)
      → part (see seen row) ≡ or_before (place_of kind subtype row) (part seen)) where
  scan-last_place :
      (count : ℕ) (table : List ℕ) (seen : Seen)
      → part (scan count table seen)
        ≡ or_before (last_place kind subtype (table_rows count table)) (part seen)
  unfolding scan table_rows last_place
  scan-last_place zero table seen = refl
  scan-last_place (suc count) table seen =
      elim (Bool-cases (le16 (take 32 table) == partition_entry_magic)) [
        | inr other ↦ rw other refl
        | inl valid ↦
            let row = take 32 table in
            rw valid (
              scan-last_place count (drop 32 table) (see seen row)
              ∙ ap (or_before (last_place kind subtype (table_rows count (drop 32 table))))
                  (step seen row)
              ∙ or_before_assoc (last_place kind subtype (table_rows count (drop 32 table)))
                  (place_of kind subtype row) (part seen))
      ]

see_otadata :
    (seen : Seen) (row : List ℕ)
    → (see seen row).otadata ≡ or_before (place_of 1 0 row) seen.otadata
see_otadata seen row = ground arith

see_app_0 :
    (seen : Seen) (row : List ℕ) → (see seen row).app_0 ≡ or_before (place_of 0 0x10 row) seen.app_0
see_app_0 seen row = ground arith

see_app_1 :
    (seen : Seen) (row : List ℕ) → (see seen row).app_1 ≡ or_before (place_of 0 0x11 row) seen.app_1
see_app_1 seen row = ground arith

or_before-none : (place : Option (ℕ × ℕ)) → or_before place none ≡ place
or_before-none none = refl
or_before-none (some place) = refl

abbrev nothing_seen : Seen
nothing_seen = record { otadata = none; app_0 = none; app_1 = none }

abbrev last_places : List (List ℕ) → Seen
last_places listed = record {
  otadata = last_place 1 0 listed;
  app_0 = last_place 0 0x10 listed;
  app_1 = last_place 0 0x11 listed;
}

-- What the scan of the whole table has seen.
scan-last_places : (table : List ℕ) → scan 96 table nothing_seen ≡ last_places (table_rows 96 table)
scan-last_places table i = record {
  otadata =
      (scan-last_place (λ seen. seen.otadata) 1 0 see_otadata 96 table nothing_seen
          ∙ or_before-none (last_place 1 0 (table_rows 96 table)))
        i;
  app_0 =
      (scan-last_place (λ seen. seen.app_0) 0 0x10 see_app_0 96 table nothing_seen
          ∙ or_before-none (last_place 0 0x10 (table_rows 96 table)))
        i;
  app_1 =
      (scan-last_place (λ seen. seen.app_1) 0 0x11 see_app_1 96 table nothing_seen
          ∙ or_before-none (last_place 0 0x11 (table_rows 96 table)))
        i;
}

layout_of-needed :
    (data' first second : Option (ℕ × ℕ))
    → layout_of (record { otadata = data'; app_0 = first; app_1 = second })
      ≡ needed data' first second
unfolding layout_of
layout_of-needed none first second = refl
layout_of-needed (some place) none second = ground arith
layout_of-needed (some place) (some first) none = ground arith
layout_of-needed (some place) (some first) (some second) = ground arith

le16-take : (table : List ℕ) → le16 (take 32 table) ≡ le16 table
le16-take [] = refl
le16-take (a ∷ []) = refl
le16-take (a ∷ b ∷ table) = refl

-- The bootloader reads the same layout, or reports the same error, as the list of rows describes: the
-- rows before the first without the magic, of at most 96, of which the last of each kind counts. It
-- reports `NoPartitionTable` if there is no row, and otherwise the first of the otadata partition, of
-- at least two sectors, and the two app partitions that is missing.
pub layout_in-layout_listed :
    (table : List ℕ) → layout_in table ≡ layout_listed (table_rows 96 table)
unfolding layout_in table_rows layout_listed
layout_in-layout_listed table = elim (Bool-cases (le16 table == partition_entry_magic)) [
  | inr other ↦ rw (le16-take table, other) refl
  | inl valid ↦
      let first : table_rows 96 table ≡ take 32 table ∷ table_rows 95 (drop 32 table) =
        rw (le16-take table, valid) refl in
      rw valid (
        ap layout_of (scan-last_places table)
        ∙ layout_of-needed (last_place 1 0 (table_rows 96 table))
            (last_place 0 0x10 (table_rows 96 table)) (last_place 0 0x11 (table_rows 96 table))
        ∙ listed first)
]
  where
    listed :
        {row : List ℕ} {later : List (List ℕ)}
        → table_rows 96 table ≡ row ∷ later
        → let found = table_rows 96 table in
          needed (last_place 1 0 found) (last_place 0 0x10 found) (last_place 0 0x11 found)
          ≡ layout_listed found
    listed first = rw first refl
