-- ===== src/Bootloader/Table.antt =====
-- The bootloader's reading of the partition table: where the partitions of a layout come from.
use espbewi.Common.{
  ℕ, zero, suc, ◌*◌, ◌≤◌, ◌==◌, ltb, ◌≡◌, refl, ap, ◌∙◌, ◌⊎◌, inl, inr, Bool, false, ◌&&◌, Option,
  none, some, List, take, drop, get_or, arith, Bool-cases, Option-cases,
}
use espbewi.Common.Result.{ok}
use espbewi.Bootloader.{
  Layout, Seen, see, scan, layout_of, layout_in, le16, le32, partition_entry_magic, sector,
}

-- A row of the table that places a partition of this type and subtype.
pub record IsRow (kind subtype : ℕ) (entry : List ℕ) (place : ℕ × ℕ) : Type 0 where
  pub is_kind : get_or entry 2 0 ≡ kind
  pub is_subtype : get_or entry 3 0 ≡ subtype
  pub is_place : (le32 entry 4, le32 entry 8) ≡ place

-- One of the first rows, before any without the magic, places the partition.
unfoldable pub IsListed : ℕ → ℕ → ℕ → List ℕ → ℕ × ℕ → Type 0
IsListed zero kind subtype table place = ⊥
IsListed (suc count) kind subtype table place =
    (le16 (take 32 table) ≡ partition_entry_magic)
    × (IsRow kind subtype (take 32 table) place ⊎ IsListed count kind subtype (drop 32 table) place)

abbrev nothing_seen : Seen
nothing_seen = record { otadata = none; app_0 = none; app_1 = none }

-- For one of the partitions that `see` fills in.
module _ (part : Seen → Option (ℕ × ℕ)) (kind subtype : ℕ)
    (step : (seen : Seen) (entry : List ℕ) (place : ℕ × ℕ)
      → part (see seen entry) ≡ some place
      → (part seen ≡ some place) ⊎ IsRow kind subtype entry place) where
  scan-IsListed :
      (count : ℕ) (table : List ℕ) (seen : Seen) (place : ℕ × ℕ)
      → part (scan count table seen) ≡ some place
      → (part seen ≡ some place) ⊎ IsListed count kind subtype table place
  unfolding scan IsListed
  scan-IsListed zero table seen place e = inl e
  scan-IsListed (suc count) table seen place e =
      elim (Bool-cases (le16 (take 32 table) == partition_entry_magic)) [
        | inr other ↦ let e' = rw other at e in inl e'
        | inl valid ↦
            let e' = rw valid at e in
            let magic : le16 (take 32 table) ≡ partition_entry_magic = ground arith in
            elim (scan-IsListed count (drop 32 table) (see seen (take 32 table)) place e') [
              | inr later ↦ inr (magic, inr later)
              | inl before ↦ elim (step seen (take 32 table) place before) [
                | inl earlier ↦ inl earlier
                | inr row ↦ inr (magic, inl row)
              ]
            ]
      ]

abbrev is_kind_of : List ℕ → ℕ → ℕ → Bool
is_kind_of entry kind subtype = get_or entry 2 0 == kind && get_or entry 3 0 == subtype

see_otadata :
    (seen : Seen) (entry : List ℕ) (place : ℕ × ℕ)
    → (see seen entry).otadata ≡ some place
    → (seen.otadata ≡ some place) ⊎ IsRow 1 0 entry place
see_otadata seen entry place e = ground arith

see_app_0 :
    (seen : Seen) (entry : List ℕ) (place : ℕ × ℕ)
    → (see seen entry).app_0 ≡ some place
    → (seen.app_0 ≡ some place) ⊎ IsRow 0 0x10 entry place
see_app_0 seen entry place e = ground arith

see_app_1 :
    (seen : Seen) (entry : List ℕ) (place : ℕ × ℕ)
    → (see seen entry).app_1 ≡ some place
    → (seen.app_1 ≡ some place) ⊎ IsRow 0 0x11 entry place
see_app_1 seen entry place e = ground arith

enough : (n m : ℕ) → n ≡ m → ltb n (2 * sector) ≡ false → 2 * sector ≤ m
enough n m e room = ground arith

-- The parts of a layout that `layout_of` accepts.
layout_of_parts :
    (seen : Seen) (layout : Layout)
    → layout_of seen ≡ ok layout
    → (seen.otadata ≡ some layout.otadata)
      × (seen.app_0 ≡ some layout.app_0)
      × (seen.app_1 ≡ some layout.app_1)
      × (2 * sector ≤ layout.otadata.1)
unfolding layout_of
layout_of_parts seen layout e = elim (Option-cases seen.otadata) [
  | inl missing ↦ let e' = rw missing at e in absurd (cc)
  | inr (place, found) ↦ elim (Bool-cases (ltb place.1 (2 * sector))) [
    | inl short ↦ let e' = rw (found, short) at e in absurd (cc)
    | inr room ↦ elim (Option-cases seen.app_0) [
      | inl missing ↦ let e' = rw (found, room, missing) at e in absurd (cc)
      | inr (first, found_0) ↦ elim (Option-cases seen.app_1) [
        | inl missing ↦ let e' = rw (found, room, found_0, missing) at e in absurd (cc)
        | inr (second, found_1) ↦
            let e' = rw (found, room, found_0, found_1) at e in
            let same : (record { otadata = place; app_0 = first; app_1 = second }) ≡ layout = cc in
            (
              found ∙ ap (λ l. some l.otadata) same,
              found_0 ∙ ap (λ l. some l.app_0) same,
              found_1 ∙ ap (λ l. some l.app_1) same,
              enough place.1 layout.otadata.1 (ap (λ l. l.otadata.1) same) room,
            )
      ]
    ]
  ]
]

listed :
    (part : Seen → Option (ℕ × ℕ)) (kind subtype : ℕ) (table : List ℕ) (place : ℕ × ℕ)
    → part nothing_seen ≡ none
    → ((seen : Seen) (entry : List ℕ) (place : ℕ × ℕ)
        → part (see seen entry) ≡ some place
        → (part seen ≡ some place) ⊎ IsRow kind subtype entry place)
    → part (scan 96 table nothing_seen) ≡ some place
    → IsListed 96 kind subtype table place
listed part kind subtype table place start step e =
    elim (scan-IsListed part kind subtype step 96 table nothing_seen place e) [
      | inr row ↦ row
      | inl seen ↦ absurd (cc)
    ]

-- If the table yields a layout, then the otadata partition and both app partitions are placed by
-- rows of their type and subtype, of the first 96 rows and before any without the magic, and the
-- otadata partition has room for two sectors.
pub layout_in-IsListed :
    (table : List ℕ) (layout : Layout)
    → layout_in table ≡ ok layout
    → IsListed 96 1 0 table layout.otadata
      × IsListed 96 0 0x10 table layout.app_0
      × IsListed 96 0 0x11 table layout.app_1
      × (2 * sector ≤ layout.otadata.1)
unfolding layout_in
layout_in-IsListed table layout e = elim (Bool-cases (le16 table == partition_entry_magic)) [
  | inr other ↦ let e' = rw other at e in absurd (cc)
  | inl valid ↦
      let e' = rw valid at e in
      let (data', first, second, room) = layout_of_parts (scan 96 table nothing_seen) layout e' in
      (
        listed (λ seen. seen.otadata) 1 0 table layout.otadata refl see_otadata data',
        listed (λ seen. seen.app_0) 0 0x10 table layout.app_0 refl see_app_0 first,
        listed (λ seen. seen.app_1) 0 0x11 table layout.app_1 refl see_app_1 second,
        room,
      )
]
