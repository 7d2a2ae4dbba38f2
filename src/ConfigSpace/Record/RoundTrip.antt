-- ===== src/ConfigSpace/Record/RoundTrip.antt =====
-- Encoding and decoding of records are inverse to one another.
use espbewi.Common.{
  ℕ, ◌^◌, ◌≤◌, ◌<◌, ◌≡◌, ◌↔◌, refl, sym, ap, ◌∙◌, Bool, true, false, not, ◌||◌, List, ◌∷◌, ◌++◌,
  arith, ◌==◌, if◌then◌else◌, length, get_or, take, drop, bit_and, take-append-drop, drop-drop,
  drop-get_or, All-get_or, All-take, All-drop, length-take, length-drop,
}
use espbewi.Common.Bits.{holds_below, holds_below_sound}
use espbewi.Common.Bytes.{
  IsByte, IsBytes, eq_bytes, le_bytes, from_le_bytes, from_le_bytes-le_bytes,
  le_bytes-from_le_bytes, from_le_bytes-lt, eq_bytes_iff,
}
use espbewi.Common.Result.{ok}
use espbewi.ConfigSpace.Record.{magic, encode_record, decode_record}

-- Decoding an encoded record gives back its generation (a `u64`), its flag and its payload.
pub decode_record-encode_record :
    (generation : ℕ) (present : Bool) (payload : List ℕ)
    → generation < 2 ^ 64
    → decode_record (encode_record generation present payload) ≡ ok (generation, present, payload)
unfolding decode_record encode_record
decode_record-encode_record generation true payload h =
    rw (from_le_bytes-le_bytes 8 generation h) (ground arith)
decode_record-encode_record generation false payload h =
    rw (from_le_bytes-le_bytes 8 generation h) (ground arith)

-- The bytes of a record, part by part.
record_parts :
    (raw : List ℕ)
    → 13 ≤ length raw
    → take 4 raw ++ (take 8 (drop 4 raw) ++ (get_or raw 12 0 ∷ drop 13 raw)) ≡ raw
record_parts raw h =
    ap (λ rest. take 4 raw ++ (take 8 (drop 4 raw) ++ rest)) (sym (drop-get_or 12 raw 0 h))
    ∙ ap (λ rest. take 4 raw ++ (take 8 (drop 4 raw) ++ rest)) (sym (drop-drop 8 4 raw))
    ∙ ap (λ rest. take 4 raw ++ rest) (take-append-drop 8 (drop 4 raw))
    ∙ take-append-drop 4 raw

flag_table :
    holds_below
      (λ f. not (bit_and f 254 == 0) || ((if not (bit_and f 1 == 0) then 1 else 0) == f))
      256
    ≡ true
unfolding holds_below
flag_table = refl

flag_restored :
    (f : ℕ) → f < 256 → (bit_and f 254 == 0) ≡ true → (if not (bit_and f 1 == 0) then 1 else 0) ≡ f
flag_restored f h e = ground (arith, holds_below_sound _ f 256 h flag_table)

-- What a successful decoding has tested.
decoded_facts :
    (raw payload : List ℕ) (generation : ℕ) (present : Bool)
    → decode_record raw ≡ ok (generation, present, payload)
    → (13 ≤ length raw)
      × (eq_bytes (take 4 raw) magic ≡ true)
      × ((bit_and (get_or raw 12 0) 254 == 0) ≡ true)
      × (generation ≡ from_le_bytes (take 8 (drop 4 raw)))
      × (present ≡ not (bit_and (get_or raw 12 0) 1 == 0))
      × (payload ≡ drop 13 raw)
unfolding decode_record
decoded_facts raw payload generation present h = ground arith

-- Encoding what a record of bytes decodes to gives back the record: the format is canonical.
encode_record-decode_record :
    (raw payload : List ℕ) (generation : ℕ) (present : Bool)
    → IsBytes raw
    → decode_record raw ≡ ok (generation, present, payload)
    → (encode_record generation present payload ≡ raw) × (generation < 2 ^ 64)
unfolding encode_record
encode_record-decode_record raw payload generation present bytes h =
    let (long, magic_ok, flag_ok, gen, flag, rest) =
      decoded_facts raw payload generation present h in
    let word = take 8 (drop 4 raw) in
    let word_bytes : IsBytes word = All-take IsByte 8 (drop 4 raw) (All-drop IsByte 4 raw bytes) in
    let word_long : length word ≡ 8 =
      omega (arith, length-take 8 (drop 4 raw), length-drop 4 raw) in
    let word_back : le_bytes 8 (from_le_bytes word) ≡ word =
      rw word_long at (le_bytes-from_le_bytes word word_bytes) in
    let bound : from_le_bytes word < 256 ^ 8 = rw word_long at (from_le_bytes-lt word word_bytes) in
    let flags : (if present then 1 else 0) ≡ get_or raw 12 0 =
      rw flag (flag_restored (get_or raw 12 0) (All-get_or IsByte raw 12 0 bytes long) flag_ok) in
    let head : take 4 raw ≡ magic = (eq_bytes_iff (take 4 raw) magic).0 magic_ok in
    let head' : magic ≡ take 4 raw = sym head in
    let word_back' : le_bytes 8 generation ≡ word = ap (le_bytes 8) gen ∙ word_back in
    ((λ i. head' i ++ (word_back' i ++ (flags i ∷ rest i))) ∙ record_parts raw long, omega arith)

-- For a record of bytes and a generation that is a `u64`: the record decodes to the generation, the
-- flag and the payload exactly if they encode to it. So the format is canonical, and encoding loses
-- nothing.
pub decode_record_iff :
    (raw payload : List ℕ) (generation : ℕ) (present : Bool)
    → IsBytes raw
    → generation < 2 ^ 64
    → (decode_record raw ≡ ok (generation, present, payload))
      ↔ (encode_record generation present payload ≡ raw)
decode_record_iff raw payload generation present bytes small = (
  λ decoded. (encode_record-decode_record raw payload generation present bytes decoded).0,
  λ encoded.
      ap decode_record (sym encoded) ∙ decode_record-encode_record generation present payload small,
)
