-- ===== src/Examples/Store.antt =====
-- A key-value store that never fails: the written blobs, the latest first.
use espbewi.Common.{
  ℕ, ◌≡◌, refl, ap, inr, ◌&&◌, Option, none, some, List, [], ◌∷◌, arith, if◌then◌else◌,
}
use espbewi.Common.Bytes.{eq_bytes, eq_bytes_iff, eq_bytes_refl}
use espbewi.Common.Result.{Result, ok, err}
use espbewi.Nvs.{NvsPartition, NvsApi, NvsError, key_not_found, namespace_not_found, open_nvs}
use espbewi.Nvs.Laws.{NvsLaws, IsReliable}

pub record Blob : Type 0 where
  pub name : List ℕ
  pub key : List ℕ
  pub content : List ℕ

abbrev pub Blobs : Type 0
Blobs = List Blob

abbrev pub Opened : Type 0
Opened = NvsPartition × Blobs

abbrev pub find : Blobs → List ℕ → List ℕ → Option (List ℕ)
find [] n k = none
find (x ∷ xs) n k = if eq_bytes x.name n && eq_bytes x.key k then some x.content else find xs n k

abbrev pub found : Option (List ℕ) → Result NvsError (List ℕ)
found none = err key_not_found
found (some raw) = ok raw

abbrev pub byte : Option (List ℕ) → Result NvsError ℕ
byte (some (v ∷ _)) = ok v
byte _ = err key_not_found

abbrev pub names : Blobs → List (Option (List ℕ × List ℕ))
names [] = []
names (x ∷ xs) = some (x.name, x.key) ∷ names xs

abbrev pub write : List ℕ → List ℕ → List ℕ → Opened → Result NvsError (Unit {0}) × Opened
write n k raw (p, xs) = (ok tt, (p, record { name = n; key = k; content = raw } ∷ xs))

abbrev pub blob_store : NvsApi Blobs Opened (List ℕ)
blob_store = record {
  open_at = λ offset size xs. ok (record { offset = offset; size = size }, xs);
  release = λ h. h.1;
  key_of = λ bytes. bytes;
  key_eq = eq_bytes;
  get_blob = λ n k h. (found (find h.1 n k), h);
  set_blob = write;
  get_u8 = λ n k h. (byte (find h.1 n k), h);
  set_u8 = λ n k v. write n k (v ∷ []);
  delete = λ n k h. (ok tt, h);
  statistics = λ h. (some (record { empty = 300; erased = 20 }), h);
  typed_entries = λ h. (names h.1, h);
  entries_per_page = 126;
  item_size = 32;
  max_blob_data_per_page = 4000;
}

pub find_iff :
    (n k n' k' raw : List ℕ) (xs : Blobs)
    → ¬ ((n ≡ n') × (k ≡ k'))
    → find (record { name = n; key = k; content = raw } ∷ xs) n' k' ≡ find xs n' k'
find_iff n k n' k' raw xs ne = ground (arith, eq_bytes_iff n n', eq_bytes_iff k k')

pub found_ok : (o : Option (List ℕ)) (raw : List ℕ) → found o ≡ ok raw → o ≡ some raw
found_ok o raw e = ground arith

pub found_missing : (o : Option (List ℕ)) (c : NvsError) → found o ≡ err c → o ≡ none
found_missing o c e = ground arith

pub same_partition :
    (xs : Blobs) (p : NvsPartition) (h : Opened) → open_nvs blob_store xs p ≡ ok h → h.0 ≡ p
unfolding open_nvs
same_partition xs p h e = ground arith

pub same_blobs :
    (xs : Blobs) (p : NvsPartition) (h : Opened)
    → open_nvs blob_store xs p ≡ ok h
    → find h.1 ≡ find xs
unfolding open_nvs
same_blobs xs p (q, ys) e = ap find (ground arith)

pub never_fails :
    (xs xs' : Blobs) (p : NvsPartition) → open_nvs blob_store xs p ≡ err xs' → find xs' ≡ find xs
unfolding open_nvs
never_fails xs xs' p e = cc

abbrev pub blob_store_laws : NvsLaws blob_store
blob_store_laws = record {
  stored = λ p xs. find xs;
  partition_of = λ h. h.0;
  open_partition = same_partition;
  open_keeps = same_blobs;
  open_fails = never_fails;
  get_partition = λ n k h. refl;
  get_keeps = λ n k h. refl;
  get_found = λ n k h raw e. found_ok (find h.1 n k) raw e;
  get_no_namespace = λ n k h e. found_missing (find h.1 n k) namespace_not_found e;
  get_no_key = λ n k h e. found_missing (find h.1 n k) key_not_found e;
  set_stores = λ n k raw h e. rw (eq_bytes_refl n, eq_bytes_refl k);
  set_others = λ n k n' k' raw h ne. find_iff n k n' k' raw h.1 ne;
}

opens_always : (xs : Blobs) (p : NvsPartition) → (h : Opened) × (open_nvs blob_store xs p ≡ ok h)
unfolding open_nvs
opens_always xs p = ((p, xs), refl)

pub blob_store-IsReliable : IsReliable blob_store blob_store_laws
blob_store-IsReliable = record {
  opens = opens_always;
  finds = λ n k h raw e. rw e;
  misses = λ n k h e. inr (rw e);
  sets = λ n k raw h. refl;
}
