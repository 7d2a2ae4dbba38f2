-- ===== src/ConfigSpace/Backend/Replace.antt =====
-- `replace` and `load` on an opened handle.
use espbewi.Common.{ℕ, ◌≡◌, Bool, Option, none, some, List, arith, refl, ◌∙◌, ap, inl, inr}
use espbewi.Common.Result.{Result, ok, err}
use espbewi.Nvs.{NvsApi, NvsError, namespace_not_found, key_not_found, other_error}
use espbewi.Nvs.Laws.{NvsLaws, IsReliable}
use espbewi.ConfigSpace.Record.{NvsConfigError, encode_record, decode_record}
use espbewi.ConfigSpace.Backend.{
  Snapshot, namespace, successor, replace_opened, load_opened, snapshot_of, next_generation,
  read_snapshot,
}

-- The generation that a space gets next, by what is stored.
abbrev pub generation_after : Option (List ℕ) → Result NvsConfigError ℕ
generation_after none = ok 1
generation_after (some raw) = successor (decode_record raw)

-- What a load answers, by what is stored.
abbrev pub snapshot_in : Option (List ℕ) → Result NvsConfigError (Option Snapshot)
snapshot_in none = ok none
snapshot_in (some raw) = snapshot_of (decode_record raw)

module _ {F H Key : Type 0} (api : NvsApi F H Key) (laws : NvsLaws api) where
  open laws use {stored, partition_of}

  abbrev pub held : H → Key → Key → Option (List ℕ)
  held h = stored (partition_of h) (api.release h)

  -- A read that does not fail otherwise tells what is held.
  generation_of_get :
      (k : Key) (h : H) (g : ℕ) (old : Result NvsError (List ℕ))
      → (api.get_blob (namespace api) k h).0 ≡ old
      → next_generation old ≡ ok g
      → generation_after (held h (namespace api) k) ≡ ok g
  generation_of_get k h g (ok raw) e n = rw (laws.get_found (namespace api) k h raw e) n
  generation_of_get k h g (err namespace_not_found) e n =
      rw (laws.get_no_namespace (namespace api) k h e) n
  generation_of_get k h g (err key_not_found) e n = rw (laws.get_no_key (namespace api) k h e) n
  generation_of_get k h g (err other_error) e n = cc

  -- A successful replacement has read a generation and has stored the record with it.
  replace_opened_steps :
      (k : Key) (present : Bool) (payload : List ℕ) (h : H) (g : ℕ)
      → (replace_opened api k present payload h).0 ≡ ok g
      → let h' = (api.get_blob (namespace api) k h).1 in
        let record_bytes = encode_record g present payload in
        (next_generation (api.get_blob (namespace api) k h).0 ≡ ok g)
        × ((api.set_blob (namespace api) k record_bytes h').0 ≡ ok tt)
        × ((replace_opened api k present payload h).1
            ≡ (api.set_blob (namespace api) k record_bytes h').1)
  replace_opened_steps k present payload h g e = ground arith

  pub replace_opened_generation :
      (k : Key) (present : Bool) (payload : List ℕ) (h : H) (g : ℕ)
      → (replace_opened api k present payload h).0 ≡ ok g
      → generation_after (held h (namespace api) k) ≡ ok g
  replace_opened_generation k present payload h g e =
      generation_of_get k h g _ refl (replace_opened_steps k present payload h g e).0

  pub replace_opened_stores :
      (k : Key) (present : Bool) (payload : List ℕ) (h : H) (g : ℕ)
      → (replace_opened api k present payload h).0 ≡ ok g
      → stored
          (partition_of h)
          (api.release (replace_opened api k present payload h).1)
          (namespace api)
          k
        ≡ some (encode_record g present payload)
  replace_opened_stores k present payload h g e =
      let (_, set, after) = replace_opened_steps k present payload h g e in
      let h' = (api.get_blob (namespace api) k h).1 in
      rw after (
        rw (laws.get_partition (namespace api) k h) at
          (laws.set_stores (namespace api) k (encode_record g present payload) h' set))

  pub replace_opened_others :
      (k : Key) (present : Bool) (payload : List ℕ) (h : H) (g : ℕ) (n' k' : Key)
      → (replace_opened api k present payload h).0 ≡ ok g
      → ¬ ((namespace api ≡ n') × (k ≡ k'))
      → stored (partition_of h) (api.release (replace_opened api k present payload h).1) n' k'
        ≡ held h n' k'
  replace_opened_others k present payload h g n' k' e ne =
      let (_, set, after) = replace_opened_steps k present payload h g e in
      let h' = (api.get_blob (namespace api) k h).1 in
      rw after (
        rw (laws.get_partition (namespace api) k h) at
          (laws.set_others (namespace api) k n' k' (encode_record g present payload) h' ne))
      ∙ ap (λ f. f n' k') (laws.get_keeps (namespace api) k h)

  -- What a read answers, by what is held.
  snapshot_of_get :
      (k : Key) (h : H) (o : Option Snapshot) (old : Result NvsError (List ℕ))
      → (api.get_blob (namespace api) k h).0 ≡ old
      → read_snapshot old ≡ ok o
      → snapshot_in (held h (namespace api) k) ≡ ok o
  snapshot_of_get k h g (ok raw) e n = rw (laws.get_found (namespace api) k h raw e) n
  snapshot_of_get k h g (err namespace_not_found) e n =
      rw (laws.get_no_namespace (namespace api) k h e) n
  snapshot_of_get k h g (err key_not_found) e n = rw (laws.get_no_key (namespace api) k h e) n
  snapshot_of_get k h g (err other_error) e n = cc

  pub load_opened_snapshot :
      (k : Key) (h : H) (o : Option Snapshot)
      → (load_opened api k h).0 ≡ ok o
      → snapshot_in (held h (namespace api) k) ≡ ok o
  load_opened_snapshot k h o e = snapshot_of_get k h o _ refl e

  pub load_opened_keeps :
      (k : Key) (h : H)
      → stored (partition_of h) (api.release (load_opened api k h).1)
        ≡ stored (partition_of h) (api.release h)
  load_opened_keeps k h = laws.get_keeps (namespace api) k h

  module _ (sound : IsReliable api laws) where
    -- Without faults a read answers what is held.
    pub next_generation_of_held :
        (k : Key) (h : H) (held_bytes : Option (List ℕ))
        → held h (namespace api) k ≡ held_bytes
        → next_generation (api.get_blob (namespace api) k h).0 ≡ generation_after held_bytes
    next_generation_of_held k h none e = elim (sound.misses (namespace api) k h e) [
      | inl missing ↦ rw missing
      | inr missing ↦ rw missing
    ]
    next_generation_of_held k h (some raw) e = rw (sound.finds (namespace api) k h raw e)

    pub read_snapshot_of_held :
        (k : Key) (h : H) (held_bytes : Option (List ℕ))
        → held h (namespace api) k ≡ held_bytes
        → read_snapshot (api.get_blob (namespace api) k h).0 ≡ snapshot_in held_bytes
    read_snapshot_of_held k h none e = elim (sound.misses (namespace api) k h e) [
      | inl missing ↦ rw missing
      | inr missing ↦ rw missing
    ]
    read_snapshot_of_held k h (some raw) e = rw (sound.finds (namespace api) k h raw e)
