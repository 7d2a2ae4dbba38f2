-- ===== src/Ota/Otadata/Target.antt =====
-- Which slot `write_target` takes: the one that the latest running entry has not.
use espbewi.Common.{
  ℕ, ◌+◌, ◌≤◌, ◌⊎◌, true, ◌==◌, ◌||◌, Bool-cases, ◌≡◌, ◌≢◌, ap, sym, ◌∙◌, inl, inr, Option, none,
  some, List, [], ◌∷◌, arith, Option-cases, All,
}
use espbewi.Common.Result.{ok_or, ok, Result-cases}
use espbewi.Common.Exec.{Exec, pure, or_fail, map_err, bind_ok, ◌>>=◌}
use espbewi.Flash.{NorFlash}
use espbewi.Partitions.{TableParser, PartitionRange, find}
use espbewi.Ota.{AppSlot, AppPartition, find_app_partition, subtype, find_error}
use espbewi.BootEntries.{BootCore}
use espbewi.Ota.Otadata.{
  Error, unavailable, slot_count, max_of, other_slot, read_entries, running_seqs, slot_index,
  write_target,
}

max_of_bound : (ns : List ℕ) (m : ℕ) → max_of ns ≡ some m → All (λ n. n ≤ m) ns
max_of_bound [] m e = tt
max_of_bound (n ∷ ns) m e = elim (Option-cases (max_of ns)) [
  | inl nothing ↦ (ground arith, below_none ns nothing m)
  | inr (k, found) ↦ (ground arith, All-mono ns k m (ground arith) (max_of_bound ns k found))
]
  where
    below_none : (ns : List ℕ) → max_of ns ≡ none → (m : ℕ) → All (λ n. n ≤ m) ns
    below_none [] h m = tt
    below_none (n' ∷ ns') h m = elim (Option-cases (max_of ns')) [
      | inl nothing ↦ absurd (ground arith)
      | inr (k, found) ↦ absurd (ground arith)
    ]

    All-mono : (ns : List ℕ) (k m : ℕ) → k ≤ m → All (λ n. n ≤ k) ns → All (λ n. n ≤ m) ns
    All-mono [] k m le h = tt
    All-mono (n' ∷ ns') k m le (h, hs) = (omega arith, All-mono ns' k m le hs)

max_of_cases :
    (n : ℕ) (ns : List ℕ) (m : ℕ) → max_of (n ∷ ns) ≡ some m → (n ≡ m) ⊎ (max_of ns ≡ some m)
max_of_cases n ns m e = elim (Option-cases (max_of ns)) [
  | inl nothing ↦ inl (ground arith)
  | inr (k, found) ↦ ground arith
]

module _ {F Table E : Type 0} (nor : NorFlash F) (parser : TableParser F Table)
    (core : BootCore E) where
  abbrev located : AppSlot → PartitionRange → AppPartition
  located target range = record { slot = target; offset = range.offset; size = range.size }

  found_slot :
      (target : AppSlot) (f : F) (p : AppPartition)
      → (find_app_partition parser target f).0 ≡ ok p
      → p.slot ≡ target
  unfolding find_app_partition
  found_slot target f p e =
      let (range, found, run) =
        bind_ok (map_err find_error (find parser (subtype target)))
          (λ range. pure (located target range)) f p e in
      let e' = rw run at e in
      let same : located target range ≡ p = cc in ap (λ q. q.slot) (sym same)

  other_slot_index :
      (slot : ℕ) (target : AppSlot) → other_slot slot ≡ some target → slot_index target + slot ≡ 1
  other_slot_index slot target e = ground arith

  ok_or-some : {A : Type 0} (o : Option A) (a : A) → ok_or o unavailable ≡ ok a → o ≡ some a
  ok_or-some (some b) a h = ground arith
  ok_or-some none a h = cc

  -- What `write_target` does with the entries.
  abbrev pick_seq : List (List ℕ) → Exec F Error ℕ
  pick_seq raws = or_fail (max_of (running_seqs nor parser core raws)) unavailable

  abbrev pick_slot : ℕ → Exec F Error AppSlot
  pick_slot seq = or_fail (other_slot (core.slot_of seq slot_count)) unavailable

  abbrev locate : AppSlot → Exec F Error AppPartition
  locate target = map_err (λ _. unavailable) (find_app_partition parser target)

  located_slot :
      (target : AppSlot) (f : F) (p : AppPartition) → (locate target f).0 ≡ ok p → p.slot ≡ target
  located_slot target f p e = elim (Result-cases (find_app_partition parser target f).0) [
    | inl (q, found) ↦ let e' = rw found at e in found_slot target f p (found ∙ cc)
    | inr (c, failed) ↦ let e' = rw failed at e in absurd (cc)
  ]

  -- An entry that is in state valid or pending-verify and has this number.
  pub record IsRunning (seq : ℕ) (raw : List ℕ) : Type 0 where
    pub entry : E
    pub decoded : core.decode raw ≡ some entry
    pub number : core.seq entry ≡ seq
    pub in_state :
        (core.state entry ≡ core.state_valid) ⊎ (core.state entry ≡ core.state_pending_verify)

  -- An entry that does not decode, is in no such state, or has no larger number.
  abbrev pub IsNotLater : ℕ → List ℕ → Type 0
  IsNotLater seq raw =
      (core.decode raw ≡ none)
      ⊎ ((e : E) × (core.decode raw ≡ some e)
          × (((core.state e ≢ core.state_valid) × (core.state e ≢ core.state_pending_verify))
              ⊎ (core.seq e ≤ seq)))

  unfoldable pub HasRunning : ℕ → List (List ℕ) → Type 0
  HasRunning seq [] = ⊥
  HasRunning seq (raw ∷ raws) = IsRunning seq raw ⊎ HasRunning seq raws

  running_seqs-AtMost :
      (raws : List (List ℕ)) (seq : ℕ)
      → All (λ n. n ≤ seq) (running_seqs nor parser core raws)
      → All (IsNotLater seq) raws
  running_seqs-AtMost [] seq h = tt
  running_seqs-AtMost (raw ∷ raws) seq h = elim (Option-cases (core.decode raw)) [
    | inl bad ↦ let h' = rw bad at h in (inl bad, running_seqs-AtMost raws seq h')
    | inr (e, good) ↦
        elim (Bool-cases
          (core.state e == core.state_valid || core.state e == core.state_pending_verify)) [
            | inl runs ↦
                let (le, later) = rw (good, runs) at h in
                (inr (e, good, inr le), running_seqs-AtMost raws seq later)
            | inr idle ↦
                let later = rw (good, idle) at h in
                (
                  inr (e, good, inl (ground arith, ground arith)),
                  running_seqs-AtMost raws seq later,
                )
          ]
  ]

  running_seqs-HasRunning :
      (raws : List (List ℕ)) (seq : ℕ)
      → max_of (running_seqs nor parser core raws) ≡ some seq
      → HasRunning seq raws
  unfolding HasRunning
  running_seqs-HasRunning [] seq h = absurd (ground arith)
  running_seqs-HasRunning (raw ∷ raws) seq h = elim (Option-cases (core.decode raw)) [
    | inl bad ↦ let h' = rw bad at h in inr (running_seqs-HasRunning raws seq h')
    | inr (e, good) ↦
        elim (Bool-cases
          (core.state e == core.state_valid || core.state e == core.state_pending_verify)) [
            | inr idle ↦ let h' = rw (good, idle) at h in inr (running_seqs-HasRunning raws seq h')
            | inl runs ↦
                let h' = rw (good, runs) at h in
                elim (max_of_cases (core.seq e) (running_seqs nor parser core raws) seq h') [
                  | inl here ↦ inl (record {
                    entry = e;
                    decoded = good;
                    number = here;
                    in_state =
                        states (core.state e) core.state_valid core.state_pending_verify runs;
                  })
                  | inr later ↦ inr (running_seqs-HasRunning raws seq later)
                ]
          ]
  ]
    where
      states : (a b c : ℕ) → a == b || a == c ≡ true → (a ≡ b) ⊎ (a ≡ c)
      states a b c h = ground arith

  -- If `write_target` answers a partition, then an entry that was read is in state valid or
  -- pending-verify, no entry in such a state has a larger number, the core assigns that number to one
  -- of the two slots, and the slot of the partition is the other one.
  pub write_target-slot :
      (f : F) (p : AppPartition)
      → (write_target nor parser core f).0 ≡ ok p
      → (raws : List (List ℕ)) × (seq : ℕ) × ((read_entries nor parser core f).0 ≡ ok raws)
        × HasRunning seq raws
        × All (IsNotLater seq) raws
        × (slot_index p.slot + core.slot_of seq slot_count ≡ 1)
  unfolding write_target
  write_target-slot f p e =
      let (raws, read, run) =
        bind_ok (read_entries nor parser core)
          (λ raws. do seq ← pick_seq raws; target ← pick_slot seq; locate target) f p e in
      let (seq, chosen, run2) =
        bind_ok (pick_seq raws) (λ seq. do target ← pick_slot seq; locate target)
          (read_entries nor parser core f).1 p (rw run at e) in
      let e2 = rw run at e in
      let e3 = rw run2 at e2 in
      let f1 = (read_entries nor parser core f).1 in
      let (target, aimed, run3) = bind_ok (pick_slot seq) locate f1 p e3 in
      let e4 = rw run3 at e3 in
      let largest = ok_or-some (max_of (running_seqs nor parser core raws)) seq chosen in
      let slot = located_slot target f1 p e4 in
      let apart =
        other_slot_index (core.slot_of seq slot_count) target
          (ok_or-some (other_slot (core.slot_of seq slot_count)) target aimed) in
      (
        raws,
        seq,
        read,
        running_seqs-HasRunning raws seq largest,
        running_seqs-AtMost raws seq (max_of_bound (running_seqs nor parser core raws) seq largest),
        rw slot apart,
      )
