-- ===== src/Wifi/Strongest.antt =====
-- The vector that a scan keeps: one entry for each name, from a strongest access point.
use espbewi.Common.{
  ℕ, ◌≤◌, ◌≡◌, ◌≢◌, refl, subst, sym, ap, ◌∙◌, ◌⊎◌, inl, inr, true, false, List, [], ◌∷◌, arith,
  leb, All, Any, All-of_Any, Bool-cases,
}
use espbewi.Common.Bytes.{eq_bytes, eq_bytes_iff}
use espbewi.Wifi.{AccessPoint, Candidate, i8_order, candidate_of, keep_strongest, strongest_of}

-- No two candidates have one name.
abbrev pub IsDistinct : List Candidate → Type 0
IsDistinct [] = Unit
IsDistinct (c ∷ cs) = All (λ (d : Candidate). d.ssid ≢ c.ssid) cs × IsDistinct cs

-- A candidate of this name is at least so strong.
abbrev pub Reaches : List ℕ → ℕ → List Candidate → Type 0
Reaches ssid level = Any (λ (c : Candidate). (c.ssid ≡ ssid) × (level ≤ i8_order c.signal_strength))

-- What a scan may keep of these access points.
pub record IsStrongest (aps : List AccessPoint) (cs : List Candidate) : Type 0 where
  pub is_distinct : IsDistinct cs
  pub has_source :
      All
        (λ (c : Candidate). Any (λ (a : AccessPoint). (candidate_of a ≡ c) × (a.ssid ≢ [])) aps)
        cs
  pub is_reached :
      All (λ (a : AccessPoint). (a.ssid ≡ []) ⊎ Reaches a.ssid (i8_order a.signal_strength) cs) aps

module _ (new : Candidate) where
  keep_strongest-All :
      (P : Candidate → Type 0) (cs : List Candidate)
      → P new
      → All P cs
      → All P (keep_strongest cs new)
  keep_strongest-All P [] p h = (p, tt)
  keep_strongest-All P (c ∷ cs) p h = elim (Bool-cases (eq_bytes c.ssid new.ssid)) [
    | inr other ↦ rw other (h.0, keep_strongest-All P cs p h.1)
    | inl same ↦
        elim (Bool-cases (leb (i8_order new.signal_strength) (i8_order c.signal_strength))) [
          | inl kept ↦ rw (same, kept) h
          | inr weaker ↦ rw (same, weaker) (p, h.1)
        ]
  ]

  keep_strongest-IsDistinct :
      (cs : List Candidate) → IsDistinct cs → IsDistinct (keep_strongest cs new)
  keep_strongest-IsDistinct [] h = (tt, tt)
  keep_strongest-IsDistinct (c ∷ cs) h = elim (Bool-cases (eq_bytes c.ssid new.ssid)) [
    | inr other ↦
        let apart : new.ssid ≢ c.ssid =
          λ e. ground (arith, other, (eq_bytes_iff c.ssid new.ssid).1 (sym e)) in
        rw other
          (keep_strongest-All (λ d. d.ssid ≢ c.ssid) cs apart h.0, keep_strongest-IsDistinct cs h.1)
    | inl same ↦
        let equal = (eq_bytes_iff c.ssid new.ssid).0 same in
        elim (Bool-cases (leb (i8_order new.signal_strength) (i8_order c.signal_strength))) [
          | inl kept ↦ rw (same, kept) h
          | inr weaker ↦ rw (same, weaker) (rw (← equal) h.0, h.1)
        ]
  ]

  keep_strongest-Reaches :
      (ssid : List ℕ) (level : ℕ) (cs : List Candidate)
      → Reaches ssid level cs
      → Reaches ssid level (keep_strongest cs new)
  keep_strongest-Reaches ssid level [] h = absurd h
  keep_strongest-Reaches ssid level (c ∷ cs) h = elim (Bool-cases (eq_bytes c.ssid new.ssid)) [
    | inr other ↦ rw other (elim h [
      | inl here ↦ inl here
      | inr later ↦ inr (keep_strongest-Reaches ssid level cs later)
    ])
    | inl same ↦
        let equal = (eq_bytes_iff c.ssid new.ssid).0 same in
        elim (Bool-cases (leb (i8_order new.signal_strength) (i8_order c.signal_strength))) [
          | inl kept ↦ rw (same, kept) h
          | inr weaker ↦
              rw (same, weaker)
                (elim h [
                  | inl here ↦ inl (sym equal ∙ here.0, ground (arith, here.1))
                  | inr later ↦ inr later
                ])
        ]
  ]

  keep_strongest-reached :
      (cs : List Candidate)
      → Reaches new.ssid (i8_order new.signal_strength) (keep_strongest cs new)
  keep_strongest-reached [] = inl (refl, omega arith)
  keep_strongest-reached (c ∷ cs) = elim (Bool-cases (eq_bytes c.ssid new.ssid)) [
    | inr other ↦ rw other (inr (keep_strongest-reached cs))
    | inl same ↦
        elim (Bool-cases (leb (i8_order new.signal_strength) (i8_order c.signal_strength))) [
          | inl kept ↦ rw (same, kept) (inl ((eq_bytes_iff c.ssid new.ssid).0 same, ground arith))
          | inr weaker ↦ rw (same, weaker) (inl (refl, omega arith))
        ]
  ]

module _ (P : Candidate → Type 0) where
  strongest_of-All :
      (aps : List AccessPoint) (cs : List Candidate)
      → All (λ (a : AccessPoint). (a.ssid ≢ []) → P (candidate_of a)) aps
      → All P cs
      → All P (strongest_of aps cs)
  unfolding strongest_of
  strongest_of-All [] cs ps h = h
  strongest_of-All (a ∷ aps) cs (p, ps) h = elim (Bool-cases (eq_bytes a.ssid [])) [
    | inl hidden ↦ rw hidden (strongest_of-All aps cs ps h)
    | inr named ↦
        let apart : a.ssid ≢ [] = λ e. ground (arith, named, (eq_bytes_iff a.ssid []).1 e) in
        rw named (
          strongest_of-All aps (keep_strongest cs (candidate_of a)) ps
            (keep_strongest-All (candidate_of a) P cs (p apart) h))
  ]

strongest_of-IsDistinct :
    (aps : List AccessPoint) (cs : List Candidate)
    → IsDistinct cs
    → IsDistinct (strongest_of aps cs)
unfolding strongest_of
strongest_of-IsDistinct [] cs h = h
strongest_of-IsDistinct (a ∷ aps) cs h = elim (Bool-cases (eq_bytes a.ssid [])) [
  | inl hidden ↦ rw hidden (strongest_of-IsDistinct aps cs h)
  | inr named ↦ rw named (
      strongest_of-IsDistinct aps (keep_strongest cs (candidate_of a))
        (keep_strongest-IsDistinct (candidate_of a) cs h))
]

strongest_of-Reaches :
    (ssid : List ℕ) (level : ℕ) (aps : List AccessPoint) (cs : List Candidate)
    → Reaches ssid level cs
    → Reaches ssid level (strongest_of aps cs)
unfolding strongest_of
strongest_of-Reaches ssid level [] cs h = h
strongest_of-Reaches ssid level (a ∷ aps) cs h = elim (Bool-cases (eq_bytes a.ssid [])) [
  | inl hidden ↦ rw hidden (strongest_of-Reaches ssid level aps cs h)
  | inr named ↦ rw named (
      strongest_of-Reaches ssid level aps (keep_strongest cs (candidate_of a))
        (keep_strongest-Reaches (candidate_of a) ssid level cs h))
]

-- Each access point is hidden or reached.
abbrev IsCovered : List Candidate → AccessPoint → Type 0
IsCovered cs a = (a.ssid ≡ []) ⊎ Reaches a.ssid (i8_order a.signal_strength) cs

strongest_of-hidden :
    (a : AccessPoint) (aps : List AccessPoint) (cs : List Candidate)
    → eq_bytes a.ssid [] ≡ true
    → strongest_of aps cs ≡ strongest_of (a ∷ aps) cs
unfolding strongest_of
strongest_of-hidden a aps cs e = rw e refl

strongest_of-named :
    (a : AccessPoint) (aps : List AccessPoint) (cs : List Candidate)
    → eq_bytes a.ssid [] ≡ false
    → strongest_of aps (keep_strongest cs (candidate_of a)) ≡ strongest_of (a ∷ aps) cs
unfolding strongest_of
strongest_of-named a aps cs e = rw e refl

strongest_of-reached :
    (aps : List AccessPoint) (cs : List Candidate) → All (IsCovered (strongest_of aps cs)) aps
strongest_of-reached [] cs = tt
strongest_of-reached (a ∷ aps) cs = elim (Bool-cases (eq_bytes a.ssid [])) [
  | inl hidden ↦
      subst (λ out. IsCovered out a × All (IsCovered out) aps) (strongest_of-hidden a aps cs hidden)
        (inl ((eq_bytes_iff a.ssid []).0 hidden), strongest_of-reached aps cs)
  | inr named ↦
      let cs' = keep_strongest cs (candidate_of a) in
      subst (λ out. IsCovered out a × All (IsCovered out) aps) (strongest_of-named a aps cs named)
        (
          inr (
              strongest_of-Reaches a.ssid (i8_order a.signal_strength) aps cs'
                (keep_strongest-reached (candidate_of a) cs)),
          strongest_of-reached aps cs',
        )
]

from_scan :
    (a : AccessPoint) (aps : List AccessPoint)
    → Any (λ b. b ≡ a) aps
    → a.ssid ≢ []
    → Any (λ (b : AccessPoint). (candidate_of b ≡ candidate_of a) × (b.ssid ≢ [])) aps
from_scan a (b ∷ aps) (inl e) named = inl (ap candidate_of e, rw e named)
from_scan a (b ∷ aps) (inr m) named = inr (from_scan a aps m named)
from_scan a [] m named = absurd m

pub strongest_of-IsStrongest : (aps : List AccessPoint) → IsStrongest aps (strongest_of aps [])
strongest_of-IsStrongest aps = record {
  is_distinct = strongest_of-IsDistinct aps [] tt;
  has_source =
      strongest_of-All
        (λ (c : Candidate). Any (λ (a : AccessPoint). (candidate_of a ≡ c) × (a.ssid ≢ [])) aps) aps
        []
        (All-of_Any
          (λ a.
            (a.ssid ≢ [])
            → Any (λ (b : AccessPoint). (candidate_of b ≡ candidate_of a) × (b.ssid ≢ [])) aps)
          aps (λ a m named. from_scan a aps m named))
        tt;
  is_reached = strongest_of-reached aps [];
}
