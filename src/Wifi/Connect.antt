-- ===== src/Wifi/Connect.antt =====
-- `scan` and the `connect` after it: which access point the station is pinned to.
use espbewi.Common.{
  ℕ, ◌≤◌, ◌≡◌, ◌≢◌, refl, subst, sym, ap, ◌∙◌, ◌⊎◌, inl, inr, some, List, [], ◌∷◌, map, arith, All,
  Any, All-at, All-Any, All-of_Any, Bool-cases,
}
use espbewi.Common.Bytes.{eq_bytes, eq_bytes_iff}
use espbewi.Wifi.{
  AccessPoint, Candidate, i8_order, candidate_of, strongest_of, pin_of, network_of, Radio, RadioApi,
  WifiManager, pinned, radio_of, scan, connect, connect_with,
}
use espbewi.Wifi.Strongest.{IsDistinct, Reaches, IsStrongest, strongest_of-IsStrongest}

-- The candidate of a name, which is the only one.
record IsNamed (ssid : List ℕ) (cs : List Candidate) (c : Candidate) : Type 0 where
  is_kept : Any (λ d. d ≡ c) cs
  has_name : c.ssid ≡ ssid
  is_pinned : pinned (map pin_of cs) ssid ≡ some c.bssid
  is_bound : (level : ℕ) → Reaches ssid level cs → level ≤ i8_order c.signal_strength

not_later :
    (c : Candidate) (cs : List Candidate) (ssid : List ℕ) (level : ℕ)
    → All (λ (d : Candidate). d.ssid ≢ c.ssid) cs
    → c.ssid ≡ ssid
    → ¬ (Reaches ssid level cs)
not_later c cs ssid level apart named reached =
    let (d, differs, (same, _), _) =
      All-Any (λ (d : Candidate). d.ssid ≢ c.ssid)
        (λ (d : Candidate). (d.ssid ≡ ssid) × (level ≤ i8_order d.signal_strength)) cs apart
        reached in
    differs (same ∙ sym named)

IsNamed-candidate :
    (ssid : List ℕ) (level : ℕ) (cs : List Candidate)
    → IsDistinct cs
    → Reaches ssid level cs
    → (c : Candidate) × IsNamed ssid cs c
IsNamed-candidate ssid level [] distinct reached = absurd reached
IsNamed-candidate ssid level (c ∷ cs) (apart, distinct) reached =
    elim (Bool-cases (eq_bytes c.ssid ssid)) [
      | inl here ↦
          let named = (eq_bytes_iff c.ssid ssid).0 here in
          (
            c,
            record {
              is_kept = inl refl;
              has_name = named;
              is_pinned = rw here refl;
              is_bound = λ l r. elim r [
                | inl own ↦ own.1
                | inr later ↦ absurd (not_later c cs ssid l apart named later)
              ];
            },
          )
      | inr other ↦
          let differs : ¬ (c.ssid ≡ ssid) =
            λ e. ground (arith, other, (eq_bytes_iff c.ssid ssid).1 e) in
          let later : (l : ℕ) → Reaches ssid l (c ∷ cs) → Reaches ssid l cs =
            λ l r. elim r [ inl own ↦ absurd (differs own.0) | inr rest ↦ rest ] in
          let (d, found) = IsNamed-candidate ssid level cs distinct (later level reached) in
          (
            d,
            record {
              is_kept = inr found.is_kept;
              has_name = found.has_name;
              is_pinned = rw other found.is_pinned;
              is_bound = λ l r. found.is_bound l (later l r);
            },
          )
    ]

-- A strongest access point of a name, among those that a scan reported.
pub record IsBest (aps : List AccessPoint) (ssid : List ℕ) (best : AccessPoint) : Type 0 where
  pub is_reported : Any (λ b. b ≡ best) aps
  pub has_ssid : best.ssid ≡ ssid
  pub is_strongest :
      All
        (λ (b : AccessPoint).
          b.ssid ≡ ssid → i8_order b.signal_strength ≤ i8_order best.signal_strength)
        aps

module _ (aps : List AccessPoint) (cs : List Candidate) (strongest : IsStrongest aps cs) where
  reaches :
      (b : AccessPoint)
      → Any (λ y. y ≡ b) aps
      → b.ssid ≢ []
      → Reaches b.ssid (i8_order b.signal_strength) cs
  reaches b m named =
      elim (All-at
        (λ (b : AccessPoint). (b.ssid ≡ []) ⊎ Reaches b.ssid (i8_order b.signal_strength) cs) aps b
        strongest.is_reached m) [ inl hidden ↦ absurd (named hidden) | inr r ↦ r ]

  IsBest-pin :
      (ssid : List ℕ) (level : ℕ)
      → ssid ≢ []
      → Reaches ssid level cs
      → (best : AccessPoint) × IsBest aps ssid best
        × (pinned (map pin_of cs) ssid ≡ some best.bssid)
  IsBest-pin ssid level visible reached =
      let (c, found) = IsNamed-candidate ssid level cs strongest.is_distinct reached in
      let source =
        All-at
          (λ (c : Candidate). Any (λ (a : AccessPoint). (candidate_of a ≡ c) × (a.ssid ≢ [])) aps)
          cs c strongest.has_source found.is_kept in
      let (best, _, (same, _), at) =
        All-Any (λ (b : AccessPoint). Unit {0})
          (λ (a : AccessPoint). (candidate_of a ≡ c) × (a.ssid ≢ [])) aps
          (All-of_Any (λ b. Unit {0}) aps (λ b m. tt)) source in
      let level_of = ap (λ (d : Candidate). i8_order d.signal_strength) same in
      (
        best,
        record {
          is_reported = at;
          has_ssid = ap (λ (d : Candidate). d.ssid) same ∙ found.has_name;
          is_strongest =
              All-of_Any
                (λ (b : AccessPoint).
                  b.ssid ≡ ssid → i8_order b.signal_strength ≤ i8_order best.signal_strength)
                aps
                (λ b m h.
                  let r = reaches b m (λ e. visible (sym h ∙ e)) in
                  omega (
                    arith,
                    level_of,
                    found.is_bound (i8_order b.signal_strength)
                        (subst (λ s. Reaches s (i8_order b.signal_strength) cs) h r),
                  ));
        },
        found.is_pinned ∙ ap (λ (d : Candidate). some d.bssid) (sym same),
      )

module _ {P R C I K G W : Type 0} (api : RadioApi P R C I K G W) where
  -- If the radio is there and reports access points, then `scan` answers one network for each name that
  -- is not empty, with the strength and the security of a strongest access point of the name, and
  -- remembers for each of them the address of that access point.
  pub scan-IsStrongest :
      (m : WifiManager P R C K) (w : W) (radio : Radio C K) (aps : List AccessPoint)
      → (radio_of api m w).0 ≡ some radio
      → (api.scan_networks radio.controller (radio_of api m w).2).0 ≡ some aps
      → (cs : List Candidate) × ((scan api m w).0 ≡ map network_of cs)
        × ((scan api m w).1.strongest_bssid ≡ map pin_of cs)
        × IsStrongest aps cs
  unfolding scan
  scan-IsStrongest m w radio aps present reported = (
    strongest_of aps [],
    rw present (rw reported refl),
    rw present (rw reported refl),
    strongest_of-IsStrongest aps,
  )

  -- After a scan for which the radio reported access points, `connect` to the name of one of them that
  -- is not empty runs with the name, the password and the address of a reported access point of this
  -- name, and no reported one of the name was stronger.
  pub connect-scan :
      (m : WifiManager P R C K) (w : W) (radio : Radio C K) (aps : List AccessPoint)
      (a : AccessPoint) (password : List ℕ)
      → (radio_of api m w).0 ≡ some radio
      → (api.scan_networks radio.controller (radio_of api m w).2).0 ≡ some aps
      → Any (λ b. b ≡ a) aps
      → a.ssid ≢ []
      → let (networks, m', w') = scan api m w in
        (best : AccessPoint) × IsBest aps a.ssid best
        × (connect api a.ssid password m' w'
            ≡ connect_with api
                (api.with_bssid
                  (api.with_password (api.with_ssid api.default_config a.ssid) password)
                  best.bssid)
                (radio_of api m' w'))
  unfolding connect
  connect-scan m w radio aps a password present reported seen named =
      let (cs, _, pins, strongest) = scan-IsStrongest m w radio aps present reported in
      let (best, is_best, at) =
        IsBest-pin aps cs strongest a.ssid (i8_order a.signal_strength) named
          (reaches aps cs strongest a seen named) in
      (best, is_best, rw (pins, at) refl)
