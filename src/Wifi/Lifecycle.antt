-- ===== src/Wifi/Lifecycle.antt =====
-- The radio is initialized at most once, and a failure is final.
use espbewi.Common.{ℕ, ◌≡◌, refl, false, Option, none, some, List, []}
use espbewi.Wifi.{
  Radio, RadioApi, WifiManager, with_resources, configured, started, initialized, ready, radio_of,
  scan, connect,
}

module _ {P R C I K G W : Type 0} (api : RadioApi P R C I K G W) where
  -- What `radio` leaves behind with each answer.
  abbrev IsSettled : Option (Radio C K) × WifiManager P R C K × W → Type 0
  IsSettled (r, m, w) = (m.radio ≡ r) × ((r ≡ none) → m.peripheral ≡ none)

  with_resources-IsSettled :
      (controller : C) (station : I) (resources : Option R) (m : WifiManager P R C K) (w : W)
      → m.radio ≡ none
      → m.peripheral ≡ none
      → IsSettled (with_resources api controller station resources m w)
  with_resources-IsSettled controller station none m w e p = (e, λ _. p)
  with_resources-IsSettled controller station (some r) m w e p = (refl, λ h. p)

  configured-IsSettled :
      (controller : C) (station : I) (set : Option (Unit {0}) × W) (m : WifiManager P R C K)
      → m.radio ≡ none
      → m.peripheral ≡ none
      → IsSettled (configured api controller station set m)
  configured-IsSettled controller station (none, w) m e p = (e, λ _. p)
  configured-IsSettled controller station (some d, w) m e p =
      with_resources-IsSettled controller station m.resources m w e p

  started-IsSettled :
      (made : Option (C × I) × W) (m : WifiManager P R C K)
      → m.radio ≡ none
      → m.peripheral ≡ none
      → IsSettled (started api made m)
  started-IsSettled (none, w) m e p = (e, λ _. p)
  started-IsSettled (some (controller, station), w) m e p =
      configured-IsSettled controller station (api.set_config controller api.default_config w) m e p

  initialized-IsSettled :
      (peripheral : Option P) (m : WifiManager P R C K) (w : W)
      → m.radio ≡ none
      → m.peripheral ≡ peripheral
      → IsSettled (initialized api peripheral m w)
  initialized-IsSettled none m w e p = (e, λ _. p)
  initialized-IsSettled (some q) m w e p =
      started-IsSettled (api.init q w) (record m { peripheral = none }) e refl

  ready-IsSettled :
      (radio : Option (Radio C K)) (m : WifiManager P R C K) (w : W)
      → m.radio ≡ radio
      → IsSettled (ready api radio m w)
  ready-IsSettled (some r) m w e = (e, λ h. absurd (cc))
  ready-IsSettled none m w e = initialized-IsSettled m.peripheral m w e refl

  ready_again :
      (r : Option (Radio C K)) (m : WifiManager P R C K) (w : W)
      → m.radio ≡ r
      → ((r ≡ none) → m.peripheral ≡ none)
      → ready api m.radio m w ≡ (r, m, w)
  ready_again none m w e p = rw e (rw (p refl) refl)
  ready_again (some r) m w e p = rw e refl

  -- Whatever `radio` answers, every later call answers the same and touches neither the manager nor
  -- the device. After a failure, every scan answers no network and every `connect` fails, at once.
  pub radio_of-settled :
      (m : WifiManager P R C K) (w w' : W) (ssid password : List ℕ)
      → let (r, m', _) = radio_of api m w in
        (radio_of api m' w' ≡ (r, m', w'))
        × (r ≡ none → scan api m' w' ≡ ([], m', w'))
        × (r ≡ none → connect api ssid password m' w' ≡ (false, m', w'))
  unfolding radio_of scan connect
  radio_of-settled m w w' ssid password =
      let (same, dead) = ready-IsSettled m.radio m w refl in
      let out = ready api m.radio m w in
      let again = ready_again out.0 out.1 w' same dead in
      (again, λ failed. rw again (rw failed refl), λ failed. rw again (rw failed refl))
