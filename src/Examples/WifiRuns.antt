-- ===== src/Examples/WifiRuns.antt =====
-- The Wi-Fi station in a room with four access points.
use espbewi.Common.{ℕ, ◌≡◌, refl, inl, true, false, Option, none, some, List, [], ◌∷◌, map}
use espbewi.Common.Bytes.{codes}
use espbewi.Wifi
use espbewi.Wifi.{
  AuthenticationMethod, authenticated, unauthenticated, AccessPoint, Network, network_of, pin_of,
  RadioApi, Radio, WifiManager, new, radio_of, strongest_of, scan, connect, connect_with,
}
use espbewi.Wifi.Strongest.{IsStrongest}
use espbewi.Wifi.Connect.{IsBest, scan-IsStrongest, connect-scan}
use espbewi.Wifi.Lifecycle.{radio_of-settled}

abbrev point : List ℕ → ℕ → ℕ → Option AuthenticationMethod → AccessPoint
point ssid mac level auth = record {
  ssid = ssid;
  bssid = mac ∷ [];
  signal_strength = level;
  auth_method = auth;
}

abbrev far_home : AccessPoint
far_home = point (codes "home") 1 176 (some authenticated)

-- Two access points of one name, a hidden one, and an open one.
abbrev room : List AccessPoint
room =
    far_home
    ∷ point [] 2 220 none
    ∷ point (codes "home") 3 206 (some authenticated)
    ∷ point (codes "cafe") 4 190 (some unauthenticated)
    ∷ []

-- Name, password and address of a configuration.
abbrev Config : Type 0
Config = List ℕ × List ℕ × Option (List ℕ)

abbrev indoors :
    RadioApi (Unit {0}) (Unit {0}) (Unit {0}) (Unit {0}) (Unit {0}) Config (List AccessPoint)
indoors = record {
  init = λ p w. (some (tt, tt), w);
  set_config = λ c g w. (some tt, w);
  start_net = λ i r w. (tt, w);
  scan_networks = λ c w. (some w, w);
  is_connected = λ c w. false;
  disconnect = λ c w. (some tt, w);
  associate = λ c w. (some tt, w);
  config_v4 = λ k w. some (10 ∷ 0 ∷ 0 ∷ 7 ∷ []);
  wait_config_down = λ k w. w;
  wait_config_up = λ k w. w;
  is_config_up = λ k w. false;
  default_config = ([], [], none);
  with_ssid = λ g s. (s, g.1, g.2);
  with_password = λ g p. (g.0, p, g.2);
  with_bssid = λ g b. (g.0, g.1, some b);
}

abbrev fresh : WifiManager (Unit {0}) (Unit {0}) (Unit {0}) (Unit {0})
fresh = new tt tt

abbrev station : Radio (Unit {0}) (Unit {0})
station = record { controller = tt; stack = tt }

networks_run : (scan indoors fresh room).0 ≡ (
    record { ssid = codes "home"; signal_strength = 206; secured = true }
    ∷ record { ssid = codes "cafe"; signal_strength = 190; secured = false }
    ∷ [])
unfolding scan strongest_of radio_of new
networks_run = refl

connect_run :
    let (_, m, w) = scan indoors fresh room in (connect indoors (codes "home") [] m w).0 ≡ true
unfolding scan strongest_of radio_of new connect
connect_run = refl

scan-IsStrongest_example :
    (cs : List Wifi.Candidate) × ((scan indoors fresh room).0 ≡ map network_of cs)
    × ((scan indoors fresh room).1.strongest_bssid ≡ map pin_of cs)
    × IsStrongest room cs
unfolding radio_of new
scan-IsStrongest_example = scan-IsStrongest indoors fresh room station room refl refl

connect-scan_example :
    let (_, m', w') = scan indoors fresh room in
    (best : AccessPoint) × IsBest room (codes "home") best
    × (connect indoors (codes "home") (codes "key") m' w'
        ≡ connect_with indoors
            (codes "home", codes "key", some best.bssid)
            (radio_of indoors m' w'))
unfolding radio_of new
connect-scan_example =
    connect-scan indoors fresh room station room far_home (codes "key") refl refl (inl refl)
      (λ e. cc)

-- A driver that cannot be initialized.
abbrev broken :
    RadioApi (Unit {0}) (Unit {0}) (Unit {0}) (Unit {0}) (Unit {0}) Config (List AccessPoint)
broken = record indoors { init = λ p w. (none, w) }

radio_of-settled_example :
    let (r, m', _) = radio_of broken fresh room in
    (radio_of broken m' room ≡ (r, m', room))
    × (r ≡ none → scan broken m' room ≡ ([], m', room))
    × (r ≡ none → connect broken (codes "home") [] m' room ≡ (false, m', room))
unfolding new
radio_of-settled_example = radio_of-settled broken fresh room room (codes "home") []
