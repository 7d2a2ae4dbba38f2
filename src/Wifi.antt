-- ===== src/Wifi.antt =====
-- services/wifi/src/lib.rs: the Wi-Fi station. The radio driver (`esp-radio`) and the network stack
-- (`embassy-net`) are a record of operations over the state `W` of the device; an operation that
-- waits is one step, the one in which it returns. A signal strength is the byte of its `i8`. Log
-- lines are left out.
pub mod Strongest
pub mod Connect
pub mod Lifecycle
use espbewi.Common.{
  ℕ, ◌+◌, ◌%◌, leb, Bool, true, false, not, ◌||◌, Option, none, some, List, [], ◌∷◌, map,
  if◌then◌else◌,
}
use espbewi.Common.Bytes.{eq_bytes}

pub data AuthenticationMethod : Type 0 where
  unauthenticated authenticated : AuthenticationMethod

-- What the driver reports of an access point.
pub record AccessPoint : Type 0 where
  pub ssid : List ℕ
  pub bssid : List ℕ
  pub signal_strength : ℕ
  pub auth_method : Option AuthenticationMethod

pub record Network : Type 0 where
  pub ssid : List ℕ
  pub signal_strength : ℕ
  pub secured : Bool

-- An element of the vector `strongest` of `scan`.
pub record Candidate : Type 0 where
  pub ssid : List ℕ
  pub bssid : List ℕ
  pub signal_strength : ℕ
  pub secured : Bool

-- The order of `i8` is the order of these numbers.
abbrev pub i8_order : ℕ → ℕ
i8_order byte = (byte + 128) % 256

abbrev pub is_secured : Option AuthenticationMethod → Bool
is_secured none = false
is_secured (some unauthenticated) = false
is_secured (some authenticated) = true

abbrev pub candidate_of : AccessPoint → Candidate
candidate_of ap = record {
  ssid = ap.ssid;
  bssid = ap.bssid;
  signal_strength = ap.signal_strength;
  secured = is_secured ap.auth_method;
}

-- The `match` of the loop: keep a candidate that is as strong, replace a weaker one, or append.
abbrev pub keep_strongest : List Candidate → Candidate → List Candidate
keep_strongest [] new = new ∷ []
keep_strongest (known ∷ others) new =
    let rest = keep_strongest others new in
    if eq_bytes known.ssid new.ssid
    then (if leb (i8_order new.signal_strength) (i8_order known.signal_strength)
        then known ∷ others
        else new ∷ others)
    else known ∷ rest

-- The loop over the access points.
unfoldable pub strongest_of : List AccessPoint → List Candidate → List Candidate
strongest_of [] candidates = candidates
strongest_of (ap ∷ aps) candidates =
    strongest_of aps
      (if eq_bytes ap.ssid [] then candidates else keep_strongest candidates (candidate_of ap))

abbrev pub pin_of : Candidate → List ℕ × List ℕ
pin_of c = (c.ssid, c.bssid)

abbrev pub network_of : Candidate → Network
network_of c = record { ssid = c.ssid; signal_strength = c.signal_strength; secured = c.secured }

pub record Radio (C K : Type 0) : Type 0 where
  pub controller : C
  pub stack : K

-- The driver: a controller `C`, the station's interface `I`, the stack `K`, socket resources `R`,
-- the peripheral `P`, configurations `G`. `start_net` makes the stack and spawns its runner.
pub record RadioApi (P R C I K G W : Type 0) : Type 0 where
  pub init : P → W → Option (C × I) × W
  pub set_config : C → G → W → Option (Unit {0}) × W
  pub start_net : I → R → W → K × W
  pub scan_networks : C → W → Option (List AccessPoint) × W
  pub is_connected : C → W → Bool
  pub disconnect : C → W → Option (Unit {0}) × W
  pub associate : C → W → Option (Unit {0}) × W
  pub config_v4 : K → W → Option (List ℕ)
  pub wait_config_down : K → W → W
  pub wait_config_up : K → W → W
  pub is_config_up : K → W → Bool
  pub default_config : G
  pub with_ssid : G → List ℕ → G
  pub with_password : G → List ℕ → G
  pub with_bssid : G → List ℕ → G

pub record WifiManager (P R C K : Type 0) : Type 0 where
  pub peripheral : Option P
  pub resources : Option R
  pub radio : Option (Radio C K)
  pub strongest_bssid : List (List ℕ × List ℕ)

unfoldable pub new : {P R C K : Type 0} → P → R → WifiManager P R C K
new peripheral resources = record {
  peripheral = some peripheral;
  resources = some resources;
  radio = none;
  strongest_bssid = [];
}

-- `find` of the pinned access point.
abbrev pub pinned : List (List ℕ × List ℕ) → List ℕ → Option (List ℕ)
pinned [] ssid = none
pinned ((known_ssid, bssid) ∷ pins) ssid =
    if eq_bytes known_ssid ssid then some bssid else pinned pins ssid

module _ {P R C I K G W : Type 0} (api : RadioApi P R C I K G W) where
  abbrev pub address_of : W → Option (Radio C K) → Option (List ℕ)
  address_of w none = none
  address_of w (some radio) = api.config_v4 radio.stack w

  unfoldable pub ip : WifiManager P R C K → W → Option (List ℕ)
  ip m w = address_of w m.radio

  abbrev pub stack_if_up : Option (List ℕ) → K → Option K
  stack_if_up none stack = none
  stack_if_up (some address) stack = some stack

  abbrev pub online_stack : W → Option (Radio C K) → Option K
  online_stack w none = none
  online_stack w (some radio) = stack_if_up (api.config_v4 radio.stack w) radio.stack

  unfoldable pub ip_stack : WifiManager P R C K → W → Option K
  ip_stack m w = online_stack w m.radio

  abbrev pub is_some : Option K → Bool
  is_some none = false
  is_some (some stack) = true

  unfoldable pub is_online : WifiManager P R C K → W → Bool
  unfolding ip_stack
  is_online m w = is_some (ip_stack m w)

  abbrev pub Answer : Type 0 → Type 0
  Answer A = A × WifiManager P R C K × W

  -- The end of `radio`: the resources are taken, and the stack is started.
  abbrev pub with_resources :
      C → I → Option R → WifiManager P R C K → W → Answer (Option (Radio C K))
  with_resources controller station none m w = (none, m, w)
  with_resources controller station (some resources) m w =
      let (stack, w') = api.start_net station resources w in
      let radio : Radio C K = record { controller = controller; stack = stack } in
      (some radio, record m { resources = none; radio = some radio }, w')

  abbrev pub configured :
      C → I → Option (Unit {0}) × W → WifiManager P R C K → Answer (Option (Radio C K))
  configured controller station (none, w) m = (none, m, w)
  configured controller station (some done, w) m = with_resources controller station m.resources m w

  abbrev pub started : Option (C × I) × W → WifiManager P R C K → Answer (Option (Radio C K))
  started (none, w) m = (none, m, w)
  started (some (controller, station), w) m =
      configured controller station (api.set_config controller api.default_config w) m

  abbrev pub initialized : Option P → WifiManager P R C K → W → Answer (Option (Radio C K))
  initialized none m w = (none, m, w)
  initialized (some peripheral) m w =
      started (api.init peripheral w) (record m { peripheral = none })

  abbrev pub ready : Option (Radio C K) → WifiManager P R C K → W → Answer (Option (Radio C K))
  ready (some radio) m w = (some radio, m, w)
  ready none m w = initialized m.peripheral m w

  -- The method `radio`.
  unfoldable pub radio_of : WifiManager P R C K → W → Answer (Option (Radio C K))
  radio_of m w = ready m.radio m w

  abbrev pub scanned : Option (List AccessPoint) × W → WifiManager P R C K → Answer (List Network)
  scanned (none, w) m = ([], m, w)
  scanned (some aps, w) m =
      let strongest = strongest_of aps [] in
      (map network_of strongest, record m { strongest_bssid = map pin_of strongest }, w)

  abbrev pub scan_with : Answer (Option (Radio C K)) → Answer (List Network)
  scan_with (none, m, w) = ([], m, w)
  scan_with (some radio, m, w) = scanned (api.scan_networks radio.controller w) m

  unfoldable pub scan : WifiManager P R C K → W → Answer (List Network)
  scan m w = scan_with (radio_of m w)

  abbrev pub pin_config : G → Option (List ℕ) → G
  pin_config config none = config
  pin_config config (some bssid) = api.with_bssid config bssid

  abbrev pub station_config : Option (List ℕ) → List ℕ → List ℕ → G
  station_config bssid ssid password =
      pin_config (api.with_password (api.with_ssid api.default_config ssid) password) bssid

  abbrev pub associated : Radio C K → Option (Unit {0}) × W → WifiManager P R C K → Answer Bool
  associated radio (none, w) m = (false, m, w)
  associated radio (some done, w) m = (true, m, api.wait_config_up radio.stack w)

  abbrev pub set_and_associate :
      Radio C K → Option (Unit {0}) × W → WifiManager P R C K → Answer Bool
  set_and_associate radio (none, w) m = (false, m, w)
  set_and_associate radio (some done, w) m = associated radio (api.associate radio.controller w) m

  -- `connect` from the wait for the old lease on.
  abbrev pub reconfigure : Radio C K → G → WifiManager P R C K → W → Answer Bool
  reconfigure radio config m w =
      let w' = (if api.is_config_up radio.stack w then api.wait_config_down radio.stack w else w) in
      set_and_associate radio (api.set_config radio.controller config w') m

  abbrev pub disconnected :
      Radio C K → G → Option (Unit {0}) × W → WifiManager P R C K → Answer Bool
  disconnected radio config (none, w) m = (false, m, w)
  disconnected radio config (some done, w) m = reconfigure radio config m w

  abbrev pub connect_with : G → Answer (Option (Radio C K)) → Answer Bool
  connect_with config (none, m, w) = (false, m, w)
  connect_with config (some radio, m, w) =
      if api.is_connected radio.controller w
      then disconnected radio config (api.disconnect radio.controller w) m
      else reconfigure radio config m w

  unfoldable pub connect : List ℕ → List ℕ → WifiManager P R C K → W → Answer Bool
  connect ssid password m w =
      connect_with (station_config (pinned m.strongest_bssid ssid) ssid password) (radio_of m w)
