-- ===== src/Tls/Client.antt =====
-- services/tls/src/lib.rs, `embassy`: `connect_client`. The credentials of `mbedtls_rs`, the resolver,
-- the TCP sockets and the sessions are operations over the state `W` of the device; an operation that
-- waits is one step, the one in which it returns. The two buffers belong to the new socket.
pub mod Verified
use espbewi.Common.{ℕ, Bool, Option, none, some, List, [], ◌∷◌, length, if◌then◌else◌}
use espbewi.Common.Result.{Result, ok, err}
use espbewi.Common.Exec.{Exec, pure, or_fail, fail_if, attempt, map_err, ◌>>=◌, ◌>>◌}
use espbewi.Tls.Pem.{c_string, is_utf8_loop}

pub data ClientConnectError (ConnectError SessionError : Type 0) : Type 0 where
  bad_ca dns : ClientConnectError ConnectError SessionError
  tcp : ConnectError → ClientConnectError ConnectError SessionError
  handshake : SessionError → ClientConnectError ConnectError SessionError

-- What the client sets in `ClientSessionConfig`, beside the defaults.
pub record ClientConfig (Chain Defaults : Type 0) : Type 0 where
  pub ca_chain : Option Chain
  pub server_name : Option (List ℕ)
  pub others : Defaults

pub record ClientApi (W Chain Ip Socket Session Defaults ConnectError SessionError : Type 0)
    : Type 0 where
  pub certificate_of : List ℕ → W → Option Chain × W
  pub query_a : List ℕ → W → Option (List Ip) × W
  pub new_socket : W → Socket × W
  pub tcp_connect : Socket → Ip → ℕ → W → Result ConnectError (Unit {0}) × W
  pub default_config : Defaults
  pub new_session : Socket → ClientConfig Chain Defaults → W → Result SessionError Session × W
  pub session_connect : Session → W → Result SessionError (Unit {0}) × W

abbrev pub is_utf8 : List ℕ → Bool
is_utf8 text = is_utf8_loop (length text) text

abbrev pub host_str_of : List ℕ → Option (List ℕ)
host_str_of host = if is_utf8 host then some host else none

-- `.ok().and_then(|addrs| addrs.into_iter().next())`
abbrev pub first_of : {Ip : Type 0} → Option (List Ip) → Option Ip
first_of none = none
first_of (some []) = none
first_of (some (ip ∷ ips)) = some ip

module _ {W Chain Ip Socket Session Defaults ConnectError SessionError : Type 0}
    (api : ClientApi W Chain Ip Socket Session Defaults ConnectError SessionError) where
  abbrev pub first_address : List ℕ → W → Option Ip × W
  first_address host w = let (found, w') = api.query_a host w in (first_of found, w')

  abbrev pub client_config : Chain → List ℕ → ClientConfig Chain Defaults
  client_config chain host = record {
    ca_chain = some chain;
    server_name = some host;
    others = api.default_config;
  }

  -- From the address on: socket, TCP connection, session, handshake.
  abbrev pub open_session :
      List ℕ → ℕ → Chain → Ip → Exec W (ClientConnectError ConnectError SessionError) Session
  open_session host port chain ip = do
    socket ← λ w. let (new, w') = api.new_socket w in (ok new, w')
    map_err tcp (api.tcp_connect socket ip port)
    session ← map_err handshake (api.new_session socket (client_config chain host))
    map_err handshake (api.session_connect session)
    pure session

  unfoldable pub connect_client :
      List ℕ → ℕ → List ℕ → Exec W (ClientConnectError ConnectError SessionError) Session
  connect_client host port ca_pem = do
    ca_c ← or_fail (c_string ca_pem) bad_ca
    ca_chain ← attempt (api.certificate_of ca_c) bad_ca
    host_str ← or_fail (host_str_of host) dns
    ip ← attempt (first_address host_str) dns
    open_session host port ca_chain ip
