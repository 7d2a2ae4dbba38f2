-- ===== src/Tls/Client/Verified.antt =====
-- `connect_client`: what a session that it answers has gone through.
use espbewi.Common.{ℕ, ◌≡◌, refl, inl, inr, true, some, List, Bool-cases, Option-cases}
use espbewi.Common.Result.{ok, Result-cases}
use espbewi.Tls.Pem.{c_string}
use espbewi.Tls.Client.{
  ClientApi, ClientConfig, is_utf8, first_of, client_config, open_session, connect_client,
}

-- What mbedTLS documents of the handshake: with an authority and a server name in the configuration of
-- the session, it succeeds only if the peer has shown a certificate of that authority for that name.
-- `Verified chain name session` says that the peer of the session has.
pub record HandshakeLaws {W Chain Ip Socket Session Defaults ConnectError SessionError : Type 0}
    (api : ClientApi W Chain Ip Socket Session Defaults ConnectError SessionError) : Type 1 where
  pub Verified : Chain → List ℕ → Session → Type 0
  pub handshake_verifies :
      (socket : Socket) (config : ClientConfig Chain Defaults) (chain : Chain) (name : List ℕ)
      (w : W) (session : Session)
      → config.ca_chain ≡ some chain
      → config.server_name ≡ some name
      → (api.new_session socket config w).0 ≡ ok session
      → (api.session_connect session (api.new_session socket config w).1).0 ≡ ok tt
      → Verified chain name session

module _ {W Chain Ip Socket Session Defaults ConnectError SessionError : Type 0}
    (api : ClientApi W Chain Ip Socket Session Defaults ConnectError SessionError)
    (laws : HandshakeLaws api) (host : List ℕ) (port : ℕ) where
  -- A session over a TCP connection to `ip`, with a peer that is verified.
  pub record IsConnected (chain : Chain) (ip : Ip) (w : W) (session : Session) : Type 0 where
    pub is_tcp :
        let (socket, w1) = api.new_socket w in (api.tcp_connect socket ip port w1).0 ≡ ok tt
    pub is_verified : laws.Verified chain host session

  open_session-IsConnected :
      (chain : Chain) (ip : Ip) (w : W) (session : Session)
      → (open_session api host port chain ip w).0 ≡ ok session
      → IsConnected chain ip w session
  open_session-IsConnected chain ip w session h =
      let (socket, w1) = api.new_socket w in
      let (t, w2) = api.tcp_connect socket ip port w1 in
      let (s, w3) = api.new_session socket (client_config api chain host) w2 in
      elim (Result-cases t) [
        | inr (c, e) ↦ let h' = rw e at h in absurd (cc)
        | inl (u, e) ↦ elim (Result-cases s) [
          | inr (c, e') ↦ let h' = rw (e, e') at h in absurd (cc)
          | inl (made, e') ↦ elim (Result-cases (api.session_connect made w3).0) [
            | inr (c, e'') ↦ let h' = rw (e, e', e'') at h in absurd (cc)
            | inl (v, e'') ↦
                let h' : ok made ≡ ok session = rw (e, e', e'') at h in
                let same : made ≡ session = cc in
                record {
                  is_tcp = e;
                  is_verified =
                      laws.handshake_verifies socket (client_config api chain host) chain host w2
                        session refl refl (rw same at e') (rw same at e'');
                }
          ]
        ]
      ]

  -- A session is answered only if the text of the authority parsed, the name of the host is UTF-8
  -- and has an address, the TCP connection to the first address succeeded, and the peer has shown a
  -- certificate of that authority for that name: where a handshake with an authority and a server name
  -- succeeds only with such a peer.
  pub connect_client-IsConnected :
      (ca_pem : List ℕ) (w : W) (session : Session)
      → (connect_client api host port ca_pem w).0 ≡ ok session
      → (text : List ℕ) × (chain : Chain) × (ip : Ip) × (c_string ca_pem ≡ some text)
        × ((api.certificate_of text w).0 ≡ some chain)
        × (is_utf8 host ≡ true)
        × (let w1 = (api.certificate_of text w).1 in
            (first_of (api.query_a host w1).0 ≡ some ip)
            × IsConnected chain ip (api.query_a host w1).1 session)
  unfolding connect_client
  connect_client-IsConnected ca_pem w session h = elim (Option-cases (c_string ca_pem)) [
    | inl e ↦ let h' = rw e at h in absurd (cc)
    | inr (text, e) ↦
        let (r, w1) = api.certificate_of text w in
        elim (Option-cases r) [
          | inl e' ↦ let h' = rw (e, e') at h in absurd (cc)
          | inr (chain, e') ↦ elim (Bool-cases (is_utf8 host)) [
            | inr bad ↦ let h' = rw (e, e', bad) at h in absurd (cc)
            | inl utf8 ↦ elim (Option-cases (first_of (api.query_a host w1).0)) [
              | inl e'' ↦ let h' = rw (e, e', utf8, e'') at h in absurd (cc)
              | inr (ip, e'') ↦
                  let h' = rw (e, e', utf8, e'') at h in
                  (
                    text,
                    chain,
                    ip,
                    e,
                    e',
                    utf8,
                    (e'', open_session-IsConnected chain ip (api.query_a host w1).1 session h'),
                  )
            ]
          ]
        ]
  ]
