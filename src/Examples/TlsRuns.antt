-- ===== src/Examples/TlsRuns.antt =====
-- The TLS service against libraries that answer 0, with one failing call in some of the runs.
use espbewi.Common.{
  ℕ, ◌^◌, ◌<◌, ◌≤◌, ◌≡◌, refl, ap, sym, ◌∙◌, ◌⊎◌, true, false, Option, none, some, List, [], ◌∷◌,
  ◌++◌, arith, length, take, min,
}
use espbewi.Common.Bytes.{codes}
use espbewi.Common.Result.{Result, ok, err}
use espbewi.Tls.{epoch_to_tm, Tm}
use espbewi.Tls.Calendar.Range.{IsInRange, epoch_to_tm-IsInRange}
use espbewi.Tls.Init.{Statics, cell_is_full, init}
use espbewi.Tls.Pem.{
  PairError, mismatch, is_utf8_loop, c_string, invalid_certificate, invalid_private_key, PairCall,
  check_pair, validate_cert_key_pair,
}
use espbewi.Tls.Pem.Release as Pair
use espbewi.Tls.Identity.Drop as Identity
use espbewi.Tls.Pem.Release.{validate_cert_key_pair-IsReleased}
use espbewi.Tls.Identity.{
  IdentityGenerationError, GeneratedIdentity, build_identity, make_key, fill_certificate,
  encode_pair, pem_string, Call, Mbedtls, psa_crypto_init, generate_self_signed_identity,
  invalid_name, psa_init, serial_of, crt_free, pk_free,
}
use espbewi.Tls.Identity.Drop.{generate_self_signed_identity-IsReleased}
use espbewi.Tls.Identity.Serial.{be_value, serial_of_bounds}
use espbewi.Tls.Client.{ClientApi, ClientConfig, client_config, connect_client, is_utf8, first_of}
use espbewi.Tls.Client.Verified.{HandshakeLaws, IsConnected, connect_client-IsConnected}
use espbewi.Tls.Socket.{SessionApi, write_with}
use espbewi.Tls.Socket.Written.{Sends, write_with-take}

-- Keys that do not belong together: only the last call fails.
abbrev unpaired : List PairCall → PairCall → ℕ
unpaired history check_pair = 1
unpaired history call = 0

abbrev pair_out : Result PairError (Unit {0}) × List PairCall
pair_out = validate_cert_key_pair unpaired (codes "cert") (codes "key") []

unpaired_run : pair_out.0 ≡ err mismatch
unfolding validate_cert_key_pair
unpaired_run = refl

validate_cert_key_pair-IsReleased_example :
    ((c_string (codes "cert") ≡ none) × (pair_out ≡ (err invalid_certificate, [])))
    ⊎ (((c_string (codes "key") ≡ none) × (pair_out ≡ (err invalid_private_key, [])))
        ⊎ ((cert : List ℕ) × (key : List ℕ) × (c_string (codes "cert") ≡ some cert)
            × (c_string (codes "key") ≡ some key)
            × Pair.IsReleased unpaired cert key [] pair_out))
validate_cert_key_pair-IsReleased_example =
    validate_cert_key_pair-IsReleased unpaired (codes "cert") (codes "key") []

-- A library that makes the key 7 and two short texts.
abbrev willing : Mbedtls
willing = record {
  reply = λ calls call. 0;
  generated_id = λ calls. 7;
  random_bytes = λ calls n. 0xFF ∷ [];
  key_text = λ calls. codes "key" ++ (0 ∷ []);
  crt_text = λ calls. codes "crt" ++ (0 ∷ []);
}

abbrev identity_out : Result IdentityGenerationError GeneratedIdentity × List Call
identity_out = generate_self_signed_identity willing (codes "esp") []

identity_run : identity_out.0 ≡ ok (record { cert_pem = codes "crt"; key_pem = codes "key" })
unfolding generate_self_signed_identity build_identity make_key fill_certificate encode_pair
    pem_string is_utf8_loop
identity_run = refl

generate_self_signed_identity-IsReleased_example :
    ((c_string (codes "CN=" ++ codes "esp") ≡ none) × (identity_out ≡ (err invalid_name, [])))
    ⊎ ((identity_out ≡ (err (psa_init 0), pk_free ∷ crt_free ∷ psa_crypto_init ∷ []))
        ⊎ Identity.IsReleased [] 7 identity_out)
generate_self_signed_identity-IsReleased_example =
    generate_self_signed_identity-IsReleased willing (codes "esp") []

-- Sixteen bytes with the highest bit set and an even first byte.
abbrev drawn : List ℕ
drawn = 0xFE ∷ 1 ∷ 2 ∷ 3 ∷ 4 ∷ 5 ∷ 6 ∷ 7 ∷ 8 ∷ 9 ∷ 10 ∷ 11 ∷ 12 ∷ 13 ∷ 14 ∷ 0xFF ∷ []

serial_run :
    (length (serial_of drawn) ≡ 16)
    × (256 ^ 15 ≤ be_value (serial_of drawn))
    × (be_value (serial_of drawn) < 2 ^ 127)
serial_run =
    serial_of_bounds drawn
      (
        omega arith,
        (
          omega arith,
          (
            omega arith,
            (
              omega arith,
              (
                omega arith,
                (
                  omega arith,
                  (
                    omega arith,
                    (
                      omega arith,
                      (
                        omega arith,
                        (
                          omega arith,
                          (
                            omega arith,
                            (
                              omega arith,
                              (omega arith, (omega arith, (omega arith, (omega arith, tt)))),
                            ),
                          ),
                        ),
                      ),
                    ),
                  ),
                ),
              ),
            ),
          ),
        ),
      )
      refl

epoch_to_tm-IsInRange_example :
    ((253402300800 ≤ 1709210096) × (epoch_to_tm 1709210096 ≡ none))
    ⊎ ((1709210096 < 253402300800)
        × (date : Tm) × (epoch_to_tm 1709210096 ≡ some date)
        × IsInRange date)
epoch_to_tm-IsInRange_example = epoch_to_tm-IsInRange 1709210096

-- A network in which every step succeeds; sockets and addresses are numbers, and a session is what it
-- verifies its peer by.
abbrev reachable :
    ClientApi (Unit {0}) (List ℕ) ℕ ℕ (ClientConfig (List ℕ) (Unit {0})) (Unit {0}) ℕ ℕ
reachable = record {
  certificate_of = λ text w. (some text, w);
  query_a = λ host w. (some (41 ∷ 42 ∷ []), w);
  new_socket = λ w. (1, w);
  tcp_connect = λ socket ip port w. (ok tt, w);
  default_config = tt;
  new_session = λ socket config w. (ok config, w);
  session_connect = λ session w. (ok tt, w);
}

only_config :
    (a b : ClientConfig (List ℕ) (Unit {0}))
    → ◌≡◌ {A = Result ℕ (ClientConfig (List ℕ) (Unit {0}))} (ok a) (ok b)
    → a ≡ b
only_config a b e = cc

abbrev reachable_laws : HandshakeLaws reachable
reachable_laws = record {
  Verified =
      λ chain name session. (session.ca_chain ≡ some chain) × (session.server_name ≡ some name);
  handshake_verifies = λ socket config chain name w session ca name' made done.
      let same = only_config config session made in
      (ap (λ c. c.ca_chain) (sym same) ∙ ca, ap (λ c. c.server_name) (sym same) ∙ name');
}

abbrev made_session : ClientConfig (List ℕ) (Unit {0})
made_session = client_config reachable (codes "ca" ++ (0 ∷ [])) (codes "host")

connect_client_run :
    (connect_client reachable (codes "host") 443 (codes "ca") tt).0 ≡ ok made_session
unfolding connect_client is_utf8_loop
connect_client_run = refl

connect_client-IsConnected_example :
    (text : List ℕ) × (chain : List ℕ) × (ip : ℕ) × (c_string (codes "ca") ≡ some text)
    × ((reachable.certificate_of text tt).0 ≡ some chain)
    × (is_utf8 (codes "host") ≡ true)
    × (let w1 = (reachable.certificate_of text tt).1 in
        (first_of (reachable.query_a (codes "host") w1).0 ≡ some ip)
        × IsConnected reachable reachable_laws
            (codes "host")
            443
            chain
            ip
            (reachable.query_a (codes "host") w1).1
            made_session)
connect_client-IsConnected_example =
    connect_client-IsConnected reachable reachable_laws (codes "host") 443 (codes "ca") tt
      made_session connect_client_run

-- A session that sends two bytes at a time; its state is what it has sent.
abbrev narrow : SessionApi (List ℕ) (Unit {0})
narrow = record {
  session_read = λ n sent. (ok [], sent);
  session_write =
      λ bytes sent. (ok (min 2 (length bytes)), sent ++ take (min 2 (length bytes)) bytes);
  session_flush = λ sent. (ok tt, sent);
  session_close = λ sent. (ok tt, sent);
  stream_abort = λ sent. sent;
  stream_close = λ sent. sent;
}

narrow-Sends : Sends narrow (λ sent. sent)
narrow-Sends bytes s n h =
    let same : min 2 (length bytes) ≡ n = cc in
    (omega (arith, same), ap (λ k. s ++ take k bytes) same)

-- Three bytes are filled and two are sent; the answer is `Ok` with the output of `f`.
narrow_run :
    let (r, sent) = write_with narrow {R = ℕ} (λ size. (codes "abc", 9)) [] in
    (r ≡ ok 9)
    × (sent ≡ [] ++ take 2 (codes "abc"))
    × ((sent ≡ [] ++ codes "abc" → 2 ≡ length (codes "abc"))
        × (2 ≡ length (codes "abc") → sent ≡ [] ++ codes "abc"))
narrow_run = write_with-take narrow (λ sent. sent) narrow-Sends (λ size. (codes "abc", 9)) [] 2 refl

-- The second `init` of a process panics at the first cell and leaves the hooks as they are.
init_twice :
    let process : Statics ℕ ℕ = record {
      wall_clock = none;
      rng = false;
      tls = none;
      timer_hook = false;
      wall_clock_hook = none;
    } in
    let make : Statics ℕ ℕ → Option ℕ × Statics ℕ ℕ = λ s. (some 3, s) in
    let (first, s1) = init make 1 process in
    let (second, s2) = init make 2 s1 in
    (first ≡ ok 3) × (second ≡ err cell_is_full) × (s2.wall_clock_hook ≡ some 1)
unfolding init
init_twice = (refl, refl, refl)
