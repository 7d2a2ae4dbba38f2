-- ===== src/Tls/Pem.antt =====
-- services/tls/src/lib.rs: C strings and PEM texts for mbedTLS, `validate_cert_key_pair`,
-- `server_config_from_pem` and `validate_ca_pem`. The library answers a call by any function of the
-- calls before it: `reply` takes them, the last one first, and 0 stands for success.
pub mod Release
use espbewi.Common.{
  ℕ, zero, suc, ◌==◌, leb, Bool, true, false, ◌&&◌, ◌||◌, not, Option, none, some, List, [], ◌∷◌,
  ◌++◌, if◌then◌else◌,
}
use espbewi.Common.Result.{Result, ok, err}
use espbewi.Common.Exec.{Exec, pure, lift, or_fail, fail_if, attempt, ◌>>=◌, ◌>>◌}

-- `CString::new` with the terminator that its pointer ends in.
abbrev pub has_nul : List ℕ → Bool
has_nul [] = false
has_nul (b ∷ bs) = b == 0 || has_nul bs

abbrev pub c_string : List ℕ → Option (List ℕ)
c_string text = if has_nul text then none else some (text ++ (0 ∷ []))

-- `core::str::from_utf8`, as far as whether it succeeds.
abbrev pub is_between : ℕ → ℕ → ℕ → Bool
is_between low high b = leb low b && leb b high

abbrev pub is_continuation : ℕ → Bool
is_continuation = is_between 0x80 0xBF

abbrev pub is_utf8_pair : ℕ → ℕ → Bool
is_utf8_pair a b = is_between 0xC2 0xDF a && is_continuation b

abbrev pub is_utf8_triple : ℕ → ℕ → ℕ → Bool
is_utf8_triple a b c =
    ((a == 0xE0 && is_between 0xA0 0xBF b)
      || (a == 0xED && is_between 0x80 0x9F b)
      || ((is_between 0xE1 0xEC a || is_between 0xEE 0xEF a) && is_continuation b))
    && is_continuation c

abbrev pub is_utf8_quad : ℕ → ℕ → ℕ → ℕ → Bool
is_utf8_quad a b c d =
    ((a == 0xF0 && is_between 0x90 0xBF b)
      || (a == 0xF4 && is_between 0x80 0x8F b)
      || (is_between 0xF1 0xF3 a && is_continuation b))
    && (is_continuation c && is_continuation d)

-- On fuel, one for each byte; a character takes one byte at least.
unfoldable pub is_utf8_loop : ℕ → List ℕ → Bool
is_utf8_loop zero text = true
is_utf8_loop (suc fuel) [] = true
is_utf8_loop (suc fuel) (a ∷ []) = leb a 0x7F
is_utf8_loop (suc fuel) (a ∷ b ∷ []) =
    let rest = is_utf8_loop fuel (b ∷ []) in (leb a 0x7F && rest) || is_utf8_pair a b
is_utf8_loop (suc fuel) (a ∷ b ∷ c ∷ []) =
    let after_1 = is_utf8_loop fuel (b ∷ c ∷ []) in
    let after_2 = is_utf8_loop fuel (c ∷ []) in
    (leb a 0x7F && after_1) || (is_utf8_pair a b && after_2) || is_utf8_triple a b c
is_utf8_loop (suc fuel) (a ∷ b ∷ c ∷ d ∷ text) = elim (leb a 0x7F) [
  | true ↦ is_utf8_loop fuel (b ∷ c ∷ d ∷ text)
  | false ↦ elim (is_utf8_pair a b) [
    | true ↦ is_utf8_loop fuel (c ∷ d ∷ text)
    | false ↦ elim (is_utf8_triple a b c) [
      | true ↦ is_utf8_loop fuel (d ∷ text)
      | false ↦ elim (is_utf8_quad a b c d) [ true ↦ is_utf8_loop fuel text | false ↦ false ]
    ]
  ]
]

pub data PairError : Type 0 where
  invalid_certificate invalid_private_key mismatch : PairError

-- The calls of `validate_cert_key_pair`.
pub data PairCall : Type 0 where
  crt_init pk_init crt_free pk_free check_pair : PairCall
  crt_parse pk_parse_key : List ℕ → PairCall

-- A call that must succeed: the answer 0, or the error.
abbrev pub expect_0 :
    {Call E : Type 0} → (List Call → Call → ℕ) → Call → E → Exec (List Call) E (Unit {0})
expect_0 reply call e history = (if reply history call == 0 then ok tt else err e, call ∷ history)

-- A call without an answer.
abbrev pub perform : {Call E : Type 0} → Call → Exec (List Call) E (Unit {0})
perform call history = (ok tt, call ∷ history)

-- The drop of `Contexts` at the end of its scope.
abbrev pub drop_pair :
    {A : Type 0} → Result PairError A × List PairCall → Result PairError A × List PairCall
drop_pair (r, history) = (r, pk_free ∷ crt_free ∷ history)

module _ (reply : List PairCall → PairCall → ℕ) where
  abbrev pub check_contexts : List ℕ → List ℕ → Exec (List PairCall) PairError (Unit {0})
  check_contexts cert key = do
    perform crt_init
    perform pk_init
    expect_0 reply (crt_parse cert) invalid_certificate
    expect_0 reply (pk_parse_key key) invalid_private_key
    expect_0 reply check_pair mismatch

  abbrev pub with_contexts : List ℕ → List ℕ → Exec (List PairCall) PairError (Unit {0})
  with_contexts cert key history = drop_pair (check_contexts cert key history)

  unfoldable pub validate_cert_key_pair :
      List ℕ → List ℕ → Exec (List PairCall) PairError (Unit {0})
  validate_cert_key_pair cert_pem key_pem = do
    cert ← or_fail (c_string cert_pem) invalid_certificate
    key ← or_fail (c_string key_pem) invalid_private_key
    with_contexts cert key

pub data ServerConfigError : Type 0 where
  invalid_certificate_pem invalid_private_key_pem invalid_certificate invalid_private_key :
      ServerConfigError

-- The credentials of `mbedtls_rs`: certificates `C` and private keys `K`, parsed in a state `S`.
pub record X509Api (S C K : Type 0) : Type 0 where
  pub certificate_of : List ℕ → S → Option C × S
  pub private_key_of : List ℕ → S → Option K × S

module _ {S C K : Type 0} (api : X509Api S C K) where
  -- The configuration of a server is its credentials.
  unfoldable pub server_config_from_pem : List ℕ → List ℕ → Exec S ServerConfigError (C × K)
  server_config_from_pem cert_pem key_pem = do
    cert ← or_fail (c_string cert_pem) invalid_certificate_pem
    key ← or_fail (c_string key_pem) invalid_private_key_pem
    certificate ← attempt (api.certificate_of cert) ServerConfigError.invalid_certificate
    private_key ← attempt (api.private_key_of key) ServerConfigError.invalid_private_key
    pure (certificate, private_key)

  abbrev pub parses : Option C × S → Bool × S
  parses (none, s) = (false, s)
  parses (some certificate, s) = (true, s)

  abbrev pub parse_if : Option (List ℕ) → S → Bool × S
  parse_if none s = (false, s)
  parse_if (some ca) s = parses (api.certificate_of ca s)

  unfoldable pub validate_ca_pem : List ℕ → S → Bool × S
  validate_ca_pem ca_pem s = parse_if (c_string ca_pem) s
