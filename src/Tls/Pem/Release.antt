-- ===== src/Tls/Pem/Release.antt =====
-- `validate_cert_key_pair`: its answer, and what it does with its contexts.
use espbewi.Common.{
  ℕ, ◌==◌, ◌≡◌, refl, inl, inr, ◌⊎◌, Bool, true, false, none, some, List, [], ◌∷◌, ◌++◌, arith, All,
  Bool-cases, Option-cases,
}
use espbewi.Common.Result.{Result, ok, err}
use espbewi.Tls.Pem.{
  c_string, PairError, invalid_certificate, invalid_private_key, PairCall, crt_init, pk_init,
  crt_free, pk_free, check_pair, crt_parse, pk_parse_key, validate_cert_key_pair,
}

-- A call that uses the contexts, and neither makes nor frees one.
abbrev pub is_use : PairCall → Bool
is_use crt_init = false
is_use pk_init = false
is_use crt_free = false
is_use pk_free = false
is_use check_pair = true
is_use (crt_parse text) = true
is_use (pk_parse_key text) = true

-- What a run on two C strings leaves in the history, and its answer.
pub record IsReleased (reply : List PairCall → PairCall → ℕ) (cert key : List ℕ)
    (before : List PairCall) (out : Result PairError (Unit {0}) × List PairCall) : Type 0 where
  pub uses : List PairCall
  pub are_uses : All (λ c. is_use c ≡ true) uses
  pub is_history : out.1 ≡ pk_free ∷ crt_free ∷ (uses ++ (pk_init ∷ crt_init ∷ before))
  pub when_ok :
      out.0 ≡ ok tt
      → (uses ≡ check_pair ∷ pk_parse_key key ∷ crt_parse cert ∷ [])
        × (reply (pk_init ∷ crt_init ∷ before) (crt_parse cert) ≡ 0)
        × (reply (crt_parse cert ∷ pk_init ∷ crt_init ∷ before) (pk_parse_key key) ≡ 0)
        × (reply (pk_parse_key key ∷ crt_parse cert ∷ pk_init ∷ crt_init ∷ before) check_pair ≡ 0)

module _ (reply : List PairCall → PairCall → ℕ) (cert_pem key_pem : List ℕ)
    (before : List PairCall) where
  parsed_run :
      (cert key : List ℕ)
      → c_string cert_pem ≡ some cert
      → c_string key_pem ≡ some key
      → IsReleased reply cert key before (validate_cert_key_pair reply cert_pem key_pem before)
  unfolding validate_cert_key_pair
  parsed_run cert key c k =
      let h0 = pk_init ∷ crt_init ∷ before in
      let h1 = crt_parse cert ∷ h0 in
      let h2 = pk_parse_key key ∷ h1 in
      elim (Bool-cases (reply h0 (crt_parse cert) == 0)) [
        | inr bad ↦
            rw (c, k, bad)
              (record {
                uses = crt_parse cert ∷ [];
                are_uses = (refl, tt);
                is_history = refl;
                when_ok = λ e. absurd (cc);
              })
        | inl parsed ↦ elim (Bool-cases (reply h1 (pk_parse_key key) == 0)) [
          | inr bad ↦
              rw (c, k, parsed, bad)
                (record {
                  uses = pk_parse_key key ∷ crt_parse cert ∷ [];
                  are_uses = (refl, (refl, tt));
                  is_history = refl;
                  when_ok = λ e. absurd (cc);
                })
          | inl keyed ↦ elim (Bool-cases (reply h2 check_pair == 0)) [
            | inr bad ↦
                rw (c, k, parsed, keyed, bad)
                  (record {
                    uses = check_pair ∷ pk_parse_key key ∷ crt_parse cert ∷ [];
                    are_uses = (refl, (refl, (refl, tt)));
                    is_history = refl;
                    when_ok = λ e. absurd (cc);
                  })
            | inl paired ↦
                rw (c, k, parsed, keyed, paired)
                  (record {
                    uses = check_pair ∷ pk_parse_key key ∷ crt_parse cert ∷ [];
                    are_uses = (refl, (refl, (refl, tt)));
                    is_history = refl;
                    when_ok = λ e. (refl, ground arith, ground arith, ground arith);
                  })
          ]
        ]
      ]

  -- Where a text holds a NUL, no call is made and its error is the answer, the certificate's first.
  -- Otherwise both contexts are made once, first of all, and freed once, last of all, whatever the
  -- answer. The answer is `Ok` only if parsing both texts and comparing the keys all answered 0.
  pub validate_cert_key_pair-IsReleased :
      let out = validate_cert_key_pair reply cert_pem key_pem before in
      ((c_string cert_pem ≡ none) × (out ≡ (err invalid_certificate, before)))
      ⊎ (((c_string key_pem ≡ none) × (out ≡ (err invalid_private_key, before)))
          ⊎ ((cert : List ℕ) × (key : List ℕ) × (c_string cert_pem ≡ some cert)
              × (c_string key_pem ≡ some key)
              × IsReleased reply cert key before out))
  unfolding validate_cert_key_pair
  validate_cert_key_pair-IsReleased = elim (Option-cases (c_string cert_pem)) [
    | inl no_cert ↦ inl (no_cert, rw no_cert refl)
    | inr (cert, c) ↦ elim (Option-cases (c_string key_pem)) [
      | inl no_key ↦ inr (inl (no_key, rw (c, no_key) refl))
      | inr (key, k) ↦ inr (inr (cert, key, c, k, parsed_run cert key c k))
    ]
  ]
