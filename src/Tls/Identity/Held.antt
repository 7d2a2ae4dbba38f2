-- ===== src/Tls/Identity/Held.antt =====
-- `generate_self_signed_identity`: no step up to the end gives a context or the key back.
use espbewi.Common.{ℕ, ◌≡◌, refl, ap, Bool, true, false, List, [], ◌∷◌, ◌++◌, All}
use espbewi.Common.Bytes.{codes}
use espbewi.Common.Result.{ok}
use espbewi.Common.Exec.{Exec, pure, lift, Preserves, bind-Preserves, ◌>>=◌, ◌>>◌}
use espbewi.Tls.Identity.{
  IdentityGenerationError, key_setup, key_encoding, certificate_encoding, certificate_setup,
  GeneratedIdentity, Call, pk_init, crt_init, pk_copy_from_psa, psa_destroy_key, set_subject_name,
  set_issuer_name, set_serial_raw, set_subject_key, set_issuer_key, set_md_sha256, random,
  write_key_pem, write_crt_pem, set_validity, set_basic_constraints, crt_free, pk_free, Mbedtls,
  Contexts, pem_string, perform, expect_0, setup, draw_serial, fill_certificate, encode_pair,
}

-- A call that gives a context or a key back.
abbrev pub is_release : Call → Bool
is_release crt_free = true
is_release pk_free = true
is_release (psa_destroy_key id) = true
is_release _ = false

module _ (lib : Mbedtls) (before : List Call) (id : ℕ) where
  -- No context is given back yet, and the id is kept.
  pub record IsHeld (ctx : Contexts) : Type 0 where
    pub uses : List Call
    pub are_uses : All (λ c. is_release c ≡ false) uses
    pub is_calls : ctx.calls ≡ uses ++ before
    pub is_id : ctx.key_id ≡ id

  IsHeld-call :
      (call : Call) (ctx : Contexts)
      → is_release call ≡ false
      → IsHeld ctx
      → IsHeld (record ctx { calls = call ∷ ctx.calls })
  IsHeld-call call ctx plain h = record {
    uses = call ∷ h.uses;
    are_uses = (plain, h.are_uses);
    is_calls = ap (λ calls. call ∷ calls) h.is_calls;
    is_id = h.is_id;
  }

  perform-IsHeld : (call : Call) → is_release call ≡ false → Preserves IsHeld (perform lib call)
  perform-IsHeld call plain ctx h = IsHeld-call call ctx plain h

  expect_0-IsHeld :
      (error : ℕ → IdentityGenerationError) (call : Call)
      → is_release call ≡ false
      → Preserves IsHeld (expect_0 lib error call)
  expect_0-IsHeld error call plain ctx h = IsHeld-call call ctx plain h

  -- A step in front of the rest of a chain.
  abbrev Step : Type 0
  Step = Exec Contexts IdentityGenerationError (Unit {0})

  then_step :
      {A : Type 0} (step : Step) (rest : Exec Contexts IdentityGenerationError A)
      → Preserves IsHeld step
      → Preserves IsHeld rest
      → Preserves IsHeld (step >> rest)
  then_step step rest first keeps = bind-Preserves IsHeld step (λ _. rest) first (λ _. keeps)

  -- A chain of steps, from its list of calls and errors.
  abbrev chain : List Step → Step → Step
  chain [] last = last
  chain (step ∷ steps) last = step >> chain steps last

  chain-IsHeld :
      (steps : List Step) (last : Step)
      → All (λ step. Preserves IsHeld step) steps
      → Preserves IsHeld last
      → Preserves IsHeld (chain steps last)
  chain-IsHeld [] last each end = end
  chain-IsHeld (step ∷ steps) last (first, each) end =
      then_step step (chain steps last) first (chain-IsHeld steps last each end)

  setup-IsHeld : (call : Call) → is_release call ≡ false → Preserves IsHeld (setup lib call)
  setup-IsHeld call plain = expect_0-IsHeld certificate_setup call plain

  abbrev number_and_sign : List ℕ → Step
  number_and_sign serial =
      chain
        (setup lib (set_serial_raw serial)
          ∷ setup lib (set_validity (codes "20260101000000") (codes "20991231235959"))
          ∷ perform lib set_md_sha256
          ∷ [])
        (setup lib (set_basic_constraints 0 0xFFFFFFFF))

  number_and_sign-IsHeld : (serial : List ℕ) → Preserves IsHeld (number_and_sign serial)
  number_and_sign-IsHeld serial =
      chain-IsHeld
        (setup lib (set_serial_raw serial)
          ∷ setup lib (set_validity (codes "20260101000000") (codes "20991231235959"))
          ∷ perform lib set_md_sha256
          ∷ [])
        (setup lib (set_basic_constraints 0 0xFFFFFFFF))
        (
          setup-IsHeld (set_serial_raw serial) refl,
          (
            setup-IsHeld (set_validity (codes "20260101000000") (codes "20991231235959")) refl,
            (perform-IsHeld set_md_sha256 refl, tt),
          ),
        )
        (setup-IsHeld (set_basic_constraints 0 0xFFFFFFFF) refl)

  fill_certificate-IsHeld : (subject : List ℕ) → Preserves IsHeld (fill_certificate lib subject)
  unfolding fill_certificate
  fill_certificate-IsHeld subject =
      chain-IsHeld
        (perform lib crt_init
          ∷ setup lib (set_subject_name subject)
          ∷ setup lib (set_issuer_name subject)
          ∷ perform lib set_subject_key
          ∷ perform lib set_issuer_key
          ∷ [])
        (draw_serial lib >>= number_and_sign)
        (
          perform-IsHeld crt_init refl,
          (
            setup-IsHeld (set_subject_name subject) refl,
            (
              setup-IsHeld (set_issuer_name subject) refl,
              (perform-IsHeld set_subject_key refl, (perform-IsHeld set_issuer_key refl, tt)),
            ),
          ),
        )
        (bind-Preserves IsHeld (draw_serial lib) number_and_sign
          (λ ctx h. IsHeld-call (random 16) ctx refl h) number_and_sign-IsHeld)

  abbrev pub Encoder : Type 0
  Encoder = Exec Contexts IdentityGenerationError GeneratedIdentity

  abbrev decode_pair : List ℕ → List ℕ → Encoder
  decode_pair key_buf cert_buf = lift (pem_string cert_buf) >>= λ cert_pem.
      lift (pem_string key_buf) >>= λ key_pem.
      pure (record { cert_pem = cert_pem; key_pem = key_pem })

  decode_pair-IsHeld : (key_buf cert_buf : List ℕ) → Preserves IsHeld (decode_pair key_buf cert_buf)
  decode_pair-IsHeld key_buf cert_buf =
      bind-Preserves IsHeld (lift (pem_string cert_buf))
        (λ cert_pem. lift (pem_string key_buf) >>= λ key_pem.
          pure (record { cert_pem = cert_pem; key_pem = key_pem }))
        (λ s h. h)
        (λ cert_pem.
          bind-Preserves IsHeld (lift (pem_string key_buf))
            (λ key_pem. pure (record { cert_pem = cert_pem; key_pem = key_pem })) (λ s h. h)
            (λ key_pem s h. h))

  -- A buffer that the calls so far determine, and the call that fills it.
  abbrev filled : (List Call → List ℕ) → Exec Contexts IdentityGenerationError (List ℕ)
  filled text ctx = (ok (text ctx.calls), ctx)

  abbrev encode_rest : List ℕ → Encoder
  encode_rest key_buf = filled lib.crt_text >>= λ cert_buf.
      expect_0 lib certificate_encoding (write_crt_pem 2048) >> decode_pair key_buf cert_buf

  encode_rest-IsHeld : (key_buf : List ℕ) → Preserves IsHeld (encode_rest key_buf)
  encode_rest-IsHeld key_buf =
      bind-Preserves IsHeld (filled lib.crt_text)
        (λ cert_buf.
          expect_0 lib certificate_encoding (write_crt_pem 2048) >> decode_pair key_buf cert_buf)
        (λ s h. h)
        (λ cert_buf.
          then_step (expect_0 lib certificate_encoding (write_crt_pem 2048))
            (decode_pair key_buf cert_buf)
            (expect_0-IsHeld certificate_encoding (write_crt_pem 2048) refl)
            (decode_pair-IsHeld key_buf cert_buf))

  encode_pair-IsHeld : Preserves IsHeld (encode_pair lib)
  unfolding encode_pair
  encode_pair-IsHeld =
      bind-Preserves IsHeld (filled lib.key_text)
        (λ key_buf. expect_0 lib key_encoding (write_key_pem 1024) >> encode_rest key_buf)
        (λ s h. h)
        (λ key_buf.
          then_step (expect_0 lib key_encoding (write_key_pem 1024)) (encode_rest key_buf)
            (expect_0-IsHeld key_encoding (write_key_pem 1024) refl) (encode_rest-IsHeld key_buf))

  abbrev pub after_key : List ℕ → Encoder
  after_key subject =
      (perform lib pk_init >> λ ctx. expect_0 lib key_setup (pk_copy_from_psa ctx.key_id) ctx)
      >> (fill_certificate lib subject >> encode_pair lib)

  pub after_key-IsHeld : (subject : List ℕ) → Preserves IsHeld (after_key subject)
  after_key-IsHeld subject =
      then_step
        (perform lib pk_init >> λ ctx. expect_0 lib key_setup (pk_copy_from_psa ctx.key_id) ctx)
        (fill_certificate lib subject >> encode_pair lib)
        (then_step (perform lib pk_init)
          (λ ctx. expect_0 lib key_setup (pk_copy_from_psa ctx.key_id) ctx)
          (perform-IsHeld pk_init refl)
          (λ ctx h. expect_0-IsHeld key_setup (pk_copy_from_psa ctx.key_id) refl ctx h))
        (then_step (fill_certificate lib subject) (encode_pair lib)
          (fill_certificate-IsHeld subject) encode_pair-IsHeld)
