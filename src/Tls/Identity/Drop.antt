-- ===== src/Tls/Identity/Drop.antt =====
-- `generate_self_signed_identity`: what is released, on every path.
use espbewi.Common.{
  ℕ, ◌==◌, ◌≡◌, ◌≢◌, refl, ◌∙◌, ◌⊎◌, inl, inr, Bool, true, false, not, ◌||◌, some, List, [], ◌∷◌,
  ◌++◌, arith, All, Bool-cases, Option-cases, none,
}
use espbewi.Common.Bytes.{codes}
use espbewi.Common.Result.{Result, ok, err}
use espbewi.Tls.Pem.{c_string}
use espbewi.Tls.Identity.{
  IdentityGenerationError, invalid_name, psa_init, GeneratedIdentity, Call, psa_crypto_init,
  psa_generate_key, psa_destroy_key, crt_free, pk_free, Mbedtls, Contexts, key_attributes, dropped,
  make_key, build_identity, generate_self_signed_identity,
}
use espbewi.Tls.Identity.Held.{is_release, IsHeld, after_key, after_key-IsHeld}

dropped_empty :
    (calls : List Call) (id : ℕ)
    → id ≡ 0
    → dropped (record { calls = calls; key_id = id }) ≡ pk_free ∷ crt_free ∷ calls
dropped_empty calls id e = let none_held : (id == 0) ≡ true = ground arith in rw none_held refl

dropped_full :
    (calls : List Call) (id : ℕ)
    → id ≢ 0
    → dropped (record { calls = calls; key_id = id })
      ≡ psa_destroy_key id ∷ pk_free ∷ crt_free ∷ calls
dropped_full calls id h = let held : (id == 0) ≡ false = ground arith in rw held refl

-- How a run ends once a key was asked for: the calls of the run, then the contexts and the key `id`
-- are given back, each once, and success needs a key.
pub record IsReleased (before : List Call) (id : ℕ)
    (out : Result IdentityGenerationError GeneratedIdentity × List Call) : Type 0 where
  pub uses : List Call
  pub are_uses : All (λ c. is_release c ≡ false) uses
  pub without_key : id ≡ 0 → out.1 ≡ pk_free ∷ crt_free ∷ (uses ++ before)
  pub with_key : id ≢ 0 → out.1 ≡ psa_destroy_key id ∷ pk_free ∷ crt_free ∷ (uses ++ before)
  pub has_key : (identity : GeneratedIdentity) → out.0 ≡ ok identity → id ≢ 0

module _ (lib : Mbedtls) (common_name : List ℕ) (before : List Call) where
  abbrev key_history : List Call
  key_history = psa_crypto_init ∷ before

  abbrev key_test : Bool
  key_test =
      not (lib.reply key_history (psa_generate_key key_attributes) == 0)
      || lib.generated_id key_history == 0

  -- The contexts once there is a key.
  abbrev made_key : Contexts
  made_key = record {
    calls = psa_generate_key key_attributes ∷ key_history;
    key_id = lib.generated_id key_history;
  }

  keyed_end :
      (subject : List ℕ)
      → c_string (codes "CN=" ++ common_name) ≡ some subject
      → (lib.reply before psa_crypto_init == 0) ≡ true
      → key_test ≡ false
      → generate_self_signed_identity lib common_name before
        ≡ (let (r, ctx) = after_key lib before 0 subject made_key in (r, dropped ctx))
  unfolding generate_self_signed_identity build_identity make_key
  keyed_end subject named started made = rw (named, started, made) refl

  keyed_run :
      (subject : List ℕ)
      → c_string (codes "CN=" ++ common_name) ≡ some subject
      → (lib.reply before psa_crypto_init == 0) ≡ true
      → IsReleased before
          (lib.generated_id key_history)
          (generate_self_signed_identity lib common_name before)
  unfolding generate_self_signed_identity build_identity make_key
  keyed_run subject named started = elim (Bool-cases key_test) [
    | inl failed ↦
        rw (named, started, failed)
          (record {
            uses = psa_generate_key key_attributes ∷ psa_crypto_init ∷ [];
            are_uses = (refl, (refl, tt));
            without_key =
                dropped_empty (psa_generate_key key_attributes ∷ key_history)
                  (lib.generated_id key_history);
            with_key =
                dropped_full (psa_generate_key key_attributes ∷ key_history)
                  (lib.generated_id key_history);
            has_key = λ identity e. absurd (cc);
          })
    | inr made ↦
        let id = lib.generated_id key_history in
        let start : IsHeld lib before id made_key = record {
          uses = psa_generate_key key_attributes ∷ psa_crypto_init ∷ [];
          are_uses = (refl, (refl, tt));
          is_calls = refl;
          is_id = refl;
        } in
        let end = after_key-IsHeld lib before id subject made_key start in
        rw (keyed_end subject named started made) (record {
          uses = end.uses;
          are_uses = end.are_uses;
          without_key = λ e. history end ∙ dropped_empty (end.uses ++ before) id e;
          with_key = λ h. history end ∙ dropped_full (end.uses ++ before) id h;
          has_key = λ identity e.
              not_zero id (lib.reply key_history (psa_generate_key key_attributes)) made;
        })
  ]
    where
      history :
          {ctx : Contexts}
          → (h : IsHeld lib before (lib.generated_id key_history) ctx)
          → dropped ctx
            ≡ dropped (record { calls = h.uses ++ before; key_id = lib.generated_id key_history })
      history h i = dropped (record { calls = h.is_calls i; key_id = h.is_id i })

      not_zero : (n rc : ℕ) → not (rc == 0) || n == 0 ≡ false → n ≢ 0
      not_zero n rc h e = ground arith

  -- A name with a NUL makes no call. Where `psa_crypto_init` fails, both contexts are freed although
  -- neither was initialized. On every other path, whatever the answer, nothing is given back before
  -- the end; there the contexts are freed once, and then the key is destroyed if its id is not 0;
  -- `Ok` needs such a key.
  pub generate_self_signed_identity-IsReleased :
      let out = generate_self_signed_identity lib common_name before in
      ((c_string (codes "CN=" ++ common_name) ≡ none) × (out ≡ (err invalid_name, before)))
      ⊎ ((out ≡ (
        err (psa_init (lib.reply before psa_crypto_init)),
        pk_free ∷ crt_free ∷ psa_crypto_init ∷ before,
      ))
          ⊎ IsReleased before (lib.generated_id key_history) out)
  unfolding generate_self_signed_identity build_identity make_key
  generate_self_signed_identity-IsReleased =
      elim (Option-cases (c_string (codes "CN=" ++ common_name))) [
        | inl nul ↦ inl (nul, rw nul refl)
        | inr (subject, named) ↦ elim (Bool-cases (lib.reply before psa_crypto_init == 0)) [
          | inr failed ↦ inr (inl (rw (named, failed) refl))
          | inl started ↦ inr (inr (keyed_run subject named started))
        ]
      ]
