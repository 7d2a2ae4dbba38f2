-- ===== src/Tls/Identity.antt =====
-- services/tls/src/lib.rs: `generate_self_signed_identity`. The library and the hardware generator
-- answer a call by any function of the calls before it; a buffer that a call fills is an answer too.
-- A code of C's `int` is the number of its 32 bits.
pub mod Held
pub mod Drop
pub mod Serial
use espbewi.Common.{
  ℕ, ◌-◌, ◌==◌, Bool, true, false, not, ◌||◌, Option, none, some, List, [], ◌∷◌, ◌++◌, bit_and,
  bit_or, length, if◌then◌else◌,
}
use espbewi.Common.Bytes.{codes}
use espbewi.Common.Result.{Result, ok, err}
use espbewi.Common.Exec.{Exec, pure, fail, or_fail, fail_if, lift, ◌>>=◌, ◌>>◌}
use espbewi.Tls.Pem.{c_string, is_utf8_loop}

pub data IdentityGenerationError : Type 0 where
  invalid_name invalid_utf8 : IdentityGenerationError
  psa_init key_generation key_setup key_encoding : ℕ → IdentityGenerationError
  certificate_setup certificate_encoding : ℕ → IdentityGenerationError

pub record GeneratedIdentity : Type 0 where
  pub cert_pem : List ℕ
  pub key_pem : List ℕ

-- The fields of the key attributes that are set.
pub record KeyAttributes : Type 0 where
  pub key_type : ℕ
  pub bits : ℕ
  pub lifetime : ℕ
  pub usage : ℕ

pub data Call : Type 0 where
  psa_crypto_init pk_init crt_init : Call
  psa_generate_key : KeyAttributes → Call
  pk_copy_from_psa psa_destroy_key : ℕ → Call
  set_subject_name set_issuer_name set_serial_raw : List ℕ → Call
  set_subject_key set_issuer_key set_md_sha256 : Call
  random write_key_pem write_crt_pem : ℕ → Call
  set_validity : List ℕ → List ℕ → Call
  set_basic_constraints : ℕ → ℕ → Call
  crt_free pk_free : Call

-- What the calls answer, by the calls before, the last one first.
pub record Mbedtls : Type 0 where
  pub reply : List Call → Call → ℕ
  pub generated_id : List Call → ℕ
  pub random_bytes : List Call → ℕ → List ℕ
  pub key_text : List Call → List ℕ
  pub crt_text : List Call → List ℕ

-- The calls made, and the key id of `Contexts`.
pub record Contexts : Type 0 where
  pub calls : List Call
  pub key_id : ℕ

abbrev pub key_attributes : KeyAttributes
key_attributes = record {
  key_type = bit_or 0x7100 0x12;
  bits = 256;
  lifetime = 0;
  usage = 0x00000001;
}

-- `serial[0] &= 0x7f; serial[0] |= 0x01`
abbrev pub serial_of : List ℕ → List ℕ
serial_of [] = []
serial_of (b ∷ bs) = bit_or (bit_and b 0x7f) 0x01 ∷ bs

-- The text in front of the first NUL.
abbrev pub until_nul : List ℕ → List ℕ
until_nul [] = []
until_nul (b ∷ bs) = let rest = until_nul bs in if b == 0 then [] else b ∷ rest

unfoldable pub pem_string : List ℕ → Result IdentityGenerationError (List ℕ)
unfolding is_utf8_loop
pem_string buf =
    let text = until_nul buf in
    if is_utf8_loop (length text) text then ok text else err invalid_utf8

abbrev pub log_call : Call → Contexts → Contexts
log_call call ctx = record ctx { calls = call ∷ ctx.calls }

-- The drop of `Contexts`.
abbrev pub dropped : Contexts → List Call
dropped ctx =
    let freed = pk_free ∷ crt_free ∷ ctx.calls in
    if ctx.key_id == 0 then freed else psa_destroy_key ctx.key_id ∷ freed

module _ (lib : Mbedtls) where
  abbrev pub perform : Call → Exec Contexts IdentityGenerationError (Unit {0})
  perform call ctx = (ok tt, log_call call ctx)

  -- A call whose code other than 0 is returned in an error.
  abbrev pub expect_0 :
      (ℕ → IdentityGenerationError) → Call → Exec Contexts IdentityGenerationError (Unit {0})
  expect_0 error call ctx =
      let rc = lib.reply ctx.calls call in
      (if rc == 0 then ok tt else err (error rc), log_call call ctx)

  abbrev pub setup : Call → Exec Contexts IdentityGenerationError (Unit {0})
  setup = expect_0 certificate_setup

  -- `psa_generate_key`, which stores the id.
  abbrev pub generate_key : Exec Contexts IdentityGenerationError (Unit {0})
  generate_key ctx =
      let call = psa_generate_key key_attributes in
      let rc = lib.reply ctx.calls call in
      let id = lib.generated_id ctx.calls in
      (
        if not (rc == 0) || id == 0 then err (key_generation rc) else ok tt,
        record { calls = call ∷ ctx.calls; key_id = id },
      )

  -- `psa_init`, the key, and the context that holds it.
  unfoldable pub make_key : Exec Contexts IdentityGenerationError (Unit {0})
  make_key = do
    expect_0 psa_init psa_crypto_init
    generate_key
    perform pk_init
    λ ctx. expect_0 key_setup (pk_copy_from_psa ctx.key_id) ctx

  abbrev pub draw_serial : Exec Contexts IdentityGenerationError (List ℕ)
  draw_serial ctx = (ok (serial_of (lib.random_bytes ctx.calls 16)), log_call (random 16) ctx)

  unfoldable pub fill_certificate : List ℕ → Exec Contexts IdentityGenerationError (Unit {0})
  fill_certificate subject = do
    perform crt_init
    setup (set_subject_name subject)
    setup (set_issuer_name subject)
    perform set_subject_key
    perform set_issuer_key
    serial ← draw_serial
    setup (set_serial_raw serial)
    setup (set_validity (codes "20260101000000") (codes "20991231235959"))
    perform set_md_sha256
    setup (set_basic_constraints 0 0xFFFFFFFF)

  -- The two texts, with buffers of 1024 and 2048 bytes.
  unfoldable pub encode_pair : Exec Contexts IdentityGenerationError GeneratedIdentity
  unfolding pem_string
  encode_pair = do
    key_buf ← λ ctx. (ok (lib.key_text ctx.calls), ctx)
    expect_0 key_encoding (write_key_pem 1024)
    cert_buf ← λ ctx. (ok (lib.crt_text ctx.calls), ctx)
    expect_0 certificate_encoding (write_crt_pem 2048)
    cert_pem ← lift (pem_string cert_buf)
    key_pem ← lift (pem_string key_buf)
    pure (record { cert_pem = cert_pem; key_pem = key_pem })

  unfoldable pub build_identity : List ℕ → Exec Contexts IdentityGenerationError GeneratedIdentity
  unfolding make_key fill_certificate encode_pair
  build_identity subject = do make_key; fill_certificate subject; encode_pair

  abbrev pub with_contexts : List ℕ → Exec (List Call) IdentityGenerationError GeneratedIdentity
  with_contexts subject calls =
      let (r, ctx) = build_identity subject (record { calls = calls; key_id = 0 }) in
      (r, dropped ctx)

  unfoldable pub generate_self_signed_identity :
      List ℕ → Exec (List Call) IdentityGenerationError GeneratedIdentity
  unfolding build_identity
  generate_self_signed_identity common_name = do
    subject ← or_fail (c_string (codes "CN=" ++ common_name)) invalid_name
    with_contexts subject
