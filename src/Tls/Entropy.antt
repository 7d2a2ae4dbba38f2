-- ===== src/Tls/Entropy.antt =====
-- services/tls/src/lib.rs: the adapters that mbedTLS calls, for random bytes and for the time. The
-- hardware generator and the clock are operations over the state `S` of the device.
use espbewi.Common.{ℕ, Option, none, some, List}
use espbewi.Common.Bytes.{from_le_bytes}
use espbewi.Tls.{Tm, epoch_to_tm}

pub record Rng (S : Type 0) : Type 0 where
  pub random : S → ℕ × S
  -- As many bytes as the buffer has.
  pub read : ℕ → S → List ℕ × S

module _ {S : Type 0} (rng : Rng S) where
  abbrev pub try_next_u32 : S → ℕ × S
  try_next_u32 s = rng.random s

  abbrev pub try_next_u64 : S → ℕ × S
  try_next_u64 s = let (bytes, s') = rng.read 8 s in (from_le_bytes bytes, s')

  abbrev pub try_fill_bytes : ℕ → S → List ℕ × S
  try_fill_bytes len s = rng.read len s

  -- The code and the bytes for the buffer.
  abbrev pub mbedtls_rng : ℕ → S → (ℕ × List ℕ) × S
  mbedtls_rng len s = let (bytes, s') = rng.read len s in ((0, bytes), s')

abbrev pub date_of : Option ℕ → Option Tm
date_of none = none
date_of (some epoch) = epoch_to_tm epoch

-- `WallClock::instant`
abbrev pub instant : {S : Type 0} → (S → Option ℕ × S) → S → Option Tm × S
instant now s = let (epoch, s') = now s in (date_of epoch, s')
