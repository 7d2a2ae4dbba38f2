-- ===== src/Tls/Init.antt =====
-- services/tls/src/lib.rs: `init`, over the statics of the process. A `StaticCell` that holds a value
-- panics when it is filled again; a panic is an error here, and ends `init` where it is. The global
-- instance of `mbedtls_rs` is a parameter: `none` is the error that `expect` turns into a panic.
use espbewi.Common.{Bool, true, false, Option, none, some}
use espbewi.Common.Result.{ok}
use espbewi.Common.Exec.{Exec, fail_if, attempt, ◌>>=◌, ◌>>◌}

pub data Panic : Type 0 where
  cell_is_full tls_exists : Panic

-- The statics, and the hooks of mbedTLS: a clock `C` answers the time, `T` is the instance.
pub record Statics (C T : Type 0) : Type 0 where
  pub wall_clock : Option C
  pub rng : Bool
  pub tls : Option T
  pub timer_hook : Bool
  pub wall_clock_hook : Option C

abbrev pub is_full : {A : Type 0} → Option A → Bool
is_full none = false
is_full (some a) = true

module _ {C T : Type 0} (new_tls : Statics C T → Option T × Statics C T) where
  abbrev pub fill_wall_clock : C → Exec (Statics C T) Panic (Unit {0})
  fill_wall_clock now s =
      (fail_if (is_full s.wall_clock) cell_is_full >> λ s.
      (ok tt, record s { wall_clock = some now }))
        s

  -- Both hooks.
  abbrev pub install_hooks : C → Exec (Statics C T) Panic (Unit {0})
  install_hooks now s = (ok tt, record s { timer_hook = true; wall_clock_hook = some now })

  abbrev pub fill_rng : Exec (Statics C T) Panic (Unit {0})
  fill_rng s = (fail_if s.rng cell_is_full >> λ s. (ok tt, record s { rng = true })) s

  abbrev pub fill_tls : T → Exec (Statics C T) Panic T
  fill_tls tls s =
      (fail_if (is_full s.tls) cell_is_full >> λ s. (ok tls, record s { tls = some tls })) s

  unfoldable pub init : C → Exec (Statics C T) Panic T
  init now = do
    fill_wall_clock now
    install_hooks now
    fill_rng
    tls ← attempt new_tls tls_exists
    fill_tls tls
