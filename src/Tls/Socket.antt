-- ===== src/Tls/Socket.antt =====
-- services/tls/src/lib.rs, `picoserve_adapter`: a session behind a lock, as the two halves of a
-- socket. The session of `mbedtls_rs` is a record of operations over its state `S`; an operation
-- that waits, for the lock too, is one step. The halves share the session, so the state is one.
pub mod Written
use espbewi.Common.{ℕ, List}
use espbewi.Common.Result.{Result, ok, err}
use espbewi.Common.Exec.{Exec, pure, ◌>>=◌, ◌>>◌}

pub record SessionApi (S E : Type 0) : Type 0 where
  pub session_read : ℕ → Exec S E (List ℕ)
  pub session_write : List ℕ → Exec S E ℕ
  pub session_flush : Exec S E (Unit {0})
  pub session_close : Exec S E (Unit {0})
  pub stream_abort : S → S
  pub stream_close : S → S

-- The buffer of `write_with`.
abbrev pub buffer_size : ℕ
buffer_size = 1024

module _ {S E : Type 0} (api : SessionApi S E) where
  -- The bytes read are at most as many as the length of the caller's buffer.
  abbrev pub read : ℕ → Exec S E (List ℕ)
  read len = api.session_read len

  abbrev pub write : List ℕ → Exec S E ℕ
  write buf = api.session_write buf

  abbrev pub flush : Exec S E (Unit {0})
  flush = api.session_flush

  -- `f` is given a cursor over a buffer of so many bytes; the bytes that it fills come back beside
  -- its output.
  unfoldable pub write_with : {R : Type 0} → (ℕ → List ℕ × R) → Exec S E R
  write_with f = let (filled, output) = f buffer_size in do api.session_write filled; pure output

  abbrev pub abort : Exec S E (Unit {0})
  abort s = (ok tt, api.stream_abort s)

  -- The answer of `close` is dropped.
  unfoldable pub shutdown : Exec S E (Unit {0})
  shutdown s = let (closed, s') = api.session_close s in (ok tt, api.stream_close s')
