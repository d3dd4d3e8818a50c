-- ===== src/Connection/Setup.antt =====
-- The constructor of `Connection` in game/src/shared/msg/Connection.cpp.
use boomberman.Base.{refl, ◌/◌, ◌+◌, ◌≡◌, ℕ, ℤ, pos, negsuc, ◌%◌, ◌*◌}

-- `CONN_TIMEOUT_MILLIS`
abbrev pub timeout_millis : ℕ
timeout_millis = 1500

-- `struct timeval`
pub record Timeval : Type 0 where
  pub seconds : ℕ
  pub micros : ℕ

unfoldable pub conn_timeout : Timeval
conn_timeout = record { seconds = timeout_millis % 1000; micros = 1000 * (timeout_millis % 1000) }

-- How the constructor ends: with the socket and its time-out for reads and writes, or in one of two exceptions.
pub data Connected : Type 0 where
  connected : ℕ → Timeval → Connected
  unset_read unset_write : Connected

-- The answers of the two calls of `setsockopt` are arguments.
unfoldable pub new_connection : ℕ → ℤ → ℤ → Connected
unfolding conn_timeout
new_connection sock (negsuc n) on_write = unset_read
new_connection sock (pos n) (negsuc k) = unset_write
new_connection sock (pos n) (pos k) = connected sock conn_timeout

-- A time-out in milliseconds.
abbrev pub in_millis : Timeval → ℕ
in_millis t = t.seconds * 1000 + t.micros / 1000

-- The time-out is 500 seconds and a half, not the second and a half of its constant.
conn_timeout-in_millis : in_millis conn_timeout ≡ 500500
unfolding conn_timeout
conn_timeout-in_millis = refl
