-- ===== src/Bomb/Timer.antt =====
-- `Bomb::CreateBombTimerfd` of game/src/shared/game/Bomb.cpp: the timer of a bomb.
use boomberman.Base.{eq_ℤ, if◌then◌else◌, ℕ, ℤ, negsuc}

-- `FUSE_TIME_SEC`
abbrev pub fuse_time_sec : ℕ
fuse_time_sec = 3

-- A descriptor that becomes readable after some seconds, or one of two exceptions: when there is no timer, and when it
-- cannot be set, where the descriptor stays open.
pub data TimerFd : Type 0 where
  running : ℤ → ℕ → TimerFd
  uncreated : TimerFd
  unset : ℤ → TimerFd

-- The answers of `timerfd_create` and `timerfd_settime` are arguments.
unfoldable pub create_bomb_timerfd : ℤ → ℤ → TimerFd
create_bomb_timerfd timerfd on_set =
    if eq_ℤ timerfd (negsuc 0)
    then uncreated
    else (if eq_ℤ on_set (negsuc 0) then unset timerfd else running timerfd fuse_time_sec)
