-- ===== src/Server/Setup/Tests.antt =====
-- The theorems about the descriptors of the server, with descriptors counted up from 3.
use boomberman.Room.Tests.{alone}
use boomberman.Server.Setup.Cleanup.{cleanup-Closes, Closes}
use boomberman.Server.Setup.{
  throws, returns, cleanup, ask, OsEvent, bind_setup, Os, new_server, Sockets, Outcome,
}
use boomberman.Base.{refl, length, ◌≡◌, ◌+◌, ◌∷◌, some, List, []}

-- Every call succeeds.
abbrev kind : Os
kind log call = some (3 + length log)

abbrev kind_sockets : Sockets
kind_sockets = record {
  srv_sock = 3;
  lobby_epoll_sock = 7;
  sig_sock = 9;
  room_epoll_sock = 12;
  bomb_epoll_sock = 14;
}

abbrev log_of : Outcome Sockets → List OsEvent
log_of (returns s log) = log
log_of (throws e log) = log

kind_returns : new_server kind 2137 [] ≡ returns kind_sockets (log_of (new_server kind 2137 []))
unfolding new_server bind_setup ask
kind_returns = refl

-- Ann waits in a room.
cleanup-Closes_example :
    Closes kind_sockets
      (("den", alone) ∷ [])
      (cleanup kind_sockets (("den", alone) ∷ []) (log_of (new_server kind 2137 [])))
cleanup-Closes_example = cleanup-Closes kind 2137 kind_sockets (("den", alone) ∷ []) _ kind_returns
