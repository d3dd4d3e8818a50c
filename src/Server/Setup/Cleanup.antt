-- ===== src/Server/Setup/Cleanup.antt =====
-- What is closed after `Server::Cleanup`.
use boomberman.Room.Disconnect.Loop.{member-append, member}
use boomberman.Server.Setup.Laws.{new_server-Ends, Ends, closed_fds, opened}
use boomberman.Server.Setup.{
  shuts, returns, closes, new_server, conns, Os, OsEvent, Room, close_all, Sockets, cleanup,
  shut_rooms, shut_players,
}
use boomberman.Base.{refl, ap, ◌∙◌, some, subst, arith, [], ◌++◌, ◌||◌, ◌≡◌, ◌∷◌, String, List, ℕ}

-- The sockets of the players of all rooms.
unfoldable pub room_sockets : List (String × Room) → List ℕ
room_sockets [] = []
room_sockets (row ∷ rows) = conns ((row.1).players) ++ room_sockets rows

shut_players-fds :
    (cs : List ℕ) (log : List OsEvent)
    → ((fd : ℕ)
        → member fd (closed_fds (shut_players cs log))
          ≡ (member fd cs || member fd (closed_fds log)))
      × (opened (shut_players cs log) ≡ opened log)
unfolding shut_players opened closed_fds
shut_players-fds [] log = (λ fd. refl, refl)
shut_players-fds (c ∷ cs) log =
    let rest = shut_players-fds cs (closes (some c) ∷ shuts c ∷ log) in
    (λ fd. ground (arith, rest.0 fd), rest.1)

shut_rooms-fds :
    (rows : List (String × Room)) (log : List OsEvent)
    → ((fd : ℕ)
        → member fd (closed_fds (shut_rooms rows log))
          ≡ (member fd (room_sockets rows) || member fd (closed_fds log)))
      × (opened (shut_rooms rows log) ≡ opened log)
unfolding shut_rooms room_sockets
shut_rooms-fds [] log = (λ fd. refl, refl)
shut_rooms-fds (row ∷ rows) log =
    let cs = conns ((row.1).players) in
    let first = shut_players-fds cs log in
    let rest = shut_rooms-fds rows (shut_players cs log) in
    (
      λ fd. ground (arith, rest.0 fd, first.0 fd, member-append fd cs (room_sockets rows)),
      rest.1 ∙ first.1,
    )

-- Which descriptors have been opened and closed at the end.
pub record Closes (s : Sockets) (rows : List (String × Room)) (log : List OsEvent) : Type 0 where
  pub opened_are :
      opened log
      ≡ s.bomb_epoll_sock ∷ s.room_epoll_sock ∷ s.sig_sock ∷ s.lobby_epoll_sock ∷ s.srv_sock ∷ []
  pub closed_are :
      (fd : ℕ)
      → member fd (closed_fds log) ≡ (
          member fd (s.srv_sock ∷ s.room_epoll_sock ∷ s.lobby_epoll_sock ∷ s.bomb_epoll_sock ∷ [])
          || member fd (room_sockets rows))

-- After a server has been constructed, and cleaned up with any rooms, it has opened its five descriptors, and closed
-- just its socket, its three epolls and the sockets of the players in the rooms: not the descriptor of `signalfd`, unless
-- its number is among these.
pub cleanup-Closes :
    (os : Os) (port : ℕ) (s : Sockets) (rows : List (String × Room)) (log : List OsEvent)
    → new_server os port [] ≡ returns s log
    → Closes s rows (cleanup s rows log)
unfolding cleanup close_all opened closed_fds Ends
cleanup-Closes os port s rows log e =
    let (o, c) = subst Ends e (new_server-Ends os port) in
    let k = shut_rooms-fds rows (
      closes (some (s.room_epoll_sock))
      ∷ closes (some (s.lobby_epoll_sock))
      ∷ closes (some (s.bomb_epoll_sock))
      ∷ log) in
    record { opened_are = k.1 ∙ o; closed_are = λ fd. ground (arith, k.0 fd, ap (member fd) c) }
