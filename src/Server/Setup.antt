-- ===== src/Server/Setup.antt =====
-- `Server::Server` and `Server::Cleanup` of game/src/server/Server.cpp: the calls of the operating system, with what is
-- opened and closed on each way out. The options of a call that are constants in the source are left out.
pub mod Laws
pub mod Cleanup
mod Tests
use boomberman.Room.{conns, Room}
use boomberman.Base.{none, some, String, ◌∷◌, Option, [], List, ℕ}

-- The calls that may fail. Those that return no descriptor return 0.
pub data Call : Type 0 where
  socket epoll_create sigprocmask signalfd : Call
  setsockopt listen : ℕ → Call
  bind : ℕ → ℕ → Call
  epoll_add : ℕ → ℕ → Call

-- What has happened: a call with its answer, nothing for -1; a `close`, nothing for that of -1; and the
-- shutdown of a connection.
pub data OsEvent : Type 0 where
  called : Call → Option ℕ → OsEvent
  closes : Option ℕ → OsEvent
  shuts : ℕ → OsEvent

-- What a call returns, given what has happened before, the newest first.
abbrev pub Os : Type 0
Os = List OsEvent → Call → Option ℕ

-- The end of a computation: its result, or the text of the exception, and what has happened.
pub data Outcome {ℓ} (A : Type ℓ) : Type ℓ where
  returns : A → List OsEvent → Outcome A
  throws : String → List OsEvent → Outcome A

abbrev pub Setup {ℓ} : Type ℓ → Type ℓ
Setup A = List OsEvent → Outcome A

unfoldable pub bind_setup {ℓ κ} : {A : Type ℓ} {B : Type κ} → Setup A → (A → Setup B) → Setup B
bind_setup m k log = elim (m log) [ returns a log' ↦ k a log' | throws e log' ↦ throws e log' ]

infixr 20 ◌>>=◌
abbrev ◌>>=◌ {ℓ κ} : {A : Type ℓ} {B : Type κ} → Setup A → (A → Setup B) → Setup B
m >>= k = bind_setup m k

unfoldable pub close_all : List (Option ℕ) → List OsEvent → List OsEvent
close_all [] log = log
close_all (fd ∷ fds) log = close_all fds (closes fd ∷ log)

-- A call; if it fails, the descriptors given are closed and the exception is thrown.
unfoldable pub ask : Os → Call → List (Option ℕ) → String → Setup ℕ
ask os call fds error log = elim (os log call) [
  | none ↦ throws error (close_all fds (called call none ∷ log))
  | some fd ↦ returns fd (called call (some fd) ∷ log)
]

pub record Sockets : Type 0 where
  pub srv_sock : ℕ
  pub lobby_epoll_sock : ℕ
  pub sig_sock : ℕ
  pub room_epoll_sock : ℕ
  pub bomb_epoll_sock : ℕ

-- `Server::Server`
unfoldable pub new_server : Os → ℕ → Setup Sockets
new_server os port = do
  srv ← ask os socket [] "socket creation failed"
  _ ← ask os (setsockopt srv) (some srv ∷ []) "setting socket options failed"
  _ ← ask os (bind srv port) (some srv ∷ []) "bind failed"
  _ ← ask os (listen srv) (some srv ∷ []) "listen failed"
  lobby ← ask os epoll_create (some srv ∷ none ∷ []) "epoll creation failed"
  _ ← ask os sigprocmask [] "sigprocmask failed"
  sig ← ask os signalfd [] "signalfd failed"
  _ ← ask os (epoll_add lobby sig) (some srv ∷ some lobby ∷ some sig ∷ []) "epoll control failed"
  _ ← ask os (epoll_add lobby srv) (some srv ∷ some lobby ∷ some sig ∷ []) "epoll control failed"
  room ← ask os epoll_create (some srv ∷ some lobby ∷ some sig ∷ []) "epoll creation failed"
  _ ←
      ask os (epoll_add room sig) (some srv ∷ some room ∷ some lobby ∷ some sig ∷ [])
        "epoll control failed"
  bomb ←
      ask os epoll_create (some srv ∷ none ∷ some room ∷ some lobby ∷ some sig ∷ [])
        "epoll creation failed"
  _ ←
      ask os (epoll_add bomb sig) (some srv ∷ some bomb ∷ some room ∷ some lobby ∷ some sig ∷ [])
        "epoll control failed"
  returns (record {
    srv_sock = srv;
    lobby_epoll_sock = lobby;
    sig_sock = sig;
    room_epoll_sock = room;
    bomb_epoll_sock = bomb;
  })

-- The loop of `Cleanup` over the players of a room, by their sockets.
unfoldable pub shut_players : List ℕ → List OsEvent → List OsEvent
shut_players [] log = log
shut_players (c ∷ cs) log = shut_players cs (closes (some c) ∷ shuts c ∷ log)

unfoldable pub shut_rooms : List (String × Room) → List OsEvent → List OsEvent
shut_rooms [] log = log
shut_rooms (row ∷ rows) log = shut_rooms rows (shut_players (conns ((row.1).players)) log)

-- `Server::Cleanup`
unfoldable pub cleanup : Sockets → List (String × Room) → List OsEvent → List OsEvent
cleanup s rows log =
    closes (some (s.srv_sock))
    ∷ shut_rooms rows (
        close_all
          (some (s.bomb_epoll_sock) ∷ some (s.lobby_epoll_sock) ∷ some (s.room_epoll_sock) ∷ [])
          log)
