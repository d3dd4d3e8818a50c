-- ===== src/Server/Loop.antt =====
-- One event of `runLobby` of game/src/server/Server.cpp: a connection accepted, or a client in the lobby who has
-- sent something.
use boomberman.Server.Lobby.{
  failed, undefined, erase_last, entered, replied, handle_lobby_message, Lobby, Reply,
}
use boomberman.Message.{Net, Message}
use boomberman.Server.{erase_assignment, erase_key, keys, member, cleanup_sock, Server}
use boomberman.Base.{
  ◌>>=◌, ◌++◌, [], ◌==◌, ◌∷◌, none, if◌then◌else◌, ◌||◌, some, Option, String, Bool, ℤ, List, ℕ,
}

unfoldable pub find_assignment : ℕ → List (ℕ × String) → Option String
find_assignment c [] = none
find_assignment c (row ∷ rows) = if row.0 == c then some (row.1) else find_assignment c rows

-- The tables once `accept` has returned a socket: what is left of an earlier connection on it is erased.
unfoldable pub accept_conn : ℕ → Server → Server
accept_conn c s =
    let stale = member c s.room_conns || member c (keys s.room_assignments) in
    record {
      lobby_conns = erase_last c s.lobby_conns ++ c ∷ [];
      room_conns = if stale then erase_key c s.room_conns else s.room_conns;
      room_assignments =
          if stale then erase_assignment c s.room_assignments else s.room_assignments;
    }

-- Whether a connection object is there: both tables own theirs.
unfoldable pub is_live : ℕ → Server → Bool
is_live c s = member c s.lobby_conns || member c s.room_conns

-- A message that `Receive` returned, with what the handling of it gets from outside: the name that would be
-- drawn for a new room, and whether a reply can be sent.
pub record Incoming : Type 0 where
  pub message : Message
  pub new_name : String
  pub sends : Bool

-- The state after a lobby message, if the server still runs and has not been undefined.
unfoldable pub after_reply : Reply → Option Lobby
after_reply (replied m l) = some l
after_reply (entered l) = some l
after_reply undefined = none
after_reply failed = none

unfoldable pub handle_incoming : Net → ℕ → ℤ → ℕ → Incoming → Lobby → Option Lobby
handle_incoming net now step c i l =
    after_reply (handle_lobby_message net now step i.new_name i.sends c i.message l)

-- A connection that is closed, since it cannot be received from.
unfoldable pub drop_conn : ℕ → Lobby → Lobby
drop_conn c l = record l { server = cleanup_sock c l.server }

-- The loop over the messages that are in the buffer already. `HasMoreMessages` is undefined on a connection
-- that is not there any more, so also after the clean-up in the loop.
unfoldable pub handle_more : Net → ℕ → ℤ → ℕ → List (Option Incoming) → Lobby → Option Lobby
handle_more net now step c [] l = if is_live c l.server then some l else none
handle_more net now step c (none ∷ more) l = none
handle_more net now step c (some i ∷ more) l =
    if is_live c l.server
    then (do l' ← handle_incoming net now step c i l; handle_more net now step c more l')
    else none

-- An event of a client.
unfoldable pub serve_lobby :
    Net → ℕ → ℤ → ℕ → Option Incoming → List (Option Incoming) → Lobby → Option Lobby
serve_lobby net now step c none more l = some (drop_conn c l)
serve_lobby net now step c (some i) more l = do
  l' ← handle_incoming net now step c i l
  handle_more net now step c more l'
