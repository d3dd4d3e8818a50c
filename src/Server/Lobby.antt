-- ===== src/Server/Lobby.antt =====
-- `handleLobbyMessage` of game/src/server/Server.cpp: messages of clients who are in no room yet.
use text.Mathlib.Text.{◌==◌ as str_eq}
use boomberman.Room.Join.{thrown, refused, joined, join_player, can_join}
use boomberman.Room.{new_room, max_players, is_game_over, player_count}
use boomberman.Message.{get_room_list, error, join_room, Net, RoomInfo, room_list, Message}
use boomberman.Server.{erase_assignment, erase_key, member, cleanup_sock, Room, Server}
use boomberman.Base.{
  str_append, [], ℤ, ◌&&◌, ◌==◌, if◌then◌else◌, none, some, not, none, keep, ◌∷◌, Option, List,
  String, Bool, ℕ,
}

-- The tables of connections, and the rooms by their names.
pub record Lobby : Type 0 where
  pub server : Server
  pub rooms : List (String × Room)

-- How a lobby message ends: with a reply to its sender, or none when he is in a room now; in undefined behaviour; or
-- with an exception that nothing catches, of `Player::Player` or of `Connection::send`.
pub data Reply : Type 0 where
  replied : Message → Lobby → Reply
  entered : Lobby → Reply
  undefined failed : Reply

unfoldable pub find_room : String → List (String × Room) → Option Room
find_room name [] = none
find_room name (row ∷ rows) = if str_eq row.0 name then some (row.1) else find_room name rows

-- `rooms[name] = room`
unfoldable pub put_room : String → Room → List (String × Room) → List (String × Room)
put_room name r [] = (name, r) ∷ []
put_room name r (row ∷ rows) =
    if str_eq row.0 name then (name, r) ∷ rows else row ∷ put_room name r rows

-- The rooms that a client is told of: all that are not full.
unfoldable pub open_rooms : List (String × Room) → List RoomInfo
open_rooms [] = []
open_rooms (row ∷ rows) =
    let n = player_count (row.1) in
    let rest = open_rooms rows in
    if n == max_players
    then rest
    else record { name = row.0; players = n; max_players = max_players } ∷ rest

-- The rooms whose game is not over.
unfoldable pub running_rooms : List (String × Room) → List (String × Room)
running_rooms rows = keep (λ row. not (is_game_over (row.1))) rows

-- A reply, and the clean-up where it cannot be sent. A message that is too long is an exception.
unfoldable pub reply : Net → Bool → ℕ → Message → Lobby → Reply
reply net sends c m l =
    if net.fits m
    then replied m (if sends then l else record l { server = cleanup_sock c l.server })
    else failed

-- `Server::handleLobbyMessage`, GET_ROOM_LIST
unfoldable pub handle_get_room_list : Net → Bool → ℕ → Lobby → Reply
handle_get_room_list net sends c l =
    reply net sends c (room_list (open_rooms l.rooms)) (record l { rooms = running_rooms l.rooms })

-- The erasure of the last element that fits: the loop that looks for its index has no `break`.
unfoldable pub erase_last : ℕ → List ℕ → List ℕ
erase_last c [] = []
erase_last c (k ∷ keys) =
    let rest = erase_last c keys in if k == c && not (member c keys) then keys else k ∷ rest

-- The part behind the check that the client can join: his connection goes from the lobby to the rooms.
unfoldable pub enter : Net → ℕ → ℤ → ℕ → String → String → Room → Lobby → Reply
enter net now step c username name r l =
    let s = record (l.server) {
      lobby_conns = erase_last c l.server.lobby_conns;
      room_conns = c ∷ erase_key c l.server.room_conns;
    } in
    if not (member c l.server.lobby_conns)
    then undefined
    else elim (join_player net now step c username r) [
      | thrown ↦ failed
      | refused ↦
          if net.fits (error "Cannot join room")
          then replied (error "Cannot join room")
              (record l { server = record s { room_conns = erase_key c s.room_conns } })
          else failed
      | joined r' ↦ entered (record {
        server = record s { room_assignments = (c, name) ∷ erase_assignment c s.room_assignments };
        rooms = put_room name r' l.rooms;
      })
    ]

-- The check before, and the reply to who cannot join.
unfoldable pub try_join : Net → ℕ → ℤ → Bool → ℕ → String → String → Room → Lobby → Reply
try_join net now step sends c username name r l = elim (can_join username r) [
  | none ↦ enter net now step c username name r l
  | some reason ↦ reply net sends c (error (str_append "Cannot join room, reason: " reason)) l
]

-- `Server::handleLobbyMessage`, JOIN_ROOM, with the random name for a new room.
unfoldable pub handle_join_room :
    Net → ℕ → ℤ → String → Bool → ℕ → String → Option String → Lobby → Reply
handle_join_room net now step new_name sends c username none l =
    try_join net now step sends c username new_name new_room
      (record l { rooms = put_room new_name new_room l.rooms })
handle_join_room net now step new_name sends c username (some name) l =
    elim (find_room name l.rooms) [
      | none ↦ reply net sends c (error "There is no room with that name man") l
      | some r ↦ try_join net now step sends c username name r l
    ]

-- `Server::handleLobbyMessage`, by the type of the message.
unfoldable pub handle_lobby_message : Net → ℕ → ℤ → String → Bool → ℕ → Message → Lobby → Reply
handle_lobby_message net now step new_name sends c get_room_list l =
    handle_get_room_list net sends c l
handle_lobby_message net now step new_name sends c (join_room username name) l =
    handle_join_room net now step new_name sends c username name l
handle_lobby_message net now step new_name sends c _ l =
    reply net sends c (error "Unexpected message") l
