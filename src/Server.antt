-- ===== src/Server.antt =====
-- What game/src/server/Server.cpp does to its tables of connections: `handleRoomPostEvent`,
-- `cleanupSock` and one event of `runRooms` and of `runBombs`. A socket stands for the connection and the player
-- that are stored under it, and `none` for undefined behaviour.
use boomberman.Room.Disconnect.Loop.{member}
use boomberman.Room.Handle.{handle_message}
use boomberman.Room.Explosion.{notify_explosion}
use boomberman.Room.Disconnect.{disconnect_players}
use boomberman.Message.{Message, Net}
use boomberman.Room.{mark, update_player, game_over, find_player, Room, GameState}
pub mod Lobby
pub mod Loop
pub mod Tables
pub mod Safe
pub mod Reach
pub mod Setup
pub mod Run
pub mod Entering
pub mod Laws
pub mod Tests
use boomberman.Base.{
  ◌||◌, none, some, false, ◌==◌, true, map, if◌then◌else◌, not, [], keep, Bool, ◌+◌, Option, String,
  ◌∷◌, List, ℕ,
}

-- The tables, by their keys. `room_assignments` gives the room of a socket by its name.
pub record Server : Type 0 where
  pub lobby_conns : List ℕ
  pub room_conns : List ℕ
  pub room_assignments : List (ℕ × String)

-- Erasure of a key.
unfoldable pub erase_key : ℕ → List ℕ → List ℕ
erase_key c keys = keep (λ k. not (k == c)) keys

unfoldable pub erase_assignment : ℕ → List (ℕ × String) → List (ℕ × String)
erase_assignment c rows = keep (λ row. not (row.0 == c)) rows

-- The erasure of the first element that fits, with the `break` that follows it.
unfoldable pub erase_first : ℕ → List ℕ → List ℕ
erase_first c [] = []
erase_first c (k ∷ keys) = if k == c then keys else k ∷ erase_first c keys

-- `cleanupSock`
unfoldable pub cleanup_sock : ℕ → Server → Server
cleanup_sock c s = record {
  lobby_conns = erase_first c s.lobby_conns;
  room_conns = erase_key c s.room_conns;
  room_assignments = erase_assignment c s.room_assignments;
}

-- The loop over the sockets of the players who were let go.
unfoldable pub erase_sockets : List ℕ → Server → Server
erase_sockets [] s = s
erase_sockets (c ∷ cs) s = erase_sockets cs (record s {
  room_conns = erase_key c s.room_conns;
  room_assignments = erase_assignment c s.room_assignments;
})

-- A room and the tables after an event, and the number of bomb timers started.
pub record Served : Type 0 where
  pub room : Room
  pub timers : ℕ
  pub server : Server

-- `handleRoomPostEvent`
unfoldable pub handle_room_post_event : Net → ℕ → Room → Server → Served
handle_room_post_event net now r s =
    let swept = disconnect_players net now r in
    record {
      room = swept.room;
      timers = swept.bombs_to_place;
      server = erase_sockets swept.sockets_to_delete s;
    }

-- A second `handleRoomPostEvent`, its timers counted with those started before.
unfoldable pub again : Net → ℕ → ℕ → Served → Served
again net now started v =
    let w = handle_room_post_event net now v.room v.server in
    record w { timers = started + v.timers + w.timers }

abbrev pub is_over : GameState → Bool
is_over game_over = true
is_over _ = false

abbrev pub keys : List (ℕ × String) → List ℕ
keys rows = map (λ row. row.0) rows

-- One event of `runRooms`, for the player on a socket: the message that `Receive` returned, if any, is handled. The
-- assignment of the player is read again after the first clean-up, which may have erased it. The loop over
-- further messages runs only for a player without a connection, so never.
unfoldable pub serve_room : Net → ℕ → ℕ → Option Message → Room → Server → Option Served
serve_room net now c received r s = elim (find_player c r.players) [
  | none ↦ none
  | some p ↦
      if p.marked_for_disconnect || is_over r.state
      then some (record { room = r; timers = 0; server = s })
      else elim received [
        | none ↦ some (
            handle_room_post_event net now (record r { players = update_player c mark r.players })
              s)
        | some m ↦ elim (handle_message net now c m r) [
          | none ↦ none
          | some handled ↦
              let first = handle_room_post_event net now (handled.0) s in
              if member c (keys first.server.room_assignments)
              then some (again net now (if handled.1 then 1 else 0) first)
              else none
        ]
      ]
]

-- One event of `runBombs`, with the number that the explosion draws.
unfoldable pub serve_bomb : Net → ℕ → ℕ → ℕ → Room → Server → Option Served
serve_bomb net now time drawn r s = elim (notify_explosion net now time drawn r) [
  | none ↦ none
  | some r' ↦ some (handle_room_post_event net now r' s)
]
