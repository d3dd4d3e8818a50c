-- ===== src/Room/Handle.antt =====
-- `Room::HandleMessage` of game/src/server/Room.cpp. Its result pairs the room with the answer
-- whether a bomb timer is wanted; `none` is undefined behaviour: a square outside the board, the
-- first player of an empty room, or an author who is no player of the room.
pub mod Laws
pub mod Move
pub mod Keeps
pub mod Guards
use boomberman.Base.{
  ℕ, Bool, true, false, not, ◌&&◌, Option, none, some, List, [], ◌∷◌, ◌++◌, ◌==◌, if◌then◌else◌,
}
use boomberman.Map.{get_square_state}
use boomberman.Bomb.{new_bomb}
use boomberman.Player.{Player, Coords, move_check_sus}
use boomberman.Message.{
  Message, Float, of_int, Net, error, i_place_bomb, i_move, i_leave, other_bomb_place, other_move,
  movement_correction,
}
use boomberman.Room.{Room, find_player, update_player, mark, send_specific, send_except}
use boomberman.Room.Join.{is_waiting}

abbrev pub is_leave : Message → Bool
is_leave i_leave = true
is_leave _ = false

abbrev pub mark_first : List Player → Option (List Player)
mark_first [] = none
mark_first (p ∷ ps) = some (mark p ∷ ps)

-- The branch before the game has started.
unfoldable pub handle_waiting : Net → ℕ → Message → Room → Option (Room × Bool)
handle_waiting net author m r =
    if not (is_leave m)
    then some (send_specific net author (error "Game hasn't started yet") r, false)
    else elim (mark_first r.players) [
      | none ↦ none
      | some ps ↦ some (record r { players = ps }, false)
    ]

-- The case `I_PLACE_BOMB`.
unfoldable pub handle_place_bomb : Net → ℕ → Player → Float → Float → Room → Room
handle_place_bomb net now p x y r =
    let bomb = new_bomb x.whole y.whole 3 25 now 3 false in
    send_except net p.conn (other_bomb_place p.username now x y)
      (record r { bombs = r.bombs ++ bomb ∷ [] })

abbrev pub correct : Net → ℕ → Coords → Room → Room
correct net c k r = send_specific net c (movement_correction (of_int k.x) (of_int k.y)) r

-- The case `I_MOVE`.
unfoldable pub handle_move : Net → ℕ → Player → Float → Float → Room → Option Room
handle_move net now p x y r = elim (get_square_state r.map x.whole y.whole) [
  | none ↦ none
  | some tile_state ↦
      if not (tile_state == 0)
      then some (correct net p.conn p.coords r)
      else elim (move_check_sus now x.whole y.whole p) [
        | none ↦ none
        | some (q, some k) ↦
            some (
              correct net p.conn k (record r { players = update_player p.conn (λ _. q) r.players }))
        | some (q, none) ↦ some (
            send_except net p.conn (other_move p.username (of_int x.whole) (of_int y.whole))
              (record r { players = update_player p.conn (λ _. q) r.players }))
      ]
]

abbrev pub quiet : Option Room → Option (Room × Bool)
quiet none = none
quiet (some r) = some (r, false)

-- The `switch` on the type of the message.
unfoldable pub handle_playing : Net → ℕ → Player → Message → Room → Option (Room × Bool)
handle_playing net now p (i_place_bomb x y) r = some (handle_place_bomb net now p x y r, true)
handle_playing net now p (i_move x y) r = quiet (handle_move net now p x y r)
handle_playing net now p i_leave r =
    some (record r { players = update_player p.conn mark r.players }, false)
handle_playing net now p _ r = some (send_specific net p.conn (error "Unexpected message") r, false)

-- `Room::HandleMessage`, for the author with this socket.
unfoldable pub handle_message : Net → ℕ → ℕ → Message → Room → Option (Room × Bool)
handle_message net now author m r =
    if is_waiting r.state
    then handle_waiting net author m r
    else elim (find_player author r.players) [
      | none ↦ none
      | some p ↦
          if (p.lives_remaining == 0) && not (is_leave m)
          then some (
            send_specific net author (error "You can't really do anything while dead, can you?") r,
            false,
          )
          else handle_playing net now p m r
    ]
