-- ===== src/Room/Disconnect.antt =====
-- `Room::DisconnectPlayers` of game/src/server/Room.cpp.
pub mod Loop
pub mod Erase
pub mod Laws
pub mod Sockets
use boomberman.Base.{ℕ, ◌+◌, true, not, ◌&&◌, none, some, List, [], ◌∷◌, ◌++◌, ◌==◌, if◌then◌else◌}
use boomberman.Bomb.{new_bomb}
use boomberman.Player.{Player}
use boomberman.Message.{Net, closed, of_int, other_leave, other_bomb_place, game_won}
use boomberman.Room.{Room, game_over, is_play, find_player, conns, send_except, send_broadcast}

-- The room with the local variables of the method.
pub record Sweep : Type 0 where
  pub room : Room
  pub bombs_to_place : ℕ
  pub sockets_to_delete : List ℕ

abbrev pub close_socket : ℕ → Room → Room
close_socket c r = record r { log = closed c ∷ r.log }

-- The bomb that a player leaves behind who quits a game alive.
unfoldable pub drop_bomb : Net → ℕ → Player → Room → Room
drop_bomb net now p r =
    let bomb = new_bomb p.coords.x p.coords.y 9 25 now 3 true in
    send_except net p.conn (other_bomb_place "Server" now (of_int p.coords.x) (of_int p.coords.y))
      (record r { bombs = r.bombs ++ bomb ∷ [] })

-- What the loop does with a player who is marked.
unfoldable pub let_go : Net → ℕ → Player → Sweep → Sweep
let_go net now p s =
    let r = close_socket p.conn (send_except net p.conn (other_leave p.username) s.room) in
    let sockets = s.sockets_to_delete ++ p.conn ∷ [] in
    if is_play r.state && not (p.lives_remaining == 0)
    then record {
      room = drop_bomb net now p r;
      bombs_to_place = s.bombs_to_place + 1;
      sockets_to_delete = sockets;
    }
    else record s { room = r; sockets_to_delete = sockets }

unfoldable pub visit : Net → ℕ → ℕ → Sweep → Sweep
visit net now c s = elim (find_player c s.room.players) [
  | none ↦ s
  | some p ↦ if p.marked_for_disconnect then let_go net now p s else s
]

-- The loop over the players, in their order; a failed send may mark players that are still to come.
unfoldable pub sweep : Net → ℕ → List ℕ → Sweep → Sweep
sweep net now [] s = s
sweep net now (c ∷ cs) s = sweep net now cs (visit net now c s)

-- The erasure of one player, the first whose pointer fits.
unfoldable pub erase_player : ℕ → List Player → List Player
erase_player c [] = []
erase_player c (p ∷ ps) = if p.conn == c then ps else p ∷ erase_player c ps

unfoldable pub erase_players : List ℕ → List Player → List Player
erase_players [] ps = ps
erase_players (c ∷ cs) ps = erase_players cs (erase_player c ps)

-- A lone player wins and is let go, too.
unfoldable pub crown : Net → Player → Sweep → Sweep
crown net p s =
    let r = close_socket p.conn (send_broadcast net (game_won p.username) s.room) in
    record s {
      room = record r { players = []; state = game_over };
      sockets_to_delete = s.sockets_to_delete ++ p.conn ∷ [];
    }

-- The `switch` on the number of players left.
unfoldable pub finish : Net → List Player → Sweep → Sweep
finish net [] s = record s { room = record (s.room) { state = game_over } }
finish net (p ∷ []) s = crown net p s
finish net (p ∷ q ∷ ps) s = s

-- `Room::DisconnectPlayers`; the players to destroy are those of the sockets to delete.
unfoldable pub disconnect_players : Net → ℕ → Room → Sweep
disconnect_players net now r =
    let s =
      sweep net now (conns r.players)
        (record { room = r; bombs_to_place = 0; sockets_to_delete = [] }) in
    let left = erase_players s.sockets_to_delete s.room.players in
    finish net left (record s { room = record (s.room) { players = left } })
