-- ===== src/Room/Cycle.antt =====
-- What the server does with a message for a room: `Room::HandleMessage` and then
-- `Room::DisconnectPlayers`, as `Server::runRooms` and `Server::handleRoomPostEvent` call them.
use boomberman.Room.Handle.Guards.{handle_message_leave_waiting}
use boomberman.Room.Disconnect.Laws.{disconnect_players-Disconnects, disconnect_players-lone}
use boomberman.Room.Handle.Keeps.{handle_message-Handles}
use boomberman.Room.Disconnect.Loop.{member}
use boomberman.Room.Disconnect.{disconnect_players}
use boomberman.Room.Handle.{handle_message}
use boomberman.Room.Invariant.{IsWellFormed}
use boomberman.Message.{i_leave, Message, Net}
use boomberman.Room.{mark, game_over, wait_for_start, Player, Room, find_player}
use boomberman.Base.{
  ℕ, ◌≤◌, ◌≡◌, refl, sym, ap, ◌∙◌, Bool, true, false, some, List, [], ◌∷◌, arith, ==_refl, length,
  length-map,
}

-- A leave before the game starts costs the newest player his place, whoever sent it.
pub leave_waiting :
    (net : Net) (now author : ℕ) (r : Room) (newest : Player) (others : List Player)
    → IsWellFormed r
    → r.state ≡ wait_for_start
    → r.players ≡ newest ∷ others
    → (r' : Room) × (handle_message net now author i_leave r ≡ some (r', false))
      × (member newest.conn (disconnect_players net now r').sockets_to_delete ≡ true)
unfolding find_player
leave_waiting net now author r newest others w waits e =
    let r' : Room = record r { players = mark newest ∷ others } in
    let done = handle_message_leave_waiting net now author r newest others waits e in
    let h = handle_message-Handles net now author i_leave r r' false w done in
    let d = disconnect_players-Disconnects net now r' h.well_formed in
    (r', done, d.taken newest.conn (mark newest) (rw (==_refl newest.conn, find_player)) refl)

-- A player alone in a room, also in one that still waits for others, ends it with any message that is handled:
-- after the clean-up that follows, the room is empty and its game over.
pub lone_player :
    (net : Net) (now author : ℕ) (m : Message) (r r' : Room) (b : Bool)
    → IsWellFormed r
    → length r.players ≤ 1
    → handle_message net now author m r ≡ some (r', b)
    → ((disconnect_players net now r').room.players ≡ [])
      × ((disconnect_players net now r').room.state ≡ game_over)
lone_player net now author m r r' b w few e =
    let h = handle_message-Handles net now author m r r' b w e in
    let same : length r'.players ≡ length r.players =
      sym (length-map _ r'.players) ∙ ap length h.conns_same ∙ length-map _ r.players in
    disconnect_players-lone net now r' h.well_formed (omega (arith, same))
