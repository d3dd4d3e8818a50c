-- ===== src/Room/Join.antt =====
-- `Room::CanJoin` and `Room::JoinPlayer` of game/src/server/Room.cpp.
pub mod Laws
use boomberman.Base.{
  not, keep, ℕ, ◌+◌, String, Bool, true, false, ◌||◌, Option, none, some, List, [], ◌∷◌, map, ℤ,
  ◌==◌, if◌then◌else◌, length,
}
use text.Mathlib.Text.{◌==◌ as str_eq}
use boomberman.Player.{Player, new_player}
use boomberman.Message.{Message, PlayerInfo, Net, welcome_to_room, game_join, game_start}
use boomberman.Room.{
  conns, Room, max_players, wait_for_start, play, GameState, send_specific, send_except,
  send_broadcast,
}

unfoldable pub has_username : String → List Player → Bool
has_username u [] = false
has_username u (p ∷ ps) = str_eq p.username u || has_username u ps

-- `Room::CanJoin`: the reason for a rejection, if there is one.
unfoldable pub can_join : String → Room → Option String
can_join username r =
    if str_eq username ""
    then some "Empty username"
    else (if has_username username r.players
        then some "There already is a nick like that"
        else (if r.client_count == max_players then some "Room is full" else none))

-- How `Room::JoinPlayer` ends: the null pointer, an exception, of `Player::Player` or of `Connection::send` for a message
-- that is too long, or the pointer to `players[0]` in the new room.
pub data Joining : Type 0 where
  refused thrown : Joining
  joined : Room → Joining

abbrev pub is_waiting : GameState → Bool
is_waiting wait_for_start = true
is_waiting _ = false

abbrev pub info : Player → PlayerInfo
info p = record { username = p.username; color = p.color }

-- The start of a room that is full.
unfoldable pub start_game : Net → Room → Room
start_game net r =
    if r.client_count == max_players
    then send_broadcast net game_start (record r { state = play })
    else r

-- Whether `Connection::send` throws at a message to some sockets: it does if there are any and the message is too long.
abbrev pub too_long : Net → List ℕ → Message → Bool
too_long net [] m = false
too_long net (c ∷ cs) m = not (net.fits m)

-- `JoinPlayer` behind the insertion of the player: the messages, and the start. `none` is the exception of
-- `Connection::send`, which nothing catches.
unfoldable pub announce : Net → Player → Room → Option Room
announce net p r =
    let welcome = welcome_to_room (map info r.players) in
    let others = keep (λ d. not (d == p.conn)) (conns r.players) in
    if not (net.fits welcome) || too_long net others (game_join (info p))
    then none
    else some (
        start_game net
          (send_except net p.conn (game_join (info p)) (send_specific net p.conn welcome r)))

-- `Room::JoinPlayer`; the color is the number of players before.
unfoldable pub join_player : Net → ℕ → ℤ → ℕ → String → Room → Joining
join_player net now step conn username r =
    if is_waiting r.state
    then elim (new_player now step conn username (length r.players)) [
      | none ↦ thrown
      | some p ↦
          elim (announce net p
            (record r { players = p ∷ r.players; client_count = r.client_count + 1 })) [
              | none ↦ thrown
              | some r' ↦ joined r'
            ]
    ]
    else refused
