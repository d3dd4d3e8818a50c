-- ===== src/Room.antt =====
-- game/src/server/Room.h and Room.cpp: the state of a room and the ways in which it sends. The
-- children model its operations, one each, and their laws.
pub mod Join
pub mod Handle
pub mod Explosion
pub mod Disconnect
pub mod Sends
pub mod Invariant
pub mod Players
pub mod Cycle
pub mod Tests
use package.boomberman.Base.{
  ℕ, zero, suc, ◌+◌, ◌-◌, ◌*◌, ◌/◌, ◌%◌, ◌^◌, ◌≤◌, ◌<◌, String, ◌≡◌, refl, sym, ap, ◌∙◌, subst, ◌≢◌,
  ◌↔◌, ◌⊎◌, inl, inr, Bool, true, false, not, ◌&&◌, ◌||◌, Option, none, some, List, [], ◌∷◌, ◌++◌,
  map, arith, ℤ, pos, negsuc, pos_part, neg_part, sub_ℕ, ◌+ℤ◌, ◌-ℤ◌, eq_ℤ, eq_ℤ_iff, ltb, leb, ◌==◌,
  if◌then◌else◌, ltb→lt, ltb→le, lt→ltb, ==→eq, ==→ne, ==_refl, ne→==, Bool-cases, Option-cases,
  length, get_elem?, set, take, drop, keep, count, All, length-append, length-set,
  get_elem?-set_self, get_elem?-set_ne, get_elem?-set, get_elem?-lt, get_elem?-total,
  length-keep-le, All-append, All-map, length-map,
}
use package.boomberman.Map.{Map, new_map, map_width, map_height}
use package.boomberman.Bomb.{Bomb}
use package.boomberman.Player.{Player}
use package.boomberman.Message.{Message, Event, sent, Net}

abbrev pub max_players : ℕ
max_players = 4

pub data GameState : Type 0 where
  wait_for_start play wait_for_end game_over : GameState

abbrev pub is_play : GameState → Bool
is_play play = true
is_play _ = false

-- `log` is what the room did to its sockets, the newest first; `bombs` has its front at the head.
pub record Room : Type 0 where
  pub players : List Player
  pub bombs : List Bomb
  pub state : GameState
  pub client_count : ℕ
  pub map : Map
  pub log : List Event

-- `Room::Room`
unfoldable pub new_room : Room
new_room = record {
  players = [];
  bombs = [];
  state = wait_for_start;
  client_count = 0;
  map = new_map 25 map_width map_height;
  log = [];
}

-- `Room::PlayerCount`
unfoldable pub player_count : Room → ℕ
player_count r = r.client_count

-- `Room::IsGameOver`
unfoldable pub is_game_over : Room → Bool
is_game_over r = elim (r.state) [ game_over ↦ true | _ ↦ false ]

-- A `Player *` is known by the socket of its connection, which no two players share.
unfoldable pub find_player : ℕ → List Player → Option Player
find_player c [] = none
find_player c (p ∷ ps) = if p.conn == c then some p else find_player c ps

-- A write through the pointer.
unfoldable pub update_player : ℕ → (Player → Player) → List Player → List Player
update_player c f [] = []
update_player c f (p ∷ ps) = if p.conn == c then f p ∷ ps else p ∷ update_player c f ps

abbrev pub mark : Player → Player
mark p = record p { marked_for_disconnect = true }

abbrev pub conns : List Player → List ℕ
conns = map (λ p. p.conn)

-- `Room::sendSpecific`
unfoldable pub send_specific : Net → ℕ → Message → Room → Room
send_specific net c m r =
    let r' = record r { log = sent c m ∷ r.log } in
    if net.answers r.log c then r' else record r' { players = update_player c mark r.players }

-- The loops over the players in `sendExcept` and `sendBroadcast`.
unfoldable pub send_each : Net → List ℕ → Message → Room → Room
send_each net [] m r = r
send_each net (c ∷ cs) m r = send_each net cs m (send_specific net c m r)

-- `Room::sendExcept`
unfoldable pub send_except : Net → ℕ → Message → Room → Room
send_except net c m r = send_each net (keep (λ d. not (d == c)) (conns r.players)) m r

-- `Room::sendBroadcast`
unfoldable pub send_broadcast : Net → Message → Room → Room
send_broadcast net m r = send_each net (conns r.players) m r
