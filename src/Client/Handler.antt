-- ===== src/Client/Handler.antt =====
-- game/src/client/ServerHandler.h and ServerHandler.cpp: what the client does with the server's messages. `none` is
-- undefined behaviour: a write to the first of no players.
use boomberman.Client.{
  yellow, blue, green, red, place_bomb, set_boomberman_pos, Color, new_boomberman, Boomberman,
  got_hit_at, EntityHandler,
}
use boomberman.Message.{
  game_won, movement_correction, other_bomb_place, game_start, got_hit, error, other_leave,
  game_join, other_move, welcome_to_room, PlayerInfo, Message, Float,
}
use text.Mathlib.Text.{◌==◌ as str_eq}
use boomberman.Base.{
  false, ◌-ℤ◌, true, ◌==◌, if◌then◌else◌, some, none, [], negsuc, ◌++◌, ◌∷◌, pos, Option, ℤ, List,
  String, ℕ,
}

-- A conversion of a `float` to `int`, which cuts towards zero.
abbrev pub truncated : ℤ → ℕ → ℤ
truncated (pos n) frac = pos n
truncated (negsuc n) frac = if frac == 0 then negsuc n else pos 0 -ℤ pos n

unfoldable pub truncate : Float → ℤ
truncate f = truncated f.whole f.frac

-- `ServerHandler`, without its connection.
pub record ServerHandler : Type 0 where
  pub start_x : ℤ
  pub start_y : ℤ
  pub start_color : Color
  pub winner : String

pub record Game : Type 0 where
  pub eh : EntityHandler
  pub sh : ServerHandler

-- `findPlayer`, and a write through what it finds.
unfoldable pub update_named : String → (Boomberman → Boomberman) → List Boomberman → List Boomberman
update_named u f [] = []
update_named u f (b ∷ bs) = if str_eq b.pseudonim u then f b ∷ bs else b ∷ update_named u f bs

-- `findPlayer`, and the erasure of what it finds.
unfoldable pub erase_named : String → List Boomberman → List Boomberman
erase_named u [] = []
erase_named u (b ∷ bs) = if str_eq b.pseudonim u then bs else b ∷ erase_named u bs

abbrev pub with_players : (List Boomberman → List Boomberman) → Game → Game
with_players f g = record g { eh = record (g.eh) { players = f g.eh.players } }

unfoldable pub other_moved : String → Float → Float → Game → Game
other_moved u x y g =
    if str_eq u ""
    then g
    else with_players (update_named u (set_boomberman_pos (truncate x) (truncate y))) g

unfoldable pub player_got_hit : String → ℕ → ℕ → Game → Game
player_got_hit u lives_remaining timestamp g =
    with_players
      (λ bs.
        let hit = update_named u (got_hit_at timestamp) bs in
        if lives_remaining == 0 then erase_named u hit else hit)
      g

unfoldable pub other_placed_bomb : String → ℕ → Float → Float → Game → Game
other_placed_bomb u timestamp x y g =
    if str_eq u "Server"
    then record g { eh = place_bomb (truncate x) (truncate y) 9 25 timestamp 3 true g.eh }
    else record g { eh = place_bomb (truncate x) (truncate y) 3 25 timestamp 3 false g.eh }

unfoldable pub correct_movement : Float → Float → Game → Option Game
correct_movement x y g = elim (g.eh.players) [
  | [] ↦ none
  | b ∷ bs ↦ some (with_players (λ _. set_boomberman_pos (truncate x) (truncate y) b ∷ bs) g)
]

-- `ServerHandler::handleMessage`
unfoldable pub handle_game_message : Message → Game → Option Game
handle_game_message (other_move u x y) g = some (other_moved u x y g)
handle_game_message (other_leave u) g = some (with_players (erase_named u) g)
handle_game_message (got_hit u lives_remaining timestamp) g =
    some (player_got_hit u lives_remaining timestamp g)
handle_game_message (other_bomb_place u timestamp x y) g =
    some (other_placed_bomb u timestamp x y g)
handle_game_message (movement_correction x y) g = correct_movement x y g
handle_game_message (game_won u) g = some (record g { sh = record (g.sh) { winner = u } })
handle_game_message _ g = some g

-- One turn of `receiveLoop`: the message received and those queued behind it.
unfoldable pub handle_game_messages : List Message → Game → Option Game
handle_game_messages [] g = some g
handle_game_messages (m ∷ ms) g = elim (handle_game_message m g) [
  | none ↦ none
  | some g' ↦ handle_game_messages ms g'
]

unfoldable pub start_at : ℤ → ℤ → Color → ServerHandler → ServerHandler
start_at x y c sh = record sh { start_x = x; start_y = y; start_color = c }

-- `setPlayerParams`
unfoldable pub set_player_params : PlayerInfo → ServerHandler → ServerHandler
set_player_params p sh =
    if p.color == 0
    then start_at (pos 1) (pos 1) red sh
    else (if p.color == 1
        then start_at (pos 15) (pos 1) green sh
        else (if p.color == 2
            then start_at (pos 1) (pos 9) blue sh
            else (if p.color == 3 then start_at (pos 15) (pos 9) yellow sh else sh)))

-- `addPlayer`
unfoldable pub add_player : PlayerInfo → Game → Game
add_player p g =
    let sh = set_player_params p g.sh in
    let b = new_boomberman p.username sh.start_color sh.start_x sh.start_y (pos 3) in
    record { eh = record (g.eh) { players = g.eh.players ++ b ∷ [] }; sh = sh }

-- `joinRoom`
unfoldable pub join_all : List PlayerInfo → Game → Game
join_all [] g = g
join_all (p ∷ ps) g = join_all ps (add_player p g)

-- How `handleLobbyMsg` ends: it returns false or true, or shows an error until the process exits.
pub data Waiting : Type 0 where
  waits : Game → Waiting
  starts : Game → Waiting
  exits : Waiting

-- `handleLobbyMsg`
unfoldable pub handle_lobby_msg : Message → Game → Waiting
handle_lobby_msg game_start g = starts g
handle_lobby_msg (welcome_to_room ps) g = waits (join_all ps g)
handle_lobby_msg (game_join p) g = waits (add_player p g)
handle_lobby_msg (error e) g = exits
handle_lobby_msg _ g = waits g

-- `wait4Game`, for the messages that arrive before the connection ends, which ends the process. A game that starts comes
-- with the messages left for `receiveLoop`.
unfoldable pub wait_for_game : List Message → Game → Option (Game × List Message)
wait_for_game [] g = none
wait_for_game (m ∷ ms) g = elim (handle_lobby_msg m g) [
  | waits g' ↦ wait_for_game ms g'
  | starts g' ↦ some (g', ms)
  | exits ↦ none
]
