-- ===== src/Room/Tests.antt =====
-- A small game, and the theorems about rooms at its states.
use boomberman.Bomb.Burns.{Interior}
use boomberman.Room.Cycle.{lone_player, leave_waiting}
use boomberman.Room.Disconnect.Loop.{member}
use boomberman.Room.Handle.Keeps.{handle_message-Handles}
use boomberman.Room.Handle.Laws.{Handles}
use boomberman.Room.Disconnect.{disconnect_players}
use boomberman.Room.Join.{join_player, thrown}
use boomberman.Map.Arena.{initial_squares-IsArena}
use boomberman.Room.Join.Laws.{IsSendable, join_player-Joins, Joins}
use boomberman.Room.Invariant.{Quiet-IsWellFormed, new_room-IsWellFormed, IsWellFormed, IsSound}
use boomberman.Room.Explosion.{notify_explosion}
use boomberman.Room.Handle.Guards.{handle_message-move, IsOnBoard}
use boomberman.Map.{write_square, set_square_state, get_square_state, square_at, new_map}
use boomberman.Room.Handle.{handle_waiting, handle_place_bomb, handle_playing, handle_message}
use boomberman.Room.Disconnect.Laws.{disconnect_players-Disconnects, Disconnects}
use boomberman.Bomb.{new_bomb, boom, Bomb}
use boomberman.Player.{zero_entry, at_coords, Player}
use boomberman.Room.{
  game_over, send_specific, send_each, send_except, play, wait_for_start, Room, mark, new_room,
  find_player,
}
use boomberman.Room.Explosion.Laws.{
  notify_explosion_past_end, notify_explosion-Explodes, IsInside, Explodes,
}
use boomberman.Message.{error, other_bomb_place, sent, i_place_bomb, i_move, of_int, i_leave, Net}
use boomberman.Base.{
  ◌⊎◌, ℕ, String, ◌≡◌, refl, inl, inr, true, false, none, some, [], ◌∷◌, arith, pos, negsuc,
}

abbrev pub always : Net
always = record { answers = λ _ _. true; fits = λ _. true }

-- Nobody can be reached.
abbrev never : Net
never = record { answers = λ _ _. false; fits = λ _. true }

abbrev player : ℕ → String → ℕ → ℕ → Player
player conn username x y = record {
  conn = conn;
  lives_remaining = 1;
  username = username;
  color = 0;
  immunity_end_timestamp = 0;
  marked_for_disconnect = false;
  coords = at_coords x y;
  move_history = zero_entry ∷ zero_entry ∷ zero_entry ∷ zero_entry ∷ zero_entry ∷ [];
  step = pos 0;
}

abbrev pub ann : Player
ann = player 7 "ann" 1 1

abbrev pub bob : Player
bob = player 8 "bob" 1 2

-- Two are left of a game of four, with a bomb next to both of them.
abbrev pub small_bomb : Bomb
small_bomb = record {
  pos_x = pos 1;
  pos_y = pos 1;
  explosion = 3;
  size = 25;
  plant_time = 0;
  animation_start = 0;
  ttl = 3;
  state = negsuc 0;
  is_atomic = false;
}

unfoldable pub duel : Room
unfolding new_room
duel = record new_room {
  players = bob ∷ ann ∷ [];
  state = play;
  client_count = 4;
  bombs = small_bomb ∷ [];
}

player-IsSound : (conn : ℕ) (u : String) (x y : ℕ) → Interior x y → IsSound (player conn u x y)
player-IsSound conn u x y i = record {
  tracked = refl;
  lives = omega arith;
  placed = record { x = x; y = y; at_x = refl; at_y = refl; interior = i };
}

pub duel-IsWellFormed : IsWellFormed duel
unfolding duel new_map
duel-IsWellFormed = record {
  distinct = (((λ e. omega arith), tt), (tt, tt));
  counted = omega arith;
  capped = omega arith;
  waiting = λ e. ground arith;
  arena = initial_squares-IsArena;
  sound = (
    player-IsSound 8 "bob" 1 2 (omega arith, omega arith, omega arith, omega arith),
    (player-IsSound 7 "ann" 1 1 (omega arith, omega arith, omega arith, omega arith), tt),
  );
}

-- Bob has asked to leave.
abbrev pub parting : Room
unfolding duel
parting = record duel { players = mark bob ∷ ann ∷ [] }

pub parting-IsWellFormed : IsWellFormed parting
unfolding duel
parting-IsWellFormed =
    Quiet-IsWellFormed {r = duel}
      (record {
        marks = (inr refl, (inl refl, tt));
        bombs = refl;
        state = refl;
        client_count = refl;
        map = refl;
      })
      duel-IsWellFormed

join_player-Joins_example :
    Joins 7 "ann" new_room (join_player always 1000 (pos 0) 7 "ann" new_room)
      × IsSendable always "ann" new_room
    ⊎ (join_player always 1000 (pos 0) 7 "ann" new_room ≡ thrown)
      × ¬ IsSendable always "ann" new_room
unfolding new_room
join_player-Joins_example =
    join_player-Joins always 1000 (pos 0) 7 "ann" new_room new_room-IsWellFormed tt refl

-- Ann leaves a bomb on a square that is no square of the board.
handle_message-Handles_example :
    Handles 5
      (i_place_bomb (of_int (pos 90)) (of_int (pos 2)))
      duel
      (record duel {
        bombs = small_bomb ∷ new_bomb (pos 90) (pos 2) 3 25 5 3 false ∷ [];
        log = sent 8 (other_bomb_place "ann" 5 (of_int (pos 90)) (of_int (pos 2))) ∷ [];
      })
      true
unfolding duel handle_message handle_playing handle_place_bomb find_player new_bomb send_except
    send_each send_specific
handle_message-Handles_example =
    handle_message-Handles always 5 7 (i_place_bomb (of_int (pos 90)) (of_int (pos 2))) duel _ true
      duel-IsWellFormed refl

handle_message-move_example :
    (IsOnBoard (of_int (pos 90)) (of_int (pos 2))
      → (r' : Room) × (handle_message always 5 7 (i_move (of_int (pos 90)) (of_int (pos 2))) duel
          ≡ some (r', false)))
    × (¬ IsOnBoard (of_int (pos 90)) (of_int (pos 2))
        → handle_message always 5 7 (i_move (of_int (pos 90)) (of_int (pos 2))) duel ≡ none)
unfolding duel find_player
handle_message-move_example =
    handle_message-move always 5 7 (of_int (pos 90)) (of_int (pos 2)) duel ann duel-IsWellFormed
      refl refl (omega arith) (λ e. ground (arith, e))

pub small_bomb-IsInside : IsInside small_bomb
small_bomb-IsInside = record {
  x = 1;
  y = 1;
  at_x = refl;
  at_y = refl;
  interior = (omega arith, omega arith, omega arith, omega arith);
}

notify_explosion-Explodes_example :
    Explodes 5000 0 small_bomb [] duel (notify_explosion always 5000 0 1 duel)
unfolding duel
notify_explosion-Explodes_example =
    notify_explosion-Explodes always 5000 0 1 small_bomb [] duel duel-IsWellFormed refl refl
      small_bomb-IsInside (omega arith)

-- The bomb kills both, and the draw is the largest.
notify_explosion_past_end_example : notify_explosion always 5000 0 2 duel ≡ none
unfolding duel boom square_at get_square_state set_square_state write_square new_map
notify_explosion_past_end_example =
    notify_explosion_past_end always 5000 0 small_bomb [] duel _ duel-IsWellFormed refl refl refl
      refl

disconnect_players-Disconnects_example :
    Disconnects parting (disconnect_players always 5000 parting)
disconnect_players-Disconnects_example =
    disconnect_players-Disconnects always 5000 parting parting-IsWellFormed

-- Ann asks to leave a room that waits, and Bob is let go.
leave_waiting_example :
    (r' : Room) × (handle_message never 5 7 i_leave
        (record duel { state = wait_for_start; client_count = 3 })
      ≡ some (r', false))
    × (member 8 (disconnect_players never 5 r').sockets_to_delete ≡ true)
unfolding duel
leave_waiting_example =
    leave_waiting never 5 7 (record duel { state = wait_for_start; client_count = 3 }) bob
      (ann ∷ [])
      (record {
        distinct = duel-IsWellFormed.distinct;
        counted = omega arith;
        capped = omega arith;
        waiting = λ e. omega arith;
        arena = duel-IsWellFormed.arena;
        sound = duel-IsWellFormed.sound;
      })
      refl refl

-- Ann, alone in a room that waits, tries to move.
unfoldable pub alone : Room
unfolding new_room
alone = record new_room { players = ann ∷ []; client_count = 1 }

pub alone-IsWellFormed : IsWellFormed alone
unfolding duel alone new_room new_map
alone-IsWellFormed = record {
  distinct = (tt, tt);
  counted = omega arith;
  capped = omega arith;
  waiting = λ e. omega arith;
  arena = initial_squares-IsArena;
  sound = (player-IsSound 7 "ann" 1 1 (omega arith, omega arith, omega arith, omega arith), tt);
}

lone_player_example :
    let r' : Room = send_specific always 7 (error "Game hasn't started yet") alone in
    ((disconnect_players always 5 r').room.players ≡ [])
    × ((disconnect_players always 5 r').room.state ≡ game_over)
unfolding alone new_room handle_message handle_waiting
lone_player_example =
    lone_player always 5 7 (i_move (of_int (pos 2)) (of_int (pos 1))) alone _ false
      alone-IsWellFormed (omega arith) refl
