-- ===== src/Player.antt =====
-- game/src/server/entities/Player.h, Player.cpp and Primitives.h: a player of a room, and the check
-- of his moves. Times are milliseconds; a coordinate is a whole number, as every write leaves it.
pub mod Pace
pub mod Moves
pub mod Rate
mod Tests
use package.boomberman.Base.{
  ℕ, ◌+◌, ◌%◌, Option, none, some, List, [], ◌∷◌, get_elem?, set, ℤ, pos, pos_part, negsuc, ◌+ℤ◌,
  eq_ℤ, ltb, leb, ◌==◌, if◌then◌else◌, Bool, true, false, not, ◌&&◌, ◌||◌, String,
}

abbrev pub starter_lives : ℕ
starter_lives = 3

abbrev pub immunity_time_millis : ℕ
immunity_time_millis = 500

abbrev pub player_sus_treshhold_millis : ℕ
player_sus_treshhold_millis = 50

pub record Coords : Type 0 where
  pub x : ℤ
  pub y : ℤ

pub record MovementEntry : Type 0 where
  pub ts : ℕ
  pub coords : Coords

-- `conn` is the socket of the player's connection.
pub record Player : Type 0 where
  pub conn : ℕ
  pub lives_remaining : ℕ
  pub username : String
  pub color : ℕ
  pub immunity_end_timestamp : ℕ
  pub marked_for_disconnect : Bool
  pub coords : Coords
  pub move_history : List MovementEntry
  pub step : ℤ

abbrev pub at_coords : ℕ → ℕ → Coords
at_coords x y = record { x = pos x; y = pos y }

-- The place at which a colour starts; `none` is the exception for any other colour.
unfoldable pub starting_position : ℕ → Option Coords
starting_position color =
    if color == 0
    then some (at_coords 1 1)
    else (if color == 1
        then some (at_coords 15 1)
        else (if color == 2
            then some (at_coords 1 9)
            else (if color == 3 then some (at_coords 15 9) else none)))

abbrev pub zero_entry : MovementEntry
zero_entry = record { ts = 0; coords = at_coords 0 0 }

-- `Player::Player`. The constructor leaves the field `step` as the memory holds it, so that value
-- is an argument.
unfoldable pub new_player : ℕ → ℤ → ℕ → String → ℕ → Option Player
new_player now step conn username color = elim (starting_position color) [
  | none ↦ none
  | some c ↦ some (record {
    conn = conn;
    lives_remaining = starter_lives;
    username = username;
    color = color;
    immunity_end_timestamp = now;
    marked_for_disconnect = false;
    coords = c;
    move_history = zero_entry ∷ zero_entry ∷ zero_entry ∷ zero_entry ∷ zero_entry ∷ [];
    step = step;
  })
]

abbrev pub is_negative : ℤ → Bool
is_negative (pos n) = false
is_negative (negsuc n) = true

-- `step < 6`
abbrev pub is_warming_up : ℤ → Bool
is_warming_up (pos n) = ltb n 6
is_warming_up (negsuc n) = true

abbrev pub oldest_step : ℕ → ℕ
oldest_step step = if step % 5 == 4 then 0 else step % 5 + 1

abbrev pub moved : ℤ → ℤ → Player → Player
moved x y p = record p { coords = record { x = x; y = y } }

-- The part of `MoveCheckSus` behind `step++`: the new player and the correction. The outer `none`
-- is an index outside `moveHistory`.
unfoldable pub check_rate : ℕ → ℤ → ℤ → Player → Option (Player × Option Coords)
check_rate ts x y p =
    if is_warming_up p.step
    then some (moved x y p, none)
    else elim (get_elem? p.move_history (oldest_step (pos_part p.step))) [
      | none ↦ none
      | some oldest ↦
          if ltb ts (oldest.ts + player_sus_treshhold_millis)
          then some (record p { step = pos 0 }, some oldest.coords)
          else some (
            record (moved x y p) {
              move_history =
                  set p.move_history (pos_part p.step % 5)
                    (record { ts = ts; coords = record { x = x; y = y } });
            },
            none,
          )
    ]

-- The largest `int`
abbrev pub int_max : ℕ
int_max = 2147483647

-- `Player::MoveCheckSus`; `step++` on the largest `int` is undefined, and so is this with the outer `none`.
unfoldable pub move_check_sus : ℕ → ℤ → ℤ → Player → Option (Player × Option Coords)
unfolding check_rate
move_check_sus ts x y p =
    if is_negative x || is_negative y
    then some (p, some p.coords)
    else (if not (eq_ℤ x p.coords.x) && not (eq_ℤ y p.coords.y)
        then some (p, some p.coords)
        else (if eq_ℤ p.step (pos int_max)
            then none
            else check_rate ts x y (record p { step = p.step +ℤ pos 1 })))
