-- ===== src/Map.antt =====
-- game/src/shared/game/Map.h and Map.cpp: the board, an array of 17 columns of 11 squares, and
-- its place on the screen. A square is 0 (free, `NOTHIN`), 1 (a wall) or 2 (a box).
pub mod Arena
mod Tests
use package.boomberman.Base.{
  ℕ, ◌+◌, ◌-◌, ◌*◌, ◌/◌, ◌<◌, Option, none, some, List, [], ◌∷◌, get_elem?, set, ℤ, pos, negsuc,
  ◌+ℤ◌, ◌-ℤ◌, leb, ltb, if◌then◌else◌, length, Bool, ◌&&◌,
}

abbrev pub map_width : ℕ
map_width = 17

abbrev pub map_height : ℕ
map_height = 11

-- `int map[MAP_WIDTH][MAP_HEIGHT]`: the columns, from x = 0.
abbrev pub Squares : Type 0
Squares = List (List ℕ)

abbrev pub edge : List ℕ
edge = 1 ∷ 1 ∷ 1 ∷ 1 ∷ 1 ∷ 1 ∷ 1 ∷ 1 ∷ 1 ∷ 1 ∷ 1 ∷ []

abbrev pub corner : List ℕ
corner = 1 ∷ 0 ∷ 0 ∷ 2 ∷ 2 ∷ 2 ∷ 2 ∷ 2 ∷ 0 ∷ 0 ∷ 1 ∷ []

abbrev pub next_to_corner : List ℕ
next_to_corner = 1 ∷ 0 ∷ 1 ∷ 2 ∷ 1 ∷ 2 ∷ 1 ∷ 2 ∷ 1 ∷ 0 ∷ 1 ∷ []

abbrev pub boxes : List ℕ
boxes = 1 ∷ 2 ∷ 2 ∷ 2 ∷ 2 ∷ 2 ∷ 2 ∷ 2 ∷ 2 ∷ 2 ∷ 1 ∷ []

abbrev pub pillars : List ℕ
pillars = 1 ∷ 2 ∷ 1 ∷ 2 ∷ 1 ∷ 2 ∷ 1 ∷ 2 ∷ 1 ∷ 2 ∷ 1 ∷ []

unfoldable pub initial_squares : Squares
initial_squares =
    edge ∷ corner ∷ next_to_corner ∷ boxes ∷ pillars ∷ boxes ∷ pillars ∷ boxes ∷ pillars ∷ boxes
    ∷ pillars ∷ boxes ∷ pillars ∷ boxes ∷ next_to_corner ∷ corner ∷ edge ∷ []

pub record Map : Type 0 where
  pub squares : Squares
  pub cols : ℕ
  pub rows : ℕ
  pub offset : ℕ
  pub start_x : ℤ
  pub start_y : ℤ
  pub size : ℕ

-- `int(e / 2)` of a difference e = a - b of numbers: the half, cut towards zero.
abbrev pub half_of : ℕ → ℕ → ℤ
half_of a b = if leb b a then pos ((a - b) / 2) else pos 0 -ℤ pos ((b - a) / 2)

-- `Map::Map`, at a width and height that are whole, as every caller's are:
-- `width / 2 - c * offset` is half of `width - 2 * c * offset`.
unfoldable pub new_map : ℕ → ℕ → ℕ → Map
unfolding initial_squares
new_map size width height = record {
  squares = initial_squares;
  cols = map_width;
  rows = map_height;
  offset = size * 4 / 3;
  start_x = half_of width (2 * (map_width / 2) * (size * 4 / 3));
  start_y = half_of height (2 * (map_height / 2) * (size * 4 / 3));
  size = size;
}

-- `this->map[x][y]`; `none` is an index out of the array, undefined behaviour in the source.
unfoldable pub square_at : Squares → ℕ → ℕ → Option ℕ
square_at squares x y = elim (get_elem? squares x) [
  | none ↦ none
  | some column ↦ get_elem? column y
]

unfoldable pub write_square : Squares → ℕ → ℕ → ℕ → Option Squares
write_square squares x y v = elim (get_elem? squares x) [
  | none ↦ none
  | some column ↦ if ltb y (length column) then some (set squares x (set column y v)) else none
]

unfoldable pub get_square_state : Map → ℤ → ℤ → Option ℕ
get_square_state m (pos x) (pos y) = square_at m.squares x y
get_square_state m (pos x) (negsuc y) = none
get_square_state m (negsuc x) y = none

unfoldable pub set_square_state : Map → ℤ → ℤ → ℕ → Option Map
set_square_state m (pos x) (pos y) v = elim (write_square m.squares x y v) [
  | none ↦ none
  | some squares ↦ some (record m { squares = squares })
]
set_square_state m (pos x) (negsuc y) v = none
set_square_state m (negsuc x) y v = none
