-- ===== src/Client/Paint.antt =====
-- `Client::drawMap` of game/src/client/Client.cpp: the squares of the board on the screen. A call of the window library that
-- draws a square is an element of a list. `none` is a read outside the board.
use boomberman.Base.{
  refl, ◌+ℤ◌, ◌+◌, arith, ◌++◌, ◌==◌, Option, ◌≤◌, ℤ, ◌<◌, ◌≡◌, List, if◌then◌else◌, ◌*◌, ◌∷◌, ℕ,
  pos, none, some, zero, suc, [],
}
use boomberman.Map.{Map, get_square_state, square_at}
use boomberman.Map.Arena.{IsArena}

pub data Shade : Type 0 where
  white black gray : Shade

-- `DrawRectangle`, for a square
pub record Painted : Type 0 where
  pub x : ℤ
  pub y : ℤ
  pub size : ℕ
  pub shade : Shade

-- The colour `c` stays as it was, uninitialised at first, for a state that is none of the three.
unfoldable pub shade_of : ℕ → Shade → Shade
shade_of state c =
    if state == 0 then white else (if state == 1 then black else (if state == 2 then gray else c))

abbrev pub paint : Map → ℕ → ℕ → Shade → Painted
paint m x y c = record {
  x = pos (x * m.offset) +ℤ m.start_x;
  y = pos (y * m.offset) +ℤ m.start_y;
  size = m.size;
  shade = c;
}

-- The inner loop, from row `y` with `left` rows to go, and the colour it ends with.
unfoldable pub draw_column : Map → ℕ → ℕ → ℕ → Shade → Option (List Painted × Shade)
draw_column m x zero y c = some ([], c)
draw_column m x (suc left) y c = elim (get_square_state m (pos x) (pos y)) [
  | none ↦ none
  | some state ↦ elim (draw_column m x left (y + 1) (shade_of state c)) [
    | none ↦ none
    | some (ps, last) ↦ some (paint m x y (shade_of state c) ∷ ps, last)
  ]
]

-- The outer loop, from column `x` with `left` columns to go.
unfoldable pub draw_columns : Map → ℕ → ℕ → Shade → Option (List Painted)
unfolding draw_column
draw_columns m zero x c = some []
draw_columns m (suc left) x c = elim (draw_column m x m.rows 0 c) [
  | none ↦ none
  | some (ps, last) ↦ elim (draw_columns m left (x + 1) last) [
    | none ↦ none
    | some rest ↦ some (ps ++ rest)
  ]
]

unfoldable pub draw_map : Map → Shade → Option (List Painted)
unfolding draw_columns draw_column
draw_map m c = draw_columns m m.cols 0 c

-- The squares by themselves: each with the colour of its own state.
abbrev own_shade : Option ℕ → Shade
own_shade none = white
own_shade (some state) = shade_of state white

abbrev pub column_of : Map → ℕ → ℕ → ℕ → List Painted
column_of m x zero y = []
column_of m x (suc left) y =
    paint m x y (own_shade (square_at m.squares x y)) ∷ column_of m x left (y + 1)

abbrev pub board_of : Map → ℕ → ℕ → List Painted
board_of m zero x = []
board_of m (suc left) x = column_of m x m.rows 0 ++ board_of m left (x + 1)

-- Each square of the board is free, a wall or a box.
abbrev pub IsPlain : Map → Type 0
IsPlain m = (x y v : ℕ) → square_at m.squares x y ≡ some v → v < 3

shade_of-plain : (state : ℕ) (c : Shade) → state < 3 → shade_of state c ≡ shade_of state white
unfolding shade_of
shade_of-plain state c h = ground (arith, h)

module _ (m : Map) (arena : IsArena m.squares) (plain : IsPlain m) where
  draw_column-column_of :
      (x left y : ℕ) (c : Shade)
      → x < 17
      → y + left ≤ 11
      → (last : Shade) × (draw_column m x left y c ≡ some (column_of m x left y, last))
  unfolding draw_column get_square_state
  draw_column-column_of x zero y c hx hy = (c, refl)
  draw_column-column_of x (suc left) y c hx hy =
      let (v, on) = arena.inside x y hx (omega (arith, hy)) in
      let (last, e) = draw_column-column_of x left (y + 1) (shade_of v c) hx (omega (arith, hy)) in
      let same = shade_of-plain v c (plain x y v on) in (last, rw (draw_column, on, e, same) refl)

  draw_columns-board_of :
      (left x : ℕ) (c : Shade)
      → m.rows ≤ 11
      → x + left ≤ 17
      → draw_columns m left x c ≡ some (board_of m left x)
  unfolding draw_columns
  draw_columns-board_of zero x c hr hx = refl
  draw_columns-board_of (suc left) x c hr hx =
      let (last, e) = draw_column-column_of x m.rows 0 c (omega (arith, hx)) (omega (arith, hr)) in
      rw (draw_columns, e, draw_columns-board_of left (x + 1) last hr (omega (arith, hx))) refl

-- On a board of the right shape whose squares are free, walls or boxes, the drawing reads no square outside the board, and
-- draws each in the colour of its own state, whatever the uninitialised colour.
pub draw_map-board_of :
    (m : Map) (c : Shade)
    → IsArena m.squares
    → IsPlain m
    → m.cols ≤ 17
    → m.rows ≤ 11
    → draw_map m c ≡ some (board_of m m.cols 0)
unfolding draw_map
draw_map-board_of m c arena plain hc hr =
    draw_columns-board_of m arena plain m.cols 0 c hr (omega (arith, hc))
