-- ===== src/Bomb.antt =====
-- game/src/shared/game/Bomb.h, Bomb.cpp and TileOnFire.h: a bomb, its fuse, and its explosion on
-- the board. Times are milliseconds; `none` is an access outside the array of squares.
pub mod Burns
pub mod Boom
pub mod Timer
pub mod Reach
pub mod Lines
pub mod Spots
pub mod Opened
pub mod Exact
mod Tests
use package.boomberman.Base.{
  ◌>>=◌, ℕ, zero, suc, ◌+◌, ◌-◌, ◌*◌, ◌<◌, Option, none, some, List, [], ◌∷◌, ◌++◌, ℤ, pos, negsuc,
  ◌+ℤ◌, ◌-ℤ◌, leb, ltb, ◌==◌, if◌then◌else◌, Bool, true, false, not,
}
use package.boomberman.Map.{Map, get_square_state, set_square_state}

pub record TileOnFire : Type 0 where
  pub x : ℤ
  pub y : ℤ
  pub on_fire_since : ℕ

pub record Bomb : Type 0 where
  pub pos_x : ℤ
  pub pos_y : ℤ
  pub explosion : ℕ
  pub size : ℕ
  pub plant_time : ℕ
  pub animation_start : ℕ
  pub ttl : ℕ
  pub state : ℤ
  pub is_atomic : Bool

-- `Bomb::Bomb`; the fuse `ttl` is in whole seconds, as every caller gives it.
unfoldable pub new_bomb : ℤ → ℤ → ℕ → ℕ → ℕ → ℕ → Bool → Bomb
new_bomb pos_x pos_y explosion size timestamp ttl is_atomic = record {
  pos_x = pos_x;
  pos_y = pos_y;
  explosion = explosion;
  size = size;
  plant_time = timestamp;
  animation_start = timestamp;
  ttl = ttl;
  state = negsuc 0;
  is_atomic = is_atomic;
}

unfoldable pub should_explode : ℕ → Bomb → Bool
should_explode now b = ltb (b.plant_time + b.ttl * 1000) now

-- The state blinks between -1 and 1 every half second.
unfoldable pub animate : ℕ → Bomb → Bomb
animate now b =
    if leb (b.animation_start + 500) now
    then record b { state = pos 0 -ℤ b.state; animation_start = now }
    else b

-- What `boom` has built so far: the tiles lit up, and the board.
pub record Blast : Type 0 where
  pub tiles : List TileOnFire
  pub map : Map

pub data Axis : Type 0 where
  along_x along_y : Axis

-- `direction` is -1 or 1.
pub data Direction : Type 0 where
  back forth : Direction

abbrev pub move_by : ℤ → Direction → ℕ → ℤ
move_by p back i = p -ℤ pos i
move_by p forth i = p +ℤ pos i

-- The column and the row of the square at distance `i` from the bomb.
abbrev pub column : Bomb → Axis → Direction → ℕ → ℤ
column b along_x d i = move_by b.pos_x d i
column b along_y d i = b.pos_x

abbrev pub row : Bomb → Axis → Direction → ℕ → ℤ
row b along_x d i = b.pos_y
row b along_y d i = move_by b.pos_y d i

abbrev pub light : ℕ → ℤ → ℤ → List TileOnFire → List TileOnFire
light time x y tiles = tiles ++ record { x = x; y = y; on_fire_since = time } ∷ []

-- One round of an inner loop of `boom`, and whether it ends by `break`.
unfoldable pub touch : ℕ → Bool → ℤ → ℤ → Blast → Option (Blast × Bool)
touch time is_atomic x y s = elim (get_square_state s.map x y) [
  | none ↦ none
  | some may_be_wall ↦
      if may_be_wall == 1
      then some (s, true)
      else (if may_be_wall == 2
          then elim (set_square_state s.map x y 0) [
            | none ↦ none
            | some m ↦ some (record { tiles = light time x y s.tiles; map = m }, not is_atomic)
          ]
          else some (record s { tiles = light time x y s.tiles }, false))
]

-- An inner loop of `boom`, from distance `i` with `left` rounds to go.
unfoldable pub ray : ℕ → Bomb → Axis → Direction → ℕ → ℕ → Blast → Option Blast
ray time b a d zero i s = some s
ray time b a d (suc left) i s = elim (touch time b.is_atomic (column b a d i) (row b a d i) s) [
  | none ↦ none
  | some (s', true) ↦ some s'
  | some (s', false) ↦ ray time b a d left (i + 1) s'
]

-- `Bomb::boom`: the tile of the bomb, then for each direction the x loop and the y loop.
unfoldable pub boom : ℕ → Bomb → Map → Option Blast
unfolding ray touch
boom time b m = do
  let start : Blast = record { tiles = light time b.pos_x b.pos_y []; map = m }
  left ← ray time b along_x back (b.explosion - 1) 1 start
  up ← ray time b along_y back (b.explosion - 1) 1 left
  right ← ray time b along_x forth (b.explosion - 1) 1 up
  ray time b along_y forth (b.explosion - 1) 1 right
