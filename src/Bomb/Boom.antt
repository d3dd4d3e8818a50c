-- ===== src/Bomb/Boom.antt =====
-- `Bomb::boom` on the board of the game: it stays on the board, and breaks boxes only.
use boomberman.Bomb.Burns.{light-Burns, break-Burns, Interior, Burns}
use boomberman.Base.{
  ℕ, zero, suc, ◌+◌, ◌-◌, ◌<◌, ◌≡◌, refl, inl, inr, Bool, true, false, not, Option, some, [], pos,
  arith, Bool-cases, ◌==◌,
}
use boomberman.Map.{Map, Squares, square_at, get_square_state, set_square_state}
use boomberman.Map.Arena.{IsArena, write_square-total}
use boomberman.Bomb.{
  Bomb, Blast, Axis, Direction, along_x, along_y, back, forth, column, row, light, touch, ray, boom,
}

-- What one round of a loop does, at a square of the board.
record Touches (old : Squares) (x y : ℕ) (r : Option (Blast × Bool)) : Type 0 where
  out : Blast
  stop : Bool
  returns : r ≡ some (out, stop)
  burns : Burns old out
  goes_on : stop ≡ false → Interior x y

touch-Touches :
    (old : Squares) (time : ℕ) (atomic : Bool) (x y : ℕ) (s : Blast)
    → Burns old s
    → x < 17
    → y < 11
    → Touches old x y (touch time atomic (pos x) (pos y) s)
unfolding touch get_square_state set_square_state
touch-Touches old time atomic x y s b hx hy =
    let (v, read) = b.arena.inside x y hx hy in
    elim (Bool-cases (v == 1)) [
      | inl wall ↦ record {
        out = s;
        stop = true;
        returns = ground arith;
        burns = b;
        goes_on = λ e. cc;
      }
      | inr free ↦
          let i : Interior x y = ground (arith, b.arena.walled x y hx hy) in
          elim (Bool-cases (v == 2)) [
            | inl box ↦
                let is_box : square_at s.map.squares x y ≡ some 2 = ground arith in
                let (after, w) = write_square-total s.map.squares x y 0 v read in
                record {
                  out = record {
                    tiles = light time (pos x) (pos y) s.tiles;
                    map = record (s.map) { squares = after };
                  };
                  stop = not atomic;
                  returns = ground arith;
                  burns = break-Burns old time x y s b after i is_box w;
                  goes_on = λ e. i;
                }
            | inr clear ↦ record {
              out = record s { tiles = light time (pos x) (pos y) s.tiles };
              stop = false;
              returns = ground arith;
              burns = light-Burns old time x y s b i;
              goes_on = λ e. i;
            }
          ]
    ]

-- The square at distance `i` from the bomb is inside the rim.
record Inner (b : Bomb) (a : Axis) (d : Direction) (i : ℕ) : Type 0 where
  x : ℕ
  y : ℕ
  at_x : column b a d i ≡ pos x
  at_y : row b a d i ≡ pos y
  interior : Interior x y

-- The square after it is then on the board.
record OnBoard (b : Bomb) (a : Axis) (d : Direction) (i : ℕ) : Type 0 where
  x : ℕ
  y : ℕ
  at_x : column b a d i ≡ pos x
  at_y : row b a d i ≡ pos y
  in_x : x < 17
  in_y : y < 11

Inner-next : (b : Bomb) (a : Axis) (d : Direction) (i : ℕ) → Inner b a d i → OnBoard b a d (i + 1)
Inner-next b along_x back i n = record {
  x = n.x - 1;
  y = n.y;
  at_x = ground arith;
  at_y = n.at_y;
  in_x = omega arith;
  in_y = omega arith;
}
Inner-next b along_x forth i n = record {
  x = n.x + 1;
  y = n.y;
  at_x = ground arith;
  at_y = n.at_y;
  in_x = omega arith;
  in_y = omega arith;
}
Inner-next b along_y back i n = record {
  x = n.x;
  y = n.y - 1;
  at_x = n.at_x;
  at_y = ground arith;
  in_x = omega arith;
  in_y = omega arith;
}
Inner-next b along_y forth i n = record {
  x = n.x;
  y = n.y + 1;
  at_x = n.at_x;
  at_y = ground arith;
  in_x = omega arith;
  in_y = omega arith;
}

-- A loop that starts next to a square inside the rim ends, and keeps the invariant.
ray-Burns :
    (old : Squares) (time : ℕ) (b : Bomb) (a : Axis) (d : Direction) (left i : ℕ) (s : Blast)
    → Burns old s
    → Inner b a d i
    → (out : Blast) × (ray time b a d left (i + 1) s ≡ some out) × Burns old out
unfolding ray
ray-Burns old time b a d zero i s h n = (s, refl, h)
ray-Burns old time b a d (suc left) i s h n =
    let o = Inner-next b a d i n in
    let t = touch-Touches old time b.is_atomic o.x o.y s h o.in_x o.in_y in
    let step : touch time b.is_atomic (column b a d (i + 1)) (row b a d (i + 1)) s
        ≡ some (t.out, t.stop) =
      rw (o.at_x, o.at_y) t.returns in
    elim (Bool-cases t.stop) [
      | inl done ↦ (t.out, ground arith, t.burns)
      | inr more ↦
          let rest = ray-Burns old time b a d left (i + 1) t.out t.burns (record {
            x = o.x;
            y = o.y;
            at_x = o.at_x;
            at_y = o.at_y;
            interior = t.goes_on more;
          }) in
          (rest.0, ground arith, rest.2)
    ]

Inner-zero :
    (b : Bomb) (a : Axis) (d : Direction) (x y : ℕ)
    → b.pos_x ≡ pos x
    → b.pos_y ≡ pos y
    → Interior x y
    → Inner b a d 0
Inner-zero b along_x back x y ex ey i = record {
  x = x;
  y = y;
  at_x = ground arith;
  at_y = ey;
  interior = i;
}
Inner-zero b along_x forth x y ex ey i = record {
  x = x;
  y = y;
  at_x = ground arith;
  at_y = ey;
  interior = i;
}
Inner-zero b along_y back x y ex ey i = record {
  x = x;
  y = y;
  at_x = ex;
  at_y = ground arith;
  interior = i;
}
Inner-zero b along_y forth x y ex ey i = record {
  x = x;
  y = y;
  at_x = ex;
  at_y = ground arith;
  interior = i;
}

-- A bomb inside the rim of a board of the right shape explodes without an access outside the board.
-- Its tiles all lie inside the rim. On the board a square keeps its state, unless it was a box that
-- is now free and among the tiles; so walls stay, and the board keeps its shape.
pub boom-Burns :
    (time : ℕ) (b : Bomb) (m : Map) (x y : ℕ)
    → IsArena m.squares
    → b.pos_x ≡ pos x
    → b.pos_y ≡ pos y
    → Interior x y
    → (out : Blast) × (boom time b m ≡ some out) × Burns m.squares out
unfolding boom
boom-Burns time b m x y arena ex ey i =
    let s0 : Blast = record { tiles = light time b.pos_x b.pos_y []; map = m } in
    let b0 : Burns m.squares s0 = record {
      arena = arena;
      changed = λ p q. inl refl;
      inner = ((x, y, ex, ey, i), tt);
    } in
    let k = b.explosion - 1 in
    let (s1, e1, b1) =
      ray-Burns m.squares time b along_x back k 0 s0 b0 (Inner-zero b along_x back x y ex ey i) in
    let (s2, e2, b2) =
      ray-Burns m.squares time b along_y back k 0 s1 b1 (Inner-zero b along_y back x y ex ey i) in
    let (s3, e3, b3) =
      ray-Burns m.squares time b along_x forth k 0 s2 b2 (Inner-zero b along_x forth x y ex ey i) in
    let (s4, e4, b4) =
      ray-Burns m.squares time b along_y forth k 0 s3 b3 (Inner-zero b along_y forth x y ex ey i) in
    (s4, rw (e1, e2, e3, e4), b4)
