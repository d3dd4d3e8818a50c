-- ===== src/Bomb/Lines.antt =====
-- The fire of a bomb along one line, on a board that does not change meanwhile, and that `boom` of
-- game/src/shared/game/Bomb.cpp lights just these squares, although it opens boxes as it goes.
use boomberman.Map.Arena.{square_at-write_square}
use boomberman.Map.{write_square, set_square_state, get_square_state}
use mathlib.Core.List.{append_assoc, append-nil}
use boomberman.Bomb.{
  forth, back, along_y, along_x, move_by, ray, row, column, Direction, Axis, Blast, Bomb,
  TileOnFire, touch,
}
use boomberman.Map.{Map}
use boomberman.Base.{
  subst, ==→eq, ◌≢◌, arith, ap, ◌∙◌, false, ◌<◌, ◌≤◌, true, pos, negsuc, refl, Option-cases, zero,
  inr, sym, inl, ◌+◌, Bool-cases, suc, none, not, ◌&&◌, ◌++◌, some, [], Option, if◌then◌else◌, ◌||◌,
  ◌≡◌, ◌==◌, List, Bool, ℤ, ◌∷◌, ℕ,
}

abbrev pub tile_at : ℕ → ℤ → ℤ → TileOnFire
tile_at time x y = record { x = x; y = y; on_fire_since = time }

-- What the fire lights of a square, and whether it ends there.
abbrev pub lights : ℕ → ℤ → ℤ → ℕ → List TileOnFire
lights time x y v = if v == 1 then [] else tile_at time x y ∷ []

abbrev pub stops : Bool → ℕ → Bool
stops atomic v = v == 1 || (v == 2 && not atomic)

-- From distance `i`, with `left` squares to go.
unfoldable pub line : ℕ → Map → Bomb → Axis → Direction → ℕ → ℕ → List TileOnFire
line time m b a d zero i = []
line time m b a d (suc left) i =
    let rest = line time m b a d left (i + 1) in
    elim (get_square_state m (column b a d i) (row b a d i)) [
      | none ↦ []
      | some v ↦
          lights time (column b a d i) (row b a d i) v ++ (if stops b.is_atomic v then [] else rest)
    ]

-- A write to the board is not seen elsewhere.
get_square_state-set :
    (m m' : Map) (x y p q : ℤ) (v : ℕ)
    → set_square_state m x y v ≡ some m'
    → ¬ ((p ≡ x) × (q ≡ y))
    → get_square_state m' p q ≡ get_square_state m p q
unfolding get_square_state set_square_state
get_square_state-set m m' (pos x) (pos y) (pos p) (pos q) v e n =
    elim (Option-cases (write_square m.squares x y v)) [
      | inl none_left ↦ cc
      | inr (squares, w) ↦
          let off : ((p == x) && (q == y)) ≡ false = elim (Bool-cases ((p == x) && (q == y))) [
            | inr k ↦ k
            | inl k ↦
                absurd (
                  n (
                    ap pos (==→eq p x (ground (arith, k))),
                    ap pos (==→eq q y (ground (arith, k))),
                  ))
          ] in
          let same : m' ≡ record m { squares = squares } = ground (arith, e, w) in
          rw same (square_at-write_square m.squares squares x y v w p q ∙ rw off refl)
    ]
get_square_state-set m m' (pos x) (pos y) (pos p) (negsuc q) v e n = refl
get_square_state-set m m' (pos x) (pos y) (negsuc p) q v e n = refl
get_square_state-set m m' (pos x) (negsuc y) p q v e n = cc
get_square_state-set m m' (negsuc x) y p q v e n = cc

-- One round at a square of state `v`.
record Rounds (time : ℕ) (atomic : Bool) (x y : ℤ) (v : ℕ) (s out : Blast) (stop : Bool)
    : Type 0 where
  tiles : out.tiles ≡ s.tiles ++ lights time x y v
  stop_is : stop ≡ stops atomic v
  elsewhere :
      (p q : ℤ) → ¬ ((p ≡ x) × (q ≡ y)) → get_square_state out.map p q ≡ get_square_state s.map p q

AnyRounds : ℕ → Bool → ℤ → ℤ → ℕ → Blast → Option (Blast × Bool) → Type 0
AnyRounds time atomic x y v s none = Unit {0}
AnyRounds time atomic x y v s (some (out, stop)) = Rounds time atomic x y v s out stop

touch-Rounds :
    (time : ℕ) (atomic : Bool) (x y : ℤ) (v : ℕ) (s : Blast)
    → get_square_state s.map x y ≡ some v
    → AnyRounds time atomic x y v s (touch time atomic x y s)
unfolding touch AnyRounds
touch-Rounds time atomic x y v s read = elim (Bool-cases (v == 1)) [
  | inl wall ↦
      rw (touch, read, wall)
        (record {
          tiles = rw wall (sym (append-nil s.tiles));
          stop_is = rw wall refl;
          elsewhere = λ p q n. refl;
        })
  | inr free ↦ elim (Bool-cases (v == 2)) [
    | inr clear ↦
        rw (touch, read, free, clear)
          (record {
            tiles = rw free refl;
            stop_is = rw (free, clear) refl;
            elsewhere = λ p q n. refl;
          })
    | inl box ↦ elim (Option-cases (set_square_state s.map x y 0)) [
      | inl none_left ↦ rw (touch, read, free, box, none_left) tt
      | inr (m, w) ↦
          rw (touch, read, free, box, w)
            (record {
              tiles = rw free refl;
              stop_is = rw (free, box) refl;
              elsewhere = λ p q n. get_square_state-set s.map m x y p q 0 w n;
            })
    ]
  ]
]

touch-none :
    (time : ℕ) (atomic : Bool) (x y : ℤ) (s : Blast)
    → get_square_state s.map x y ≡ none
    → touch time atomic x y s ≡ none
unfolding touch
touch-none time atomic x y s off = rw (touch, off) refl

-- Squares at different distances are different.
move_by-ne : (p : ℤ) (d : Direction) (i j : ℕ) → i < j → move_by p d j ≢ move_by p d i
move_by-ne (pos p) back i j h e = ground (arith, h, e)
move_by-ne (pos p) forth i j h e = ground (arith, h, e)
move_by-ne (negsuc p) back i j h e = ground (arith, h, e)
move_by-ne (negsuc p) forth i j h e = ground (arith, h, e)

line-ne :
    (b : Bomb) (a : Axis) (d : Direction) (i j : ℕ)
    → i < j
    → ¬ ((column b a d j ≡ column b a d i) × (row b a d j ≡ row b a d i))
line-ne b along_x d i j h e = move_by-ne b.pos_x d i j h (e.0)
line-ne b along_y d i j h e = move_by-ne b.pos_y d i j h (e.1)

-- A square that is not on the line from distance `i` on.
abbrev pub IsOff : Bomb → Axis → Direction → ℕ → ℤ → ℤ → Type 0
IsOff b a d i x y = (j : ℕ) → i ≤ j → ¬ ((x ≡ column b a d j) × (y ≡ row b a d j))

module _ (time : ℕ) (m : Map) (b : Bomb) (a : Axis) (d : Direction) where
  -- The board reads as `m` on the rest of the line.
  abbrev pub IsIntact : ℕ → Blast → Type 0
  IsIntact i s =
      (j : ℕ)
      → i ≤ j
      → get_square_state s.map (column b a d j) (row b a d j)
        ≡ get_square_state m (column b a d j) (row b a d j)

  pub record Draws (left i : ℕ) (s out : Blast) : Type 0 where
    pub tiles : out.tiles ≡ s.tiles ++ line time m b a d left i
    pub elsewhere :
        (x y : ℤ) → IsOff b a d i x y → get_square_state out.map x y ≡ get_square_state s.map x y

  AnyDraws : ℕ → ℕ → Blast → Option Blast → Type 0
  AnyDraws left i s none = Unit {0}
  AnyDraws left i s (some out) = Draws left i s out

  Rounds-Draws :
      (left i v : ℕ) (s s' : Blast)
      → get_square_state m (column b a d i) (row b a d i) ≡ some v
      → Rounds time b.is_atomic (column b a d i) (row b a d i) v s s' true
      → Draws (suc left) i s s'
  unfolding line
  Rounds-Draws left i v s s' read k = record {
    tiles =
        rw (line, read)
          (k.tiles
            ∙ ap (λ ts. s.tiles ++ ts)
                (sym (
                  if-stops (stops b.is_atomic v) _ (line time m b a d left (i + 1))
                    (sym k.stop_is))));
    elsewhere = λ x y off. k.elsewhere x y (off i (omega arith));
  }
    where
      if-stops :
          (stop : Bool) (front rest : List TileOnFire)
          → stop ≡ true
          → front ++ (if stop then [] else rest) ≡ front
      if-stops stop front rest e = rw e (append-nil front)

  Rounds-then-Draws :
      (left i v : ℕ) (s s' : Blast) (o : Option Blast)
      → get_square_state m (column b a d i) (row b a d i) ≡ some v
      → Rounds time b.is_atomic (column b a d i) (row b a d i) v s s' false
      → AnyDraws left (i + 1) s' o
      → AnyDraws (suc left) i s o
  unfolding line AnyDraws
  Rounds-then-Draws left i v s s' none read k rest = tt
  Rounds-then-Draws left i v s s' (some out) read k rest = record {
    tiles =
        rw (line, read)
          (rest.tiles
            ∙ ap (λ ts. ts ++ line time m b a d left (i + 1)) k.tiles
            ∙ append_assoc s.tiles _ (line time m b a d left (i + 1))
            ∙ ap (λ ts. s.tiles ++ ts)
                (sym (
                  if-goes (stops b.is_atomic v) _ (line time m b a d left (i + 1))
                    (sym k.stop_is))));
    elsewhere = λ x y off.
        rest.elsewhere x y (λ j h. off j (omega (arith, h)))
        ∙ k.elsewhere x y (off i (omega arith));
  }
    where
      if-goes :
          (stop : Bool) (front rest : List TileOnFire)
          → stop ≡ false
          → front ++ (if stop then [] else rest) ≡ front ++ rest
      if-goes stop front rest e = rw e refl

  ray-AnyDraws :
      (left i : ℕ) (s : Blast) → IsIntact i s → AnyDraws left i s (ray time b a d left i s)
  unfolding ray AnyDraws AnyRounds line
  ray-AnyDraws zero i s intact = record {
    tiles = sym (append-nil s.tiles);
    elsewhere = λ x y off. refl;
  }
  ray-AnyDraws (suc left) i s intact =
      let x = column b a d i in
      let y = row b a d i in
      let same = intact i (omega arith) in
      elim (Option-cases (get_square_state m x y)) [
        | inl off ↦ rw (ray, touch-none time b.is_atomic x y s (same ∙ off)) tt
        | inr (v, on) ↦
            let k = touch-Rounds time b.is_atomic x y v s (same ∙ on) in
            elim (Option-cases (touch time b.is_atomic x y s)) [
              | inl gone ↦ rw (ray, gone) tt
              | inr ((s', true), e) ↦
                  let k' = subst (AnyRounds time b.is_atomic x y v s) e k in
                  rw (ray, e) (Rounds-Draws left i v s s' on k')
              | inr ((s', false), e) ↦
                  let k' = subst (AnyRounds time b.is_atomic x y v s) e k in
                  rw (ray, e)
                    (Rounds-then-Draws left i v s s' _ on k' (
                      ray-AnyDraws left (i + 1) s' (λ j h.
                        k'.elsewhere (column b a d j) (row b a d j)
                          (line-ne b a d i j (omega (arith, h)))
                        ∙ intact j (omega (arith, h)))))
            ]
      ]

  pub ray-Draws :
      (left i : ℕ) (s out : Blast)
      → IsIntact i s
      → ray time b a d left i s ≡ some out
      → Draws left i s out
  unfolding AnyDraws
  ray-Draws left i s out intact e = subst (AnyDraws left i s) e (ray-AnyDraws left i s intact)
