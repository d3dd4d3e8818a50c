-- ===== src/Bomb/Exact.antt =====
-- An independent description of an explosion: `boom` of game/src/shared/game/Bomb.cpp lights a square just when the fire
-- gets there in a straight line.
use boomberman.Bomb.Burns.{
  IsInner, Burns, Lit-split, Interior, Lit-append_right, Lit-append_left, Lit,
}
use boomberman.Bomb.Opened.{boom-IsOpened}
use boomberman.Map.{get_square_state}
use boomberman.Bomb.Spots.{Spot, Spot-line, line-Spot}
use boomberman.Map.Arena.{IsArena}
use boomberman.Bomb.Reach.{origin-IsOff, boom-fire, fire}
use boomberman.Bomb.Boom.{boom-Burns}
use boomberman.Bomb.{boom, back, along_x, forth, along_y, Blast, Direction, Axis, Bomb, TileOnFire}
use boomberman.Bomb.Lines.{line, tile_at}
use boomberman.Map.{square_at, Map}
use boomberman.Base.{
  ℤ, ◌∙◌, All, ◌-◌, sym, some, subst, [], inl, inr, ◌++◌, ◌⊎◌, ◌≡◌, List, ◌∷◌, pos, ℕ,
}

-- The fire gets to a square along one of the lines.
pub record IsReached (m : Map) (b : Bomb) (x y : ℕ) : Type 0 where
  pub axis : Axis
  pub direction : Direction
  pub spot : Spot m b axis direction 1 (b.explosion - 1) x y

-- What the tiles of an explosion are, by the board before it, and what it does to the board.
pub record Reaches (m : Map) (b : Bomb) (out : Blast) : Type 0 where
  pub lit_reached :
      (x y : ℕ) → Lit x y out.tiles → (b.pos_x ≡ pos x) × (b.pos_y ≡ pos y) ⊎ IsReached m b x y
  pub own_lit : (x y : ℕ) → b.pos_x ≡ pos x → b.pos_y ≡ pos y → Lit x y out.tiles
  pub reached_lit : (x y : ℕ) → IsReached m b x y → Lit x y out.tiles
  pub opened :
      (x y : ℕ)
      → IsReached m b x y
      → square_at m.squares x y ≡ some 2
      → square_at out.map.squares x y ≡ some 0
  pub unchanged :
      (x y : ℕ)
      → ¬ (IsReached m b x y × (square_at m.squares x y ≡ some 2))
      → square_at out.map.squares x y ≡ square_at m.squares x y
  pub arena : IsArena out.map.squares
  pub inner : All IsInner out.tiles

line-IsReached :
    (time : ℕ) (m : Map) (b : Bomb) (a : Axis) (d : Direction) (x y : ℕ)
    → Lit x y (line time m b a d (b.explosion - 1) 1)
    → IsReached m b x y
line-IsReached time m b a d x y k = record {
  axis = a;
  direction = d;
  spot = line-Spot time m b a d (b.explosion - 1) 1 x y k;
}

-- Five lists in a row.
Lit-split_fire :
    (x y : ℕ) (t l u r d : List TileOnFire)
    → Lit x y ((((t ++ l) ++ u) ++ r) ++ d)
    → Lit x y t ⊎ (Lit x y l ⊎ (Lit x y u ⊎ (Lit x y r ⊎ Lit x y d)))
Lit-split_fire x y t l u r d h = elim (Lit-split x y (((t ++ l) ++ u) ++ r) d h) [
  | inr k ↦ inr (inr (inr (inr k)))
  | inl h1 ↦ elim (Lit-split x y ((t ++ l) ++ u) r h1) [
    | inr k ↦ inr (inr (inr (inl k)))
    | inl h2 ↦ elim (Lit-split x y (t ++ l) u h2) [
      | inr k ↦ inr (inr (inl k))
      | inl h3 ↦ elim (Lit-split x y t l h3) [ inr k ↦ inr (inl k) | inl k ↦ inl k ]
    ]
  ]
]

Lit-join_fire :
    (x y : ℕ) (t l u r d : List TileOnFire)
    → Lit x y t ⊎ (Lit x y l ⊎ (Lit x y u ⊎ (Lit x y r ⊎ Lit x y d)))
    → Lit x y ((((t ++ l) ++ u) ++ r) ++ d)
Lit-join_fire x y t l u r d h =
    let left = λ (k : Lit x y ((t ++ l) ++ u)).
      Lit-append_left x y (((t ++ l) ++ u) ++ r) d (Lit-append_left x y ((t ++ l) ++ u) r k) in
    elim h [
      | inl k ↦ left (Lit-append_left x y (t ++ l) u (Lit-append_left x y t l k))
      | inr (inl k) ↦ left (Lit-append_left x y (t ++ l) u (Lit-append_right x y t l k))
      | inr (inr (inl k)) ↦ left (Lit-append_right x y (t ++ l) u k)
      | inr (inr (inr (inl k))) ↦
          Lit-append_left x y (((t ++ l) ++ u) ++ r) d (Lit-append_right x y ((t ++ l) ++ u) r k)
      | inr (inr (inr (inr k))) ↦ Lit-append_right x y (((t ++ l) ++ u) ++ r) d k
    ]

module _ (time : ℕ) (m : Map) (b : Bomb) (x y : ℕ) where
  -- The tile of the bomb and the lines of `fire`.
  abbrev Parts : Type 0
  Parts =
      let n = b.explosion - 1 in
      Lit x y (tile_at time b.pos_x b.pos_y ∷ [])
      ⊎ (Lit x y (line time m b along_x back n 1)
          ⊎ (Lit x y (line time m b along_y back n 1)
              ⊎ (Lit x y (line time m b along_x forth n 1)
                  ⊎ Lit x y (line time m b along_y forth n 1))))

  fire-Parts : Lit x y (fire time m b) → Parts
  fire-Parts h =
      let n = b.explosion - 1 in
      Lit-split_fire x y (tile_at time b.pos_x b.pos_y ∷ []) (line time m b along_x back n 1)
        (line time m b along_y back n 1) (line time m b along_x forth n 1)
        (line time m b along_y forth n 1) h

  Parts-fire : Parts → Lit x y (fire time m b)
  Parts-fire h =
      let n = b.explosion - 1 in
      Lit-join_fire x y (tile_at time b.pos_x b.pos_y ∷ []) (line time m b along_x back n 1)
        (line time m b along_y back n 1) (line time m b along_x forth n 1)
        (line time m b along_y forth n 1) h

  fire-IsReached :
      Lit x y (fire time m b) → (b.pos_x ≡ pos x) × (b.pos_y ≡ pos y) ⊎ IsReached m b x y
  fire-IsReached h = elim (fire-Parts h) [
    | inl (inl k) ↦ inl k
    | inl (inr k) ↦ absurd k
    | inr (inl k) ↦ inr (line-IsReached time m b along_x back x y k)
    | inr (inr (inl k)) ↦ inr (line-IsReached time m b along_y back x y k)
    | inr (inr (inr (inl k))) ↦ inr (line-IsReached time m b along_x forth x y k)
    | inr (inr (inr (inr k))) ↦ inr (line-IsReached time m b along_y forth x y k)
  ]

  line-fire :
      (a : Axis) (d : Direction)
      → Lit x y (line time m b a d (b.explosion - 1) 1)
      → Lit x y (fire time m b)
  line-fire along_x back k = Parts-fire (inr (inl k))
  line-fire along_y back k = Parts-fire (inr (inr (inl k)))
  line-fire along_x forth k = Parts-fire (inr (inr (inr (inl k))))
  line-fire along_y forth k = Parts-fire (inr (inr (inr (inr k))))

  IsReached-fire : IsReached m b x y → Lit x y (fire time m b)
  IsReached-fire r =
      line-fire r.axis r.direction
        (Spot-line time m b r.axis r.direction (b.explosion - 1) 1 x y r.spot)

-- The bomb's own square is not reached.
own-IsReached :
    (m : Map) (b : Bomb) (x y : ℕ) → b.pos_x ≡ pos x → b.pos_y ≡ pos y → ¬ IsReached m b x y
own-IsReached m b x y hx hy r =
    origin-IsOff b r.axis r.direction r.spot.distance r.spot.near
      (hx ∙ sym r.spot.at_x, hy ∙ sym r.spot.at_y)

module _ (time : ℕ) (b : Bomb) (m : Map) (out : Blast) (e : boom time b m ≡ some out)
    (burns : Burns m.squares out) where
  IsReached-Lit : (x y : ℕ) → IsReached m b x y → Lit x y out.tiles
  IsReached-Lit x y r =
      subst (Lit x y) (sym ((boom-fire time m b out e).0)) (IsReached-fire time m b x y r)

  Lit-IsReached :
      (x y : ℕ) → Lit x y out.tiles → (b.pos_x ≡ pos x) × (b.pos_y ≡ pos y) ⊎ IsReached m b x y
  Lit-IsReached x y h =
      fire-IsReached time m b x y (subst (Lit x y) ((boom-fire time m b out e).0) h)

  IsReached-opens :
      (x y : ℕ)
      → IsReached m b x y
      → square_at m.squares x y ≡ some 2
      → square_at out.map.squares x y ≡ some 0
  unfolding get_square_state
  IsReached-opens x y r box = elim (burns.changed x y) [
    | inr (h, free, l) ↦ free
    | inl same ↦ elim (boom-IsOpened time b m out e x y (IsReached-Lit x y r)) [
      | inl own ↦ absurd (own-IsReached m b x y (own.0) (own.1) r)
      | inr n ↦ absurd (n (same ∙ box))
    ]
  ]

  own_same :
      (x y : ℕ)
      → b.pos_x ≡ pos x
      → b.pos_y ≡ pos y
      → square_at out.map.squares x y ≡ square_at m.squares x y
  unfolding get_square_state
  own_same x y hx hy =
      subst (λ (p : ℤ). get_square_state out.map p (pos y) ≡ get_square_state m p (pos y)) hx
        (subst (λ (q : ℤ). get_square_state out.map b.pos_x q ≡ get_square_state m b.pos_x q) hy
          ((boom-fire time m b out e).1))

  not_IsReached-same :
      (x y : ℕ)
      → ¬ (IsReached m b x y × (square_at m.squares x y ≡ some 2))
      → square_at out.map.squares x y ≡ square_at m.squares x y
  not_IsReached-same x y n = elim (burns.changed x y) [
    | inl same ↦ same
    | inr (box, free, l) ↦ elim (Lit-IsReached x y l) [
      | inl own ↦ own_same x y (own.0) (own.1)
      | inr r ↦ absurd (n (r, box))
    ]
  ]

-- A bomb inside the rim of a board of the right shape explodes without an access outside the board, and lights just its
-- own square and those that the fire reaches: on its row or column, nearer than its range, no walls, with no wall before
-- them on the board as it was, and no box either unless the bomb is atomic. The boxes that the fire reaches are free
-- squares afterwards, all other squares, the bomb's own among them, keep their state, so that the board keeps its shape,
-- and the tiles lie inside the rim.
pub boom-Reaches :
    (time : ℕ) (b : Bomb) (m : Map) (x y : ℕ)
    → IsArena m.squares
    → b.pos_x ≡ pos x
    → b.pos_y ≡ pos y
    → Interior x y
    → (out : Blast) × (boom time b m ≡ some out) × Reaches m b out
boom-Reaches time b m x y arena ex ey i =
    let (out, e, burns) = boom-Burns time b m x y arena ex ey i in
    (
      out,
      e,
      record {
        lit_reached = Lit-IsReached time b m out e burns;
        own_lit = λ p q hx hy.
            subst (Lit p q) (sym ((boom-fire time m b out e).0))
              (Parts-fire time m b p q (inl (inl (hx, hy))));
        reached_lit = IsReached-Lit time b m out e burns;
        opened = IsReached-opens time b m out e burns;
        unchanged = not_IsReached-same time b m out e burns;
        arena = burns.arena;
        inner = burns.inner;
      },
    )
