-- ===== src/Bomb/Reach.antt =====
-- Which squares an explosion reaches: `boom` of game/src/shared/game/Bomb.cpp against a description of the fire on the
-- board as it was before.
use boomberman.Bomb.Lines.{ray-Draws, line, IsOff}
use boomberman.Map.{Map}
use boomberman.Bomb.{
  get_square_state, ray, light, row, column, forth, along_y, back, along_x, TileOnFire, move_by,
  Blast, Axis, Direction, Bomb, boom,
}
use boomberman.Base.{
  subst, refl, ap, ◌∙◌, inr, inl, Option-cases, sym, ◌++◌, none, arith, [], ◌≡◌, ◌-◌, some, ◌≢◌,
  ◌≤◌, Option, List, ℤ, ◌∷◌, pos, negsuc, ℕ,
}

origin_ne : (p : ℤ) (d : Direction) (j : ℕ) → 1 ≤ j → move_by p d j ≢ p
origin_ne (pos p) back j h e = ground (arith, h, e)
origin_ne (pos p) forth j h e = ground (arith, h, e)
origin_ne (negsuc p) back j h e = ground (arith, h, e)
origin_ne (negsuc p) forth j h e = ground (arith, h, e)

sides_ne : (p : ℤ) (j k : ℕ) → 1 ≤ j → move_by p back k ≢ move_by p forth j
sides_ne (pos p) j k h e = ground (arith, h, e)
sides_ne (negsuc p) j k h e = ground (arith, h, e)

-- The lines cross in the bomb only.
x_line-IsOff :
    (b : Bomb) (d d' : Direction) (j : ℕ)
    → 1 ≤ j
    → IsOff b along_x d 1 (column b along_y d' j) (row b along_y d' j)
x_line-IsOff b d d' j h k h' e = origin_ne b.pos_x d k h' (sym (e.0))

y_line-IsOff :
    (b : Bomb) (d d' : Direction) (j : ℕ)
    → 1 ≤ j
    → IsOff b along_y d 1 (column b along_x d' j) (row b along_x d' j)
y_line-IsOff b d d' j h k h' e = origin_ne b.pos_y d k h' (sym (e.1))

sides-IsOff :
    (b : Bomb) (a : Axis) (j : ℕ) → 1 ≤ j → IsOff b a back 1 (column b a forth j) (row b a forth j)
sides-IsOff b along_x j h k h' e = sides_ne b.pos_x j k h (sym (e.0))
sides-IsOff b along_y j h k h' e = sides_ne b.pos_y j k h (sym (e.1))

pub origin-IsOff : (b : Bomb) (a : Axis) (d : Direction) → IsOff b a d 1 b.pos_x b.pos_y
origin-IsOff b along_x d j h e = origin_ne b.pos_x d j h (sym (e.0))
origin-IsOff b along_y d j h e = origin_ne b.pos_y d j h (sym (e.1))

-- The bomb's own tile and the four lines, in the order of the loops, all on the board as it was.
abbrev pub fire : ℕ → Map → Bomb → List TileOnFire
fire time m b =
    let n = b.explosion - 1 in
    let start : List TileOnFire = record { x = b.pos_x; y = b.pos_y; on_fire_since = time } ∷ [] in
    let left = start ++ line time m b along_x back n 1 in
    let up = left ++ line time m b along_y back n 1 in
    let right = up ++ line time m b along_x forth n 1 in right ++ line time m b along_y forth n 1

AnyFire : ℕ → Map → Bomb → Option Blast → Type 0
AnyFire time m b none = Unit {0}
AnyFire time m b (some out) =
    (out.tiles ≡ fire time m b)
    × (get_square_state out.map b.pos_x b.pos_y ≡ get_square_state m b.pos_x b.pos_y)

boom-AnyFire : (time : ℕ) (m : Map) (b : Bomb) → AnyFire time m b (boom time b m)
unfolding boom AnyFire
boom-AnyFire time m b =
    let n = b.explosion - 1 in
    let s0 : Blast = record { tiles = light time b.pos_x b.pos_y []; map = m } in
    elim (Option-cases (ray time b along_x back n 1 s0)) [
      | inl e ↦ rw (boom, e) tt
      | inr (s1, e1) ↦
          let k1 = ray-Draws time m b along_x back n 1 s0 s1 (λ j h. refl) e1 in
          elim (Option-cases (ray time b along_y back n 1 s1)) [
            | inl e ↦ rw (boom, e1, e) tt
            | inr (s2, e2) ↦
                let k2 =
                  ray-Draws time m b along_y back n 1 s1 s2
                    (λ j h. k1.elsewhere _ _ (x_line-IsOff b back back j h)) e2 in
                elim (Option-cases (ray time b along_x forth n 1 s2)) [
                  | inl e ↦ rw (boom, e1, e2, e) tt
                  | inr (s3, e3) ↦
                      let k3 =
                        ray-Draws time m b along_x forth n 1 s2 s3
                          (λ j h.
                            k2.elsewhere _ _ (y_line-IsOff b back forth j h)
                            ∙ k1.elsewhere _ _ (sides-IsOff b along_x j h))
                          e3 in
                      elim (Option-cases (ray time b along_y forth n 1 s3)) [
                        | inl e ↦ rw (boom, e1, e2, e3, e) tt
                        | inr (s4, e4) ↦
                            let k4 =
                              ray-Draws time m b along_y forth n 1 s3 s4
                                (λ j h.
                                  k3.elsewhere _ _ (x_line-IsOff b forth forth j h)
                                  ∙ k2.elsewhere _ _ (sides-IsOff b along_y j h)
                                  ∙ k1.elsewhere _ _ (x_line-IsOff b back forth j h))
                                e4 in
                            rw (boom, e1, e2, e3, e4)
                              (
                                (k4.tiles
                                    ∙ ap (λ ts. ts ++ line time m b along_y forth n 1)
                                        (k3.tiles
                                          ∙ ap (λ ts. ts ++ line time m b along_x forth n 1)
                                              (k2.tiles
                                                ∙ ap (λ ts. ts ++ line time m b along_y back n 1)
                                                    k1.tiles))),
                                k4.elsewhere _ _ (origin-IsOff b along_y forth)
                                    ∙ k3.elsewhere _ _ (origin-IsOff b along_x forth)
                                    ∙ k2.elsewhere _ _ (origin-IsOff b along_y back)
                                    ∙ k1.elsewhere _ _ (origin-IsOff b along_x back),
                              )
                      ]
                ]
          ]
    ]

-- An explosion lights the squares of the four lines, as the board was before it, and leaves its own square.
pub boom-fire :
    (time : ℕ) (m : Map) (b : Bomb) (out : Blast)
    → boom time b m ≡ some out
    → (out.tiles ≡ fire time m b)
      × (get_square_state out.map b.pos_x b.pos_y ≡ get_square_state m b.pos_x b.pos_y)
unfolding AnyFire
boom-fire time m b out e = subst (AnyFire time m b) e (boom-AnyFire time m b)
