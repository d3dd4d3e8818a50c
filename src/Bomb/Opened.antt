-- ===== src/Bomb/Opened.antt =====
-- That `boom` of game/src/shared/game/Bomb.cpp leaves no box on a square that it lights, the bomb's own excepted.
use boomberman.Bomb.Burns.{Lit-split, Lit}
use boomberman.Map.Arena.{square_at-write_square}
use boomberman.Map.{square_at, write_square, get_square_state, set_square_state}
use boomberman.Base.{
  refl, ◌∙◌, ◌&&◌, false, true, arith, ◌==◌, zero, ◌+◌, Bool-cases, ◌-◌, sym, inr, ◌≢◌, none, subst,
  inl, some, Option-cases, [], ◌⊎◌, suc, Bool, ◌≡◌, Option, ℤ, ◌∷◌, pos, negsuc, ℕ,
}
use boomberman.Bomb.{
  Map, touch, ray, boom, light, Blast, Bomb, Axis, Direction, along_x, along_y, back, forth, column,
  row,
}

set_square_state-get :
    (m m' : Map) (x y : ℤ) (v : ℕ)
    → set_square_state m x y v ≡ some m'
    → get_square_state m' x y ≡ some v
unfolding get_square_state set_square_state
set_square_state-get m m' (pos x) (pos y) v e = elim (Option-cases (write_square m.squares x y v)) [
  | inl none_left ↦ cc
  | inr (squares, w) ↦
      let here : ((x == x) && (y == y)) ≡ true = ground (arith) in
      let same : m' ≡ record m { squares = squares } = ground (arith, e, w) in
      rw same (square_at-write_square m.squares squares x y v w x y ∙ rw here refl)
]
set_square_state-get m m' (pos x) (negsuc y) v e = cc
set_square_state-get m m' (negsuc x) y v e = cc

-- Opening a box makes no new one.
set-no_new :
    (m m' : Map) (x y : ℤ)
    → set_square_state m x y 0 ≡ some m'
    → (p q : ℤ) → get_square_state m' p q ≡ some 2
    → get_square_state m p q ≡ some 2
unfolding get_square_state set_square_state
set-no_new m m' (pos x) (pos y) e (pos p) (pos q) h =
    elim (Option-cases (write_square m.squares x y 0)) [
      | inl none_left ↦ cc
      | inr (squares, w) ↦
          let same : m' ≡ record m { squares = squares } = ground (arith, e, w) in
          let h' : square_at squares p q ≡ some 2 =
            subst (λ (k : Map). square_at k.squares p q ≡ some 2) same h in
          ground (arith, h', square_at-write_square m.squares squares x y 0 w p q)
    ]
set-no_new m m' (pos x) (pos y) e (pos p) (negsuc q) h = h
set-no_new m m' (pos x) (pos y) e (negsuc p) q h = h
set-no_new m m' (pos x) (negsuc y) e p q h = cc
set-no_new m m' (negsuc x) y e p q h = cc

module _ (own_x own_y : ℤ) where
  -- No box on a lit square, the bomb's own excepted.
  abbrev IsOpened : Blast → Type 0
  IsOpened s =
      (p q : ℕ)
      → Lit p q s.tiles
      → (own_x ≡ pos p) × (own_y ≡ pos q) ⊎ get_square_state s.map (pos p) (pos q) ≢ some 2

  IsOpened-light :
      (time : ℕ) (x y : ℤ) (s : Blast) (m : Map)
      → IsOpened s
      → ((p q : ℤ) → get_square_state m p q ≡ some 2 → get_square_state s.map p q ≡ some 2)
      → get_square_state m x y ≢ some 2
      → IsOpened (record { tiles = light time x y s.tiles; map = m })
  IsOpened-light time x y s m h no_new clear p q k =
      elim (Lit-split p q s.tiles (record { x = x; y = y; on_fire_since = time } ∷ []) k) [
        | inl old ↦ elim (h p q old) [
          | inl own ↦ inl own
          | inr n ↦ inr (λ e. n (no_new (pos p) (pos q) e))
        ]
        | inr (inl here) ↦ inr (λ e. clear (
            subst (λ (c : ℤ). get_square_state m c y ≡ some 2) (sym (here.0))
              (subst (λ (c : ℤ). get_square_state m (pos p) c ≡ some 2) (sym (here.1)) e)))
        | inr (inr nowhere) ↦ absurd nowhere
      ]

  AnyTouched : Option (Blast × Bool) → Type 0
  AnyTouched none = Unit {0}
  AnyTouched (some (out, stop)) = IsOpened out

  touch-AnyTouched :
      (time : ℕ) (atomic : Bool) (x y : ℤ) (s : Blast)
      → IsOpened s
      → AnyTouched (touch time atomic x y s)
  unfolding touch AnyTouched
  touch-AnyTouched time atomic x y s h = elim (Option-cases (get_square_state s.map x y)) [
    | inl off ↦ rw (touch, off) tt
    | inr (v, on) ↦ elim (Bool-cases (v == 1)) [
      | inl wall ↦ rw (touch, on, wall) h
      | inr free ↦ elim (Bool-cases (v == 2)) [
        | inr clear ↦
            rw (touch, on, free, clear)
              (IsOpened-light time x y s s.map h (λ p q e. e) (λ e. ground (arith, e, on, clear)))
        | inl box ↦ elim (Option-cases (set_square_state s.map x y 0)) [
          | inl none_left ↦ rw (touch, on, free, box, none_left) tt
          | inr (m, w) ↦
              rw (touch, on, free, box, w)
                (IsOpened-light time x y s m h (set-no_new s.map m x y w)
                  (λ e. ground (arith, e, set_square_state-get s.map m x y 0 w)))
        ]
      ]
    ]
  ]

  AnyOpened : Option Blast → Type 0
  AnyOpened none = Unit {0}
  AnyOpened (some out) = IsOpened out

  ray-AnyOpened :
      (time : ℕ) (b : Bomb) (a : Axis) (d : Direction) (left i : ℕ) (s : Blast)
      → IsOpened s
      → AnyOpened (ray time b a d left i s)
  unfolding ray AnyOpened AnyTouched
  ray-AnyOpened time b a d zero i s h = h
  ray-AnyOpened time b a d (suc left) i s h =
      let k = touch-AnyTouched time b.is_atomic (column b a d i) (row b a d i) s h in
      elim (Option-cases (touch time b.is_atomic (column b a d i) (row b a d i) s)) [
        | inl off ↦ rw (ray, off) tt
        | inr ((s', true), e) ↦ rw (ray, e) (subst AnyTouched e k)
        | inr ((s', false), e) ↦
            rw (ray, e) (ray-AnyOpened time b a d left (i + 1) s' (subst AnyTouched e k))
      ]

  ray-IsOpened :
      (time : ℕ) (b : Bomb) (a : Axis) (d : Direction) (left i : ℕ) (s out : Blast)
      → IsOpened s
      → ray time b a d left i s ≡ some out
      → IsOpened out
  unfolding AnyOpened
  ray-IsOpened time b a d left i s out h e = subst AnyOpened e (ray-AnyOpened time b a d left i s h)

boom-AnyOpened : (time : ℕ) (b : Bomb) (m : Map) → AnyOpened b.pos_x b.pos_y (boom time b m)
unfolding boom AnyOpened
boom-AnyOpened time b m =
    let n = b.explosion - 1 in
    let s0 : Blast = record { tiles = light time b.pos_x b.pos_y []; map = m } in
    let h0 : IsOpened b.pos_x b.pos_y s0 = λ p q k. own p q k in
    elim (Option-cases (ray time b along_x back n 1 s0)) [
      | inl e ↦ rw (boom, e) tt
      | inr (s1, e1) ↦
          let h1 = ray-IsOpened b.pos_x b.pos_y time b along_x back n 1 s0 s1 h0 e1 in
          elim (Option-cases (ray time b along_y back n 1 s1)) [
            | inl e ↦ rw (boom, e1, e) tt
            | inr (s2, e2) ↦
                let h2 = ray-IsOpened b.pos_x b.pos_y time b along_y back n 1 s1 s2 h1 e2 in
                elim (Option-cases (ray time b along_x forth n 1 s2)) [
                  | inl e ↦ rw (boom, e1, e2, e) tt
                  | inr (s3, e3) ↦
                      let h3 = ray-IsOpened b.pos_x b.pos_y time b along_x forth n 1 s2 s3 h2 e3 in
                      rw (boom, e1, e2, e3)
                        (ray-AnyOpened b.pos_x b.pos_y time b along_y forth n 1 s3 h3)
                ]
          ]
    ]
  where
    own :
        (p q : ℕ)
        → Lit p q (light time b.pos_x b.pos_y [])
        → (b.pos_x ≡ pos p) × (b.pos_y ≡ pos q) ⊎ get_square_state m (pos p) (pos q) ≢ some 2
    own p q (inl here) = inl here
    own p q (inr nowhere) = absurd nowhere

-- An explosion leaves no box on a square that it lights, the bomb's own excepted.
pub boom-IsOpened :
    (time : ℕ) (b : Bomb) (m : Map) (out : Blast)
    → boom time b m ≡ some out
    → (p q : ℕ) → Lit p q out.tiles
    → (b.pos_x ≡ pos p) × (b.pos_y ≡ pos q) ⊎ get_square_state out.map (pos p) (pos q) ≢ some 2
unfolding AnyOpened
boom-IsOpened time b m out e = subst (AnyOpened b.pos_x b.pos_y) e (boom-AnyOpened time b m)
