-- ===== src/Bomb/Spots.antt =====
-- The squares that the fire of one line lights, described without the loop of `boom` in
-- game/src/shared/game/Bomb.cpp.

use boomberman.Bomb.Burns.{Lit-append_right, Lit-append_left, Lit-split, Lit}
use boomberman.Bomb.Lines.{tile_at, lights, line, stops}
use boomberman.Base.{
  zero, ==→ne, if-false, if-true, if◌then◌else◌, ◌++◌, inr, refl, sym, ne→==, Option-cases, ==→eq,
  [], subst, inl, suc, ◌==◌, ◌<◌, Bool-cases, ◌+◌, arith, false, ◌⊎◌, true, ◌≢◌, ◌≡◌, ◌≤◌, Bool,
  ◌∷◌, pos, ℕ, none, some,
}
use boomberman.Bomb.{get_square_state, Direction, Axis, Bomb, Map, row, column}

-- The fire goes on behind a square that is no wall, and no box either, unless the bomb is atomic.
abbrev pub Passes : Map → Bomb → Axis → Direction → ℕ → Type 0
Passes m b a d j =
    (v : ℕ) × (get_square_state m (column b a d j) (row b a d j) ≡ some v)
    × (v ≢ 1)
    × (v ≡ 2 → b.is_atomic ≡ true)

-- A square on one of the four lines, at a distance in a range, that is no wall and has nothing before it that stops
-- the fire.
pub record Spot (m : Map) (b : Bomb) (a : Axis) (d : Direction) (from left x y : ℕ) : Type 0 where
  pub distance : ℕ
  pub near : from ≤ distance
  pub far : distance < from + left
  pub at_x : column b a d distance ≡ pos x
  pub at_y : row b a d distance ≡ pos y
  pub state : ℕ
  pub read : get_square_state m (column b a d distance) (row b a d distance) ≡ some state
  pub not_wall : state ≢ 1
  pub clear : (j : ℕ) → from ≤ j → j < distance → Passes m b a d j

stops-Passes : (atomic : Bool) (v : ℕ) → stops atomic v ≡ false → (v ≢ 1) × (v ≡ 2 → atomic ≡ true)
stops-Passes atomic v e = (λ k. ground (arith, e, k), λ k. ground (arith, e, k))

Passes-stops : (atomic : Bool) (v : ℕ) → v ≢ 1 → (v ≡ 2 → atomic ≡ true) → stops atomic v ≡ false
Passes-stops atomic v n h = elim (Bool-cases (v == 2)) [
  | inl e ↦ let k = h (==→eq v 2 e) in let n' : (v == 1) ≡ false = ne→== v 1 n in rw (n', e, k) refl
  | inr e ↦ let n' : (v == 1) ≡ false = ne→== v 1 n in rw (n', e) refl
]

le-cases : (i j : ℕ) → i ≤ j → (i ≡ j) ⊎ (i + 1 ≤ j)
le-cases i j h = ground (arith, h)

module _ (time : ℕ) (m : Map) (b : Bomb) (a : Axis) (d : Direction) where
  line-step :
      (left i v : ℕ)
      → get_square_state m (column b a d i) (row b a d i) ≡ some v
      → line time m b a d (suc left) i
        ≡ lights time (column b a d i) (row b a d i) v
          ++ (if stops b.is_atomic v then [] else line time m b a d left (i + 1))
  unfolding line
  line-step left i v on = rw (line, on) refl

  line-off :
      (left i : ℕ)
      → get_square_state m (column b a d i) (row b a d i) ≡ none
      → line time m b a d (suc left) i ≡ []
  unfolding line
  line-off left i off = rw (line, off) refl

  pub line-Spot : (left i x y : ℕ) → Lit x y (line time m b a d left i) → Spot m b a d i left x y
  unfolding line
  line-Spot zero i x y h = absurd h
  line-Spot (suc left) i x y h =
      elim (Option-cases (get_square_state m (column b a d i) (row b a d i))) [
        | inl off ↦ absurd (subst (Lit x y) (line-off left i off) h)
        | inr (v, on) ↦
            elim (Lit-split x y (lights time (column b a d i) (row b a d i) v)
              (if stops b.is_atomic v then [] else line time m b a d left (i + 1))
              (subst (Lit x y) (line-step left i v on) h)) [
                | inl k ↦ elim (Bool-cases (v == 1)) [
                  | inl wall ↦ absurd (subst (Lit x y) (if-true _ _ _ wall) k)
                  | inr free ↦
                      let lit : Lit x y (tile_at time (column b a d i) (row b a d i) ∷ []) =
                        subst (Lit x y) (if-false _ _ _ free) k in
                      elim lit [
                        | inl here ↦ record {
                          distance = i;
                          near = omega arith;
                          far = omega arith;
                          at_x = here.0;
                          at_y = here.1;
                          state = v;
                          read = on;
                          not_wall = ==→ne v 1 free;
                          clear = λ j h1 h2. absurd (omega (arith, h1, h2));
                        }
                        | inr nowhere ↦ absurd nowhere
                      ]
                ]
                | inr k ↦ elim (Bool-cases (stops b.is_atomic v)) [
                  | inl stop ↦ absurd (subst (Lit x y) (if-true _ _ _ stop) k)
                  | inr goes ↦
                      let s =
                        line-Spot left (i + 1) x y (subst (Lit x y) (if-false _ _ _ goes) k) in
                      record {
                        distance = s.distance;
                        near = omega (arith, s.near);
                        far = omega (arith, s.far);
                        at_x = s.at_x;
                        at_y = s.at_y;
                        state = s.state;
                        read = s.read;
                        not_wall = s.not_wall;
                        clear = λ j h1 h2. elim (le-cases i j h1) [
                          | inl same ↦
                              let (p, q) = stops-Passes b.is_atomic v goes in
                              subst (Passes m b a d) same (v, on, p, q)
                          | inr more ↦ s.clear j more h2
                        ];
                      }
                ]
              ]
      ]

  pub Spot-line : (left i x y : ℕ) → Spot m b a d i left x y → Lit x y (line time m b a d left i)
  unfolding line
  Spot-line zero i x y s = absurd (omega (arith, s.near, s.far))
  Spot-line (suc left) i x y s = elim (le-cases i s.distance s.near) [
    | inl here ↦
        let on =
          subst (λ (k : ℕ). get_square_state m (column b a d k) (row b a d k) ≡ some s.state)
            (sym here) s.read in
        subst (Lit x y) (sym (line-step left i s.state on)) (
          Lit-append_left x y _ _ (
            subst (Lit x y) (sym (if-false _ _ _ (ne→== s.state 1 s.not_wall))) (
              inl (
                subst (λ (k : ℕ). column b a d k ≡ pos x) (sym here) s.at_x,
                subst (λ (k : ℕ). row b a d k ≡ pos y) (sym here) s.at_y,
              ))))
    | inr more ↦
        let (v, on, not_wall, opens) = s.clear i (omega arith) (omega (arith, more)) in
        subst (Lit x y) (sym (line-step left i v on)) (
          Lit-append_right x y (lights time (column b a d i) (row b a d i) v) _ (
            subst (Lit x y) (sym (if-false _ _ _ (Passes-stops b.is_atomic v not_wall opens))) (
              Spot-line left (i + 1) x y (record {
                distance = s.distance;
                near = more;
                far = omega (arith, s.far);
                at_x = s.at_x;
                at_y = s.at_y;
                state = s.state;
                read = s.read;
                not_wall = s.not_wall;
                clear = λ j h1 h2. s.clear j (omega (arith, h1)) h2;
              }))))
  ]
