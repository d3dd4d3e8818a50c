-- ===== src/Map/Arena.antt =====
-- The shape of the board that the game relies on: 17 columns of 11 squares, walls all round.
use boomberman.Base.{
  is_some, All, length, [], ◌∷◌, ◌≢◌, ℕ, zero, suc, ◌<◌, ◌≡◌, refl, ◌∙◌, ◌⊎◌, inl, inr, Bool, true,
  false, ◌&&◌, ◌||◌, Option, none, some, get_elem?, set, ◌==◌, if◌then◌else◌, arith, get_elem?-set,
  get_elem?-lt, Option-cases, Bool-cases,
}
use boomberman.Map.{Squares, square_at, write_square, initial_squares}

-- The squares on the rim.
abbrev pub IsRim : ℕ → ℕ → Type 0
IsRim x y = (x ≡ 0) ⊎ (x ≡ 16) ⊎ (y ≡ 0) ⊎ (y ≡ 10)

-- Every square of the board is there and no other, and the rim is wall.
pub record IsArena (s : Squares) : Type 0 where
  pub bounded : (x y v : ℕ) → square_at s x y ≡ some v → (x < 17) × (y < 11)
  pub inside : (x y : ℕ) → x < 17 → y < 11 → (v : ℕ) × (square_at s x y ≡ some v)
  pub walled : (x y : ℕ) → x < 17 → y < 11 → IsRim x y → square_at s x y ≡ some 1

-- A write is seen at its square, and nowhere else.
pub square_at-write_square :
    (s s' : Squares) (x y v : ℕ)
    → write_square s x y v ≡ some s'
    → (a b : ℕ) → square_at s' a b ≡ (if (a == x) && (b == y) then some v else square_at s a b)
unfolding square_at write_square
square_at-write_square s s' x y v w a b = elim (Option-cases (get_elem? s x)) [
  | inl e ↦ ground arith
  | inr (column, e) ↦
      ground (
        arith,
        get_elem?-set s x a (set column y v) (get_elem?-lt s x e),
        get_elem?-set column y b v,
      )
]

-- A square that can be read can be written.
pub write_square-total :
    (s : Squares) (x y v u : ℕ)
    → square_at s x y ≡ some u
    → (s' : Squares) × (write_square s x y v ≡ some s')
unfolding square_at write_square
write_square-total s x y v u e = elim (Option-cases (get_elem? s x)) [
  | inl k ↦ ground arith
  | inr (column, k) ↦ (set s x (set column y v), ground (arith, get_elem?-lt column y {v = u}))
]

-- Writing inside the rim keeps the shape.
pub write_square-IsArena :
    (s s' : Squares) (x y v : ℕ)
    → IsArena s
    → 0 < x
    → x < 16
    → 0 < y
    → y < 10
    → write_square s x y v ≡ some s'
    → IsArena s'
write_square-IsArena s s' x y v arena hx hx' hy hy' w = record {
  bounded = λ a b u e. ground (arith, square_at-write_square s s' x y v w a b, arena.bounded a b u);
  inside = λ a b ha hb. elim (Bool-cases ((a == x) && (b == y))) [
    | inl e ↦ (v, square_at-write_square s s' x y v w a b ∙ rw e)
    | inr e ↦
        let old = arena.inside a b ha hb in
        (old.0, square_at-write_square s s' x y v w a b ∙ rw e (old.1))
  ];
  walled = λ a b ha hb rim.
      ground (arith, square_at-write_square s s' x y v w a b, arena.walled a b ha hb rim);
}

-- A test of every number of a range, and what it says of one.
passes : (ℕ → Bool) → ℕ → Bool
passes test zero = true
passes test (suc top) = passes test top && test top

passes-at : (test : ℕ → Bool) (top i : ℕ) → i < top → passes test top ≡ true → test i ≡ true
unfolding passes
passes-at test zero i h e = elim h [ ]
passes-at test (suc top) i h e = ground (arith, passes-at test top i)

abbrev is_rim : ℕ → ℕ → Bool
is_rim x y = x == 0 || x == 16 || y == 0 || y == 10

abbrev is_wall : Option ℕ → Bool
is_wall none = false
is_wall (some v) = v == 1

abbrev fits : Squares → ℕ → ℕ → Bool
fits s x y = is_some (square_at s x y) && (if is_rim x y then is_wall (square_at s x y) else true)

table : passes (λ x. passes (fits initial_squares x) 11) 17 ≡ true
unfolding passes square_at initial_squares
table = refl

fits-initial : (x y : ℕ) → x < 17 → y < 11 → fits initial_squares x y ≡ true
fits-initial x y hx hy =
    passes-at (fits initial_squares x) 11 y hy
      (passes-at (λ a. passes (fits initial_squares a) 11) 17 x hx table)

value_of : (o : Option ℕ) → is_some o ≡ true → (v : ℕ) × (o ≡ some v)
value_of none h = cc
value_of (some v) h = (v, refl)

columns : All (λ c. length c ≡ 11) initial_squares
unfolding initial_squares
columns = omega arith

bounded-columns :
    (s : Squares) (x y v : ℕ)
    → All (λ c. length c ≡ 11) s
    → square_at s x y ≡ some v
    → (x < length s) × (y < 11)
unfolding square_at
bounded-columns [] x y v h e = cc
bounded-columns (c ∷ s) zero y v h e = (omega arith, omega (arith, h.0, get_elem?-lt c y {v = v} e))
bounded-columns (c ∷ s) (suc x) y v h e =
    let rest = bounded-columns s x y v h.1 e in (omega arith, rest.1)

count_columns : length initial_squares ≡ 17
unfolding initial_squares
count_columns = refl

-- A square that is no wall lies inside the rim.
pub free-inside :
    (s : Squares) (x y v : ℕ)
    → IsArena s
    → square_at s x y ≡ some v
    → v ≢ 1
    → (0 < x) × (x < 16) × (0 < y) × (y < 10)
free-inside s x y v a e ne = let (hx, hy) = a.bounded x y v e in ground (arith, a.walled x y hx hy)

-- The board of a new room has the shape.
pub initial_squares-IsArena : IsArena initial_squares
initial_squares-IsArena = record {
  bounded =
      λ x y v e. omega (arith, bounded-columns initial_squares x y v columns e, count_columns);
  inside = λ x y hx hy.
      value_of (square_at initial_squares x y) (ground (arith, fits-initial x y hx hy));
  walled = λ x y hx hy rim. ground (arith, fits-initial x y hx hy);
}
