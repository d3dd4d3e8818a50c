-- ===== src/Bomb/Burns.antt =====
-- What an explosion lights and breaks, on the way through `boom` of game/src/shared/game/Bomb.cpp: the tiles lit, and the
-- squares that change.
use boomberman.Base.{
  ◌&&◌, ℕ, ◌<◌, ◌≡◌, refl, ◌∙◌, ◌⊎◌, inl, inr, some, List, [], ◌∷◌, ◌++◌, pos, arith, All,
  All-append, Bool-cases, ◌==◌,
}
use boomberman.Map.{Squares, square_at, write_square}
use boomberman.Map.Arena.{IsArena, write_square-IsArena, square_at-write_square}
use boomberman.Bomb.{Blast, TileOnFire, light}

-- Not on the rim.
abbrev pub Interior : ℕ → ℕ → Type 0
Interior x y = (0 < x) × (x < 16) × (0 < y) × (y < 10)

abbrev pub Lit : ℕ → ℕ → List TileOnFire → Type 0
Lit x y [] = ⊥
Lit x y (t ∷ ts) = (t.x ≡ pos x) × (t.y ≡ pos y) ⊎ Lit x y ts

pub Lit-append_left : (x y : ℕ) (ts us : List TileOnFire) → Lit x y ts → Lit x y (ts ++ us)
Lit-append_left x y [] us h = absurd h
Lit-append_left x y (t ∷ ts) us (inl h) = inl h
Lit-append_left x y (t ∷ ts) us (inr h) = inr (Lit-append_left x y ts us h)

pub Lit-split : (x y : ℕ) (ts us : List TileOnFire) → Lit x y (ts ++ us) → Lit x y ts ⊎ Lit x y us
Lit-split x y [] us h = inr h
Lit-split x y (t ∷ ts) us (inl h) = inl (inl h)
Lit-split x y (t ∷ ts) us (inr h) = elim (Lit-split x y ts us h) [
  | inl k ↦ inl (inr k)
  | inr k ↦ inr k
]

pub Lit-append_right : (x y : ℕ) (ts us : List TileOnFire) → Lit x y us → Lit x y (ts ++ us)
Lit-append_right x y [] us h = h
Lit-append_right x y (t ∷ ts) us h = inr (Lit-append_right x y ts us h)

-- A square is as before, or it was a box, is free now and lies among the tiles lit.
abbrev pub Changed : Squares → Blast → ℕ → ℕ → Type 0
Changed old s x y =
    (square_at s.map.squares x y ≡ square_at old x y)
    ⊎ (square_at old x y ≡ some 2) × (square_at s.map.squares x y ≡ some 0) × Lit x y s.tiles

-- A tile inside the rim.
abbrev pub IsInner : TileOnFire → Type 0
IsInner t = (x : ℕ) × (y : ℕ) × (t.x ≡ pos x) × (t.y ≡ pos y) × Interior x y

-- What holds of the blast at every point of `boom`.
pub record Burns (old : Squares) (s : Blast) : Type 0 where
  pub arena : IsArena s.map.squares
  pub changed : (x y : ℕ) → Changed old s x y
  pub inner : All IsInner s.tiles

module _ (old : Squares) (time : ℕ) (x y : ℕ) (s : Blast) (b : Burns old s) where
  pub Lit-light : Lit x y (light time (pos x) (pos y) s.tiles)
  Lit-light = Lit-append_right x y s.tiles _ (inl (refl, refl))

  pub light-Burns :
      Interior x y → Burns old (record s { tiles = light time (pos x) (pos y) s.tiles })
  light-Burns i = record {
    arena = b.arena;
    changed = λ p q. elim (b.changed p q) [
      | inl e ↦ inl e
      | inr (h, k, l) ↦ inr (h, k, Lit-append_left p q s.tiles _ l)
    ];
    inner = All-append _ s.tiles _ b.inner ((x, y, refl, refl, i), tt);
  }

  break-Changed :
      (after : Squares)
      → square_at s.map.squares x y ≡ some 2
      → write_square s.map.squares x y 0 ≡ some after
      → (p q : ℕ)
      → Changed old
          (record {
            tiles = light time (pos x) (pos y) s.tiles;
            map = record (s.map) { squares = after };
          })
          p
          q
  break-Changed after box w p q = elim (Bool-cases ((p == x) && (q == y))) [
    | inl here ↦ inr (
      ground (arith, b.changed x y),
      square_at-write_square _ after x y 0 w p q ∙ rw here,
      ground (arith, Lit-light),
    )
    | inr there ↦
        let same = square_at-write_square _ after x y 0 w p q ∙ rw there in
        elim (b.changed p q) [
          | inl e ↦ inl (same ∙ e)
          | inr (h, k, l) ↦ inr (h, same ∙ k, Lit-append_left p q s.tiles _ l)
        ]
  ]

  pub break-Burns :
      (after : Squares)
      → Interior x y
      → square_at s.map.squares x y ≡ some 2
      → write_square s.map.squares x y 0 ≡ some after
      → Burns old (record {
        tiles = light time (pos x) (pos y) s.tiles;
        map = record (s.map) { squares = after };
      })
  break-Burns after i box w = record {
    arena = write_square-IsArena s.map.squares after x y 0 b.arena i.0 i.1 i.2 i.3 w;
    changed = break-Changed after box w;
    inner = (light-Burns i).inner;
  }
