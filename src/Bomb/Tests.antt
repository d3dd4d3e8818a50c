-- ===== src/Bomb/Tests.antt =====
-- Explosions on the board of a new room.
use boomberman.Bomb.Exact.{boom-Reaches, Reaches}
use boomberman.Map.Arena.{initial_squares-IsArena}
use boomberman.Base.{arith, true, ◌≡◌, refl, some, none, pos, map, List, [], ◌∷◌, ℤ, Option, false}
use boomberman.Map.{new_map, get_square_state, set_square_state, square_at, write_square}
use boomberman.Bomb.{Blast, new_bomb, boom}

abbrev places : Option Blast → List (ℤ × ℤ)
places none = []
places (some s) = map (λ t. (t.x, t.y)) s.tiles

-- A common bomb in a corner opens one box to the right, and stops at the walls.
corner_blast :
    places (boom 0 (new_bomb (pos 1) (pos 2) 3 25 0 3 false) (new_map 25 17 11))
    ≡ (pos 1, pos 2) ∷ (pos 1, pos 1) ∷ (pos 1, pos 3) ∷ []
unfolding boom new_bomb new_map get_square_state set_square_state square_at write_square
corner_blast = refl

off_the_board : boom 0 (new_bomb (pos 40) (pos 2) 3 25 0 3 false) (new_map 25 17 11) ≡ none
unfolding boom new_bomb new_map get_square_state set_square_state square_at write_square
off_the_board = refl

-- An atomic bomb in the corner, through a box.
boom-Reaches_example :
    (out : Blast) × (boom 0 (new_bomb (pos 1) (pos 2) 9 25 0 3 true) (new_map 25 17 11) ≡ some out)
    × Reaches (new_map 25 17 11) (new_bomb (pos 1) (pos 2) 9 25 0 3 true) out
unfolding new_bomb new_map
boom-Reaches_example =
    boom-Reaches 0 (new_bomb (pos 1) (pos 2) 9 25 0 3 true) (new_map 25 17 11) 1 2
      initial_squares-IsArena refl refl (omega arith, omega arith, omega arith, omega arith)
