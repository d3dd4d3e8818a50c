-- ===== src/Room/Invariant.antt =====
-- When a room is well formed.
use boomberman.Bomb.Burns.{Interior}
use boomberman.Base.{
  ℕ, ◌≤◌, ◌<◌, ◌≡◌, sym, ap, ◌∙◌, ◌≢◌, List, [], ◌∷◌, arith, pos, length, All, length-map,
}
use boomberman.Map.Arena.{IsArena, initial_squares-IsArena}
use boomberman.Map.{new_map}
use boomberman.Player.{Player, Coords, starter_lives}
use boomberman.Player.Moves.{IsTracked}
use boomberman.Room.{Room, wait_for_start, new_room, conns, mark, max_players}
use boomberman.Room.Sends.{Quiet, All-Marks, conns-Marks}

-- On a square inside the rim.
pub record IsPlaced (c : Coords) : Type 0 where
  pub x : ℕ
  pub y : ℕ
  pub at_x : c.x ≡ pos x
  pub at_y : c.y ≡ pos y
  pub interior : Interior x y

pub record IsSound (p : Player) : Type 0 where
  pub tracked : IsTracked p
  pub lives : p.lives_remaining ≤ starter_lives
  pub placed : IsPlaced p.coords

abbrev pub IsFresh : ℕ → List ℕ → Type 0
IsFresh c cs = All (λ d. c ≢ d) cs

abbrev pub Distinct : List ℕ → Type 0
Distinct [] = Unit {0}
Distinct (c ∷ cs) = IsFresh c cs × Distinct cs

-- No two players share a connection; there are no more players than have been counted, and no
-- more than four of those, fewer while the room waits; the board has its shape; each player has
-- his five entries of history, at most three lives, and stands inside the rim.
pub record IsWellFormed (r : Room) : Type 0 where
  pub distinct : Distinct (conns r.players)
  pub counted : length r.players ≤ r.client_count
  pub capped : r.client_count ≤ max_players
  pub waiting : r.state ≡ wait_for_start → r.client_count < max_players
  pub arena : IsArena r.map.squares
  pub sound : All IsSound r.players

pub mark-IsSound : (p : Player) → IsSound p → IsSound (mark p)
mark-IsSound p s = record { tracked = s.tracked; lives = s.lives; placed = s.placed }

length-conns : (ps qs : List Player) → conns qs ≡ conns ps → length qs ≡ length ps
length-conns ps qs e = sym (length-map _ qs) ∙ ap length e ∙ length-map _ ps

-- Sends keep a room well formed.
pub Quiet-IsWellFormed : {r r' : Room} → Quiet r r' → IsWellFormed r → IsWellFormed r'
Quiet-IsWellFormed {r} {r'} q w =
    let same = conns-Marks r.players r'.players q.marks in
    record {
      distinct = rw same (w.distinct);
      counted = omega (arith, length-conns r.players r'.players same, q.client_count, w.counted);
      capped = omega (arith, q.client_count, w.capped);
      waiting = λ e. rw (q.client_count) (w.waiting (sym q.state ∙ e));
      arena = rw (q.map) (w.arena);
      sound = All-Marks IsSound mark-IsSound r.players r'.players q.marks w.sound;
    }

-- A new room is well formed.
pub new_room-IsWellFormed : IsWellFormed new_room
unfolding new_room new_map
new_room-IsWellFormed = record {
  distinct = tt;
  counted = omega arith;
  capped = omega arith;
  waiting = λ e. omega arith;
  arena = initial_squares-IsArena;
  sound = tt;
}
