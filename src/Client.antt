-- ===== src/Client.antt =====
-- The client's side of a game: game/src/client/Boomberman.h, Boomberman.cpp, EntityHandler.h and
-- EntityHandler.cpp. Drawing is left out; what the drawing functions do to the state is not. `none` is
-- undefined behaviour.
use boomberman.Map.{get_square_state, Map}
use boomberman.Bomb.{should_explode, boom, new_bomb, animate, TileOnFire, Bomb}
pub mod Fire
pub mod Handler
pub mod Paint
pub mod Screen
pub mod Menu
pub mod Names
pub mod Named
pub mod Mirror
pub mod Join
pub mod Inbox
pub mod Follow
pub mod Handled
pub mod Watch
pub mod Burnt
pub mod Sweep
pub mod Left
pub mod Parting
pub mod Session
pub mod Course
pub mod Own
pub mod Play
pub mod Start
pub mod Step
pub mod Corner
mod Turns
pub mod Tests
use text.Mathlib.Text.{◌==◌ as str_eq}
use boomberman.Base.{
  false, true, [], some, ◌+◌, ◌&&◌, ◌∷◌, leb, eq_ℤ, none, ◌-◌, ◌++◌, ◌+ℤ◌, ◌==◌, not, Option, Bool,
  pos, if◌then◌else◌, ◌-ℤ◌, String, ℤ, map, List, ℕ,
}

-- The colours that the client gives to players; `blank` is the colour of a `Color{}`.
pub data Color : Type 0 where
  blank red green blue yellow : Color

-- `Boomberman`, with its `position` as two fields.
pub record Boomberman : Type 0 where
  pub x : ℤ
  pub y : ℤ
  pub state : ℤ
  pub animation_start : ℕ
  pub iframes : ℕ
  pub health : ℤ
  pub color : Color
  pub pseudonim : String

unfoldable pub new_boomberman : String → Color → ℤ → ℤ → ℤ → Boomberman
new_boomberman pseudonim color start_x start_y health = record {
  x = start_x;
  y = start_y;
  state = pos 1;
  animation_start = 0;
  iframes = 0;
  health = health;
  color = color;
  pseudonim = pseudonim;
}

abbrev pub set_boomberman_pos : ℤ → ℤ → Boomberman → Boomberman
set_boomberman_pos x y b = record b { x = x; y = y }

-- `Boomberman::move`, from a place that is given in whole numbers, and whether it moved.
unfoldable pub move : Map → ℤ → ℤ → ℤ → ℤ → Boomberman → Option (Boomberman × Bool)
move m curr_x curr_y x y b =
    let new_x = curr_x +ℤ x in
    let new_y = curr_y +ℤ y in
    elim (get_square_state m new_x new_y) [
      | none ↦ none
      | some is_wall ↦
          if not (is_wall == 1) && not (is_wall == 2)
          then some (set_boomberman_pos new_x new_y b, true)
          else some (b, false)
    ]

unfoldable pub decrement_iframes : Boomberman → Boomberman
decrement_iframes b =
    if not (b.iframes == 0)
    then record b { iframes = b.iframes - 1 }
    else record b { state = pos 1 }

unfoldable pub got_hit_at : ℕ → Boomberman → Boomberman
got_hit_at when b = record b { health = b.health -ℤ pos 1; animation_start = when; iframes = 90 }

unfoldable pub animate_hit : ℕ → Boomberman → Boomberman
animate_hit now b =
    if b.iframes == 0
    then b
    else (if leb (b.animation_start + 150) now
        then record b { state = pos 0 -ℤ b.state; animation_start = now }
        else b)

-- `EntityHandler`
pub record EntityHandler : Type 0 where
  pub players : List Boomberman
  pub bombs : List Bomb
  pub the_floor_is_lava : List TileOnFire

unfoldable pub place_bomb : ℤ → ℤ → ℕ → ℕ → ℕ → ℕ → Bool → EntityHandler → EntityHandler
place_bomb x y explosion size timestamp ttl is_atomic eh = record eh {
  bombs = eh.bombs ++ new_bomb x y explosion size timestamp ttl is_atomic ∷ [];
}

abbrev pub same_bomb : Bomb → Bomb → Bool
same_bomb b c = eq_ℤ c.pos_x b.pos_x && eq_ℤ c.pos_y b.pos_y && (c.plant_time == b.plant_time)

-- The erasure of the first bomb that `find_if` finds; `none` when it finds none.
unfoldable pub erase_bomb : Bomb → List Bomb → Option (List Bomb)
erase_bomb b [] = none
erase_bomb b (c ∷ cs) =
    let rest = erase_bomb b cs in
    if same_bomb b c then some cs else elim rest [ none ↦ none | some ds ↦ some (c ∷ ds) ]

-- What `explodeBomb` leaves, with its answer.
pub record Exploded : Type 0 where
  pub eh : EntityHandler
  pub map : Map
  pub answer : ℕ

unfoldable pub explode_bomb : ℕ → Bomb → EntityHandler → Map → Option Exploded
explode_bomb time b eh m = elim (erase_bomb b eh.bombs) [
  | none ↦ some (record { eh = eh; map = m; answer = 1 })
  | some rest ↦ elim (boom time b m) [
    | none ↦ none
    | some blast ↦ some (record {
      eh = record eh { bombs = rest; the_floor_is_lava = blast.tiles ++ eh.the_floor_is_lava };
      map = blast.map;
      answer = 0;
    })
  ]
]

-- What `drawPlayers` does to the players, each at the time its own turn comes.
unfoldable pub draw_players : ℕ → EntityHandler → EntityHandler
draw_players now eh = record eh {
  players = map (λ b. decrement_iframes (animate_hit now b)) eh.players;
}

-- The loop of `drawBombs`, with the bombs behind it and before it. A bomb that is due is erased under the loop, which
-- then runs past the new end, unless that bomb was the last one.
unfoldable pub draw_each : ℕ → ℕ → List Bomb → List Bomb → EntityHandler → Map → Option Exploded
draw_each now time behind [] eh m =
    some (record { eh = record eh { bombs = behind }; map = m; answer = 0 })
draw_each now time behind (b ∷ bs) eh m =
    let next = draw_each now time (behind ++ animate now b ∷ []) bs eh m in
    if not (should_explode now b) then next else elim bs [
      | [] ↦ explode_bomb time b (record eh { bombs = behind ++ b ∷ [] }) m
      | c ∷ cs ↦ none
    ]

unfoldable pub draw_bombs : ℕ → ℕ → EntityHandler → Map → Option Exploded
draw_bombs now time eh m = draw_each now time [] eh.bombs eh m

abbrev pub burn_nanos : ℕ
burn_nanos = 300000012

-- `TileOnFire::shouldCalmDown`, on a clock of whole nanoseconds: `0.3f` is a little more than 300000011 of them.
unfoldable pub should_calm_down : ℕ → TileOnFire → Bool
should_calm_down now t = leb (t.on_fire_since + burn_nanos) now

abbrev mutual
  -- The loop of `tryExtinguish`: behind a tile that it erases, it passes over the one that takes its place.
  pub extinguish : ℕ → List TileOnFire → List TileOnFire
  extinguish now [] = []
  extinguish now (t ∷ ts) =
      let skipped = pass_over now ts in
      let rest = extinguish now ts in if should_calm_down now t then skipped else t ∷ rest

  pub pass_over : ℕ → List TileOnFire → List TileOnFire
  pass_over now [] = []
  pass_over now (t ∷ ts) = t ∷ extinguish now ts

unfoldable pub try_extinguish : ℕ → EntityHandler → EntityHandler
try_extinguish now eh = record eh { the_floor_is_lava = extinguish now eh.the_floor_is_lava }
