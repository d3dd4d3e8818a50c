-- ===== src/Player/Tests.antt =====
-- Runs of the move check, and the theorems about it at concrete moves.
use boomberman.Player.Moves.{move_check_sus-Checks, Checks}
use boomberman.Player.Rate.{walk-rate, Move, walk}
use boomberman.Player.{
  int_max, zero_entry, at_coords, player_sus_treshhold_millis, Coords, move_check_sus, Player,
}
use boomberman.Base.{
  ◌⊎◌, ℕ, ◌+◌, ◌≤◌, ◌≡◌, refl, false, Option, none, some, List, [], ◌∷◌, arith, pos,
}

-- A player in the first corner, past his first five moves.
abbrev runner : Player
runner = record {
  conn = 7;
  lives_remaining = 3;
  username = "ann";
  color = 0;
  immunity_end_timestamp = 0;
  marked_for_disconnect = false;
  coords = at_coords 1 1;
  move_history = zero_entry ∷ zero_entry ∷ zero_entry ∷ zero_entry ∷ zero_entry ∷ [];
  step = pos 5;
}

abbrev to : ℕ → ℕ → Move
to ts x = record { ts = ts; x = pos x; y = pos 1 }

abbrev dash : List Move
dash = to 1000 2 ∷ to 1010 3 ∷ to 1020 4 ∷ to 1030 5 ∷ to 1050 6 ∷ []

abbrev corrections : Option (Player × Option Coords) → Option (Option Coords)
corrections none = none
corrections (some (p, c)) = some c

no_diagonal : corrections (move_check_sus 1000 (pos 2) (pos 2) runner) ≡ some (some (at_coords 1 1))
unfolding move_check_sus
no_diagonal = refl

-- A whole row in one move is not corrected.
long_jump : corrections (move_check_sus 1000 (pos 15) (pos 1) runner) ≡ some none
unfolding move_check_sus
long_jump = refl

move_check_sus-Checks_example :
    Checks runner (pos 2) (pos 1) (move_check_sus 1000 (pos 2) (pos 1) runner)
    ⊎ (move_check_sus 1000 (pos 2) (pos 1) runner ≡ none) × (runner.step ≡ pos int_max)
move_check_sus-Checks_example = move_check_sus-Checks 1000 (pos 2) (pos 1) runner refl

walk-rate_example : 1000 + player_sus_treshhold_millis ≤ 1050
unfolding walk move_check_sus
walk-rate_example =
    walk-rate 0 5 dash runner _ (to 1000 2) (to 1050 6) refl refl (omega arith) refl refl refl
