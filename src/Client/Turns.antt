-- ===== src/Client/Turns.antt =====
-- The theorems about the keys of a turn, for Ann in her corner.
use boomberman.Client.Step.{step_key-Steps, Steps}
use boomberman.Client.Corner.{play_keys-Parted, right_and_down, Parted}
use boomberman.Map.{new_map, square_at}
use boomberman.Room.{find_player}
use boomberman.Client.Play.{step_key, play_keys, Turn}
use boomberman.Client.{green, new_boomberman, Boomberman}
use boomberman.Room.Tests.{duel-IsWellFormed, always, ann, duel}
use boomberman.Player.Pace.{IsUnhurried}
use boomberman.Base.{inr, refl, true, pos, arith, []}
use boomberman.Map.{get_square_state}

abbrev ann_shown : Boomberman
ann_shown = new_boomberman "ann" green (pos 1) (pos 1) (pos 3)

abbrev ann_start : Turn
ann_start = record { local = ann_shown; sends = [] }

ann-IsUnhurried : IsUnhurried 5000 ann
ann-IsUnhurried = (omega arith, (omega arith, (omega arith, (omega arith, (omega arith, tt)))))

-- To the right.
step_key-Steps_example :
    Steps always 5000 7
      (pos 2)
      (pos 1)
      duel
      ann_start
      (step_key true duel.map (pos 1) (pos 1) (pos 1) (pos 0) ann_start)
unfolding duel find_player get_square_state square_at new_map
step_key-Steps_example =
    step_key-Steps always 5000 7 duel ann duel-IsWellFormed refl refl (omega arith) ann-IsUnhurried
      (λ e. ground (arith, e)) duel.map (pos 1) (pos 0) ann_start (inr refl) refl refl

play_keys-Parted_example :
    Parted always 5000 7 ann.coords duel (play_keys right_and_down duel.map ann_shown)
unfolding duel find_player get_square_state square_at new_map new_boomberman
play_keys-Parted_example =
    play_keys-Parted always 5000 7 duel ann ann_shown duel-IsWellFormed refl refl (omega arith)
      ann-IsUnhurried (λ e. ground (arith, e)) refl refl refl refl
