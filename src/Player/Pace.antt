-- ===== src/Player/Pace.antt =====
-- Whom `MoveCheckSus` lets move.
use boomberman.Player.Moves.{IsBeside, oldest_step-lt, IsTracked}
use boomberman.Player.{
  int_max, moved, is_warming_up, oldest_step, player_sus_treshhold_millis, is_negative, Coords,
  check_rate, Player, move_check_sus,
}
use boomberman.Base.{
  ◌≢◌, ◌%◌, set, refl, inr, pos, inl, ◌+ℤ◌, eq_ℤ_iff, Bool-cases, arith, ◌&&◌, eq_ℤ, ltb,
  All-get_elem?, not, none, pos_part, false, some, ◌≡◌, ◌≤◌, get_elem?-total, Option, ◌+◌, ℤ, All,
  ℕ,
}

-- All moves of the history are so old that the next one is not too fast.
abbrev pub IsUnhurried : ℕ → Player → Type 0
IsUnhurried now p = All (λ e. e.ts + player_sus_treshhold_millis ≤ now) p.move_history

-- He moves to the place asked for.
pub record Accepted (p : Player) (x y : ℤ) (o : Option (Player × Option Coords)) : Type 0 where
  pub out : Player
  pub returns : o ≡ some (out, none)
  pub coords : out.coords ≡ record { x = x; y = y }
  pub conn : out.conn ≡ p.conn
  pub lives : out.lives_remaining ≡ p.lives_remaining

check_rate-Accepted :
    (now : ℕ) (x y step : ℤ) (p : Player)
    → IsTracked p
    → IsUnhurried now p
    → Accepted p x y (check_rate now x y (record p { step = step }))
unfolding check_rate
check_rate-Accepted now x y step p h slow =
    let (oldest, read) =
      get_elem?-total p.move_history (oldest_step (pos_part step))
        (rw h (oldest_step-lt (pos_part step))) in
    let due = All-get_elem? _ p.move_history (oldest_step (pos_part step)) oldest slow read in
    let paced : ltb now (oldest.ts + player_sus_treshhold_millis) ≡ false = ground (arith, due) in
    elim (Bool-cases (is_warming_up step)) [
      | inl early ↦ record {
        out = moved x y (record p { step = step });
        returns = rw early refl;
        coords = refl;
        conn = refl;
        lives = refl;
      }
      | inr late ↦ record {
        out = record (moved x y p) {
          step = step;
          move_history =
              set p.move_history (pos_part step % 5)
                (record { ts = now; coords = record { x = x; y = y } });
        };
        returns = rw (late, read, paced) refl;
        coords = refl;
        conn = refl;
        lives = refl;
      }
    ]

-- An unhurried player whose step counter is not the largest `int` may move to a place beside his own whose coordinates are not negative.
pub move_check_sus-Accepted :
    (now : ℕ) (x y : ℤ) (p : Player)
    → IsTracked p
    → IsUnhurried now p
    → p.step ≢ pos int_max
    → is_negative x ≡ false
    → is_negative y ≡ false
    → IsBeside p.coords x y
    → Accepted p x y (move_check_sus now x y p)
unfolding move_check_sus
move_check_sus-Accepted now x y p h slow counts nx ny beside =
    let near : (not (eq_ℤ x p.coords.x) && not (eq_ℤ y p.coords.y)) ≡ false =
      ground (arith, eq_ℤ_iff x p.coords.x, eq_ℤ_iff y p.coords.y, beside) in
    let more : eq_ℤ p.step (pos int_max) ≡ false =
      ground (arith, eq_ℤ_iff p.step (pos int_max), counts) in
    rw (move_check_sus, nx, ny, near, more) (check_rate-Accepted now x y (p.step +ℤ pos 1) p h slow)
