-- ===== src/Player/Moves.antt =====
-- What `MoveCheckSus` answers, for every player and every square asked for.
use boomberman.Base.{
  ℕ, ◌+◌, ◌%◌, ◌<◌, ◌≡◌, refl, ◌∙◌, ◌≢◌, ◌⊎◌, inl, inr, Bool, false, not, ◌&&◌, ◌||◌, Option, none,
  some, arith, ℤ, pos, pos_part, ◌+ℤ◌, eq_ℤ, eq_ℤ_iff, ltb, Bool-cases, length, set, length-set,
  get_elem?-total,
}
use boomberman.Player.{
  int_max, Player, Coords, MovementEntry, move_check_sus, check_rate, moved, is_negative,
  is_warming_up, pos_part, oldest_step, player_sus_treshhold_millis,
}

-- The history has its five entries.
abbrev pub IsTracked : Player → Type 0
IsTracked p = length p.move_history ≡ 5

abbrev pub IsBeside : Coords → ℤ → ℤ → Type 0
IsBeside c x y = (x ≡ c.x) ⊎ (y ≡ c.y)

-- The result of a check: the player may have moved to the square, or has stayed.
pub record Checks (p : Player) (x y : ℤ) (r : Option (Player × Option Coords)) : Type 0 where
  pub out : Player
  pub correction : Option Coords
  pub returns : r ≡ some (out, correction)
  pub tracked : IsTracked out
  pub accepted :
      correction ≡ none
      → (out.coords ≡ record { x = x; y = y })
        × (is_negative x ≡ false)
        × (is_negative y ≡ false)
        × IsBeside p.coords x y
  pub refused : correction ≢ none → out.coords ≡ p.coords
  pub lives : out.lives_remaining ≡ p.lives_remaining
  pub marked : out.marked_for_disconnect ≡ p.marked_for_disconnect
  pub conn : out.conn ≡ p.conn
  pub username : out.username ≡ p.username

pub oldest_step-lt : (n : ℕ) → oldest_step n < 5
oldest_step-lt n = ground arith

check_rate-Checks :
    (ts : ℕ) (x y step : ℤ) (p : Player)
    → IsTracked p
    → is_negative x ≡ false
    → is_negative y ≡ false
    → IsBeside p.coords x y
    → Checks p x y (check_rate ts x y (record p { step = step }))
unfolding check_rate
check_rate-Checks ts x y step p h nx ny near =
    let entry : MovementEntry = record { ts = ts; coords = record { x = x; y = y } } in
    let new = set p.move_history (pos_part step % 5) entry in
    let (oldest, read) =
      get_elem?-total p.move_history (oldest_step (pos_part step))
        (rw h (oldest_step-lt (pos_part step))) in
    elim (Bool-cases (is_warming_up step)) [
      | inl early ↦ record {
        out = moved x y (record p { step = step });
        correction = none;
        returns = rw early;
        tracked = h;
        accepted = λ e. (refl, nx, ny, near);
        refused = λ e. absurd (e refl);
        lives = refl;
        marked = refl;
        conn = refl;
        username = refl;
      }
      | inr late ↦ elim (Bool-cases (ltb ts (oldest.ts + player_sus_treshhold_millis))) [
        | inl fast ↦ record {
          out = record p { step = pos 0 };
          correction = some oldest.coords;
          returns = rw (late, read, fast);
          tracked = h;
          accepted = λ e. cc;
          refused = λ e. refl;
          lives = refl;
          marked = refl;
          conn = refl;
          username = refl;
        }
        | inr slow ↦ record {
          out = record (moved x y p) { step = step; move_history = new };
          correction = none;
          returns = rw (late, read, slow);
          tracked = length-set p.move_history (pos_part step % 5) entry ∙ h;
          accepted = λ e. (refl, nx, ny, near);
          refused = λ e. absurd (e refl);
          lives = refl;
          marked = refl;
          conn = refl;
          username = refl;
        }
      ]
    ]

stays :
    (x y : ℤ) (p : Player) (r : Option (Player × Option Coords))
    → IsTracked p
    → r ≡ some (p, some p.coords)
    → Checks p x y r
stays x y p r h e = record {
  out = p;
  correction = some p.coords;
  returns = e;
  tracked = h;
  accepted = λ e. cc;
  refused = λ e. refl;
  lives = refl;
  marked = refl;
  conn = refl;
  username = refl;
}

is_diagonal : Player → ℤ → ℤ → Bool
is_diagonal p x y = not (eq_ℤ x p.coords.x) && not (eq_ℤ y p.coords.y)

IsBeside-is_diagonal : (p : Player) (x y : ℤ) → is_diagonal p x y ≡ false → IsBeside p.coords x y
unfolding is_diagonal
IsBeside-is_diagonal p x y h = ground (arith, eq_ℤ_iff x p.coords.x, eq_ℤ_iff y p.coords.y)

-- From a player with five entries of history, the check never reads outside the history, and keeps the five entries; it is
-- undefined only if his step counter holds the largest `int`, which is one more than it can count. Else, with no correction he
-- stands on the square asked for, which has no negative coordinate and shares a row or a column with the old one; with a
-- correction the server keeps him where he was. His lives, mark, connection and name stay.
pub move_check_sus-Checks :
    (ts : ℕ) (x y : ℤ) (p : Player)
    → IsTracked p
    → Checks p x y (move_check_sus ts x y p)
      ⊎ (move_check_sus ts x y p ≡ none) × (p.step ≡ pos int_max)
unfolding move_check_sus is_diagonal
move_check_sus-Checks ts x y p h = elim (Bool-cases (is_negative x || is_negative y)) [
  | inl off ↦ inl (stays x y p _ h (rw off))
  | inr on ↦ elim (Bool-cases (is_diagonal p x y)) [
    | inl far ↦ inl (stays x y p _ h (rw (on, far)))
    | inr near ↦ elim (Bool-cases (eq_ℤ p.step (pos int_max))) [
      | inl last ↦ inr (rw (on, near, last) refl, (eq_ℤ_iff p.step (pos int_max)).0 last)
      | inr counts ↦ inl (
          rw (on, near, counts)
            (check_rate-Checks ts x y (p.step +ℤ pos 1) p h (ground arith) (ground arith)
              (IsBeside-is_diagonal p x y near)))
    ]
  ]
]
