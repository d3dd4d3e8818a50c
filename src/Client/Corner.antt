-- ===== src/Client/Corner.antt =====
-- Two arrow keys in one turn of `Client::Run` of game/src/client/Client.cpp, and what the server makes of them.
use boomberman.Room.Handle.Keeps.{handle_message-Handles}
use boomberman.Client.Step.{handle_move-Obeys}
use boomberman.Player.Pace.{IsUnhurried}
use boomberman.Room.Invariant.{IsSound, IsWellFormed}
use boomberman.Client.{set_boomberman_pos, Boomberman, move}
use boomberman.Client.Play.{step_key, Turn, play_keys, Keys}
use boomberman.Room.Sends.{send_specific-Quiet}
use boomberman.Room.Players.{
  find_player-All, find_player-update_player, find_player-Marks, find_player-conn,
}
use boomberman.Room.Handle.Move.{square_of}
use boomberman.Map.{get_square_state}
use boomberman.Room.Join.{is_waiting}
use boomberman.Room.Handle.{correct, handle_move, handle_playing, handle_message}
use boomberman.Player.{int_max, is_negative, move_check_sus, Player, Coords}
use boomberman.Room.{update_player, find_player, Room}
use boomberman.Message.{Message, movement_correction, of_int, i_move, Net}
use boomberman.Base.{
  ◌≢◌, ◌∙◌, add_zero, [], ◌∷◌, true, ◌+ℤ◌, pos, Option, refl, inr, ap, inl, sym, subst, arith, ◌==◌,
  eq_ℤ, ◌<◌, some, false, ◌≡◌, ℤ, ℕ,
}

-- The server's player stays where he is and is told so.
record Stays (net : Net) (now c : ℕ) (nx ny : ℤ) (at : Coords) (r : Room) : Type 0 where
  after : Room
  handled : handle_message net now c (i_move (of_int nx) (of_int ny)) r ≡ some (after, false)
  player : Player
  there : find_player c after.players ≡ some player
  coords : player.coords ≡ at

module _ (net : Net) (now c : ℕ) (r : Room) (p : Player) (plays : is_waiting r.state ≡ false)
    (found : find_player c r.players ≡ some p) (alive : 0 < p.lives_remaining) where
  handle_move-Stays :
      (nx ny : ℤ)
      → get_square_state r.map nx ny ≡ some 0
      → eq_ℤ nx p.coords.x ≡ false
      → eq_ℤ ny p.coords.y ≡ false
      → Stays net now c nx ny p.coords r
  unfolding handle_message handle_playing handle_move move_check_sus
  handle_move-Stays nx ny free ex ey =
      let able : (p.lives_remaining == 0) ≡ false = ground (arith, alive) in
      let (a, b, px, py, _) = square_of r.map nx ny 0 free in
      let on_x : is_negative nx ≡ false = rw px refl in
      let on_y : is_negative ny ≡ false = rw py refl in
      let checked : move_check_sus now nx ny p ≡ some (p, some p.coords) =
        rw (move_check_sus, on_x, on_y, ex, ey) refl in
      let r0 : Room = record r { players = update_player p.conn (λ _. p) r.players } in
      let same = find_player-conn c r.players p found in
      let q =
        send_specific-Quiet net p.conn (movement_correction (of_int p.coords.x) (of_int p.coords.y))
          r0 in
      let (o, there, is) = find_player-Marks c r0.players _ p (q.marks) (
        subst (λ (z : ℕ). find_player c (update_player z (λ _. p) r.players) ≡ some p) (sym same)
          (find_player-update_player c p r.players p same found)) in
      record {
        after = correct net p.conn p.coords r0;
        handled =
            rw (handle_message, plays, found, able, handle_playing, handle_move, free, checked)
              refl;
        player = o;
        there = there;
        coords = elim is [
          | inl e ↦ ap (λ (z : Player). z.coords) e
          | inr e ↦ ap (λ (z : Player). z.coords) e
        ];
      }

-- The keys to the right and down.
abbrev pub right_and_down : Keys
right_and_down = record {
  space = false;
  right = true;
  left = false;
  up = false;
  down = true;
  escape = false;
}

-- The turn's two messages take the server's player one square to the right, while the client's own is one
-- square further down.
pub record Parted (net : Net) (now c : ℕ) (k : Coords) (r : Room) (o : Option Turn) : Type 0 where
  pub turn : Turn
  pub returns : o ≡ some turn
  pub first : Message
  pub second : Message
  pub sends : turn.sends ≡ first ∷ second ∷ []
  pub between : Room
  pub after : Room
  pub handled : handle_message net now c first r ≡ some (between, false)
  pub handled_too : handle_message net now c second between ≡ some (after, false)
  pub player : Player
  pub there : find_player c after.players ≡ some player
  pub server : player.coords ≡ record { x = k.x +ℤ pos 1; y = k.y }
  pub client_x : turn.local.x ≡ k.x
  pub client_y : turn.local.y ≡ k.y +ℤ pos 1

eq_ℤ-next : (a : ℕ) → eq_ℤ (pos a) (pos a +ℤ pos 1) ≡ false
eq_ℤ-next a = ground arith

next-eq_ℤ : (a : ℕ) → eq_ℤ (pos a +ℤ pos 1) (pos a) ≡ false
next-eq_ℤ a = ground arith

-- In a well-formed room that does not wait, let a living and unhurried player, whose step counter is not the largest `int`, stand
-- at the same place on the same board as on his client, with the squares on the right and below free. If he presses both keys in
-- one turn, he makes both steps from where he was, so that the client shows him below, but the server refuses the second as a
-- diagonal one, and has him on the right.
pub play_keys-Parted :
    (net : Net) (now c : ℕ) (r : Room) (p : Player) (b : Boomberman)
    → IsWellFormed r
    → is_waiting r.state ≡ false
    → find_player c r.players ≡ some p
    → 0 < p.lives_remaining
    → IsUnhurried now p
    → p.step ≢ pos int_max
    → b.x ≡ p.coords.x
    → b.y ≡ p.coords.y
    → get_square_state r.map (p.coords.x +ℤ pos 1) p.coords.y ≡ some 0
    → get_square_state r.map p.coords.x (p.coords.y +ℤ pos 1) ≡ some 0
    → Parted net now c p.coords r (play_keys right_and_down r.map b)
unfolding play_keys step_key move
play_keys-Parted net now c r p b w plays found alive slow counts bx by free_right free_down =
    let placed = (find_player-All IsSound c r.players p w.sound found).placed in
    let nx = p.coords.x +ℤ pos 1 in
    let ny = p.coords.y +ℤ pos 1 in
    let one =
      handle_move-Obeys net now c r p w plays found alive slow counts nx p.coords.y free_right
        (inr refl) in
    let h =
      handle_message-Handles net now c (i_move (of_int nx) (of_int p.coords.y)) r one.after false w
        one.handled in
    let at_x : one.player.coords.x ≡ nx = ap (λ (k : Coords). k.x) (one.coords) in
    let at_y : one.player.coords.y ≡ p.coords.y = ap (λ (k : Coords). k.y) (one.coords) in
    let two =
      handle_move-Stays net now c one.after one.player (rw (h.state) plays) one.there
        (rw (one.lives) alive) p.coords.x ny (rw (h.map) free_down)
        (rw (at_x, placed.at_x) (eq_ℤ-next placed.x))
        (rw (at_y, placed.at_y) (next-eq_ℤ placed.y)) in
    let right : get_square_state r.map (b.x +ℤ pos 1) (b.y +ℤ pos 0) ≡ some 0 =
      rw (bx, by, add_zero p.coords.y) free_right in
    let down : get_square_state r.map (b.x +ℤ pos 0) (b.y +ℤ pos 1) ≡ some 0 =
      rw (bx, by, add_zero p.coords.x) free_down in
    record {
      turn = record {
        local =
            set_boomberman_pos (b.x +ℤ pos 0) (b.y +ℤ pos 1)
              (set_boomberman_pos (b.x +ℤ pos 1) (b.y +ℤ pos 0) b);
        sends =
            i_move (of_int (b.x +ℤ pos 1)) (of_int (b.y +ℤ pos 0))
            ∷ i_move (of_int (b.x +ℤ pos 0)) (of_int (b.y +ℤ pos 1))
            ∷ [];
      };
      returns = rw (play_keys, step_key, move, right, down) refl;
      first = i_move (of_int nx) (of_int p.coords.y);
      second = i_move (of_int p.coords.x) (of_int ny);
      sends = rw (bx, by, add_zero p.coords.x, add_zero p.coords.y) refl;
      between = one.after;
      after = two.after;
      handled = one.handled;
      handled_too = two.handled;
      player = two.player;
      there = two.there;
      server = two.coords ∙ one.coords;
      client_x = add_zero b.x ∙ bx;
      client_y = rw by refl;
    }
