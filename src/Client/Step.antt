-- ===== src/Client/Step.antt =====
-- A step of the client's player, as `Client::Run` makes it and as `Room::HandleMessage` follows it.
use boomberman.Room.Sends.{send_except-Quiet}
use boomberman.Room.Handle.Move.{square_of}
use boomberman.Room.Players.{
  find_player-update_player, find_player-Marks, find_player-conn, find_player-All,
}
use boomberman.Player.Moves.{IsBeside}
use boomberman.Player.Pace.{move_check_sus-Accepted, IsUnhurried}
use boomberman.Client.{get_square_state, Map, move, set_boomberman_pos}
use boomberman.Room.Join.{is_waiting}
use boomberman.Room.Invariant.{IsSound, IsWellFormed}
use boomberman.Player.{int_max, Player}
use boomberman.Client.Play.{step_key, Turn}
use boomberman.Room.Handle.{handle_move, handle_playing, handle_message}
use boomberman.Room.{send_except, update_player, find_player, Room}
use boomberman.Message.{other_move, of_int, i_move, Net}
use boomberman.Base.{
  ◌≢◌, sym, subst, refl, ap, ◌∙◌, inr, arith, add_zero, ◌==◌, inl, true, ◌+ℤ◌, ◌⊎◌, pos, [], ◌∷◌,
  ◌<◌, ◌++◌, some, false, ◌≡◌, Option, ℤ, ℕ,
}

-- The client has made the step and sends it; the server handles the message, and its player has made the
-- same step.
pub record Steps (net : Net) (now c : ℕ) (nx ny : ℤ) (r : Room) (t : Turn) (o : Option Turn)
    : Type 0 where
  pub turn : Turn
  pub returns : o ≡ some turn
  pub local : turn.local ≡ set_boomberman_pos nx ny t.local
  pub sends : turn.sends ≡ t.sends ++ i_move (of_int nx) (of_int ny) ∷ []
  pub after : Room
  pub handled : handle_message net now c (i_move (of_int nx) (of_int ny)) r ≡ some (after, false)
  pub player : Player
  pub there : find_player c after.players ≡ some player
  pub coords : player.coords ≡ record { x = nx; y = ny }

-- The server's part.
pub record Obeys (net : Net) (now c : ℕ) (nx ny : ℤ) (remaining : ℕ) (r : Room) : Type 0 where
  pub after : Room
  pub handled : handle_message net now c (i_move (of_int nx) (of_int ny)) r ≡ some (after, false)
  pub player : Player
  pub there : find_player c after.players ≡ some player
  pub coords : player.coords ≡ record { x = nx; y = ny }
  pub lives : player.lives_remaining ≡ remaining

module _ (net : Net) (now c : ℕ) (r : Room) (p : Player) (w : IsWellFormed r)
    (plays : is_waiting r.state ≡ false) (found : find_player c r.players ≡ some p)
    (alive : 0 < p.lives_remaining) (slow : IsUnhurried now p) (counts : p.step ≢ pos int_max) where
  pub handle_move-Obeys :
      (nx ny : ℤ)
      → get_square_state r.map nx ny ≡ some 0
      → IsBeside p.coords nx ny
      → Obeys net now c nx ny p.lives_remaining r
  unfolding handle_message handle_playing handle_move
  handle_move-Obeys nx ny free beside =
      let able : (p.lives_remaining == 0) ≡ false = ground (arith, alive) in
      let sound = find_player-All IsSound c r.players p w.sound found in
      let (a, b, ex, ey, _) = square_of r.map nx ny 0 free in
      let k =
        move_check_sus-Accepted now nx ny p (sound.tracked) slow counts (rw ex refl) (rw ey refl)
          beside in
      let r0 : Room = record r { players = update_player p.conn (λ _. k.out) r.players } in
      let same = find_player-conn c r.players p found in
      let sent = other_move p.username (of_int nx) (of_int ny) in
      let q = send_except-Quiet net p.conn sent r0 in
      let (o, there, is) = find_player-Marks c r0.players _ (k.out) (q.marks) (
        subst (λ (z : ℕ). find_player c (update_player z (λ _. k.out) r.players) ≡ some (k.out))
          (sym same) (find_player-update_player c k.out r.players p (k.conn ∙ same) found)) in
      record {
        after = send_except net p.conn sent r0;
        handled =
            rw (handle_message, plays, found, able, handle_playing, handle_move, free, k.returns)
              refl;
        player = o;
        there = there;
        coords = elim is [
          | inl e ↦ ap (λ (z : Player). z.coords) e ∙ k.coords
          | inr e ↦ ap (λ (z : Player). z.coords) e ∙ k.coords
        ];
        lives = elim is [
          | inl e ↦ ap (λ (z : Player). z.lives_remaining) e ∙ k.lives
          | inr e ↦ ap (λ (z : Player). z.lives_remaining) e ∙ k.lives
        ];
      }

  -- If the square of an arrow key is free both on the client's board and on the server's, a living and unhurried
  -- player of a game, whose step counter is not the largest `int`, makes the step on both sides: the client moves him and
  -- sends one message, and the server, which handles it, moves him to the same place.
  pub step_key-Steps :
      (m : Map) (dx dy : ℤ) (t : Turn)
      → (dx ≡ pos 0) ⊎ (dy ≡ pos 0)
      → get_square_state m (p.coords.x +ℤ dx) (p.coords.y +ℤ dy) ≡ some 0
      → get_square_state r.map (p.coords.x +ℤ dx) (p.coords.y +ℤ dy) ≡ some 0
      → Steps net now c
          (p.coords.x +ℤ dx)
          (p.coords.y +ℤ dy)
          r
          t
          (step_key true m p.coords.x p.coords.y dx dy t)
  unfolding step_key move
  step_key-Steps m dx dy t line here there =
      let nx = p.coords.x +ℤ dx in
      let ny = p.coords.y +ℤ dy in
      let k = handle_move-Obeys nx ny there (beside line) in
      record {
        turn = record {
          local = set_boomberman_pos nx ny t.local;
          sends = t.sends ++ i_move (of_int nx) (of_int ny) ∷ [];
        };
        returns = rw (step_key, move, here) refl;
        local = refl;
        sends = refl;
        after = k.after;
        handled = k.handled;
        player = k.player;
        there = k.there;
        coords = k.coords;
      }
    where
      beside : (dx ≡ pos 0) ⊎ (dy ≡ pos 0) → IsBeside p.coords (p.coords.x +ℤ dx) (p.coords.y +ℤ dy)
      beside (inl e) = inl (rw e (add_zero p.coords.x))
      beside (inr e) = inr (rw e (add_zero p.coords.y))
