-- ===== src/Room/Handle/Move.antt =====
-- The case `I_MOVE` of `Room::HandleMessage` keeps a room well formed.
use boomberman.Room.Sends.{send_specific-Quiet, send_except-Quiet}
use boomberman.Room.{find_player, conns}
use boomberman.Room.Players.{names-update_found, conns-update_player, update_player-IsWellFormed}
use boomberman.Player.Moves.{move_check_sus-Checks, Checks}
use boomberman.Room.Handle.Laws.{Quiet-Handles, send_specific-Handles, Handles}
use boomberman.Room.Invariant.{IsSound, IsWellFormed, IsPlaced}
use boomberman.Map.Arena.{free-inside, IsArena}
use boomberman.Message.{i_move, Float, Net, Message}
use boomberman.Room.Handle.{move_check_sus, update_player, Coords, Player, Room, handle_move}
use boomberman.Map.{square_at, get_square_state, Map}
use boomberman.Base.{
  ℕ, ◌≡◌, refl, sym, ap, ◌∙◌, subst, inl, inr, false, Option, none, some, arith, ℤ, pos, negsuc,
  ◌==◌, ==→eq, Bool-cases, Option-cases,
}

-- The square read by `get_square_state`.
pub square_of :
    (m : Map) (x y : ℤ) (v : ℕ)
    → get_square_state m x y ≡ some v
    → (a : ℕ) × (b : ℕ) × (x ≡ pos a) × (y ≡ pos b) × (square_at m.squares a b ≡ some v)
unfolding get_square_state
square_of m (pos x) (pos y) v e = (x, y, refl, refl, e)
square_of m (pos x) (negsuc y) v e = cc
square_of m (negsuc x) y v e = cc

free-IsPlaced :
    (m : Map) (x y : ℤ)
    → IsArena m.squares
    → get_square_state m x y ≡ some 0
    → IsPlaced (record { x = x; y = y })
free-IsPlaced m x y arena e =
    let (a, b, ex, ey, read) = square_of m x y 0 e in
    record {
      x = a;
      y = b;
      at_x = ex;
      at_y = ey;
      interior = free-inside m.squares a b 0 arena read (λ k. omega arith);
    }

-- A check at a free square leaves a sound player.
Checks-IsSound :
    (m : Map) (x y : ℤ) (p : Player) (r : Option (Player × Option Coords))
    → IsArena m.squares
    → get_square_state m x y ≡ some 0
    → IsSound p
    → (k : Checks p x y r) → IsSound k.out
Checks-IsSound m x y p r arena e s k = record {
  tracked = k.tracked;
  lives = rw (k.lives) (s.lives);
  placed = elim (Option-cases k.correction) [
    | inl free ↦ subst IsPlaced (sym ((k.accepted free).0)) (free-IsPlaced m x y arena e)
    | inr (c, held) ↦ subst IsPlaced (sym (k.refused (λ z. cc))) (s.placed)
  ];
}

abbrev pub Moves : ℕ → Message → Room → Option Room → Type 0
Moves now m r none = Unit {0}
Moves now m r (some r') = Handles now m r r' false

pub handle_move-Handles :
    (net : Net) (now : ℕ) (p : Player) (x y : Float) (r : Room)
    → IsWellFormed r
    → IsSound p
    → find_player p.conn r.players ≡ some p
    → Moves now (i_move x y) r (handle_move net now p x y r)
unfolding handle_move
handle_move-Handles net now p x y r w s there =
    elim (Option-cases (get_square_state r.map x.whole y.whole)) [
      | inl off ↦ rw (off, Moves) tt
      | inr (v, on) ↦
          rw (on, Moves)
            (elim (Bool-cases (v == 0)) [
              | inr taken ↦ rw (taken, Moves) (send_specific-Handles net now p.conn _ _ r w)
              | inl free ↦ elim (move_check_sus-Checks now x.whole y.whole p (s.tracked)) [
                | inr gone ↦ rw (free, gone.0, Moves) tt
                | inl k ↦
                    let r0 : Room = record r {
                      players = update_player p.conn (λ _. k.out) r.players;
                    } in
                    let w0 : IsWellFormed r0 =
                      update_player-IsWellFormed p.conn (λ _. k.out) r (λ q e. k.conn)
                        (λ q sq.
                          Checks-IsSound r.map x.whole y.whole p _ (w.arena)
                            (on ∙ ap some (==→eq v 0 free)) s k)
                        w in
                    let same : conns r0.players ≡ conns r.players =
                      conns-update_player p.conn (λ _. k.out) r.players (λ q e. k.conn) in
                    let named = names-update_found p.conn p k.out r.players there k.username in
                    elim (Option-cases k.correction) [
                      | inl accepted ↦
                          let ret : move_check_sus now x.whole y.whole p ≡ some (k.out, none) =
                            k.returns ∙ ap (λ z. some (k.out, z)) accepted in
                          rw (free, ret, Moves)
                            (Quiet-Handles now _ r r0 _ refl refl refl refl same named w0
                              (send_except-Quiet net p.conn _ r0))
                      | inr (c, held) ↦
                          let ret : move_check_sus now x.whole y.whole p ≡ some (k.out, some c) =
                            k.returns ∙ ap (λ z. some (k.out, z)) held in
                          rw (free, ret, Moves)
                            (Quiet-Handles now _ r r0 _ refl refl refl refl same named w0
                              (send_specific-Quiet net p.conn _ r0))
                    ]
              ]
            ])
    ]
