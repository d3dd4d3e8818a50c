-- ===== src/Room/Handle/Keeps.antt =====
-- `Room::HandleMessage` keeps a room well formed.
use boomberman.Room.Players.{find_player-conn, find_player-All}
use boomberman.Room.Handle.Laws.{
  mark-Handles, send_specific-Handles, handle_waiting-Handles, handle_place_bomb-Handles, Results,
  Handles,
}
use boomberman.Room.Handle.Move.{handle_move-Handles, Moves}
use boomberman.Room.Invariant.{IsSound, IsWellFormed}
use boomberman.Message.{i_leave, i_move, i_place_bomb, Message, Net}
use boomberman.Room.Handle.{
  is_leave, find_player, is_waiting, quiet, Player, Room, handle_playing, handle_message,
}
use boomberman.Base.{
  sym, ℕ, ◌≡◌, subst, inl, inr, Bool, not, ◌&&◌, Option, none, some, ◌==◌, Bool-cases, Option-cases,
}

quiet-Results :
    (now : ℕ) (m : Message) (r : Room) (o : Option Room)
    → Moves now m r o
    → Results now m r (quiet o)
quiet-Results now m r none h = tt
quiet-Results now m r (some r') h = h

handle_playing-Handles :
    (net : Net) (now : ℕ) (p : Player) (m : Message) (r : Room)
    → IsWellFormed r
    → IsSound p
    → find_player p.conn r.players ≡ some p
    → Results now m r (handle_playing net now p m r)
unfolding handle_playing
handle_playing-Handles net now p (i_place_bomb x y) r w s there =
    handle_place_bomb-Handles net now p x y r w
handle_playing-Handles net now p (i_move x y) r w s there =
    quiet-Results now (i_move x y) r _ (handle_move-Handles net now p x y r w s there)
handle_playing-Handles net now p i_leave r w s there = mark-Handles now i_leave p.conn r w
handle_playing-Handles net now p m r w s there = send_specific-Handles net now p.conn m _ r w

handle_message-Results :
    (net : Net) (now author : ℕ) (m : Message) (r : Room)
    → IsWellFormed r
    → Results now m r (handle_message net now author m r)
unfolding handle_message
handle_message-Results net now author m r w = elim (Bool-cases (is_waiting r.state)) [
  | inl waits ↦ rw (waits, Results) (handle_waiting-Handles net now author m r w)
  | inr plays ↦ elim (Option-cases (find_player author r.players)) [
    | inl gone ↦ rw (plays, gone, Results) tt
    | inr (p, e) ↦ elim (Bool-cases ((p.lives_remaining == 0) && not (is_leave m))) [
      | inl dead ↦ rw (plays, e, dead, Results) (send_specific-Handles net now author m _ r w)
      | inr able ↦
          rw (plays, e, able, Results)
            (handle_playing-Handles net now p m r w
              (find_player-All IsSound author r.players p w.sound e)
              (subst (λ (c : ℕ). find_player c r.players ≡ some p)
                (sym (find_player-conn author r.players p e)) e))
    ]
  ]
]

-- Whenever a message is handled, in any state, the room stays well formed, with its state, its
-- count of clients, its board, and the connections and names of its players. A timer is asked for by placing messages alone, and
-- the queue of bombs grows just then, at its end, by the bomb at the whole parts of the coordinates sent.
pub handle_message-Handles :
    (net : Net) (now author : ℕ) (m : Message) (r r' : Room) (b : Bool)
    → IsWellFormed r
    → handle_message net now author m r ≡ some (r', b)
    → Handles now m r r' b
handle_message-Handles net now author m r r' b w e =
    subst (Results now m r) e (handle_message-Results net now author m r w)
