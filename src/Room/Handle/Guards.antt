-- ===== src/Room/Handle/Guards.antt =====
-- Which messages `Room::HandleMessage` turns away, and on which it leaves the defined behaviour.
use boomberman.Player.{int_max}
use boomberman.Player.Moves.{move_check_sus-Checks}
use boomberman.Room.Players.{find_player-All}
use boomberman.Room.Invariant.{IsSound, IsWellFormed}
use boomberman.Room.{mark, find_player, wait_for_start}
use boomberman.Room.Sends.{
  send_specific-Quiet, send_specific-Quiet, send_specific-Quiet, send_specific-Quiet,
  send_specific-Quiet, send_specific-Quiet, send_specific-Quiet, Quiet, send_specific-Quiet,
  send_specific-Quiet, send_specific-Quiet, send_specific-Quiet,
}
use boomberman.Room.Handle.Move.{square_of}
use boomberman.Map.Arena.{IsArena}
use boomberman.Room.Handle.{
  move_check_sus, is_waiting, is_leave, Player, Room, handle_move, handle_playing, handle_waiting,
  handle_message,
}
use boomberman.Message.{error, i_move, i_leave, Message, Net, Float}
use boomberman.Map.{Map, get_square_state}
use boomberman.Base.{
  ◌≢◌, ℕ, ◌<◌, ◌≡◌, refl, ap, ◌∙◌, ◌⊎◌, inl, inr, true, false, none, some, List, ◌∷◌, arith, pos,
  ◌==◌, Bool-cases, Option-cases,
}

-- In a room that waits, a message that is no leave changes nothing but marks and the log, and
-- asks for no timer. So does a message that is no leave of a player who is out of lives, in any state.
pub handle_message-Quiet :
    (net : Net) (now author : ℕ) (m : Message) (r : Room) (p : Player)
    → is_leave m ≡ false
    → find_player author r.players ≡ some p
    → (r.state ≡ wait_for_start) ⊎ (p.lives_remaining ≡ 0)
    → (r' : Room) × (handle_message net now author m r ≡ some (r', false)) × Quiet r r'
unfolding handle_message handle_waiting
handle_message-Quiet net now author m r p other e h = elim (Bool-cases (is_waiting r.state)) [
  | inl waits ↦
      (_, rw (waits, other), send_specific-Quiet net author (error "Game hasn't started yet") r)
  | inr plays ↦
      let dead : (p.lives_remaining == 0) ≡ true = ground arith in
      (
        _,
        rw (plays, e, dead, other),
        send_specific-Quiet net author (error "You can't really do anything while dead, can you?")
            r,
      )
]

-- The coordinates name a square of the board.
abbrev pub IsOnBoard : Float → Float → Type 0
IsOnBoard x y = (a : ℕ) × (b : ℕ) × (x.whole ≡ pos a) × (y.whole ≡ pos b) × (a < 17) × (b < 11)

read_on_board :
    (m : Map) (x y : Float)
    → IsArena m.squares
    → IsOnBoard x y
    → (v : ℕ) × (get_square_state m x.whole y.whole ≡ some v)
unfolding get_square_state
read_on_board m x y arena (a, b, ex, ey, ha, hb) =
    let (v, e) = arena.inside a b ha hb in (v, rw (ex, ey) e)

read_off_board :
    (m : Map) (x y : Float)
    → IsArena m.squares
    → ¬ IsOnBoard x y
    → get_square_state m x.whole y.whole ≡ none
read_off_board m x y arena off = elim (Option-cases (get_square_state m x.whole y.whole)) [
  | inl e ↦ e
  | inr (v, e) ↦
      let (a, b, ex, ey, read) = square_of m x.whole y.whole v e in
      let (ha, hb) = arena.bounded a b v read in absurd (off (a, b, ex, ey, ha, hb))
]

handle_move-total :
    (net : Net) (now : ℕ) (p : Player) (x y : Float) (r : Room) (v : ℕ)
    → IsSound p
    → p.step ≢ pos int_max
    → get_square_state r.map x.whole y.whole ≡ some v
    → (r' : Room) × (handle_move net now p x y r ≡ some r')
unfolding handle_move
handle_move-total net now p x y r v s counts e =
    elim (move_check_sus-Checks now x.whole y.whole p (s.tracked)) [
      | inr gone ↦ absurd (counts (gone.1))
      | inl k ↦ elim (Bool-cases (v == 0)) [
        | inr taken ↦ rw (e, taken, handle_move) (_, refl)
        | inl free ↦ elim (Option-cases k.correction) [
          | inl accepted ↦
              let ret : move_check_sus now x.whole y.whole p ≡ some (k.out, none) =
                k.returns ∙ ap (λ z. some (k.out, z)) accepted in
              rw (e, free, ret, handle_move) (_, refl)
          | inr (c, held) ↦
              let ret : move_check_sus now x.whole y.whole p ≡ some (k.out, some c) =
                k.returns ∙ ap (λ z. some (k.out, z)) held in
              rw (e, free, ret, handle_move) (_, refl)
        ]
      ]
    ]

handle_move_off_board :
    (net : Net) (now : ℕ) (p : Player) (x y : Float) (r : Room)
    → get_square_state r.map x.whole y.whole ≡ none
    → handle_move net now p x y r ≡ none
unfolding handle_move
handle_move_off_board net now p x y r e = rw (e, handle_move)

-- In a well-formed room that does not wait, the move of a living player whose step counter is not the largest `int` is handled
-- if the coordinates sent name a square of the board. If they do not, the server reads outside its array, whatever
-- the network does: no check comes before the read.
pub handle_message-move :
    (net : Net) (now author : ℕ) (x y : Float) (r : Room) (p : Player)
    → IsWellFormed r
    → is_waiting r.state ≡ false
    → find_player author r.players ≡ some p
    → 0 < p.lives_remaining
    → p.step ≢ pos int_max
    → (IsOnBoard x y
        → (r' : Room) × (handle_message net now author (i_move x y) r ≡ some (r', false)))
      × (¬ IsOnBoard x y → handle_message net now author (i_move x y) r ≡ none)
unfolding handle_message handle_playing
handle_message-move net now author x y r p w plays e alive counts =
    let able : (p.lives_remaining == 0) ≡ false = ground arith in
    (
      λ on.
          let (v, read) = read_on_board r.map x y w.arena on in
          let (r', done) =
            handle_move-total net now p x y r v
              (find_player-All IsSound author r.players p w.sound e) counts read in
          (r', rw (plays, e, able, done)),
      λ off.
          let done = handle_move_off_board net now p x y r (read_off_board r.map x y w.arena off) in
          rw (plays, e, able, done),
    )

-- Before the game starts, a leave marks the player who joined last, and nobody else, whoever sent it.
pub handle_message_leave_waiting :
    (net : Net) (now author : ℕ) (r : Room) (newest : Player) (others : List Player)
    → r.state ≡ wait_for_start
    → r.players ≡ newest ∷ others
    → handle_message net now author i_leave r
      ≡ some (record r { players = mark newest ∷ others }, false)
unfolding handle_message handle_waiting
handle_message_leave_waiting net now author r newest others waits e = ground arith
