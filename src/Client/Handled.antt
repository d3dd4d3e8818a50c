-- ===== src/Client/Handled.antt =====
-- What a client follows of `Room::HandleMessage`.
use boomberman.Room.Sends.{Marks-mark}
use boomberman.Map.{get_square_state}
use boomberman.Room.Players.{conns-update_player, find_player-All, find_player-conn}
use boomberman.Room.Join.{is_waiting}
use boomberman.Player.Moves.{move_check_sus-Checks, IsTracked}
use boomberman.Player.{Coords, move_check_sus, Player}
use boomberman.Room.Handle.{
  is_leave, handle_place_bomb, handle_move, handle_message, quiet, handle_waiting, handle_playing,
}
use boomberman.Client.Mirror.{moves, handle_game_message-Mirrors, Mirrors}
use boomberman.Room.Disconnect.Loop.{member}
use boomberman.Client.Follow.{
  stays, server_view-Marks, other_placed_bomb-players, Follows-quiet, mark_first-Marks,
  Follows-reply, Follows-news, Follows, AreNamed,
}
use boomberman.Room.Invariant.{IsSound, IsWellFormed}
use boomberman.Client.Handler.{other_placed_bomb, handle_game_message, Game}
use boomberman.Room.{update_player, find_player, conns, Room}
use boomberman.Message.{of_int, other_move, i_leave, i_move, i_place_bomb, Float, Message, Net}
use text.Mathlib.Text.{◌==◌ as str_eq}
use boomberman.Base.{
  ap, ◌∙◌, not, ◌&&◌, refl, sym, Option-cases, inl, inr, Bool-cases, subst, false, ◌==◌, true, ◌≡◌,
  none, some, Bool, Option, ℕ,
}

-- Whatever comes out of the handling, if anything does, is followed.
abbrev pub Followed : ℕ → Room → Game → Option (Room × Bool) → Type 0
Followed d r g none = Unit {0}
Followed d r g (some (r', b)) = Follows d r r' g

abbrev MoveFollowed : ℕ → Room → Game → Option Room → Type 0
MoveFollowed d r g none = Unit {0}
MoveFollowed d r g (some r') = Follows d r r' g

module _ (net : Net) (now d : ℕ) (r : Room) (g : Game) (w : IsWellFormed r) (n : AreNamed r.players)
    (here : member d (conns r.players) ≡ true) (mirrors : Mirrors r.players g.eh.players) where
  handle_waiting-Followed :
      (author : ℕ) (m : Message)
      → (author == d) ≡ false
      → Followed d r g (handle_waiting net author m r)
  unfolding handle_waiting
  handle_waiting-Followed author m other = elim (Bool-cases (is_leave m)) [
    | inr e ↦
        rw (handle_waiting, e) (Follows-reply net d author _ r r g other refl (λ u. refl) mirrors)
    | inl e ↦ elim (mark_first-Marks r.players) [
      | inl k ↦ rw (handle_waiting, e, k) tt
      | inr (qs, k, marks) ↦
          rw (handle_waiting, e, k)
            (Follows-quiet refl (λ u. server_view-Marks u r.players qs marks) mirrors)
    ]
  ]

  handle_place_bomb-Follows :
      (p : Player) (x y : Float)
      → (p.conn == d) ≡ false
      → Follows d r (handle_place_bomb net now p x y r) g
  unfolding handle_place_bomb handle_game_message
  handle_place_bomb-Follows p x y other =
      Follows-news net d p.conn _ r _ g (other_placed_bomb p.username now x y g) other refl
        w.distinct here refl
        (subst (Mirrors r.players) (sym (other_placed_bomb-players p.username now x y g)) mirrors)

  handle_move-Followed :
      (p : Player) (x y : Float)
      → (p.conn == d) ≡ false
      → IsTracked p
      → find_player p.conn r.players ≡ some p
      → MoveFollowed d r g (handle_move net now p x y r)
  unfolding handle_move
  handle_move-Followed p x y other tracked there =
      elim (Option-cases (get_square_state r.map x.whole y.whole)) [
        | inl off ↦ rw (handle_move, off) tt
        | inr (v, on) ↦ elim (Bool-cases (v == 0)) [
          | inr taken ↦
              rw (handle_move, on, taken)
                (Follows-reply net d p.conn _ r r g other refl (λ u. refl) mirrors)
          | inl free ↦ elim (move_check_sus-Checks now x.whole y.whole p tracked) [
            | inr gone ↦ rw (handle_move, on, free, gone.0) tt
            | inl k ↦
                let r0 : Room = record r {
                  players = update_player p.conn (λ _. k.out) r.players;
                } in
                elim (Option-cases k.correction) [
                  | inr (c, held) ↦
                      let ret : move_check_sus now x.whole y.whole p ≡ some (k.out, some c) =
                        k.returns ∙ ap (λ z. some (k.out, z)) held in
                      rw (handle_move, on, free, ret)
                        (Follows-reply net d p.conn _ r r0 g other refl
                          (λ u.
                            stays u p k.out r.players there k.username (k.refused (λ z. cc)) k.lives
                              n.distinct)
                          mirrors)
                  | inl accepted ↦
                      let ret : move_check_sus now x.whole y.whole p ≡ some (k.out, none) =
                        k.returns ∙ ap (λ z. some (k.out, z)) accepted in
                      let same : conns r0.players ≡ conns r.players =
                        conns-update_player p.conn (λ _. k.out) r.players (λ q e. k.conn) in
                      let named =
                        find_player-All (λ q. str_eq q.username "" ≡ false) p.conn r.players p
                          n.nonempty there in
                      let done =
                        handle_game_message-Mirrors g
                          (moves p.conn p k.out there named k.username k.lives) n.distinct
                          mirrors in
                      rw (handle_move, on, free, ret)
                        (Follows-news net d p.conn _ r r0 g (done.0) other refl
                          (rw same (w.distinct)) (rw same here)
                          (subst
                            (λ (cs : Coords).
                              handle_game_message
                                (other_move p.username (of_int cs.x) (of_int cs.y)) g
                              ≡ some (done.0))
                            ((k.accepted accepted).0) (done.1))
                          (done.2))
                ]
          ]
        ]
      ]

  quiet-Followed : (o : Option Room) → MoveFollowed d r g o → Followed d r g (quiet o)
  quiet-Followed none h = tt
  quiet-Followed (some r') h = h

  handle_playing-Followed :
      (p : Player) (m : Message)
      → (p.conn == d) ≡ false
      → IsTracked p
      → find_player p.conn r.players ≡ some p
      → Followed d r g (handle_playing net now p m r)
  unfolding handle_playing
  handle_playing-Followed p (i_place_bomb x y) other tracked there =
      handle_place_bomb-Follows p x y other
  handle_playing-Followed p (i_move x y) other tracked there =
      quiet-Followed (handle_move net now p x y r) (handle_move-Followed p x y other tracked there)
  handle_playing-Followed p i_leave other tracked there =
      Follows-quiet refl (λ u. server_view-Marks u r.players _ (Marks-mark p.conn r.players))
        mirrors
  handle_playing-Followed p m other tracked there =
      Follows-reply net d p.conn _ r r g other refl (λ u. refl) mirrors

  handle_message-Followed :
      (author : ℕ) (m : Message)
      → (author == d) ≡ false
      → Followed d r g (handle_message net now author m r)
  unfolding handle_message
  handle_message-Followed author m other = elim (Bool-cases (is_waiting r.state)) [
    | inl e ↦ rw (handle_message, e) (handle_waiting-Followed author m other)
    | inr e ↦ elim (Option-cases (find_player author r.players)) [
      | inl none_there ↦ rw (handle_message, e, none_there) tt
      | inr (p, there) ↦
          let mine : p.conn ≡ author = find_player-conn author r.players p there in
          let sound = find_player-All IsSound author r.players p w.sound there in
          elim (Bool-cases ((p.lives_remaining == 0) && not (is_leave m))) [
            | inl dead ↦
                rw (handle_message, e, there, dead)
                  (Follows-reply net d author _ r r g other refl (λ u. refl) mirrors)
            | inr may ↦
                rw (handle_message, e, there, may)
                  (handle_playing-Followed p m (rw mine other) sound.tracked
                    (subst (λ c. find_player c r.players ≡ some p) (sym mine) there))
          ]
    ]
  ]

-- In a well-formed room of players with names of their own, whatever message another player's connection sends, the client
-- of a player is sent just such messages meanwhile as take it from mirroring the room's players to mirroring them after.
pub handle_message-Follows :
    (net : Net) (now author : ℕ) (m : Message) (r r' : Room) (b : Bool) (d : ℕ) (g : Game)
    → IsWellFormed r
    → AreNamed r.players
    → member d (conns r.players) ≡ true
    → (author == d) ≡ false
    → Mirrors r.players g.eh.players
    → handle_message net now author m r ≡ some (r', b)
    → Follows d r r' g
handle_message-Follows net now author m r r' b d g w n here other mirrors e =
    subst (Followed d r g) e (handle_message-Followed net now d r g w n here mirrors author m other)
