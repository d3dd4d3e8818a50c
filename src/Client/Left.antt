-- ===== src/Client/Left.antt =====
-- The clients of those who stay follow `Room::DisconnectPlayers`.
use boomberman.Client.{Boomberman}
use boomberman.Bomb.{new_bomb}
use boomberman.Client.Follow.{other_placed_bomb-players, Mirrors-Marks, Follows}
use boomberman.Room.Sends.{send_except-Quiet}
use boomberman.Client.Inbox.{inbox}
use boomberman.Client.Sweep.{
  Marks-erase_players, erase_players-append, except-Follows, DistinctNames-erase_players,
  find_player-erase_players, left_room, left_of,
}
use boomberman.Client.Mirror.{leaves, handle_game_message-Mirrors, Mirrors}
use boomberman.Room.Disconnect.Loop.{member}
use boomberman.Room.{is_play, send_except, Room, find_player}
use boomberman.Client.Watch.{Follows-trans, Marks-IsWatched, IsWatched}
use boomberman.Client.Handler.{other_placed_bomb, handle_game_message, Game}
use boomberman.Room.Disconnect.{drop_bomb, close_socket, let_go, Sweep}
use boomberman.Player.{Player}
use boomberman.Message.{of_int, other_bomb_place, other_leave, Net}
use boomberman.Base.{
  refl, sym, List, ◌+◌, subst, inl, inr, not, ◌&&◌, true, ◌∙◌, Bool-cases, [], ◌∷◌, ◌++◌, false,
  ◌==◌, some, ◌≡◌, ℕ,
}

module _ (net : Net) (now d : ℕ) (p : Player) (s : Sweep) (g : Game)
    (w : IsWatched d s.room.players) (found : find_player p.conn s.room.players ≡ some p)
    (other : (p.conn == d) ≡ false) (here : member p.conn s.sockets_to_delete ≡ false)
    (mirrors : Mirrors (left_of s) g.eh.players) where
  abbrev told : Room
  told = send_except net p.conn (other_leave p.username) s.room

  -- The sweep once the others have been told.
  abbrev without : Sweep
  without = record s {
    room = close_socket p.conn told;
    sockets_to_delete = s.sockets_to_delete ++ p.conn ∷ [];
  }

  told-IsWatched : IsWatched d told.players
  told-IsWatched =
      Marks-IsWatched d s.room.players _
        (send_except-Quiet net p.conn (other_leave p.username) s.room).marks w

  without-Follows : Follows d (left_room s) (left_room without) g
  unfolding inbox
  without-Follows =
      let there : find_player p.conn (left_of s) ≡ some p =
        find_player-erase_players p.conn s.sockets_to_delete s.room.players here ∙ found in
      let (g', done, after) =
        handle_game_message-Mirrors g (leaves p.conn p there)
          (DistinctNames-erase_players s.sockets_to_delete s.room.players w.named) mirrors in
      let q = send_except-Quiet net p.conn (other_leave p.username) s.room in
      except-Follows net d p.conn (other_leave p.username) s.room _ _ g g' other refl refl
        w.distinct w.here done
        (Mirrors-Marks
          (subst (λ (ps : List Player). Mirrors ps g'.eh.players)
            (sym (erase_players-append s.sockets_to_delete p.conn s.room.players)) after)
          (Marks-erase_players (s.sockets_to_delete ++ p.conn ∷ []) s.room.players told.players
            q.marks))

  -- The bomb that a player leaves behind is news, too, and changes no player.
  drop_bomb-Follows :
      (bombs : ℕ) (h : Game)
      → Mirrors (left_of without) h.eh.players
      → Follows d
          (left_room without)
          (left_room (record {
            room = drop_bomb net now p (close_socket p.conn told);
            bombs_to_place = bombs;
            sockets_to_delete = s.sockets_to_delete ++ p.conn ∷ [];
          }))
          h
  unfolding drop_bomb handle_game_message
  drop_bomb-Follows bombs h m =
      let bomb = new_bomb p.coords.x p.coords.y 9 25 now 3 true in
      let r0 : Room = record (close_socket p.conn told) {
        bombs = (close_socket p.conn told).bombs ++ bomb ∷ [];
      } in
      let sent = other_bomb_place "Server" now (of_int p.coords.x) (of_int p.coords.y) in
      let h' = other_placed_bomb "Server" now (of_int p.coords.x) (of_int p.coords.y) h in
      let q = send_except-Quiet net p.conn sent r0 in
      except-Follows net d p.conn sent r0 _ _ h h' other refl refl told-IsWatched.distinct
        told-IsWatched.here refl
        (Mirrors-Marks
          (subst (λ (bs : List Boomberman). Mirrors (left_of without) bs)
            (sym (other_placed_bomb-players "Server" now (of_int p.coords.x) (of_int p.coords.y) h))
            m)
          (Marks-erase_players (s.sockets_to_delete ++ p.conn ∷ []) r0.players _ q.marks))

  pub let_go-Follows : Follows d (left_room s) (left_room (let_go net now p s)) g
  unfolding let_go
  let_go-Follows = elim (Bool-cases (is_play told.state && not (p.lives_remaining == 0))) [
    | inr leaves_none ↦ rw (let_go, leaves_none) without-Follows
    | inl drops ↦
        rw (let_go, drops)
          (Follows-trans without-Follows (
            drop_bomb-Follows (s.bombs_to_place + 1) without-Follows.after without-Follows.mirrors))
  ]
