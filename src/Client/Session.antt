-- ===== src/Client/Session.antt =====
-- A client through a whole game: whatever the other connections send and whichever bombs explode, as
-- `Server::runRooms` and `Server::runBombs` of game/src/server/Server.cpp serve it, for as long as he stays in the room.
use boomberman.Room.Disconnect.Erase.{All-erase_player}
use boomberman.Room.Handle.Keeps.{handle_message-Handles}
use boomberman.Client.Burnt.{notify_explosion-Follows}
use boomberman.Server.Safe.Rooms.{handle_room_post_event-Settles}
use boomberman.Client.Handled.{handle_message-Follows}
use boomberman.Room.Handle.{handle_message}
use boomberman.Room.Explosion.{notify_explosion}
use boomberman.Room.Handle.Laws.{Handles, mark-Handles}
use boomberman.Server.Safe.Events.{IsBurnt, notify_explosion-IsBurnt, IsReady}
use boomberman.Client.Sweep.{DistinctNames-erase_player}
use boomberman.Room.Disconnect.Laws.{disconnect_players-Disconnects}
use boomberman.Client.Parting.{disconnect_players-Follows}
use boomberman.Client.Mirror.{Mirrors}
use boomberman.Room.Sends.{Marks-mark, names-Marks, names}
use boomberman.Room.Invariant.{IsWellFormed}
use boomberman.Room.Disconnect.Loop.{unswept, sweep-Swept, member}
use boomberman.Client.Watch.{names-All, names-DistinctNames, Follows-trans}
use boomberman.Player.{Player}
use boomberman.Client.Handler.{Game}
use boomberman.Server.{
  keys, is_over, again, serve_bomb, serve_room, Served, handle_room_post_event, Server,
}
use boomberman.Client.Follow.{server_view-Marks, Follows-quiet, Follows, AreNamed}
use boomberman.Room.{find_player, mark, update_player, conns, Room}
use boomberman.Message.{i_leave, Message, Net}
use boomberman.Room.Disconnect.{
  sweep, erase_player, Sweep, crown, finish, erase_players, disconnect_players,
}
use text.Mathlib.Text.{◌==◌ as str_eq}
use boomberman.Base.{
  ◌||◌, Bool-cases, subst, inr, inl, Bool, ◌==◌, Option-cases, refl, false, none, some, true, [],
  ◌≡◌, Option, List, ◌∷◌, ℕ,
}

-- A client that has followed, and can follow on.
pub record Continues (d : ℕ) (r r' : Room) (g : Game) : Type 0 where
  pub follows : Follows d r r' g
  pub well_formed : IsWellFormed r'
  pub named : AreNamed r'.players

pub Continues-trans :
    {d : ℕ} {a b c : Room} {g : Game} (f : Continues d a b g)
    → Continues d b c f.follows.after
    → Continues d a c g
Continues-trans f h = record {
  follows = Follows-trans f.follows h.follows;
  well_formed = h.well_formed;
  named = h.named;
}

names-AreNamed : (ps qs : List Player) → names qs ≡ names ps → AreNamed ps → AreNamed qs
names-AreNamed ps qs e n = record {
  distinct = names-DistinctNames ps qs e n.distinct;
  nonempty = names-All (λ u. str_eq u "" ≡ false) ps qs e n.nonempty;
}

erase_players-AreNamed :
    (cs : List ℕ) (ps : List Player) → AreNamed ps → AreNamed (erase_players cs ps)
unfolding erase_players
erase_players-AreNamed [] ps n = n
erase_players-AreNamed (c ∷ cs) ps n = erase_players-AreNamed cs (erase_player c ps) (record {
  distinct = DistinctNames-erase_player c ps n.distinct;
  nonempty = All-erase_player _ c ps n.nonempty;
})

finish-AreNamed :
    (net : Net) (left : List Player) (s : Sweep)
    → AreNamed left
    → AreNamed
        (finish net left (record s { room = record (s.room) { players = left } })).room.players
unfolding finish crown
finish-AreNamed net [] s n = n
finish-AreNamed net (p ∷ []) s n = record { distinct = tt; nonempty = tt }
finish-AreNamed net (p ∷ q ∷ ps) s n = n

disconnect_players-AreNamed :
    (net : Net) (now : ℕ) (r : Room)
    → AreNamed r.players
    → AreNamed (disconnect_players net now r).room.players
unfolding disconnect_players
disconnect_players-AreNamed net now r n =
    let s0 : Sweep = record { room = r; bombs_to_place = 0; sockets_to_delete = [] } in
    let s = sweep net now (conns r.players) s0 in
    let k = sweep-Swept net now (conns r.players) r s0 (unswept r) in
    finish-AreNamed net _ s (
      erase_players-AreNamed s.sockets_to_delete s.room.players
        (names-AreNamed r.players s.room.players (names-Marks r.players s.room.players k.marks) n))

pub unchanged-Continues :
    (d : ℕ) (r : Room) (g : Game)
    → IsWellFormed r
    → AreNamed r.players
    → Mirrors r.players g.eh.players
    → Continues d r r g
unchanged-Continues d r g w n m = record {
  follows = Follows-quiet refl (λ u. refl) m;
  well_formed = w;
  named = n;
}

module _ (net : Net) (now d : ℕ) where
  handle_room_post_event-Continues :
      (r : Room) (s : Server) (g : Game)
      → IsWellFormed r
      → AreNamed r.players
      → member d (conns (handle_room_post_event net now r s).room.players) ≡ true
      → Mirrors r.players g.eh.players
      → Continues d r (handle_room_post_event net now r s).room g
  unfolding handle_room_post_event
  handle_room_post_event-Continues r s g w n here m = record {
    follows = disconnect_players-Follows net now d r g w n.distinct here m;
    well_formed = (disconnect_players-Disconnects net now r w).well_formed;
    named = disconnect_players-AreNamed net now r n;
  }

  -- The clean-up after a change that has been followed.
  then-Continues :
      (r r1 : Room) (s : Server) (g : Game) (first : Continues d r r1 g)
      → member d (conns (handle_room_post_event net now r1 s).room.players) ≡ true
      → Continues d r (handle_room_post_event net now r1 s).room g
  then-Continues r r1 s g first here = Continues-trans first (
      handle_room_post_event-Continues r1 s first.follows.after first.well_formed first.named here
        first.follows.mirrors)

  -- If there is a result in which the client's player is still there, he continues.
  abbrev pub Continuing : Room → Game → Option Served → Type 0
  Continuing r g none = Unit {0}
  Continuing r g (some v) = member d (conns v.room.players) ≡ true → Continues d r v.room g

  -- A player who is marked cannot be seen.
  marked-Continues :
      (c : ℕ) (r : Room) (g : Game)
      → IsWellFormed r
      → AreNamed r.players
      → Mirrors r.players g.eh.players
      → Continues d r (record r { players = update_player c mark r.players }) g
  marked-Continues c r g w n m =
      let h = mark-Handles now i_leave c r w in
      record {
        follows =
            Follows-quiet refl (λ u. server_view-Marks u r.players _ (Marks-mark c r.players)) m;
        well_formed = h.well_formed;
        named = names-AreNamed r.players _ h.names_same n;
      }

  pub serve_room-Continuing :
      (c : ℕ) (received : Option Message) (r : Room) (s : Server) (g : Game)
      → (c == d) ≡ false
      → IsWellFormed r
      → AreNamed r.players
      → Mirrors r.players g.eh.players
      → Continuing r g (serve_room net now c received r s)
  unfolding serve_room again
  serve_room-Continuing c received r s g other w n m =
      elim (Option-cases (find_player c r.players)) [
        | inl e ↦ rw (serve_room, e) tt
        | inr (p, e) ↦ elim (Bool-cases (p.marked_for_disconnect || is_over r.state)) [
          | inl idle ↦ rw (serve_room, e, idle) (λ here. unchanged-Continues d r g w n m)
          | inr busy ↦ elim (Option-cases received) [
            | inl nothing ↦
                rw (serve_room, e, busy, nothing)
                  (λ here. then-Continues r _ s g (marked-Continues c r g w n m) here)
            | inr (msg, got) ↦ elim (Option-cases (handle_message net now c msg r)) [
              | inl none_left ↦ rw (serve_room, e, busy, got, none_left) tt
              | inr ((r', b), handled) ↦
                  let h = handle_message-Handles net now c msg r r' b w handled in
                  let first = handle_room_post_event net now r' s in
                  elim (Bool-cases (member c (keys first.server.room_assignments))) [
                    | inr erased ↦ rw (serve_room, e, busy, got, handled, erased) tt
                    | inl there ↦
                        rw (serve_room, e, busy, got, handled, there)
                          (λ here.
                            let then_here : member d (conns first.room.players) ≡ true =
                              (handle_room_post_event-Settles net now first.room first.server (
                                  (handle_room_post_event-Settles net now r' s
                                    h.well_formed).well_formed)).within
                                d here in
                            let once =
                              then-Continues r r' s g
                                (handled-Continues c msg r r' b g other w n m handled h (
                                  (handle_room_post_event-Settles net now r' s h.well_formed).within
                                    d then_here))
                                then_here in
                            then-Continues r first.room first.server g once here)
                  ]
            ]
          ]
        ]
      ]
    where
      handled-Continues :
          (c : ℕ) (msg : Message) (r r' : Room) (b : Bool) (g : Game)
          → (c == d) ≡ false
          → IsWellFormed r
          → AreNamed r.players
          → Mirrors r.players g.eh.players
          → handle_message net now c msg r ≡ some (r', b)
          → Handles now msg r r' b
          → member d (conns r'.players) ≡ true
          → Continues d r r' g
      handled-Continues c msg r r' b g other w n m handled h here = record {
        follows =
            handle_message-Follows net now c msg r r' b d g w n
              (subst (λ (cs : List ℕ). member d cs ≡ true) h.conns_same here) other m handled;
        well_formed = h.well_formed;
        named = names-AreNamed r.players r'.players h.names_same n;
      }

  pub serve_bomb-Continuing :
      (time drawn : ℕ) (r : Room) (s : Server) (g : Game)
      → IsReady drawn r
      → IsWellFormed r
      → AreNamed r.players
      → Mirrors r.players g.eh.players
      → Continuing r g (serve_bomb net now time drawn r s)
  unfolding serve_bomb
  serve_bomb-Continuing time drawn r s g ready w n m =
      let burnt = notify_explosion-IsBurnt net now time drawn r w ready in
      elim (Option-cases (notify_explosion net now time drawn r)) [
        | inl e ↦ rw (serve_bomb, e) tt
        | inr (r', e) ↦
            let (w', cs, ns) = subst (IsBurnt r) e burnt in
            rw (serve_bomb, e)
              (λ here.
                let here' = (handle_room_post_event-Settles net now r' s w').within d here in
                then-Continues r r' s g
                  (record {
                    follows =
                        notify_explosion-Follows net now time drawn d r r' g
                          (record {
                            distinct = w.distinct;
                            named = n.distinct;
                            here = subst (λ (l : List ℕ). member d l ≡ true) cs here';
                          })
                          m e;
                    well_formed = w';
                    named = names-AreNamed r.players r'.players ns n;
                  })
                  here)
      ]
