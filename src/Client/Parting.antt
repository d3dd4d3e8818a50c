-- ===== src/Client/Parting.antt =====
-- The whole of `Room::DisconnectPlayers`, as the clients of those who stay see it.
use boomberman.Server.Laws.{gone-member}
use boomberman.Room.Disconnect.Laws.{disconnect_players-Disconnects}
use boomberman.Room.Disconnect.Sockets.{disconnect_players-Parts}
use boomberman.Client.Names.{DistinctNames}
use boomberman.Client.Left.{let_go-Follows}
use boomberman.Room.Players.{find_player-conn}
use boomberman.Client.Follow.{Follows-quiet, Follows}
use boomberman.Client.Sweep.{left_room, left_of}
use boomberman.Client.Mirror.{Mirrors}
use boomberman.Client.Watch.{Follows-trans, Marks-IsWatched, IsWatched}
use boomberman.Client.Handler.{Game}
use boomberman.Room.Disconnect.Loop.{
  unswept, visit-out, sweep-grows, visit-Visits, Visits, member-append, Swept, member,
}
use boomberman.Room.{conns, find_player, is_play, send_except, Room}
use boomberman.Room.Invariant.{IsWellFormed, Distinct, IsFresh}
use boomberman.Player.{Player}
use boomberman.Room.Disconnect.{
  crown, erase_players, disconnect_players, finish, Sweep, sweep, visit, let_go,
}
use boomberman.Message.{other_leave, Net}
use boomberman.Base.{
  true, some, subst, refl, inr, not, inl, Option-cases, ◌&&◌, ap, arith, sym, Bool-cases, ne→==,
  ◌==◌, [], false, ◌++◌, ◌≡◌, All, List, ◌∷◌, ℕ,
}

fresh_append :
    (sockets : List ℕ) (c : ℕ) (cs : List ℕ)
    → IsFresh c cs
    → All (λ e. member e sockets ≡ false) cs
    → All (λ e. member e (sockets ++ c ∷ []) ≡ false) cs
fresh_append sockets c [] u h = tt
fresh_append sockets c (e ∷ cs) u h =
    let ne : (e == c) ≡ false = ne→== e c (λ k. u.0 (sym k)) in
    (
      ground (arith, ne, h.0, member-append e sockets (c ∷ [])),
      fresh_append sockets c cs (u.1) (h.1),
    )

let_go-sockets :
    (net : Net) (now : ℕ) (p : Player) (s : Sweep)
    → (let_go net now p s).sockets_to_delete ≡ s.sockets_to_delete ++ p.conn ∷ []
unfolding let_go
let_go-sockets net now p s =
    let r1 = send_except net p.conn (other_leave p.username) s.room in
    elim (Bool-cases (is_play r1.state && not (p.lives_remaining == 0))) [
      | inl drops ↦ rw (let_go, drops) refl
      | inr leaves ↦ rw (let_go, leaves) refl
    ]

module _ (net : Net) (now d : ℕ) where
  visit-Follows :
      (c : ℕ) (s : Sweep) (g : Game)
      → IsWatched d s.room.players
      → member c s.sockets_to_delete ≡ false
      → member d (visit net now c s).sockets_to_delete ≡ false
      → Mirrors (left_of s) g.eh.players
      → Follows d (left_room s) (left_room (visit net now c s)) g
  unfolding visit
  visit-Follows c s g w fresh stays m = elim (Option-cases (find_player c s.room.players)) [
    | inl gone ↦ rw (visit, gone) (Follows-quiet refl (λ u. refl) m)
    | inr (p, found) ↦
        let mine : p.conn ≡ c = find_player-conn c s.room.players p found in
        elim (Bool-cases p.marked_for_disconnect) [
          | inr unmarked ↦ rw (visit, found, unmarked) (Follows-quiet refl (λ u. refl) m)
          | inl marked ↦
              let out : visit net now c s ≡ let_go net now p s =
                visit-out net now c s p found marked in
              let gone : member d (let_go net now p s).sockets_to_delete ≡ false =
                subst (λ (t : Sweep). member d t.sockets_to_delete ≡ false) out stays in
              subst (λ (t : Sweep). Follows d (left_room s) (left_room t) g) (sym out)
                (let_go-Follows net now d p s g w
                  (subst (λ (z : ℕ). find_player z s.room.players ≡ some p) (sym mine) found)
                  (let_go-other p s gone)
                  (subst (λ (z : ℕ). member z s.sockets_to_delete ≡ false) (sym mine) fresh) m)
        ]
  ]
    where
      -- Who is let go is not the one who stays.
      let_go-other :
          (p : Player) (s : Sweep)
          → member d (let_go net now p s).sockets_to_delete ≡ false
          → (p.conn == d) ≡ false
      let_go-other p s out = ground (
        arith,
        out,
        ap (member d) (let_go-sockets net now p s),
        member-append d s.sockets_to_delete (p.conn ∷ []),
      )

  sweep-Follows :
      (cs : List ℕ) (r : Room) (s : Sweep) (g : Game)
      → IsWatched d r.players
      → Swept r s
      → Distinct cs
      → All (λ c. member c s.sockets_to_delete ≡ false) cs
      → member d (sweep net now cs s).sockets_to_delete ≡ false
      → Mirrors (left_of s) g.eh.players
      → Follows d (left_room s) (left_room (sweep net now cs s)) g
  unfolding sweep
  sweep-Follows [] r s g w k u fresh stays m = Follows-quiet refl (λ z. refl) m
  sweep-Follows (c ∷ cs) r s g w k u fresh stays m =
      let v = visit-Visits net now c r s k in
      let s1 = visit net now c s in
      let stays1 : member d s1.sockets_to_delete ≡ false =
        elim (Bool-cases (member d s1.sockets_to_delete)) [
          | inr out ↦ out
          | inl taken ↦ absurd (ground (arith, stays, sweep-grows net now d cs r s1 v.swept taken))
        ] in
      let first =
        visit-Follows c s g (Marks-IsWatched d r.players s.room.players k.marks w) (fresh.0) stays1
          m in
      Follows-trans first (
        sweep-Follows cs r s1 first.after w v.swept (u.1) (still_fresh s1 v u fresh) stays
          first.mirrors)
    where
      still_fresh :
          (s1 : Sweep)
          → Visits r c s s1
          → Distinct (c ∷ cs)
          → All (λ e. member e s.sockets_to_delete ≡ false) (c ∷ cs)
          → All (λ e. member e s1.sockets_to_delete ≡ false) cs
      still_fresh s1 v u fresh = elim (v.took) [
        | inl (e, _) ↦ rw e (fresh.1)
        | inr e ↦ rw e (fresh_append s.sockets_to_delete c cs (u.0) (fresh.1))
      ]

  -- The last player is not there afterwards, so two are left at least.
  finish-Follows :
      (r : Room) (s : Sweep) (left : List Player) (g : Game)
      → (let out = finish net left (record s { room = record (s.room) { players = left } }) in
          (member d (conns out.room.players) ≡ true) × (member d out.sockets_to_delete ≡ false))
      → (member d s.sockets_to_delete ≡ false → Follows d r (record (s.room) { players = left }) g)
      → Follows d r
          (finish net left (record s { room = record (s.room) { players = left } })).room
          g
  unfolding finish crown
  finish-Follows r s [] g h f = cc
  finish-Follows r s (p ∷ []) g h f = cc
  finish-Follows r s (p ∷ q ∷ ps) g h f = f (h.1)

  -- In a well-formed room where no two players share a name, the client of a player who is still there after the clean-up
  -- is sent just such messages by it as take it from mirroring the room's players to mirroring those who are left.
  pub disconnect_players-Follows :
      (r : Room) (g : Game)
      → IsWellFormed r
      → DistinctNames (λ p. p.username) r.players
      → member d (conns (disconnect_players net now r).room.players) ≡ true
      → Mirrors r.players g.eh.players
      → Follows d r (disconnect_players net now r).room g
  unfolding disconnect_players erase_players
  disconnect_players-Follows r g w named here m =
      let s0 : Sweep = record { room = r; bombs_to_place = 0; sockets_to_delete = [] } in
      let s = sweep net now (conns r.players) s0 in
      let parts = disconnect_players-Parts net now r in
      let laws = disconnect_players-Disconnects net now r w in
      let watched : IsWatched d r.players = record {
        distinct = w.distinct;
        named = named;
        here = parts.stays d here;
      } in
      finish-Follows r s (left_of s) g
        (here, gone-member d (disconnect_players net now r).sockets_to_delete _ laws.gone here)
        (λ out.
          sweep-Follows (conns r.players) r s0 g watched (unswept r) w.distinct
            (none_gone (conns r.players)) out m)
    where
      none_gone : (cs : List ℕ) → All (λ c. member c [] ≡ false) cs
      none_gone [] = tt
      none_gone (c ∷ cs) = (refl, none_gone cs)
