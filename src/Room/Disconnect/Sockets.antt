-- ===== src/Room/Disconnect/Sockets.antt =====
-- Whose sockets `Room::DisconnectPlayers` hands on, and who stays.
use boomberman.Room.Sends.{conns-Marks}
use boomberman.Room.Disconnect.Loop.{
  visit-Visits, member-append, sweep-Swept, unswept, Swept, member,
}
use boomberman.Room.{conns, Player, Net, Room}
use boomberman.Room.Disconnect.{
  visit, crown, Sweep, erase_player, finish, sweep, disconnect_players, erase_players,
}
use boomberman.Base.{
  ap, inr, inl, ◌==◌, Bool-cases, arith, ◌||◌, subst, ◌∷◌, true, ◌≡◌, [], List, ℕ,
}

sweep-sockets :
    (net : Net) (now d : ℕ) (cs : List ℕ) (r : Room) (s : Sweep)
    → Swept r s
    → member d (sweep net now cs s).sockets_to_delete ≡ true
    → (member d s.sockets_to_delete || member d cs) ≡ true
unfolding sweep
sweep-sockets net now d [] r s w h = ground (arith, h)
sweep-sockets net now d (c ∷ cs) r s w h =
    let v = visit-Visits net now c r s w in
    let rest = sweep-sockets net now d cs r (visit net now c s) v.swept h in
    elim (v.took) [
      | inl (e, _) ↦ ground (arith, rest, ap (member d) e)
      | inr e ↦ ground (arith, rest, ap (member d) e, member-append d s.sockets_to_delete (c ∷ []))
    ]

member-erase_player :
    (c d : ℕ) (ps : List Player)
    → member d (conns (erase_player c ps)) ≡ true
    → member d (conns ps) ≡ true
unfolding erase_player
member-erase_player c d [] h = h
member-erase_player c d (p ∷ ps) h = elim (Bool-cases (p.conn == c)) [
  | inl e ↦ ground (arith, e, h)
  | inr e ↦ ground (arith, e, h, member-erase_player c d ps)
]

member-erase_players :
    (cs : List ℕ) (d : ℕ) (ps : List Player)
    → member d (conns (erase_players cs ps)) ≡ true
    → member d (conns ps) ≡ true
unfolding erase_players
member-erase_players [] d ps h = h
member-erase_players (c ∷ cs) d ps h =
    member-erase_player c d ps (member-erase_players cs d (erase_player c ps) h)

-- Those who stay in the room, and those who go, were in it.
pub record Parts (r : Room) (s : Sweep) : Type 0 where
  pub stays : (d : ℕ) → member d (conns s.room.players) ≡ true → member d (conns r.players) ≡ true
  pub goes : (d : ℕ) → member d s.sockets_to_delete ≡ true → member d (conns r.players) ≡ true

finish-Parts :
    (net : Net) (r : Room) (s : Sweep) (left : List Player)
    → ((d : ℕ) → member d (conns left) ≡ true → member d (conns r.players) ≡ true)
    → ((d : ℕ) → member d s.sockets_to_delete ≡ true → member d (conns r.players) ≡ true)
    → Parts r (finish net left (record s { room = record (s.room) { players = left } }))
unfolding finish crown
finish-Parts net r s [] f g = record { stays = λ d h. cc; goes = g }
finish-Parts net r s (p ∷ []) f g = record {
  stays = λ d h. cc;
  goes = λ d h. ground (arith, h, f d, g d, member-append d s.sockets_to_delete (p.conn ∷ []));
}
finish-Parts net r s (p ∷ q ∷ ps) f g = record { stays = f; goes = g }

pub disconnect_players-Parts :
    (net : Net) (now : ℕ) (r : Room) → Parts r (disconnect_players net now r)
unfolding disconnect_players
disconnect_players-Parts net now r =
    let s0 : Sweep = record { room = r; bombs_to_place = 0; sockets_to_delete = [] } in
    let k0 = unswept r in
    let s = sweep net now (conns r.players) s0 in
    let k = sweep-Swept net now (conns r.players) r s0 k0 in
    finish-Parts net r s _
      (λ d h.
        subst (λ (cs : List ℕ). member d cs ≡ true) (conns-Marks r.players s.room.players k.marks)
          (member-erase_players s.sockets_to_delete d s.room.players h))
      (λ d h. sweep-sockets net now d (conns r.players) r s0 k0 h)
