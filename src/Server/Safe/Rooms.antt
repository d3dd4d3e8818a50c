-- ===== src/Server/Safe/Rooms.antt =====
-- Events of `runRooms` and of `runBombs`, against the agreement of the tables with the rooms.
use boomberman.Server.Laws.{gone-member, lobby-erase_sockets}
use boomberman.Server.Tables.{find_assignment-erase, member-erase_key}
use boomberman.Room.Disconnect.Sockets.{disconnect_players-Parts}
use boomberman.Server.Safe.{Same, Same-trans, Same-refl}
use boomberman.Room.Disconnect.Laws.{disconnect_players-Disconnects}
use boomberman.Room.Invariant.{IsWellFormed}
use boomberman.Room.{conns, Room}
use boomberman.Server.{
  erase_assignment, erase_key, disconnect_players, Served, member, Server, Net, again,
  erase_sockets, handle_room_post_event,
}
use boomberman.Base.{
  [], inr, arith, ◌==◌, inl, ◌∷◌, refl, sym, Bool-cases, true, subst, false, ◌≡◌, ◌∙◌, List, ℕ,
}

erase_sockets-Same :
    (c : ℕ) (cs : List ℕ) (s : Server) → member c cs ≡ false → Same c s (erase_sockets cs s)
unfolding erase_sockets
erase_sockets-Same c [] s out = Same-refl c s
erase_sockets-Same c (d ∷ cs) s out =
    let n : (c == d) ≡ false = ground (arith, out) in
    let t = record s {
      room_conns = erase_key d s.room_conns;
      room_assignments = erase_assignment d s.room_assignments;
    } in
    Same-trans c
      (record {
        conn = ground (arith, n, member-erase_key c d s.room_conns);
        room = find_assignment-erase d c s.room_assignments n;
      })
      (erase_sockets-Same c cs t (ground (arith, out)))

-- What an event of a room leaves: the room well formed, none in it who was not before, the lobby as it was, and
-- the entries of all who stay in the room or were not in it.
pub record Settles (r : Room) (s : Server) (v : Served) : Type 0 where
  pub well_formed : IsWellFormed v.room
  pub lobby : v.server.lobby_conns ≡ s.lobby_conns
  pub within : (c : ℕ) → member c (conns v.room.players) ≡ true → member c (conns r.players) ≡ true
  pub stays : (c : ℕ) → member c (conns v.room.players) ≡ true → Same c s v.server
  pub others : (c : ℕ) → member c (conns r.players) ≡ false → Same c s v.server

pub handle_room_post_event-Settles :
    (net : Net) (now : ℕ) (r : Room) (s : Server)
    → IsWellFormed r
    → Settles r s (handle_room_post_event net now r s)
unfolding handle_room_post_event
handle_room_post_event-Settles net now r s w =
    let d = disconnect_players-Disconnects net now r w in
    let k = disconnect_players-Parts net now r in
    let cs = (disconnect_players net now r).sockets_to_delete in
    record {
      well_formed = d.well_formed;
      lobby = lobby-erase_sockets cs s;
      within = k.stays;
      stays = λ c here. erase_sockets-Same c cs s (gone-member c cs _ (d.gone) here);
      others = λ c out. erase_sockets-Same c cs s (elim (Bool-cases (member c cs)) [
        | inl e ↦ absurd (ground (arith, out, k.goes c e))
        | inr e ↦ e
      ]);
    }

-- The room before may be another one with the same connections.
pub Settles-from :
    (r r' : Room) (s : Server) (v : Served)
    → conns r'.players ≡ conns r.players
    → Settles r' s v
    → Settles r s v
Settles-from r r' s v e h = record {
  well_formed = h.well_formed;
  lobby = h.lobby;
  within = λ c k. subst (λ (cs : List ℕ). member c cs ≡ true) e (h.within c k);
  stays = h.stays;
  others = λ c k. h.others c (subst (λ (cs : List ℕ). member c cs ≡ false) (sym e) k);
}

pub again-Settles :
    (net : Net) (now started : ℕ) (r : Room) (s : Server) (v : Served)
    → Settles r s v
    → Settles r s (again net now started v)
unfolding again
again-Settles net now started r s v h =
    let k = handle_room_post_event-Settles net now v.room v.server h.well_formed in
    record {
      well_formed = k.well_formed;
      lobby = k.lobby ∙ h.lobby;
      within = λ c e. h.within c (k.within c e);
      stays = λ c e. Same-trans c (h.stays c (k.within c e)) (k.stays c e);
      others = λ c out. Same-trans c (h.others c out) (
          k.others c (elim (Bool-cases (member c (conns v.room.players))) [
            | inl e ↦ absurd (ground (arith, out, h.within c e))
            | inr e ↦ e
          ]));
    }

pub unchanged-Settles :
    (r : Room) (s : Server)
    → IsWellFormed r
    → Settles r s (record { room = r; timers = 0; server = s })
unchanged-Settles r s w = record {
  well_formed = w;
  lobby = refl;
  within = λ c h. h;
  stays = λ c h. Same-refl c s;
  others = λ c h. Same-refl c s;
}
