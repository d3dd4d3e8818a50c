-- ===== src/Server/Laws.antt =====
-- What the clean-up after an event does to the tables of `Server`.
use boomberman.Server.Tables.{member-erase_key}
use boomberman.Room.Handle.Keeps.{handle_message-Handles}
use boomberman.Player.{Player}
use boomberman.Room.Disconnect.Laws.{disconnect_players-Disconnects}
use boomberman.Room.Invariant.{IsWellFormed, IsFresh}
use boomberman.Room.{find_player, conns, Room}
use boomberman.Server.{
  handle_message, is_over, disconnect_players, Message, Served, keys, Net, member, Server,
  erase_assignment, serve_room, erase_sockets, handle_room_post_event, erase_key,
}
use boomberman.Base.{
  none, ==→eq, ◌∙◌, sym, ne→==, some, ap, inr, refl, arith, inl, ◌==◌, [], false, Bool-cases, not,
  ◌&&◌, ◌∷◌, true, Bool, ◌≡◌, All, String, List, ℕ,
}

keys-erase_assignment :
    (d : ℕ) (rows : List (ℕ × String)) → keys (erase_assignment d rows) ≡ erase_key d (keys rows)
unfolding erase_assignment erase_key
keys-erase_assignment d [] = refl
keys-erase_assignment d (row ∷ rows) = elim (Bool-cases (row.0 == d)) [
  | inl e ↦ rw e (keys-erase_assignment d rows)
  | inr e ↦ rw e (ap (λ t. row.0 ∷ t) (keys-erase_assignment d rows))
]

member-erase_sockets :
    (c : ℕ) (cs : List ℕ) (s : Server)
    → (member c (erase_sockets cs s).room_conns ≡ (member c s.room_conns && not (member c cs)))
      × (member c (keys (erase_sockets cs s).room_assignments)
          ≡ (member c (keys s.room_assignments) && not (member c cs)))
unfolding erase_sockets
member-erase_sockets c [] s = (ground arith, ground arith)
member-erase_sockets c (d ∷ cs) s =
    let ih = member-erase_sockets c cs (record s {
      room_conns = erase_key d s.room_conns;
      room_assignments = erase_assignment d s.room_assignments;
    }) in
    (
      ground (arith, ih.0, member-erase_key c d s.room_conns),
      ground (
        arith,
        ih.1,
        ap (member c) (keys-erase_assignment d s.room_assignments),
        member-erase_key c d (keys s.room_assignments),
      ),
    )

IsFresh-member : (c d : ℕ) (cs : List ℕ) → IsFresh d cs → member c cs ≡ true → (c == d) ≡ false
IsFresh-member c d [] h e = cc
IsFresh-member c d (k ∷ cs) h e = elim (Bool-cases (c == k)) [
  | inl e1 ↦ ne→== c d (λ e2. h.0 (sym e2 ∙ ==→eq c k e1))
  | inr e1 ↦ IsFresh-member c d cs (h.1) (ground (arith, e, e1))
]

pub gone-member :
    (c : ℕ) (gone cs : List ℕ)
    → All (λ d. IsFresh d cs) gone
    → member c cs ≡ true
    → member c gone ≡ false
gone-member c [] cs h e = refl
gone-member c (d ∷ gone) cs h e = rw (IsFresh-member c d cs (h.0) e) (gone-member c gone cs (h.1) e)

-- The tables agree with the room: who stays in it keeps his entries, and who was marked has none.
pub record Cleans (r : Room) (s : Server) (v : Served) : Type 0 where
  pub stays :
      (c : ℕ)
      → member c (conns v.room.players) ≡ true
      → (member c v.server.room_conns ≡ member c s.room_conns)
        × (member c (keys v.server.room_assignments) ≡ member c (keys s.room_assignments))
  pub leaves :
      (c : ℕ) (p : Player)
      → find_player c r.players ≡ some p
      → p.marked_for_disconnect ≡ true
      → (member c v.server.room_conns ≡ false) × (member c (keys v.server.room_assignments) ≡ false)
  pub lobby : v.server.lobby_conns ≡ s.lobby_conns

pub lobby-erase_sockets :
    (cs : List ℕ) (s : Server) → (erase_sockets cs s).lobby_conns ≡ s.lobby_conns
unfolding erase_sockets
lobby-erase_sockets [] s = refl
lobby-erase_sockets (c ∷ cs) s = lobby-erase_sockets cs _

-- After the clean-up of a well-formed room, each player who is still in it has kept what entries he had in the
-- tables of room connections and of assignments, each player who was marked has none in either, and the lobby is as before.
pub handle_room_post_event-Cleans :
    (net : Net) (now : ℕ) (r : Room) (s : Server)
    → IsWellFormed r
    → Cleans r s (handle_room_post_event net now r s)
unfolding handle_room_post_event
handle_room_post_event-Cleans net now r s w =
    let d = disconnect_players-Disconnects net now r w in
    let sockets = (disconnect_players net now r).sockets_to_delete in
    record {
      stays = λ c here.
          let kept = gone-member c sockets _ (d.gone) here in
          let m = member-erase_sockets c sockets s in
          (ground (arith, m.0, kept), ground (arith, m.1, kept));
      leaves = λ c p e marked.
          let out = d.taken c p e marked in
          let m = member-erase_sockets c sockets s in
          (ground (arith, m.0, out), ground (arith, m.1, out));
      lobby = lobby-erase_sockets sockets s;
    }

-- When a message marks its own author in a well-formed room that is not over, as a leave does, the server
-- reads the author's assignment after the clean-up has erased it.
pub serve_room-stale :
    (net : Net) (now c : ℕ) (m : Message) (r r' : Room) (s : Server) (b : Bool) (p q : Player)
    → IsWellFormed r
    → find_player c r.players ≡ some p
    → p.marked_for_disconnect ≡ false
    → is_over r.state ≡ false
    → handle_message net now c m r ≡ some (r', b)
    → find_player c r'.players ≡ some q
    → q.marked_for_disconnect ≡ true
    → serve_room net now c (some m) r s ≡ none
unfolding serve_room
serve_room-stale net now c m r r' s b p q w here unmarked running handled there marked =
    let h = handle_message-Handles net now c m r r' b w handled in
    let v = handle_room_post_event-Cleans net now r' s h.well_formed in
    let erased = (v.leaves c q there marked).1 in
    rw (serve_room, here, unmarked, running, handled, erased) refl
