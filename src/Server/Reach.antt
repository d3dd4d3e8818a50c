-- ===== src/Server/Reach.antt =====
-- The server as a whole: which states `runLobby`, `runRooms` and `runBombs` of game/src/server/Server.cpp reach, one
-- event at a time. An event is taken as a whole, as `roomsMtx` makes it for the handlers; that the code for a new
-- connection and the clean-up of a client in the lobby do not take the lock, and that it is free between two messages of a
-- client in the lobby, is not modelled.
mod Tests
use boomberman.Server.Safe.Batch.{serve_lobby-IsSafe}
use boomberman.Server.Safe.Events.{serve_bomb-Settles, serve_room-Settles, IsReady}
use boomberman.Server.Safe.Rooms.{Settles}
use boomberman.Server.Tables.{
  find_assignment-erase, member-erase_key, member-erase_last, erase_first-gone,
  Distinct-erase_first, erase_last-erase_first, Distinct-append,
}
use boomberman.Room.Disconnect.Loop.{member-append, member}
use boomberman.Server.Safe.{
  Same-IsHoused, AllHoused-put_room, DistinctRooms-put_room, find_room-AllHoused, AllHoused-tables,
  AreHoused, IsHoused, IsSafe,
}
use boomberman.Room.{conns, Room}
use boomberman.Server.{keys, serve_bomb, serve_room, Message, Net, Server, Served}
use boomberman.Server.Lobby.{erase_last, find_room, put_room, Lobby}
use boomberman.Server.Loop.{find_assignment, serve_lobby, Incoming, accept_conn}
use text.Mathlib.Text.{◌==◌ as str_eq}
use boomberman.Base.{
  ap, ◌∙◌, ◌||◌, ◌∷◌, ◌++◌, arith, ==→eq, subst, true, List, str_eq→ne, inl, inr, Option, ◌==◌, ℤ,
  Bool-cases, some, false, ◌≡◌, [], String, ℕ,
}

-- The state with what an event has made of a room.
unfoldable pub put_served : String → Served → Lobby → Lobby
put_served name v l = record { server = v.server; rooms = put_room name v.room l.rooms }

unfoldable pub accepted : ℕ → Lobby → Lobby
accepted c l = record l { server = accept_conn c l.server }

-- No connections and no rooms.
abbrev pub started : Lobby
started = record {
  server = record { lobby_conns = []; room_conns = []; room_assignments = [] };
  rooms = [];
}

-- One event, with what the network, the clock and the random numbers answer. A socket that is accepted is not the
-- one of a connection that a room holds open. Events of the lobby are of connections in it, and those of a room are of
-- players assigned to it. A bomb that explodes lies inside the rim, and the number drawn for a winner is below the number of
-- players alive.
pub data Step : Lobby → Lobby → Type 0 where
  accepts : (c : ℕ) (l : Lobby) → member c l.server.room_conns ≡ false → Step l (accepted c l)
  hall :
      (net : Net) (now : ℕ) (step : ℤ) (c : ℕ) (first : Option Incoming)
      (more : List (Option Incoming)) (l l' : Lobby)
      → member c l.server.lobby_conns ≡ true
      → serve_lobby net now step c first more l ≡ some l'
      → Step l l'
  plays :
      (net : Net) (now c : ℕ) (received : Option Message) (name : String) (r : Room) (v : Served)
      (l : Lobby)
      → find_assignment c l.server.room_assignments ≡ some name
      → find_room name l.rooms ≡ some r
      → serve_room net now c received r l.server ≡ some v
      → Step l (put_served name v l)
  explodes :
      (net : Net) (now time drawn : ℕ) (name : String) (r : Room) (v : Served) (l : Lobby)
      → find_room name l.rooms ≡ some r
      → IsReady drawn r
      → serve_bomb net now time drawn r l.server ≡ some v
      → Step l (put_served name v l)

pub data Reach : Lobby → Type 0 where
  begin : Reach started
  next : (l l' : Lobby) → Reach l → Step l l' → Reach l'

-- After an event of a room.
put_served-IsSafe :
    (name : String) (r : Room) (v : Served) (l : Lobby)
    → IsSafe l
    → find_room name l.rooms ≡ some r
    → Settles r l.server v
    → IsSafe (put_served name v l)
unfolding put_served
put_served-IsSafe name r v l w found k =
    let (formed, housed) = find_room-AllHoused l.server name r l.rooms found w.housed in
    record {
      lobby = rw (k.lobby) (w.lobby);
      named = DistinctRooms-put_room name v.room l.rooms w.named;
      housed =
          AllHoused-put_room l.server v.server name v.room l.rooms w.named
            (λ other c e h.
              Same-IsHoused l.server v.server other c (k.others c (apart other c e h housed))
                (ap (member c) (k.lobby) ∙ h.outside) h)
            k.well_formed
            (λ c e.
              let h = housed c (k.within c e) in
              Same-IsHoused l.server v.server name c (k.stays c e)
                (ap (member c) (k.lobby) ∙ h.outside) h)
            w.housed;
    }
  where
    -- A player of another room is not in this one, since he has one assignment only.
    apart :
        (other : String) (c : ℕ)
        → str_eq other name ≡ false
        → IsHoused l.server other c
        → AreHoused l.server (name, r)
        → member c (conns r.players) ≡ false
    apart other c e h housed = elim (Bool-cases (member c (conns r.players))) [
      | inr out ↦ out
      | inl here ↦
          absurd (str_eq→ne other name e (ground (arith, h.assigned, (housed c here).assigned)))
    ]

accept_conn-IsHoused :
    (c : ℕ) (s : Server)
    → member c s.room_conns ≡ false
    → (name : String) (d : ℕ) → IsHoused s name d
    → IsHoused (accept_conn c s) name d
unfolding accept_conn
accept_conn-IsHoused c s out name d h = elim (Bool-cases (d == c)) [
  | inl e ↦
      let in_rooms : member c s.room_conns ≡ true =
        subst (λ (z : ℕ). member z s.room_conns ≡ true) (==→eq d c e) (h.connected) in
      absurd (ground (arith, out, in_rooms))
  | inr n ↦
      let outside : member d (erase_last c s.lobby_conns ++ c ∷ []) ≡ false = ground (
        arith,
        n,
        member-append d (erase_last c s.lobby_conns) (c ∷ []),
        member-erase_last c d s.lobby_conns n,
        h.outside,
      ) in
      elim (Bool-cases (member c s.room_conns || member c (keys s.room_assignments))) [
        | inl stale ↦ rw stale (record {
          outside = outside;
          connected = ground (arith, member-erase_key d c s.room_conns, n, h.connected);
          assigned = find_assignment-erase c d s.room_assignments n ∙ h.assigned;
        })
        | inr fresh ↦
            rw fresh (record { outside = outside; connected = h.connected; assigned = h.assigned })
      ]
]

accepted-IsSafe :
    (c : ℕ) (l : Lobby) → IsSafe l → member c l.server.room_conns ≡ false → IsSafe (accepted c l)
unfolding accepted accept_conn
accepted-IsSafe c l w out = record {
  lobby =
      Distinct-append c (erase_last c l.server.lobby_conns)
        (rw (erase_last-erase_first c l.server.lobby_conns w.lobby)
          (Distinct-erase_first c l.server.lobby_conns w.lobby))
        (rw (erase_last-erase_first c l.server.lobby_conns w.lobby)
          (erase_first-gone c l.server.lobby_conns w.lobby));
  named = w.named;
  housed =
      AllHoused-tables l.server (accept_conn c l.server) l.rooms
        (accept_conn-IsHoused c l.server out) w.housed;
}

Step-IsSafe : (l l' : Lobby) → Step l l' → IsSafe l → IsSafe l'
Step-IsSafe _ _ (accepts c l out) w = accepted-IsSafe c l w out
Step-IsSafe _ _ (hall net now step c first more l l' here e) w =
    serve_lobby-IsSafe net now step c first more l l' w here e
Step-IsSafe _ _ (plays net now c received name r v l assigned found e) w =
    let formed = (find_room-AllHoused l.server name r l.rooms found w.housed).0 in
    put_served-IsSafe name r v l w found
      (serve_room-Settles net now c received r l.server v formed e)
Step-IsSafe _ _ (explodes net now time drawn name r v l found ready e) w =
    let formed = (find_room-AllHoused l.server name r l.rooms found w.housed).0 in
    put_served-IsSafe name r v l w found
      (serve_bomb-Settles net now time drawn r l.server v formed ready e)

-- In every state that the server reaches by such steps, the tables and the rooms agree: no connection is in the lobby
-- twice, no two rooms have a name, every room is well formed, and each of its players is assigned to it, with a connection
-- that is among those of the rooms and not in the lobby.
pub Reach-IsSafe : (l : Lobby) → Reach l → IsSafe l
Reach-IsSafe _ begin = record { lobby = tt; named = tt; housed = tt }
Reach-IsSafe _ (next l l' before step) = Step-IsSafe l l' step (Reach-IsSafe l before)
