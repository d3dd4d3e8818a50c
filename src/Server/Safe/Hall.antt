-- ===== src/Server/Safe/Hall.antt =====
-- Lobby messages and the agreement of the tables with the rooms.
use boomberman.Room.{is_game_over}
use boomberman.Server.Tables.{
  find_assignment-erase, member-erase_key, member-erase_last, erase_first-gone, member-erase_first,
  Distinct-erase_first,
}
use boomberman.Server.Safe.{
  DistinctRooms, Same-IsHoused, Same, IsNewName, AllHoused-tables, IsHoused, IsSafe,
}
use boomberman.Room.Invariant.{Distinct}
use boomberman.Server.{Room, Message, member, cleanup_sock, Server}
use boomberman.Server.Loop.{after_reply, is_live, drop_conn}
use boomberman.Message.{Net}
use boomberman.Server.Lobby.{erase_last, Lobby, running_rooms, reply}
use boomberman.Base.{
  if◌then◌else◌, [], ◌∷◌, ==_refl, All-keep, inr, ==→eq, subst, inl, not, Bool-cases, ◌∙◌, keep,
  ◌==◌, arith, none, ◌||◌, false, List, true, some, ◌≡◌, Bool, String, Option, ℕ,
}

-- Who is in the lobby is not housed.
pub hall-apart :
    (s : Server) (c d : ℕ) (name : String)
    → member c s.lobby_conns ≡ true
    → IsHoused s name d
    → (d == c) ≡ false
hall-apart s c d name here h = elim (Bool-cases (d == c)) [
  | inl e ↦
      let out : member c s.lobby_conns ≡ false =
        subst (λ (z : ℕ). member z s.lobby_conns ≡ false) (==→eq d c e) (h.outside) in
      absurd (ground (arith, here, out))
  | inr e ↦ e
]

-- The clean-up of a client in the lobby.
cleanup_sock-IsHoused :
    (s : Server) (c : ℕ)
    → member c s.lobby_conns ≡ true
    → (name : String) (d : ℕ) → IsHoused s name d
    → IsHoused (cleanup_sock c s) name d
unfolding cleanup_sock
cleanup_sock-IsHoused s c here name d h =
    let n = hall-apart s c d name here h in
    record {
      outside = member-erase_first c d s.lobby_conns n ∙ h.outside;
      connected = ground (arith, member-erase_key d c s.room_conns, n, h.connected);
      assigned = find_assignment-erase c d s.room_assignments n ∙ h.assigned;
    }

pub drop_conn-IsSafe :
    (c : ℕ) (l : Lobby) → IsSafe l → member c l.server.lobby_conns ≡ true → IsSafe (drop_conn c l)
unfolding drop_conn cleanup_sock
drop_conn-IsSafe c l w here = record {
  lobby = Distinct-erase_first c l.server.lobby_conns w.lobby;
  named = w.named;
  housed =
      AllHoused-tables l.server (cleanup_sock c l.server) l.rooms
        (cleanup_sock-IsHoused l.server c here) w.housed;
}

pub cleanup_sock-dead :
    (c : ℕ) (s : Server) → Distinct s.lobby_conns → is_live c (cleanup_sock c s) ≡ false
unfolding cleanup_sock is_live
cleanup_sock-dead c s d =
    ground (arith, erase_first-gone c s.lobby_conns d, member-erase_key c c s.room_conns, ==_refl c)

-- If a state comes of it, and the client was in the lobby or still has his connection, the state is safe.
unfoldable pub Leaves : ℕ → Server → Option Lobby → Type 0
Leaves c s none = Unit {0}
Leaves c s (some l) = (member c s.lobby_conns || is_live c l.server) ≡ true → IsSafe l

pub reply-Leaves :
    (net : Net) (sends : Bool) (c : ℕ) (m : Message) (l : Lobby)
    → IsSafe l
    → Leaves c l.server (after_reply (reply net sends c m l))
unfolding reply after_reply Leaves drop_conn
reply-Leaves net sends c m l w = elim (Bool-cases (net.fits m)) [
  | inr long ↦ rw (reply, long) tt
  | inl short ↦ rw (reply, short) (sent_or_not sends)
]
  where
    sent_or_not :
        (b : Bool)
        → Leaves c l.server (some (if b then l else record l { server = cleanup_sock c l.server }))
    sent_or_not true = λ h. w
    sent_or_not false =
        λ h. drop_conn-IsSafe c l w (ground (arith, h, cleanup_sock-dead c l.server w.lobby))

-- Rooms taken out.
pub running_rooms-IsSafe :
    (l : Lobby) → IsSafe l → IsSafe (record l { rooms = running_rooms l.rooms })
unfolding running_rooms
running_rooms-IsSafe l w = record {
  lobby = w.lobby;
  named = distinct l.rooms w.named;
  housed = All-keep _ _ l.rooms w.housed;
}
  where
    fresh :
        (name : String) (rows : List (String × Room))
        → IsNewName name rows
        → IsNewName name (keep (λ row. not (is_game_over (row.1))) rows)
    fresh name rows n = All-keep _ _ rows n

    distinct :
        (rows : List (String × Room))
        → DistinctRooms rows
        → DistinctRooms (keep (λ row. not (is_game_over (row.1))) rows)
    distinct [] d = tt
    distinct (row ∷ rows) d = elim (Bool-cases (is_game_over (row.1))) [
      | inl e ↦ rw e (distinct rows d.1)
      | inr e ↦ rw e (fresh (row.0) rows d.0, distinct rows d.1)
    ]

-- The tables of a client who has left the lobby.
pub moved-IsHoused :
    (s s' : Server) (c : ℕ)
    → member c s.lobby_conns ≡ true
    → s'.lobby_conns ≡ erase_last c s.lobby_conns
    → ((d : ℕ) → (d == c) ≡ false → Same d s s')
    → (name : String) (d : ℕ) → IsHoused s name d
    → IsHoused s' name d
moved-IsHoused s s' c here e f name d h =
    let n = hall-apart s c d name here h in
    Same-IsHoused s s' name d (f d n) (rw e (member-erase_last c d s.lobby_conns n ∙ h.outside)) h
