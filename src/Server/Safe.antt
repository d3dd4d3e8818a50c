-- ===== src/Server/Safe.antt =====
-- When the tables of `Server` and its rooms agree.
use boomberman.Server.Loop.{find_assignment}
use boomberman.Room.{conns}
use boomberman.Room.Invariant.{IsWellFormed, Distinct}
use boomberman.Server.{member, Room, Server}
use boomberman.Server.Lobby.{put_room, find_room, Lobby}
pub mod Hall
pub mod Short
pub mod Enter
pub mod Message
pub mod Batch
pub mod Dead
pub mod Rooms
pub mod Events
use text.Mathlib.Text.{◌==◌ as str_eq}
use boomberman.Base.{
  All-map, arith, sym, str_eq→ne, ne→str_eq, str_eq→eq, subst, inr, inl, refl, [], Bool-cases, some,
  false, true, ◌≡◌, All, ◌∷◌, ◌∙◌, String, List, ℕ,
}

-- The place of a player who is in the room of a name: not in the lobby, with a connection, and assigned to it.
pub record IsHoused (s : Server) (name : String) (c : ℕ) : Type 0 where
  pub outside : member c s.lobby_conns ≡ false
  pub connected : member c s.room_conns ≡ true
  pub assigned : find_assignment c s.room_assignments ≡ some name

abbrev pub AreHoused : Server → String × Room → Type 0
AreHoused s row = (c : ℕ) → member c (conns ((row.1).players)) ≡ true → IsHoused s (row.0) c

abbrev pub IsNewName : String → List (String × Room) → Type 0
IsNewName name rows = All (λ row. str_eq (row.0) name ≡ false) rows

abbrev pub DistinctRooms : List (String × Room) → Type 0
DistinctRooms [] = Unit {0}
DistinctRooms (row ∷ rows) = IsNewName (row.0) rows × DistinctRooms rows

abbrev pub AllHoused : Server → List (String × Room) → Type 0
AllHoused s rows = All (λ row. IsWellFormed (row.1) × AreHoused s row) rows

-- No connection is in the lobby twice and no two rooms have a name; every room is well formed, and each of its players
-- is assigned to it, with a connection that is among those of the rooms and not in the lobby.
pub record IsSafe (l : Lobby) : Type 0 where
  pub lobby : Distinct l.server.lobby_conns
  pub named : DistinctRooms l.rooms
  pub housed : AllHoused l.server l.rooms

-- What two states of the tables say of a socket.
pub record Same (c : ℕ) (s s' : Server) : Type 0 where
  pub conn : member c s'.room_conns ≡ member c s.room_conns
  pub room : find_assignment c s'.room_assignments ≡ find_assignment c s.room_assignments

pub Same-refl : (c : ℕ) (s : Server) → Same c s s
Same-refl c s = record { conn = refl; room = refl }

pub Same-trans : {a b d : Server} (c : ℕ) → Same c a b → Same c b d → Same c a d
Same-trans c p q = record { conn = q.conn ∙ p.conn; room = q.room ∙ p.room }

pub Same-IsHoused :
    (s s' : Server) (name : String) (c : ℕ)
    → Same c s s'
    → member c s'.lobby_conns ≡ false
    → IsHoused s name c
    → IsHoused s' name c
Same-IsHoused s s' name c e out h = record {
  outside = out;
  connected = e.conn ∙ h.connected;
  assigned = e.room ∙ h.assigned;
}

-- Tables that say the same of all who are housed.
pub AllHoused-tables :
    (s s' : Server) (rows : List (String × Room))
    → ((name : String) (c : ℕ) → IsHoused s name c → IsHoused s' name c)
    → AllHoused s rows
    → AllHoused s' rows
AllHoused-tables s s' rows f h = All-map (λ row k. (k.0, λ c e. f (row.0) c (k.1 c e))) rows h

-- A room is written, and the tables change for those who are in it or come.
pub AllHoused-put_room :
    (s s' : Server) (name : String) (r : Room) (rows : List (String × Room))
    → DistinctRooms rows
    → ((other : String) (c : ℕ)
        → str_eq other name ≡ false
        → IsHoused s other c
        → IsHoused s' other c)
    → IsWellFormed r
    → ((c : ℕ) → member c (conns r.players) ≡ true → IsHoused s' name c)
    → AllHoused s rows
    → AllHoused s' (put_room name r rows)
unfolding put_room
AllHoused-put_room s s' name r [] d f w here h = ((w, here), tt)
AllHoused-put_room s s' name r (row ∷ rows) d f w here h = elim (Bool-cases (str_eq row.0 name)) [
  | inl e ↦ rw e (
    (w, here),
    others rows (subst (λ (z : String). IsNewName z rows) (str_eq→eq (row.0) name e) (d.0)) (h.1),
  )
  | inr e ↦ rw e (
    ((h.0).0, λ c k. f (row.0) c e ((h.0).1 c k)),
    AllHoused-put_room s s' name r rows d.1 f w here h.1,
  )
]
  where
    others :
        (rows : List (String × Room)) → IsNewName name rows → AllHoused s rows → AllHoused s' rows
    others [] n h = tt
    others (row ∷ rows) n h = (((h.0).0, λ c k. f (row.0) c n.0 ((h.0).1 c k)), others rows n.1 h.1)

IsNewName-put_room :
    (other name : String) (r : Room) (rows : List (String × Room))
    → str_eq name other ≡ false
    → IsNewName other rows
    → IsNewName other (put_room name r rows)
unfolding put_room
IsNewName-put_room other name r [] e n = (e, tt)
IsNewName-put_room other name r (row ∷ rows) e n = elim (Bool-cases (str_eq row.0 name)) [
  | inl k ↦ rw k (e, n.1)
  | inr k ↦ rw k (n.0, IsNewName-put_room other name r rows e n.1)
]

pub DistinctRooms-put_room :
    (name : String) (r : Room) (rows : List (String × Room))
    → DistinctRooms rows
    → DistinctRooms (put_room name r rows)
unfolding put_room
DistinctRooms-put_room name r [] d = (tt, tt)
DistinctRooms-put_room name r (row ∷ rows) d = elim (Bool-cases (str_eq row.0 name)) [
  | inl e ↦ rw e (subst (λ (z : String). IsNewName z rows) (str_eq→eq (row.0) name e) (d.0), d.1)
  | inr e ↦ rw e (
    IsNewName-put_room (row.0) name r rows
        (ne→str_eq name (row.0) (λ k. str_eq→ne (row.0) name e (sym k))) (d.0),
    DistinctRooms-put_room name r rows d.1,
  )
]

-- A room that is found is well formed, and its players are housed.
pub find_room-AllHoused :
    (s : Server) (name : String) (r : Room) (rows : List (String × Room))
    → find_room name rows ≡ some r
    → AllHoused s rows
    → IsWellFormed r × AreHoused s (name, r)
unfolding find_room
find_room-AllHoused s name r [] e h = cc
find_room-AllHoused s name r (row ∷ rows) e h = elim (Bool-cases (str_eq row.0 name)) [
  | inl k ↦
      subst (λ (z : Room). IsWellFormed z × AreHoused s (name, z)) (ground (arith, k, e))
        (subst (λ (z : String). IsWellFormed (row.1) × AreHoused s (z, row.1))
          (str_eq→eq (row.0) name k) (h.0))
  | inr k ↦ find_room-AllHoused s name r rows (ground (arith, k, e)) (h.1)
]
