-- ===== src/Client/Course.antt =====
-- The course of a game, as the client of one player sees it: events of game/src/server/Server.cpp, one after the other.
mod Tests
use boomberman.Server.Safe.Events.{IsReady}
use boomberman.Room.Disconnect.Loop.{member}
use boomberman.Client.Session.{
  Continues-trans, serve_bomb-Continuing, serve_room-Continuing, Continuing, unchanged-Continues,
  Continues,
}
use boomberman.Client.Mirror.{Mirrors}
use boomberman.Server.{serve_bomb, serve_room, Served, Server}
use boomberman.Client.Follow.{Follows, AreNamed}
use boomberman.Room.Invariant.{IsWellFormed}
use boomberman.Message.{Message, Net}
use boomberman.Client.Handler.{Game}
use boomberman.Room.{conns, Room}
use boomberman.Base.{true, some, false, ◌≡◌, ◌==◌, subst, Option, ◌∷◌, ℕ}

-- An event of another player, or a bomb, after which the player on the connection is still in the room. A bomb lies inside
-- the rim, and the number drawn for a winner is below the number of players alive.
pub data Happens (d : ℕ) : Room → Room → Type 0 where
  other_player :
      (net : Net) (now c : ℕ) (received : Option Message) (r : Room) (s : Server) (v : Served)
      → (c == d) ≡ false
      → serve_room net now c received r s ≡ some v
      → member d (conns v.room.players) ≡ true
      → Happens d r v.room
  bomb :
      (net : Net) (now time drawn : ℕ) (r : Room) (s : Server) (v : Served)
      → IsReady drawn r
      → serve_bomb net now time drawn r s ≡ some v
      → member d (conns v.room.players) ≡ true
      → Happens d r v.room

pub data Course (d : ℕ) : Room → Room → Type 0 where
  start : (r : Room) → Course d r r
  next : (a b c : Room) → Course d a b → Happens d b c → Course d a c

event-Continues :
    {d : ℕ} {r r' : Room} (g : Game)
    → Happens d r r'
    → IsWellFormed r
    → AreNamed r.players
    → Mirrors r.players g.eh.players
    → Continues d r r' g
event-Continues {d} g (other_player net now c received r s v other e here) w n m =
    subst (Continuing net now d r g) e
      (serve_room-Continuing net now d c received r s g other w n m) here
event-Continues {d} g (bomb net now time drawn r s v ready e here) w n m =
    subst (Continuing net now d r g) e
      (serve_bomb-Continuing net now d time drawn r s g ready w n m) here

course-Continues :
    {d : ℕ} {r r' : Room} (g : Game)
    → Course d r r'
    → IsWellFormed r
    → AreNamed r.players
    → Mirrors r.players g.eh.players
    → Continues d r r' g
course-Continues {d} g (start r) w n m = unchanged-Continues d r g w n m
course-Continues g (next a b c before e) w n m =
    let f = course-Continues g before w n m in
    Continues-trans f (event-Continues f.follows.after e f.well_formed f.named f.follows.mirrors)

-- From a well-formed room of players with names of their own, whatever the other connections send and whichever bombs
-- explode, with all the clean-ups that follow: as long as a player stays in the room, his client is sent just such
-- messages as take it from mirroring the room's players to mirroring them afterwards.
pub course-Follows :
    (d : ℕ) (r r' : Room) (g : Game)
    → IsWellFormed r
    → AreNamed r.players
    → Mirrors r.players g.eh.players
    → Course d r r'
    → Follows d r r' g
course-Follows d r r' g w n m course = (course-Continues g course w n m).follows
