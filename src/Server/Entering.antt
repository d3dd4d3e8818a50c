-- ===== src/Server/Entering.antt =====
-- What a client who enters a room leaves in the tables of `Server.Lobby`.
use boomberman.Room.Invariant.{IsWellFormed}
use boomberman.Server.{keys}
use boomberman.Room.{Room}
use boomberman.Room.Disconnect.Loop.{member}
use boomberman.Server.Lobby.{Reply, entered, Lobby, find_room}
use boomberman.Base.{◌==◌, some, true, length, ◌≡◌, suc, String, ℕ}
use text.Mathlib.Text.{◌==◌ as str_eq}

-- The client has left the lobby for the room of a name, which is well formed, and has his entries in the tables.
pub record Enters (c : ℕ) (name : String) (l : Lobby) (result : Reply) : Type 0 where
  pub after : Lobby
  pub room : Room
  pub result_same : result ≡ entered after
  pub left : suc (length after.server.lobby_conns) ≡ length l.server.lobby_conns
  pub connected : member c after.server.room_conns ≡ true
  pub assigned : member c (keys after.server.room_assignments) ≡ true
  pub found : find_room name after.rooms ≡ some room
  pub well_formed : IsWellFormed room
