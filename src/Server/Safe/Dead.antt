-- ===== src/Server/Safe/Dead.antt =====
-- The events of `runLobby` in game/src/server/Server.cpp that end with a use of a connection which is gone.
use boomberman.Room.{Room}
use boomberman.Server.Lobby.{Lobby}
use boomberman.Server.Loop.{is_live}
use boomberman.Message.{join_room, Message, Net}
use boomberman.Base.{some, none, ◌≡◌, Option, false, true, ℤ, Bool, ℕ}

abbrev pub is_join_room : Message → Bool
is_join_room (join_room username name) = true
is_join_room _ = false

module _ (net : Net) (now : ℕ) (step : ℤ) (c : ℕ) where
  -- A state in which the connection is gone, if any.
  AnyDead : Option Lobby → Type 0
  AnyDead none = Unit {0}
  AnyDead (some after) = is_live c after.server ≡ false
