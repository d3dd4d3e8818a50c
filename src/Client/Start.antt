-- ===== src/Client/Start.antt =====
-- The part of `Client::Run` in game/src/client/Client.cpp before its loop, with the constructor and `connect2Server` of
-- game/src/client/ServerHandler.cpp: connection, menus, and the wait for the game.
pub mod Laws
mod Tests
use boomberman.Client.Menu.{throws}
use boomberman.Client.{blank, Color, EntityHandler, Boomberman}
use boomberman.Client.Handler.{Game, ServerHandler, wait_for_game, handle_lobby_msg, waits, starts}
use boomberman.Client.Menu.{
  Frame, Next, Vector2, Rectangle, menu, shows, returns, exits, Visit, Page,
}
use boomberman.Message.{Message}
use boomberman.Base.{
  ℕ, String, Bool, true, false, List, [], ◌∷◌, none, some, Option, if◌then◌else◌, pos, not, ◌&&◌,
}

-- `ServerHandler::ServerHandler`, without the connection, and a handler of no entities.
abbrev pub new_server_handler : ServerHandler
new_server_handler = record { start_x = pos 0; start_y = pos 0; start_color = blank; winner = "" }

abbrev pub new_game : Game
new_game = record {
  eh = record { players = []; bombs = []; the_floor_is_lava = [] };
  sh = new_server_handler;
}

-- `connect2Server`: whether the process goes on. The arguments say whether `connect` fails, and whether it does so since it
-- is still in progress.
unfoldable pub connect_to_server : Bool → Bool → Bool
connect_to_server fails in_progress = not (fails && not in_progress)

-- What `Run` has when its loop begins.
pub record Ready : Type 0 where
  pub game : Game
  pub tutorial_color : Color
  pub true_local_name : String
  pub sends : List Message
  pub inbox : List Message

-- How the start ends: before the loop; in the menus, when no more frames are given; by the end of the process; or in
-- undefined behaviour, the first of no players.
pub data Started : Type 0 where
  ready : Ready → Started
  in_menus : Page → Visit → Started
  ends : Started
  undefined : Started

-- The part behind the menus.
unfoldable pub begin_game : List Message → List Message → Started
begin_game sends inbox = elim (wait_for_game inbox new_game) [
  | none ↦ ends
  | some (g, rest) ↦ elim (g.eh.players) [
    | [] ↦ undefined
    | local_boomberman ∷ others ↦ ready (record {
      game = g;
      tutorial_color = local_boomberman.color;
      true_local_name = local_boomberman.pseudonim;
      sends = sends;
      inbox = rest;
    })
  ]
]

module _ (text : List ℕ → String) (keys : List ℕ) (fits : Message → Bool)
    (hits : Vector2 → Rectangle → Bool) (width height : ℕ) where
  unfoldable pub start_run : Bool → Bool → Frame → List Frame → List Message → Started
  unfolding begin_game
  start_run fails in_progress f fs inbox =
      if connect_to_server fails in_progress
      then elim (menu text keys fits hits width height f fs inbox) [
        | shows page v ↦ in_menus page v
        | returns v ↦ begin_game v.sends v.inbox
        | exits sends ↦ ends
        | throws sends ↦ ends
      ]
      else ends
