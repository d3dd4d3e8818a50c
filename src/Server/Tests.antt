-- ===== src/Server/Tests.antt =====
-- The theorems about the tables of the server at a game of two.
use boomberman.Server.Lobby.{Lobby}
use boomberman.Message.{i_leave}
use boomberman.Room.{mark, find_player, update_player}
use boomberman.Room.Handle.{handle_message, handle_playing}
use boomberman.Server.Laws.{serve_room-stale, handle_room_post_event-Cleans, Cleans}
use boomberman.Server.{
  serve_room, erase_assignment, erase_key, handle_room_post_event, erase_first, Server,
  cleanup_sock,
}
use boomberman.Room.Tests.{
  alone, duel-IsWellFormed, bob, parting-IsWellFormed, always, parting, duel,
}
use boomberman.Base.{false, none, some, refl, ◌≡◌, [], ◌∷◌}

abbrev tables : Server
tables = record {
  lobby_conns = 9 ∷ [];
  room_conns = 7 ∷ 8 ∷ [];
  room_assignments = (7, "den") ∷ (8, "den") ∷ [];
}

cleanup_lobby : cleanup_sock 9 tables ≡ record tables { lobby_conns = [] }
unfolding cleanup_sock erase_first erase_key erase_assignment
cleanup_lobby = refl

handle_room_post_event-Cleans_example :
    Cleans parting tables (handle_room_post_event always 5000 parting tables)
handle_room_post_event-Cleans_example =
    handle_room_post_event-Cleans always 5000 parting tables parting-IsWellFormed

-- Bob leaves.
serve_room-stale_example : serve_room always 5000 8 (some i_leave) duel tables ≡ none
unfolding duel find_player handle_message handle_playing update_player
serve_room-stale_example =
    serve_room-stale always 5000 8 i_leave duel parting tables false bob (mark bob)
      duel-IsWellFormed refl refl refl refl refl refl

-- Ann waits in a room of the name "den", and Eve is in the lobby.
abbrev hall : Lobby
hall = record { server = tables; rooms = ("den", alone) ∷ [] }
