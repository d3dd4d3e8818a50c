-- ===== src/Client/Course/Tests.antt =====
-- Ann's client in the duel, while Bob moves away from the bomb.
use boomberman.Room.Disconnect.{visit, sweep, erase_players, finish, disconnect_players}
use boomberman.Player.{check_rate, move_check_sus}
use boomberman.Map.{initial_squares, new_map, square_at, get_square_state}
use boomberman.Client.Course.{conns, member, other_player, start, next, course-Follows}
use boomberman.Message.{of_int, i_move}
use boomberman.Room.Handle.{handle_move, handle_playing, handle_message}
use boomberman.Room.{new_room, update_player, send_each, send_except, send_specific, find_player}
use boomberman.Client.Tests.{shown_duel-Mirrors, duel-AreNamed, shown_duel}
use boomberman.Client.Follow.{Follows}
use boomberman.Room.Tests.{duel-IsWellFormed, always, duel}
use boomberman.Server.{again, erase_sockets, handle_room_post_event, serve_room, Served, Server}
use boomberman.Base.{true, ◌≡◌, refl, pos, none, some, [], Option, ◌∷◌}

abbrev no_tables : Server
no_tables = record {
  lobby_conns = [];
  room_conns = 7 ∷ 8 ∷ [];
  room_assignments = (7, "den") ∷ (8, "den") ∷ [];
}

abbrev or_duel : Option Served → Served
or_duel none = record { room = duel; timers = 0; server = no_tables }
or_duel (some v) = v

abbrev bob_moves : Option Served
bob_moves =
    serve_room always 5000 8 (some (i_move (of_int (pos 1)) (of_int (pos 3)))) duel no_tables

bob_moved :
    (bob_moves ≡ some (or_duel bob_moves))
    × (member 7 (conns (or_duel bob_moves).room.players) ≡ true)
unfolding duel serve_room find_player handle_message handle_playing handle_move get_square_state
    square_at new_map move_check_sus check_rate handle_room_post_event erase_sockets
    disconnect_players finish erase_players sweep send_specific visit again send_except send_each
    update_player initial_squares new_room
bob_moved = (refl, refl)

course-Follows_example : Follows 7 duel (or_duel bob_moves).room shown_duel
unfolding duel
course-Follows_example =
    course-Follows 7 duel _ shown_duel duel-IsWellFormed duel-AreNamed shown_duel-Mirrors (
      next duel duel _ (start duel) (
        other_player always 5000 8 _ duel no_tables (or_duel bob_moves) refl (bob_moved.0)
          (bob_moved.1)))
