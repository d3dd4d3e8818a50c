-- ===== src/Server/Reach/Tests.antt =====
-- The theorems about the states that the server reaches, at a server with one client and one with a room.
use boomberman.Server.Safe.Short.{IsAnswerable}
use boomberman.Server.Lobby.{failed}
use boomberman.Server.Run.{signal, player_event, event, RoomEvent, Arrival, Running}
use boomberman.Player.{starting_position, new_player}
use boomberman.Server.Safe.Message.{handle_lobby_message-IsSafe}
use boomberman.Room.Tests.{always}
use boomberman.Room.Join.{announce, join_player, has_username, can_join}
use boomberman.Message.{join_room}
use boomberman.Server.Loop.{
  is_live, handle_more, after_reply, accept_conn, handle_incoming, Incoming, serve_lobby,
}
use boomberman.Room.{game_over, new_room, Room}
use boomberman.Server.Lobby.{
  enter, try_join, handle_join_room, erase_last, handle_lobby_message, Lobby,
}
use boomberman.Server.Safe.{IsSafe}
use boomberman.Server.Reach.{
  Reach, member, hall, accepts, begin, next, Reach-IsSafe, started, accepted,
}
use boomberman.Base.{◌⊎◌, List, ap, false, refl, ◌≡◌, true, pos, some, none, [], Option, ◌∷◌}

-- A client in the lobby.
abbrev one_client : Lobby
one_client = record {
  server = record { lobby_conns = 4 ∷ []; room_conns = []; room_assignments = [] };
  rooms = [];
}

one_client-IsSafe : IsSafe one_client
one_client-IsSafe = record { lobby = (tt, tt); named = tt; housed = tt }

accept_first : accepted 4 started ≡ one_client
unfolding accepted accept_conn erase_last
accept_first = refl

-- He asks for a new room.
abbrev ann_joins : Incoming
ann_joins = record { message = join_room "ann" none; new_name = "den"; sends = true }

abbrev or_started : Option Lobby → Lobby
or_started none = started
or_started (some l) = l

abbrev with_ann : Lobby
with_ann = or_started (serve_lobby always 5 (pos 0) 4 (some ann_joins) [] (accepted 4 started))

ann_enters : serve_lobby always 5 (pos 0) 4 (some ann_joins) [] (accepted 4 started) ≡ some with_ann
unfolding announce serve_lobby handle_incoming handle_lobby_message handle_join_room try_join
    can_join has_username enter join_player new_player starting_position after_reply handle_more
    is_live accepted accept_conn erase_last new_room
ann_enters = refl

with_ann-Reach : Reach with_ann
with_ann-Reach = next _ _ (next _ _ begin (accepts 4 started refl)) (
    hall always 5 (pos 0) 4 (some ann_joins) [] _ _
      (ap (λ (l : Lobby). member 4 l.server.lobby_conns) accept_first) ann_enters)

Reach-IsSafe_example : IsSafe with_ann
Reach-IsSafe_example = Reach-IsSafe with_ann with_ann-Reach

-- Her connection breaks, and the signal comes.
abbrev lost : List (List (Arrival RoomEvent))
lost = (event (player_event always 9 4 none) ∷ signal ∷ []) ∷ []

abbrev waiting : Running Lobby
waiting = record { end = false; state = with_ann }

abbrev or_waiting : Option (Running Lobby) → Running Lobby
or_waiting none = waiting
or_waiting (some t) = t

handle_lobby_message-IsSafe_example :
    ((after : Lobby) × (after_reply
          (handle_lobby_message always 5 (pos 0) "den" true 4 (join_room "ann" none) one_client)
        ≡ some after)
      × IsSafe after)
    ⊎ (handle_lobby_message always 5 (pos 0) "den" true 4 (join_room "ann" none) one_client
        ≡ failed)
      × ¬ IsAnswerable always (join_room "ann" none) one_client
handle_lobby_message-IsSafe_example =
    handle_lobby_message-IsSafe always 5 (pos 0) 4 "den" true (join_room "ann" none) one_client
      one_client-IsSafe refl

-- A room whose game is over, and a client in the lobby.
abbrev over_room : Room
over_room = record new_room { state = game_over }

abbrev late : Lobby
late = record one_client { rooms = ("den", over_room) ∷ [] }
