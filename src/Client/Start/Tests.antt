-- ===== src/Client/Start/Tests.antt =====
-- A client that opens a new room and gets into a game.
use boomberman.Base.{◌++◌, List, ◌∷◌, [], none, true, refl}
use boomberman.Client.Menu.{
  Visit, menu, rounds, round, list_round, enter_menu, menu_round, join_as, receive_room_list,
}
use boomberman.Client.Menu.Tests.{touches, click_at}
use boomberman.Client.Start.{Message, start_run, connect_to_server}
use boomberman.Client.Start.Laws.{start_run-Begins, Begins, starting}
use boomberman.Client.Screen.{select_username, press, is_invalid}
use boomberman.Message.{
  get_room_list, join_room, room_list, welcome_to_room, game_join, game_start, other_leave,
}

abbrev tells : List Message
tells =
    welcome_to_room (record { username = "ann"; color = 0 } ∷ [])
    ∷ game_join (record { username = "bob"; color = 1 })
    ∷ []

abbrev answers : List Message
answers = room_list [] ∷ (tells ++ game_start ∷ other_leave "bob" ∷ [])

abbrev visit : Visit
visit = record {
  sends = get_room_list ∷ join_room "ann" none ∷ [];
  inbox = tells ++ game_start ∷ other_leave "bob" ∷ [];
}

start_run-Begins_example :
    Begins
      (get_room_list ∷ join_room "ann" none ∷ [])
      (record { username = "ann"; color = 0 } ∷ record { username = "bob"; color = 1 } ∷ [])
      (starting (other_leave "bob" ∷ []))
      (start_run
        (λ _. "ann")
        (65 ∷ 257 ∷ [])
        (λ _. true)
        touches
        800
        450
        true
        true
        (click_at 0 0)
        (click_at 400 130 ∷ [])
        answers)
unfolding menu rounds round list_round enter_menu menu_round join_as receive_room_list
    select_username press is_invalid connect_to_server
start_run-Begins_example =
    start_run-Begins (λ _. "ann") (65 ∷ 257 ∷ []) (λ _. true) touches 800 450 true true
      (click_at 0 0) (click_at 400 130 ∷ []) answers tells (starting (other_leave "bob" ∷ [])) visit
      refl refl refl (tt, (tt, tt))
