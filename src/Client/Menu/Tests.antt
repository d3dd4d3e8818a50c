-- ===== src/Client/Menu/Tests.antt =====
-- The menus of a client, on the window of Main.cpp.

use boomberman.Client.Menu.{throws}
use boomberman.Client.Menu.{returns, exits}
use boomberman.Base.{
  ◌&&◌, neg_part, ◌+◌, pos_part, ltb, arith, String, List, Bool, ◌≡◌, ◌∷◌, ℕ, pos, [], some, true,
  false, refl,
}
use boomberman.Client.Menu.{
  shows, Message, Next, Vector2, Rectangle, Frame, menu, rounds, round, list_round, enter_menu,
  menu_round, join_as, receive_room_list, pick, room_boxes, scroll,
}
use boomberman.Client.Menu.Layout.{Collides, Picks, room_boxes-Picks}
use boomberman.Client.Menu.Plea.{IsPlea, menu-IsPlea}
use boomberman.Client.Screen.{select_username, press, is_invalid}
use boomberman.Message.{get_room_list, join_room, room_list, RoomInfo, error}

-- A test of points and rectangles.
abbrev pub touches : Vector2 → Rectangle → Bool
touches p r =
    ltb (pos_part r.x + neg_part p.x) (pos_part p.x + neg_part r.x)
    && ltb (pos_part p.x + neg_part r.x) (pos_part r.x + r.width + neg_part p.x)
    && ltb (pos_part r.y + neg_part p.y) (pos_part p.y + neg_part r.y)
    && ltb (pos_part p.y + neg_part r.y) (pos_part r.y + r.height + neg_part p.y)

touches-Collides : Collides touches
touches-Collides = record {
  within = λ p r h. ground (arith, h);
  beyond = λ p r h. ground (arith, h);
}

abbrev info_of : String → RoomInfo
info_of name = record { name = name; players = 1; max_players = 4 }

abbrev pub four_rooms : List RoomInfo
four_rooms = info_of "a" ∷ info_of "b" ∷ info_of "c" ∷ info_of "d" ∷ []

abbrev pub click_at : ℕ → ℕ → Frame
click_at x y = record {
  clicked = true;
  mouse = record { x = pos x; y = pos y };
  key_up = false;
  key_down = false;
}

-- To the list of rooms, back to the menu, to the list again, and a click on the fourth room.
abbrev tour : List Frame
tour = click_at 400 200 ∷ click_at 20 20 ∷ click_at 400 200 ∷ click_at 200 220 ∷ []

abbrev answers : List Message
answers = error "" ∷ room_list [] ∷ room_list four_rooms ∷ []

abbrev said : Next → List Message
said (shows page v) = v.sends
said (returns v) = v.sends
said (exits sends) = sends
said (throws sends) = sends

tour_sends :
    said (
      menu
        (λ _. "ann")
        (65 ∷ 257 ∷ [])
        (λ _. true)
        touches
        800
        450
        (click_at 0 0)
        tour
        (room_list four_rooms ∷ answers))
    ≡ get_room_list ∷ get_room_list ∷ []
unfolding menu rounds round list_round enter_menu menu_round join_as receive_room_list pick
    room_boxes scroll select_username press is_invalid
tour_sends = refl

tour_joins :
    said (
      menu
        (λ _. "ann")
        (65 ∷ 257 ∷ [])
        (λ _. true)
        touches
        800
        450
        (click_at 0 0)
        tour
        (room_list four_rooms ∷ room_list four_rooms ∷ []))
    ≡ get_room_list ∷ get_room_list ∷ join_room "ann" (some "d") ∷ []
unfolding menu rounds round list_round enter_menu menu_round join_as receive_room_list pick
    room_boxes scroll select_username press is_invalid
tour_joins = refl

-- A name that is too long ends the process, and the request is not sent.
tour_throws :
    menu
      (λ _. "ann")
      (65 ∷ 257 ∷ [])
      (λ _. false)
      touches
      800
      450
      (click_at 0 0)
      tour
      (room_list four_rooms ∷ room_list four_rooms ∷ [])
    ≡ throws (get_room_list ∷ get_room_list ∷ [])
unfolding menu rounds round list_round enter_menu menu_round join_as receive_room_list pick
    room_boxes scroll select_username press is_invalid
tour_throws = refl

room_boxes-Picks_example : Picks touches 800 four_rooms (record { x = pos 200; y = pos 220 })
room_boxes-Picks_example =
    room_boxes-Picks touches 800 four_rooms (record { x = pos 200; y = pos 220 }) touches-Collides
      (omega arith)

menu-IsPlea_example :
    IsPlea
      (λ _. "ann")
      (65 ∷ 257 ∷ [])
      (λ _. true)
      800
      1
      (room_list four_rooms ∷ room_list four_rooms ∷ [])
      (menu
        (λ _. "ann")
        (65 ∷ 257 ∷ [])
        (λ _. true)
        touches
        800
        450
        (click_at 0 0)
        tour
        (room_list four_rooms ∷ room_list four_rooms ∷ []))
menu-IsPlea_example =
    menu-IsPlea (λ _. "ann") (65 ∷ 257 ∷ []) (λ _. true) touches 800 450 (click_at 0 0) tour
      (room_list four_rooms ∷ room_list four_rooms ∷ [])
