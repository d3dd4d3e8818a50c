-- ===== src/Client/Menu.antt =====
-- The menus of the client: `ServerHandler::menu` and `listRooms` of game/src/client/ServerHandler.cpp, RoomBox.h and RoomBox.cpp.
-- A place on the screen is in whole pixels; halves and quarters of the window are whole at the size that Main.cpp gives.
-- What the library says of a frame is an argument: the mouse, the keys, and its test of a point against a rectangle.
-- So is `text`, the text of a list of bytes. The drawing is left out, but for where the boxes are drawn.
pub mod Layout
pub mod Received
pub mod Plea
pub mod Tests
use package.boomberman.Message.{RoomInfo, Message, get_room_list, join_room, room_list}
use boomberman.Client.Screen.{select_username}
use package.boomberman.Base.{
  ◌+ℤ◌, le_ℤ, ◌-ℤ◌, ℕ, ℤ, pos, negsuc, String, Bool, true, false, List, [], ◌∷◌, ◌++◌, Option, none,
  some, ◌+◌, ◌-◌, ◌*◌, ◌/◌, ◌%◌, ◌==◌, ◌&&◌, if◌then◌else◌, ltb, leb, length,
}

pub record Vector2 : Type 0 where
  pub x : ℤ
  pub y : ℤ

pub record Rectangle : Type 0 where
  pub x : ℤ
  pub y : ℤ
  pub width : ℕ
  pub height : ℕ

pub record RoomBox : Type 0 where
  pub rect : Rectangle
  pub label : String
  pub players_in : ℕ

-- What the library says of one frame.
pub record Frame : Type 0 where
  pub clicked : Bool
  pub mouse : Vector2
  pub key_up : Bool
  pub key_down : Bool

abbrev pub new_game_button : ℕ → Rectangle
new_game_button width = record {
  x = pos (width / 2) -ℤ pos 95;
  y = pos 110;
  width = 190;
  height = 60;
}

abbrev pub join_game_button : ℕ → Rectangle
join_game_button width = record {
  x = pos (width / 2) -ℤ pos 60;
  y = pos 190;
  width = 120;
  height = 60;
}

abbrev pub back_button : Rectangle
back_button = record { x = pos 10; y = pos 10; width = 80; height = 30 }

abbrev pub offset_from_top : ℕ
offset_from_top = 70

-- `RoomBox::RoomBox`, as the loop of `listRooms` calls it for room `i`.
abbrev pub room_box : ℕ → ℕ → ℕ → RoomInfo → RoomBox
room_box width i current_row r = record {
  rect = record {
    x = pos (110 + (i % 3) * (width / 4) + 28);
    y = pos (current_row * 120 + offset_from_top);
    width = 150;
    height = 60;
  };
  label = r.name;
  players_in = r.players;
}

-- The loop that lays the boxes out, from room `i`; `rows` is `current_row + 1`.
unfoldable pub room_boxes : ℕ → ℕ → ℕ → List RoomInfo → List RoomBox
room_boxes width i rows [] = []
room_boxes width i rows (r ∷ rs) =
    let begun = if i % 3 == 0 then rows + 1 else rows in
    room_box width i (begun - 1) r ∷ room_boxes width (i + 1) begun rs

-- `camera.offset.y` after the arrow keys.
unfoldable pub scroll : ℕ → Frame → ℤ → ℤ
scroll height f y =
    let up =
      if f.key_up && le_ℤ y (pos (height / 2) -ℤ pos offset_from_top)
      then y +ℤ pos offset_from_top
      else y in
    if f.key_down then up -ℤ pos offset_from_top else up

-- The page that is shown: the menu with the rooms the server told of, or the list of rooms with the camera's offset.
pub data Page : Type 0 where
  at_menu : List RoomInfo → Page
  at_list : List RoomBox → ℤ → Page

-- What has been sent, and the messages that are still to come before the server ends the connection.
pub record Visit : Type 0 where
  pub sends : List Message
  pub inbox : List Message

-- How a frame ends: on a page; by the return of `menu`; by the end of the process, since the server is gone; or in the exception
-- of `Connection::send` for a message that is too long.
pub data Next : Type 0 where
  shows : Page → Visit → Next
  returns : Visit → Next
  exits throws : List Message → Next

-- The loop that waits for the list of rooms; other messages are dropped.
unfoldable pub receive_room_list : List Message → Option (List RoomInfo × List Message)
receive_room_list [] = none
receive_room_list (room_list rooms ∷ ms) = some (rooms, ms)
receive_room_list (m ∷ ms) = receive_room_list ms

-- What a click means in the list of rooms: the loop over the boxes.
pub data Pick : Type 0 where
  room : String → Pick
  back nothing : Pick

module _ (hits : Vector2 → Rectangle → Bool) where
  unfoldable pub pick : Vector2 → List RoomBox → Pick
  pick mouse [] = nothing
  pick mouse (b ∷ bs) =
      if hits mouse b.rect
      then room b.label
      else (if hits mouse back_button then back else pick mouse bs)

-- `fits` says whether an encoded message has at most 255 bytes.
module _ (text : List ℕ → String) (keys : List ℕ) (fits : Message → Bool) where
  -- The entry of the name, the request to join, if there is one, and the return of `menu`.
  unfoldable pub join_as : Option String → Visit → Next
  join_as label v = elim (select_username keys []) [
    | [] ↦ returns v
    | c ∷ cs ↦
        if fits (join_room (text (c ∷ cs)) label)
        then returns (record v { sends = v.sends ++ join_room (text (c ∷ cs)) label ∷ [] })
        else throws v.sends
  ]

  module _ (hits : Vector2 → Rectangle → Bool) (width height : ℕ) where
    -- A round of the loop of `menu`.
    unfoldable pub menu_round : Frame → List RoomInfo → Visit → Next
    unfolding join_as
    menu_round f rooms v =
        if f.clicked && hits f.mouse (new_game_button width)
        then join_as none v
        else (if ltb 0 (length rooms) && f.clicked && hits f.mouse (join_game_button width)
            then shows (at_list (room_boxes width 0 0 rooms) (pos (height / 2))) v
            else shows (at_menu rooms) v)

    -- The start of `menu`, and its first round in the frame `f`.
    unfoldable pub enter_menu : Frame → Visit → Next
    unfolding menu_round join_as
    enter_menu f v = elim (receive_room_list v.inbox) [
      | none ↦ exits (v.sends ++ get_room_list ∷ [])
      | some (rooms, ms) ↦
          menu_round f rooms (record { sends = v.sends ++ get_room_list ∷ []; inbox = ms })
    ]

    -- A round of the loop of `listRooms`; the way back to the menu is in the same frame.
    unfoldable pub list_round : Frame → List RoomBox → ℤ → Visit → Next
    unfolding enter_menu menu_round join_as
    list_round f boxes camera v =
        if f.clicked
        then elim (pick hits f.mouse boxes) [
          | room label ↦ join_as (some label) v
          | back ↦ enter_menu f v
          | nothing ↦ shows (at_list boxes (scroll height f camera)) v
        ]
        else shows (at_list boxes (scroll height f camera)) v

    unfoldable pub round : Frame → Page → Visit → Next
    unfolding list_round enter_menu menu_round join_as
    round f (at_menu rooms) v = menu_round f rooms v
    round f (at_list boxes camera) v = list_round f boxes camera v

    -- The frames that follow.
    unfoldable pub rounds : List Frame → Next → Next
    unfolding round list_round enter_menu menu_round join_as
    rounds [] n = n
    rounds (f ∷ fs) (shows page v) = rounds fs (round f page v)
    rounds (f ∷ fs) (returns v) = returns v
    rounds (f ∷ fs) (exits sends) = exits sends
    rounds (f ∷ fs) (throws sends) = throws sends

    -- `menu`, through the frames given, for the messages that the server sends.
    unfoldable pub menu : Frame → List Frame → List Message → Next
    unfolding rounds round list_round enter_menu menu_round join_as
    menu f fs inbox = rounds fs (enter_menu f (record { sends = []; inbox = inbox }))
