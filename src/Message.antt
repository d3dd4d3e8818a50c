-- ===== src/Message.antt =====
-- The messages of proto/messages.proto, as game/src/shared/msg/Connection.h and Connection.cpp
-- build them, and what a room's log holds of them.
use boomberman.Base.{ℕ, String, Bool, Option, List, ℤ}

-- A finite `float`: the whole part below it, and the rest in units of 2 ^ -149, the least step of
-- the format. `std::floor` followed by the conversion to `int` is the field `whole`.
pub record Float : Type 0 where
  pub whole : ℤ
  pub frac : ℕ

-- The float with the value of an `int`.
abbrev pub of_int : ℤ → Float
of_int n = record { whole = n; frac = 0 }

-- `builder::Room`
pub record RoomInfo : Type 0 where
  pub name : String
  pub players : ℕ
  pub max_players : ℕ

-- `builder::Player`
pub record PlayerInfo : Type 0 where
  pub username : String
  pub color : ℕ

-- One constructor for each message type, with the fields that its `Send` function sets.
pub data Message : Type 0 where
  error : String → Message
  get_room_list : Message
  join_room : String → Option String → Message
  i_place_bomb i_move : Float → Float → Message
  i_leave : Message
  room_list : List RoomInfo → Message
  welcome_to_room : List PlayerInfo → Message
  game_join : PlayerInfo → Message
  game_start : Message
  other_bomb_place : String → ℕ → Float → Float → Message
  got_hit : String → ℕ → ℕ → Message
  other_move : String → Float → Float → Message
  other_leave : String → Message
  game_won : String → Message
  movement_correction : Float → Float → Message

-- What the server does to a socket.
pub data Event : Type 0 where
  sent : ℕ → Message → Event
  closed : ℕ → Event

-- What the network and the generated protocol code answer, as they like: whether the next send to a socket succeeds, given
-- all events so far, the newest first; and whether an encoded message has at most 255 bytes.
pub record Net : Type 0 where
  pub answers : List Event → ℕ → Bool
  pub fits : Message → Bool
