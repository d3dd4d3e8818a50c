-- ===== src/Server/Safe/Short.antt =====
-- Which messages `handleLobbyMessage` of game/src/server/Server.cpp may send, and that they are short enough.
use text.Mathlib.Text.{◌==◌ as str_eq}
use boomberman.Base.{
  ◌==◌, inr, arith, inl, Bool-cases, subst, str_append, ◌≡◌, All, String, List, ◌∷◌, [], none, some,
  true,
}
use boomberman.Message.{Net, Message, error, get_room_list, join_room, room_list}
use boomberman.Room.{max_players, Room, new_room}
use boomberman.Room.Join.{can_join, has_username}
use boomberman.Room.Join.Laws.{IsSendable}
use boomberman.Server.Lobby.{Lobby, find_room, open_rooms}

-- The texts of the errors.
abbrev complaints : List String
complaints =
    "Unexpected message"
    ∷ "There is no room with that name man"
    ∷ "Cannot join room"
    ∷ str_append "Cannot join room, reason: " "Empty username"
    ∷ str_append "Cannot join room, reason: " "There already is a nick like that"
    ∷ str_append "Cannot join room, reason: " "Room is full"
    ∷ []

abbrev pub HasComplaints : Net → Type 0
HasComplaints net = All (λ e. net.fits (error e) ≡ true) complaints

-- What the handling of a message may send is short enough: the list of the rooms, the errors, and what a room sends
-- when a client of the name joins it.
abbrev pub IsAnswerable : Net → Message → Lobby → Type 0
IsAnswerable net get_room_list l = net.fits (room_list (open_rooms l.rooms)) ≡ true
IsAnswerable net (join_room username none) l = HasComplaints net × IsSendable net username new_room
IsAnswerable net (join_room username (some name)) l =
    HasComplaints net × ((r : Room) → find_room name l.rooms ≡ some r → IsSendable net username r)
IsAnswerable net m l = HasComplaints net

pub can_join-fits :
    (net : Net) (username : String) (r : Room) (reason : String)
    → HasComplaints net
    → can_join username r ≡ some reason
    → net.fits (error (str_append "Cannot join room, reason: " reason)) ≡ true
unfolding can_join
can_join-fits net username r reason (h0, (h1, (h2, (h3, (h4, (h5, h6)))))) e =
    elim (Bool-cases (str_eq username "")) [
      | inl empty ↦ told "Empty username" h3 (ground (arith, e, empty))
      | inr named ↦ elim (Bool-cases (has_username username r.players)) [
        | inl taken ↦ told "There already is a nick like that" h4 (ground (arith, e, named, taken))
        | inr free ↦ elim (Bool-cases (r.client_count == max_players)) [
          | inl full ↦ told "Room is full" h5 (ground (arith, e, named, free, full))
          | inr room_left ↦ absurd (ground (arith, e, named, free, room_left))
        ]
      ]
    ]
  where
    told :
        (text : String)
        → net.fits (error (str_append "Cannot join room, reason: " text)) ≡ true
        → text ≡ reason
        → net.fits (error (str_append "Cannot join room, reason: " reason)) ≡ true
    told text h same =
        subst (λ (z : String). net.fits (error (str_append "Cannot join room, reason: " z)) ≡ true)
          same h
