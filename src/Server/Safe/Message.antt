-- ===== src/Server/Safe/Message.antt =====
-- `Server::handleLobbyMessage` and an event of `runLobby`, against the agreement of the tables with the rooms.
use boomberman.Server.Safe.Enter.{enter-IsSafe}
use boomberman.Room.Invariant.{new_room-IsWellFormed}
use boomberman.Room.Join.{can_join}
use boomberman.Server.Loop.{after_reply}
use boomberman.Server.Safe.{
  find_room-AllHoused, AllHoused-put_room, DistinctRooms-put_room, IsWellFormed, IsSafe, AreHoused,
}
use boomberman.Server.Safe.Hall.{running_rooms-IsSafe, reply-Leaves, Leaves}
use boomberman.Server.Lobby.{
  reply, find_room, running_rooms, put_room, handle_get_room_list, handle_join_room, Lobby, enter,
  handle_lobby_message, try_join,
}
use boomberman.Server.{member, Server}
use boomberman.Message.{get_room_list, join_room, Message, Net}
use boomberman.Room.{Room, new_room}
use boomberman.Server.Safe.Short.{IsAnswerable, HasComplaints, can_join-fits}
use boomberman.Room.Join.Laws.{IsSendable}
use boomberman.Message.{
  error, i_place_bomb, i_move, i_leave, room_list, welcome_to_room, game_join, game_start,
  other_bomb_place, got_hit, other_move, other_leave, game_won, movement_correction,
}
use boomberman.Server.Lobby.{failed, Reply}
use boomberman.Base.{
  str_append, ◌⊎◌, arith, refl, is_some, true, Option, ◌≡◌, sym, subst, Bool-cases, none, some, inr,
  inl, Option-cases, Bool, String, ℤ, ℕ,
}

pub new_room-AreHoused : (s : Server) (name : String) → AreHoused s (name, new_room)
unfolding new_room
new_room-AreHoused s name c e = cc

-- A new room has nobody in it.
pub new_room-IsSafe :
    (name : String) (l : Lobby)
    → IsSafe l
    → IsSafe (record l { rooms = put_room name new_room l.rooms })
new_room-IsSafe name l w = record {
  lobby = w.lobby;
  named = DistinctRooms-put_room name new_room l.rooms w.named;
  housed =
      AllHoused-put_room l.server l.server name new_room l.rooms w.named (λ other d _ h. h)
        new_room-IsWellFormed (new_room-AreHoused l.server name) w.housed;
}

module _ (net : Net) (now : ℕ) (step : ℤ) (c : ℕ) where
  enter-Leaves :
      (username name : String) (r : Room) (l : Lobby)
      → IsSafe l
      → IsWellFormed r
      → AreHoused l.server (name, r)
      → Leaves c l.server (after_reply (enter net now step c username name r l))
  unfolding enter Leaves after_reply
  enter-Leaves username name r l w formed housed =
      elim (Bool-cases (member c l.server.lobby_conns)) [
        | inl here ↦ elim (enter-IsSafe net now step c username name r l w formed housed here) [
          | inl (l', e, safe, gone) ↦ subst (Leaves c l.server) (sym e) (λ h. safe)
          | inr (long, n) ↦ rw long tt
        ]
        | inr out ↦ rw (enter, out) tt
      ]

  try_join-Leaves :
      (sends : Bool) (username name : String) (r : Room) (l : Lobby)
      → IsSafe l
      → IsWellFormed r
      → AreHoused l.server (name, r)
      → Leaves c l.server (after_reply (try_join net now step sends c username name r l))
  unfolding try_join
  try_join-Leaves sends username name r l w formed housed =
      elim (Option-cases (can_join username r)) [
        | inl free ↦ rw (try_join, free) (enter-Leaves username name r l w formed housed)
        | inr (reason, e) ↦ rw (try_join, e) (reply-Leaves net sends c _ l w)
      ]

  pub handle_lobby_message-Leaves :
      (new_name : String) (sends : Bool) (m : Message) (l : Lobby)
      → IsSafe l
      → Leaves c l.server (after_reply (handle_lobby_message net now step new_name sends c m l))
  unfolding handle_lobby_message handle_join_room handle_get_room_list
  handle_lobby_message-Leaves new_name sends get_room_list l w =
      reply-Leaves net sends c _ (record l { rooms = running_rooms l.rooms })
        (running_rooms-IsSafe l w)
  handle_lobby_message-Leaves new_name sends (join_room username none) l w =
      try_join-Leaves sends username new_name new_room
        (record l { rooms = put_room new_name new_room l.rooms }) (new_room-IsSafe new_name l w)
        new_room-IsWellFormed (new_room-AreHoused l.server new_name)
  handle_lobby_message-Leaves new_name sends (join_room username (some name)) l w =
      elim (Option-cases (find_room name l.rooms)) [
        | inl e ↦ rw (handle_lobby_message, handle_join_room, e) (reply-Leaves net sends c _ l w)
        | inr (r, e) ↦
            let (formed, housed) = find_room-AllHoused l.server name r l.rooms e w.housed in
            rw (handle_lobby_message, handle_join_room, e)
              (try_join-Leaves sends username name r l w formed housed)
      ]
  handle_lobby_message-Leaves new_name sends m l w = reply-Leaves net sends c _ l w

  -- The server runs on, or a message was too long.
  abbrev Returns : Reply → Type 0 → Type 0
  Returns o short = (is_some (after_reply o) ≡ true) ⊎ (o ≡ failed) × ¬ short

  Returns-if :
      (o : Reply) (short short' : Type 0) → (short' → short) → Returns o short → Returns o short'
  Returns-if o short short' k (inl h) = inl h
  Returns-if o short short' k (inr (e, n)) = inr (e, λ h. n (k h))

  reply-Returns :
      (sends : Bool) (m : Message) (l : Lobby) → Returns (reply net sends c m l) (net.fits m ≡ true)
  unfolding reply after_reply
  reply-Returns sends m l = elim (Bool-cases (net.fits m)) [
    | inl short ↦ inl (rw (reply, short) refl)
    | inr long ↦ inr (rw (reply, long) refl, λ h. ground (arith, long, h))
  ]

  try_join-Returns :
      (sends : Bool) (username name : String) (r : Room) (l : Lobby)
      → IsSafe l
      → IsWellFormed r
      → AreHoused l.server (name, r)
      → member c l.server.lobby_conns ≡ true
      → Returns
          (try_join net now step sends c username name r l)
          (HasComplaints net × IsSendable net username r)
  unfolding try_join
  try_join-Returns sends username name r l w formed housed here =
      elim (Option-cases (can_join username r)) [
        | inl free ↦
            rw (try_join, free)
              (elim (enter-IsSafe net now step c username name r l w formed housed here) [
                | inl (l', e, safe, gone) ↦ inl (rw e refl)
                | inr (e, n) ↦ inr (e, λ (texts, h). n (h, refused_fits texts))
              ])
        | inr (reason, e) ↦
            rw (try_join, e)
              (Returns-if _ _ _ (λ (texts, h). can_join-fits net username r reason texts e)
                (reply-Returns sends (error (str_append "Cannot join room, reason: " reason)) l))
      ]
    where
      refused_fits : HasComplaints net → net.fits (error "Cannot join room") ≡ true
      refused_fits texts = texts.1.1.0

  unexpected-Returns :
      (sends : Bool) (l : Lobby)
      → Returns (reply net sends c (error "Unexpected message") l) (HasComplaints net)
  unexpected-Returns sends l =
      Returns-if _ _ _ (λ (texts : HasComplaints net). texts.0)
        (reply-Returns sends (error "Unexpected message") l)

  -- For a client in the lobby the server runs on, but for a message that is too long.
  handle_lobby_message-Returns :
      (new_name : String) (sends : Bool) (m : Message) (l : Lobby)
      → IsSafe l
      → member c l.server.lobby_conns ≡ true
      → Returns (handle_lobby_message net now step new_name sends c m l) (IsAnswerable net m l)
  unfolding handle_lobby_message handle_join_room handle_get_room_list
  handle_lobby_message-Returns new_name sends get_room_list l w here = reply-Returns sends _ _
  handle_lobby_message-Returns new_name sends (join_room username none) l w here =
      try_join-Returns sends username new_name new_room
        (record l { rooms = put_room new_name new_room l.rooms }) (new_room-IsSafe new_name l w)
        new_room-IsWellFormed (new_room-AreHoused l.server new_name) here
  handle_lobby_message-Returns new_name sends (join_room username (some name)) l w here =
      elim (Option-cases (find_room name l.rooms)) [
        | inl e ↦
            rw (handle_lobby_message, handle_join_room, e)
              (Returns-if _ _ _ (λ (texts, h). texts.1.0) (reply-Returns sends _ l))
        | inr (r, e) ↦
            let (formed, housed) = find_room-AllHoused l.server name r l.rooms e w.housed in
            rw (handle_lobby_message, handle_join_room, e)
              (Returns-if _ _ _ (λ (texts, h). (texts, h r refl))
                (try_join-Returns sends username name r l w formed housed here))
      ]
  handle_lobby_message-Returns new_name sends (error e) l w here = unexpected-Returns sends l
  handle_lobby_message-Returns new_name sends (i_place_bomb x y) l w here =
      unexpected-Returns sends l
  handle_lobby_message-Returns new_name sends (i_move x y) l w here = unexpected-Returns sends l
  handle_lobby_message-Returns new_name sends i_leave l w here = unexpected-Returns sends l
  handle_lobby_message-Returns new_name sends (room_list rs) l w here = unexpected-Returns sends l
  handle_lobby_message-Returns new_name sends (welcome_to_room ps) l w here =
      unexpected-Returns sends l
  handle_lobby_message-Returns new_name sends (game_join p) l w here = unexpected-Returns sends l
  handle_lobby_message-Returns new_name sends game_start l w here = unexpected-Returns sends l
  handle_lobby_message-Returns new_name sends (other_bomb_place u t x y) l w here =
      unexpected-Returns sends l
  handle_lobby_message-Returns new_name sends (got_hit u n t) l w here = unexpected-Returns sends l
  handle_lobby_message-Returns new_name sends (other_move u x y) l w here =
      unexpected-Returns sends l
  handle_lobby_message-Returns new_name sends (other_leave u) l w here = unexpected-Returns sends l
  handle_lobby_message-Returns new_name sends (game_won u) l w here = unexpected-Returns sends l
  handle_lobby_message-Returns new_name sends (movement_correction x y) l w here =
      unexpected-Returns sends l

  Leaves-some :
      (s : Server) (o : Option Lobby)
      → Leaves c s o
      → member c s.lobby_conns ≡ true
      → is_some o ≡ true
      → (after : Lobby) × (o ≡ some after) × IsSafe after
  unfolding Leaves
  Leaves-some s none h here e = cc
  Leaves-some s (some l) h here e = (l, refl, h (ground (arith, here)))

  -- Whatever a client in the lobby of a safe state sends, be it the join of a room that is over, its handling is not undefined,
  -- whether or not a reply can be sent. It ends in an exception only if a message that it may send is too long: the list of
  -- the rooms, an error, or the messages of a room to a newcomer and about him. Else the state it leaves is safe.
  pub handle_lobby_message-IsSafe :
      (new_name : String) (sends : Bool) (m : Message) (l : Lobby)
      → IsSafe l
      → member c l.server.lobby_conns ≡ true
      → ((after : Lobby) × (after_reply (handle_lobby_message net now step new_name sends c m l)
            ≡ some after)
          × IsSafe after)
        ⊎ (handle_lobby_message net now step new_name sends c m l ≡ failed) × ¬ IsAnswerable net m l
  handle_lobby_message-IsSafe new_name sends m l w here =
      elim (handle_lobby_message-Returns new_name sends m l w here) [
        | inl ret ↦
            inl (Leaves-some l.server _ (handle_lobby_message-Leaves new_name sends m l w) here ret)
        | inr long ↦ inr long
      ]
