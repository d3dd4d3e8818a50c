-- ===== src/Server/Safe/Enter.antt =====
-- Joining a room and the agreement of the tables with the rooms.
use boomberman.Room.Sends.{conns-Marks}
use boomberman.Room.Join.Laws.{IsSendable, join_player-Joins}
use boomberman.Server.Loop.{after_reply}
use boomberman.Server.Safe.Hall.{moved-IsHoused}
use boomberman.Server.{erase_assignment, erase_key}
use boomberman.Server.Tables.{
  find_assignment-erase, erase_first-gone, outside-IsFresh, member-erase_key, Distinct-erase_first,
  erase_last-erase_first,
}
use boomberman.Server.Safe.{
  AllHoused-put_room, DistinctRooms-put_room, IsHoused, Same, Server, Distinct, AllHoused-tables,
  member, AreHoused, IsWellFormed, IsSafe,
}
use boomberman.Room.Invariant.{IsFresh}
use boomberman.Server.Lobby.{failed, put_room, erase_last, enter, Lobby}
use boomberman.Room.Join.{join_player, is_waiting}
use boomberman.Room.{conns, game_over, wait_for_end, play, wait_for_start, Room, GameState}
use boomberman.Message.{Net, error}
use boomberman.Server.Loop.{find_assignment}
use boomberman.Base.{
  ◌⊎◌, ==_refl, ap, ◌∙◌, ==→eq, sym, subst, inl, inr, Bool-cases, arith, some, ◌∷◌, false, ◌||◌,
  ◌==◌, List, refl, true, ◌≡◌, String, ℤ, ℕ,
}

is_waiting-wait : (s : GameState) → is_waiting s ≡ true → s ≡ wait_for_start
is_waiting-wait wait_for_start e = refl
is_waiting-wait play e = cc
is_waiting-wait wait_for_end e = cc
is_waiting-wait game_over e = cc

module _ (net : Net) (now : ℕ) (step : ℤ) (c : ℕ) (username name : String) (r : Room) (l : Lobby)
    (w : IsSafe l) (formed : IsWellFormed r) (housed : AreHoused l.server (name, r))
    (here : member c l.server.lobby_conns ≡ true) where
  abbrev lobby_left : List ℕ
  lobby_left = erase_last c l.server.lobby_conns

  -- The tables of who has joined.
  abbrev joined_tables : Server
  joined_tables = record {
    lobby_conns = lobby_left;
    room_conns = c ∷ erase_key c l.server.room_conns;
    room_assignments = (c, name) ∷ erase_assignment c l.server.room_assignments;
  }

  -- The tables of who was let out of the lobby and not into the room.
  abbrev refused_tables : Server
  refused_tables = record (l.server) {
    lobby_conns = lobby_left;
    room_conns = erase_key c (c ∷ erase_key c l.server.room_conns);
  }

  Distinct-lobby_left : Distinct lobby_left
  Distinct-lobby_left =
      rw (erase_last-erase_first c l.server.lobby_conns w.lobby)
        (Distinct-erase_first c l.server.lobby_conns w.lobby)

  joined-Same : (d : ℕ) → (d == c) ≡ false → Same d l.server joined_tables
  unfolding find_assignment
  joined-Same d n = record {
    conn = ground (arith, n, member-erase_key d c l.server.room_conns);
    room =
        let miss : (c == d) ≡ false = ground (arith, n) in
        rw miss (find_assignment-erase c d l.server.room_assignments n);
  }

  refused-Same : (d : ℕ) → (d == c) ≡ false → Same d l.server refused_tables
  refused-Same d n = record {
    conn = ground (
      arith,
      n,
      member-erase_key d c (c ∷ erase_key c l.server.room_conns),
      member-erase_key d c l.server.room_conns,
    );
    room = refl;
  }

  newcomer-IsHoused : IsHoused joined_tables name c
  unfolding find_assignment
  newcomer-IsHoused = record {
    outside =
        rw (erase_last-erase_first c l.server.lobby_conns w.lobby)
          (erase_first-gone c l.server.lobby_conns w.lobby);
    connected = rw (==_refl c) refl;
    assigned = rw (==_refl c) refl;
  }

  joined-IsSafe :
      (out : Room)
      → IsWellFormed out
      → ((d : ℕ) → member d (conns out.players) ≡ (d == c || member d (conns r.players)))
      → IsSafe (record { server = joined_tables; rooms = put_room name out l.rooms })
  joined-IsSafe out formed' same = record {
    lobby = Distinct-lobby_left;
    named = DistinctRooms-put_room name out l.rooms w.named;
    housed =
        AllHoused-put_room l.server joined_tables name out l.rooms w.named
          (λ other d _ h. moved other d h) formed'
          (λ d k. elim (Bool-cases (d == c)) [
            | inl e ↦
                subst (λ (z : ℕ). IsHoused joined_tables name z) (sym (==→eq d c e))
                  newcomer-IsHoused
            | inr e ↦ moved name d (housed d (ground (arith, e, k, same d)))
          ])
          w.housed;
  }
    where
      moved : (other : String) (d : ℕ) → IsHoused l.server other d → IsHoused joined_tables other d
      moved = moved-IsHoused l.server joined_tables c here refl joined-Same

  refused-IsSafe : IsSafe (record l { server = refused_tables })
  refused-IsSafe = record {
    lobby = Distinct-lobby_left;
    named = w.named;
    housed =
        AllHoused-tables l.server refused_tables l.rooms
          (moved-IsHoused l.server refused_tables c here refl refused-Same) w.housed;
  }

  -- The client in the lobby enters the room, or is let out, if no message for it is too long.
  pub enter-IsSafe :
      ((after : Lobby) × (after_reply (enter net now step c username name r l) ≡ some after)
        × IsSafe after
        × (member c after.server.lobby_conns ≡ false))
      ⊎ (enter net now step c username name r l ≡ failed)
        × ¬ (IsSendable net username r × (net.fits (error "Cannot join room") ≡ true))
  unfolding enter join_player after_reply
  enter-IsSafe = elim (Bool-cases (is_waiting r.state)) [
    | inr over ↦ elim (Bool-cases (net.fits (error "Cannot join room"))) [
      | inl short ↦ inl (
        record l { server = refused_tables },
        rw (enter, here, join_player, over, short) refl,
        refused-IsSafe,
        newcomer-IsHoused.outside,
      )
      | inr long ↦ inr (
        rw (enter, here, join_player, over, long) refl,
        λ (h, short). ground (arith, long, short),
      )
    ]
    | inl waits ↦
        let fresh : IsFresh c (conns r.players) =
          outside-IsFresh c (conns r.players) (elim (Bool-cases (member c (conns r.players))) [
            | inl k ↦ absurd (ground (arith, here, (housed c k).outside))
            | inr k ↦ k
          ]) in
        elim (join_player-Joins net now step c username r formed fresh
          (is_waiting-wait r.state waits)) [
            | inr (gone, long) ↦ inr (rw (enter, here, gone) refl, λ h. long (h.0))
            | inl (j, _) ↦
                let same : conns j.out.players ≡ c ∷ conns r.players =
                  conns-Marks (j.newcomer ∷ r.players) j.out.players j.players
                  ∙ ap (λ (d : ℕ). d ∷ conns r.players) (j.is_newcomer.conn_is) in
                inl (
                  record { server = joined_tables; rooms = put_room name j.out l.rooms },
                  rw (enter, here, j.returns) refl,
                  joined-IsSafe j.out j.well_formed (λ d. rw same refl),
                  newcomer-IsHoused.outside,
                )
          ]
  ]
