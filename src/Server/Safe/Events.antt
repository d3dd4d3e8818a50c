-- ===== src/Server/Safe/Events.antt =====
-- One event of `runRooms` and one of `runBombs`, against the agreement of the tables with the rooms.
use boomberman.Room.Sends.{names}
use boomberman.Room.Handle.Keeps.{handle_message-Handles}
use boomberman.Room.Handle.Laws.{mark-Handles}
use boomberman.Room.Explosion.Laws.{
  Explodes-names, Explodes-conns, notify_explosion-Explodes, IsInside,
}
use boomberman.Server.Safe.Rooms.{
  again-Settles, unchanged-Settles, handle_room_post_event-Settles, Settles-from, Settles,
}
use boomberman.Room.Invariant.{IsWellFormed}
use boomberman.Bomb.{Bomb}
use boomberman.Message.{i_leave, Message, Net}
use boomberman.Server.{
  keys, member, handle_room_post_event, handle_message, is_over, Served, Server, serve_room,
  serve_bomb,
}
use boomberman.Room.{
  game_over, wait_for_end, wait_for_start, play, GameState, find_player, conns, is_play, Room,
}
use boomberman.Room.Explosion.{is_alive, notify_explosion}
use boomberman.Base.{
  refl, sym, true, List-cases, if◌then◌else◌, count, ◌<◌, ◌||◌, none, inl, ◌∷◌, inr, subst, ◌≡◌,
  Option-cases, some, Bool-cases, List, Option, ℕ,
}

abbrev IsServed : Room → Server → Option Served → Type 0
IsServed r s none = Unit {0}
IsServed r s (some v) = Settles r s v

serve_room-IsServed :
    (net : Net) (now c : ℕ) (received : Option Message) (r : Room) (s : Server)
    → IsWellFormed r
    → IsServed r s (serve_room net now c received r s)
unfolding serve_room
serve_room-IsServed net now c received r s w = elim (Option-cases (find_player c r.players)) [
  | inl e ↦ rw (serve_room, e) tt
  | inr (p, e) ↦ elim (Bool-cases (p.marked_for_disconnect || is_over r.state)) [
    | inl idle ↦ rw (serve_room, e, idle) (unchanged-Settles r s w)
    | inr busy ↦ elim (Option-cases received) [
      | inl nothing ↦
          let h = mark-Handles now i_leave c r w in
          rw (serve_room, e, busy, nothing)
            (Settles-from r _ s _ h.conns_same
              (handle_room_post_event-Settles net now _ s h.well_formed))
      | inr (m, got) ↦ elim (Option-cases (handle_message net now c m r)) [
        | inl none_left ↦ rw (serve_room, e, busy, got, none_left) tt
        | inr ((r', b), handled) ↦
            let h = handle_message-Handles net now c m r r' b w handled in
            let first = handle_room_post_event net now r' s in
            let k =
              Settles-from r r' s first h.conns_same
                (handle_room_post_event-Settles net now r' s h.well_formed) in
            elim (Bool-cases (member c (keys first.server.room_assignments))) [
              | inl there ↦
                  rw (serve_room, e, busy, got, handled, there)
                    (again-Settles net now (if b then 1 else 0) r s first k)
              | inr erased ↦ rw (serve_room, e, busy, got, handled, erased) tt
            ]
      ]
    ]
  ]
]

pub serve_room-Settles :
    (net : Net) (now c : ℕ) (received : Option Message) (r : Room) (s : Server) (v : Served)
    → IsWellFormed r
    → serve_room net now c received r s ≡ some v
    → Settles r s v
serve_room-Settles net now c received r s v w e =
    subst (IsServed r s) e (serve_room-IsServed net now c received r s w)

-- The bomb that is next lies inside the rim, and the number drawn is one of a living player.
abbrev pub IsReady : ℕ → Room → Type 0
IsReady drawn r =
    (bomb : Bomb) (rest : List Bomb)
    → r.bombs ≡ bomb ∷ rest
    → IsInside bomb × (drawn < count is_alive r.players)

abbrev pub IsBurnt : Room → Option Room → Type 0
IsBurnt r none = Unit {0}
IsBurnt r (some r') =
    IsWellFormed r' × (conns r'.players ≡ conns r.players) × (names r'.players ≡ names r.players)

is_play-play : (t : GameState) → is_play t ≡ true → t ≡ play
is_play-play play e = refl
is_play-play wait_for_start e = cc
is_play-play wait_for_end e = cc
is_play-play game_over e = cc

pub notify_explosion-IsBurnt :
    (net : Net) (now time drawn : ℕ) (r : Room)
    → IsWellFormed r
    → IsReady drawn r
    → IsBurnt r (notify_explosion net now time drawn r)
unfolding notify_explosion
notify_explosion-IsBurnt net now time drawn r w ready = elim (Bool-cases (is_play r.state)) [
  | inr off ↦ rw (notify_explosion, off) (w, refl, refl)
  | inl on ↦ elim (List-cases r.bombs) [
    | inl e ↦ rw (notify_explosion, on, e) (w, refl, refl)
    | inr (bomb, rest, e) ↦
        let (inside, drawable) = ready bomb rest e in
        let x =
          notify_explosion-Explodes net now time drawn bomb rest r w (is_play-play r.state on) e
            inside drawable in
        subst (IsBurnt r) (sym x.returns) (
          x.well_formed,
          Explodes-conns now time bomb rest r _ x,
          Explodes-names now time bomb rest r _ x,
        )
  ]
]

pub serve_bomb-Settles :
    (net : Net) (now time drawn : ℕ) (r : Room) (s : Server) (v : Served)
    → IsWellFormed r
    → IsReady drawn r
    → serve_bomb net now time drawn r s ≡ some v
    → Settles r s v
unfolding serve_bomb
serve_bomb-Settles net now time drawn r s v w ready e =
    subst (IsServed r s) e (served (notify_explosion-IsBurnt net now time drawn r w ready))
  where
    served :
        IsBurnt r (notify_explosion net now time drawn r)
        → IsServed r s (serve_bomb net now time drawn r s)
    served h = elim (Option-cases (notify_explosion net now time drawn r)) [
      | inl k ↦ rw (serve_bomb, k) tt
      | inr (r', k) ↦
          let b = subst (IsBurnt r) k h in
          rw (serve_bomb, k)
            (Settles-from r r' s _ (b.1) (handle_room_post_event-Settles net now r' s (b.0)))
    ]
