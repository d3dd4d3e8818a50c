-- ===== src/Room/Disconnect/Loop.antt =====
-- The loop of `Room::DisconnectPlayers` over the players.
use mathlib.Core.List.{append-nil, append_assoc}
use boomberman.Room.Players.{find_player-Marks, find_player-conn}
use boomberman.Room.Sends.{Quiet-trans, send_except-Quiet, Marks-refl, Marks-trans, Marks, Quiet}
use boomberman.Room.{is_play, send_except, Bomb, Player, find_player, Net, Room}
use boomberman.Room.Disconnect.{
  sweep, of_int, other_bomb_place, other_leave, new_bomb, close_socket, Sweep, drop_bomb, visit,
  let_go,
}
use boomberman.Base.{
  ℕ, ◌+◌, ◌≡◌, refl, sym, ap, ◌∙◌, ◌⊎◌, inl, inr, Bool, true, false, not, ◌&&◌, ◌||◌, some, List,
  [], ◌∷◌, ◌++◌, arith, ◌==◌, ==→eq, Bool-cases, Option-cases, length, length-append,
}

abbrev pub member : ℕ → List ℕ → Bool
member c [] = false
member c (d ∷ ds) = c == d || member c ds

pub member-append : (c : ℕ) (cs ds : List ℕ) → member c (cs ++ ds) ≡ (member c cs || member c ds)
member-append c [] ds = refl
member-append c (e ∷ cs) ds = ground (arith, member-append c cs ds)

-- The room of a sweep against the room before it. `extra` are the bombs that were dropped.
pub record Swept (r : Room) (s : Sweep) : Type 0 where
  pub marks : Marks r.players s.room.players
  pub state : s.room.state ≡ r.state
  pub client_count : s.room.client_count ≡ r.client_count
  pub map : s.room.map ≡ r.map
  pub extra : List Bomb
  pub bombs : s.room.bombs ≡ r.bombs ++ extra
  pub dropped : length extra ≡ s.bombs_to_place

-- The sweep as it starts.
pub unswept : (r : Room) → Swept r (record { room = r; bombs_to_place = 0; sockets_to_delete = [] })
unswept r = record {
  marks = Marks-refl r.players;
  state = refl;
  client_count = refl;
  map = refl;
  extra = [];
  bombs = sym (append-nil r.bombs);
  dropped = refl;
}

-- A step of the sweep that only sends, closes and lets go.
Swept-Quiet :
    (r r' : Room) (s : Sweep) (sockets : List ℕ)
    → Swept r s
    → Quiet s.room r'
    → Swept r (record s { room = r'; sockets_to_delete = sockets })
Swept-Quiet r r' s sockets w q = record {
  marks = Marks-trans r.players s.room.players r'.players w.marks q.marks;
  state = q.state ∙ w.state;
  client_count = q.client_count ∙ w.client_count;
  map = q.map ∙ w.map;
  extra = w.extra;
  bombs = q.bombs ∙ w.bombs;
  dropped = w.dropped;
}

Quiet-close : (c : ℕ) (r : Room) → Quiet r (close_socket c r)
Quiet-close c r = record {
  marks = Marks-refl r.players;
  bombs = refl;
  state = refl;
  client_count = refl;
  map = refl;
}

drop_bomb-Swept :
    (net : Net) (now : ℕ) (p : Player) (r r' : Room) (s : Sweep) (sockets : List ℕ)
    → Swept r s
    → Quiet s.room r'
    → Swept r (record {
      room = drop_bomb net now p r';
      bombs_to_place = s.bombs_to_place + 1;
      sockets_to_delete = sockets;
    })
unfolding drop_bomb
drop_bomb-Swept net now p r r' s sockets w q =
    let bomb = new_bomb p.coords.x p.coords.y 9 25 now 3 true in
    let r0 : Room = record r' { bombs = r'.bombs ++ bomb ∷ [] } in
    let k =
      send_except-Quiet net p.conn
        (other_bomb_place "Server" now (of_int p.coords.x) (of_int p.coords.y)) r0 in
    record {
      marks =
          Marks-trans r.players s.room.players _ w.marks
            (Marks-trans s.room.players r'.players _ q.marks k.marks);
      state = k.state ∙ q.state ∙ w.state;
      client_count = k.client_count ∙ q.client_count ∙ w.client_count;
      map = k.map ∙ q.map ∙ w.map;
      extra = w.extra ++ bomb ∷ [];
      bombs =
          k.bombs
          ∙ ap (λ z. z ++ bomb ∷ []) (q.bombs ∙ w.bombs)
          ∙ append_assoc r.bombs w.extra (bomb ∷ []);
      dropped = omega (arith, length-append w.extra (bomb ∷ []), w.dropped);
    }

let_go-Swept :
    (net : Net) (now : ℕ) (p : Player) (r : Room) (s : Sweep)
    → Swept r s
    → Swept r (let_go net now p s)
      × ((let_go net now p s).sockets_to_delete ≡ s.sockets_to_delete ++ p.conn ∷ [])
unfolding let_go
let_go-Swept net now p r s w =
    let r1 = send_except net p.conn (other_leave p.username) s.room in
    let q : Quiet s.room (close_socket p.conn r1) =
      Quiet-trans (send_except-Quiet net p.conn (other_leave p.username) s.room)
        (Quiet-close p.conn r1) in
    elim (Bool-cases (is_play (close_socket p.conn r1).state && not (p.lives_remaining == 0))) [
      | inl drops ↦ rw drops (drop_bomb-Swept net now p r _ s _ w q, refl)
      | inr leaves ↦ rw leaves (Swept-Quiet r _ s _ w q, refl)
    ]

pub visit-out :
    (net : Net) (now c : ℕ) (s : Sweep) (p : Player)
    → find_player c s.room.players ≡ some p
    → p.marked_for_disconnect ≡ true
    → visit net now c s ≡ let_go net now p s
unfolding visit
visit-out net now c s p e out = ground arith

-- One round: nothing happens, or a marked player is let go.
pub record Visits (r : Room) (c : ℕ) (s s' : Sweep) : Type 0 where
  pub swept : Swept r s'
  pub took :
      ((s'.sockets_to_delete ≡ s.sockets_to_delete)
        × ((p : Player) → find_player c s.room.players ≡ some p → p.marked_for_disconnect ≡ false))
      ⊎ (s'.sockets_to_delete ≡ s.sockets_to_delete ++ c ∷ [])

pub visit-Visits :
    (net : Net) (now c : ℕ) (r : Room) (s : Sweep) → Swept r s → Visits r c s (visit net now c s)
unfolding visit
visit-Visits net now c r s w = elim (Option-cases (find_player c s.room.players)) [
  | inl gone ↦ rw (gone, visit) (record { swept = w; took = inl (refl, λ p e. cc) })
  | inr (p, e) ↦ elim (Bool-cases (p.marked_for_disconnect)) [
    | inl out ↦
        let (k, d) = let_go-Swept net now p r s w in
        rw (visit-out net now c s p e out) (record {
          swept = k;
          took =
              inr (
                d
                ∙ ap (λ z. s.sockets_to_delete ++ z ∷ []) (find_player-conn c s.room.players p e));
        })
    | inr stays ↦
        rw (e, stays, visit) (record { swept = w; took = inl (refl, λ q k. ground arith) })
  ]
]

pub sweep-Swept :
    (net : Net) (now : ℕ) (cs : List ℕ) (r : Room) (s : Sweep)
    → Swept r s
    → Swept r (sweep net now cs s)
unfolding sweep
sweep-Swept net now [] r s w = w
sweep-Swept net now (c ∷ cs) r s w =
    sweep-Swept net now cs r (visit net now c s) ((visit-Visits net now c r s w).swept)

-- A socket once to be deleted stays so.
pub sweep-grows :
    (net : Net) (now d : ℕ) (cs : List ℕ) (r : Room) (s : Sweep)
    → Swept r s
    → member d s.sockets_to_delete ≡ true
    → member d (sweep net now cs s).sockets_to_delete ≡ true
unfolding sweep
sweep-grows net now d [] r s w h = h
sweep-grows net now d (c ∷ cs) r s w h =
    let v = visit-Visits net now c r s w in
    sweep-grows net now d cs r (visit net now c s) v.swept
      (ground (arith, v.took, member-append d s.sockets_to_delete (c ∷ [])))

still_marked :
    (c : ℕ) (ps qs : List Player) (p : Player)
    → Marks ps qs
    → find_player c ps ≡ some p
    → p.marked_for_disconnect ≡ true
    → (q : Player) × (find_player c qs ≡ some q) × (q.marked_for_disconnect ≡ true)
still_marked c ps qs p m e h =
    let (q, found, is) = find_player-Marks c ps qs p m e in (q, found, ground (arith, is, h))

-- A player marked before the sweep, among those that it visits, is let go.
pub sweep-takes :
    (net : Net) (now d : ℕ) (p : Player) (cs : List ℕ) (r : Room) (s : Sweep)
    → Swept r s
    → find_player d r.players ≡ some p
    → p.marked_for_disconnect ≡ true
    → member d cs ≡ true
    → member d (sweep net now cs s).sockets_to_delete ≡ true
unfolding sweep
sweep-takes net now d p [] r s w e h m = cc
sweep-takes net now d p (c ∷ cs) r s w e h m =
    let v = visit-Visits net now c r s w in
    elim (Bool-cases (d == c)) [
      | inr later ↦ sweep-takes net now d p cs r (visit net now c s) v.swept e h (ground arith)
      | inl here ↦
          let (q, eq, out) = still_marked d r.players s.room.players p w.marks e h in
          let same : d ≡ c = ==→eq d c here in
          sweep-grows net now d cs r (visit net now c s) v.swept (elim (v.took) [
            | inl (_, stays) ↦
                let no = stays q (ap (λ (z : ℕ). find_player z s.room.players) (sym same) ∙ eq) in
                absurd (ground (arith, no))
            | inr g ↦ ground (arith, g, member-append d s.sockets_to_delete (c ∷ []))
          ])
    ]
