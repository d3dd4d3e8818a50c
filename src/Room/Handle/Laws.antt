-- ===== src/Room/Handle/Laws.antt =====
-- What a message does to a room, and the branches of `Room::HandleMessage` that only send or mark.
use mathlib.Core.List.{append-nil}
use boomberman.Room.Sends.{
  names-Marks, names, conns-Marks, send_specific-Quiet, Marks-mark, Marks-refl, send_except-Quiet,
  Quiet, Marks,
}
use boomberman.Room.{send_specific, mark, update_player, conns}
use boomberman.Room.Invariant.{Quiet-IsWellFormed, IsWellFormed}
use boomberman.Bomb.{new_bomb, Bomb}
use boomberman.Player.{Player}
use boomberman.Message.{other_bomb_place, Float, i_place_bomb, Net, Message}
use boomberman.Room.Handle.{is_leave, Room, mark_first, handle_place_bomb, handle_waiting}
use boomberman.Base.{
  ℕ, ◌≡◌, refl, sym, ◌∙◌, inl, inr, Bool, true, false, not, Option, none, some, List, [], ◌∷◌, ◌++◌,
  arith, Bool-cases, Option-cases,
}

-- The bomb that a placing message adds.
abbrev pub placed : ℕ → Message → Bool → List Bomb
placed now (i_place_bomb x y) true = new_bomb x.whole y.whole 3 25 now 3 false ∷ []
placed now m b = []

abbrev pub is_place_bomb : Message → Bool
is_place_bomb (i_place_bomb x y) = true
is_place_bomb _ = false

-- What holds of a room `r'` and an answer `b` after a message in the room `r`.
pub record Handles (now : ℕ) (m : Message) (r r' : Room) (b : Bool) : Type 0 where
  pub well_formed : IsWellFormed r'
  pub state : r'.state ≡ r.state
  pub client_count : r'.client_count ≡ r.client_count
  pub map : r'.map ≡ r.map
  pub conns_same : conns r'.players ≡ conns r.players
  pub names_same : names r'.players ≡ names r.players
  pub bombs : r'.bombs ≡ r.bombs ++ placed now m b
  pub asks : b ≡ true → is_place_bomb m ≡ true

placed-false : (now : ℕ) (m : Message) → placed now m false ≡ []
placed-false now (i_place_bomb x y) = refl
placed-false now _ = refl

-- Sends alone, after a change of the players that keeps the connections.
pub Quiet-Handles :
    (now : ℕ) (m : Message) (r r0 r' : Room)
    → r0.state ≡ r.state
    → r0.client_count ≡ r.client_count
    → r0.map ≡ r.map
    → r0.bombs ≡ r.bombs
    → conns r0.players ≡ conns r.players
    → names r0.players ≡ names r.players
    → IsWellFormed r0
    → Quiet r0 r'
    → Handles now m r r' false
Quiet-Handles now m r r0 r' s c k b e n w q = record {
  well_formed = Quiet-IsWellFormed q w;
  state = q.state ∙ s;
  client_count = q.client_count ∙ c;
  map = q.map ∙ k;
  conns_same = conns-Marks r0.players r'.players q.marks ∙ e;
  names_same = names-Marks r0.players r'.players q.marks ∙ n;
  bombs = rw (placed-false now m) (q.bombs ∙ b ∙ sym (append-nil r.bombs));
  asks = λ e. cc;
}

pub send_specific-Handles :
    (net : Net) (now c : ℕ) (m m' : Message) (r : Room)
    → IsWellFormed r
    → Handles now m r (send_specific net c m' r) false
send_specific-Handles net now c m m' r w =
    Quiet-Handles now m r r _ refl refl refl refl refl refl w (send_specific-Quiet net c m' r)

pub mark-Handles :
    (now : ℕ) (m : Message) (c : ℕ) (r : Room)
    → IsWellFormed r
    → Handles now m r (record r { players = update_player c mark r.players }) false
mark-Handles now m c r w = Quiet-Handles now m r r _ refl refl refl refl refl refl w (record {
  marks = Marks-mark c r.players;
  bombs = refl;
  state = refl;
  client_count = refl;
  map = refl;
})

-- The same of a result that may be none.
abbrev pub Results : ℕ → Message → Room → Option (Room × Bool) → Type 0
Results now m r none = Unit {0}
Results now m r (some (r', b)) = Handles now m r r' b

mark_first-Marks : (ps qs : List Player) → mark_first ps ≡ some qs → Marks ps qs
mark_first-Marks [] qs e = cc
mark_first-Marks (p ∷ ps) qs e =
    let e' : qs ≡ mark p ∷ ps = ground arith in rw e' (inr refl, Marks-refl ps)

pub handle_waiting-Handles :
    (net : Net) (now author : ℕ) (m : Message) (r : Room)
    → IsWellFormed r
    → Results now m r (handle_waiting net author m r)
unfolding handle_waiting
handle_waiting-Handles net now author m r w = elim (Bool-cases (not (is_leave m))) [
  | inl other ↦ rw other (send_specific-Handles net now author m _ r w)
  | inr leave ↦ rw leave (elim (Option-cases (mark_first r.players)) [
    | inl e ↦ rw e tt
    | inr (ps, e) ↦ rw e (
        Quiet-Handles now m r r _ refl refl refl refl refl refl w (record {
          marks = mark_first-Marks r.players ps e;
          bombs = refl;
          state = refl;
          client_count = refl;
          map = refl;
        }))
  ])
]

pub handle_place_bomb-Handles :
    (net : Net) (now : ℕ) (p : Player) (x y : Float) (r : Room)
    → IsWellFormed r
    → Handles now (i_place_bomb x y) r (handle_place_bomb net now p x y r) true
unfolding handle_place_bomb
handle_place_bomb-Handles net now p x y r w =
    let bomb = new_bomb x.whole y.whole 3 25 now 3 false in
    let r0 : Room = record r { bombs = r.bombs ++ bomb ∷ [] } in
    let q = send_except-Quiet net p.conn (other_bomb_place p.username now x y) r0 in
    record {
      well_formed = Quiet-IsWellFormed q (record {
        distinct = w.distinct;
        counted = w.counted;
        capped = w.capped;
        waiting = w.waiting;
        arena = w.arena;
        sound = w.sound;
      });
      state = q.state;
      client_count = q.client_count;
      map = q.map;
      conns_same = conns-Marks r0.players _ q.marks;
      names_same = names-Marks r0.players _ q.marks;
      bombs = q.bombs;
      asks = λ e. refl;
    }
