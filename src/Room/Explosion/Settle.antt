-- ===== src/Room/Explosion/Settle.antt =====
-- The end of `Room::NotifyExplosion`: the players left alive are counted, and a winner is named.
use boomberman.Room.Sends.{Marks-refl, send_broadcast-Quiet, Marks}
use boomberman.Player.{Player}
use boomberman.Room.{play, send_broadcast, mark, game_over, is_play, Net, Room, GameState}
use boomberman.Room.Explosion.{game_won, is_alive, last_of, alive_from, settle, announce_winner}
use boomberman.Base.{
  ℕ, zero, suc, ◌+◌, ◌≤◌, ◌<◌, ◌≡◌, refl, sym, ap, subst, inl, inr, true, ◌&&◌, none, some, List,
  [], ◌∷◌, map, arith, leb, ◌==◌, if◌then◌else◌, Bool-cases, Option-cases, length, get_elem?, count,
  All, get_elem?-lt, get_elem?-total, All-map,
}

-- The indices are those of players, as many as are alive.
alive_from-All :
    (k : ℕ) (ps : List Player) → All (λ i. (k ≤ i) × (i < k + length ps)) (alive_from k ps)
unfolding alive_from
alive_from-All k [] = tt
alive_from-All k (p ∷ ps) =
    let rest =
      All-map (λ i (h : (k + 1 ≤ i) × (i < k + 1 + length ps)). inside i h) (alive_from (k + 1) ps)
        (alive_from-All (k + 1) ps) in
    elim (Bool-cases (is_alive p)) [
      | inl e ↦ rw e ((omega arith, omega arith), rest)
      | inr e ↦ rw e rest
    ]
  where
    inside : (i : ℕ) → (k + 1 ≤ i) × (i < k + 1 + length ps) → (k ≤ i) × (i < k + suc (length ps))
    inside i h = omega arith

pub length-alive_from : (k : ℕ) (ps : List Player) → length (alive_from k ps) ≡ count is_alive ps
unfolding alive_from
length-alive_from k [] = refl
length-alive_from k (p ∷ ps) = ground (arith, length-alive_from (k + 1) ps)

-- Marks do not change who is alive.
pub alive_from-Marks :
    (k : ℕ) (ps qs : List Player) → Marks ps qs → alive_from k qs ≡ alive_from k ps
unfolding alive_from
alive_from-Marks k [] [] m = refl
alive_from-Marks k [] (q ∷ qs) m = absurd m
alive_from-Marks k (p ∷ ps) [] m = absurd m
alive_from-Marks k (p ∷ ps) (q ∷ qs) m = ground (arith, m.0, alive_from-Marks (k + 1) ps qs m.1)

pub length-Marks : (ps qs : List Player) → Marks ps qs → length qs ≡ length ps
length-Marks [] [] m = refl
length-Marks [] (q ∷ qs) m = absurd m
length-Marks (p ∷ ps) [] m = absurd m
length-Marks (p ∷ ps) (q ∷ qs) m = ap suc (length-Marks ps qs m.1)

get_elem?-All {ℓ κ} :
    {A : Type ℓ} (P : A → Type κ) (xs : List A) (i : ℕ) (x : A)
    → All P xs
    → get_elem? xs i ≡ some x
    → P x
get_elem?-All P [] i x h e = cc
get_elem?-All P (y ∷ xs) zero x h e = subst P (ground arith) (h.0)
get_elem?-All P (y ∷ xs) (suc i) x h e = get_elem?-All P xs i x h.1 e

last_of-All {κ} :
    (P : ℕ → Type κ) (xs : List ℕ)
    → All P xs
    → 0 < length xs
    → (x : ℕ) × (last_of xs ≡ some x) × P x
last_of-All P [] h n = elim n [ ]
last_of-All P (x ∷ []) h n = (x, refl, h.0)
last_of-All P (x ∷ y ∷ xs) h n = last_of-All P (y ∷ xs) h.1 (omega arith)

Marks-map_mark : (ps qs : List Player) → Marks ps qs → Marks ps (map mark qs)
Marks-map_mark [] [] m = tt
Marks-map_mark [] (q ∷ qs) m = absurd m
Marks-map_mark (p ∷ ps) [] m = absurd m
Marks-map_mark (p ∷ ps) (q ∷ qs) m = (ground (arith, m.0), Marks-map_mark ps qs m.1)

-- A game that is on ends with the last player but one.
abbrev pub ended : ℕ → GameState → GameState
ended alive s = if leb alive 1 && is_play s then game_over else s

pub record Settles (r r' : Room) : Type 0 where
  pub players : Marks r.players r'.players
  pub bombs : r'.bombs ≡ r.bombs
  pub client_count : r'.client_count ≡ r.client_count
  pub map : r'.map ≡ r.map
  pub state : r'.state ≡ ended (count is_alive r.players) r.state

announce_winner-Settles :
    (net : Net) (i : ℕ) (r : Room)
    → i < length r.players
    → count is_alive r.players ≤ 1
    → is_play r.state ≡ true
    → (r' : Room) × (announce_winner net i r ≡ some r') × Settles r r'
unfolding announce_winner
announce_winner-Settles net i r h few plays =
    let (w, e) = get_elem?-total r.players i h in
    let r1 = send_broadcast net (game_won w.username) r in
    let q = send_broadcast-Quiet net (game_won w.username) r in
    (
      record r1 { players = map mark r1.players; state = game_over },
      rw (e, announce_winner),
      record {
        players = Marks-map_mark r.players r1.players q.marks;
        bombs = q.bombs;
        client_count = q.client_count;
        map = q.map;
        state = ground arith;
      },
    )

Settles-refl : (r : Room) → ended (count is_alive r.players) r.state ≡ r.state → Settles r r
Settles-refl r e = record {
  players = Marks-refl r.players;
  bombs = refl;
  client_count = refl;
  map = refl;
  state = sym e;
}

-- An index into the players, from the list of those alive.
pick_alive :
    (ps : List Player) (pick : ℕ)
    → pick < count is_alive ps
    → (i : ℕ) × (get_elem? (alive_from 0 ps) pick ≡ some i) × (i < length ps)
pick_alive ps pick h =
    let (i, e) = get_elem?-total (alive_from 0 ps) pick (omega (arith, length-alive_from 0 ps)) in
    let inside =
      get_elem?-All (λ j. (0 ≤ j) × (j < 0 + length ps)) (alive_from 0 ps) pick i
        (alive_from-All 0 ps) e in
    (i, e, omega (arith, inside.1))

last_alive :
    (ps : List Player)
    → 0 < count is_alive ps
    → (i : ℕ) × (last_of (alive_from 0 ps) ≡ some i) × (i < length ps)
last_alive ps h =
    let (i, e, inside) =
      last_of-All (λ j. (0 ≤ j) × (j < 0 + length ps)) (alive_from 0 ps) (alive_from-All 0 ps)
        (omega (arith, length-alive_from 0 ps)) in
    (i, e, omega (arith, inside.1))

-- With the pick among the players who were alive, the end of the method is defined.
pub settle-Settles :
    (net : Net) (pick : ℕ) (before : List Player) (r : Room)
    → length r.players ≡ length before
    → pick < count is_alive before
    → (r' : Room) × (settle net pick (alive_from 0 before) r ≡ some r') × Settles r r'
unfolding settle
settle-Settles net pick before r same h =
    let n = length-alive_from 0 r.players in
    let (i, e, hi) = pick_alive before pick h in
    elim (Bool-cases ((length (alive_from 0 r.players) == 0) && is_play r.state)) [
      | inl none_left ↦
          rw (none_left, e, settle)
            (announce_winner-Settles net i r (omega arith) (ground arith) (ground arith))
      | inr some_left ↦
          elim (Bool-cases ((length (alive_from 0 r.players) == 1) && is_play r.state)) [
            | inl one_left ↦
                let (j, f, hj) = last_alive r.players (ground arith) in
                rw (some_left, one_left, f, settle)
                  (announce_winner-Settles net j r hj (ground arith) (ground arith))
            | inr more_left ↦
                rw (some_left, more_left, settle) (r, refl, Settles-refl r (ground arith))
          ]
    ]

-- If nobody is left alive and the pick is the number of players who were, the method reads past
-- the end of its list.
pub settle_past_end :
    (net : Net) (before : List Player) (r : Room)
    → count is_alive r.players ≡ 0
    → r.state ≡ play
    → settle net (count is_alive before) (alive_from 0 before) r ≡ none
unfolding settle
settle_past_end net before r dead plays =
    elim (Option-cases (get_elem? (alive_from 0 before) (count is_alive before))) [
      | inl e ↦ ground (arith, length-alive_from 0 r.players)
      | inr (i, e) ↦ absurd (
          omega (
            arith,
            get_elem?-lt (alive_from 0 before) (count is_alive before) {v = i} e,
            length-alive_from 0 before,
          ))
    ]
