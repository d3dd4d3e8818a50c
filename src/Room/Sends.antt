-- ===== src/Room/Sends.antt =====
-- Sending changes nothing of a room but its log and the marks of players who cannot be reached.
use boomberman.Base.{
  String, ◌==◌, ℕ, ◌≡◌, refl, ◌∙◌, ◌⊎◌, inl, inr, List, [], ◌∷◌, map, arith, Bool-cases, All,
}
use boomberman.Player.{Player}
use boomberman.Message.{Message, Net}
use boomberman.Room.{
  Room, update_player, mark, conns, send_specific, send_each, send_except, send_broadcast,
}

-- The same players in the same order, some of them marked since.
abbrev pub Marks : List Player → List Player → Type 0
Marks [] [] = Unit {0}
Marks [] (q ∷ qs) = ⊥
Marks (p ∷ ps) [] = ⊥
Marks (p ∷ ps) (q ∷ qs) = ((q ≡ p) ⊎ (q ≡ mark p)) × Marks ps qs

pub Marks-refl : (ps : List Player) → Marks ps ps
Marks-refl [] = tt
Marks-refl (p ∷ ps) = (inl refl, Marks-refl ps)

pub Marks-trans : (ps qs rs : List Player) → Marks ps qs → Marks qs rs → Marks ps rs
Marks-trans [] [] [] a b = tt
Marks-trans [] [] (r ∷ rs) a b = b
Marks-trans [] (q ∷ qs) rs a b = absurd a
Marks-trans (p ∷ ps) [] rs a b = absurd a
Marks-trans (p ∷ ps) (q ∷ qs) [] a b = b
Marks-trans (p ∷ ps) (q ∷ qs) (r ∷ rs) a b =
    (ground (arith, a.0, b.0), Marks-trans ps qs rs a.1 b.1)

pub Marks-mark : (c : ℕ) (ps : List Player) → Marks ps (update_player c mark ps)
unfolding update_player
Marks-mark c [] = tt
Marks-mark c (p ∷ ps) = elim (Bool-cases (p.conn == c)) [
  | inl e ↦ rw e (inr refl, Marks-refl ps)
  | inr e ↦ rw e (inl refl, Marks-mark c ps)
]

-- What a mark does not change of the players is not changed.
pub All-Marks {ℓ} :
    (P : Player → Type ℓ)
    → ((p : Player) → P p → P (mark p))
    → (ps qs : List Player) → Marks ps qs
    → All P ps
    → All P qs
All-Marks P f [] [] m h = tt
All-Marks P f [] (q ∷ qs) m h = absurd m
All-Marks P f (p ∷ ps) [] m h = absurd m
All-Marks P f (p ∷ ps) (q ∷ qs) m h =
    (elim (m.0) [ inl e ↦ rw e (h.0) | inr e ↦ rw e (f p h.0) ], All-Marks P f ps qs m.1 h.1)

pub map-Marks {ℓ} :
    {B : Type ℓ} (f : Player → B)
    → ((p : Player) → f (mark p) ≡ f p)
    → (ps qs : List Player) → Marks ps qs
    → map f qs ≡ map f ps
map-Marks f k [] [] m = refl
map-Marks f k [] (q ∷ qs) m = absurd m
map-Marks f k (p ∷ ps) [] m = absurd m
map-Marks f k (p ∷ ps) (q ∷ qs) m = ground (arith, m.0, k p, map-Marks f k ps qs m.1)

pub conns-Marks : (ps qs : List Player) → Marks ps qs → conns qs ≡ conns ps
conns-Marks ps qs m = map-Marks (λ p. p.conn) (λ p. refl) ps qs m

abbrev pub names : List Player → List String
names ps = map (λ p. p.username) ps

pub names-Marks : (ps qs : List Player) → Marks ps qs → names qs ≡ names ps
names-Marks ps qs m = map-Marks (λ p. p.username) (λ p. refl) ps qs m

-- `r'` is `r` after some sends.
pub record Quiet (r r' : Room) : Type 0 where
  pub marks : Marks r.players r'.players
  pub bombs : r'.bombs ≡ r.bombs
  pub state : r'.state ≡ r.state
  pub client_count : r'.client_count ≡ r.client_count
  pub map : r'.map ≡ r.map

pub Quiet-refl : (r : Room) → Quiet r r
Quiet-refl r = record {
  marks = Marks-refl r.players;
  bombs = refl;
  state = refl;
  client_count = refl;
  map = refl;
}

pub Quiet-trans : {a b c : Room} → Quiet a b → Quiet b c → Quiet a c
Quiet-trans {a} {b} {c} p q = record {
  marks = Marks-trans a.players b.players c.players p.marks q.marks;
  bombs = q.bombs ∙ p.bombs;
  state = q.state ∙ p.state;
  client_count = q.client_count ∙ p.client_count;
  map = q.map ∙ p.map;
}

pub send_specific-Quiet :
    (net : Net) (c : ℕ) (m : Message) (r : Room) → Quiet r (send_specific net c m r)
unfolding send_specific
send_specific-Quiet net c m r = elim (Bool-cases (net.answers r.log c)) [
  | inl e ↦ rw e (record {
    marks = Marks-refl r.players;
    bombs = refl;
    state = refl;
    client_count = refl;
    map = refl;
  })
  | inr e ↦ rw e (record {
    marks = Marks-mark c r.players;
    bombs = refl;
    state = refl;
    client_count = refl;
    map = refl;
  })
]

pub send_each-Quiet :
    (net : Net) (cs : List ℕ) (m : Message) (r : Room) → Quiet r (send_each net cs m r)
unfolding send_each
send_each-Quiet net [] m r = Quiet-refl r
send_each-Quiet net (c ∷ cs) m r =
    Quiet-trans (send_specific-Quiet net c m r) (send_each-Quiet net cs m _)

pub send_except-Quiet :
    (net : Net) (c : ℕ) (m : Message) (r : Room) → Quiet r (send_except net c m r)
unfolding send_except
send_except-Quiet net c m r = send_each-Quiet net _ m r

pub send_broadcast-Quiet : (net : Net) (m : Message) (r : Room) → Quiet r (send_broadcast net m r)
unfolding send_broadcast
send_broadcast-Quiet net m r = send_each-Quiet net _ m r
