-- ===== src/Room/Players.antt =====
-- Looking up and writing one player of a room.
use boomberman.Room.Sends.{names, Marks}
use boomberman.Base.{
  ◌⊎◌, ==_refl, ne→==, sym, map, none, ◌∙◌, ℕ, ◌≡◌, refl, ap, subst, inl, inr, some, List, [], ◌∷◌,
  arith, ◌==◌, Bool-cases, length, All,
}
use boomberman.Player.{Player}
use boomberman.Room.{mark, Room, find_player, update_player, conns}
use boomberman.Room.Invariant.{Distinct, IsFresh, IsWellFormed, IsSound}

-- A player found is one of the players, with the connection asked for.
pub find_player-conn :
    (c : ℕ) (ps : List Player) (p : Player) → find_player c ps ≡ some p → p.conn ≡ c
unfolding find_player
find_player-conn c [] p e = cc
find_player-conn c (q ∷ ps) p e = ground (arith, find_player-conn c ps p)

pub find_player-All {ℓ} :
    (P : Player → Type ℓ) (c : ℕ) (ps : List Player) (p : Player)
    → All P ps
    → find_player c ps ≡ some p
    → P p
unfolding find_player
find_player-All P c [] p h e = cc
find_player-All P c (q ∷ ps) p h e = elim (Bool-cases (q.conn == c)) [
  | inl k ↦ subst P (ground arith) (h.0)
  | inr k ↦ find_player-All P c ps p h.1 (ground arith)
]

-- A write that keeps the connection keeps the connections.
pub conns-update_player :
    (c : ℕ) (f : Player → Player) (ps : List Player)
    → ((p : Player) → p.conn ≡ c → (f p).conn ≡ c)
    → conns (update_player c f ps) ≡ conns ps
unfolding update_player
conns-update_player c f [] k = refl
conns-update_player c f (p ∷ ps) k = ground (arith, k p, conns-update_player c f ps k)

pub names-update_player :
    (c : ℕ) (f : Player → Player) (ps : List Player)
    → ((p : Player) → (f p).username ≡ p.username)
    → names (update_player c f ps) ≡ names ps
unfolding update_player
names-update_player c f [] k = refl
names-update_player c f (p ∷ ps) k = ground (arith, k p, names-update_player c f ps k)

-- The player found is written under his own name.
pub names-update_found :
    (c : ℕ) (p q : Player) (ps : List Player)
    → find_player c ps ≡ some p
    → q.username ≡ p.username
    → names (update_player c (λ _. q) ps) ≡ names ps
unfolding find_player update_player
names-update_found c p q [] e k = refl
names-update_found c p q (o ∷ ps) e k = elim (Bool-cases (o.conn == c)) [
  | inl h ↦
      let same : o ≡ p = ground (arith, h, e) in
      rw h (ap (λ z. z ∷ names ps) (k ∙ ap (λ (z : Player). z.username) (sym same)))
  | inr h ↦ rw h (ap (λ z. o.username ∷ z) (names-update_found c p q ps (ground (arith, h, e)) k))
]

pub All-update_player {ℓ} :
    (P : Player → Type ℓ) (c : ℕ) (f : Player → Player) (ps : List Player)
    → ((p : Player) → P p → P (f p))
    → All P ps
    → All P (update_player c f ps)
unfolding update_player
All-update_player P c f [] k h = tt
All-update_player P c f (p ∷ ps) k h = elim (Bool-cases (p.conn == c)) [
  | inl e ↦ rw e (k p h.0, h.1)
  | inr e ↦ rw e (h.0, All-update_player P c f ps k h.1)
]

pub length-update_player :
    (c : ℕ) (f : Player → Player) (ps : List Player) → length (update_player c f ps) ≡ length ps
unfolding update_player
length-update_player c f [] = refl
length-update_player c f (p ∷ ps) = ground (arith, length-update_player c f ps)

-- Two writes that agree on the player found are one.
pub update_player-congr :
    (c : ℕ) (f g : Player → Player) (ps : List Player) (p : Player)
    → find_player c ps ≡ some p
    → f p ≡ g p
    → update_player c f ps ≡ update_player c g ps
unfolding find_player update_player
update_player-congr c f g [] p e k = refl
update_player-congr c f g (q ∷ ps) p e k = elim (Bool-cases (q.conn == c)) [
  | inl h ↦
      let same : q ≡ p = ground arith in rw h (ap (λ z. z ∷ ps) (ap f same ∙ k ∙ ap g (sym same)))
  | inr h ↦ rw h (ap (λ z. q ∷ z) (update_player-congr c f g ps p (ground arith) k))
]

pub update_player-missing :
    (c : ℕ) (f : Player → Player) (ps : List Player)
    → find_player c ps ≡ none
    → update_player c f ps ≡ ps
unfolding find_player update_player
update_player-missing c f [] e = refl
update_player-missing c f (q ∷ ps) e = ground (arith, update_player-missing c f ps)

pub update_player-id : (c : ℕ) (ps : List Player) → update_player c (λ p. p) ps ≡ ps
unfolding update_player
update_player-id c [] = refl
update_player-id c (q ∷ ps) = ground (arith, update_player-id c ps)

pub update_player-update_player :
    (c : ℕ) (f g : Player → Player) (ps : List Player)
    → ((p : Player) → (f p).conn ≡ p.conn)
    → update_player c g (update_player c f ps) ≡ update_player c (λ p. g (f p)) ps
unfolding update_player
update_player-update_player c f g [] k = refl
update_player-update_player c f g (q ∷ ps) k =
    ground (arith, k q, update_player-update_player c f g ps k)

-- A write that does not look at marks may come before or after they are set.
pub Marks-update_player :
    (c : ℕ) (f : Player → Player) (ps qs : List Player)
    → ((p : Player) → f (mark p) ≡ mark (f p))
    → Marks ps qs
    → Marks (update_player c f ps) (update_player c f qs)
unfolding update_player
Marks-update_player c f [] [] k m = tt
Marks-update_player c f [] (q ∷ qs) k m = absurd m
Marks-update_player c f (p ∷ ps) [] k m = absurd m
Marks-update_player c f (p ∷ ps) (q ∷ qs) k m =
    let same : q.conn ≡ p.conn = ground (arith, m.0) in
    let head : (f q ≡ f p) ⊎ (f q ≡ mark (f p)) = ground (arith, m.0, k p) in
    elim (Bool-cases (p.conn == c)) [
      | inl h ↦ rw (h, ap (λ (z : ℕ). z == c) same ∙ h) (head, m.1)
      | inr h ↦ rw (h, ap (λ (z : ℕ). z == c) same ∙ h) (m.0, Marks-update_player c f ps qs k m.1)
    ]

-- Who is written is found.
pub find_player-update_player :
    (c : ℕ) (q : Player) (ps : List Player) (p : Player)
    → q.conn ≡ c
    → find_player c ps ≡ some p
    → find_player c (update_player c (λ _. q) ps) ≡ some q
unfolding find_player update_player
find_player-update_player c q [] p k e = cc
find_player-update_player c q (o ∷ ps) p k e = elim (Bool-cases (o.conn == c)) [
  | inl h ↦ rw (h, k, ==_refl c) refl
  | inr h ↦ rw (h, h) (find_player-update_player c q ps p k (ground (arith, h, e)))
]

-- After marks the same player is found, if need be marked.
pub find_player-Marks :
    (c : ℕ) (ps qs : List Player) (p : Player)
    → Marks ps qs
    → find_player c ps ≡ some p
    → (q : Player) × (find_player c qs ≡ some q) × ((q ≡ p) ⊎ (q ≡ mark p))
unfolding find_player
find_player-Marks c [] qs p m e = cc
find_player-Marks c (o ∷ ps) [] p m e = absurd m
find_player-Marks c (o ∷ ps) (q ∷ qs) p m e =
    let same : q.conn ≡ o.conn = ground (arith, m.0) in
    elim (Bool-cases (o.conn == c)) [
      | inl h ↦ (q, rw (ap (λ (z : ℕ). z == c) same ∙ h) refl, ground (arith, m.0, e, h))
      | inr h ↦
          let (q', found, is) = find_player-Marks c ps qs p m.1 (ground (arith, e, h)) in
          (q', rw (ap (λ (z : ℕ). z == c) same ∙ h) found, is)
    ]

-- One write for each of some connections.
unfoldable pub update_each : List ℕ → (Player → Player) → List Player → List Player
update_each [] f ps = ps
update_each (c ∷ cs) f ps = update_each cs f (update_player c f ps)

update_each-skip :
    (cs : List ℕ) (f : Player → Player) (p : Player) (ps : List Player)
    → IsFresh p.conn cs
    → update_each cs f (p ∷ ps) ≡ p ∷ update_each cs f ps
unfolding update_each update_player
update_each-skip [] f p ps h = refl
update_each-skip (c ∷ cs) f p ps h =
    rw (ne→== p.conn c (h.0)) (update_each-skip cs f p (update_player c f ps) h.1)

-- For the connections of all players, no two the same, they are a map.
pub update_each-map :
    (f : Player → Player) (ps : List Player)
    → ((p : Player) → (f p).conn ≡ p.conn)
    → Distinct (conns ps)
    → update_each (conns ps) f ps ≡ map f ps
unfolding update_each update_player
update_each-map f [] k d = refl
update_each-map f (p ∷ ps) k d =
    rw (==_refl p.conn, update_each)
      (update_each-skip (conns ps) f (f p) ps (rw (k p) (d.0))
        ∙ ap (λ z. f p ∷ z) (update_each-map f ps k d.1))

-- A write to one player that keeps him sound and his connection keeps the room well formed.
pub update_player-IsWellFormed :
    (c : ℕ) (f : Player → Player) (r : Room)
    → ((p : Player) → p.conn ≡ c → (f p).conn ≡ c)
    → ((p : Player) → IsSound p → IsSound (f p))
    → IsWellFormed r
    → IsWellFormed (record r { players = update_player c f r.players })
update_player-IsWellFormed c f r kc ks w = record {
  distinct = rw (conns-update_player c f r.players kc) (w.distinct);
  counted = omega (arith, length-update_player c f r.players, w.counted);
  capped = w.capped;
  waiting = w.waiting;
  arena = w.arena;
  sound = All-update_player IsSound c f r.players ks w.sound;
}
