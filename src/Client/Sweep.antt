-- ===== src/Client/Sweep.antt =====
-- What a client follows of `Room::DisconnectPlayers`. While players are let go, the room still has them in its vector:
-- the client mirrors those who are left.
use boomberman.Client.Follow.{Follows}
use boomberman.Client.Mirror.{Mirrors}
use boomberman.Room.Invariant.{Distinct}
use boomberman.Client.Inbox.{inbox-send_except, inbox}
use boomberman.Room.Disconnect.Loop.{member}
use boomberman.Room.Sends.{Marks}
use boomberman.Client.Names.{IsUnused, DistinctNames}
use boomberman.Player.{Player}
use boomberman.Message.{Message, Net}
use boomberman.Client.Handler.{handle_game_message, Game, handle_game_messages}
use boomberman.Room.Disconnect.{erase_players, erase_player, Sweep}
use boomberman.Room.{conns, send_except, Room, find_player}
use boomberman.Base.{
  sym, some, true, ◌∙◌, ap, inr, inl, refl, arith, Bool-cases, false, [], ◌≡◌, ◌∷◌, ◌++◌, ◌==◌,
  String, List, ℕ,
}

-- The players that the sweep has not let go.
abbrev pub left_of : Sweep → List Player
left_of s = erase_players s.sockets_to_delete s.room.players

-- The room with those players only.
abbrev pub left_room : Sweep → Room
left_room s = record (s.room) { players = left_of s }

pub erase_players-append :
    (cs : List ℕ) (c : ℕ) (ps : List Player)
    → erase_players (cs ++ c ∷ []) ps ≡ erase_player c (erase_players cs ps)
unfolding erase_players
erase_players-append [] c ps = refl
erase_players-append (d ∷ cs) c ps = erase_players-append cs c (erase_player d ps)

pub Marks-erase_player :
    (c : ℕ) (ps qs : List Player) → Marks ps qs → Marks (erase_player c ps) (erase_player c qs)
unfolding erase_player
Marks-erase_player c [] [] m = tt
Marks-erase_player c [] (q ∷ qs) m = absurd m
Marks-erase_player c (p ∷ ps) [] m = absurd m
Marks-erase_player c (p ∷ ps) (q ∷ qs) m =
    let same : q.conn ≡ p.conn = ground (arith, m.0) in
    elim (Bool-cases (p.conn == c)) [
      | inl e ↦ rw (e, ap (λ (z : ℕ). z == c) same ∙ e) (m.1)
      | inr e ↦ rw (e, ap (λ (z : ℕ). z == c) same ∙ e) (m.0, Marks-erase_player c ps qs m.1)
    ]

pub Marks-erase_players :
    (cs : List ℕ) (ps qs : List Player)
    → Marks ps qs
    → Marks (erase_players cs ps) (erase_players cs qs)
unfolding erase_players
Marks-erase_players [] ps qs m = m
Marks-erase_players (c ∷ cs) ps qs m = Marks-erase_players cs _ _ (Marks-erase_player c ps qs m)

IsUnused-erase_player :
    (u : String) (c : ℕ) (ps : List Player)
    → IsUnused (λ p. p.username) u ps
    → IsUnused (λ p. p.username) u (erase_player c ps)
unfolding erase_player
IsUnused-erase_player u c [] h = tt
IsUnused-erase_player u c (p ∷ ps) h = elim (Bool-cases (p.conn == c)) [
  | inl e ↦ rw e (h.1)
  | inr e ↦ rw e (h.0, IsUnused-erase_player u c ps h.1)
]

pub DistinctNames-erase_player :
    (c : ℕ) (ps : List Player)
    → DistinctNames (λ p. p.username) ps
    → DistinctNames (λ p. p.username) (erase_player c ps)
unfolding erase_player
DistinctNames-erase_player c [] h = tt
DistinctNames-erase_player c (p ∷ ps) h = elim (Bool-cases (p.conn == c)) [
  | inl e ↦ rw e (h.1)
  | inr e ↦ rw e (IsUnused-erase_player p.username c ps h.0, DistinctNames-erase_player c ps h.1)
]

pub DistinctNames-erase_players :
    (cs : List ℕ) (ps : List Player)
    → DistinctNames (λ p. p.username) ps
    → DistinctNames (λ p. p.username) (erase_players cs ps)
unfolding erase_players
DistinctNames-erase_players [] ps h = h
DistinctNames-erase_players (c ∷ cs) ps h =
    DistinctNames-erase_players cs (erase_player c ps) (DistinctNames-erase_player c ps h)

find_player-erase_player :
    (c d : ℕ) (ps : List Player)
    → (c == d) ≡ false
    → find_player c (erase_player d ps) ≡ find_player c ps
unfolding find_player erase_player
find_player-erase_player c d [] n = refl
find_player-erase_player c d (p ∷ ps) n = elim (Bool-cases (p.conn == d)) [
  | inl e ↦ let miss : (p.conn == c) ≡ false = ground (arith, e, n) in rw (e, miss) refl
  | inr e ↦ elim (Bool-cases (p.conn == c)) [
    | inl k ↦ rw (e, k) refl
    | inr k ↦ rw (e, k) (find_player-erase_player c d ps n)
  ]
]

pub find_player-erase_players :
    (c : ℕ) (cs : List ℕ) (ps : List Player)
    → member c cs ≡ false
    → find_player c (erase_players cs ps) ≡ find_player c ps
unfolding erase_players
find_player-erase_players c [] ps n = refl
find_player-erase_players c (d ∷ cs) ps n =
    find_player-erase_players c cs (erase_player d ps) (ground (arith, n))
    ∙ find_player-erase_player c d ps (ground (arith, n))

-- One message to all but somebody else, between rooms whose logs are those before and after it.
pub except-Follows :
    (net : Net) (d c : ℕ) (m : Message) (r0 a b : Room) (g g' : Game)
    → (c == d) ≡ false
    → a.log ≡ r0.log
    → inbox d b.log ≡ inbox d (send_except net c m r0).log
    → Distinct (conns r0.players)
    → member d (conns r0.players) ≡ true
    → handle_game_message m g ≡ some g'
    → Mirrors b.players g'.eh.players
    → Follows d a b g
unfolding handle_game_messages
except-Follows net d c m r0 a b g g' other before after u here done mirrors = record {
  news = m ∷ [];
  after = g';
  sent_news =
      after
      ∙ inbox-send_except net d c m r0 other u here
      ∙ ap (λ log. inbox d log ++ m ∷ []) (sym before);
  handled = rw (handle_game_messages, done) refl;
  mirrors = mirrors;
}
