-- ===== src/Client/Follow.antt =====
-- From the room to the client: whatever message a room handles, the client of another player follows it by the messages
-- that it is sent.
use mathlib.Core.List.{append-nil}
use boomberman.Room.Handle.{mark_first}
use boomberman.Room.Disconnect.Loop.{member}
use boomberman.Client.Mirror.{server_view-found, Mirrors}
use boomberman.Client.Names.{server_view-update_player, view_of, server_view, DistinctNames}
use boomberman.Client.{place_bomb, Boomberman}
use boomberman.Room.Sends.{Marks-refl, send_except-Quiet, send_specific-Quiet, Marks}
use boomberman.Room.Invariant.{Distinct}
use boomberman.Client.Inbox.{inbox-send_except, inbox-other, inbox}
use boomberman.Player.{Player}
use boomberman.Room.{update_player, mark, find_player, send_except, send_specific, conns, Room}
use boomberman.Message.{Float, Message, Net}
use boomberman.Client.Handler.{other_placed_bomb, handle_game_message, Game, handle_game_messages}
use text.Mathlib.Text.{◌==◌ as str_eq}
use boomberman.Base.{
  if◌then◌else◌, ◌⊎◌, none, Bool-cases, inr, ap, refl, inl, ◌∷◌, some, true, sym, ◌++◌, ◌∙◌, [],
  false, All, ◌≡◌, ◌==◌, String, List, ℕ,
}

-- The messages sent to a socket meanwhile take a client from mirroring the room before to mirroring it after.
pub record Follows (d : ℕ) (r r' : Room) (g : Game) : Type 0 where
  pub news : List Message
  pub after : Game
  pub sent_news : inbox d r'.log ≡ inbox d r.log ++ news
  pub handled : handle_game_messages news g ≡ some after
  pub mirrors : Mirrors r'.players after.eh.players

-- The players have names of their own, none of them empty, which no two share.
pub record AreNamed (ps : List Player) : Type 0 where
  pub distinct : DistinctNames (λ p. p.username) ps
  pub nonempty : All (λ p. str_eq p.username "" ≡ false) ps

pub server_view-Marks :
    (u : String) (ps qs : List Player) → Marks ps qs → server_view u qs ≡ server_view u ps
server_view-Marks u [] [] m = refl
server_view-Marks u [] (q ∷ qs) m = absurd m
server_view-Marks u (p ∷ ps) [] m = absurd m
server_view-Marks u (p ∷ ps) (q ∷ qs) m = elim (m.0) [
  | inl e ↦ rw (e, server_view-Marks u ps qs (m.1)) refl
  | inr e ↦ rw (e, server_view-Marks u ps qs (m.1)) refl
]

pub Mirrors-views :
    {ps ps' : List Player} {bs : List Boomberman}
    → Mirrors ps bs
    → ((u : String) → server_view u ps' ≡ server_view u ps)
    → Mirrors ps' bs
Mirrors-views m k = record { distinct = m.distinct; same = λ u. m.same u ∙ sym (k u) }

pub Mirrors-Marks :
    {ps ps' : List Player} {bs : List Boomberman} → Mirrors ps bs → Marks ps ps' → Mirrors ps' bs
Mirrors-Marks {ps} {ps'} m k = Mirrors-views m (λ u. server_view-Marks u ps ps' k)

-- No news, and nothing to be seen.
pub Follows-quiet :
    {d : ℕ} {r r' : Room} {g : Game}
    → inbox d r'.log ≡ inbox d r.log
    → ((u : String) → server_view u r'.players ≡ server_view u r.players)
    → Mirrors r.players g.eh.players
    → Follows d r r' g
unfolding handle_game_messages
Follows-quiet {d} {r} {r'} {g} e k m = record {
  news = [];
  after = g;
  sent_news = e ∙ sym (append-nil (inbox d r.log));
  handled = refl;
  mirrors = Mirrors-views m k;
}

-- A reply to somebody else, after a change that cannot be seen.
pub Follows-reply :
    (net : Net) (d c : ℕ) (m : Message) (r r0 : Room) (g : Game)
    → (c == d) ≡ false
    → r0.log ≡ r.log
    → ((u : String) → server_view u r0.players ≡ server_view u r.players)
    → Mirrors r.players g.eh.players
    → Follows d r (send_specific net c m r0) g
Follows-reply net d c m r r0 g other same k mirrors =
    Follows-quiet (inbox-other net d c m r0 other ∙ ap (inbox d) same)
      (λ u. server_view-Marks u r0.players _ (send_specific-Quiet net c m r0).marks ∙ k u) mirrors

-- One message to all but its author.
pub Follows-news :
    (net : Net) (d c : ℕ) (m : Message) (r r0 : Room) (g g' : Game)
    → (c == d) ≡ false
    → r0.log ≡ r.log
    → Distinct (conns r0.players)
    → member d (conns r0.players) ≡ true
    → handle_game_message m g ≡ some g'
    → Mirrors r0.players g'.eh.players
    → Follows d r (send_except net c m r0) g
unfolding handle_game_messages
Follows-news net d c m r r0 g g' other same u here done mirrors = record {
  news = m ∷ [];
  after = g';
  sent_news = inbox-send_except net d c m r0 other u here ∙ ap (λ log. inbox d log ++ m ∷ []) same;
  handled = rw (handle_game_messages, done) refl;
  mirrors = Mirrors-Marks mirrors (send_except-Quiet net c m r0).marks;
}

pub mark_first-Marks :
    (ps : List Player)
    → (mark_first ps ≡ none) ⊎ ((qs : List Player) × (mark_first ps ≡ some qs) × Marks ps qs)
mark_first-Marks [] = inl refl
mark_first-Marks (p ∷ ps) = inr (mark p ∷ ps, refl, (inr refl, Marks-refl ps))

pub other_placed_bomb-players :
    (u : String) (timestamp : ℕ) (x y : Float) (g : Game)
    → (other_placed_bomb u timestamp x y g).eh.players ≡ g.eh.players
unfolding other_placed_bomb place_bomb
other_placed_bomb-players u timestamp x y g = elim (Bool-cases (str_eq u "Server")) [
  | inl e ↦ rw e refl
  | inr e ↦ rw e refl
]

-- A player who is where he was.
pub stays :
    (u : String) (p q : Player) (ps : List Player)
    → find_player p.conn ps ≡ some p
    → q.username ≡ p.username
    → q.coords ≡ p.coords
    → q.lives_remaining ≡ p.lives_remaining
    → DistinctNames (λ r. r.username) ps
    → server_view u (update_player p.conn (λ _. q) ps) ≡ server_view u ps
stays u p q ps there name place lives d =
    let same : view_of q ≡ view_of p = rw (place, lives) refl in
    server_view-update_player u p.conn (λ _. q) ps p there name d
    ∙ ap (λ v. if str_eq p.username u then v else server_view u ps) same
    ∙ sym (server_view-found u p.conn ps p there d)
