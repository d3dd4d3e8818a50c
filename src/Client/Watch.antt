-- ===== src/Client/Watch.antt =====
-- Following a room through several sends.
use text.Mathlib.Text.{◌==◌ as str_eq}
use boomberman.Room.Sends.{
  names-Marks, names, conns-Marks, send_broadcast-Quiet, Marks, send_each-Quiet,
}
use mathlib.Core.List.{append_assoc}
use boomberman.Client.Inbox.{copies-member, inbox, inbox-send_each}
use boomberman.Room.Disconnect.Loop.{member}
use boomberman.Client.Mirror.{Mirrors}
use boomberman.Client.Names.{DistinctNames}
use boomberman.Room.Invariant.{Distinct}
use boomberman.Client.Follow.{Mirrors-Marks, Follows}
use boomberman.Player.{Player}
use boomberman.Message.{Message, Net}
use boomberman.Client.Handler.{handle_game_message, Game, handle_game_messages}
use boomberman.Room.{mark, conns, send_broadcast, Room}
use boomberman.Base.{
  subst, All, false, none, Option, sym, inr, true, refl, inl, arith, ◌∙◌, ap, [], Option-cases,
  some, ◌∷◌, ◌++◌, ◌≡◌, map, List, String, ℕ,
}

-- A client's player is in the room, and no two players share a connection or a name.
pub record IsWatched (d : ℕ) (ps : List Player) : Type 0 where
  pub distinct : Distinct (conns ps)
  pub named : DistinctNames (λ p. p.username) ps
  pub here : member d (conns ps) ≡ true

-- What holds of all names.
pub names-All :
    (P : String → Type 0) (ps qs : List Player)
    → names qs ≡ names ps
    → All (λ p. P p.username) ps
    → All (λ p. P p.username) qs
names-All P [] [] e h = tt
names-All P [] (q ∷ qs) e h = cc
names-All P (p ∷ ps) [] e h = cc
names-All P (p ∷ ps) (q ∷ qs) e h =
    let first : q.username ≡ p.username = cc in
    let others : names qs ≡ names ps = cc in
    (subst P (sym first) (h.0), names-All P ps qs others (h.1))

pub names-DistinctNames :
    (ps qs : List Player)
    → names qs ≡ names ps
    → DistinctNames (λ p. p.username) ps
    → DistinctNames (λ p. p.username) qs
names-DistinctNames [] [] e h = tt
names-DistinctNames [] (q ∷ qs) e h = cc
names-DistinctNames (p ∷ ps) [] e h = cc
names-DistinctNames (p ∷ ps) (q ∷ qs) e h =
    let first : q.username ≡ p.username = cc in
    let others : names qs ≡ names ps = cc in
    (
      rw first (names-All (λ n. str_eq n p.username ≡ false) ps qs others (h.0)),
      names-DistinctNames ps qs others (h.1),
    )

pub IsWatched-same :
    (d : ℕ) (ps qs : List Player)
    → conns qs ≡ conns ps
    → names qs ≡ names ps
    → IsWatched d ps
    → IsWatched d qs
IsWatched-same d ps qs e k w = record {
  distinct = rw e (w.distinct);
  named = names-DistinctNames ps qs k w.named;
  here = rw e (w.here);
}

pub handle_game_messages-append :
    (ms ns : List Message) (g g' : Game)
    → handle_game_messages ms g ≡ some g'
    → handle_game_messages (ms ++ ns) g ≡ handle_game_messages ns g'
unfolding handle_game_messages
handle_game_messages-append [] ns g g' e = ap (handle_game_messages ns) (ground (arith, e))
handle_game_messages-append (m ∷ ms) ns g g' e = elim (Option-cases (handle_game_message m g)) [
  | inl k ↦ absurd (ground (arith, e, k))
  | inr (g1, k) ↦
      rw (handle_game_messages, k)
        (handle_game_messages-append ms ns g1 g' (sym (rw (handle_game_messages, k) refl) ∙ e))
]

pub Follows-trans :
    {d : ℕ} {a b c : Room} {g : Game} (f : Follows d a b g)
    → Follows d b c f.after
    → Follows d a c g
Follows-trans {d} {a} {b} {c} {g} f h = record {
  news = f.news ++ h.news;
  after = h.after;
  sent_news =
      h.sent_news
      ∙ ap (λ ms. ms ++ h.news) f.sent_news
      ∙ append_assoc (inbox d a.log) f.news h.news;
  handled = handle_game_messages-append f.news h.news g f.after f.handled ∙ h.handled;
  mirrors = h.mirrors;
}

-- A message to all.
pub Follows-broadcast :
    (net : Net) (d : ℕ) (m : Message) (r r0 : Room) (g g' : Game)
    → r0.log ≡ r.log
    → IsWatched d r0.players
    → handle_game_message m g ≡ some g'
    → Mirrors r0.players g'.eh.players
    → Follows d r (send_broadcast net m r0) g
unfolding send_broadcast handle_game_messages
Follows-broadcast net d m r r0 g g' same w done mirrors = record {
  news = m ∷ [];
  after = g';
  sent_news =
      inbox-send_each net d (conns r0.players) m r0
      ∙ ap (λ ms. inbox d r0.log ++ ms) (copies-member d m (conns r0.players) w.distinct w.here)
      ∙ ap (λ log. inbox d log ++ m ∷ []) same;
  handled = rw (handle_game_messages, done) refl;
  mirrors = Mirrors-Marks mirrors (send_each-Quiet net (conns r0.players) m r0).marks;
}

-- A client that follows while the players stay who they are.
pub record Watches (d : ℕ) (r r' : Room) (g : Game) : Type 0 where
  pub follows : Follows d r r' g
  pub watched : IsWatched d r'.players

pub Marks-IsWatched : (d : ℕ) (ps qs : List Player) → Marks ps qs → IsWatched d ps → IsWatched d qs
Marks-IsWatched d ps qs m w = IsWatched-same d ps qs (conns-Marks ps qs m) (names-Marks ps qs m) w

pub broadcast-Watches :
    (net : Net) (d : ℕ) (m : Message) (r r0 : Room) (g g' : Game)
    → r0.log ≡ r.log
    → IsWatched d r0.players
    → handle_game_message m g ≡ some g'
    → Mirrors r0.players g'.eh.players
    → Watches d r (send_broadcast net m r0) g
broadcast-Watches net d m r r0 g g' same w done mirrors = record {
  follows = Follows-broadcast net d m r r0 g g' same w done mirrors;
  watched = Marks-IsWatched d r0.players _ (send_broadcast-Quiet net m r0).marks w;
}

pub Watches-trans :
    {d : ℕ} {a b c : Room} {g : Game} (f : Watches d a b g)
    → Watches d b c f.follows.after
    → Watches d a c g
Watches-trans f h = record { follows = Follows-trans f.follows h.follows; watched = h.watched }

-- What counts of the room before is its log.
pub Watches-log :
    {d : ℕ} {a a' b : Room} {g : Game} → a'.log ≡ a.log → Watches d a' b g → Watches d a b g
Watches-log {d} {a} {a'} {b} {g} e h = record {
  follows = record {
    news = h.follows.news;
    after = h.follows.after;
    sent_news = h.follows.sent_news ∙ ap (λ log. inbox d log ++ h.follows.news) e;
    handled = h.follows.handled;
    mirrors = h.follows.mirrors;
  };
  watched = h.watched;
}

-- Whatever comes out, if anything does, is followed.
abbrev pub AnyWatches : ℕ → Room → Game → Option Room → Type 0
AnyWatches d r g none = Unit {0}
AnyWatches d r g (some r') = Watches d r r' g

pub AnyWatches-trans :
    {d : ℕ} {a b : Room} {g : Game} (o : Option Room) (f : Watches d a b g)
    → AnyWatches d b f.follows.after o
    → AnyWatches d a g o
AnyWatches-trans none f h = tt
AnyWatches-trans (some c) f h = Watches-trans f h

pub AnyWatches-log :
    (d : ℕ) (a a' : Room) (g : Game) (o : Option Room)
    → a'.log ≡ a.log
    → AnyWatches d a' g o
    → AnyWatches d a g o
AnyWatches-log d a a' g none e h = tt
AnyWatches-log d a a' g (some b) e h = Watches-log e h

pub Marks-all : (ps : List Player) → Marks ps (map mark ps)
Marks-all [] = tt
Marks-all (p ∷ ps) = (inr refl, Marks-all ps)
