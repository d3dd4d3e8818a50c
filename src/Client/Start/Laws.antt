-- ===== src/Client/Start/Laws.antt =====
-- Which messages bring a client from the menus into a game: `Client::Run` of game/src/client/Client.cpp before its loop.
use boomberman.Connection.Receive.{cons-ne}
use boomberman.Client.Start.{
  new_game, begin_game, returns, menu, connect_to_server, Visit, Frame, ends, ready, Rectangle,
  Vector2, Ready, undefined, start_run, Started,
}
use mathlib.Core.List.{append_assoc, append-nil}
use boomberman.Base.{
  inr, inl, List-cases, true, Bool, ℕ, none, ◌∙◌, refl, ap, All, ◌++◌, map, String, sym, ◌≡◌, List,
  ◌∷◌, some, [],
}
use boomberman.Client.Handler.{join_all, add_player, handle_lobby_msg, wait_for_game, waits, Game}
use boomberman.Client.{Boomberman, new_boomberman}
use boomberman.Message.{
  error, get_room_list, join_room, i_place_bomb, i_move, i_leave, room_list, welcome_to_room,
  game_join, game_start, other_bomb_place, got_hit, other_move, other_leave, game_won,
  movement_correction, Message, PlayerInfo,
}

-- The players that a message tells of.
abbrev pub told : Message → List PlayerInfo
told (welcome_to_room ps) = ps
told (game_join p) = p ∷ []
told _ = []

abbrev pub all_told : List Message → List PlayerInfo
all_told [] = []
all_told (m ∷ ms) = told m ++ all_told ms

-- A message that neither starts the game nor is an error.
abbrev pub IsWait : Message → Type 0
IsWait game_start = ⊥
IsWait (error e) = ⊥
IsWait _ = Unit

abbrev pub names_of : List Boomberman → List String
names_of bs = map (λ b. b.pseudonim) bs

abbrev pub usernames : List PlayerInfo → List String
usernames ps = map (λ p. p.username) ps

map-append : {A B : Type 0} → (f : A → B) (xs ys : List A) → map f (xs ++ ys) ≡ map f xs ++ map f ys
map-append f [] ys = refl
map-append f (x ∷ xs) ys = ap (λ zs. f x ∷ zs) (map-append f xs ys)

add_player-names :
    (p : PlayerInfo) (g : Game)
    → names_of (add_player p g).eh.players ≡ names_of g.eh.players ++ p.username ∷ []
unfolding add_player new_boomberman
add_player-names p g = map-append (λ b. b.pseudonim) g.eh.players _

join_all-names :
    (ps : List PlayerInfo) (g : Game)
    → names_of (join_all ps g).eh.players ≡ names_of g.eh.players ++ usernames ps
unfolding join_all
join_all-names [] g = sym (append-nil (names_of g.eh.players))
join_all-names (p ∷ ps) g =
    join_all-names ps (add_player p g)
    ∙ ap (λ us. us ++ usernames ps) (add_player-names p g)
    ∙ append_assoc (names_of g.eh.players) (p.username ∷ []) (usernames ps)

-- The wait goes on, with the players told of.
Waits : Message → Game → Type 0
Waits m g =
    (g' : Game) × (handle_lobby_msg m g ≡ waits g')
    × (names_of g'.eh.players ≡ names_of g.eh.players ++ usernames (told m))

handle_lobby_msg-Waits : (m : Message) (g : Game) → IsWait m → Waits m g
unfolding handle_lobby_msg Waits
handle_lobby_msg-Waits game_start g w = absurd w
handle_lobby_msg-Waits (error e) g w = absurd w
handle_lobby_msg-Waits (welcome_to_room ps) g w = (join_all ps g, refl, join_all-names ps g)
handle_lobby_msg-Waits (game_join p) g w = (add_player p g, refl, add_player-names p g)
handle_lobby_msg-Waits get_room_list g w = (g, refl, sym (append-nil _))
handle_lobby_msg-Waits (join_room u r) g w = (g, refl, sym (append-nil _))
handle_lobby_msg-Waits (room_list rooms) g w = (g, refl, sym (append-nil _))
handle_lobby_msg-Waits (i_place_bomb x y) g w = (g, refl, sym (append-nil _))
handle_lobby_msg-Waits (i_move x y) g w = (g, refl, sym (append-nil _))
handle_lobby_msg-Waits i_leave g w = (g, refl, sym (append-nil _))
handle_lobby_msg-Waits (other_bomb_place u t x y) g w = (g, refl, sym (append-nil _))
handle_lobby_msg-Waits (got_hit u n t) g w = (g, refl, sym (append-nil _))
handle_lobby_msg-Waits (other_move u x y) g w = (g, refl, sym (append-nil _))
handle_lobby_msg-Waits (other_leave u) g w = (g, refl, sym (append-nil _))
handle_lobby_msg-Waits (game_won u) g w = (g, refl, sym (append-nil _))
handle_lobby_msg-Waits (movement_correction x y) g w = (g, refl, sym (append-nil _))

wait_for_game-names :
    (ms rest : List Message) (g : Game)
    → All IsWait ms
    → (g' : Game) × (wait_for_game (ms ++ game_start ∷ rest) g ≡ some (g', rest))
      × (names_of g'.eh.players ≡ names_of g.eh.players ++ usernames (all_told ms))
unfolding wait_for_game handle_lobby_msg Waits
wait_for_game-names [] rest g h = (g, refl, sym (append-nil (names_of g.eh.players)))
wait_for_game-names (m ∷ ms) rest g h =
    let (g1, e1, n1) = handle_lobby_msg-Waits m g (h.0) in
    let (g2, e2, n2) = wait_for_game-names ms rest g1 (h.1) in
    (
      g2,
      rw (wait_for_game, e1) e2,
      n2
          ∙ ap (λ us. us ++ usernames (all_told ms)) n1
          ∙ append_assoc (names_of g.eh.players) (usernames (told m)) (usernames (all_told ms))
          ∙ ap (λ us. names_of g.eh.players ++ us)
              (sym (map-append (λ p. p.username) (told m) (all_told ms))),
    )

-- What follows the messages of the wait: the start of the game and what is behind it, an error, or the end of the
-- connection.
pub data Tail : Type 0 where
  starting : List Message → Tail
  refused : String → List Message → Tail
  cut : Tail

abbrev pub tail_messages : Tail → List Message
tail_messages (starting rest) = game_start ∷ rest
tail_messages (refused e rest) = error e ∷ rest
tail_messages cut = []

-- How the start of `Run` ends, by the players told of and what follows.
abbrev pub Begins : List Message → List PlayerInfo → Tail → Started → Type 0
Begins sends [] (starting rest) out = out ≡ undefined
Begins sends (p ∷ ps) (starting rest) out =
    (r : Ready) × (out ≡ ready r)
    × (r.true_local_name ≡ p.username)
    × (names_of r.game.eh.players ≡ usernames (p ∷ ps))
    × (r.sends ≡ sends)
    × (r.inbox ≡ rest)
Begins sends _ (refused e rest) out = out ≡ ends
Begins sends _ cut out = out ≡ ends

wait_for_game-none :
    (ms tail : List Message) (g : Game)
    → All IsWait ms
    → ((k : Game) → wait_for_game tail k ≡ none)
    → wait_for_game (ms ++ tail) g ≡ none
unfolding wait_for_game handle_lobby_msg Waits
wait_for_game-none [] tail g h n = n g
wait_for_game-none (m ∷ ms) tail g h n =
    let (g1, e1, n1) = handle_lobby_msg-Waits m g (h.0) in
    rw (wait_for_game, e1) (wait_for_game-none ms tail g1 (h.1) n)

begin_game-Begins :
    (sends ms : List Message) (t : Tail)
    → All IsWait ms
    → Begins sends (all_told ms) t (begin_game sends (ms ++ tail_messages t))
unfolding begin_game wait_for_game handle_lobby_msg
begin_game-Begins sends ms (refused e rest) h =
    no_game (all_told ms)
      (rw (begin_game, wait_for_game-none ms (error e ∷ rest) new_game h (λ k. refl)) refl)
  where
    no_game :
        (ps : List PlayerInfo)
        → begin_game sends (ms ++ error e ∷ rest) ≡ ends
        → Begins sends ps (refused e rest) (begin_game sends (ms ++ error e ∷ rest))
    no_game [] k = k
    no_game (p ∷ ps) k = k
begin_game-Begins sends ms cut h =
    no_game (all_told ms) (rw (begin_game, wait_for_game-none ms [] new_game h (λ k. refl)) refl)
  where
    no_game :
        (ps : List PlayerInfo)
        → begin_game sends (ms ++ []) ≡ ends
        → Begins sends ps cut (begin_game sends (ms ++ []))
    no_game [] k = k
    no_game (p ∷ ps) k = k
begin_game-Begins sends ms (starting rest) h =
    let (g, e, n) = wait_for_game-names ms rest new_game h in
    elim (List-cases g.eh.players) [
      | inl nobody ↦
          alone (all_told ms) (sym n ∙ ap names_of nobody) (rw (begin_game, e, nobody) refl)
      | inr (b, others, full) ↦
          led (all_told ms) b others (sym (ap names_of full) ∙ n)
            (record {
              game = g;
              tutorial_color = b.color;
              true_local_name = b.pseudonim;
              sends = sends;
              inbox = rest;
            })
            refl (ap names_of full) refl refl (rw (begin_game, e, full) refl)
    ]
  where
    alone :
        (ps : List PlayerInfo)
        → usernames ps ≡ []
        → begin_game sends (ms ++ game_start ∷ rest) ≡ undefined
        → Begins sends ps (starting rest) (begin_game sends (ms ++ game_start ∷ rest))
    alone [] k out = out
    alone (p ∷ ps) k out = absurd (cons-ne k)

    led :
        (ps : List PlayerInfo) (b : Boomberman) (others : List Boomberman)
        → names_of (b ∷ others) ≡ usernames ps
        → (r : Ready) → r.true_local_name ≡ b.pseudonim
        → names_of r.game.eh.players ≡ names_of (b ∷ others)
        → r.sends ≡ sends
        → r.inbox ≡ rest
        → begin_game sends (ms ++ game_start ∷ rest) ≡ ready r
        → Begins sends ps (starting rest) (begin_game sends (ms ++ game_start ∷ rest))
    led [] b others k r name players s i out = absurd (cons-ne k)
    led (p ∷ ps) b others k r name players s i out =
        let first : b.pseudonim ≡ p.username = cc in (r, out, name ∙ first, players ∙ k, s, i)

-- Once connected and out of the menus, the client waits through messages that neither start the game nor are errors. The
-- process ends at an error, and when the connection does. When the game starts, and some player has been told of, the loop
-- of `Run` begins with the players told of, in this order, the first of them as the local one, with what the menus sent and
-- the messages behind the start still to come; when nobody has been told of, the first of no players is read.
pub start_run-Begins :
    (text : List ℕ → String) (keys : List ℕ) (fits : Message → Bool)
    (hits : Vector2 → Rectangle → Bool) (width height : ℕ) (fails in_progress : Bool) (f : Frame)
    (fs : List Frame) (inbox ms : List Message) (t : Tail) (v : Visit)
    → connect_to_server fails in_progress ≡ true
    → menu text keys fits hits width height f fs inbox ≡ returns v
    → v.inbox ≡ ms ++ tail_messages t
    → All IsWait ms
    → Begins v.sends
        (all_told ms)
        t
        (start_run text keys fits hits width height fails in_progress f fs inbox)
unfolding start_run
start_run-Begins text keys fits hits width height fails in_progress f fs inbox ms t v c e i h =
    rw (start_run, c, e, i) (begin_game-Begins v.sends ms t h)
