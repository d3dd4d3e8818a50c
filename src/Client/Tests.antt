-- ===== src/Client/Tests.antt =====
-- The client's theorems at a game of two.
use boomberman.Client.Watch.{IsWatched}
use boomberman.Room.Explosion.Laws.{notify_explosion-Explodes, Explodes}
use boomberman.Client.Burnt.{notify_explosion-Follows}
use boomberman.Client.Handled.{handle_message-Follows}
use boomberman.Room.Explosion.{notify_explosion}
use boomberman.Room.Join.{info}
use boomberman.Message.{i_leave, game_join, welcome_to_room}
use boomberman.Room.Handle.{handle_playing, handle_message}
use boomberman.Room.{update_player, find_player}
use boomberman.Client.Follow.{Follows, AreNamed}
use boomberman.Client.Fire.{extinguish_frames-burning, burning, extinguish_frames}
use boomberman.Client.Mirror.{Mirrors}
use boomberman.Client.Join.{handle_lobby_msg-Mirrors, handle_lobby_msg-welcome, IsStarter}
use boomberman.Room.Tests.{
  small_bomb-IsInside, small_bomb, duel-IsWellFormed, always, parting, ann, duel,
}
use boomberman.Bomb.{TileOnFire}
use boomberman.Player.{at_coords, Player, new_player, starting_position}
use boomberman.Client.Handler.{waits, handle_lobby_msg, Game, ServerHandler}
use boomberman.Client.{
  red, blank, Boomberman, extinguish, EntityHandler, should_calm_down, new_boomberman,
}
use boomberman.Base.{false, arith, map, refl, ◌≡◌, String, pos, ◌∷◌, [], List, ℕ}

abbrev man : String → ℕ → ℕ → ℕ → Boomberman
unfolding new_boomberman
man name x y lives = new_boomberman name red (pos x) (pos y) (pos lives)

abbrev handler : ServerHandler
handler = record { start_x = pos 0; start_y = pos 0; start_color = blank; winner = "" }

abbrev game_of : List Boomberman → Game
game_of bs = record {
  eh = record { players = bs; bombs = []; the_floor_is_lava = [] };
  sh = handler;
}

-- What a client shows of the duel.
abbrev pub shown_duel : Game
unfolding man
shown_duel = game_of (man "bob" 1 2 1 ∷ man "ann" 1 1 1 ∷ [])

pub shown_duel-Mirrors : Mirrors duel.players shown_duel.eh.players
unfolding duel man new_boomberman
shown_duel-Mirrors = record { distinct = ((refl, tt), (tt, tt)); same = λ u. refl }

pub duel-AreNamed : AreNamed duel.players
unfolding duel
duel-AreNamed = record { distinct = ((refl, tt), (tt, tt)); nonempty = (refl, (refl, tt)) }

-- Bob's move is followed by Ann's client.
handle_message-Follows_example : Follows 7 duel parting shown_duel
unfolding duel find_player handle_message handle_playing update_player
handle_message-Follows_example =
    handle_message-Follows always 5000 8 i_leave duel parting false 7 shown_duel duel-IsWellFormed
      duel-AreNamed refl refl shown_duel-Mirrors refl

eve_joined : Player
unfolding new_player starting_position
eve_joined = record ann {
  conn = 9;
  username = "eve";
  color = 2;
  lives_remaining = 3;
  coords = at_coords 1 9;
}

eve-IsStarter : IsStarter eve_joined
unfolding eve_joined starting_position
eve-IsStarter = record { placed = refl; lives = refl }

handle_lobby_msg-Mirrors_example :
    (g' : Game) × (handle_lobby_msg (game_join (info eve_joined)) shown_duel ≡ waits g')
    × Mirrors (eve_joined ∷ duel.players) g'.eh.players
unfolding duel eve_joined
handle_lobby_msg-Mirrors_example =
    handle_lobby_msg-Mirrors duel.players eve_joined shown_duel eve-IsStarter (refl, (refl, tt))
      shown_duel-Mirrors

handle_lobby_msg-welcome_example :
    (g' : Game) × (handle_lobby_msg (welcome_to_room (map info (eve_joined ∷ []))) (game_of [])
      ≡ waits g')
    × Mirrors (eve_joined ∷ []) g'.eh.players
handle_lobby_msg-welcome_example =
    handle_lobby_msg-welcome (eve_joined ∷ []) (game_of []) (eve-IsStarter, tt) (tt, tt) refl

abbrev tile : ℕ → TileOnFire
tile since = record { x = pos 1; y = pos 1; on_fire_since = since }

abbrev fires : EntityHandler
fires = record {
  players = [];
  bombs = [];
  the_floor_is_lava = tile 0 ∷ tile 1 ∷ tile 400000000 ∷ tile 2 ∷ [];
}

-- One call leaves a tile that has burnt long enough.
one_left_burning : extinguish 400000000 (fires.the_floor_is_lava) ≡ tile 1 ∷ tile 400000000 ∷ []
unfolding should_calm_down
one_left_burning = refl

extinguish_frames-burning_example :
    extinguish_frames 2 400000000 fires
    ≡ record fires { the_floor_is_lava = burning 400000000 fires.the_floor_is_lava }
unfolding should_calm_down
extinguish_frames-burning_example = extinguish_frames-burning 2 400000000 fires (omega arith)

duel-IsWatched : IsWatched 7 duel.players
unfolding duel
duel-IsWatched = record {
  distinct = duel-IsWellFormed.distinct;
  named = duel-AreNamed.distinct;
  here = refl;
}

-- The bomb between the two goes off.
ended_duel : Explodes 5000 0 small_bomb [] duel (notify_explosion always 5000 0 1 duel)
unfolding duel
ended_duel =
    notify_explosion-Explodes always 5000 0 1 small_bomb [] duel duel-IsWellFormed refl refl
      small_bomb-IsInside (omega arith)

notify_explosion-Follows_example : Follows 7 duel ended_duel.out shown_duel
notify_explosion-Follows_example =
    notify_explosion-Follows always 5000 0 1 7 duel ended_duel.out shown_duel duel-IsWatched
      shown_duel-Mirrors ended_duel.returns
