-- ===== src/Client/Join.antt =====
-- Joining: the client places its players where the server does.
use boomberman.Client.Named.{client_view-append, DistinctNames-append}
use boomberman.Client.Mirror.{Mirrors}
use boomberman.Room.Join.{info}
use boomberman.Client.Names.{
  client_view-unused, server_view, client_view, DistinctNames, server_view-unused,
  IsUnused-client_view, IsUnused, shown, view_of, View,
}
use boomberman.Client.{Boomberman, new_boomberman}
use boomberman.Message.{welcome_to_room, game_join, PlayerInfo}
use boomberman.Client.Handler.{
  join_all, waits, add_player, handle_lobby_msg, Game, ServerHandler, start_at, set_player_params,
}
use boomberman.Player.{Coords, starter_lives, starting_position, Player, new_player}
use text.Mathlib.Text.{◌==◌ as str_eq}
use boomberman.Base.{
  str_eq→eq, subst, Bool-cases, All-append, sym, str_eq→ne, ne→str_eq, map, false, [], All, ◌++◌,
  ◌∙◌, ◌∷◌, refl, none, List, pos, Option, arith, inr, inl, Option-cases, some, ◌≡◌, String, ℤ, ℕ,
}

-- Two definitions of where a colour starts, the server's and the client's, agree.
set_player_params-starting_position :
    (p : PlayerInfo) (sh : ServerHandler) (c : Coords)
    → starting_position p.color ≡ some c
    → ((set_player_params p sh).start_x ≡ c.x) × ((set_player_params p sh).start_y ≡ c.y)
unfolding set_player_params starting_position start_at
set_player_params-starting_position p sh c e = ground (arith, e)

-- A player as his constructor leaves him, but for marks and moves that are not accepted.
pub record IsStarter (p : Player) : Type 0 where
  pub placed : starting_position p.color ≡ some p.coords
  pub lives : p.lives_remaining ≡ starter_lives

pub new_player-IsStarter :
    (now : ℕ) (step : ℤ) (conn : ℕ) (username : String) (color : ℕ) (p : Player)
    → new_player now step conn username color ≡ some p
    → IsStarter p
unfolding new_player
new_player-IsStarter now step conn username color p e =
    elim (Option-cases (starting_position color)) [
      | inl none_there ↦ absurd (ground (arith, e, none_there))
      | inr (c, there) ↦
          let fields : (p.color ≡ color) × (p.coords ≡ c) × (p.lives_remaining ≡ starter_lives) =
            ground (arith, e, there) in
          record { placed = rw (fields.0, fields.1) there; lives = fields.2 }
    ]

abbrev entry : PlayerInfo → Game → Boomberman
entry p g =
    let sh = set_player_params p g.sh in
    new_boomberman p.username sh.start_color sh.start_x sh.start_y (pos 3)

entry-shown : (p : Player) (g : Game) → IsStarter p → view_of p ≡ some (shown (entry (info p) g))
unfolding new_boomberman
entry-shown p g s =
    let at = set_player_params-starting_position (info p) g.sh p.coords s.placed in
    rw (s.lives, at.0, at.1) refl

-- A newcomer who is announced to a client whose players mirror the room's stands where the server has put him.
pub handle_lobby_msg-Mirrors :
    (ps : List Player) (p : Player) (g : Game)
    → IsStarter p
    → IsUnused (λ q. q.username) p.username ps
    → Mirrors ps g.eh.players
    → (g' : Game) × (handle_lobby_msg (game_join (info p)) g ≡ waits g')
      × Mirrors (p ∷ ps) g'.eh.players
unfolding handle_lobby_msg add_player new_boomberman
handle_lobby_msg-Mirrors ps p g s unused m =
    let b = entry (info p) g in
    let fresh : IsUnused (λ b. b.pseudonim) p.username g.eh.players =
      IsUnused-client_view p.username g.eh.players
        (m.same p.username ∙ server_view-unused p.username ps unused) in
    (
      add_player (info p) g,
      refl,
      record {
        distinct = DistinctNames-append b g.eh.players m.distinct fresh;
        same = λ u.
            client_view-append u b g.eh.players fresh ∙ rw (sym (entry-shown p g s), m.same u) refl;
      },
    )

-- The views of those before, and behind them those of the players added.
or_else : Option View → Option View → Option View
or_else (some v) w = some v
or_else none w = w

or_else-none : (v : Option View) → or_else v none ≡ v
unfolding or_else
or_else-none none = refl
or_else-none (some v) = refl

-- No two of the newcomers, and nobody among the client's players, have one name.
AreNew : List Player → List Boomberman → Type 0
AreNew ps bs = All (λ p. IsUnused (λ b. b.pseudonim) p.username bs) ps

AreNew-nil : (ps : List Player) → AreNew ps []
unfolding AreNew
AreNew-nil [] = tt
AreNew-nil (p ∷ ps) = (tt, AreNew-nil ps)

AreNew-append :
    (p : Player) (ps : List Player) (bs : List Boomberman) (b : Boomberman)
    → b.pseudonim ≡ p.username
    → IsUnused (λ q. q.username) p.username ps
    → AreNew ps bs
    → AreNew ps (bs ++ b ∷ [])
unfolding AreNew
AreNew-append p [] bs b k d h = tt
AreNew-append p (q ∷ ps) bs b k d h =
    let swapped : str_eq b.pseudonim q.username ≡ false =
      ne→str_eq b.pseudonim q.username (λ e. str_eq→ne q.username p.username (d.0) (sym e ∙ k)) in
    (
      All-append (λ a. str_eq a.pseudonim q.username ≡ false) bs (b ∷ []) (h.0) (swapped, tt),
      AreNew-append p ps bs b k (d.1) (h.1),
    )

join_all-view :
    (u : String) (ps : List Player) (g : Game)
    → All IsStarter ps
    → DistinctNames (λ p. p.username) ps
    → AreNew ps g.eh.players
    → DistinctNames (λ b. b.pseudonim) g.eh.players
    → (client_view u (join_all (map info ps) g).eh.players
        ≡ or_else (client_view u g.eh.players) (server_view u ps))
      × DistinctNames (λ b. b.pseudonim) (join_all (map info ps) g).eh.players
unfolding join_all add_player new_boomberman AreNew or_else
join_all-view u [] g s d new old = (sym (or_else-none (client_view u g.eh.players)), old)
join_all-view u (p ∷ ps) g s d new old =
    let b = entry (info p) g in
    let bs = g.eh.players in
    let ih =
      join_all-view u ps (add_player (info p) g) (s.1) (d.1)
        (AreNew-append p ps bs b refl (d.0) (new.1)) (DistinctNames-append b bs old (new.0)) in
    let view = client_view-append u b bs (new.0) in
    (
      ih.0 ∙ elim (Bool-cases (str_eq p.username u)) [
        | inl e ↦
            let none_there =
              client_view-unused u bs (
                subst (λ t. IsUnused (λ a. a.pseudonim) t bs) (str_eq→eq p.username u e) (new.0)) in
            rw (view, e, none_there, entry-shown p g (s.0)) refl
        | inr e ↦ rw (view, e) refl
      ],
      ih.1,
    )

-- A client without players who is welcomed to a room where nobody has moved or been hit mirrors it.
pub handle_lobby_msg-welcome :
    (ps : List Player) (g : Game)
    → All IsStarter ps
    → DistinctNames (λ p. p.username) ps
    → g.eh.players ≡ []
    → (g' : Game) × (handle_lobby_msg (welcome_to_room (map info ps)) g ≡ waits g')
      × Mirrors ps g'.eh.players
unfolding handle_lobby_msg AreNew or_else
handle_lobby_msg-welcome ps g s d e =
    let new : AreNew ps g.eh.players = rw e (AreNew-nil ps) in
    let old : DistinctNames (λ b. b.pseudonim) g.eh.players = rw e tt in
    (
      join_all (map info ps) g,
      refl,
      record {
        distinct = (join_all-view "" ps g s d new old).1;
        same = λ u. (join_all-view u ps g s d new old).0 ∙ rw e refl;
      },
    )
