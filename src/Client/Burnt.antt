-- ===== src/Client/Burnt.antt =====
-- What a client follows of `Room::NotifyExplosion`.
use boomberman.Room.Players.{names-update_player, conns-update_player}
use boomberman.Client.Follow.{server_view-Marks, Follows, Follows-quiet}
use boomberman.Client.Mirror.{hits, handle_game_message-Mirrors, Mirrors}
use boomberman.Client.Watch.{
  IsWatched-same, Marks-IsWatched, Marks-all, AnyWatches-trans, broadcast-Watches, AnyWatches-log,
  Watches-trans, AnyWatches, Watches, IsWatched,
}
use boomberman.Room.{update_player, conns, send_broadcast, find_player, is_play, Room}
use boomberman.Client.Handler.{Game, handle_game_message}
use boomberman.Bomb.{boom, TileOnFire, Bomb}
use boomberman.Message.{game_won, Net}
use boomberman.Room.Explosion.{
  hit, is_alive, last_of, covers, alive_from, burn, notify_explosion, explode, announce_winner,
  burn_tiles, settle, burn_players,
}
use boomberman.Base.{
  arith, true, ltb, refl, ◌&&◌, [], ◌==◌, inl, subst, inr, length, get_elem?, ◌∷◌, some,
  Option-cases, Bool-cases, ◌≡◌, List, ℕ,
}

burn-Watches :
    (net : Net) (now c : ℕ) (t : TileOnFire) (d : ℕ) (r : Room) (g : Game)
    → IsWatched d r.players
    → Mirrors r.players g.eh.players
    → Watches d r (burn net now c t r) g
unfolding burn
burn-Watches net now c t d r g w m = elim (Option-cases (find_player c r.players)) [
  | inl none_there ↦
      rw (burn, none_there) (record { follows = Follows-quiet refl (λ u. refl) m; watched = w })
  | inr (p, there) ↦ elim (Bool-cases (covers t p && is_alive p)) [
    | inr safe ↦
        rw (burn, there, safe) (record { follows = Follows-quiet refl (λ u. refl) m; watched = w })
    | inl exposed ↦ elim (Bool-cases (ltb now p.immunity_end_timestamp)) [
      | inl immune ↦
          rw (burn, there, exposed, immune)
            (record { follows = Follows-quiet refl (λ u. refl) m; watched = w })
      | inr mortal ↦
          let alive : is_alive p ≡ true = ground (arith, exposed) in
          let r0 : Room = record r { players = update_player c (hit now) r.players } in
          let w0 =
            IsWatched-same d r.players r0.players
              (conns-update_player c (hit now) r.players (λ q e. e))
              (names-update_player c (hit now) r.players (λ q. refl)) w in
          let done = handle_game_message-Mirrors g (hits c now p there alive) w.named m in
          rw (burn, there, exposed, mortal)
            (broadcast-Watches net d _ r r0 g (done.0) refl w0 (done.1) (done.2))
    ]
  ]
]

burn_tiles-Watches :
    (net : Net) (now c : ℕ) (ts : List TileOnFire) (d : ℕ) (r : Room) (g : Game)
    → IsWatched d r.players
    → Mirrors r.players g.eh.players
    → Watches d r (burn_tiles net now c ts r) g
unfolding burn_tiles
burn_tiles-Watches net now c [] d r g w m = record {
  follows = Follows-quiet refl (λ u. refl) m;
  watched = w;
}
burn_tiles-Watches net now c (t ∷ ts) d r g w m =
    let first = burn-Watches net now c t d r g w m in
    Watches-trans first
      (burn_tiles-Watches net now c ts d _ first.follows.after first.watched first.follows.mirrors)

burn_players-Watches :
    (net : Net) (now : ℕ) (cs : List ℕ) (ts : List TileOnFire) (d : ℕ) (r : Room) (g : Game)
    → IsWatched d r.players
    → Mirrors r.players g.eh.players
    → Watches d r (burn_players net now cs ts r) g
unfolding burn_players
burn_players-Watches net now [] ts d r g w m = record {
  follows = Follows-quiet refl (λ u. refl) m;
  watched = w;
}
burn_players-Watches net now (c ∷ cs) ts d r g w m =
    let first = burn_tiles-Watches net now c ts d r g w m in
    Watches-trans first (
      burn_players-Watches net now cs ts d _ first.follows.after first.watched
        first.follows.mirrors)

-- The end of the game is announced, and everybody marked.
announce_winner-Watches :
    (net : Net) (index d : ℕ) (r : Room) (g : Game)
    → IsWatched d r.players
    → Mirrors r.players g.eh.players
    → AnyWatches d r g (announce_winner net index r)
unfolding announce_winner handle_game_message
announce_winner-Watches net index d r g w m = elim (Option-cases (get_elem? r.players index)) [
  | inl none_there ↦ rw (announce_winner, none_there) tt
  | inr (p, there) ↦
      let r1 = send_broadcast net (game_won p.username) r in
      let first =
        broadcast-Watches net d (game_won p.username) r r g
          (record g { sh = record (g.sh) { winner = p.username } }) refl w refl m in
      rw (announce_winner, there)
        (Watches-trans first (record {
          follows =
              Follows-quiet refl (λ u. server_view-Marks u r1.players _ (Marks-all r1.players))
                first.follows.mirrors;
          watched = Marks-IsWatched d r1.players _ (Marks-all r1.players) first.watched;
        }))
]

settle-Watches :
    (net : Net) (pick : ℕ) (before : List ℕ) (d : ℕ) (r : Room) (g : Game)
    → IsWatched d r.players
    → Mirrors r.players g.eh.players
    → AnyWatches d r g (settle net pick before r)
unfolding settle
settle-Watches net pick before d r g w m =
    let alive = alive_from 0 r.players in
    elim (Bool-cases ((length alive == 0) && is_play r.state)) [
      | inl nobody ↦ elim (Option-cases (get_elem? before pick)) [
        | inl off ↦ rw (settle, nobody, off) tt
        | inr (i, on) ↦ rw (settle, nobody, on) (announce_winner-Watches net i d r g w m)
      ]
      | inr some_left ↦ elim (Bool-cases ((length alive == 1) && is_play r.state)) [
        | inl one ↦ elim (Option-cases (last_of alive)) [
          | inl off ↦ rw (settle, some_left, one, off) tt
          | inr (i, on) ↦ rw (settle, some_left, one, on) (announce_winner-Watches net i d r g w m)
        ]
        | inr more ↦
            rw (settle, some_left, more)
              (record { follows = Follows-quiet refl (λ u. refl) m; watched = w })
      ]
    ]

explode-Watches :
    (net : Net) (now time pick : ℕ) (bomb : Bomb) (d : ℕ) (r : Room) (g : Game)
    → IsWatched d r.players
    → Mirrors r.players g.eh.players
    → AnyWatches d r g (explode net now time pick bomb r)
unfolding explode
explode-Watches net now time pick bomb d r g w m = elim (Option-cases (boom time bomb r.map)) [
  | inl off ↦ rw (explode, off) tt
  | inr (blast, on) ↦
      let first =
        burn_players-Watches net now (conns r.players) blast.tiles d (record r { map = blast.map })
          g w m in
      let burnt =
        burn_players net now (conns r.players) blast.tiles (record r { map = blast.map }) in
      let last =
        settle-Watches net pick (alive_from 0 r.players) d burnt first.follows.after first.watched
          first.follows.mirrors in
      rw (explode, on)
        (AnyWatches-log d r (record r { map = blast.map }) g _ refl
          (AnyWatches-trans (settle net pick (alive_from 0 r.players) burnt) first last))
]

notify_explosion-Watches :
    (net : Net) (now time pick d : ℕ) (r : Room) (g : Game)
    → IsWatched d r.players
    → Mirrors r.players g.eh.players
    → AnyWatches d r g (notify_explosion net now time pick r)
unfolding notify_explosion
notify_explosion-Watches net now time pick d r g w m = elim (Bool-cases (is_play r.state)) [
  | inr idle ↦
      rw (notify_explosion, idle)
        (record { follows = Follows-quiet refl (λ u. refl) m; watched = w })
  | inl plays ↦
      rw (notify_explosion, plays)
        (elim (r.bombs)
          as (λ bombs. AnyWatches d r g (elim bombs [
            | [] ↦ some r
            | bomb ∷ rest ↦ explode net now time pick bomb (record r { bombs = rest })
          ])) [
            | [] ↦ record { follows = Follows-quiet refl (λ u. refl) m; watched = w }
            | bomb ∷ rest ↦
                AnyWatches-log d r (record r { bombs = rest }) g
                  (explode net now time pick bomb (record r { bombs = rest })) refl
                  (explode-Watches net now time pick bomb d (record r { bombs = rest }) g w m)
          ])
]

-- In a room where no two players share a connection or a name, the client of a player, whoever it is, is sent just such
-- messages by an explosion as take it from mirroring the room's players to mirroring them after.
pub notify_explosion-Follows :
    (net : Net) (now time pick d : ℕ) (r r' : Room) (g : Game)
    → IsWatched d r.players
    → Mirrors r.players g.eh.players
    → notify_explosion net now time pick r ≡ some r'
    → Follows d r r' g
notify_explosion-Follows net now time pick d r r' g w m e =
    let h : AnyWatches d r g (some r') =
      subst (AnyWatches d r g) e (notify_explosion-Watches net now time pick d r g w m) in
    h.follows
