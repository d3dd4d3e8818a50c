-- ===== src/Room/Explosion.antt =====
-- `Room::NotifyExplosion` of game/src/server/Room.cpp. `none` is undefined behaviour: a square
-- outside the board, or an index past the end of `alive_before_explosion`.
pub mod Burn
pub mod Settle
pub mod Laws
use boomberman.Base.{
  ℕ, ◌+◌, ◌-◌, Bool, ◌&&◌, Option, none, some, List, [], ◌∷◌, map, eq_ℤ, ltb, ◌==◌, if◌then◌else◌,
  length, get_elem?,
}
use boomberman.Bomb.{Bomb, TileOnFire, boom}
use boomberman.Player.{Player, immunity_time_millis}
use boomberman.Message.{Net, got_hit, game_won}
use boomberman.Room.{
  Room, game_over, is_play, find_player, update_player, mark, conns, send_broadcast,
}

abbrev pub is_alive : Player → Bool
is_alive p = ltb 0 p.lives_remaining

-- The indices of the players alive, from index `i` on.
unfoldable pub alive_from : ℕ → List Player → List ℕ
alive_from i [] = []
alive_from i (p ∷ ps) = let rest = alive_from (i + 1) ps in if is_alive p then i ∷ rest else rest

abbrev pub covers : TileOnFire → Player → Bool
covers t p = eq_ℤ p.coords.x t.x && eq_ℤ p.coords.y t.y

abbrev pub hit : ℕ → Player → Player
hit now p = record p {
  immunity_end_timestamp = now + immunity_time_millis;
  lives_remaining = p.lives_remaining - 1;
}

-- The body of the loop over the tiles, for one player.
unfoldable pub burn : Net → ℕ → ℕ → TileOnFire → Room → Room
burn net now c t r = elim (find_player c r.players) [
  | none ↦ r
  | some p ↦
      if covers t p && is_alive p
      then (if ltb now p.immunity_end_timestamp
          then r
          else send_broadcast net (got_hit p.username (p.lives_remaining - 1) now)
              (record r { players = update_player c (hit now) r.players }))
      else r
]

unfoldable pub burn_tiles : Net → ℕ → ℕ → List TileOnFire → Room → Room
burn_tiles net now c [] r = r
burn_tiles net now c (t ∷ ts) r = burn_tiles net now c ts (burn net now c t r)

unfoldable pub burn_players : Net → ℕ → List ℕ → List TileOnFire → Room → Room
burn_players net now [] ts r = r
burn_players net now (c ∷ cs) ts r = burn_players net now cs ts (burn_tiles net now c ts r)

-- The end of the game: `index` is the winner's. `WAIT_FOR_END` is passed through at once.
unfoldable pub announce_winner : Net → ℕ → Room → Option Room
announce_winner net index r = elim (get_elem? r.players index) [
  | none ↦ none
  | some w ↦
      let r1 = send_broadcast net (game_won w.username) r in
      some (record r1 { players = map mark r1.players; state = game_over })
]

abbrev pub last_of : List ℕ → Option ℕ
last_of [] = none
last_of (x ∷ []) = some x
last_of (x ∷ y ∷ xs) = last_of (y ∷ xs)

-- `pick` is what `distrib(gen)` returns, a number from 0 to `people_alive_before`.
unfoldable pub settle : Net → ℕ → List ℕ → Room → Option Room
settle net pick alive_before r =
    let alive = alive_from 0 r.players in
    if (length alive == 0) && is_play r.state
    then elim (get_elem? alive_before pick) [
      | none ↦ none
      | some winner_idx ↦ announce_winner net winner_idx r
    ]
    else (if (length alive == 1) && is_play r.state
        then elim (last_of alive) [
          | none ↦ none
          | some last_alive_index ↦ announce_winner net last_alive_index r
        ]
        else some r)

-- The part behind `bombs.pop()`.
unfoldable pub explode : Net → ℕ → ℕ → ℕ → Bomb → Room → Option Room
explode net now time pick bomb r = elim (boom time bomb r.map) [
  | none ↦ none
  | some blast ↦
      settle net pick (alive_from 0 r.players)
        (burn_players net now (conns r.players) blast.tiles (record r { map = blast.map }))
]

-- `Room::NotifyExplosion`
unfoldable pub notify_explosion : Net → ℕ → ℕ → ℕ → Room → Option Room
notify_explosion net now time pick r =
    if is_play r.state
    then elim r.bombs [
      | [] ↦ some r
      | bomb ∷ rest ↦ explode net now time pick bomb (record r { bombs = rest })
    ]
    else some r
