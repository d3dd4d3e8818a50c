-- ===== src/Room/Explosion/Burn.antt =====
-- Who is hit by an explosion: the loops over players and tiles against a map over the players.
use mathlib.Core.Path.{fun_ext}
use boomberman.Room.Invariant.{Distinct}
use boomberman.Room.Sends.{send_broadcast-Quiet, Marks-trans, Marks-refl, Marks, Quiet}
use boomberman.Bomb.{TileOnFire}
use boomberman.Player.{Player}
use boomberman.Room.Players.{
  update_each-map, Marks-update_player, update_player-congr, update_player-missing,
  update_player-update_player, update_player-id, update_each,
}
use boomberman.Message.{Net}
use boomberman.Room.Explosion.{
  conns, find_player, update_player, Room, covers, mark, is_alive, hit, burn, burn_players,
  burn_tiles,
}
use boomberman.Base.{
  ℕ, ◌+◌, ◌≡◌, refl, ap, ◌∙◌, inl, inr, Bool, true, false, not, ◌&&◌, ◌||◌, List, [], ◌∷◌, map,
  arith, ltb, if◌then◌else◌, lt→ltb, Bool-cases, Option-cases,
}

-- What one tile does to a player.
abbrev singe : ℕ → TileOnFire → Player → Player
singe now t p =
    if covers t p && is_alive p && not (ltb now p.immunity_end_timestamp) then hit now p else p

abbrev singes : ℕ → List TileOnFire → Player → Player
singes now [] p = p
singes now (t ∷ ts) p = singes now ts (singe now t p)

abbrev pub is_covered : List TileOnFire → Player → Bool
is_covered [] p = false
is_covered (t ∷ ts) p = covers t p || is_covered ts p

-- The independent description: a player alive, out of his immunity and on one of the tiles is hit once.
abbrev pub scorch : ℕ → List TileOnFire → Player → Player
scorch now ts p =
    if is_covered ts p && is_alive p && not (ltb now p.immunity_end_timestamp) then hit now p else p

-- A player just hit is immune.
singes-hit :
    (now : ℕ) (ts : List TileOnFire) (p : Player)
    → ltb now p.immunity_end_timestamp ≡ true
    → singes now ts p ≡ p
singes-hit now [] p e = refl
singes-hit now (t ∷ ts) p e =
    let same : singe now t p ≡ p = ground arith in rw same (singes-hit now ts p e)

-- The tests of a tile and of the tiles after it, where the first does not hit.
skip {ℓ} :
    {A : Type ℓ} (c cs a i : Bool) (x y : A)
    → (c && a && not i) ≡ false
    → (if cs && a && not i then x else y) ≡ (if (c || cs) && a && not i then x else y)
skip false cs a i x y e = refl
skip true true a i x y e = refl
skip true false true true x y e = refl
skip true false true false x y e = cc
skip true false false i x y e = refl

struck {ℓ} :
    {A : Type ℓ} (c cs a i : Bool) (x y : A)
    → (c && a && not i) ≡ true
    → x ≡ (if (c || cs) && a && not i then x else y)
struck true cs true false x y e = refl
struck true cs true true x y e = cc
struck true cs false i x y e = cc
struck false cs a i x y e = cc

singes-scorch : (now : ℕ) (ts : List TileOnFire) (p : Player) → singes now ts p ≡ scorch now ts p
singes-scorch now [] p = refl
singes-scorch now (t ∷ ts) p =
    let safe = ltb now p.immunity_end_timestamp in
    elim (Bool-cases (covers t p && is_alive p && not safe)) [
      | inl e ↦
          let one : singe now t p ≡ hit now p = rw e in
          ap (singes now ts) one
          ∙ singes-hit now ts (hit now p) (lt→ltb now (now + 500) (omega arith))
          ∙ struck (covers t p) (is_covered ts p) (is_alive p) safe (hit now p) p e
      | inr e ↦
          let one : singe now t p ≡ p = rw e in
          ap (singes now ts) one
          ∙ singes-scorch now ts p
          ∙ skip (covers t p) (is_covered ts p) (is_alive p) safe (hit now p) p e
    ]

singe-conn : (now : ℕ) (t : TileOnFire) (p : Player) → (singe now t p).conn ≡ p.conn
singe-conn now t p = ground arith

singe-mark : (now : ℕ) (t : TileOnFire) (p : Player) → singe now t (mark p) ≡ mark (singe now t p)
singe-mark now t p = ground arith

singes-conn : (now : ℕ) (ts : List TileOnFire) (p : Player) → (singes now ts p).conn ≡ p.conn
singes-conn now [] p = refl
singes-conn now (t ∷ ts) p = singes-conn now ts (singe now t p) ∙ singe-conn now t p

singes-mark :
    (now : ℕ) (ts : List TileOnFire) (p : Player) → singes now ts (mark p) ≡ mark (singes now ts p)
singes-mark now [] p = refl
singes-mark now (t ∷ ts) p =
    ap (singes now ts) (singe-mark now t p) ∙ singes-mark now ts (singe now t p)

-- `r'` is `r` with a change to its players, up to marks and the log.
pub record Burned (ps : List Player) (r r' : Room) : Type 0 where
  pub players : Marks ps r'.players
  pub bombs : r'.bombs ≡ r.bombs
  pub state : r'.state ≡ r.state
  pub client_count : r'.client_count ≡ r.client_count
  pub map : r'.map ≡ r.map

Quiet-Burned :
    (ps : List Player) (r r' : Room) → Quiet (record r { players = ps }) r' → Burned ps r r'
Quiet-Burned ps r r' q = record {
  players = q.marks;
  bombs = q.bombs;
  state = q.state;
  client_count = q.client_count;
  map = q.map;
}

Burned-refl : (ps : List Player) (r : Room) → ps ≡ r.players → Burned ps r r
Burned-refl ps r e = record {
  players = rw e (Marks-refl r.players);
  bombs = refl;
  state = refl;
  client_count = refl;
  map = refl;
}

burn-Burned :
    (net : Net) (now c : ℕ) (t : TileOnFire) (r : Room)
    → Burned (update_player c (singe now t) r.players) r (burn net now c t r)
unfolding burn
burn-Burned net now c t r = elim (Option-cases (find_player c r.players)) [
  | inl gone ↦ rw (gone, burn) (Burned-refl _ r (update_player-missing c _ r.players gone))
  | inr (p, e) ↦ elim (Bool-cases (covers t p && is_alive p)) [
    | inr far ↦
        let same : singe now t p ≡ p = ground arith in
        rw (e, far, burn)
          (Burned-refl _ r
            (update_player-congr c _ (λ q. q) r.players p e same ∙ update_player-id c r.players))
    | inl near ↦ elim (Bool-cases (ltb now p.immunity_end_timestamp)) [
      | inl safe ↦
          let same : singe now t p ≡ p = ground arith in
          rw (e, near, safe, burn)
            (Burned-refl _ r
              (update_player-congr c _ (λ q. q) r.players p e same ∙ update_player-id c r.players))
      | inr bare ↦
          let same : singe now t p ≡ hit now p = ground arith in
          rw (e, near, bare, update_player-congr c (singe now t) (hit now) r.players p e same, burn)
            (Quiet-Burned _ r _ (send_broadcast-Quiet net _ _))
    ]
  ]
]

Burned-trans :
    (f : List Player → List Player) (ps : List Player) (a b c : Room)
    → ((ps qs : List Player) → Marks ps qs → Marks (f ps) (f qs))
    → Burned ps a b
    → Burned (f b.players) b c
    → Burned (f ps) a c
Burned-trans f ps a b c k p q = record {
  players = Marks-trans (f ps) (f b.players) c.players (k ps b.players p.players) q.players;
  bombs = q.bombs ∙ p.bombs;
  state = q.state ∙ p.state;
  client_count = q.client_count ∙ p.client_count;
  map = q.map ∙ p.map;
}

burn_tiles-Burned :
    (net : Net) (now c : ℕ) (ts : List TileOnFire) (r : Room)
    → Burned (update_player c (singes now ts) r.players) r (burn_tiles net now c ts r)
unfolding burn_tiles
burn_tiles-Burned net now c [] r = Burned-refl _ r (update_player-id c r.players)
burn_tiles-Burned net now c (t ∷ ts) r =
    rw (← update_player-update_player c (singe now t) (singes now ts) r.players (singe-conn now t))
      (Burned-trans (update_player c (singes now ts)) _ r (burn net now c t r) _
        (λ ps qs m. Marks-update_player c (singes now ts) ps qs (singes-mark now ts) m)
        (burn-Burned net now c t r) (burn_tiles-Burned net now c ts (burn net now c t r)))

Marks-update_each :
    (cs : List ℕ) (f : Player → Player) (ps qs : List Player)
    → ((p : Player) → f (mark p) ≡ mark (f p))
    → Marks ps qs
    → Marks (update_each cs f ps) (update_each cs f qs)
unfolding update_each
Marks-update_each [] f ps qs k m = m
Marks-update_each (c ∷ cs) f ps qs k m =
    Marks-update_each cs f _ _ k (Marks-update_player c f ps qs k m)

burn_players-each :
    (net : Net) (now : ℕ) (cs : List ℕ) (ts : List TileOnFire) (r : Room)
    → Burned (update_each cs (singes now ts) r.players) r (burn_players net now cs ts r)
unfolding burn_players update_each
burn_players-each net now [] ts r = Burned-refl _ r refl
burn_players-each net now (c ∷ cs) ts r =
    Burned-trans (update_each cs (singes now ts)) _ r (burn_tiles net now c ts r) _
      (λ ps qs m. Marks-update_each cs (singes now ts) ps qs (singes-mark now ts) m)
      (burn_tiles-Burned net now c ts r)
      (burn_players-each net now cs ts (burn_tiles net now c ts r))

-- Where no two players share a connection, the loops hit just the players that the description
-- hits, and leave all else of the room but marks and the log.
pub burn_players-Burned :
    (net : Net) (now : ℕ) (ts : List TileOnFire) (r : Room)
    → Distinct (conns r.players)
    → Burned (map (scorch now ts) r.players) r (burn_players net now (conns r.players) ts r)
burn_players-Burned net now ts r d =
    rw
      (
        ← fun_ext (singes-scorch now ts),
        ← update_each-map (singes now ts) r.players (singes-conn now ts) d,
      )
      (burn_players-each net now (conns r.players) ts r)
