-- ===== src/Room/Explosion/Laws.antt =====
-- `Room::NotifyExplosion` as a whole.
use boomberman.Bomb.Exact.{boom-Reaches, Reaches}
use boomberman.Bomb.Burns.{Interior}
use mathlib.Core.Path.{ap₂}
use boomberman.Room.Explosion.Settle.{
  settle_past_end, settle-Settles, length-Marks, ended, alive_from-Marks, length-alive_from,
}
use boomberman.Room.Explosion.{notify_explosion, explode, burn_players, is_alive}
use boomberman.Room.Sends.{names-Marks, names, Marks-trans, All-Marks, conns-Marks, Marks}
use boomberman.Room.Invariant.{mark-IsSound, IsWellFormed, IsSound}
use boomberman.Room.{is_play, wait_for_start, play, conns, Room}
use boomberman.Room.Explosion.Burn.{burn_players-Burned, Burned, is_covered, scorch}
use boomberman.Player.{Player}
use boomberman.Bomb.{boom, Blast, TileOnFire, Bomb}
use boomberman.Message.{Net}
use boomberman.Base.{
  ℕ, ◌<◌, ◌≡◌, refl, sym, ap, ◌∙◌, ◌≢◌, inl, inr, true, not, ◌&&◌, Option, none, some, List, [],
  ◌∷◌, map, arith, pos, ltb, leb, Bool-cases, length, count, All, length-map,
}

-- A bomb on a square inside the rim.
pub record IsInside (b : Bomb) : Type 0 where
  pub x : ℕ
  pub y : ℕ
  pub at_x : b.pos_x ≡ pos x
  pub at_y : b.pos_y ≡ pos y
  pub interior : Interior x y

-- What a room is after the explosion of `bomb`, with `rest` behind it in the queue.
pub record Explodes (now time : ℕ) (bomb : Bomb) (rest : List Bomb) (r : Room) (o : Option Room)
    : Type 0 where
  pub blast : Blast
  pub explosion : boom time bomb r.map ≡ some blast
  pub reached : Reaches r.map bomb blast
  pub out : Room
  pub returns : o ≡ some out
  pub well_formed : IsWellFormed out
  pub players : Marks (map (scorch now blast.tiles) r.players) out.players
  pub bombs : out.bombs ≡ rest
  pub map_is : out.map ≡ blast.map
  pub client_count : out.client_count ≡ r.client_count
  pub state : out.state ≡ ended (count is_alive (map (scorch now blast.tiles) r.players)) play

scorch-IsSound :
    (now : ℕ) (ts : List TileOnFire) (p : Player) → IsSound p → IsSound (scorch now ts p)
scorch-IsSound now ts p s =
    elim (Bool-cases (is_covered ts p && is_alive p && not (ltb now p.immunity_end_timestamp))) [
      | inl e ↦
          rw e (record { tracked = s.tracked; lives = omega (arith, s.lives); placed = s.placed })
      | inr e ↦ rw e s
    ]

scorch-conn : (now : ℕ) (ts : List TileOnFire) (p : Player) → (scorch now ts p).conn ≡ p.conn
scorch-conn now ts p =
    elim (Bool-cases (is_covered ts p && is_alive p && not (ltb now p.immunity_end_timestamp))) [
      | inl e ↦ rw e
      | inr e ↦ rw e
    ]

All-map_of {ℓ} :
    (P : Player → Type ℓ) (f : Player → Player) (ps : List Player)
    → ((p : Player) → P p → P (f p))
    → All P ps
    → All P (map f ps)
All-map_of P f [] k h = tt
All-map_of P f (p ∷ ps) k h = (k p h.0, All-map_of P f ps k h.1)

conns-map :
    (f : Player → Player) (ps : List Player)
    → ((p : Player) → (f p).conn ≡ p.conn)
    → conns (map f ps) ≡ conns ps
conns-map f [] k = refl
conns-map f (p ∷ ps) k = ground (arith, k p, conns-map f ps k)

-- Marks do not change how many are alive.
count-Marks : (ps qs : List Player) → Marks ps qs → count is_alive qs ≡ count is_alive ps
count-Marks ps qs m =
    sym (length-alive_from 0 qs) ∙ ap length (alive_from-Marks 0 ps qs m) ∙ length-alive_from 0 ps

ended-ne : (n : ℕ) → ended n play ≢ wait_for_start
ended-ne n e = elim (Bool-cases (leb n 1)) [ inl few ↦ ground arith | inr many ↦ ground arith ]

notify_explosion-step :
    (net : Net) (now time pick : ℕ) (bomb : Bomb) (rest : List Bomb) (r : Room)
    → r.state ≡ play
    → r.bombs ≡ bomb ∷ rest
    → notify_explosion net now time pick r
      ≡ explode net now time pick bomb (record r { bombs = rest })
unfolding notify_explosion
notify_explosion-step net now time pick bomb rest r plays queue =
    let on : is_play r.state ≡ true = rw plays in rw (on, queue, notify_explosion)

module _ (net : Net) (now time pick : ℕ) (bomb : Bomb) (rest : List Bomb) (r : Room)
    (w : IsWellFormed r) (plays : r.state ≡ play) (inside : IsInside bomb) where
  abbrev fire : (out : Blast) × (boom time bomb r.map ≡ some out) × Reaches r.map bomb out
  fire =
      boom-Reaches time bomb r.map inside.x inside.y w.arena inside.at_x inside.at_y inside.interior

  -- The room with the blast's board, before anybody is hit.
  abbrev lit : Room
  lit = record r { bombs = rest; map = (fire.0).map }

  abbrev burnt : Room
  burnt = burn_players net now (conns r.players) (fire.0).tiles lit

  abbrev scorched : List Player
  scorched = map (scorch now (fire.0).tiles) r.players

  burning : Burned scorched lit burnt
  burning = burn_players-Burned net now (fire.0).tiles lit w.distinct

  -- Any later room with these players and this board is well formed.
  later-IsWellFormed :
      (out : Room)
      → Marks scorched out.players
      → out.client_count ≡ r.client_count
      → out.map ≡ (fire.0).map
      → out.state ≢ wait_for_start
      → IsWellFormed out
  later-IsWellFormed out m c k s =
      let same : conns out.players ≡ conns r.players =
        conns-Marks scorched out.players m ∙ conns-map _ r.players (scorch-conn now _) in
      record {
        distinct = rw same (w.distinct);
        counted = omega (
          arith,
          length-Marks scorched out.players m,
          length-map (scorch now (fire.0).tiles) r.players,
          w.counted,
          c,
        );
        capped = omega (arith, c, w.capped);
        waiting = λ e. absurd (s e);
        arena = rw k ((fire.2).arena);
        sound =
            All-Marks IsSound mark-IsSound scorched out.players m
              (All-map_of IsSound _ r.players (scorch-IsSound now _) w.sound);
      }

  explode-Explodes :
      pick < count is_alive r.players
      → Explodes now time bomb rest r (explode net now time pick bomb (record r { bombs = rest }))
  unfolding explode
  explode-Explodes h =
      let same : length burnt.players ≡ length r.players =
        length-Marks scorched burnt.players burning.players ∙ length-map _ r.players in
      let (out, e, done) = settle-Settles net pick r.players burnt same h in
      let m : Marks scorched out.players =
        Marks-trans scorched burnt.players out.players burning.players done.players in
      let alive : count is_alive burnt.players ≡ count is_alive scorched =
        count-Marks scorched burnt.players burning.players in
      let state : out.state ≡ ended (count is_alive scorched) play =
        done.state ∙ ap₂ ended alive (burning.state ∙ plays) in
      let counted : out.client_count ≡ r.client_count = done.client_count ∙ burning.client_count in
      let board : out.map ≡ (fire.0).map = done.map ∙ burning.map in
      record {
        blast = fire.0;
        explosion = fire.1;
        reached = fire.2;
        out = out;
        returns = rw (fire.1, explode) e;
        well_formed = later-IsWellFormed out m counted board (λ z. ended-ne _ (sym state ∙ z));
        players = m;
        bombs = done.bombs ∙ burning.bombs;
        map_is = board;
        client_count = counted;
        state = state;
      }

-- In a well-formed room that plays, with a bomb inside the rim at the front of the queue, and if the winner's
-- number is below the number of players alive, the explosion is defined. The bomb leaves the queue,
-- and the blast's board stays; the blast lights just the bomb's square and those that the fire reaches from it, and opens
-- just the boxes reached. Up to marks, the players are as the description leaves them: those on a tile of the blast,
-- alive and out of their immunity, have one life less and are immune for half a second; nobody else is hurt. The
-- game is over just when at most one player is alive, and the room is well formed.
pub notify_explosion-Explodes :
    (net : Net) (now time pick : ℕ) (bomb : Bomb) (rest : List Bomb) (r : Room)
    → IsWellFormed r
    → r.state ≡ play
    → r.bombs ≡ bomb ∷ rest
    → IsInside bomb
    → pick < count is_alive r.players
    → Explodes now time bomb rest r (notify_explosion net now time pick r)
notify_explosion-Explodes net now time pick bomb rest r w plays queue inside h =
    rw (notify_explosion-step net now time pick bomb rest r plays queue)
      (explode-Explodes net now time pick bomb rest r w plays inside h)

-- The random number may be one too large: where the blast kills everybody left and the number
-- drawn is the number of players who were alive, the method reads past the end of a vector.
pub notify_explosion_past_end :
    (net : Net) (now time : ℕ) (bomb : Bomb) (rest : List Bomb) (r : Room) (blast : Blast)
    → IsWellFormed r
    → r.state ≡ play
    → r.bombs ≡ bomb ∷ rest
    → boom time bomb r.map ≡ some blast
    → count is_alive (map (scorch now blast.tiles) r.players) ≡ 0
    → notify_explosion net now time (count is_alive r.players) r ≡ none
unfolding explode
notify_explosion_past_end net now time bomb rest r blast w plays queue e dead =
    let lit : Room = record r { bombs = rest; map = blast.map } in
    let b = burn_players-Burned net now blast.tiles lit w.distinct in
    let alive = count-Marks _ _ b.players ∙ dead in
    rw (notify_explosion-step net now time _ bomb rest r plays queue, e, explode)
      (settle_past_end net r.players _ alive (b.state ∙ plays))

pub Explodes-conns :
    (now time : ℕ) (bomb : Bomb) (rest : List Bomb) (r : Room) (o : Option Room)
    → (x : Explodes now time bomb rest r o) → conns x.out.players ≡ conns r.players
Explodes-conns now time bomb rest r o x =
    conns-Marks _ x.out.players x.players ∙ conns-map _ r.players (scorch-conn now _)

scorch-username :
    (now : ℕ) (ts : List TileOnFire) (p : Player) → (scorch now ts p).username ≡ p.username
scorch-username now ts p =
    elim (Bool-cases (is_covered ts p && is_alive p && not (ltb now p.immunity_end_timestamp))) [
      | inl e ↦ rw e
      | inr e ↦ rw e
    ]

names-map :
    (f : Player → Player) (ps : List Player)
    → ((p : Player) → (f p).username ≡ p.username)
    → names (map f ps) ≡ names ps
names-map f [] k = refl
names-map f (p ∷ ps) k = ground (arith, k p, names-map f ps k)

pub Explodes-names :
    (now time : ℕ) (bomb : Bomb) (rest : List Bomb) (r : Room) (o : Option Room)
    → (x : Explodes now time bomb rest r o) → names x.out.players ≡ names r.players
Explodes-names now time bomb rest r o x =
    names-Marks _ x.out.players x.players ∙ names-map _ r.players (scorch-username now _)
