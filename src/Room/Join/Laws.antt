-- ===== src/Room/Join/Laws.antt =====
-- Joining a room.
use mathlib.Core.Path.{ap₂}
use boomberman.Base.{
  ==_refl, ◌||◌, sym, not, subst, keep, none, List, true, ◌⊎◌, ℕ, zero, suc, ◌+◌, ◌<◌, String, ◌≡◌,
  refl, ◌∙◌, inl, inr, false, some, [], ◌∷◌, map, arith, ℤ, ◌==◌, if◌then◌else◌, Bool-cases, length,
}
use boomberman.Player.{
  Player, Coords, at_coords, starting_position, new_player, starter_lives, zero_entry,
}
use boomberman.Message.{Net, Message, PlayerInfo, game_join, welcome_to_room, game_start}
use boomberman.Room.{
  send_except, Room, GameState, wait_for_start, play, conns, max_players, send_specific,
}
use boomberman.Room.Sends.{
  Quiet-refl, Marks, Quiet, Quiet-trans, send_specific-Quiet, send_except-Quiet,
  send_broadcast-Quiet,
}
use boomberman.Room.Invariant.{IsWellFormed, IsSound, IsPlaced, IsFresh, Quiet-IsWellFormed}
use boomberman.Room.Join.{
  thrown, too_long, start_game, Joining, joined, join_player, announce, info,
}

at_coords-IsPlaced : (x y : ℕ) → 0 < x → x < 16 → 0 < y → y < 10 → IsPlaced (at_coords x y)
at_coords-IsPlaced x y a b c d = record {
  x = x;
  y = y;
  at_x = refl;
  at_y = refl;
  interior = (a, b, c, d);
}

starting_position-IsPlaced :
    (color : ℕ) → color < 4 → (c : Coords) × (starting_position color ≡ some c) × IsPlaced c
unfolding starting_position
starting_position-IsPlaced zero h = (
  at_coords 1 1,
  refl,
  at_coords-IsPlaced 1 1 (omega arith) (omega arith) (omega arith) (omega arith),
)
starting_position-IsPlaced (suc zero) h = (
  at_coords 15 1,
  refl,
  at_coords-IsPlaced 15 1 (omega arith) (omega arith) (omega arith) (omega arith),
)
starting_position-IsPlaced (suc (suc zero)) h = (
  at_coords 1 9,
  refl,
  at_coords-IsPlaced 1 9 (omega arith) (omega arith) (omega arith) (omega arith),
)
starting_position-IsPlaced (suc (suc (suc zero))) h = (
  at_coords 15 9,
  refl,
  at_coords-IsPlaced 15 9 (omega arith) (omega arith) (omega arith) (omega arith),
)
starting_position-IsPlaced (suc (suc (suc (suc n)))) h = absurd (omega arith)

-- The player with this connection and name, in the next color, sound and alive.
pub record IsNewcomer (conn : ℕ) (username : String) (color : ℕ) (p : Player) : Type 0 where
  pub sound : IsSound p
  pub conn_is : p.conn ≡ conn
  pub username_is : p.username ≡ username
  pub color_is : p.color ≡ color
  pub lives_is : p.lives_remaining ≡ 3

new_player-IsNewcomer :
    (now : ℕ) (step : ℤ) (conn : ℕ) (username : String) (color : ℕ)
    → color < 4
    → (p : Player) × (new_player now step conn username color ≡ some p)
      × IsNewcomer conn username color p
unfolding new_player
new_player-IsNewcomer now step conn username color h =
    let (c, e, placed) = starting_position-IsPlaced color h in
    let p : Player = record {
      conn = conn;
      lives_remaining = starter_lives;
      username = username;
      color = color;
      immunity_end_timestamp = now;
      marked_for_disconnect = false;
      coords = c;
      move_history = zero_entry ∷ zero_entry ∷ zero_entry ∷ zero_entry ∷ zero_entry ∷ [];
      step = step;
    } in
    (
      p,
      rw (e, new_player),
      record {
        sound = record { tracked = refl; lives = omega arith; placed = placed };
        conn_is = refl;
        username_is = refl;
        color_is = refl;
        lives_is = refl;
      },
    )

-- The state of the room once its players have been counted.
abbrev pub next_state : ℕ → GameState → GameState
next_state n s = if n == max_players then play else s

abbrev advanced : Room → Room
advanced r = record r { state = next_state r.client_count r.state }

Quiet-advanced : {r r' : Room} → Quiet r r' → Quiet (advanced r) (advanced r')
Quiet-advanced q = record {
  marks = q.marks;
  bombs = q.bombs;
  state = rw (q.client_count, q.state);
  client_count = q.client_count;
  map = q.map;
}

start_game-Quiet : (net : Net) (r : Room) → Quiet (advanced r) (start_game net r)
unfolding start_game
start_game-Quiet net r = elim (Bool-cases (r.client_count == max_players)) [
  | inl full ↦ rw full (send_broadcast-Quiet net game_start _)
  | inr free ↦ rw free (Quiet-refl r)
]

-- A connection sends the newcomer a list of all players with him at the front, and the others, if there are any, his name and
-- colour. What is sent is short enough.
abbrev pub IsSendable : Net → String → Room → Type 0
IsSendable net username r =
    let i : PlayerInfo = record { username = username; color = length r.players } in
    (net.fits (welcome_to_room (i ∷ map info r.players)) ≡ true)
    × ((length r.players ≡ 0) ⊎ (net.fits (game_join i) ≡ true))

too_long-none :
    (net : Net) (ps : List Player) (m : Message)
    → (length ps ≡ 0) ⊎ (net.fits m ≡ true)
    → too_long net (conns ps) m ≡ false
too_long-none net [] m k = refl
too_long-none net (p ∷ ps) m (inl k) = ground (arith, k)
too_long-none net (p ∷ ps) m (inr k) = rw k refl

none-too_long :
    (net : Net) (ps : List Player) (m : Message)
    → too_long net (conns ps) m ≡ false
    → (length ps ≡ 0) ⊎ (net.fits m ≡ true)
none-too_long net [] m k = inl refl
none-too_long net (p ∷ ps) m k = inr (ground (arith, k))

others-IsFresh : (c : ℕ) (cs : List ℕ) → IsFresh c cs → keep (λ d. not (d == c)) cs ≡ cs
others-IsFresh c [] h = refl
others-IsFresh c (d ∷ cs) (h, hs) =
    let other : (d == c) ≡ false = ground (arith, h) in rw (other, others-IsFresh c cs hs) refl

-- The connections that are told of the newcomer.
others-conns :
    (p : Player) (ps : List Player)
    → IsFresh p.conn (conns ps)
    → keep (λ d. not (d == p.conn)) (conns (p ∷ ps)) ≡ conns ps
others-conns p ps h = rw (==_refl p.conn) (others-IsFresh p.conn (conns ps) h)

abbrev IsShort : Net → Player → Room → Type 0
IsShort net p r =
    (net.fits (welcome_to_room (map info r.players)) ≡ true)
    × (too_long net (keep (λ d. not (d == p.conn)) (conns r.players)) (game_join (info p)) ≡ false)

-- Sends and the start alone, or an exception for one of the two messages.
announce-Quiet :
    (net : Net) (p : Player) (r : Room)
    → ((out : Room) × (announce net p r ≡ some out) × Quiet (advanced r) out × IsShort net p r)
      ⊎ (announce net p r ≡ none) × ¬ IsShort net p r
unfolding announce
announce-Quiet net p r =
    let welcome = welcome_to_room (map info r.players) in
    let others = keep (λ d. not (d == p.conn)) (conns r.players) in
    elim (Bool-cases (not (net.fits welcome) || too_long net others (game_join (info p)))) [
      | inl e ↦ inr (rw (announce, e) refl, λ (fits, joins). ground (arith, e, fits, joins))
      | inr e ↦
          let r1 = send_specific net p.conn welcome r in
          inl (
            start_game net (send_except net p.conn (game_join (info p)) r1),
            rw (announce, e) refl,
            Quiet-trans
                (Quiet-advanced (
                  Quiet-trans (send_specific-Quiet net p.conn _ r)
                    (send_except-Quiet net p.conn _ r1)))
                (start_game-Quiet net _),
            (ground (arith, e), ground (arith, e)),
          )
    ]

-- What a player who joins brings about.
pub record Joins (conn : ℕ) (username : String) (r : Room) (j : Joining) : Type 0 where
  pub out : Room
  pub returns : j ≡ joined out
  pub well_formed : IsWellFormed out
  pub newcomer : Player
  pub is_newcomer : IsNewcomer conn username (length r.players) newcomer
  pub players : Marks (newcomer ∷ r.players) out.players
  pub client_count : out.client_count ≡ r.client_count + 1
  pub state : out.state ≡ next_state (r.client_count + 1) wait_for_start
  pub bombs : out.bombs ≡ r.bombs

-- In a well-formed room that waits, and for a connection that no player of it has, joining is not refused, whatever the
-- sends return, and throws exactly if the list of the players with the newcomer is too long, or there are others and the
-- message about him is. Else the newcomer stands first, with the number of players before as his color, three lives and a place inside the rim; the others
-- follow as they were, but for marks. One more client is counted, the game starts just when that makes four, the bombs stay,
-- and the room is well formed again.
pub join_player-Joins :
    (net : Net) (now : ℕ) (step : ℤ) (conn : ℕ) (username : String) (r : Room)
    → IsWellFormed r
    → IsFresh conn (conns r.players)
    → r.state ≡ wait_for_start
    → Joins conn username r (join_player net now step conn username r) × IsSendable net username r
      ⊎ (join_player net now step conn username r ≡ thrown) × ¬ IsSendable net username r
unfolding join_player
join_player-Joins net now step conn username r w fresh waits =
    let few : r.client_count < max_players = w.waiting waits in
    let (p, e, new) =
      new_player-IsNewcomer now step conn username (length r.players) (omega (arith, w.counted)) in
    let r0 : Room = record r { players = p ∷ r.players; client_count = r.client_count + 1 } in
    let shown : info p ≡ record { username = username; color = length r.players } =
      ap₂ (λ (u : String) (k : ℕ). info (record p { username = u; color = k })) new.username_is
        new.color_is in
    let fresh' : IsFresh p.conn (conns r.players) =
      subst (λ (c : ℕ). IsFresh c (conns r.players)) (sym new.conn_is) fresh in
    let told : keep (λ d. not (d == p.conn)) (conns r0.players) ≡ conns r.players =
      others-conns p r.players fresh' in
    elim (announce-Quiet net p r0) [
      | inr (gone, long) ↦ inr (
        rw (join_player, waits, e, gone) refl,
        λ (fits, joins). long (
          subst (λ (i : PlayerInfo). net.fits (welcome_to_room (i ∷ map info r.players)) ≡ true)
              (sym shown) fits,
          subst (λ (cs : List ℕ). too_long net cs (game_join (info p)) ≡ false) (sym told)
              (too_long-none net r.players (game_join (info p)) (
                subst (λ (i : PlayerInfo). (length r.players ≡ 0) ⊎ (net.fits (game_join i) ≡ true))
                  (sym shown) joins)),
        ),
      )
      | inl (out, sent_all, q, (fits, joins)) ↦ inl (
        record {
          out = out;
          returns = rw (join_player, waits, e, sent_all) refl;
          well_formed = Quiet-IsWellFormed q (record {
            distinct = (rw (new.conn_is) fresh, w.distinct);
            counted = omega (arith, w.counted);
            capped = omega arith;
            waiting = λ k. ground arith;
            arena = w.arena;
            sound = (new.sound, w.sound);
          });
          newcomer = p;
          is_newcomer = new;
          players = q.marks;
          client_count = q.client_count;
          state = q.state ∙ ground arith;
          bombs = q.bombs;
        },
        (
          subst (λ (i : PlayerInfo). net.fits (welcome_to_room (i ∷ map info r.players)) ≡ true)
              shown fits,
          subst (λ (i : PlayerInfo). (length r.players ≡ 0) ⊎ (net.fits (game_join i) ≡ true)) shown
              (none-too_long net r.players (game_join (info p))
                (subst (λ (cs : List ℕ). too_long net cs (game_join (info p)) ≡ false) told joins)),
        ),
      )
    ]
