-- ===== src/Client/Mirror.antt =====
-- The client's players follow the server's, message by message: both say the same of every name.
use boomberman.Client.Named.{
  client_view-erase_named, DistinctNames-erase_named, client_view-update_named,
  DistinctNames-update_named, changed_view,
}
use boomberman.Room.Disconnect.{erase_player}
use boomberman.Room.Players.{update_player-id}
use boomberman.Room.Explosion.{hit, is_alive}
use boomberman.Client.Names.{
  server_view-erase_player, server_view-update_player, view_of, server_view, View, client_view,
  DistinctNames,
}
use boomberman.Message.{other_leave, got_hit, other_move, Message, of_int}
use boomberman.Client.{set_boomberman_pos, got_hit_at, Boomberman}
use boomberman.Room.{update_player, find_player}
use boomberman.Player.{Player}
use boomberman.Client.Handler.{
  with_players, Game, player_got_hit, other_moved, handle_game_message, erase_named, update_named,
  truncate,
}
use text.Mathlib.Text.{◌==◌ as str_eq}
use boomberman.Base.{
  ltb→lt, ==→eq, arith, ◌<◌, none, ◌==◌, ◌-ℤ◌, ◌-◌, inr, ◌∙◌, true, inl, sym, Bool-cases, ap, refl,
  if◌then◌else◌, false, negsuc, some, pos, Option, ◌≡◌, ℤ, List, String, ℕ,
}

-- Under each name the client shows the place and the lives of the player of that name who is alive, and nobody under any
-- other name; the order of the players and their connections are forgotten.
pub record Mirrors (ps : List Player) (bs : List Boomberman) : Type 0 where
  pub distinct : DistinctNames (λ b. b.pseudonim) bs
  pub same : (u : String) → client_view u bs ≡ server_view u ps

-- What a room changes of its players when it sends a message about them: a player who is moved, hit or let go.
pub data Change (ps : List Player) : Message → List Player → Type 0 where
  moves :
      (c : ℕ) (p q : Player)
      → find_player c ps ≡ some p
      → str_eq p.username "" ≡ false
      → q.username ≡ p.username
      → q.lives_remaining ≡ p.lives_remaining
      → Change ps
          (other_move p.username (of_int q.coords.x) (of_int q.coords.y))
          (update_player c (λ _. q) ps)
  hits :
      (c now : ℕ) (p : Player)
      → find_player c ps ≡ some p
      → is_alive p ≡ true
      → Change ps (got_hit p.username (p.lives_remaining - 1) now) (update_player c (hit now) ps)
  leaves :
      (c : ℕ) (p : Player)
      → find_player c ps ≡ some p
      → Change ps (other_leave p.username) (erase_player c ps)

truncate-of_int : (z : ℤ) → truncate (of_int z) ≡ z
unfolding truncate
truncate-of_int (pos n) = refl
truncate-of_int (negsuc n) = refl

pub server_view-found :
    (u : String) (c : ℕ) (ps : List Player) (p : Player)
    → find_player c ps ≡ some p
    → DistinctNames (λ q. q.username) ps
    → server_view u ps ≡ (if str_eq p.username u then view_of p else server_view u ps)
server_view-found u c ps p e d =
    ap (server_view u) (sym (update_player-id c ps))
    ∙ server_view-update_player u c (λ q. q) ps p e refl d

-- A change of one player under his name, on both sides.
Mirrors-changed :
    (ps ps' : List Player) (bs bs' : List Boomberman) (p : Player) (c : ℕ) (after : Option View)
    (g : Option View → Option View)
    → find_player c ps ≡ some p
    → DistinctNames (λ q. q.username) ps
    → Mirrors ps bs
    → DistinctNames (λ b. b.pseudonim) bs'
    → ((u : String) → server_view u ps' ≡ (if str_eq p.username u then after else server_view u ps))
    → ((u : String)
        → client_view u bs'
          ≡ (if str_eq p.username u then g (client_view u bs) else client_view u bs))
    → g (view_of p) ≡ after
    → Mirrors ps' bs'
Mirrors-changed ps ps' bs bs' p c after g e d m d' server client agree = record {
  distinct = d';
  same = λ u. elim (Bool-cases (str_eq p.username u)) [
    | inl k ↦
        let mine : server_view u ps ≡ view_of p = server_view-found u c ps p e d ∙ rw k refl in
        rw (client u, server u, k, m.same u, mine) agree
    | inr k ↦ rw (client u, server u, k) (m.same u)
  ];
}

moved_shown : (x y : ℤ) → View → View
moved_shown x y v = record v { x = x; y = y }

hit_shown : View → View
hit_shown v = record v { lives = v.lives -ℤ pos 1 }

moves-Mirrors :
    (c : ℕ) (p q : Player) (ps : List Player) (bs : List Boomberman)
    → find_player c ps ≡ some p
    → q.username ≡ p.username
    → q.lives_remaining ≡ p.lives_remaining
    → DistinctNames (λ r. r.username) ps
    → Mirrors ps bs
    → Mirrors
        (update_player c (λ _. q) ps)
        (update_named p.username (set_boomberman_pos q.coords.x q.coords.y) bs)
unfolding moved_shown
moves-Mirrors c p q ps bs e k lives d m =
    let f = set_boomberman_pos q.coords.x q.coords.y in
    let agree : changed_view (moved_shown q.coords.x q.coords.y) (view_of p) ≡ view_of q =
      elim (Bool-cases (is_alive p)) [ inl a ↦ rw (lives, a) refl | inr a ↦ rw (lives, a) refl ] in
    Mirrors-changed ps _ bs _ p c (view_of q) (changed_view (moved_shown q.coords.x q.coords.y)) e d
      m (DistinctNames-update_named f (λ b. refl) p.username bs m.distinct)
      (λ u. server_view-update_player u c (λ _. q) ps p e k d)
      (λ u.
        client_view-update_named f (λ b. refl) (moved_shown q.coords.x q.coords.y) u p.username bs
          (λ b. refl))
      agree

erased-view :
    (n u : String) (before changed after : Option View)
    → after ≡ (if str_eq n u then none else changed)
    → changed ≡ (if str_eq n u then changed_view hit_shown before else before)
    → after ≡ (if str_eq n u then none else before)
erased-view n u before changed after e1 e2 = elim (Bool-cases (str_eq n u)) [
  | inl k ↦ rw k (e1 ∙ rw k refl)
  | inr k ↦ rw k (e1 ∙ rw k (e2 ∙ rw k refl))
]

one_less : (n : ℕ) → 0 < n → pos n -ℤ pos 1 ≡ pos (n - 1)
one_less n h = ground (arith, h)

hits-Mirrors :
    (c now : ℕ) (p : Player) (ps : List Player) (bs : List Boomberman)
    → find_player c ps ≡ some p
    → is_alive p ≡ true
    → DistinctNames (λ r. r.username) ps
    → Mirrors ps bs
    → let hit_bs = update_named p.username (got_hit_at now) bs in
      Mirrors
        (update_player c (hit now) ps)
        (if p.lives_remaining - 1 == 0 then erase_named p.username hit_bs else hit_bs)
unfolding hit_shown got_hit_at
hits-Mirrors c now p ps bs e alive d m =
    let f = got_hit_at now in
    let hit_bs = update_named p.username f bs in
    let distinct = DistinctNames-update_named f (λ b. refl) p.username bs m.distinct in
    let server = λ (u : String). server_view-update_player u c (hit now) ps p e refl d in
    let client = λ (u : String).
      client_view-update_named f (λ b. refl) hit_shown u p.username bs (λ b. refl) in
    elim (Bool-cases (p.lives_remaining - 1 == 0)) [
      | inl last ↦
          let dead : view_of (hit now p) ≡ none = rw (==→eq (p.lives_remaining - 1) 0 last) refl in
          rw last (
            Mirrors-changed ps _ bs _ p c none (λ _. none) e d m
              (DistinctNames-erase_named p.username hit_bs distinct)
              (λ u. server u ∙ ap (λ v. if str_eq p.username u then v else server_view u ps) dead)
              (λ u.
                erased-view p.username u _ _ _
                  (client_view-erase_named u p.username hit_bs distinct) (client u))
              refl)
      | inr more ↦
          let left : is_alive (hit now p) ≡ true = ground (arith, more) in
          let fewer : pos p.lives_remaining -ℤ pos 1 ≡ pos (p.lives_remaining - 1) =
            one_less p.lives_remaining (ltb→lt 0 p.lives_remaining alive) in
          rw more (
            Mirrors-changed ps _ bs _ p c (view_of (hit now p)) (changed_view hit_shown) e d m
              distinct server client (rw (alive, left, fewer) refl))
    ]

-- A message about a player, handled by a client whose players mirror the room's, has them mirror the room's after it.
pub handle_game_message-Mirrors :
    {ps ps' : List Player} {m : Message} (g : Game)
    → Change ps m ps'
    → DistinctNames (λ p. p.username) ps
    → Mirrors ps g.eh.players
    → (g' : Game) × (handle_game_message m g ≡ some g') × Mirrors ps' g'.eh.players
unfolding handle_game_message other_moved player_got_hit
handle_game_message-Mirrors {ps} g (moves c p q e named k lives) d m = (
  with_players (update_named p.username (set_boomberman_pos q.coords.x q.coords.y)) g,
  rw (named, truncate-of_int q.coords.x, truncate-of_int q.coords.y) refl,
  moves-Mirrors c p q ps g.eh.players e k lives d m,
)
handle_game_message-Mirrors {ps} g (hits c now p e alive) d m =
    (_, refl, hits-Mirrors c now p ps g.eh.players e alive d m)
handle_game_message-Mirrors {ps} g (leaves c p e) d m = (
  _,
  refl,
  Mirrors-changed ps (erase_player c ps) g.eh.players _ p c none (λ _. none) e d m
      (DistinctNames-erase_named p.username g.eh.players m.distinct)
      (λ u. server_view-erase_player u c ps p e d)
      (λ u. client_view-erase_named u p.username g.eh.players m.distinct) refl,
)
