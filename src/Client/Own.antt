-- ===== src/Client/Own.antt =====
-- The client's own player: the first one, to whom the server's corrections go.
use boomberman.Connection.Receive.{cons-ne}
use boomberman.Message.{
  movement_correction, other_bomb_place, other_move, got_hit, other_leave, Message,
}
use boomberman.Client.{set_boomberman_pos, got_hit_at, place_bomb, Boomberman}
use boomberman.Client.Handler.{
  truncate, correct_movement, other_placed_bomb, player_got_hit, other_moved, handle_game_messages,
  Game, erase_named, update_named, handle_game_message,
}
use text.Mathlib.Text.{◌==◌ as str_eq}
use boomberman.Base.{
  subst, Option-cases, All, inr, ◌∙◌, ◌==◌, inl, refl, Bool-cases, ◌&&◌, [], arith, sym, none, not,
  false, some, true, ◌∷◌, ◌≡◌, Bool, Option, List, String,
}

-- The message does not take the player of the name out of the game.
abbrev pub spares : String → Message → Bool
spares u (other_leave v) = not (str_eq u v)
spares u (got_hit v lives_remaining timestamp) = not (str_eq u v && (lives_remaining == 0))
spares u _ = true

-- The first player has the name.
pub record Leads (u : String) (bs : List Boomberman) : Type 0 where
  pub first : Boomberman
  pub others : List Boomberman
  pub is_first : bs ≡ first ∷ others
  pub name : first.pseudonim ≡ u

abbrev AnyLeads : String → Option Game → Type 0
AnyLeads u none = ⊥
AnyLeads u (some g) = Leads u g.eh.players

Leads-update_named :
    (u v : String) (f : Boomberman → Boomberman) (bs : List Boomberman)
    → ((b : Boomberman) → (f b).pseudonim ≡ b.pseudonim)
    → Leads u bs
    → Leads u (update_named v f bs)
unfolding update_named
Leads-update_named u v f [] k h = absurd (cons-ne (sym h.is_first))
Leads-update_named u v f (b ∷ bs) k h =
    let mine : b.pseudonim ≡ u = ground (arith, h.is_first, h.name) in
    elim (Bool-cases (str_eq b.pseudonim v)) [
      | inl e ↦ record {
        first = f b;
        others = bs;
        is_first = rw (update_named, e) refl;
        name = k b ∙ mine;
      }
      | inr e ↦ record {
        first = b;
        others = update_named v f bs;
        is_first = rw (update_named, e) refl;
        name = mine;
      }
    ]

Leads-erase_named :
    (u v : String) (bs : List Boomberman)
    → str_eq u v ≡ false
    → Leads u bs
    → Leads u (erase_named v bs)
unfolding erase_named
Leads-erase_named u v [] other h = absurd (cons-ne (sym h.is_first))
Leads-erase_named u v (b ∷ bs) other h =
    let mine : b.pseudonim ≡ u = ground (arith, h.is_first, h.name) in
    record {
      first = b;
      others = erase_named v bs;
      is_first = rw (erase_named, mine, other) refl;
      name = mine;
    }

handle_game_message-Leads :
    (u : String) (m : Message) (g : Game)
    → spares u m ≡ true
    → Leads u g.eh.players
    → AnyLeads u (handle_game_message m g)
unfolding handle_game_message other_moved player_got_hit other_placed_bomb place_bomb
    correct_movement got_hit_at
handle_game_message-Leads u (other_move v x y) g kind h = elim (Bool-cases (str_eq v "")) [
  | inl e ↦ rw e h
  | inr e ↦ rw e (Leads-update_named u v _ g.eh.players (λ b. refl) h)
]
handle_game_message-Leads u (other_leave v) g kind h =
    Leads-erase_named u v g.eh.players (ground (arith, kind)) h
handle_game_message-Leads u (got_hit v lives_remaining timestamp) g kind h =
    let struck = Leads-update_named u v (got_hit_at timestamp) g.eh.players (λ b. refl) h in
    elim (Bool-cases (lives_remaining == 0)) [
      | inl e ↦ rw e (Leads-erase_named u v _ (ground (arith, kind, e)) struck)
      | inr e ↦ rw e struck
    ]
handle_game_message-Leads u (other_bomb_place v timestamp x y) g kind h =
    elim (Bool-cases (str_eq v "Server")) [ inl e ↦ rw e h | inr e ↦ rw e h ]
handle_game_message-Leads u (movement_correction x y) g kind h =
    rw (correct_movement, h.is_first)
      (record {
        first = set_boomberman_pos (truncate x) (truncate y) h.first;
        others = h.others;
        is_first = refl;
        name = h.name;
      })
handle_game_message-Leads u m g kind h = h

-- While none of the messages takes the first player out of the game, all of them are handled, and he stays the first: the
-- corrections among them are his.
pub handle_game_messages-Leads :
    (u : String) (ms : List Message) (g : Game)
    → All (λ m. spares u m ≡ true) ms
    → Leads u g.eh.players
    → (g' : Game) × (handle_game_messages ms g ≡ some g') × Leads u g'.eh.players
unfolding handle_game_messages
handle_game_messages-Leads u [] g kind h = (g, refl, h)
handle_game_messages-Leads u (m ∷ ms) g kind h = elim (Option-cases (handle_game_message m g)) [
  | inl off ↦ absurd (subst (AnyLeads u) off (handle_game_message-Leads u m g (kind.0) h))
  | inr (g1, on) ↦
      let next : Leads u g1.eh.players =
        subst (AnyLeads u) on (handle_game_message-Leads u m g (kind.0) h) in
      let (g', e, last) = handle_game_messages-Leads u ms g1 (kind.1) next in
      (g', rw (handle_game_messages, on) e, last)
]
