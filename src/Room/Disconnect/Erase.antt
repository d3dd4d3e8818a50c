-- ===== src/Room/Disconnect/Erase.antt =====
-- The erasures of `Room::DisconnectPlayers`.
use boomberman.Room.Invariant.{IsSound, Distinct, IsFresh}
use boomberman.Player.{Player}
use boomberman.Room.Disconnect.{conns, erase_players, erase_player}
use boomberman.Base.{
  ℕ, ◌≤◌, sym, subst, inl, inr, List, [], ◌∷◌, arith, ◌==◌, ==→eq, ==→ne, Bool-cases, length, All,
}

IsFresh-erase_player :
    (c d : ℕ) (ps : List Player) → IsFresh d (conns ps) → IsFresh d (conns (erase_player c ps))
unfolding erase_player
IsFresh-erase_player c d [] h = tt
IsFresh-erase_player c d (p ∷ ps) h = elim (Bool-cases (p.conn == c)) [
  | inl e ↦ rw e (h.1)
  | inr e ↦ rw e (h.0, IsFresh-erase_player c d ps h.1)
]

Distinct-erase_player :
    (c : ℕ) (ps : List Player) → Distinct (conns ps) → Distinct (conns (erase_player c ps))
unfolding erase_player
Distinct-erase_player c [] h = tt
Distinct-erase_player c (p ∷ ps) h = elim (Bool-cases (p.conn == c)) [
  | inl e ↦ rw e (h.1)
  | inr e ↦ rw e (IsFresh-erase_player c p.conn ps h.0, Distinct-erase_player c ps h.1)
]

-- The erased connection is gone.
erase_player-IsFresh :
    (c : ℕ) (ps : List Player) → Distinct (conns ps) → IsFresh c (conns (erase_player c ps))
unfolding erase_player
erase_player-IsFresh c [] h = tt
erase_player-IsFresh c (p ∷ ps) h = elim (Bool-cases (p.conn == c)) [
  | inl e ↦ rw e (subst (λ (z : ℕ). IsFresh z (conns ps)) (==→eq p.conn c e) (h.0))
  | inr e ↦ rw e ((λ k. ==→ne p.conn c e (sym k)), erase_player-IsFresh c ps h.1)
]

pub All-erase_player {ℓ} :
    (P : Player → Type ℓ) (c : ℕ) (ps : List Player) → All P ps → All P (erase_player c ps)
unfolding erase_player
All-erase_player P c [] h = tt
All-erase_player P c (p ∷ ps) h = elim (Bool-cases (p.conn == c)) [
  | inl e ↦ rw e (h.1)
  | inr e ↦ rw e (h.0, All-erase_player P c ps h.1)
]

length-erase_player : (c : ℕ) (ps : List Player) → length (erase_player c ps) ≤ length ps
unfolding erase_player
length-erase_player c [] = omega arith
length-erase_player c (p ∷ ps) = ground (arith, length-erase_player c ps)

-- What is left after several erasures.
pub record Erases (cs : List ℕ) (ps left : List Player) : Type 0 where
  pub distinct : Distinct (conns left)
  pub shrinks : length left ≤ length ps
  pub sound : All IsSound left
  pub gone : All (λ c. IsFresh c (conns left)) cs

IsFresh-erase_players :
    (cs : List ℕ) (d : ℕ) (ps : List Player)
    → IsFresh d (conns ps)
    → IsFresh d (conns (erase_players cs ps))
unfolding erase_players
IsFresh-erase_players [] d ps h = h
IsFresh-erase_players (c ∷ cs) d ps h =
    IsFresh-erase_players cs d (erase_player c ps) (IsFresh-erase_player c d ps h)

pub erase_players-Erases :
    (cs : List ℕ) (ps : List Player)
    → Distinct (conns ps)
    → All IsSound ps
    → Erases cs ps (erase_players cs ps)
unfolding erase_players
erase_players-Erases [] ps d s = record {
  distinct = d;
  shrinks = omega arith;
  sound = s;
  gone = tt;
}
erase_players-Erases (c ∷ cs) ps d s =
    let rest =
      erase_players-Erases cs (erase_player c ps) (Distinct-erase_player c ps d)
        (All-erase_player IsSound c ps s) in
    record {
      distinct = rest.distinct;
      shrinks = omega (arith, rest.shrinks, length-erase_player c ps);
      sound = rest.sound;
      gone =
          (IsFresh-erase_players cs c (erase_player c ps) (erase_player-IsFresh c ps d), rest.gone);
    }
