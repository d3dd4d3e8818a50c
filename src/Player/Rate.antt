-- ===== src/Player/Rate.antt =====
-- The speed limit of `MoveCheckSus` over a run of moves.
use boomberman.Base.{
  eq_ℤ, Bool-cases, ℕ, zero, suc, ◌+◌, ◌%◌, ◌≤◌, ◌<◌, ◌≡◌, refl, sym, ap, ◌∙◌, ◌≢◌, inl, inr,
  Option, none, some, List, [], ◌∷◌, arith, ℤ, pos, Option-cases, length, get_elem?, set,
  length-set, get_elem?-set_self, get_elem?-set_ne, get_elem?-total,
}
use boomberman.Player.{
  int_max, Player, MovementEntry, move_check_sus, check_rate, moved, oldest_step,
  player_sus_treshhold_millis,
}
use boomberman.Player.Moves.{IsTracked}

pub record Move : Type 0 where
  pub ts : ℕ
  pub x : ℤ
  pub y : ℤ

-- The moves one after another, as long as none of them is corrected.
unfoldable pub walk : List Move → Player → Option Player
walk [] p = some p
walk (m ∷ ms) p = elim (move_check_sus m.ts m.x m.y p) [
  | none ↦ none
  | some (q, some c) ↦ none
  | some (q, none) ↦ walk ms q
]

-- A move that is accepted past the first five writes its slot and no other, and comes no sooner
-- than the limit after the move whose slot is next.
record Accepts (n : ℕ) (m : Move) (p q : Player) : Type 0 where
  tracked : IsTracked q
  step : q.step ≡ pos (n + 1)
  written : (e : MovementEntry) × (get_elem? q.move_history ((n + 1) % 5) ≡ some e) × (e.ts ≡ m.ts)
  kept : (r : ℕ) → r ≢ (n + 1) % 5 → get_elem? q.move_history r ≡ get_elem? p.move_history r
  spaced :
      (e : MovementEntry)
      → get_elem? p.move_history ((n + 2) % 5) ≡ some e
      → e.ts + player_sus_treshhold_millis ≤ m.ts

oldest_step_lem : (n : ℕ) → oldest_step (n + 1) ≡ (n + 2) % 5
oldest_step_lem n = ground arith

check_rate-Accepts :
    (n : ℕ) (m : Move) (p q : Player)
    → IsTracked p
    → 5 ≤ n
    → check_rate m.ts m.x m.y (record p { step = pos (n + 1) }) ≡ some (q, none)
    → Accepts n m p q
unfolding check_rate
check_rate-Accepts n m p q h late e =
    let entry : MovementEntry = record { ts = m.ts; coords = record { x = m.x; y = m.y } } in
    let slot : (n + 1) % 5 < length p.move_history = omega arith in
    let (old, read) =
      get_elem?-total p.move_history (oldest_step (n + 1)) (omega (arith, oldest_step_lem n)) in
    let read' : get_elem? p.move_history ((n + 2) % 5) ≡ some old =
      rw (oldest_step_lem n) at read in
    let new : q ≡ record (moved m.x m.y p) {
      step = pos (n + 1);
      move_history = set p.move_history ((n + 1) % 5) entry;
    } =
      ground arith in
    let hist : q.move_history ≡ set p.move_history ((n + 1) % 5) entry =
      ap (λ (r : Player). r.move_history) new in
    record {
      tracked = rw hist (length-set p.move_history ((n + 1) % 5) entry ∙ h);
      step = ground arith;
      written = (entry, rw hist (get_elem?-set_self p.move_history ((n + 1) % 5) entry slot), refl);
      kept =
          λ r ne. rw hist (get_elem?-set_ne p.move_history ((n + 1) % 5) r entry (λ k. ne (sym k)));
      spaced = λ o ho. ground arith;
    }

move_check_sus-Accepts :
    (n : ℕ) (m : Move) (p q : Player)
    → IsTracked p
    → p.step ≡ pos n
    → 5 ≤ n
    → move_check_sus m.ts m.x m.y p ≡ some (q, none)
    → Accepts n m p q
unfolding move_check_sus
move_check_sus-Accepts n m p q h s late e = elim (Bool-cases (eq_ℤ p.step (pos int_max))) [
  | inl last ↦ absurd (ground (arith, last, e))
  | inr counts ↦ check_rate-Accepts n m p q h late (ground (arith, counts, e, s))
]

walk-cons :
    (m : Move) (ms : List Move) (p q : Player)
    → walk (m ∷ ms) p ≡ some q
    → (r : Player) × (move_check_sus m.ts m.x m.y p ≡ some (r, none)) × (walk ms r ≡ some q)
unfolding walk
walk-cons m ms p q w = elim (Option-cases (move_check_sus m.ts m.x m.y p)) [
  | inl e ↦ ground arith
  | inr ((r, none), e) ↦ (r, e, ground arith)
  | inr ((r, some c), e) ↦ ground arith
]

-- An entry that is checked by the k-th move of a run bounds the time of that move.
walk-spaced :
    (k n : ℕ) (ms : List Move) (p q : Player) (old : MovementEntry) (b : Move)
    → k ≤ 3
    → IsTracked p
    → p.step ≡ pos n
    → 5 ≤ n
    → walk ms p ≡ some q
    → get_elem? p.move_history ((n + k + 2) % 5) ≡ some old
    → get_elem? ms k ≡ some b
    → old.ts + player_sus_treshhold_millis ≤ b.ts
unfolding walk
walk-spaced k n [] p q old b hk h s late w o g = cc
walk-spaced zero n (m ∷ ms) p q old b hk h s late w o g =
    let (r, e, rest) = walk-cons m ms p q w in
    let a = move_check_sus-Accepts n m p r h s late e in ground (arith, a.spaced old)
walk-spaced (suc k) n (m ∷ ms) p q old b hk h s late w o g =
    let (r, e, rest) = walk-cons m ms p q w in
    let a = move_check_sus-Accepts n m p r h s late e in
    let same : (n + 1 + k + 2) % 5 ≡ (n + suc k + 2) % 5 = ap (λ (t : ℕ). t % 5) (omega arith) in
    walk-spaced k (n + 1) ms r q old b (omega arith) a.tracked a.step (omega arith) rest
      (rw same (a.kept ((n + suc k + 2) % 5) (omega arith) ∙ o)) g

-- A player past his first five counted moves makes any number of further moves, none of them
-- corrected. Then of any five in a row the last comes at least 50 ms after the first.
pub walk-rate :
    (i n : ℕ) (ms : List Move) (p q : Player) (first fifth : Move)
    → IsTracked p
    → p.step ≡ pos n
    → 5 ≤ n
    → walk ms p ≡ some q
    → get_elem? ms i ≡ some first
    → get_elem? ms (i + 4) ≡ some fifth
    → first.ts + player_sus_treshhold_millis ≤ fifth.ts
walk-rate i n [] p q first fifth h s late w a b = cc
walk-rate zero n (m ∷ ms) p q first fifth h s late w a b =
    let (r, e, rest) = walk-cons m ms p q w in
    let c = move_check_sus-Accepts n m p r h s late e in
    let same : (n + 1 + 3 + 2) % 5 ≡ (n + 1) % 5 = omega arith in
    let d =
      walk-spaced 3 (n + 1) ms r q (c.written.0) fifth (omega arith) c.tracked c.step (omega arith)
        rest (rw same (c.written.1)) b in
    ground arith
walk-rate (suc i) n (m ∷ ms) p q first fifth h s late w a b =
    let (r, e, rest) = walk-cons m ms p q w in
    let c = move_check_sus-Accepts n m p r h s late e in
    let next : suc i + 4 ≡ suc (i + 4) = omega arith in
    walk-rate i (n + 1) ms r q first fifth c.tracked c.step (omega arith) rest a (rw next at b)
