-- ===== src/Server/Tables.antt =====
-- Membership in the tables of `Server` after their erasures.
use boomberman.Server.Loop.{find_assignment}
use boomberman.Server.{erase_key, erase_assignment, erase_first}
use boomberman.Room.Invariant.{IsFresh, Distinct}
use boomberman.Room.Disconnect.Loop.{member-append, member}
use boomberman.Server.Lobby.{erase_last}
use boomberman.Base.{
  some, if◌then◌else◌, Option, String, ==→eq, ◌++◌, subst, ==→ne, ne→==, refl, [], ◌||◌, Bool, ap,
  inr, arith, inl, not, ◌&&◌, Bool-cases, ◌∷◌, false, ◌≡◌, ◌==◌, List, ℕ,
}

pub member-erase_key :
    (c d : ℕ) (keys : List ℕ) → member c (erase_key d keys) ≡ (member c keys && not (c == d))
unfolding erase_key
member-erase_key c d [] = refl
member-erase_key c d (k ∷ keys) = ground (arith, member-erase_key c d keys)

pub member-erase_last :
    (c d : ℕ) (cs : List ℕ) → (d == c) ≡ false → member d (erase_last c cs) ≡ member d cs
unfolding erase_last
member-erase_last c d [] n = refl
member-erase_last c d (k ∷ cs) n = elim (Bool-cases (k == c && not (member c cs))) [
  | inl e ↦ rw e (ground (arith, e, n))
  | inr e ↦ rw e (ap (λ (b : Bool). d == k || b) (member-erase_last c d cs n))
]

pub member-erase_first :
    (c d : ℕ) (cs : List ℕ) → (d == c) ≡ false → member d (erase_first c cs) ≡ member d cs
unfolding erase_first
member-erase_first c d [] n = refl
member-erase_first c d (k ∷ cs) n = elim (Bool-cases (k == c)) [
  | inl e ↦ rw e (ground (arith, e, n))
  | inr e ↦ rw e (ap (λ (b : Bool). d == k || b) (member-erase_first c d cs n))
]

pub find_assignment-erase :
    (c d : ℕ) (rows : List (ℕ × String))
    → (d == c) ≡ false
    → find_assignment d (erase_assignment c rows) ≡ find_assignment d rows
unfolding find_assignment erase_assignment
find_assignment-erase c d [] n = refl
find_assignment-erase c d (row ∷ rows) n = elim (Bool-cases (row.0 == c)) [
  | inl e ↦
      let miss : (row.0 == d) ≡ false = ground (arith, e, n) in
      rw (e, miss) (find_assignment-erase c d rows n)
  | inr e ↦ rw e (
      ap (λ (o : Option String). if row.0 == d then some (row.1) else o)
        (find_assignment-erase c d rows n))
]

IsFresh-erase_first : (c d : ℕ) (cs : List ℕ) → IsFresh d cs → IsFresh d (erase_first c cs)
unfolding erase_first
IsFresh-erase_first c d [] h = tt
IsFresh-erase_first c d (k ∷ cs) h = elim (Bool-cases (k == c)) [
  | inl e ↦ rw e (h.1)
  | inr e ↦ rw e (h.0, IsFresh-erase_first c d cs h.1)
]

pub Distinct-erase_first : (c : ℕ) (cs : List ℕ) → Distinct cs → Distinct (erase_first c cs)
unfolding erase_first
Distinct-erase_first c [] h = tt
Distinct-erase_first c (k ∷ cs) h = elim (Bool-cases (k == c)) [
  | inl e ↦ rw e (h.1)
  | inr e ↦ rw e (IsFresh-erase_first c k cs h.0, Distinct-erase_first c cs h.1)
]

-- What is fresh is no member, and conversely.
pub IsFresh-outside : (c : ℕ) (cs : List ℕ) → IsFresh c cs → member c cs ≡ false
IsFresh-outside c [] h = refl
IsFresh-outside c (k ∷ cs) h = rw (ne→== c k (h.0)) (IsFresh-outside c cs h.1)

pub outside-IsFresh : (c : ℕ) (cs : List ℕ) → member c cs ≡ false → IsFresh c cs
outside-IsFresh c [] e = tt
outside-IsFresh c (k ∷ cs) e =
    (==→ne c k (ground (arith, e)), outside-IsFresh c cs (ground (arith, e)))

-- Without duplicates, the erasure of a key leaves none, whichever of its places it takes.
pub erase_first-gone : (c : ℕ) (cs : List ℕ) → Distinct cs → member c (erase_first c cs) ≡ false
unfolding erase_first
erase_first-gone c [] d = refl
erase_first-gone c (k ∷ cs) d = elim (Bool-cases (k == c)) [
  | inl e ↦ rw e (IsFresh-outside c cs (subst (λ (z : ℕ). IsFresh z cs) (==→eq k c e) (d.0)))
  | inr e ↦
      let miss : (c == k) ≡ false = ground (arith, e) in rw (e, miss) (erase_first-gone c cs d.1)
]

pub erase_last-erase_first :
    (c : ℕ) (cs : List ℕ) → Distinct cs → erase_last c cs ≡ erase_first c cs
unfolding erase_last erase_first
erase_last-erase_first c [] d = refl
erase_last-erase_first c (k ∷ cs) d = elim (Bool-cases (k == c)) [
  | inl e ↦
      let out : member c cs ≡ false =
        IsFresh-outside c cs (subst (λ (z : ℕ). IsFresh z cs) (==→eq k c e) (d.0)) in
      rw (e, out) refl
  | inr e ↦ rw e (ap (λ (t : List ℕ). k ∷ t) (erase_last-erase_first c cs d.1))
]

pub Distinct-append :
    (c : ℕ) (cs : List ℕ) → Distinct cs → member c cs ≡ false → Distinct (cs ++ c ∷ [])
Distinct-append c [] d n = (tt, tt)
Distinct-append c (k ∷ cs) d n = (
  outside-IsFresh k (cs ++ c ∷ [])
      (ground (arith, n, member-append k cs (c ∷ []), IsFresh-outside k cs (d.0))),
  Distinct-append c cs d.1 (ground (arith, n)),
)
