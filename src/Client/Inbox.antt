-- ===== src/Client/Inbox.antt =====
-- What a room has sent to one socket, and how sends add to it.
use mathlib.Core.List.{append_assoc, append-nil}
use boomberman.Room.Disconnect.Loop.{member}
use boomberman.Room.Invariant.{Distinct, IsFresh}
use boomberman.Room.{conns, Room, send_except, send_specific, send_each}
use boomberman.Message.{closed, sent, Event, Net, Message}
use boomberman.Base.{
  arith, ==→eq, ==→ne, inr, subst, not, refl, ap, inl, ◌∙◌, keep, Bool-cases, sym, true, ◌++◌,
  false, ne→==, ◌≡◌, [], if◌then◌else◌, ◌∷◌, ◌==◌, List, ℕ,
}

-- The messages sent to a socket, the oldest first.
unfoldable pub inbox : ℕ → List Event → List Message
inbox d [] = []
inbox d (sent c m ∷ log) = let rest = inbox d log in if c == d then rest ++ m ∷ [] else rest
inbox d (closed c ∷ log) = inbox d log

-- What one send to each of the sockets gives to one of them.
abbrev pub copies : ℕ → Message → List ℕ → List Message
copies d m [] = []
copies d m (c ∷ cs) = let rest = copies d m cs in if c == d then m ∷ rest else rest

inbox-send_specific :
    (net : Net) (d c : ℕ) (m : Message) (r : Room)
    → inbox d (send_specific net c m r).log ≡ inbox d r.log ++ copies d m (c ∷ [])
unfolding inbox send_specific
inbox-send_specific net d c m r = elim (Bool-cases (net.answers r.log c)) [
  | inl e ↦ rw e (elim (Bool-cases (c == d)) [
    | inl k ↦ rw k refl
    | inr k ↦ rw k (sym (append-nil (inbox d r.log)))
  ])
  | inr e ↦ rw e (elim (Bool-cases (c == d)) [
    | inl k ↦ rw k refl
    | inr k ↦ rw k (sym (append-nil (inbox d r.log)))
  ])
]

-- A send to somebody else.
pub inbox-other :
    (net : Net) (d c : ℕ) (m : Message) (r : Room)
    → (c == d) ≡ false
    → inbox d (send_specific net c m r).log ≡ inbox d r.log
inbox-other net d c m r e = inbox-send_specific net d c m r ∙ rw e (append-nil (inbox d r.log))

copies-cons :
    (d c : ℕ) (m : Message) (cs : List ℕ)
    → copies d m (c ∷ []) ++ copies d m cs ≡ copies d m (c ∷ cs)
copies-cons d c m cs = elim (Bool-cases (c == d)) [ inl k ↦ rw k refl | inr k ↦ rw k refl ]

pub inbox-send_each :
    (net : Net) (d : ℕ) (cs : List ℕ) (m : Message) (r : Room)
    → inbox d (send_each net cs m r).log ≡ inbox d r.log ++ copies d m cs
unfolding send_each
inbox-send_each net d [] m r = sym (append-nil (inbox d r.log))
inbox-send_each net d (c ∷ cs) m r =
    inbox-send_each net d cs m (send_specific net c m r)
    ∙ ap (λ ms. ms ++ copies d m cs) (inbox-send_specific net d c m r)
    ∙ append_assoc (inbox d r.log) (copies d m (c ∷ [])) (copies d m cs)
    ∙ ap (λ ms. inbox d r.log ++ ms) (copies-cons d c m cs)

copies-fresh : (d : ℕ) (m : Message) (cs : List ℕ) → IsFresh d cs → copies d m cs ≡ []
copies-fresh d m [] h = refl
copies-fresh d m (c ∷ cs) h = rw (ne→== c d (λ e. h.0 (sym e))) (copies-fresh d m cs (h.1))

-- Of distinct sockets, one gets one copy.
pub copies-member :
    (d : ℕ) (m : Message) (cs : List ℕ) → Distinct cs → member d cs ≡ true → copies d m cs ≡ m ∷ []
copies-member d m [] u h = cc
copies-member d m (c ∷ cs) u h = elim (Bool-cases (c == d)) [
  | inl k ↦
      rw k (ap (λ ms. m ∷ ms) (copies-fresh d m cs (subst (λ e. IsFresh e cs) (==→eq c d k) (u.0))))
  | inr k ↦ rw k (copies-member d m cs (u.1) (ground (arith, h, k)))
]

copies-keep :
    (d c : ℕ) (m : Message) (cs : List ℕ)
    → (c == d) ≡ false
    → copies d m (keep (λ e. not (e == c)) cs) ≡ copies d m cs
copies-keep d c m [] h = refl
copies-keep d c m (e ∷ cs) h = elim (Bool-cases (e == c)) [
  | inl k ↦
      let other : (e == d) ≡ false = ne→== e d (λ z. ==→ne c d h (sym (==→eq e c k) ∙ z)) in
      rw (k, other) (copies-keep d c m cs h)
  | inr k ↦ rw k (elim (Bool-cases (e == d)) [
    | inl z ↦ rw z (ap (λ ms. m ∷ ms) (copies-keep d c m cs h))
    | inr z ↦ rw z (copies-keep d c m cs h)
  ])
]

-- A player who is not the one left out gets the message once.
pub inbox-send_except :
    (net : Net) (d c : ℕ) (m : Message) (r : Room)
    → (c == d) ≡ false
    → Distinct (conns r.players)
    → member d (conns r.players) ≡ true
    → inbox d (send_except net c m r).log ≡ inbox d r.log ++ m ∷ []
unfolding send_except
inbox-send_except net d c m r e u h =
    inbox-send_each net d _ m r
    ∙ ap (λ ms. inbox d r.log ++ ms)
        (copies-keep d c m (conns r.players) e ∙ copies-member d m (conns r.players) u h)
