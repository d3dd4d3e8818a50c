-- ===== src/Client/Names.antt =====
-- Players by their names, on the server and on the client.
use boomberman.Room.Players.{find_player-All}
use boomberman.Room.Disconnect.{erase_player}
use boomberman.Room.Explosion.{is_alive}
use boomberman.Player.{Player}
use boomberman.Client.{Boomberman}
use boomberman.Room.{update_player, find_player}
use text.Mathlib.Text.{◌==◌ as str_eq}
use boomberman.Base.{
  str_eq→eq, arith, subst, inr, inl, pos, ◌==◌, refl, [], Bool-cases, false, some, none, ◌≡◌, ◌∷◌,
  All, if◌then◌else◌, List, Option, ℤ, String, ℕ,
}

-- What a client is to show of a player.
pub record View : Type 0 where
  pub x : ℤ
  pub y : ℤ
  pub lives : ℤ

abbrev pub shown : Boomberman → View
shown b = record { x = b.x; y = b.y; lives = b.health }

abbrev pub view_of : Player → Option View
view_of p =
    if is_alive p
    then some (record { x = p.coords.x; y = p.coords.y; lives = pos p.lives_remaining })
    else none

-- What is to be shown under a name: the player of that name, if he is alive.
abbrev pub server_view : String → List Player → Option View
server_view u [] = none
server_view u (p ∷ ps) =
    let rest = server_view u ps in if str_eq p.username u then view_of p else rest

abbrev pub client_view : String → List Boomberman → Option View
client_view u [] = none
client_view u (b ∷ bs) =
    let rest = client_view u bs in if str_eq b.pseudonim u then some (shown b) else rest

-- Nobody in the list has the name.
abbrev pub IsUnused {ℓ} : {A : Type ℓ} → (A → String) → String → List A → Type 0
IsUnused name u xs = All (λ x. str_eq (name x) u ≡ false) xs

abbrev pub DistinctNames {ℓ} : {A : Type ℓ} → (A → String) → List A → Type 0
DistinctNames name [] = Unit
DistinctNames name (x ∷ xs) = IsUnused name (name x) xs × DistinctNames name xs

module _ (u : String) where
  pub server_view-unused :
      (ps : List Player) → IsUnused (λ p. p.username) u ps → server_view u ps ≡ none
  server_view-unused [] h = refl
  server_view-unused (p ∷ ps) h = rw (h.0) (server_view-unused ps (h.1))

  pub client_view-unused :
      (bs : List Boomberman) → IsUnused (λ b. b.pseudonim) u bs → client_view u bs ≡ none
  client_view-unused [] h = refl
  client_view-unused (b ∷ bs) h = rw (h.0) (client_view-unused bs (h.1))

  pub IsUnused-client_view :
      (bs : List Boomberman) → client_view u bs ≡ none → IsUnused (λ b. b.pseudonim) u bs
  IsUnused-client_view [] h = tt
  IsUnused-client_view (b ∷ bs) h = elim (Bool-cases (str_eq b.pseudonim u)) [
    | inl e ↦
        let h' : some (shown b) ≡ none =
          subst (λ t. (if t then some (shown b) else client_view u bs) ≡ none) e h in
        cc
    | inr e ↦ (
      e,
      IsUnused-client_view bs
          (subst (λ t. (if t then some (shown b) else client_view u bs) ≡ none) e h),
    )
  ]

-- A change of one player, found by his connection.
pub server_view-update_player :
    (u : String) (c : ℕ) (f : Player → Player) (ps : List Player) (p : Player)
    → find_player c ps ≡ some p
    → (f p).username ≡ p.username
    → DistinctNames (λ q. q.username) ps
    → server_view u (update_player c f ps)
      ≡ (if str_eq p.username u then view_of (f p) else server_view u ps)
unfolding find_player update_player
server_view-update_player u c f [] p e k d = cc
server_view-update_player u c f (q ∷ ps) p e k d = elim (Bool-cases (q.conn == c)) [
  | inl e1 ↦
      let same : q ≡ p = ground (arith, e, e1) in
      let kept : (f q).username ≡ q.username = rw same k in
      elim (Bool-cases (str_eq q.username u)) [
        | inl e2 ↦ rw (e1, ← same, kept, e2) refl
        | inr e2 ↦ rw (e1, ← same, kept, e2) refl
      ]
  | inr e1 ↦
      let there : find_player c ps ≡ some p = ground (arith, e, e1) in
      let ih = server_view-update_player u c f ps p there k (d.1) in
      let other : str_eq p.username q.username ≡ false =
        find_player-All (λ r. str_eq r.username q.username ≡ false) c ps p (d.0) there in
      elim (Bool-cases (str_eq q.username u)) [
        | inl e2 ↦
            let other_u : str_eq p.username u ≡ false =
              subst (λ t. str_eq p.username t ≡ false) (str_eq→eq q.username u e2) other in
            rw (e1, e2, other_u) refl
        | inr e2 ↦ rw (e1, e2) ih
      ]
]

pub server_view-erase_player :
    (u : String) (c : ℕ) (ps : List Player) (p : Player)
    → find_player c ps ≡ some p
    → DistinctNames (λ q. q.username) ps
    → server_view u (erase_player c ps) ≡ (if str_eq p.username u then none else server_view u ps)
unfolding find_player erase_player
server_view-erase_player u c [] p e d = cc
server_view-erase_player u c (q ∷ ps) p e d = elim (Bool-cases (q.conn == c)) [
  | inl e1 ↦
      let same : q ≡ p = ground (arith, e, e1) in
      elim (Bool-cases (str_eq q.username u)) [
        | inl e2 ↦
            let none_left =
              server_view-unused u ps
                (subst (λ t. IsUnused (λ r. r.username) t ps) (str_eq→eq q.username u e2) (d.0)) in
            rw (e1, ← same, e2) none_left
        | inr e2 ↦ rw (e1, ← same, e2) refl
      ]
  | inr e1 ↦
      let there : find_player c ps ≡ some p = ground (arith, e, e1) in
      let ih = server_view-erase_player u c ps p there (d.1) in
      let other : str_eq p.username q.username ≡ false =
        find_player-All (λ r. str_eq r.username q.username ≡ false) c ps p (d.0) there in
      elim (Bool-cases (str_eq q.username u)) [
        | inl e2 ↦
            let other_u : str_eq p.username u ≡ false =
              subst (λ t. str_eq p.username t ≡ false) (str_eq→eq q.username u e2) other in
            rw (e1, e2, other_u) refl
        | inr e2 ↦ rw (e1, e2) ih
      ]
]
