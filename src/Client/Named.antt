-- ===== src/Client/Named.antt =====
-- The client's players by their names, under each change that the handler makes.
use boomberman.Client.Names.{client_view-unused, client_view, shown, DistinctNames, IsUnused, View}
use boomberman.Client.Handler.{update_named, erase_named}
use boomberman.Client.{Boomberman}
use text.Mathlib.Text.{◌==◌ as str_eq}
use boomberman.Base.{
  subst, refl, inr, All-append, ◌∙◌, sym, inl, [], if◌then◌else◌, str_eq→ne, str_eq→eq, Bool-cases,
  ◌∷◌, none, ne→str_eq, ◌++◌, ap, true, some, false, ◌≡◌, Option, List, String,
}

abbrev pub changed_view : (View → View) → Option View → Option View
changed_view g none = none
changed_view g (some v) = some (g v)

-- Texts of which one equals the other.
str_eq-subst : (a b c : String) → str_eq a b ≡ true → str_eq a c ≡ str_eq b c
str_eq-subst a b c e = ap (λ t. str_eq t c) (str_eq→eq a b e)

other-name : (a n u : String) → str_eq a n ≡ false → str_eq a u ≡ true → str_eq n u ≡ false
other-name a n u e1 e2 = ne→str_eq n u (λ k. str_eq→ne a n e1 (str_eq→eq a u e2 ∙ sym k))

module _ (f : Boomberman → Boomberman)
    (keeps : (b : Boomberman) → (f b).pseudonim ≡ b.pseudonim) where
  pub client_view-update_named :
      (g : View → View) (u n : String) (bs : List Boomberman)
      → ((b : Boomberman) → shown (f b) ≡ g (shown b))
      → client_view u (update_named n f bs)
        ≡ (if str_eq n u then changed_view g (client_view u bs) else client_view u bs)
  unfolding update_named
  client_view-update_named g u n [] same = elim (Bool-cases (str_eq n u)) [
    | inl e ↦ rw e refl
    | inr e ↦ rw e refl
  ]
  client_view-update_named g u n (b ∷ bs) same = elim (Bool-cases (str_eq b.pseudonim n)) [
    | inl e ↦
        let named = str_eq-subst b.pseudonim n u e in
        elim (Bool-cases (str_eq b.pseudonim u)) [
          | inl e1 ↦ rw (e, keeps b, e1, sym named ∙ e1) (ap some (same b))
          | inr e1 ↦ rw (e, keeps b, e1, sym named ∙ e1) refl
        ]
    | inr e ↦ elim (Bool-cases (str_eq b.pseudonim u)) [
      | inl e1 ↦ rw (e, e1, other-name b.pseudonim n u e e1) refl
      | inr e1 ↦ rw (e, e1) (client_view-update_named g u n bs same)
    ]
  ]

  pub IsUnused-update_named :
      (u n : String) (bs : List Boomberman)
      → IsUnused (λ b. b.pseudonim) u bs
      → IsUnused (λ b. b.pseudonim) u (update_named n f bs)
  unfolding update_named
  IsUnused-update_named u n [] h = tt
  IsUnused-update_named u n (b ∷ bs) h = elim (Bool-cases (str_eq b.pseudonim n)) [
    | inl e ↦ rw (e, keeps b) h
    | inr e ↦ rw e (h.0, IsUnused-update_named u n bs (h.1))
  ]

  pub DistinctNames-update_named :
      (n : String) (bs : List Boomberman)
      → DistinctNames (λ b. b.pseudonim) bs
      → DistinctNames (λ b. b.pseudonim) (update_named n f bs)
  unfolding update_named
  DistinctNames-update_named n [] h = tt
  DistinctNames-update_named n (b ∷ bs) h = elim (Bool-cases (str_eq b.pseudonim n)) [
    | inl e ↦ rw (e, keeps b) h
    | inr e ↦
        rw e (IsUnused-update_named b.pseudonim n bs (h.0), DistinctNames-update_named n bs (h.1))
  ]

pub client_view-erase_named :
    (u n : String) (bs : List Boomberman)
    → DistinctNames (λ b. b.pseudonim) bs
    → client_view u (erase_named n bs) ≡ (if str_eq n u then none else client_view u bs)
unfolding erase_named
client_view-erase_named u n [] d = elim (Bool-cases (str_eq n u)) [
  | inl e ↦ rw e refl
  | inr e ↦ rw e refl
]
client_view-erase_named u n (b ∷ bs) d = elim (Bool-cases (str_eq b.pseudonim n)) [
  | inl e ↦
      let named = str_eq-subst b.pseudonim n u e in
      elim (Bool-cases (str_eq b.pseudonim u)) [
        | inl e1 ↦
            let none_left =
              client_view-unused u bs (
                subst (λ t. IsUnused (λ b. b.pseudonim) t bs) (str_eq→eq b.pseudonim u e1) (d.0)) in
            rw (e, e1, sym named ∙ e1) none_left
        | inr e1 ↦ rw (e, e1, sym named ∙ e1) refl
      ]
  | inr e ↦ elim (Bool-cases (str_eq b.pseudonim u)) [
    | inl e1 ↦ rw (e, e1, other-name b.pseudonim n u e e1) refl
    | inr e1 ↦ rw (e, e1) (client_view-erase_named u n bs (d.1))
  ]
]

IsUnused-erase_named :
    (u n : String) (bs : List Boomberman)
    → IsUnused (λ b. b.pseudonim) u bs
    → IsUnused (λ b. b.pseudonim) u (erase_named n bs)
unfolding erase_named
IsUnused-erase_named u n [] h = tt
IsUnused-erase_named u n (b ∷ bs) h = elim (Bool-cases (str_eq b.pseudonim n)) [
  | inl e ↦ rw e (h.1)
  | inr e ↦ rw e (h.0, IsUnused-erase_named u n bs (h.1))
]

pub DistinctNames-erase_named :
    (n : String) (bs : List Boomberman)
    → DistinctNames (λ b. b.pseudonim) bs
    → DistinctNames (λ b. b.pseudonim) (erase_named n bs)
unfolding erase_named
DistinctNames-erase_named n [] h = tt
DistinctNames-erase_named n (b ∷ bs) h = elim (Bool-cases (str_eq b.pseudonim n)) [
  | inl e ↦ rw e (h.1)
  | inr e ↦ rw e (IsUnused-erase_named b.pseudonim n bs (h.0), DistinctNames-erase_named n bs (h.1))
]

-- A newcomer at the end, whose name is new.
pub client_view-append :
    (u : String) (b : Boomberman) (bs : List Boomberman)
    → IsUnused (λ b. b.pseudonim) b.pseudonim bs
    → client_view u (bs ++ b ∷ [])
      ≡ (if str_eq b.pseudonim u then some (shown b) else client_view u bs)
client_view-append u b [] h = refl
client_view-append u b (a ∷ bs) h = elim (Bool-cases (str_eq a.pseudonim u)) [
  | inl e ↦ rw (e, other-name a.pseudonim b.pseudonim u (h.0) e) refl
  | inr e ↦ rw e (client_view-append u b bs (h.1))
]

pub DistinctNames-append :
    (b : Boomberman) (bs : List Boomberman)
    → DistinctNames (λ b. b.pseudonim) bs
    → IsUnused (λ b. b.pseudonim) b.pseudonim bs
    → DistinctNames (λ b. b.pseudonim) (bs ++ b ∷ [])
DistinctNames-append b [] d h = (tt, tt)
DistinctNames-append b (a ∷ bs) d h =
    let swapped =
      ne→str_eq b.pseudonim a.pseudonim (λ k. str_eq→ne a.pseudonim b.pseudonim (h.0) (sym k)) in
    (
      All-append (λ c. str_eq c.pseudonim a.pseudonim ≡ false) bs (b ∷ []) (d.0) (swapped, tt),
      DistinctNames-append b bs (d.1) (h.1),
    )
