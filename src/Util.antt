-- ===== src/Util.antt =====
-- game/src/shared/Util.cpp: the names of new rooms. A text is a list of bytes here, and the draws of the random generator
-- are an argument, the first one first.
mod Tests
use boomberman.Base.{
  refl, ◌||◌, ◌+◌, false, arith, ◌<◌, ◌&&◌, get_elem?, ◌-◌, ◌⊎◌, true, leb, All, ◌≤◌, Bool, length,
  Option, List, ◌≡◌, ℕ, [], ◌∷◌, none, some, zero, suc,
}

-- `chrs`, the digits and letters, and the zero that ends the literal.
abbrev pub chrs : List ℕ
chrs =
    48 ∷ 49 ∷ 50 ∷ 51 ∷ 52 ∷ 53 ∷ 54 ∷ 55 ∷ 56 ∷ 57 ∷ 97 ∷ 98 ∷ 99 ∷ 100 ∷ 101 ∷ 102 ∷ 103 ∷ 104
    ∷ 105 ∷ 106 ∷ 107 ∷ 108 ∷ 109 ∷ 110 ∷ 111 ∷ 112 ∷ 113 ∷ 114 ∷ 115 ∷ 116 ∷ 117 ∷ 118 ∷ 119 ∷ 120
    ∷ 121 ∷ 122 ∷ 65 ∷ 66 ∷ 67 ∷ 68 ∷ 69 ∷ 70 ∷ 71 ∷ 72 ∷ 73 ∷ 74 ∷ 75 ∷ 76 ∷ 77 ∷ 78 ∷ 79 ∷ 80 ∷ 81
    ∷ 82 ∷ 83 ∷ 84 ∷ 85 ∷ 86 ∷ 87 ∷ 88 ∷ 89 ∷ 90 ∷ 0 ∷ []

-- The largest draw, `sizeof(chrs) - 2`.
abbrev pub last_pick : ℕ
last_pick = length chrs - 2

-- `RandomString`; `none` is a read past the literal.
unfoldable pub random_string : (ℕ → ℕ) → ℕ → Option (List ℕ)
random_string pick zero = some []
random_string pick (suc n) = elim (get_elem? chrs (pick 0)) [
  | none ↦ none
  | some c ↦ elim (random_string (λ i. pick (i + 1)) n) [ none ↦ none | some cs ↦ some (c ∷ cs) ]
]

-- A digit or a letter.
abbrev pub IsAlphanumeric : ℕ → Type 0
IsAlphanumeric c = (48 ≤ c) × (c ≤ 57) ⊎ ((65 ≤ c) × (c ≤ 90) ⊎ (97 ≤ c) × (c ≤ 122))

-- A test of the numbers below a bound.
is_alphanumeric : ℕ → Bool
is_alphanumeric c = (leb 48 c && leb c 57) || ((leb 65 c && leb c 90) || (leb 97 c && leb c 122))

is_alphanumeric-IsAlphanumeric : (c : ℕ) → is_alphanumeric c ≡ true → IsAlphanumeric c
unfolding is_alphanumeric
is_alphanumeric-IsAlphanumeric c e = ground (arith, e)

all_below : (ℕ → Bool) → ℕ → List ℕ → Bool
all_below test zero cs = true
all_below test (suc n) [] = false
all_below test (suc n) (c ∷ cs) = test c && all_below test n cs

all_below-get :
    (n : ℕ) (cs : List ℕ) (i : ℕ)
    → all_below is_alphanumeric n cs ≡ true
    → i < n
    → (c : ℕ) × (get_elem? cs i ≡ some c) × (is_alphanumeric c ≡ true)
unfolding all_below
all_below-get zero cs i e h = absurd (omega (arith, h))
all_below-get (suc n) [] i e h = cc
all_below-get (suc n) (c ∷ cs) zero e h = (c, refl, ground (arith, e))
all_below-get (suc n) (c ∷ cs) (suc i) e h =
    all_below-get n cs i (ground (arith, e)) (omega (arith, h))

-- Where each draw is at most the last index before the end of the literal, as the distribution promises, the text has the
-- length asked for and consists of digits and letters.
pub random_string-All :
    (pick : ℕ → ℕ) (count : ℕ)
    → ((n : ℕ) → pick n ≤ last_pick)
    → (cs : List ℕ) × (random_string pick count ≡ some cs)
      × (length cs ≡ count)
      × All IsAlphanumeric cs
unfolding random_string all_below is_alphanumeric
random_string-All pick zero h = ([], refl, refl, tt)
random_string-All pick (suc n) h =
    let (c, e, a) = all_below-get 62 chrs (pick 0) refl (omega (arith, h 0)) in
    let (cs, e', l, alnum) = random_string-All (λ i. pick (i + 1)) n (λ i. h (i + 1)) in
    (
      c ∷ cs,
      rw (random_string, e, e') refl,
      omega (arith, l),
      (is_alphanumeric-IsAlphanumeric c a, alnum),
    )
