-- ===== src/Connection/Frames.antt =====
-- The framing of the stream: each message is one byte for its length and then its bytes.
use boomberman.Connection.{to_size, inc}
use boomberman.Base.{
  false, true, ◌+◌, leb, arith, lt→ltb, suc, some, ap, refl, ◌≢◌, [], ◌≡◌, ◌++◌, length, take, ◌∷◌,
  ◌≤◌, drop, ◌<◌, List, Option, ℕ,
}

abbrev pub frame : List ℕ → List ℕ
frame body = length body ∷ body

abbrev pub stream : List (List ℕ) → List ℕ
stream [] = []
stream (body ∷ bodies) = frame body ++ stream bodies

-- Lengths that a signed `char` holds.
abbrev pub IsShort : List ℕ → Type 0
IsShort body = length body < 128

-- What the code relies on of `read` on a connected socket, on which bytes are pending: asked for some, it
-- answers a part of them from the front, at most as many as asked for, and none only at the end of the stream.
pub record IsStream {ℓ} {S : Type ℓ} (read : ℕ → S → Option (List ℕ) × S) (pending : S → List ℕ)
    : Type ℓ where
  pub reads :
      (n : ℕ) (s : S)
      → 1 ≤ n
      → pending s ≢ []
      → (b : ℕ) × (bytes : List ℕ) × (s' : S) × (read n s ≡ (some (b ∷ bytes), s'))
        × (length (b ∷ bytes) ≤ n)
        × ((b ∷ bytes) ++ pending s' ≡ pending s)
  pub ends :
      (n : ℕ) (s : S) → pending s ≡ [] → (s' : S) × (read n s ≡ (some [], s')) × (pending s' ≡ [])

-- `ParseFromArray` reads no byte past the size it is given.
abbrev pub IsBounded {ℓ} : {M : Type ℓ} → (ℕ → List ℕ → M) → Type ℓ
IsBounded parse =
    (body junk : List ℕ) → parse (length body) (body ++ junk) ≡ parse (length body) body

-- A list that starts two splits of one list: the shorter start begins the longer one.
pub append-split {ℓ} :
    {A : Type ℓ} (xs ys us vs : List A)
    → xs ++ ys ≡ us ++ vs
    → length us ≤ length xs
    → (mid : List A) × (xs ≡ us ++ mid) × (mid ++ ys ≡ vs)
append-split xs ys [] vs e h = (xs, refl, e)
append-split [] ys (u ∷ us) vs e h = absurd (omega (arith, h))
append-split (x ∷ xs) ys (u ∷ us) vs e h =
    let (mid, p, q) = append-split xs ys us vs (cc) (omega (arith, h)) in (mid, cc, q)

pub drop-append {ℓ} : {A : Type ℓ} (xs ys : List A) → drop (length xs) (xs ++ ys) ≡ ys
drop-append [] ys = refl
drop-append (x ∷ xs) ys = drop-append xs ys

pub take-append {ℓ} : {A : Type ℓ} (xs ys : List A) → take (length xs) (xs ++ ys) ≡ xs
take-append [] ys = refl
take-append (x ∷ xs) ys = ap (λ t. x ∷ t) (take-append xs ys)

pub to_size-small : (b : ℕ) → b < 128 → to_size b ≡ b
unfolding to_size
to_size-small b h = rw (lt→ltb b 128 h) refl

pub inc-small : (b : ℕ) → b < 128 → inc b ≡ suc b
unfolding inc
inc-small b h = omega arith

pub leb→le : (a b : ℕ) → leb a b ≡ true → a ≤ b
leb→le a b h = ground arith

pub leb→gt : (a b : ℕ) → leb a b ≡ false → b < a
leb→gt a b h = ground arith

pub add_one : (n : ℕ) → n + 1 ≡ suc n
add_one n = omega arith

pub empty {ℓ} : {A : Type ℓ} (xs : List A) → length xs ≡ 0 → xs ≡ []
empty [] e = refl
empty (x ∷ xs) e = absurd (omega (arith, e))

pub zero_add : (n : ℕ) → 0 + n ≡ n
zero_add n = omega arith

pub suc_add : (m n : ℕ) → suc m + n ≡ suc (m + n)
suc_add m n = omega arith
