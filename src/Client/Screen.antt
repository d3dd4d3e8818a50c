-- ===== src/Client/Screen.antt =====
-- The entry of a name on the client's screen: `ServerHandler::selectUsername` of game/src/client/ServerHandler.cpp. A name is a
-- list of bytes. A key is the code that the window library gives, 0 for none.
use boomberman.Room.Disconnect.Loop.{member}
use boomberman.Base.{
  refl, arith, ◌≡◌, true, false, All-append, ◌%◌, ◌++◌, inr, inl, not, ◌==◌, Bool-cases, false, [],
  if◌then◌else◌, Bool, All, ◌∷◌, List, ◌<◌, ℕ,
}

abbrev pub key_enter : ℕ
key_enter = 257

abbrev pub key_backspace : ℕ
key_backspace = 259

abbrev pub invalid_chars : List ℕ
invalid_chars =
    32 ∷ 256 ∷ 257 ∷ 258 ∷ 259 ∷ 260 ∷ 261 ∷ 262 ∷ 263 ∷ 264 ∷ 265 ∷ 266 ∷ 267 ∷ 268 ∷ 269 ∷ 280
    ∷ 281 ∷ 282 ∷ 283 ∷ 284 ∷ 340 ∷ 341 ∷ 342 ∷ 343 ∷ 344 ∷ 345 ∷ 346 ∷ 347 ∷ 348 ∷ []

unfoldable pub is_invalid : ℕ → Bool
is_invalid key = member key invalid_chars

-- `strlen(username.c_str()) > 0`
abbrev pub has_length : List ℕ → Bool
has_length [] = false
has_length (c ∷ cs) = not (c == 0)

abbrev pub pop_back : List ℕ → List ℕ
pop_back [] = []
pop_back (c ∷ []) = []
pop_back (c ∷ d ∷ cs) = c ∷ pop_back (d ∷ cs)

-- The name after a key, and whether it has been entered.
unfoldable pub press : ℕ → List ℕ → List ℕ × Bool
press key username =
    if key == 0
    then (username, false)
    else (if key == key_backspace
        then (if has_length username then pop_back username else username, false)
        else (if key == key_enter
            then (username, has_length username)
            else (if is_invalid key
                then (username, false)
                else (username ++ key % 256 ∷ [], false))))

-- `selectUsername`, for the keys up to the closing of the window.
unfoldable pub select_username : List ℕ → List ℕ → List ℕ
select_username [] username = username
select_username (key ∷ keys) username =
    let (next, entered) = press key username in
    elim entered [ true ↦ next | false ↦ select_username keys next ]

-- The codes of the window library's keys end at 348.
abbrev pub IsKey : ℕ → Type 0
IsKey key = key < 349

abbrev pub IsByte : ℕ → Type 0
IsByte c = (0 < c) × (c < 256)

pop_back-All : (cs : List ℕ) → All IsByte cs → All IsByte (pop_back cs)
pop_back-All [] h = tt
pop_back-All (c ∷ []) h = tt
pop_back-All (c ∷ d ∷ cs) h = (h.0, pop_back-All (d ∷ cs) (h.1))

valid-IsByte :
    (key : ℕ) → IsKey key → (key == 0) ≡ false → is_invalid key ≡ false → IsByte (key % 256)
unfolding is_invalid
valid-IsByte key k e1 e2 = ground (arith, k, e1, e2)

press-All :
    (key : ℕ) (username : List ℕ)
    → IsKey key
    → All IsByte username
    → All IsByte (press key username).0
unfolding press
press-All key username k h = elim (Bool-cases (key == 0)) [
  | inl e ↦ rw e h
  | inr e ↦ elim (Bool-cases (key == key_backspace)) [
    | inl e1 ↦
        rw (e, e1)
          (elim (Bool-cases (has_length username)) [
            | inl e2 ↦ rw e2 (pop_back-All username h)
            | inr e2 ↦ rw e2 h
          ])
    | inr e1 ↦ elim (Bool-cases (key == key_enter)) [
      | inl e2 ↦ rw (e, e1, e2) h
      | inr e2 ↦ elim (Bool-cases (is_invalid key)) [
        | inl e3 ↦ rw (e, e1, e2, e3) h
        | inr e3 ↦
            rw (e, e1, e2, e3)
              (All-append IsByte username (key % 256 ∷ []) h (valid-IsByte key k e e3, tt))
      ]
    ]
  ]
]

typed-All :
    (keys username : List ℕ)
    → All IsKey keys
    → All IsByte username
    → All IsByte (select_username keys username)
unfolding select_username
typed-All [] username ks h = h
typed-All (key ∷ keys) username ks h =
    let next = press-All key username (ks.0) h in
    elim (Bool-cases ((press key username).1)) [
      | inl e ↦ rw (select_username, e) next
      | inr e ↦ rw (select_username, e) (typed-All keys _ (ks.1) next)
    ]

-- A name typed with the window library's keys consists of bytes other than 0, so that the length that the code tests
-- is its own; and Enter never ends the typing of an empty name.
pub select_username-IsByte :
    (keys : List ℕ)
    → All IsKey keys
    → All IsByte (select_username keys [])
      × (select_username (key_enter ∷ keys) [] ≡ select_username keys [])
unfolding select_username press
select_username-IsByte keys ks = (typed-All keys [] ks tt, refl)
