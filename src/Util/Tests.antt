-- ===== src/Util/Tests.antt =====
-- Names of rooms.
use boomberman.Base.{◌≡◌, ◌*◌, [], ◌∷◌, some, refl}
use boomberman.Util.{random_string}

first_and_last : random_string (λ n. n * 61) 2 ≡ some (48 ∷ 90 ∷ [])
unfolding random_string
first_and_last = refl
