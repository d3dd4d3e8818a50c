-- ===== src/Base/Text.antt =====
-- Texts joined and compared, under names of their own beside those of lists and numbers.
use boomberman.Base.Tests.{Bool-cases}
use Prim.Native.String.{String, ◌++◌}
use mathlib.Core.Path.{◌≡◌}
use mathlib.Core.Bool.{true, false}
use mathlib.Core.Logic.{◌≢◌, inl, inr}
use text.Mathlib.Text.{◌==◌ as str_eq}
use text.Mathlib.TextEquality.{eq_iff}

abbrev pub str_append : String → String → String
str_append a b = a ++ b

pub str_eq→eq : (a b : String) → str_eq a b ≡ true → a ≡ b
str_eq→eq a b e = (eq_iff a b).0 e

pub eq→str_eq : (a b : String) → a ≡ b → str_eq a b ≡ true
eq→str_eq a b e = (eq_iff a b).1 e

pub str_eq→ne : (a b : String) → str_eq a b ≡ false → a ≢ b
str_eq→ne a b e k = let h = eq→str_eq a b k in cc

pub ne→str_eq : (a b : String) → a ≢ b → str_eq a b ≡ false
ne→str_eq a b h = elim (Bool-cases (str_eq a b)) [
  | inl e ↦ absurd (h (str_eq→eq a b e))
  | inr e ↦ e
]
