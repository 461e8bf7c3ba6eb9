-- ===== src/Base/Text.antt =====
-- C strings: their bytes, without the NUL at the end.
use Prim.Native.Nat.{ℕ}
use Prim.Native.Char.{code}
use Prim.Native.String.{String}
use mathlib.Core.Path.{◌≡◌, refl}
use mathlib.Core.Bool.{Bool, true, false, ◌&&◌}
use mathlib.Core.List.{List, [], ◌∷◌}
use native.Mathlib.Omega.{arith}
use motmot.Base.Tests.{◌==◌}

abbrev pub Chars : Type 0
Chars = List ℕ

-- A literal of the source.
abbrev pub codes : String → Chars
codes String.[] = []
codes (String.◌∷◌ c s) = code c ∷ codes s

-- `strcmp(x, y) == 0`
unfoldable pub equal : Chars → Chars → Bool
equal [] [] = true
equal [] (y ∷ ys) = false
equal (x ∷ xs) [] = false
equal (x ∷ xs) (y ∷ ys) = (x == y) && equal xs ys

pub equal_refl : (x : Chars) → equal x x ≡ true
unfolding equal
equal_refl [] = refl
equal_refl (x ∷ xs) = ground (arith, equal_refl xs)

pub eq-of-equal : (x y : Chars) → equal x y ≡ true → x ≡ y
unfolding equal
eq-of-equal [] [] h = refl
eq-of-equal [] (y ∷ ys) h = ground arith
eq-of-equal (x ∷ xs) [] h = ground arith
eq-of-equal (x ∷ xs) (y ∷ ys) h = ground (arith, eq-of-equal xs ys)
