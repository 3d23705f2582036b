-- ===== src/Base/Text.antt =====
-- A Go string is a sequence of bytes; `lit` gives the bytes of an ASCII literal.
use Prim.Native.Nat.{ℕ}
use Prim.Native.Char.{code}
use Prim.Native.String.{String}
use mathlib.Core.Path.{◌≡◌}
use mathlib.Core.Logic.{◌↔◌}
use mathlib.Core.Bool.{Bool, true, false, ◌&&◌}
use mathlib.Core.List.{List, [], ◌∷◌}
use native.Mathlib.Omega.{arith}
use tlswrapper.Base.Tests.{◌==◌}

abbrev pub Str : Type 0
Str = List ℕ

abbrev pub lit : String → Str
lit String.[] = []
lit (String.◌∷◌ c s) = code c ∷ lit s

abbrev pub str_eq : Str → Str → Bool
str_eq [] [] = true
str_eq [] (y ∷ ys) = false
str_eq (x ∷ xs) [] = false
str_eq (x ∷ xs) (y ∷ ys) = (x == y) && str_eq xs ys

abbrev pub is_empty : Str → Bool
is_empty [] = true
is_empty (x ∷ xs) = false

pub str_eq_iff : (s t : Str) → (str_eq s t ≡ true) ↔ (s ≡ t)
str_eq_iff [] [] = ground arith
str_eq_iff [] (y ∷ ys) = ground arith
str_eq_iff (x ∷ xs) [] = ground arith
str_eq_iff (x ∷ xs) (y ∷ ys) = ground (arith, str_eq_iff xs ys)
