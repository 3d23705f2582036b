-- ===== src/Base/Bags.antt =====
-- Bags of numbers as lists: membership, removal of one, and the number of occurrences.
use Prim.Native.Nat.{ℕ, suc, ◌+◌}
use mathlib.Core.Path.{◌≡◌}
use mathlib.Core.Bool.{Bool, true, false, ◌||◌}
use mathlib.Core.List.{List, [], ◌∷◌, ◌++◌}
use native.Mathlib.Omega.{arith}
use tlswrapper.Base.Tests.{◌==◌, if◌then◌else◌}

abbrev pub mem : ℕ → List ℕ → Bool
mem i [] = false
mem i (x ∷ xs) = x == i || mem i xs

unfoldable pub remove : ℕ → List ℕ → List ℕ
remove i [] = []
remove i (x ∷ xs) = if x == i then xs else x ∷ remove i xs

-- How often `i` stands in a list.
abbrev pub count : ℕ → List ℕ → ℕ
count i [] = 0
count i (x ∷ xs) = if x == i then suc (count i xs) else count i xs

pub count-append : (i : ℕ) (xs ys : List ℕ) → count i (xs ++ ys) ≡ count i xs + count i ys
count-append i [] ys = omega arith
count-append i (x ∷ xs) ys = ground (arith, count-append i xs ys)

pub count-remove :
    (i k : ℕ) (xs : List ℕ)
    → mem k xs ≡ true
    → count i xs ≡ (if k == i then suc (count i (remove k xs)) else count i (remove k xs))
unfolding remove
count-remove i k [] h = ground (arith, h)
count-remove i k (x ∷ xs) h = ground (arith, h, count-remove i k xs)

pub count_mem : (i : ℕ) (xs : List ℕ) → mem i xs ≡ false → count i xs ≡ 0
count_mem i [] h = omega arith
count_mem i (x ∷ xs) h = ground (arith, h, count_mem i xs)
