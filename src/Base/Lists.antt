-- ===== src/Base/Lists.antt =====
-- Lists measured and indexed by native numbers, under the library's names.
use Prim.Native.Nat.{ℕ, zero, suc, ◌+◌, ◌-◌, ◌≤◌, ◌<◌, ◌%◌, min}
use mathlib.Core.Path.{◌≡◌, refl, sym, ap, ◌∙◌, subst}
use mathlib.Core.Logic.{◌≢◌}
use mathlib.Core.List.{List, [], ◌∷◌, ◌++◌, map, Perm, perm_append_comm, append-nil}
use mathlib.Core.Option.{Option, none, some, some-injective}
use native.Mathlib.Nat.{mod-eq_of_lt, mod_self}
use native.Mathlib.Decide.{dec_lt}
use native.Mathlib.Omega.{arith}

module _ {ℓ} {A : Type ℓ} where
  abbrev pub length : List A → ℕ
  length [] = 0
  length (x ∷ xs) = suc (length xs)

  abbrev pub get_elem? : List A → ℕ → Option A
  get_elem? [] i = none
  get_elem? (x ∷ xs) zero = some x
  get_elem? (x ∷ xs) (suc i) = get_elem? xs i

  -- A write out of bounds changes nothing.
  abbrev pub set : List A → ℕ → A → List A
  set [] i v = []
  set (x ∷ xs) zero v = v ∷ xs
  set (x ∷ xs) (suc i) v = x ∷ set xs i v

  pub length-append : (xs ys : List A) → length (xs ++ ys) ≡ length xs + length ys
  length-append [] ys = omega arith
  length-append (x ∷ xs) ys = omega (arith, length-append xs ys)

module _ {ℓ} {A : Type ℓ} where
  pub length-set : (xs : List A) (i : ℕ) (v : A) → length (set xs i v) ≡ length xs
  length-set [] i v = refl
  length-set (x ∷ xs) zero v = refl
  length-set (x ∷ xs) (suc i) v = ap suc (length-set xs i v)

  pub get_elem?-set_self :
      (xs : List A) (i : ℕ) (v : A) → i < length xs → get_elem? (set xs i v) i ≡ some v
  get_elem?-set_self [] i v h = elim h [ ]
  get_elem?-set_self (x ∷ xs) zero v h = refl
  get_elem?-set_self (x ∷ xs) (suc i) v h = get_elem?-set_self xs i v (omega arith)

  pub get_elem?-set_ne :
      (xs : List A) {i j : ℕ} (v : A) → i ≢ j → get_elem? (set xs i v) j ≡ get_elem? xs j
  get_elem?-set_ne [] v h = refl
  get_elem?-set_ne (x ∷ xs) {i = zero} {j = zero} v h = absurd (h refl)
  get_elem?-set_ne (x ∷ xs) {i = zero} {j = suc j} v h = refl
  get_elem?-set_ne (x ∷ xs) {i = suc i} {j = zero} v h = refl
  get_elem?-set_ne (x ∷ xs) {i = suc i} {j = suc j} v h = get_elem?-set_ne xs v (λ e. h (ap suc e))

module _ {ℓ} {A : Type ℓ} where
  abbrev pub get_or : List A → ℕ → A → A
  get_or [] i d = d
  get_or (x ∷ xs) zero d = x
  get_or (x ∷ xs) (suc i) d = get_or xs i d

  abbrev pub take : ℕ → List A → List A
  take zero xs = []
  take (suc n) [] = []
  take (suc n) (x ∷ xs) = x ∷ take n xs

  abbrev pub drop : ℕ → List A → List A
  drop zero xs = xs
  drop (suc n) [] = []
  drop (suc n) (x ∷ xs) = drop n xs

  abbrev pub replicate : ℕ → A → List A
  replicate zero a = []
  replicate (suc n) a = a ∷ replicate n a

  pub take-append-drop : (n : ℕ) (xs : List A) → take n xs ++ drop n xs ≡ xs
  take-append-drop zero xs = refl
  take-append-drop (suc n) [] = refl
  take-append-drop (suc n) (x ∷ xs) = rw (take-append-drop n xs)

  pub length-take : (n : ℕ) (xs : List A) → length (take n xs) ≡ min n (length xs)
  length-take zero xs = omega arith
  length-take (suc n) [] = omega arith
  length-take (suc n) (x ∷ xs) = omega (arith, length-take n xs)

  pub length-drop : (n : ℕ) (xs : List A) → length (drop n xs) ≡ length xs - n
  length-drop zero xs = omega arith
  length-drop (suc n) [] = omega arith
  length-drop (suc n) (x ∷ xs) = omega (arith, length-drop n xs)

  pub length-replicate : (n : ℕ) (a : A) → length (replicate n a) ≡ n
  length-replicate zero a = refl
  length-replicate (suc n) a = ap suc (length-replicate n a)

  pub length-map {κ} : {B : Type κ} (xs : List A) (f : A → B) → length (map f xs) ≡ length xs
  length-map [] f = refl
  length-map (x ∷ xs) f = ap suc (length-map xs f)

-- A predicate by recursion computes to tuples, which the tactics read and build.
abbrev pub All {ℓ κ} : {A : Type ℓ} → (A → Type κ) → List A → Type κ
All P [] = Unit
All P (x ∷ xs) = P x × All P xs

abbrev value_of {ℓ} : {A : Type ℓ} → (A → ℕ) → Option A → ℕ
value_of f none = 0
value_of f (some x) = f x

-- Sums and counts over a list.
abbrev pub sum_by {ℓ} : {A : Type ℓ} → (A → ℕ) → List A → ℕ
sum_by f [] = 0
sum_by f (x ∷ xs) = f x + sum_by f xs

module _ {ℓ} {A : Type ℓ} where
  pub sum_by-append : (f : A → ℕ) (xs ys : List A) → sum_by f (xs ++ ys) ≡ sum_by f xs + sum_by f ys
  sum_by-append f [] ys = omega arith
  sum_by-append f (x ∷ xs) ys = omega (arith, sum_by-append f xs ys)

  pub sum_by-set :
      (f : A → ℕ) (xs : List A) (i : ℕ) (v x : A)
      → get_elem? xs i ≡ some x
      → sum_by f (set xs i v) + f x ≡ sum_by f xs + f v
  sum_by-set f [] i v x h = cc
  sum_by-set f (y ∷ ys) zero v x h = omega (arith, ap (value_of f) h)
  sum_by-set f (y ∷ ys) (suc i) v x h = omega (arith, sum_by-set f ys i v x h)

  pub All-set {κ} :
      (P : A → Type κ) (xs : List A) (i : ℕ) (v : A) → All P xs → P v → All P (set xs i v)
  All-set P [] i v h p = h
  All-set P (x ∷ xs) zero v h p = (p, h.1)
  All-set P (x ∷ xs) (suc i) v h p = (h.0, All-set P xs i v h.1 p)

  pub All-get {κ} :
      (P : A → Type κ) (xs : List A) (i : ℕ) (x : A) → All P xs → get_elem? xs i ≡ some x → P x
  All-get P [] i x h e = cc
  All-get P (y ∷ ys) zero x h e = subst P (some-injective _ _ e) h.0
  All-get P (y ∷ ys) (suc i) x h e = All-get P ys i x h.1 e

  pub All-append {κ} : (P : A → Type κ) (xs ys : List A) → All P xs → All P ys → All P (xs ++ ys)
  All-append P [] ys hx hy = hy
  All-append P (x ∷ xs) ys hx hy = (hx.0, All-append P xs ys hx.1 hy)

  pub drop-set_below : (xs : List A) (i : ℕ) (v : A) → drop (suc i) (set xs i v) ≡ drop (suc i) xs
  drop-set_below [] i v = refl
  drop-set_below (x ∷ xs) zero v = refl
  drop-set_below (x ∷ xs) (suc i) v = drop-set_below xs i v

  pub take-set_last :
      (xs : List A) (i : ℕ) (v : A)
      → i < length xs
      → take (suc i) (set xs i v) ≡ take i xs ++ (v ∷ [])
  take-set_last [] i v h = elim h [ ]
  take-set_last (x ∷ xs) zero v h = refl
  take-set_last (x ∷ xs) (suc i) v h = ap (◌∷◌ x) (take-set_last xs i v (omega arith))

  pub take-length_le : (n : ℕ) (xs : List A) → length xs ≤ n → take n xs ≡ xs
  take-length_le zero [] h = refl
  take-length_le zero (x ∷ xs) h = elim h [ ]
  take-length_le (suc n) [] h = refl
  take-length_le (suc n) (x ∷ xs) h = ap (◌∷◌ x) (take-length_le n xs (omega arith))

module _ {ℓ} {A : Type ℓ} where
  pub drop-length_le : (n : ℕ) (xs : List A) → length xs ≤ n → drop n xs ≡ []
  drop-length_le zero [] h = refl
  drop-length_le zero (x ∷ xs) h = elim h [ ]
  drop-length_le (suc n) [] h = refl
  drop-length_le (suc n) (x ∷ xs) h = drop-length_le n xs (omega arith)

  -- A list read round from place `n`.
  abbrev pub rotate : ℕ → List A → List A
  rotate n xs = drop n xs ++ take n xs

  pub rotate-mod : (m n : ℕ) (xs : List A) → length xs ≡ m → n ≤ m → rotate (n % m) xs ≡ rotate n xs
  rotate-mod m n xs e h = elim (dec_lt n m) [
    | yes lt ↦ ap (λ k. rotate k xs) (mod-eq_of_lt lt)
    | no ge ↦
        let full : n ≡ m = omega arith in
        let start : n % m ≡ 0 = rw full (mod_self m) in
        rw (start, drop-length_le n xs (omega arith), take-length_le n xs (omega arith))
          (append-nil xs)
  ]

  pub rotate-perm : (n : ℕ) (xs : List A) → Perm (rotate n xs) xs
  rotate-perm n xs =
      subst (Perm (rotate n xs)) (take-append-drop n xs) (perm_append_comm (drop n xs) (take n xs))

module _ {ℓ} {A : Type ℓ} where
  pub sum_by-get :
      (f : A → ℕ) (xs : List A) (i : ℕ) (x : A) → get_elem? xs i ≡ some x → f x ≤ sum_by f xs
  sum_by-get f [] i x h = cc
  sum_by-get f (y ∷ ys) zero x h = omega (arith, ap (value_of f) h)
  sum_by-get f (y ∷ ys) (suc i) x h = omega (arith, sum_by-get f ys i x h)

module _ {ℓ κ} {A : Type ℓ} where
  pub All-get_or :
      (P : A → Type κ) (xs : List A) (i : ℕ) (d : A) → All P xs → i < length xs → P (get_or xs i d)
  All-get_or P [] i d a h = elim h [ ]
  All-get_or P (x ∷ xs) zero d a h = a.0
  All-get_or P (x ∷ xs) (suc i) d a h = All-get_or P xs i d a.1 (omega arith)

abbrev pub concat {ℓ} : {A : Type ℓ} → List (List A) → List A
concat [] = []
concat (b ∷ bs) = b ++ concat bs

module _ {ℓ} {A : Type ℓ} where
  pub drop-append_le :
      (n : ℕ) (xs ys : List A) → n ≤ length xs → drop n (xs ++ ys) ≡ drop n xs ++ ys
  drop-append_le zero xs ys h = refl
  drop-append_le (suc n) [] ys h = elim h [ ]
  drop-append_le (suc n) (x ∷ xs) ys h = drop-append_le n xs ys (omega arith)

  pub drop-append_length : (xs ys : List A) → drop (length xs) (xs ++ ys) ≡ ys
  drop-append_length [] ys = refl
  drop-append_length (x ∷ xs) ys = drop-append_length xs ys

  drop_nil : (n : ℕ) → drop {A = A} n [] ≡ []
  drop_nil zero = refl
  drop_nil (suc n) = refl

  pub drop-drop : (m n k : ℕ) (xs : List A) → k ≡ n + m → drop m (drop n xs) ≡ drop k xs
  drop-drop m zero k xs e = let same : k ≡ m = omega (arith, e) in rw same
  drop-drop m (suc n) k [] e = drop_nil m ∙ sym (drop_nil k)
  drop-drop m (suc n) zero (x ∷ xs) e = absurd (omega arith)
  drop-drop m (suc n) (suc k) (x ∷ xs) e = drop-drop m n k xs (omega arith)
