-- ===== src/Latency/Ranks.antt =====
-- `Percentiles`: what it returns of the samples.
use mathlib.Core.List.{Perm, foldl}
use mathlib.Core.List.Perm
use tlswrapper.Base.{
  ℕ, zero, suc, ◌+◌, ◌*◌, ◌-◌, ◌≤◌, ◌<◌, ◌≡◌, refl, ap, ◌∙◌, inl, inr, List, [], ◌∷◌, ◌++◌, Option,
  none, some, arith, leb, ltb, ◌==◌, if◌then◌else◌, length, take, get_or, All, All-get_or, drop,
  rotate, take-append-drop, take-length_le, length-take, length-drop, length-append, sym, subst,
  ==_iff, Bool-cases,
}
use tlswrapper.Latency.{
  LatencyRing, new_ring, insert_sorted, sort, rank, Percentiles, percentiles_of, percentiles,
}
use tlswrapper.Latency.History.{
  IsValid, samples, remember, record_all, samples-record_all, record_all-new_ring-IsValid,
}

-- Every element is at most every later one.
abbrev pub IsAscending : List ℕ → Type 0
IsAscending [] = Unit {0}
IsAscending (x ∷ xs) = All (λ y. x ≤ y) xs × IsAscending xs

All-le_trans : {x y : ℕ} (xs : List ℕ) → x ≤ y → All (λ z. y ≤ z) xs → All (λ z. x ≤ z) xs
All-le_trans [] h a = tt
All-le_trans {x} {y} (z ∷ xs) h a = (omega arith, All-le_trans xs h a.1)

All-insert_sorted :
    {x y : ℕ} (xs : List ℕ) → x ≤ y → All (λ z. x ≤ z) xs → All (λ z. x ≤ z) (insert_sorted y xs)
unfolding insert_sorted
All-insert_sorted [] h a = (h, tt)
All-insert_sorted {x} {y} (z ∷ xs) h a = ground (arith, All-insert_sorted {x = x} {y = y} xs h a.1)

insert_sorted-IsAscending :
    (x : ℕ) (xs : List ℕ) → IsAscending xs → IsAscending (insert_sorted x xs)
unfolding insert_sorted
insert_sorted-IsAscending x [] a = (tt, tt)
insert_sorted-IsAscending x (y ∷ ys) a = ground (
  arith,
  All-le_trans {x = x} {y = y} ys,
  All-insert_sorted {x = y} {y = x} ys,
  insert_sorted-IsAscending x ys a.1,
)

sort-IsAscending : (xs : List ℕ) → IsAscending (sort xs)
unfolding sort
sort-IsAscending [] = tt
sort-IsAscending (x ∷ xs) = insert_sorted-IsAscending x (sort xs) (sort-IsAscending xs)

insert_sorted-perm : (x : ℕ) (xs : List ℕ) → Perm (insert_sorted x xs) (x ∷ xs)
unfolding insert_sorted
insert_sorted-perm x [] = Perm.rfl
insert_sorted-perm x (y ∷ ys) = elim (Bool-cases (leb x y)) [
  | inl le ↦ rw le Perm.rfl
  | inr gt ↦ rw gt (Perm.trans (Perm.cons y (insert_sorted-perm x ys)) (Perm.swap x y ys))
]

sort-perm : (xs : List ℕ) → Perm (sort xs) xs
unfolding sort
sort-perm [] = Perm.nil
sort-perm (x ∷ xs) = Perm.trans (insert_sorted-perm x (sort xs)) (Perm.cons x (sort-perm xs))

length-insert_sorted : (x : ℕ) (xs : List ℕ) → length (insert_sorted x xs) ≡ suc (length xs)
unfolding insert_sorted
length-insert_sorted x [] = refl
length-insert_sorted x (y ∷ ys) = ground (arith, length-insert_sorted x ys)

length-sort : (xs : List ℕ) → length (sort xs) ≡ length xs
unfolding sort
length-sort [] = refl
length-sort (x ∷ xs) = length-insert_sorted x (sort xs) ∙ ap suc (length-sort xs)

get_or_mono :
    (xs : List ℕ) (i j : ℕ) → IsAscending xs → i ≤ j → j < length xs → get_or xs i 0 ≤ get_or xs j 0
get_or_mono [] i j a h k = elim k [ ]
get_or_mono (x ∷ xs) zero zero a h k = omega arith
get_or_mono (x ∷ xs) zero (suc j) a h k = All-get_or (λ y. x ≤ y) xs j 0 a.0 (omega arith)
get_or_mono (x ∷ xs) (suc i) zero a h k = elim h [ ]
get_or_mono (x ∷ xs) (suc i) (suc j) a h k = get_or_mono xs i j a.1 (omega arith) (omega arith)

-- The ranks are inside the sample, in order.
rank-bounds :
    (n : ℕ) → 0 < n → (rank n 50 ≤ rank n 90) × (rank n 90 ≤ rank n 99) × (rank n 99 ≤ n - 1)
unfolding rank
rank-bounds n h = ground arith

-- How many of the samples are at most `v`, and how many below it.
unfoldable pub count_le : ℕ → List ℕ → ℕ
count_le v [] = 0
count_le v (x ∷ xs) = (if leb x v then 1 else 0) + count_le v xs

unfoldable pub count_lt : ℕ → List ℕ → ℕ
count_lt v [] = 0
count_lt v (x ∷ xs) = (if ltb x v then 1 else 0) + count_lt v xs

-- `v` stands at place `k` of the ascending samples, said without sorting them.
abbrev pub IsRank : List ℕ → ℕ → ℕ → Type 0
IsRank xs k v = (k < count_le v xs) × (count_lt v xs ≤ k)

count_lt_of_All : (v : ℕ) (xs : List ℕ) → All (λ y. v ≤ y) xs → count_lt v xs ≡ 0
unfolding count_lt
count_lt_of_All v [] a = refl
count_lt_of_All v (x ∷ xs) a = ground (arith, count_lt_of_All v xs a.1)

get_or-IsRank : (xs : List ℕ) (i : ℕ) → IsAscending xs → i < length xs → IsRank xs i (get_or xs i 0)
unfolding count_le count_lt
get_or-IsRank [] i a h = elim h [ ]
get_or-IsRank (x ∷ xs) zero a h = ground (arith, count_lt_of_All x xs a.0)
get_or-IsRank (x ∷ xs) (suc i) a h =
    ground (arith, get_or-IsRank xs i a.1, All-get_or (λ y. x ≤ y) xs i 0 a.0)

count_le-append : (v : ℕ) (xs ys : List ℕ) → count_le v (xs ++ ys) ≡ count_le v xs + count_le v ys
unfolding count_le
count_le-append v [] ys = omega arith
count_le-append v (x ∷ xs) ys = omega (arith, count_le-append v xs ys)

count_lt-append : (v : ℕ) (xs ys : List ℕ) → count_lt v (xs ++ ys) ≡ count_lt v xs + count_lt v ys
unfolding count_lt
count_lt-append v [] ys = omega arith
count_lt-append v (x ∷ xs) ys = omega (arith, count_lt-append v xs ys)

abbrev SameCounts : List ℕ → List ℕ → Type 0
SameCounts xs ys = (v : ℕ) → (count_le v xs ≡ count_le v ys) × (count_lt v xs ≡ count_lt v ys)

insert_sorted-SameCounts : (x : ℕ) (xs : List ℕ) → SameCounts (insert_sorted x xs) (x ∷ xs)
unfolding insert_sorted count_le count_lt
insert_sorted-SameCounts x [] v = (refl, refl)
insert_sorted-SameCounts x (y ∷ ys) v = ground (arith, insert_sorted-SameCounts x ys v)

sort-SameCounts : (xs : List ℕ) → SameCounts (sort xs) xs
unfolding sort count_le count_lt
sort-SameCounts [] v = (refl, refl)
sort-SameCounts (x ∷ xs) v =
    ground (arith, insert_sorted-SameCounts x (sort xs) v, sort-SameCounts xs v)

rotate-SameCounts : (n : ℕ) (xs : List ℕ) → SameCounts xs (rotate n xs)
rotate-SameCounts n xs v =
    let e = take-append-drop n xs in
    ground (
      arith,
      e,
      count_le-append v (take n xs) (drop n xs),
      count_le-append v (drop n xs) (take n xs),
      count_lt-append v (take n xs) (drop n xs),
      count_lt-append v (drop n xs) (take n xs),
    )

copied-SameCounts : (r : LatencyRing) → IsValid r → SameCounts (take r.n r.buf) (samples r)
copied-SameCounts r v w = ground (arith, take-length_le r.n r.buf, rotate-SameCounts r.pos r.buf w)

length-copied : (r : LatencyRing) → IsValid r → length (take r.n r.buf) ≡ r.n
length-copied r v = omega (arith, length-take r.n r.buf, v.full_buf, v.within)

-- `v` is the value that `pct` per cent of the samples stand before, the part of a sample left off:
-- it stands at place `k`, and `k` is the whole part of `pct` hundredths of their number.
abbrev pub IsPercentile : List ℕ → ℕ → ℕ → Type 0
IsPercentile xs pct v =
    (k : ℕ) × (100 * k ≤ length xs * pct) × (length xs * pct < 100 * (k + 1)) × IsRank xs k v

-- What `Percentiles` promises of the samples it was computed from.
pub record IsSummary (xs : List ℕ) (p : Percentiles) : Type 0 where
  pub ordered : (p.p50 ≤ p.p90) × (p.p90 ≤ p.p99) × (p.p99 ≤ p.pmax)
  pub at_50 : IsPercentile xs 50 p.p50
  pub at_90 : IsPercentile xs 90 p.p90
  pub at_99 : IsPercentile xs 99 p.p99
  pub at_max : IsRank xs (length xs - 1) p.pmax

sort-IsRank : (xs : List ℕ) (i : ℕ) → i < length xs → IsRank xs i (get_or (sort xs) i 0)
sort-IsRank xs i h = ground (
  arith,
  sort-SameCounts xs (get_or (sort xs) i 0),
  get_or-IsRank (sort xs) i (sort-IsAscending xs),
  length-sort xs,
)

le_mul : (n a b : ℕ) → a ≤ b → n * a ≤ n * b
le_mul zero a b h = omega arith
le_mul (suc n) a b h = omega (arith, le_mul n a b h)

-- The rank of the code is the place of the percentile.
rank-floor :
    (n pct : ℕ)
    → 0 < n
    → pct < 100
    → (100 * rank n pct ≤ n * pct) × (n * pct < 100 * (rank n pct + 1)) × (rank n pct < n)
unfolding rank
rank-floor n pct h l =
    let below : n * pct ≤ n * 99 = le_mul n pct 99 (omega (arith, l)) in ground (arith, below, h)

sort-IsPercentile :
    (xs : List ℕ) (pct : ℕ)
    → 0 < length xs
    → pct < 100
    → IsPercentile xs pct (get_or (sort xs) (rank (length xs) pct) 0)
sort-IsPercentile xs pct h l =
    let (a, b, c) = rank-floor (length xs) pct h l in
    (rank (length xs) pct, a, b, sort-IsRank xs (rank (length xs) pct) c)

percentiles_of-ordered :
    (xs : List ℕ) (n : ℕ)
    → IsAscending xs
    → length xs ≡ n
    → 0 < n
    → let p = percentiles_of xs n in (p.p50 ≤ p.p90) × (p.p90 ≤ p.p99) × (p.p99 ≤ p.pmax)
unfolding percentiles_of
percentiles_of-ordered xs n a e h = ground (
  arith,
  rank-bounds n h,
  get_or_mono xs (rank n 50) (rank n 90) a,
  get_or_mono xs (rank n 90) (rank n 99) a,
  get_or_mono xs (rank n 99) (n - 1) a,
)

pub percentiles_of-sort-IsSummary :
    (xs : List ℕ) → 0 < length xs → IsSummary xs (percentiles_of (sort xs) (length xs))
unfolding percentiles_of
percentiles_of-sort-IsSummary xs h =
    let b = rank-bounds (length xs) h in
    record {
      ordered =
          percentiles_of-ordered (sort xs) (length xs) (sort-IsAscending xs) (length-sort xs) h;
      at_50 = sort-IsPercentile xs 50 h (omega arith);
      at_90 = sort-IsPercentile xs 90 h (omega arith);
      at_99 = sort-IsPercentile xs 99 h (omega arith);
      at_max = sort-IsRank xs (length xs - 1) (omega arith);
    }

IsPercentile-SameCounts :
    (xs ys : List ℕ) (pct v : ℕ)
    → SameCounts xs ys
    → length xs ≡ length ys
    → IsPercentile xs pct v
    → IsPercentile ys pct v
IsPercentile-SameCounts xs ys pct v same e (k, a, b, r) =
    let n = ap (λ m. m * pct) e in
    (k, omega (arith, a, n), omega (arith, b, n), ground (arith, r, same v))

IsSummary-SameCounts :
    (xs ys : List ℕ) (p : Percentiles)
    → SameCounts xs ys
    → length xs ≡ length ys
    → IsSummary xs p
    → IsSummary ys p
IsSummary-SameCounts xs ys p same e v = record {
  ordered = v.ordered;
  at_50 = IsPercentile-SameCounts xs ys 50 p.p50 same e v.at_50;
  at_90 = IsPercentile-SameCounts xs ys 90 p.p90 same e v.at_90;
  at_99 = IsPercentile-SameCounts xs ys 99 p.p99 same e v.at_99;
  at_max = ground (arith, v.at_max, e, same p.pmax);
}

length-samples : (r : LatencyRing) → IsValid r → length (samples r) ≡ r.n
length-samples r v = ground (
  arith,
  length-copied r v,
  length-append (drop r.pos r.buf) (take r.pos r.buf),
  length-drop r.pos r.buf,
  length-take r.pos r.buf,
)

IsSummary-of_copied :
    (r : LatencyRing)
    → IsValid r
    → 0 < r.n
    → IsSummary (samples r) (percentiles_of (sort (take r.n r.buf)) r.n)
IsSummary-of_copied r v h =
    let e = length-copied r v in
    IsSummary-SameCounts (take r.n r.buf) (samples r) _ (copied-SameCounts r v)
      (e ∙ sym (length-samples r v))
      (subst (λ k. IsSummary (take r.n r.buf) (percentiles_of (sort (take r.n r.buf)) k)) e
        (percentiles_of-sort-IsSummary (take r.n r.buf) (omega (arith, e))))

-- `Percentiles` reports nothing of an empty history, and else the order statistics of the samples.
abbrev pub Reports : List ℕ → Option Percentiles → Type 0
Reports xs none = xs ≡ []
Reports xs (some p) = IsSummary xs p

nil_of_length : {A : Type 0} (xs : List A) → length xs ≡ 0 → xs ≡ []
nil_of_length [] h = refl
nil_of_length (x ∷ xs) h = absurd (omega arith)

-- A ring whose invariant holds reports the order statistics of its samples.
pub percentiles-Reports : (r : LatencyRing) → IsValid r → Reports (samples r) (percentiles r)
unfolding percentiles
percentiles-Reports r v = elim (Bool-cases (r.n == 0)) [
  | inl e ↦ rw e (nil_of_length (samples r) (length-samples r v ∙ (==_iff r.n 0).0 e))
  | inr e ↦ rw e (IsSummary-of_copied r v (ground arith))
]

-- After any samples are recorded in a new ring, `Percentiles` reports nothing if there were none,
-- and otherwise the 50th, 90th and 99th percentile and the largest of the last 256.
pub percentiles-record_all :
    (ds : List ℕ) → Reports (foldl remember [] ds) (percentiles (record_all new_ring ds))
percentiles-record_all ds =
    subst (λ xs. Reports xs (percentiles (record_all new_ring ds))) (samples-record_all ds)
      (percentiles-Reports (record_all new_ring ds) (record_all-new_ring-IsValid ds))
