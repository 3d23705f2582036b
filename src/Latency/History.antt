-- ===== src/Latency/History.antt =====
-- The ring holds the last 256 samples.
use mathlib.Core.List.{foldl, tail, Perm, append_assoc}
use mathlib.Core.List.Perm
use tlswrapper.Base.{
  ℕ, zero, suc, ◌+◌, ◌%◌, ◌≤◌, ◌<◌, ◌≡◌, refl, sym, ap, ◌∙◌, List, [], ◌∷◌, ◌++◌, arith, ltb,
  if◌then◌else◌, length, take, drop, set, length-set, length-replicate, take-set_last,
  drop-set_below, take-length_le, rotate, rotate-mod, rotate-perm, dec_lt, lt→ltb, ge→ltb,
  length-take, length-drop, length-append, drop-length_le,
}
use tlswrapper.Latency.{LatencyRing, latency_ring_size, new_ring, record_sample}

pub record IsValid (r : LatencyRing) : Type 0 where
  pub full_buf : length r.buf ≡ latency_ring_size
  pub within : r.n ≤ latency_ring_size
  pub pos_lt : r.pos < latency_ring_size
  pub filling : r.n < latency_ring_size → r.pos ≡ r.n

-- The samples, oldest first.
abbrev pub samples : LatencyRing → List ℕ
samples r = if ltb r.n latency_ring_size then take r.n r.buf else rotate r.pos r.buf

-- A bounded history: a new sample goes to the end, and the oldest gives way once there are 256.
pub remember : List ℕ → ℕ → List ℕ
remember xs d = if ltb (length xs) latency_ring_size then xs ++ (d ∷ []) else tail xs ++ (d ∷ [])

new_ring-IsValid : IsValid new_ring
unfolding new_ring
new_ring-IsValid = record {
  full_buf = length-replicate {A = ℕ} latency_ring_size 0;
  within = omega arith;
  pos_lt = omega arith;
  filling = λ _. refl;
}

record_sample-IsValid : (r : LatencyRing) (d : ℕ) → IsValid r → IsValid (record_sample r d)
unfolding record_sample
record_sample-IsValid r d v = ground (arith, length-set r.buf r.pos d)

tail-drop :
    (xs ys : List ℕ) (i : ℕ) → i < length xs → tail (drop i xs ++ ys) ≡ drop (suc i) xs ++ ys
tail-drop [] ys i h = elim h [ ]
tail-drop (x ∷ xs) ys zero h = refl
tail-drop (x ∷ xs) ys (suc i) h = tail-drop xs ys i (omega arith)

-- Dropping the oldest and adding `d` turns the full buffer by one place.
turn :
    (xs : List ℕ) (i d : ℕ)
    → i < length xs
    → rotate (suc i) (set xs i d) ≡ tail (rotate i xs) ++ (d ∷ [])
turn xs i d h =
    rw (drop-set_below xs i d, take-set_last xs i d h, tail-drop xs (take i xs) i h)
      (sym (append_assoc (drop (suc i) xs) (take i xs) (d ∷ [])))

-- The buffer after a write, read round from the next place.
turn-mod :
    (m : ℕ) (xs : List ℕ) (i d : ℕ)
    → length xs ≡ m
    → i < m
    → rotate ((i + 1) % m) (set xs i d) ≡ rotate (suc i) (set xs i d)
turn-mod m xs i d e h =
    ap (λ k. rotate (k % m) (set xs i d)) (omega arith)
    ∙ rotate-mod m (suc i) (set xs i d) (length-set xs i d ∙ e) h

-- With `m` places written and the next write at the start, the buffer is in order.
rotate-full :
    (m : ℕ) (xs : List ℕ) (i d : ℕ)
    → length xs ≡ m
    → suc i ≡ m
    → rotate ((i + 1) % m) (set xs i d) ≡ take i xs ++ (d ∷ [])
rotate-full m xs i d e h =
    turn-mod m xs i d e (omega arith)
    ∙ rw (
      drop-length_le (suc i) (set xs i d) (omega (arith, length-set xs i d)),
      take-set_last xs i d (omega arith),
    )

length-rotate : (n : ℕ) (xs : List ℕ) → length (rotate n xs) ≡ length xs
length-rotate n xs =
    length-append (drop n xs) (take n xs) ∙ omega (arith, length-drop n xs, length-take n xs)

-- Recording a sample appends it to the history and drops the oldest of 256.
pub samples-record_sample :
    (r : LatencyRing) (d : ℕ) → IsValid r → samples (record_sample r d) ≡ remember (samples r) d
unfolding record_sample remember
samples-record_sample r d v = ground (
  arith,
  turn r.buf r.pos d,
  turn-mod latency_ring_size r.buf r.pos d,
  rotate-full latency_ring_size r.buf r.pos d,
  length-rotate r.pos r.buf,
  length-take r.n r.buf,
  take-set_last r.buf r.pos d,
)

unfoldable pub record_all : LatencyRing → List ℕ → LatencyRing
record_all r [] = r
record_all r (d ∷ ds) = record_all (record_sample r d) ds

record_all-IsValid : (r : LatencyRing) (ds : List ℕ) → IsValid r → IsValid (record_all r ds)
unfolding record_all
record_all-IsValid r [] v = v
record_all-IsValid r (d ∷ ds) v =
    record_all-IsValid (record_sample r d) ds (record_sample-IsValid r d v)

samples-record_all_from :
    (r : LatencyRing) (ds : List ℕ)
    → IsValid r
    → samples (record_all r ds) ≡ foldl remember (samples r) ds
unfolding record_all
samples-record_all_from r [] v = refl
samples-record_all_from r (d ∷ ds) v =
    samples-record_all_from (record_sample r d) ds (record_sample-IsValid r d v)
    ∙ ap (λ xs. foldl remember xs ds) (samples-record_sample r d v)

-- From the zero value on, the ring holds the last 256 of the samples recorded, in their order.
pub samples-record_all : (ds : List ℕ) → samples (record_all new_ring ds) ≡ foldl remember [] ds
samples-record_all ds =
    samples-record_all_from new_ring ds new_ring-IsValid
    ∙ ap (λ xs. foldl remember xs ds) (unfold new_ring in refl)

pub record_all-new_ring-IsValid : (ds : List ℕ) → IsValid (record_all new_ring ds)
record_all-new_ring-IsValid ds = record_all-IsValid new_ring ds new_ring-IsValid

-- The entries that `Percentiles` copies are the history, in another order.
pub copied-perm-samples : (r : LatencyRing) → IsValid r → Perm (take r.n r.buf) (samples r)
copied-perm-samples r v = elim (dec_lt r.n latency_ring_size) [
  | yes lt ↦ rw (lt→ltb r.n latency_ring_size lt) (Perm.refl (take r.n r.buf))
  | no ge ↦
      rw (ge→ltb r.n latency_ring_size ge, take-length_le r.n r.buf (omega (arith, v.full_buf)))
        (Perm.symm (rotate-perm r.pos r.buf))
]
