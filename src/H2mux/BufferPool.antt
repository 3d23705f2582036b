-- ===== src/H2mux/BufferPool.antt =====
-- `dirtyBufferPool` of v4/mux/h2mux/bufferpool.go. A buffer is its capacity.
use tlswrapper.Base.{
  ℕ, ◌≤◌, ◌≡◌, inl, inr, leb, leb→le, if◌then◌else◌, Bool, true, false, Option, none, some, List,
  [], ◌∷◌, mem, remove, All, arith, Bool-cases,
}

-- One tier: the size of its buffers and what its `sync.Pool` holds.
pub record Tier : Type 0 where
  pub size : ℕ
  pub pool : List ℕ

unfoldable pub new_dirty_buffer_pool : List ℕ → List Tier
new_dirty_buffer_pool [] = []
new_dirty_buffer_pool (size ∷ sizes) =
    record { size = size; pool = [] } ∷ new_dirty_buffer_pool sizes

-- The sizes that `init` passes.
abbrev pub default_sizes : List ℕ
default_sizes = 256 ∷ 4096 ∷ 16384 ∷ 32768 ∷ 1048576 ∷ []

-- `sync.Pool.Get` returns one of the buffers that it holds, `some c`, or calls `New`.
unfoldable pub pool_get : Option ℕ → Tier → ℕ × Tier
pool_get none t = (t.size, t)
pool_get (some c) t = if mem c t.pool then (c, record t { pool = remove c t.pool }) else (t.size, t)

unfoldable pub get : ℕ → Option ℕ → List Tier → ℕ × List Tier
get length pick [] = (length, [])
get length pick (t ∷ ts) =
    let (c, t') = pool_get pick t in
    let (d, ts') = get length pick ts in if leb length t.size then (c, t' ∷ ts) else (d, t ∷ ts')

-- The loop of `Put` goes down from the last tier. It says whether a tier took the buffer.
unfoldable pub put_from : ℕ → List Tier → Bool × List Tier
put_from c [] = (false, [])
put_from c (t ∷ ts) =
    let (taken, ts') = put_from c ts in
    if taken
    then (true, t ∷ ts')
    else if leb t.size c
    then (true, record t { pool = c ∷ t.pool } ∷ ts)
    else (false, t ∷ ts)

unfoldable pub put : ℕ → List Tier → List Tier
put c ts = (put_from c ts).1

pub data Use : Type 0 where
  gets : (length : ℕ) (pick : Option ℕ) → Use
  puts : (c : ℕ) → Use

unfoldable pub uses : List Use → List Tier → List Tier
uses [] ts = ts
uses (gets length pick ∷ us) ts = uses us (get length pick ts).1
uses (puts c ∷ us) ts = uses us (put c ts)

-- What a tier's pool holds is as large as its size.
abbrev LargeEnough : Tier → Type 0
LargeEnough t = All (λ c. t.size ≤ c) t.pool

All-mem : (n c : ℕ) (xs : List ℕ) → All (λ x. n ≤ x) xs → mem c xs ≡ true → n ≤ c
All-mem n c [] h m = cc
All-mem n c (x ∷ xs) h m = ground (arith, h, m, All-mem n c xs)

All-remove : (n c : ℕ) (xs : List ℕ) → All (λ x. n ≤ x) xs → All (λ x. n ≤ x) (remove c xs)
unfolding remove
All-remove n c [] h = tt
All-remove n c (x ∷ xs) h = ground (arith, h, All-remove n c xs h.1)

pool_get-LargeEnough :
    (pick : Option ℕ) (t : Tier)
    → LargeEnough t
    → (t.size ≤ (pool_get pick t).0) × LargeEnough (pool_get pick t).1
unfolding pool_get
pool_get-LargeEnough none t h = (omega arith, h)
pool_get-LargeEnough (some c) t h = elim (Bool-cases (mem c t.pool)) [
  | inl y ↦ rw y (All-mem t.size c t.pool h y, All-remove t.size c t.pool h)
  | inr n ↦ rw n (omega arith, h)
]

get-LargeEnough :
    (length : ℕ) (pick : Option ℕ) (ts : List Tier)
    → All LargeEnough ts
    → (length ≤ (get length pick ts).0) × All LargeEnough (get length pick ts).1
unfolding get
get-LargeEnough length pick [] h = (omega arith, tt)
get-LargeEnough length pick (t ∷ ts) h = elim (Bool-cases (leb length t.size)) [
  | inl y ↦
      let (c, l) = pool_get-LargeEnough pick t h.0 in
      rw y (omega (arith, leb→le length t.size y, c), (l, h.1))
  | inr n ↦ let (c, l) = get-LargeEnough length pick ts h.1 in rw n (c, (h.0, l))
]

put_from-LargeEnough :
    (c : ℕ) (ts : List Tier) → All LargeEnough ts → All LargeEnough (put_from c ts).1
unfolding put_from
put_from-LargeEnough c [] h = tt
put_from-LargeEnough c (t ∷ ts) h = elim (Bool-cases (put_from c ts).0) [
  | inl y ↦ rw y (h.0, put_from-LargeEnough c ts h.1)
  | inr n ↦ elim (Bool-cases (leb t.size c)) [
    | inl l ↦ rw (n, l) ((leb→le t.size c l, h.0), h.1)
    | inr g ↦ rw (n, g) h
  ]
]

uses-LargeEnough :
    (us : List Use) (ts : List Tier) → All LargeEnough ts → All LargeEnough (uses us ts)
unfolding uses put
uses-LargeEnough [] ts h = h
uses-LargeEnough (gets length pick ∷ us) ts h =
    uses-LargeEnough us (get length pick ts).1 (get-LargeEnough length pick ts h).1
uses-LargeEnough (puts c ∷ us) ts h = uses-LargeEnough us (put c ts) (put_from-LargeEnough c ts h)

new-LargeEnough : (sizes : List ℕ) → All LargeEnough (new_dirty_buffer_pool sizes)
unfolding new_dirty_buffer_pool
new-LargeEnough [] = tt
new-LargeEnough (size ∷ sizes) = (tt, new-LargeEnough sizes)

-- In a pool of any tiers, after any calls of Get and Put with any buffers and whatever the pools of
-- the tiers hand out, Get returns a buffer with room for the length asked for: its reslicing to that
-- length cannot panic.
pub get_has_room :
    (sizes : List ℕ) (us : List Use) (length : ℕ) (pick : Option ℕ)
    → length ≤ (get length pick (uses us (new_dirty_buffer_pool sizes))).0
get_has_room sizes us length pick =
    (get-LargeEnough length pick (uses us (new_dirty_buffer_pool sizes))
      (uses-LargeEnough us (new_dirty_buffer_pool sizes) (new-LargeEnough sizes))).0
