-- ===== src/Latency.antt =====
-- `latencyRing` of v4/utils.go: the stream-open latencies of a tunnel. A sample is a number of
-- nanoseconds; the ring's mutex makes each method one step.
pub mod History
pub mod Ranks
mod Tests
use tlswrapper.Base.{
  ℕ, ◌+◌, ◌*◌, ◌-◌, ◌/◌, ◌%◌, ltb, leb, ◌==◌, if◌then◌else◌, Option, none, some, List, [], ◌∷◌,
  ◌++◌, take, set, replicate, get_or,
}

abbrev pub latency_ring_size : ℕ
latency_ring_size = 256

pub record LatencyRing : Type 0 where
  pub buf : List ℕ
  pub pos : ℕ
  pub n : ℕ

-- The zero value of the struct.
unfoldable pub new_ring : LatencyRing
new_ring = record { buf = replicate latency_ring_size 0; pos = 0; n = 0 }

unfoldable pub record_sample : LatencyRing → ℕ → LatencyRing
record_sample r d = record {
  buf = set r.buf r.pos d;
  pos = (r.pos + 1) % latency_ring_size;
  n = if ltb r.n latency_ring_size then r.n + 1 else r.n;
}

-- The copied entries, padded with zero slots.
unfoldable pub snapshot : LatencyRing → List ℕ
snapshot r = take r.n r.buf ++ replicate (latency_ring_size - r.n) 0

-- `slices.Sort`.
insert_sorted : ℕ → List ℕ → List ℕ
insert_sorted x [] = x ∷ []
insert_sorted x (y ∷ ys) = if leb x y then x ∷ y ∷ ys else y ∷ insert_sorted x ys

unfoldable pub sort : List ℕ → List ℕ
unfolding insert_sorted
sort [] = []
sort (x ∷ xs) = insert_sorted x (sort xs)

-- `at`: `math.Floor(float64(n) * pct)` equals `n * percent / 100` for the three constants used.
unfoldable pub rank : ℕ → ℕ → ℕ
rank n percent = let i = n * percent / 100 in if leb n i then n - 1 else i

pub record Percentiles : Type 0 where
  pub p50 : ℕ
  pub p90 : ℕ
  pub p99 : ℕ
  pub pmax : ℕ

-- The part of `Percentiles` and of `Server.Stats` that works on the sorted samples.
unfoldable pub percentiles_of : List ℕ → ℕ → Percentiles
percentiles_of sorted n = record {
  p50 = get_or sorted (rank n 50) 0;
  p90 = get_or sorted (rank n 90) 0;
  p99 = get_or sorted (rank n 99) 0;
  pmax = get_or sorted (n - 1) 0;
}

-- `none` is `ok == false`.
unfoldable pub percentiles : LatencyRing → Option Percentiles
percentiles r = if r.n == 0 then none else some (percentiles_of (sort (take r.n r.buf)) r.n)
