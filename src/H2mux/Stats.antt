-- ===== src/H2mux/Stats.antt =====
-- `muxStatsHandler` of v4/mux/h2mux/metrics.go: what gRPC reports of the Stream calls of a session.
use tlswrapper.Base.{
  ℕ, zero, suc, ◌+◌, ◌-◌, ◌%◌, ◌^◌, ◌<◌, ◌≡◌, refl, ◌==◌, if◌then◌else◌, Bool, true, false, Option,
  some, none, List, [], ◌∷◌, arith,
}

-- The counters are 64 bits wide; `num_streams`, an int64, is its 64 bits. `idle` is whether the
-- channel `idleNotify`, of one place, holds a signal.
pub record Stats : Type 0 where
  pub streams_succeeded : ℕ
  pub streams_failed : ℕ
  pub num_streams : ℕ
  pub bytes_received : ℕ
  pub bytes_sent : ℕ
  pub wire_length_received : ℕ
  pub wire_length_sent : ℕ
  pub idle : Bool

abbrev pub add_u64 : ℕ → ℕ → ℕ
add_u64 a b = (a + b) % 2 ^ 64

unfoldable pub new_mux_stats_handler : Stats
new_mux_stats_handler = record {
  streams_succeeded = 0;
  streams_failed = 0;
  num_streams = 0;
  bytes_received = 0;
  bytes_sent = 0;
  wire_length_received = 0;
  wire_length_sent = 0;
  idle = false;
}

-- `stats.RPCStats`, as far as it is read. `tracked` is whether `TagRPC` marked the call as a Stream.
pub data RpcStats : Type 0 where
  begins : RpcStats
  ends : (failed : Bool) → RpcStats
  in_payload out_payload : (length wire_length : ℕ) → RpcStats
  other : RpcStats

unfoldable pub count_end : Bool → Stats → Stats
count_end true h = record h { streams_failed = add_u64 h.streams_failed 1 }
count_end false h = record h { streams_succeeded = add_u64 h.streams_succeeded 1 }

-- `NumStreams.Add(-1)` and the signal.
unfoldable pub one_less : Stats → Stats
one_less h =
    let n = add_u64 h.num_streams (2 ^ 64 - 1) in
    record h { num_streams = n; idle = if n == 0 then true else h.idle }

unfoldable pub handle_rpc : Bool → RpcStats → Stats → Stats
handle_rpc false s h = h
handle_rpc true begins h = record h { num_streams = add_u64 h.num_streams 1 }
handle_rpc true (ends failed) h = one_less (count_end failed h)
handle_rpc true (in_payload length wire_length) h = record h {
  bytes_received = add_u64 h.bytes_received length;
  wire_length_received = add_u64 h.wire_length_received wire_length;
}
handle_rpc true (out_payload length wire_length) h = record h {
  bytes_sent = add_u64 h.bytes_sent length;
  wire_length_sent = add_u64 h.wire_length_sent wire_length;
}
handle_rpc true other h = h

unfoldable pub handle_all : List (Bool × RpcStats) → Stats → Stats
handle_all [] h = h
handle_all ((tracked, s) ∷ rest) h = handle_all rest (handle_rpc tracked s h)

-- How many Stream calls are running, after `n` were; gRPC ends no call that it did not begin.
abbrev pub live : List (Bool × RpcStats) → ℕ → Option ℕ
live [] n = some n
live ((true, begins) ∷ rest) n = live rest (suc n)
live ((true, ends failed) ∷ rest) zero = none
live ((true, ends failed) ∷ rest) (suc n) = live rest n
live (_ ∷ rest) n = live rest n

streams-count_end : (failed : Bool) (h : Stats) → (count_end failed h).num_streams ≡ h.num_streams
unfolding count_end
streams-count_end failed h = ground arith

idle-count_end : (failed : Bool) (h : Stats) → (count_end failed h).idle ≡ h.idle
unfolding count_end
idle-count_end failed h = ground arith

handle_rpc-ends :
    (failed : Bool) (n : ℕ) (h : Stats)
    → h.num_streams ≡ suc n % 2 ^ 64
    → (handle_rpc true (ends failed) h).num_streams ≡ n % 2 ^ 64
unfolding handle_rpc one_less
handle_rpc-ends failed n h e = omega (arith, e, streams-count_end failed h)

handle_all-live :
    (es : List (Bool × RpcStats)) (m n : ℕ) (h : Stats)
    → h.num_streams ≡ m % 2 ^ 64
    → live es m ≡ some n
    → (handle_all es h).num_streams ≡ n % 2 ^ 64
unfolding handle_all handle_rpc
handle_all-live [] m n h e l = ground (arith, e, l)
handle_all-live ((true, begins) ∷ rest) m n h e l =
    handle_all-live rest (suc m) n _ (omega (arith, e)) l
handle_all-live ((true, ends failed) ∷ rest) zero n h e l = cc
handle_all-live ((true, ends failed) ∷ rest) (suc m) n h e l =
    handle_all-live rest m n _ (handle_rpc-ends failed m h e) l
handle_all-live ((true, in_payload a b) ∷ rest) m n h e l = handle_all-live rest m n _ e l
handle_all-live ((true, out_payload a b) ∷ rest) m n h e l = handle_all-live rest m n _ e l
handle_all-live ((true, other) ∷ rest) m n h e l = handle_all-live rest m n _ e l
handle_all-live ((false, s) ∷ rest) m n h e l = handle_all-live rest m n h e l

idle-ends :
    (failed : Bool) (h : Stats)
    → let after = handle_rpc true (ends failed) h in
      after.idle ≡ (if after.num_streams == 0 then true else h.idle)
unfolding handle_rpc one_less
idle-ends failed h = rw (idle-count_end failed h) refl

-- Where Stream calls begin and end in any order, among any other reports, and one of them ends: the
-- counter NumStreams is the number of those that are still running, and the idle channel holds a
-- signal if that was the last of them; else, below 2^64 calls, it is as it was.
pub idle_when_last_ends :
    (es : List (Bool × RpcStats)) (failed : Bool) (n : ℕ)
    → live es 0 ≡ some (suc n)
    → let before = handle_all es new_mux_stats_handler in
      let after = handle_rpc true (ends failed) before in
      (after.num_streams ≡ n % 2 ^ 64)
      × (n ≡ 0 → after.idle ≡ true)
      × (0 < n → n < 2 ^ 64 → after.idle ≡ before.idle)
idle_when_last_ends es failed n l =
    let before = handle_all es new_mux_stats_handler in
    let e =
      handle_all-live es 0 (suc n) new_mux_stats_handler (unfold new_mux_stats_handler in refl) l in
    let less = handle_rpc-ends failed n before e in
    let idle = idle-ends failed before in
    (less, (λ z. ground (arith, less, idle, z)), (λ p q. ground (arith, less, idle, p, q)))
