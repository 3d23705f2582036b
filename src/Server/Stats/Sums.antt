-- ===== src/Server/Stats/Sums.antt =====
-- The totals of `Server.Stats`.
use tlswrapper.Base.{
  ℕ, ◌+◌, ◌<◌, ◌%◌, ◌^◌, ◌≡◌, if◌then◌else◌, Option, List, [], ◌∷◌, map, sum_by, arith,
}
use tlswrapper.Tunnel.{Tunnel, World}
use tlswrapper.Latency.{LatencyRing}
use tlswrapper.Server.Stats.{
  SessionStats, ServerStats, Counters, tunnel_stats, add_session_stats, add_all, start_stats,
  server_stats,
}

abbrev pub one_active : SessionStats → ℕ
one_active v = if v.active then 1 else 0

-- The totals are numbers of their width.
record Reduced (s : ServerStats) : Type 0 where
  num_sessions : s.num_sessions < 2 ^ 32
  opened : s.stream_open_active < 2 ^ 64
  accepted : s.stream_open_passive < 2 ^ 64
  received : s.bytes_received < 2 ^ 64
  sent : s.bytes_sent < 2 ^ 64

-- The totals of `s` are those of `r` with what the sessions add.
record Adds (vs : List SessionStats) (r s : ServerStats) : Type 0 where
  num_sessions : s.num_sessions ≡ (r.num_sessions + sum_by one_active vs) % 2 ^ 32
  opened :
      s.stream_open_active ≡ (r.stream_open_active + sum_by (λ v. v.streams_opened) vs) % 2 ^ 64
  accepted :
      s.stream_open_passive ≡ (r.stream_open_passive + sum_by (λ v. v.streams_accepted) vs) % 2 ^ 64
  received : s.bytes_received ≡ (r.bytes_received + sum_by (λ v. v.bytes_received) vs) % 2 ^ 64
  sent : s.bytes_sent ≡ (r.bytes_sent + sum_by (λ v. v.bytes_sent) vs) % 2 ^ 64

add_session_stats-Reduced :
    (v : SessionStats) (s : ServerStats) → Reduced s → Reduced (add_session_stats v s)
unfolding add_session_stats
add_session_stats-Reduced v s h = record {
  num_sessions = ground (arith, h.num_sessions);
  opened = omega arith;
  accepted = omega arith;
  received = omega arith;
  sent = omega arith;
}

add_all-Adds : (vs : List SessionStats) (s : ServerStats) → Reduced s → Adds vs s (add_all vs s)
unfolding add_all add_session_stats
add_all-Adds [] s h = record {
  num_sessions = omega (arith, h.num_sessions);
  opened = omega (arith, h.opened);
  accepted = omega (arith, h.accepted);
  received = omega (arith, h.received);
  sent = omega (arith, h.sent);
}
add_all-Adds (v ∷ vs) s h =
    let rest = add_all-Adds vs (add_session_stats v s) (add_session_stats-Reduced v s h) in
    record {
      num_sessions = ground (arith, rest.num_sessions);
      opened = omega (arith, rest.opened);
      accepted = omega (arith, rest.accepted);
      received = omega (arith, rest.received);
      sent = omega (arith, rest.sent);
    }

-- What `Stats` reports of the tunnels, by the snapshot of each.
pub record Totals (vs : List SessionStats) (w : World) (s : ServerStats) : Type 0 where
  pub num_sessions : s.num_sessions ≡ sum_by one_active vs % 2 ^ 32
  pub opened : s.stream_open_active ≡ sum_by (λ v. v.streams_opened) vs % 2 ^ 64
  pub accepted : s.stream_open_passive ≡ sum_by (λ v. v.streams_accepted) vs % 2 ^ 64
  pub received :
      s.bytes_received ≡ (sum_by (λ v. v.bytes_received) vs + w.payload_bytes_received) % 2 ^ 64
  pub sent : s.bytes_sent ≡ (sum_by (λ v. v.bytes_sent) vs + w.payload_bytes_sent) % 2 ^ 64

start_stats-Reduced :
    (listener : Option (ℕ × ℕ)) (c : Counters) (w : World) → Reduced (start_stats listener c w)
unfolding start_stats
start_stats-Reduced listener c w = record {
  num_sessions = omega arith;
  opened = omega arith;
  accepted = omega arith;
  received = omega arith;
  sent = omega arith;
}

pub server_stats-Totals :
    (listener : Option (ℕ × ℕ)) (c : Counters) (w : World) (tunnels : List (Tunnel × LatencyRing))
    → Totals (map (tunnel_stats w) tunnels) w (server_stats listener c w tunnels)
unfolding server_stats start_stats
server_stats-Totals listener c w tunnels =
    let vs = map (tunnel_stats w) tunnels in
    let h = add_all-Adds vs (start_stats listener c w) (start_stats-Reduced listener c w) in
    record {
      num_sessions = omega (arith, h.num_sessions);
      opened = omega (arith, h.opened);
      accepted = omega (arith, h.accepted);
      received = omega (arith, h.received);
      sent = omega (arith, h.sent);
    }
