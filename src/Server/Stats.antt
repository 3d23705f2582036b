-- ===== src/Server/Stats.antt =====
-- `tunnel.Stats` of v4/tunnel.go and `Server.Stats` of v4/server.go. The latency ring of a tunnel
-- stands beside it.
pub mod Sums
pub mod Sessions
use tlswrapper.Base.{
  ℕ, ◌+◌, ◌%◌, ◌^◌, Str, is_empty, str_eq, ltb, ◌==◌, if◌then◌else◌, Bool, true, false, not, ◌&&◌,
  Option, none, some, List, [], ◌∷◌, ◌++◌, map, length,
}
use tlswrapper.Tunnel.{Tunnel, World, Metrics, get_session, add_u32, add_u64}
use tlswrapper.Latency.{LatencyRing, Percentiles, percentiles, percentiles_of, snapshot, sort}

pub record SessionStats : Type 0 where
  pub peer_identity : Str
  pub last_changed : ℕ
  pub active : Bool
  pub streams_opened : ℕ
  pub streams_accepted : ℕ
  pub streams_succeeded : ℕ
  pub streams_failed : ℕ
  pub num_streams : ℕ  -- uint32
  pub bytes_sent : ℕ
  pub bytes_received : ℕ
  pub wire_length_sent : ℕ
  pub wire_length_received : ℕ
  pub stream_latency : Option Percentiles

-- The zero values that stand where there is no session, or no metrics.
unfoldable pub no_metrics : Metrics
no_metrics = record {
  streams_opened = 0;
  streams_accepted = 0;
  streams_succeeded = 0;
  streams_failed = 0;
  num_streams = 0;
  bytes_received = 0;
  bytes_sent = 0;
  wire_length_received = 0;
  wire_length_sent = 0;
}

unfoldable pub metrics_of : Option ℕ → World → Metrics
metrics_of none w = no_metrics
metrics_of (some i) w = elim (w.sessions i).stats [ none ↦ no_metrics | some m ↦ m ]

unfoldable pub identity_of : Option ℕ → World → Str
identity_of none w = []
identity_of (some i) w = (w.sessions i).peer_identity

abbrev pub is_some {ℓ} : {A : Type ℓ} → Option A → Bool
is_some none = false
is_some (some a) = true

unfoldable pub tunnel_stats : World → Tunnel × LatencyRing → SessionStats
tunnel_stats w (t, ring) =
    let ss = get_session t w in
    let m = metrics_of ss w in
    record {
      peer_identity = identity_of ss w;
      last_changed = t.last_changed;
      active = is_some ss;
      streams_opened = m.streams_opened;
      streams_accepted = m.streams_accepted;
      streams_succeeded = m.streams_succeeded;
      streams_failed = m.streams_failed;
      num_streams = m.num_streams % 2 ^ 32;
      bytes_sent = m.bytes_sent;
      bytes_received = m.bytes_received;
      wire_length_sent = m.wire_length_sent;
      wire_length_received = m.wire_length_received;
      stream_latency = percentiles ring;
    }

-- The server's own counters, and the half-open count of the forwarder.
pub record Counters : Type 0 where
  pub accepted : ℕ
  pub served : ℕ
  pub authorized : ℕ
  pub request : ℕ
  pub success : ℕ
  pub num_half_open : ℕ
  pub streams_half_open : ℕ

-- `sessions` is the map by peer identity.
pub record ServerStats : Type 0 where
  pub num_sessions : ℕ  -- uint32
  pub num_sessions_created : ℕ
  pub num_sessions_finalized : ℕ
  pub num_half_open : ℕ
  pub num_streams_half_open : ℕ
  pub stream_open_active : ℕ  -- uint64, and the next five
  pub stream_open_passive : ℕ
  pub bytes_received : ℕ
  pub bytes_sent : ℕ
  pub wire_length_received : ℕ
  pub wire_length_sent : ℕ
  pub accepted : ℕ
  pub served : ℕ
  pub authorized : ℕ
  pub req_total : ℕ
  pub req_success : ℕ
  pub stream_latency : Option Percentiles
  pub sessions : List SessionStats

-- `if prev, ok := sessionMap[id]; !ok || v.LastChanged.After(prev.LastChanged)`
unfoldable pub keep_latest : SessionStats → List SessionStats → List SessionStats
keep_latest v [] = v ∷ []
keep_latest v (p ∷ ps) =
    if str_eq p.peer_identity v.peer_identity
    then (if ltb p.last_changed v.last_changed then v ∷ ps else p ∷ ps)
    else p ∷ keep_latest v ps

-- The body of the loop over the tunnels.
unfoldable pub add_session_stats : SessionStats → ServerStats → ServerStats
add_session_stats v s = record s {
  num_sessions = if v.active then add_u32 s.num_sessions 1 else s.num_sessions;
  stream_open_active = add_u64 s.stream_open_active v.streams_opened;
  stream_open_passive = add_u64 s.stream_open_passive v.streams_accepted;
  bytes_received = add_u64 s.bytes_received v.bytes_received;
  bytes_sent = add_u64 s.bytes_sent v.bytes_sent;
  wire_length_received = add_u64 s.wire_length_received v.wire_length_received;
  wire_length_sent = add_u64 s.wire_length_sent v.wire_length_sent;
  sessions = if is_empty v.peer_identity then s.sessions else keep_latest v s.sessions;
}

unfoldable pub add_all : List SessionStats → ServerStats → ServerStats
add_all [] s = s
add_all (v ∷ vs) s = add_all vs (add_session_stats v s)

unfoldable pub positive : List ℕ → List ℕ
positive [] = []
positive (d ∷ ds) = if ltb 0 d then d ∷ positive ds else positive ds

-- `latSamples`, in the order of the tunnels.
unfoldable pub lat_samples : List LatencyRing → List ℕ
lat_samples [] = []
lat_samples (r ∷ rs) = positive (snapshot r) ++ lat_samples rs

unfoldable pub all_latency : List ℕ → Option Percentiles
all_latency [] = none
all_latency (d ∷ ds) = some (percentiles_of (sort (d ∷ ds)) (length (d ∷ ds)))

-- Before the loop: `listener` is what `l.Stats()` answers, where there is a mux listener.
unfoldable pub start_stats : Option (ℕ × ℕ) → Counters → World → ServerStats
start_stats listener c w =
    let accepts : ℕ × ℕ = elim listener [ none ↦ (c.accepted, c.served) | some p ↦ p ] in
    record {
      num_sessions = 0;
      num_sessions_created = w.num_sessions_created;
      num_sessions_finalized = w.num_sessions_finalized;
      num_half_open = c.num_half_open;
      num_streams_half_open = c.streams_half_open % 2 ^ 32;
      stream_open_active = 0;
      stream_open_passive = 0;
      bytes_received = 0;
      bytes_sent = 0;
      wire_length_received = 0;
      wire_length_sent = 0;
      accepted = accepts.0;
      served = accepts.1;
      authorized = c.authorized;
      req_total = c.request;
      req_success = c.success;
      stream_latency = none;
      sessions = [];
    }

unfoldable pub server_stats :
    Option (ℕ × ℕ) → Counters → World → List (Tunnel × LatencyRing) → ServerStats
server_stats listener c w tunnels =
    let s = add_all (map (tunnel_stats w) tunnels) (start_stats listener c w) in
    record s {
      stream_latency = all_latency (lat_samples (map (λ t. t.1) tunnels));
      bytes_received = add_u64 s.bytes_received w.payload_bytes_received;
      bytes_sent = add_u64 s.bytes_sent w.payload_bytes_sent;
      wire_length_received = add_u64 s.wire_length_received w.mux_bytes_received;
      wire_length_sent = add_u64 s.wire_length_sent w.mux_bytes_sent;
    }
