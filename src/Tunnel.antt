-- ===== src/Tunnel.antt =====
-- v4/tunnel.go: a tunnel and its session. Each function is what the code does under `t.mu`, or
-- between two waits. A session is a name in a store, so that a tunnel, its watchers and the server
-- share it. The display tag, the log and the text of an event are left out.
pub mod Redial
pub mod Idle
pub mod Events
pub mod Books
pub mod Frame
pub mod Lifetime
pub mod Stopped
pub mod Watch
pub mod Loop
mod Tests
use tlswrapper.Base.{
  ℕ, zero, suc, ◌+◌, ◌-◌, ◌*◌, ◌/◌, ◌%◌, ◌^◌, Str, is_empty, str_eq, ltb, leb, ◌==◌, if◌then◌else◌,
  Bool, true, false, not, ◌&&◌, ◌||◌, Option, none, some, List, [], ◌∷◌,
}

-- `mux.SessionMetrics`, as far as the tunnel reads it.
pub record Metrics : Type 0 where
  pub streams_opened : ℕ  -- uint64, and the next three
  pub streams_accepted : ℕ
  pub streams_succeeded : ℕ
  pub streams_failed : ℕ
  pub num_streams : ℕ
  pub bytes_received : ℕ
  pub bytes_sent : ℕ
  pub wire_length_received : ℕ
  pub wire_length_sent : ℕ

-- `mux.Session`, as far as the tunnel reads it: `stats` is `none` where `Stats()` is nil.
pub record Session : Type 0 where
  pub peer_identity : Str
  pub is_closed : Bool
  pub stats : Option Metrics

pub data Line : Type 0 where
  session_established session_closed : ℕ → Line

-- What the tunnels of one server share. `watchers` are the goroutines started by `dial` that wait
-- for a session to close and then finalize it.
pub record World : Type 0 where
  pub sessions : ℕ → Session
  pub watchers : List ℕ
  pub num_sessions : ℕ  -- uint32
  pub num_sessions_created : ℕ  -- uint64
  pub num_sessions_finalized : ℕ  -- uint64
  pub payload_bytes_received : ℕ  -- uint64, and the next three
  pub payload_bytes_sent : ℕ
  pub mux_bytes_received : ℕ
  pub mux_bytes_sent : ℕ
  pub recent_events : List (ℕ × Line)  -- newest first

-- `closed_sig` says that the channel is closed, `redial_sig` that the signal of capacity 1 is set.
pub record Tunnel : Type 0 where
  pub dial_addr : Str
  pub ss : Option ℕ
  pub idle_since : Option ℕ
  pub stale : Bool
  pub idle_evicted : Bool
  pub last_identity : Str
  pub closed_sig : Bool
  pub redial_sig : Bool
  pub redial_count : ℕ
  pub dialing : Bool  -- dialMu
  pub last_changed : ℕ

-- `newTunnel`
unfoldable pub new_tunnel : Str → Tunnel
new_tunnel dial_addr = record {
  dial_addr = dial_addr;
  ss = none;
  idle_since = none;
  stale = false;
  idle_evicted = false;
  last_identity = [];
  closed_sig = false;
  redial_sig = false;
  redial_count = 0;
  dialing = false;
  last_changed = 0;
}

abbrev pub add_u32 : ℕ → ℕ → ℕ
add_u32 a b = (a + b) % 2 ^ 32

abbrev pub add_u64 : ℕ → ℕ → ℕ
add_u64 a b = (a + b) % 2 ^ 64

-- `^uint32(0)`
abbrev pub minus_one : ℕ
minus_one = 2 ^ 32 - 1

abbrev pub update : {A : Type 0} → ℕ → A → (ℕ → A) → ℕ → A
update k v f j = if j == k then v else f j

-- `ss.Close()`; a second call changes nothing.
unfoldable pub close_session : ℕ → World → World
close_session i w = record w {
  sessions = update i (record (w.sessions i) { is_closed = true }) w.sessions;
}

-- `t.ss == nil || t.ss.IsClosed()` decides between `none` and the session.
unfoldable pub get_session : Tunnel → World → Option ℕ
get_session t w = elim t.ss [
  | none ↦ none
  | some i ↦ if (w.sessions i).is_closed then none else some i
]

unfoldable pub close_if_open : Option ℕ → World → World
unfolding close_session
close_if_open none w = w
close_if_open (some i) w = if (w.sessions i).is_closed then w else close_session i w

-- `Stop`: `stopOnce` makes the second call a no-op.
unfoldable pub stop : Tunnel → World → Tunnel × World
unfolding close_if_open
stop t w = if t.closed_sig then (t, w) else (record t { closed_sig = true }, close_if_open t.ss w)

unfoldable pub num_streams : Option Metrics → ℕ
num_streams none = 0
num_streams (some m) = m.num_streams

-- The idle clock starts when the streams are gone, and stops when one is there.
unfoldable pub track_idle : ℕ → ℕ → Option ℕ → Option ℕ
track_idle now (suc n) since = none
track_idle now zero none = some now
track_idle now zero (some s) = some s

-- `idleTimeout > 0 && !t.idleSince.IsZero() && now.Sub(t.idleSince) >= idleTimeout`
unfoldable pub idle_too_long : ℕ → ℕ → Option ℕ → Bool
idle_too_long now timeout none = false
idle_too_long now timeout (some s) = ltb 0 timeout && leb timeout (now - s)

-- `checkIdle` with an open session `i`.
unfoldable pub check_open : ℕ → ℕ → ℕ → Tunnel → World → Tunnel × World
unfolding num_streams track_idle idle_too_long close_session
check_open now timeout i t w =
    let n = num_streams (w.sessions i).stats in
    let since = track_idle now n t.idle_since in
    if t.stale && n == 0
    then (t, close_session i w)
    else if idle_too_long now timeout since
    then (record t { idle_since = since; idle_evicted = true }, close_session i w)
    else (record t { idle_since = since }, w)

unfoldable pub check_idle : ℕ → ℕ → Tunnel → World → Tunnel × World
unfolding check_open get_session
check_idle now timeout t w = elim (get_session t w) [
  | none ↦ (t, w)
  | some i ↦ check_open now timeout i t w
]

-- What `addSession` does to a running tunnel.
unfoldable pub install : ℕ → ℕ → Tunnel → World → Tunnel × World
unfolding close_if_open
install now i t w =
    let w' = close_if_open t.ss w in
    (
      record t {
        ss = some i;
        stale = false;
        idle_evicted = false;
        idle_since = none;
        last_identity = (w.sessions i).peer_identity;
        last_changed = now;
      },
      record w' {
        num_sessions = add_u32 w'.num_sessions 1;
        num_sessions_created = add_u64 w'.num_sessions_created 1;
        recent_events = (now, session_established i) ∷ w'.recent_events;
      },
    )

-- `addSession`: `none` for the `false` that a stopped tunnel returns.
unfoldable pub add_session : ℕ → ℕ → Tunnel → World → Option (Tunnel × World)
add_session now i t w = if t.closed_sig then none else some (install now i t w)

-- `flushSessionMetrics` of v4/server.go.
unfoldable pub flush_session_metrics : Option Metrics → World → World
flush_session_metrics none w = w
flush_session_metrics (some m) w = record w {
  payload_bytes_received = add_u64 w.payload_bytes_received m.bytes_received;
  payload_bytes_sent = add_u64 w.payload_bytes_sent m.bytes_sent;
  mux_bytes_received = add_u64 w.mux_bytes_received m.wire_length_received;
  mux_bytes_sent = add_u64 w.mux_bytes_sent m.wire_length_sent;
}

abbrev is_current : Option ℕ → ℕ → Bool
is_current none i = false
is_current (some j) i = j == i

-- What `finalizeSession` does to its tunnel, under the lock.
unfoldable pub release_session : ℕ → ℕ → Tunnel → Tunnel
release_session now i t =
    if is_current t.ss i
    then record t {
      ss = none;
      idle_since = none;
      idle_evicted = false;
      last_changed = now;
      redial_sig = t.redial_sig || not t.idle_evicted && not (is_empty t.dial_addr);
    }
    else t

unfoldable pub finalize_session : ℕ → ℕ → Tunnel → World → Tunnel × World
unfolding flush_session_metrics release_session
finalize_session now i t w =
    let w' = flush_session_metrics (w.sessions i).stats w in
    (
      release_session now i t,
      record w' {
        num_sessions = add_u32 w'.num_sessions minus_one;
        num_sessions_finalized = add_u64 w'.num_sessions_finalized 1;
        recent_events = (now, session_closed i) ∷ w'.recent_events;
      },
    )
