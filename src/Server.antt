-- ===== src/Server.antt =====
-- v4/server.go: the tunnels of a server, and the operations that go over all of them. The accepted
-- tunnels are an association list for the Go map; what iterates over the map does so in the list's
-- order.
pub mod Load
pub mod Multiset
pub mod Listeners
pub mod Loaded
pub mod Closing
pub mod Reload
pub mod Reloaded
pub mod Stale
pub mod Timeout
pub mod Maintenance
pub mod Serve
pub mod Served
pub mod Throttle
pub mod Shutdown
pub mod Stopped
pub mod Streams
pub mod Stats
pub mod Tests
pub mod Lookup
use tlswrapper.Base.{
  ℕ, Str, is_empty, str_eq, ◌==◌, if◌then◌else◌, Bool, true, false, not, ◌&&◌, Option, none, some,
  List, [], ◌∷◌, ◌++◌, map,
}
use tlswrapper.Tunnel.{Tunnel, World, Session, get_session, check_idle, close_session, update}

-- A local listener: its place among the open ones, and the address it was bound to.
pub record Listener : Type 0 where
  pub handle : ℕ
  pub addr : Str

-- `closed_listeners` are the listeners that `ioClose` was called on, the last first.
pub record Server : Type 0 where
  pub main_tunnel : Option Tunnel
  pub local_listener : Option ℕ
  pub local_listen_addr : Str
  pub identity_tunnels : List Tunnel
  pub identities : List (Str × Listener)
  pub accepted_tunnels : List (ℕ × Tunnel)
  pub closed_listeners : List ℕ
  pub world : World

-- `sess != nil && sess.PeerIdentity() == peerIdentity`
unfoldable pub has_peer : Str → Option ℕ → World → Bool
has_peer peer none w = false
has_peer peer (some i) w = str_eq (w.sessions i).peer_identity peer

-- `if fallback == nil && t.lastIdentityValue() == peerIdentity`
abbrev pub first_with : Str → Tunnel → Option Tunnel → Option Tunnel
first_with peer t (some f) = some f
first_with peer t none = if str_eq t.last_identity peer then some t else none

-- The loop of `findSession`, with the fallback found so far.
unfoldable pub find_from : Str → List Tunnel → Option Tunnel → World → Option Tunnel
find_from peer [] fallback w = fallback
find_from peer (t ∷ ts) fallback w =
    let rest = find_from peer ts (first_with peer t fallback) w in
    if has_peer peer (get_session t w) w then some t else rest

unfoldable pub find_session : Str → Server → Option Tunnel
find_session peer s =
    if is_empty peer then s.main_tunnel else find_from peer s.identity_tunnels none s.world

-- `getAllTunnels`
unfoldable pub get_all_tunnels : Server → List Tunnel
get_all_tunnels s =
    let others = s.identity_tunnels ++ map (λ e. e.1) s.accepted_tunnels in
    elim s.main_tunnel [ none ↦ others | some t ↦ t ∷ others ]

-- The body of the loop of `markSessionsStale`.
unfoldable pub mark_stale : ℕ → ℕ → Tunnel → World → Tunnel × World
mark_stale now timeout t w = check_idle now timeout (record t { stale = true }) w

unfoldable pub mark_main : ℕ → ℕ → Option Tunnel → World → Option Tunnel × World
mark_main now timeout none w = (none, w)
mark_main now timeout (some t) w = let (t', w') = mark_stale now timeout t w in (some t', w')

unfoldable pub mark_all : ℕ → ℕ → List Tunnel → World → List Tunnel × World
mark_all now timeout [] w = ([], w)
mark_all now timeout (t ∷ ts) w =
    let (t', w') = mark_stale now timeout t w in
    let (ts', w'') = mark_all now timeout ts w' in (t' ∷ ts', w'')

unfoldable pub mark_accepted : ℕ → ℕ → List (ℕ × Tunnel) → World → List (ℕ × Tunnel) × World
mark_accepted now timeout [] w = ([], w)
mark_accepted now timeout ((k, t) ∷ ts) w =
    let (t', w') = mark_stale now timeout t w in
    let (ts', w'') = mark_accepted now timeout ts w' in ((k, t') ∷ ts', w'')

-- `markSessionsStale`, over the tunnels in the order of `getAllTunnels`.
unfoldable pub mark_sessions_stale : ℕ → ℕ → Server → Server
mark_sessions_stale now timeout s =
    let (main, w) = mark_main now timeout s.main_tunnel s.world in
    let (identity, w') = mark_all now timeout s.identity_tunnels w in
    let (accepted, w'') = mark_accepted now timeout s.accepted_tunnels w' in
    record s {
      main_tunnel = main;
      identity_tunnels = identity;
      accepted_tunnels = accepted;
      world = w'';
    }

unfoldable pub close_current : Option ℕ → World → World
close_current none w = w
close_current (some i) w = close_session i w

unfoldable pub close_all : List Tunnel → World → World
close_all [] w = w
close_all (t ∷ ts) w = close_all ts (close_current (get_session t w) w)

-- `timeoutAllSessions`
unfoldable pub timeout_all_sessions : Server → Server
timeout_all_sessions s = record s { world = close_all (get_all_tunnels s) s.world }
