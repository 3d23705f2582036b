-- ===== src/Server/Serve.antt =====
-- `serveMuxListener` and `serveSession` of v4/server.go: the sessions that the mux listener accepts,
-- an event at a time and in any order. What the group and the context manager answer, and how a
-- handshake ends, is an argument; the streams of a session are in Server.Streams.
use tlswrapper.Base.{
  mem, remove, ℕ, ◌==◌, ◌||◌, if◌then◌else◌, Bool, true, false, ◌&&◌, some, List, [], ◌∷◌,
}
use tlswrapper.Tunnel.{
  Tunnel, new_tunnel, add_u32, add_u64, minus_one, close_session, flush_session_metrics,
  session_established, session_closed,
}
use tlswrapper.Server.{Server}

-- `handshaking` are the sessions whose goroutine is in `Handshake`. Those in the loop of
-- `serveSession` are the keys of the server's accepted tunnels.
pub record Acceptor : Type 0 where
  pub accepted : ℕ  -- uint64, and the next two
  pub served : ℕ
  pub authorized : ℕ
  pub num_half_open : ℕ  -- uint32
  pub handshaking : List ℕ
  pub server : Server

pub data Event : Type 0 where
  -- `Accept` returns a session that it has not returned before.
  session_comes : (i : ℕ) (go has_ctx : Bool) → Event
  handshake_ends : (now i : ℕ) (ok go : Bool) → Event
  -- `ss.Accept` fails, or the group does not take a stream.
  session_ends : (now i : ℕ) → Event

-- The tunnel of an accepted session.
abbrev pub inbound : ℕ → ℕ → Tunnel → Tunnel
inbound now i t = record t { ss = some i; last_changed = now }

unfoldable pub close_accepted : ℕ → Server → Server
close_accepted i s = record s { world = close_session i s.world }

-- An accepted session, up to its handshake.
unfoldable pub begin_handshake : ℕ → Bool → Bool → Acceptor → Acceptor
begin_handshake i go has_ctx a =
    if go && has_ctx
    then record a {
      accepted = add_u64 a.accepted 1;
      num_half_open = add_u32 a.num_half_open 1;
      handshaking = i ∷ a.handshaking;
    }
    else record a { accepted = add_u64 a.accepted 1; server = close_accepted i a.server }

-- `serveSession` up to its loop; it returns at once if the group does not take the closer.
unfoldable pub serve_begin : ℕ → ℕ → Bool → Acceptor → Acceptor
serve_begin now i false a = a
serve_begin now i true a =
    let w = a.server.world in
    record a {
      authorized = add_u64 a.authorized 1;
      server = record a.server {
        accepted_tunnels = (i, inbound now i (new_tunnel [])) ∷ a.server.accepted_tunnels;
        world = record w {
          num_sessions = add_u32 w.num_sessions 1;
          num_sessions_created = add_u64 w.num_sessions_created 1;
          recent_events = (now, session_established i) ∷ w.recent_events;
        };
      };
    }

-- After `Handshake`.
unfoldable pub end_handshake : ℕ → ℕ → Bool → Bool → Acceptor → Acceptor
end_handshake now i ok go a =
    let a' = record a {
      num_half_open = add_u32 a.num_half_open minus_one;
      handshaking = remove i a.handshaking;
    } in
    if ok then serve_begin now i go (record a' { served = add_u64 a'.served 1 }) else a'

abbrev pub has_key : ℕ → List (ℕ × Tunnel) → Bool
has_key i [] = false
has_key i ((k, t) ∷ m) = k == i || has_key i m

unfoldable pub delete_key : ℕ → List (ℕ × Tunnel) → List (ℕ × Tunnel)
delete_key i [] = []
delete_key i ((k, t) ∷ m) = if k == i then m else (k, t) ∷ delete_key i m

-- The deferred end of `serveSession`.
unfoldable pub serve_end : ℕ → ℕ → Acceptor → Acceptor
serve_end now i a =
    let w = flush_session_metrics (a.server.world.sessions i).stats a.server.world in
    record a {
      server = record a.server {
        accepted_tunnels = delete_key i a.server.accepted_tunnels;
        world = record w {
          num_sessions = add_u32 w.num_sessions minus_one;
          num_sessions_finalized = add_u64 w.num_sessions_finalized 1;
          recent_events = (now, session_closed i) ∷ w.recent_events;
        };
      };
    }

-- An event of a session that no goroutine is in the place for changes nothing.
unfoldable pub step : Event → Acceptor → Acceptor
step (session_comes i go has_ctx) a = begin_handshake i go has_ctx a
step (handshake_ends now i ok go) a = if mem i a.handshaking then end_handshake now i ok go a else a
step (session_ends now i) a = if has_key i a.server.accepted_tunnels then serve_end now i a else a

unfoldable pub run : List Event → Acceptor → Acceptor
run [] a = a
run (e ∷ es) a = run es (step e a)

-- `ListenerStats`
unfoldable pub listener_stats : Acceptor → ℕ × ℕ
listener_stats a = (a.server.world.num_sessions, a.num_half_open)
