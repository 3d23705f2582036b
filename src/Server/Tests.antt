-- ===== src/Server/Tests.antt =====
-- A server with a main tunnel, an identity listener and two identity tunnels, one of which is no
-- longer configured.
use tlswrapper.Base.{
  ℕ, ◌≡◌, refl, Str, lit, str_eq, if◌then◌else◌, true, false, Option, none, some, [], ◌∷◌, arith,
}
use tlswrapper.Base.Int.{pos}
use tlswrapper.Config.{File, default_file}
use tlswrapper.Tunnel.{Tunnel, World}
use tlswrapper.Server.{Server}
use tlswrapper.Server.Load.{Answers, load_tunnels, load_identity_tunnels, tally}
use tlswrapper.Server.Multiset.{addrs, load_identity_tunnels_same}
use tlswrapper.Server.Loaded.{Configured, load_tunnels-Configured}
use tlswrapper.Server.Reload.{Service, Replies, reload_config}
use tlswrapper.Server.Reloaded.{Reloaded, reload_config-Reloaded}
use tlswrapper.Server.Serve.{
  Acceptor, Event, session_comes, handshake_ends, session_ends, run, listener_stats,
}
use tlswrapper.Server.Served.{Counted, listener_stats-run}
use tlswrapper.Base.Int.{ltb_ℤ}
use tlswrapper.Config.Tests.{parse_one, snapshot}
use tlswrapper.Config.Clamp.{clamp_file}
use tlswrapper.Config.Validate.{ok, validate, check_type, check_h3mux, check_startups, IsValid}
use tlswrapper.Server.Throttle.{full_limit_wraps}
use tlswrapper.Limiter
use tlswrapper.Limiter.{is_limited}
use tlswrapper.Config.Startups.{parse_max_startups, split_n, atoi}
use tlswrapper.Config.Validate.{parsed_max_startups}
use tlswrapper.Base.{List, All, length, ◌+◌, ◌%◌, ◌^◌}
use tlswrapper.Server.Reload.{throttle_config}
use tlswrapper.Base.{map}
use tlswrapper.Latency.{LatencyRing, new_ring}
use tlswrapper.Server.Stats.{Counters, tunnel_stats, server_stats}
use tlswrapper.Server.Stats.Sums.{Totals}
use tlswrapper.Server.Stats.Sessions.{
  entries, at_most_one, latest, IsListed, server_stats-Totals_and_latest,
}
use tlswrapper.Server.Streams.{
  Served, Round, accepts, times_out, local_handler, empty_handler, serve, Inbound,
  accept_inbound_streams,
}
use tlswrapper.Server.Streams.Kept.{kept, lost, obtained, obtained_inbound, connections-kept}
use tlswrapper.Server.Shutdown.{shutdown}
use tlswrapper.Server.Stopped.{IsDown, shutdown-IsDown}

abbrev config : File
config = record (default_file (lit "v4") (pos 0)) {
  mux_connect = lit "main:1";
  identity = record {
    claim = lit "me";
    mux_connect = lit "b:1" ∷ lit "c:1" ∷ lit "b:1" ∷ [];
    listen = (lit "left", lit ":80") ∷ (lit "right", lit ":81") ∷ [];
  };
}

abbrev tunnel_to : Str → Option ℕ → Tunnel
tunnel_to addr ss = record {
  dial_addr = addr;
  ss = ss;
  idle_since = none;
  stale = false;
  idle_evicted = false;
  last_identity = lit "peer";
  closed_sig = false;
  redial_sig = false;
  redial_count = 0;
  dialing = false;
  last_changed = 0;
}

abbrev world : World
world = record {
  sessions = λ i. record { peer_identity = lit "peer"; is_closed = false; stats = none };
  watchers = 1 ∷ 0 ∷ [];
  num_sessions = 2;
  num_sessions_created = 2;
  num_sessions_finalized = 0;
  payload_bytes_received = 0;
  payload_bytes_sent = 0;
  mux_bytes_received = 0;
  mux_bytes_sent = 0;
  recent_events = [];
}

abbrev server : Server
server = record {
  main_tunnel = some (tunnel_to (lit "main:0") none);
  local_listener = none;
  local_listen_addr = [];
  identity_tunnels = tunnel_to (lit "a:1") (some 0) ∷ tunnel_to (lit "b:1") (some 1) ∷ [];
  identities = (lit "left", record { handle = 7; addr = lit ":79" }) ∷ [];
  accepted_tunnels = [];
  closed_listeners = [];
  world = world;
}

abbrev answers : Answers
answers = record {
  local_listen = none;
  local_go = true;
  listen = λ id. if str_eq id (lit "left") then some 8 else none;
  listen_go = λ id. true;
  main_go = true;
  tunnel_go = λ n. true;
}

load_tunnels-Configured_example : Configured config (load_tunnels config answers server).0
load_tunnels-Configured_example = load_tunnels-Configured config answers server (refl, (refl, tt))

-- The same tunnels as configured, in another order.
abbrev settled : Server
settled = record server {
  identity_tunnels =
      tunnel_to (lit "b:1") (some 0)
      ∷ tunnel_to (lit "b:1") (some 1)
      ∷ tunnel_to (lit "c:1") none
      ∷ [];
}

settled_addresses :
    (b : Str) → tally (addrs settled.identity_tunnels) b ≡ tally config.identity.mux_connect b
unfolding tally addrs
settled_addresses b = ground arith

load_identity_tunnels_same_example : load_identity_tunnels config answers settled ≡ (settled, [])
load_identity_tunnels_same_example =
    load_identity_tunnels_same config answers settled settled_addresses

abbrev pub service : Service
service = record {
  server = server;
  cfg = default_file (lit "v4") (pos 0);
  tlscfg = 0;
  mux_dialer = (default_file (lit "v4") (pos 0), 0);
  stream_limit = pos 1024;
  mux_listener = some 5;
  throttle = none;
  api_listener = none;
  last_config_json = [];
  log = record { elements = []; lastpos = 0; cap = 100 };
}

abbrev pub replies : Replies
replies = record {
  now = 90;
  tls = some 1;
  mux_listen = some 6;
  mux_go = true;
  api_listen = none;
  api_go = true;
  answers = record answers { listen = λ id. some 8 };
}

reload_config-Reloaded_example :
    Reloaded config
      (some (lit "{}"))
      service
      (reload_config config (some (lit "{}")) replies service).0
      (reload_config config (some (lit "{}")) replies service).1
reload_config-Reloaded_example =
    reload_config-Reloaded config (some (lit "{}")) replies service (refl, (refl, tt))

shutdown-IsDown_example : IsDown service (shutdown true service)
shutdown-IsDown_example = shutdown-IsDown true service

-- Nothing accepted yet, and the two outbound sessions with their watchers.
abbrev acceptor : Acceptor
acceptor = record {
  accepted = 0;
  served = 0;
  authorized = 0;
  num_half_open = 0;
  handshaking = [];
  server = server;
}

abbrev arrivals : List Event
arrivals =
    session_comes 4 true true
    ∷ session_comes 5 true true
    ∷ session_comes 6 true false
    ∷ handshake_ends 91 4 true true
    ∷ handshake_ends 92 5 false true
    ∷ session_ends 95 4
    ∷ []

acceptor-Counted : Counted acceptor
acceptor-Counted = record { half = omega arith; live = omega arith; totals = omega arith }

listener_stats-run_example :
    let b = run arrivals acceptor in
    listener_stats b ≡ (
      (length b.server.world.watchers + length b.server.accepted_tunnels) % 2 ^ 32,
      length b.handshaking % 2 ^ 32,
    )
listener_stats-run_example = listener_stats-run arrivals acceptor acceptor-Counted

-- A valid snapshot whose full limit is one more than 2^32.
abbrev wide : File
wide = record snapshot { max_startups = lit "10:30:4294967297" }

wide_passes : validate parse_one wide ≡ ok (clamp_file wide)
unfolding validate check_type check_h3mux check_startups parse_max_startups split_n atoi
wide_passes = refl

abbrev two_under_way : Limiter.Round
two_under_way = record { session = some 1; num_sessions = 1; num_half_open = 2; draw = false }

full_limit_wraps_example :
    IsValid parse_one (clamp_file wide)
    × (ltb_ℤ (pos 2) (parsed_max_startups (clamp_file wide)).full ≡ true)
    × (is_limited (throttle_config (clamp_file wide)) two_under_way ≡ true)
unfolding clamp_file parsed_max_startups parse_max_startups split_n atoi
full_limit_wraps_example =
    full_limit_wraps parse_one wide (clamp_file wide) 1 1 two_under_way wide_passes refl
      (omega arith) (omega arith) (omega arith) (omega arith)

-- A connection that is served, one that the context manager refuses, and two streams of a session.
abbrev served_rounds : List Round
served_rounds =
    accepts 1 true true (local_handler (record { found = true; dialed = some 2; start_ok = true }))
    ∷ times_out
    ∷ accepts 3 true false empty_handler
    ∷ []

abbrev inbound_rounds : List Inbound
inbound_rounds =
    record { stream = 4; go = true; has_ctx = true; dialed = some 5; start_ok = false }
    ∷ record { stream = 6; go = false; has_ctx = true; dialed = none; start_ok = false }
    ∷ []

abbrev none_served : Served
none_served = record { closed = []; started = []; request = 0; success = 0 }

connections-kept_example :
    (kept 3 (serve served_rounds none_served) + lost 3 served_rounds
      ≡ kept 3 none_served + obtained 3 served_rounds)
    × (kept 3 (accept_inbound_streams (lit "c:1") inbound_rounds none_served)
        ≡ kept 3 none_served + obtained_inbound (lit "c:1") 3 inbound_rounds)
connections-kept_example = connections-kept served_rounds (lit "c:1") inbound_rounds 3 none_served

abbrev counters : Counters
counters = record {
  accepted = 5;
  served = 4;
  authorized = 4;
  request = 9;
  success = 7;
  num_half_open = 0;
  streams_half_open = 1;
}

abbrev with_rings : List (Tunnel × LatencyRing)
with_rings =
    (tunnel_to (lit "a:1") (some 0), new_ring) ∷ (tunnel_to (lit "b:1") none, new_ring) ∷ []

server_stats-Totals_and_latest_example :
    let s = server_stats none counters world with_rings in
    let vs = map (tunnel_stats world) with_rings in
    Totals vs world s
    × (entries (lit "peer") s.sessions ≡ at_most_one (latest (lit "peer") vs none))
    × All (IsListed (lit "peer") (latest (lit "peer") vs none)) vs
server_stats-Totals_and_latest_example =
    server_stats-Totals_and_latest none counters world with_rings (lit "peer") refl
