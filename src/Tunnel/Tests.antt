-- ===== src/Tunnel/Tests.antt =====
-- A tunnel to one address, before and after its session.
use tlswrapper.Base.{◌≡◌, ◌↔◌, inl, refl, lit, true, false, ◌==◌, none, some, List, [], ◌∷◌, arith}
use tlswrapper.Tunnel.{Tunnel, World, Session, Metrics, get_session, check_idle, num_streams}
use tlswrapper.Tunnel.Redial.{ok, dial}
use tlswrapper.Tunnel.Redial.Outcomes.{Dialed, dial-Dialed, all_spawned, dial_closes_current}
use tlswrapper.Tunnel.Idle.{Evictable, check_idle-closes_iff}
use tlswrapper.Tunnel.Events.{
  Event, begin_dial, end_dial, session_closes, watcher_runs, idle_check, traffic, reload, run,
}
use tlswrapper.Tunnel.Books.{Balanced, run-Balanced}
use tlswrapper.Base.{ℕ}
use tlswrapper.Tunnel.Watch.{outer, idle_notified, Act, carries, wakes, watch}
use tlswrapper.Tunnel.Watch.Evicts.{evicted_right_after_use}
use tlswrapper.Tunnel.Lifetime.{Sound, run-Sound}
use tlswrapper.Tunnel.Stopped.{stopped_for_good}
use tlswrapper.Base.{◌<◌, ◌≤◌, ◌*◌}
use tlswrapper.Tunnel.Redial.{base_wait, jittered}
use tlswrapper.Tunnel.Loop.{selecting, loop}
use tlswrapper.Tunnel.Loop.Failures.{Down, failures, failed, failures_back_off}

abbrev peer_session : Session
peer_session = record { peer_identity = lit "peer"; is_closed = false; stats = none }

abbrev empty_world : World
empty_world = record {
  sessions = λ i. peer_session;
  watchers = [];
  num_sessions = 0;
  num_sessions_created = 0;
  num_sessions_finalized = 0;
  payload_bytes_received = 0;
  payload_bytes_sent = 0;
  mux_bytes_received = 0;
  mux_bytes_sent = 0;
  recent_events = [];
}

abbrev idle_tunnel : Tunnel
idle_tunnel = record {
  dial_addr = lit "peer:443";
  ss = none;
  idle_since = none;
  stale = false;
  idle_evicted = false;
  last_identity = [];
  closed_sig = false;
  redial_sig = false;
  redial_count = 0;
  dialing = false;
  last_changed = 0;
}

-- Session 0 is installed and watched.
abbrev connected : Tunnel
connected = record idle_tunnel { ss = some 0 }

abbrev connected_world : World
connected_world = record empty_world {
  watchers = 0 ∷ [];
  num_sessions = 1;
  num_sessions_created = 1;
}

-- The same session, closed.
abbrev lost_world : World
lost_world = record connected_world { sessions = λ i. record peer_session { is_closed = i == 0 } }

abbrev busy : Metrics
busy = record {
  streams_opened = 3;
  streams_accepted = 1;
  streams_succeeded = 2;
  streams_failed = 0;
  num_streams = 2;
  bytes_received = 10;
  bytes_sent = 20;
  wire_length_received = 30;
  wire_length_sent = 40;
}

abbrev one_session : List Event
one_session =
    begin_dial
    ∷ end_dial 5 (some 0) all_spawned
    ∷ traffic 0 busy
    ∷ idle_check 7 60
    ∷ reload
    ∷ session_closes 0
    ∷ watcher_runs 9 0
    ∷ []

idle_tunnel-Sound : Sound idle_tunnel empty_world
idle_tunnel-Sound = record {
  watched = λ i e. ground (arith, e);
  ended = λ x i e. ground (arith, e);
}

connected-Sound : Sound connected connected_world
connected-Sound = record { watched = λ i e. ground (arith, e); ended = λ x i e. ground (arith, x) }

stopped-Sound : Sound (record connected { closed_sig = true }) lost_world
stopped-Sound = record { watched = λ i e. ground (arith, e); ended = λ x i e. ground (arith, e) }

empty_world-Balanced : Balanced empty_world
empty_world-Balanced = record { current = omega arith; totals = omega arith }

run-Balanced_example : Balanced (run one_session idle_tunnel empty_world).1
run-Balanced_example = run-Balanced one_session idle_tunnel empty_world empty_world-Balanced

run-Sound_example :
    Sound (run one_session idle_tunnel empty_world).0 (run one_session idle_tunnel empty_world).1
run-Sound_example = run-Sound one_session idle_tunnel empty_world idle_tunnel-Sound

stopped_for_good_example :
    let r = run one_session (record connected { closed_sig = true }) lost_world in
    (get_session r.0 r.1 ≡ none) × (r.1.num_sessions_created ≡ 1)
stopped_for_good_example =
    stopped_for_good one_session (record connected { closed_sig = true }) lost_world stopped-Sound
      refl

dial-Dialed_example :
    let r = dial 5 (some 0) all_spawned idle_tunnel empty_world in
    Dialed 5 (some 0) all_spawned idle_tunnel empty_world r.0 r.1 r.2
dial-Dialed_example = dial-Dialed 5 (some 0) all_spawned idle_tunnel empty_world

dial_closes_current_example :
    let r = dial 5 (some 1) all_spawned connected connected_world in
    (r.0 ≡ ok 1) × (r.1.ss ≡ some 1) × ((r.2.sessions 0).is_closed ≡ true)
unfolding get_session
dial_closes_current_example =
    dial_closes_current 5 1 0 connected connected_world refl refl refl refl

check_idle-closes_iff_example :
    (((check_idle 90 60 connected connected_world).1.sessions 0).is_closed ≡ true)
    ↔ Evictable 90 60 0 connected connected_world
unfolding get_session
check_idle-closes_iff_example = check_idle-closes_iff 90 60 0 connected connected_world refl

-- The tunnel was marked by a reload, and has no stream.
abbrev stale_tunnel : Tunnel
stale_tunnel = record connected { stale = true }

stale_tunnel-Evictable : Evictable 90 60 0 stale_tunnel connected_world
unfolding num_streams
stale_tunnel-Evictable = (refl, inl refl)

-- After three failures.
abbrev failing : Tunnel
failing = record idle_tunnel { redial_count = 3 }

abbrev at_rest : Metrics
at_rest = record busy { num_streams = 0 }

-- With a timeout of 60: in use until 59, and until 61.
abbrev twice_used : List (ℕ × Act)
twice_used =
    (0, wakes idle_notified)
    ∷ (10, carries busy)
    ∷ (59, carries at_rest)
    ∷ (59, wakes idle_notified)
    ∷ (60, carries busy)
    ∷ (61, carries at_rest)
    ∷ (61, wakes idle_notified)
    ∷ []

evicted_right_after_use_example :
    ((watch 60 0 twice_used (outer, connected, connected_world)).2.sessions 0).is_closed ≡ true
unfolding num_streams
evicted_right_after_use_example =
    evicted_right_after_use 60 0 0 59 61 10 60 busy at_rest busy at_rest connected connected_world
      refl refl refl refl refl refl refl (omega arith) (omega arith) (omega arith) (omega arith)
      (omega arith)

idle_tunnel-Down : Down idle_tunnel empty_world
unfolding get_session
idle_tunnel-Down = record { lost = refl; named = refl; unlocked = refl }

-- Three attempts fail, the last with 2 s as the table entry.
failures_back_off_example :
    let b = base_wait 2 in
    let (p, t', w') =
      loop
        (failures all_spawned ((1, 5) ∷ (2, 6) ∷ (3, 4_000) ∷ []))
        (selecting (some 0), idle_tunnel, empty_world) in
    (p ≡ selecting (some (jittered b 4_000)))
    × (t' ≡ failed 3 idle_tunnel)
    × (w' ≡ empty_world)
    × (4 * b ≤ 5 * jittered b 4_000)
    × (5 * jittered b 4_000 < 6 * b)
    × (160_000_000 ≤ jittered b 4_000)
    × (jittered b 4_000 < 720_000_000_000)
unfolding base_wait
failures_back_off_example =
    failures_back_off ((1, 5) ∷ (2, 6) ∷ []) 3 4_000 0 all_spawned idle_tunnel empty_world
      idle_tunnel-Down (omega arith) (omega arith)
