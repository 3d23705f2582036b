-- ===== src/H2mux/Tests/Setup.antt =====
-- The setting up of a connection, and its buffers.
use tlswrapper.Base.{◌≤◌, none, some, List, [], ◌∷◌}
use tlswrapper.H2mux.BufferPool.{
  get, new_dirty_buffer_pool, uses, Use, gets, puts, default_sizes, get_has_room,
}
use tlswrapper.H2mux.Server.{
  Event, controls, shakes, streams, readies, new_mux_server, run, AllAre, control_closes_once,
}

-- A buffer of another size comes back, and is handed out again.
abbrev used : List Use
used = gets 100 none ∷ puts 5000 ∷ puts 100 ∷ gets 20 none ∷ []

get_has_room_example :
    4000 ≤ (get 4000 (some 5000) (uses used (new_dirty_buffer_pool default_sizes))).0
get_has_room_example = get_has_room default_sizes used 4000 (some 5000)

-- Two Control calls, and a stream that waits for the first.
abbrev two_controls : List Event
two_controls = streams ∷ controls ∷ controls ∷ shakes (some 7) ∷ readies ∷ shakes (some 8) ∷ []

control_closes_once_example :
    ((run two_controls new_mux_server).ready_closes ≤ 1)
    × AllAre (run two_controls new_mux_server).sess (run two_controls new_mux_server).routed
control_closes_once_example = control_closes_once two_controls
