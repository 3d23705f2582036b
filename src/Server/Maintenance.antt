-- ===== src/Server/Maintenance.antt =====
-- `maintenanceLoop` of v4/server.go: the ticks of its timer, each with the time and the ping timeout
-- that the configuration has then.
use tlswrapper.Base.{ℕ, ◌-◌, ◌<◌, ltb, lt→ltb, if◌then◌else◌, List, [], ◌∷◌, ◌++◌, All}
use tlswrapper.Server.{Server, get_all_tunnels, timeout_all_sessions}
use tlswrapper.Server.Timeout.{NoSession, timeout_all_sessions-NoSession}

-- `lastTick` is the first argument. The drain of a buffer pool is left out.
unfoldable pub maintenance_tick : ℕ → ℕ → ℕ → Server → Server
maintenance_tick last now ping_timeout s =
    if ltb ping_timeout (now - last) then timeout_all_sessions s else s

unfoldable pub maintenance_loop : ℕ → List (ℕ × ℕ) → Server → Server
maintenance_loop last [] s = s
maintenance_loop last ((now, ping_timeout) ∷ ticks) s =
    maintenance_loop now ticks (maintenance_tick last now ping_timeout s)

abbrev pub last_tick : ℕ → List (ℕ × ℕ) → ℕ
last_tick last [] = last
last_tick last ((now, ping_timeout) ∷ ticks) = last_tick now ticks

tick-NoSession :
    (last now ping_timeout : ℕ) (s : Server)
    → ping_timeout < now - last
    → let t = maintenance_tick last now ping_timeout s in
      All (NoSession t.world) (get_all_tunnels t)
unfolding maintenance_tick
tick-NoSession last now ping_timeout s h =
    rw (maintenance_tick, lt→ltb ping_timeout (now - last) h) (timeout_all_sessions-NoSession s)

-- A tick that comes more than the ping timeout after the one before leaves no open session, whatever
-- the ticks before it did.
pub sleep-NoSession :
    (last now ping_timeout : ℕ) (ticks : List (ℕ × ℕ)) (s : Server)
    → ping_timeout < now - last_tick last ticks
    → let t = maintenance_loop last (ticks ++ ((now, ping_timeout) ∷ [])) s in
      All (NoSession t.world) (get_all_tunnels t)
unfolding maintenance_loop
sleep-NoSession last now ping_timeout [] s h = tick-NoSession last now ping_timeout s h
sleep-NoSession last now ping_timeout ((then_, p) ∷ ticks) s h =
    sleep-NoSession then_ now ping_timeout ticks (maintenance_tick last then_ p s) h
