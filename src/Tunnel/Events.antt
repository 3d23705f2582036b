-- ===== src/Tunnel/Events.antt =====
-- A tunnel, its sessions and the goroutines round it, an event at a time and in any order.
use tlswrapper.Base.{ℕ, Bool, true, false, ◌&&◌, Option, some, List, [], ◌∷◌, mem, remove}
use tlswrapper.Tunnel.{
  Tunnel, World, Metrics, check_idle, close_session, finalize_session, stop, update,
}
use tlswrapper.Tunnel.Redial.{Result, ok, err, Spawns, dial_begin, dial_end}

pub data Event : Type 0 where
  begin_dial : Event
  end_dial : (now : ℕ) (answer : Option ℕ) (go : Spawns) → Event
  session_closes : (i : ℕ) → Event  -- the peer, a failed ping, or a local `Close`
  watcher_runs : (now i : ℕ) → Event
  idle_check : (now timeout : ℕ) → Event
  traffic : (i : ℕ) (m : Metrics) → Event
  reload : Event  -- `markSessionsStale` sets `stale`
  stop_tunnel : Event

unfoldable pub begin_on : Tunnel → Result Tunnel → Tunnel
begin_on t (ok t') = t'
begin_on t (err e) = t

unfoldable pub end_if : Bool → ℕ → Option ℕ → Spawns → Tunnel → World → Tunnel × World
end_if true now answer go t w = let (r, t', w') = dial_end now answer go t w in (t', w')
end_if false now answer go t w = (t, w)

-- `<-ss.CloseChan()` lets the watcher of a closed session go on to `finalizeSession`.
unfoldable pub watch_if : Bool → ℕ → ℕ → Tunnel → World → Tunnel × World
watch_if true now i t w = finalize_session now i t (record w { watchers = remove i w.watchers })
watch_if false now i t w = (t, w)

unfoldable pub step : Event → Tunnel → World → Tunnel × World
unfolding end_if watch_if begin_on
step begin_dial t w = (begin_on t (dial_begin t), w)
step (end_dial now answer go) t w = end_if t.dialing now answer go t w
step (session_closes i) t w = (t, close_session i w)
step (watcher_runs now i) t w = watch_if (mem i w.watchers && (w.sessions i).is_closed) now i t w
step (idle_check now timeout) t w = check_idle now timeout t w
step (traffic i m) t w =
    (t, record w { sessions = update i (record (w.sessions i) { stats = some m }) w.sessions })
step reload t w = (record t { stale = true }, w)
step stop_tunnel t w = stop t w

unfoldable pub run : List Event → Tunnel → World → Tunnel × World
run [] t w = (t, w)
run (e ∷ es) t w = let (t', w') = step e t w in run es t' w'
