-- ===== src/Tunnel/Watch.antt =====
-- `watchIdleSession` of v4/tunnel.go: the goroutine that waits for a session to fall idle, and the
-- timer that it starts then.
pub mod Evicts
use tlswrapper.Base.{
  ℕ, ◌+◌, leb, ltb, ◌==◌, if◌then◌else◌, Bool, true, false, Option, none, some, List, [], ◌∷◌,
}
use tlswrapper.Tunnel.{Tunnel, World, Metrics, check_idle, update}

-- `outer` is in the first `select`, `timing d` in the second, whose timer fires at time `d`.
pub data Watcher : Type 0 where
  outer : Watcher
  timing : (fires : ℕ) → Watcher
  ended : Watcher

-- `has_idle` is whether `IdleChan()` is not nil.
unfoldable pub start_watch : Bool → Watcher
start_watch has_idle = if has_idle then outer else ended

pub data Wake : Type 0 where
  idle_notified timer_fires session_closed group_closed : Wake

-- From the check of a session that is idle to the next wait. A timeout of 0 is no timeout.
unfoldable pub after_check : ℕ → ℕ → ℕ → Tunnel × World → Watcher × Tunnel × World
after_check now timeout i (t, w) =
    if (w.sessions i).is_closed
    then (ended, t, w)
    else if ltb 0 timeout
    then (timing (now + timeout), t, w)
    else (outer, t, w)

unfoldable pub watch_check : ℕ → ℕ → ℕ → Tunnel → World → Watcher × Tunnel × World
watch_check now timeout i t w = after_check now timeout i (check_idle now timeout t w)

-- One round: what wakes the goroutine at time `now`, and what it does.
unfoldable pub wake : Wake → ℕ → ℕ → ℕ → Watcher → Tunnel → World → Watcher × Tunnel × World
wake r now timeout i ended t w = (ended, t, w)
wake idle_notified now timeout i outer t w = watch_check now timeout i t w
wake timer_fires now timeout i outer t w = (outer, t, w)
wake idle_notified now timeout i (timing d) t w = watch_check now timeout i t w
wake timer_fires now timeout i (timing d) t w =
    let (t', w') = check_idle now timeout t w in
    if leb d now then (outer, t', w') else (timing d, t, w)
wake session_closed now timeout i p t w =
    if (w.sessions i).is_closed then (ended, t, w) else (p, t, w)
wake group_closed now timeout i p t w = (ended, t, w)

-- At a time the session's metrics change, or the goroutine is woken.
pub data Act : Type 0 where
  carries : Metrics → Act
  wakes : Wake → Act

unfoldable pub set_stats : ℕ → Metrics → World → World
set_stats i m w = record w {
  sessions = update i (record (w.sessions i) { stats = some m }) w.sessions;
}

-- A timer that is due before time `now` has fired, at its own time.
unfoldable pub fire_due : ℕ → ℕ → ℕ → Watcher × Tunnel × World → Watcher × Tunnel × World
fire_due now timeout i (outer, t, w) = (outer, t, w)
fire_due now timeout i (timing d, t, w) =
    let fired = wake timer_fires d timeout i (timing d) t w in
    if ltb d now then fired else (timing d, t, w)
fire_due now timeout i (ended, t, w) = (ended, t, w)

unfoldable pub act_now : ℕ → ℕ → ℕ → Act → Watcher × Tunnel × World → Watcher × Tunnel × World
act_now timeout i now (carries m) (p, t, w) = (p, t, set_stats i m w)
act_now timeout i now (wakes r) (p, t, w) = wake r now timeout i p t w

unfoldable pub act : ℕ → ℕ → ℕ × Act → Watcher × Tunnel × World → Watcher × Tunnel × World
act timeout i (now, a) s = act_now timeout i now a (fire_due now timeout i s)

unfoldable pub watch : ℕ → ℕ → List (ℕ × Act) → Watcher × Tunnel × World → Watcher × Tunnel × World
watch timeout i [] s = s
watch timeout i (a ∷ rest) s = watch timeout i rest (act timeout i a s)
