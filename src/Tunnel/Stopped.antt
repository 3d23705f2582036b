-- ===== src/Tunnel/Stopped.antt =====
-- What comes after the end of a session and after `Stop`, over any history.
use tlswrapper.Base.{
  mem, remove, ℕ, ◌≡◌, refl, ◌∙◌, inl, inr, Bool, true, false, ◌&&◌, Option, none, some, List, [],
  ◌∷◌, arith, Option-cases,
}
use tlswrapper.Tunnel.{
  Tunnel, World, Metrics, get_session, check_idle, check_open, close_session, finalize_session,
  release_session, flush_session_metrics, stop, close_if_open, add_session,
}
use tlswrapper.Tunnel.Redial.{Spawns, dial_begin, dial_end, added, unlock}
use tlswrapper.Tunnel.Events.{
  Event, begin_dial, end_dial, session_closes, watcher_runs, idle_check, traffic, reload,
  stop_tunnel, begin_on, end_if, watch_if, step, run,
}
use tlswrapper.Tunnel.Lifetime.{Sound, run-Sound}

-- Nothing is counted, and a stopped tunnel stays stopped.
record Still (t : Tunnel) (w : World) (s : Tunnel) (v : World) : Type 0 where
  stopped : s.closed_sig ≡ true
  created : v.num_sessions_created ≡ w.num_sessions_created

flush-created :
    (o : Option Metrics) (w : World)
    → (flush_session_metrics o w).num_sessions_created ≡ w.num_sessions_created
unfolding flush_session_metrics
flush-created none w = refl
flush-created (some m) w = refl

close-created :
    (o : Option ℕ) (w : World) → (close_if_open o w).num_sessions_created ≡ w.num_sessions_created
unfolding close_if_open close_session
close-created none w = refl
close-created (some i) w = ground arith

end_if-Still :
    (d : Bool) (now : ℕ) (answer : Option ℕ) (go : Spawns) (t : Tunnel) (w : World)
    → t.closed_sig ≡ true
    → let r = end_if d now answer go t w in Still t w r.0 r.1
unfolding end_if dial_end added add_session unlock close_session
end_if-Still true now none go t w c = record { stopped = c; created = refl }
end_if-Still true now (some i) go t w c = record {
  stopped = ground (arith, c);
  created = ground (arith, c);
}
end_if-Still false now answer go t w c = record { stopped = c; created = refl }

watch_if-Still :
    (d : Bool) (now i : ℕ) (t : Tunnel) (w : World)
    → t.closed_sig ≡ true
    → let r = watch_if d now i t w in Still t w r.0 r.1
unfolding watch_if finalize_session release_session
watch_if-Still true now i t w c = record {
  stopped = ground (arith, c);
  created = flush-created (w.sessions i).stats (record w { watchers = remove i w.watchers });
}
watch_if-Still false now i t w c = record { stopped = c; created = refl }

step-Still :
    (e : Event) (t : Tunnel) (w : World)
    → t.closed_sig ≡ true
    → let r = step e t w in Still t w r.0 r.1
unfolding step dial_begin begin_on check_idle check_open close_session stop
step-Still begin_dial t w c = record { stopped = ground (arith, c); created = refl }
step-Still (end_dial now answer go) t w c = end_if-Still t.dialing now answer go t w c
step-Still (session_closes i) t w c = record { stopped = c; created = refl }
step-Still (watcher_runs now i) t w c =
    watch_if-Still (mem i w.watchers && (w.sessions i).is_closed) now i t w c
step-Still (idle_check now timeout) t w c = record {
  stopped = ground (arith, c);
  created = ground (arith, c);
}
step-Still (traffic i m) t w c = record { stopped = c; created = refl }
step-Still reload t w c = record { stopped = c; created = refl }
step-Still stop_tunnel t w c = record {
  stopped = ground (arith, c);
  created = ground (arith, c, close-created t.ss w);
}

run-Still :
    (es : List Event) (t : Tunnel) (w : World)
    → t.closed_sig ≡ true
    → let r = run es t w in Still t w r.0 r.1
unfolding run
run-Still [] t w c = record { stopped = c; created = refl }
run-Still (e ∷ es) t w c =
    let a = step-Still e t w c in
    let b = run-Still es (step e t w).0 (step e t w).1 a.stopped in
    record { stopped = b.stopped; created = b.created ∙ a.created }

no_session : (t : Tunnel) (w : World) → Sound t w → t.closed_sig ≡ true → get_session t w ≡ none
unfolding get_session
no_session t w h c = elim (Option-cases t.ss) [
  | inl n ↦ ground (arith, n)
  | inr (i, e) ↦ ground (arith, e, h.ended c i e)
]

-- A tunnel that is stopped, in a sound state, offers no session after any sequence of events, dials
-- that were under way included, and no session is counted as created.
pub stopped_for_good :
    (es : List Event) (t : Tunnel) (w : World)
    → Sound t w
    → t.closed_sig ≡ true
    → let r = run es t w in
      (get_session r.0 r.1 ≡ none) × (r.1.num_sessions_created ≡ w.num_sessions_created)
stopped_for_good es t w h c =
    let s = run-Still es t w c in
    (no_session (run es t w).0 (run es t w).1 (run-Sound es t w h) s.stopped, s.created)

pub watch_if_on :
    (now i : ℕ) (t : Tunnel) (w : World)
    → mem i w.watchers ≡ true
    → (w.sessions i).is_closed ≡ true
    → step (watcher_runs now i) t w
      ≡ finalize_session now i t (record w { watchers = remove i w.watchers })
unfolding step watch_if
watch_if_on now i t w m c = ground (arith, m, c)
