-- ===== src/Tunnel/Books.antt =====
-- The session counters over any history of a tunnel.
use tlswrapper.Base.{
  mem, remove, ℕ, suc, ◌+◌, ◌%◌, ◌^◌, ◌≡◌, refl, ap, ◌∙◌, inl, inr, if◌then◌else◌, Bool, true,
  false, not, ◌||◌, ◌&&◌, Option, none, some, List, [], ◌∷◌, arith, length, Bool-cases,
}
use tlswrapper.Tunnel.{
  Tunnel, World, Metrics, check_idle, check_open, close_session, finalize_session,
  flush_session_metrics, stop, close_if_open, install, add_session, add_u32, add_u64, minus_one,
}
use tlswrapper.Tunnel.Redial.{Result, Spawns, dial_end, added, spawn_watchers}
use tlswrapper.Tunnel.Events.{
  Event, begin_dial, end_dial, session_closes, watcher_runs, idle_check, traffic, reload,
  stop_tunnel, end_if, watch_if, step, run,
}

-- `numSessions` counts the sessions with a watcher, and the two totals differ by as many.
pub record Balanced (w : World) : Type 0 where
  pub current : w.num_sessions ≡ length w.watchers % 2 ^ 32
  pub totals : w.num_sessions_created ≡ (w.num_sessions_finalized + length w.watchers) % 2 ^ 64

-- The counters are untouched.
pub record SameBooks (w v : World) : Type 0 where
  pub watchers : v.watchers ≡ w.watchers
  pub current : v.num_sessions ≡ w.num_sessions
  pub created : v.num_sessions_created ≡ w.num_sessions_created
  pub finalized : v.num_sessions_finalized ≡ w.num_sessions_finalized

SameBooks-Balanced : (w v : World) → SameBooks w v → Balanced w → Balanced v
SameBooks-Balanced w v s b = ground (arith, s, b)

pub close_session-SameBooks : (i : ℕ) (w : World) → SameBooks w (close_session i w)
unfolding close_session
close_session-SameBooks i w = ground arith

close_if_open-SameBooks : (o : Option ℕ) (w : World) → SameBooks w (close_if_open o w)
unfolding close_if_open
close_if_open-SameBooks none w = ground arith
close_if_open-SameBooks (some i) w = ground arith

check_idle-SameBooks :
    (now timeout : ℕ) (t : Tunnel) (w : World) → SameBooks w (check_idle now timeout t w).1
unfolding check_idle check_open close_session
check_idle-SameBooks now timeout t w = ground arith

pub flush-SameBooks : (o : Option Metrics) (w : World) → SameBooks w (flush_session_metrics o w)
unfolding flush_session_metrics
flush-SameBooks none w = ground arith
flush-SameBooks (some m) w = ground arith

pub length-remove : (i : ℕ) (xs : List ℕ) → mem i xs ≡ true → length xs ≡ suc (length (remove i xs))
unfolding remove
length-remove i [] h = cc
length-remove i (x ∷ xs) h = ground (arith, length-remove i xs)

finalize_session-books :
    (now i : ℕ) (t : Tunnel) (w : World)
    → let v = (finalize_session now i t w).1 in
      (v.watchers ≡ w.watchers)
      × (v.num_sessions ≡ add_u32 w.num_sessions minus_one)
      × (v.num_sessions_created ≡ w.num_sessions_created)
      × (v.num_sessions_finalized ≡ add_u64 w.num_sessions_finalized 1)
unfolding finalize_session
finalize_session-books now i t w = ground (arith, flush-SameBooks (w.sessions i).stats w)

-- Counted once more, and finalized at once.
watch-Balanced :
    (now i : ℕ) (t : Tunnel) (w : World)
    → mem i w.watchers ≡ true
    → Balanced w
    → Balanced (finalize_session now i t (record w { watchers = remove i w.watchers })).1
watch-Balanced now i t w m b =
    let f = finalize_session-books now i t (record w { watchers = remove i w.watchers }) in
    let l = length-remove i w.watchers m in
    record {
      current = f.1 ∙ omega (arith, b.current, l, ap length f.0);
      totals = f.2 ∙ omega (arith, b.totals, l, ap length f.0, f.3);
    }

-- A new session: one more live, one more counted.
install-books :
    (now i : ℕ) (t : Tunnel) (w : World)
    → let v = (install now i t w).1 in
      (v.watchers ≡ w.watchers)
      × (v.num_sessions ≡ add_u32 w.num_sessions 1)
      × (v.num_sessions_created ≡ add_u64 w.num_sessions_created 1)
      × (v.num_sessions_finalized ≡ w.num_sessions_finalized)
unfolding install
install-books now i t w = ground (arith, close_if_open-SameBooks t.ss w)

-- One session is counted that has no watcher yet.
record Owed (w : World) : Type 0 where
  current : w.num_sessions ≡ suc (length w.watchers) % 2 ^ 32
  totals : w.num_sessions_created ≡ (w.num_sessions_finalized + suc (length w.watchers)) % 2 ^ 64

install-Owed : (now i : ℕ) (t : Tunnel) (w : World) → Balanced w → Owed (install now i t w).1
install-Owed now i t w b =
    let f = install-books now i t w in
    record {
      current = f.1 ∙ omega (arith, b.current, ap length f.0);
      totals = f.2 ∙ omega (arith, b.totals, ap length f.0, f.3);
    }

finalize-Balanced :
    (now i : ℕ) (t : Tunnel) (w : World) → Owed w → Balanced (finalize_session now i t w).1
finalize-Balanced now i t w b =
    let f = finalize_session-books now i t w in
    record {
      current = f.1 ∙ omega (arith, b.current, ap length f.0);
      totals = f.2 ∙ omega (arith, b.totals, ap length f.0, f.3);
    }

Owed-watched : (i : ℕ) (w : World) → Owed w → Balanced (record w { watchers = i ∷ w.watchers })
Owed-watched i w b = record { current = b.current; totals = b.totals }

Owed-close_session : (i : ℕ) (w : World) → Owed w → Owed (close_session i w)
unfolding close_session
Owed-close_session i w b = record { current = b.current; totals = b.totals }

-- Both branches keep the books.
if-Balanced :
    (c : Bool) (r s : Result ℕ × Tunnel × World)
    → Balanced r.2
    → Balanced s.2
    → Balanced (if c then r else s).2
if-Balanced true r s p q = p
if-Balanced false r s p q = q

spawn_watchers-Balanced :
    (now i : ℕ) (go : Spawns) (t : Tunnel) (w : World)
    → Owed w
    → Balanced (spawn_watchers now i go t w).2
unfolding spawn_watchers
spawn_watchers-Balanced now i go t w b =
    let v = record w { watchers = i ∷ w.watchers } in
    if-Balanced (not go.finalizer) _ _
      (finalize-Balanced now i t (close_session i w) (Owed-close_session i w b))
      (if-Balanced (not go.closer || not go.accepter) _ _
        (SameBooks-Balanced v (close_session i v) (close_session-SameBooks i v)
          (Owed-watched i w b))
        (Owed-watched i w b))

dial_end-Balanced :
    (now : ℕ) (answer : Option ℕ) (go : Spawns) (t : Tunnel) (w : World)
    → Balanced w
    → Balanced (dial_end now answer go t w).2
unfolding dial_end added add_session
dial_end-Balanced now none go t w b = b
dial_end-Balanced now (some i) go t w b = elim (Bool-cases t.closed_sig) [
  | inl c ↦ simp c (SameBooks-Balanced w (close_session i w) (close_session-SameBooks i w) b)
  | inr c ↦ simp c (
      spawn_watchers-Balanced now i go (install now i t w).0 (install now i t w).1
        (install-Owed now i t w b))
]

end_if-Balanced :
    (d : Bool) (now : ℕ) (answer : Option ℕ) (go : Spawns) (t : Tunnel) (w : World)
    → Balanced w
    → Balanced (end_if d now answer go t w).1
unfolding end_if
end_if-Balanced true now answer go t w b = dial_end-Balanced now answer go t w b
end_if-Balanced false now answer go t w b = b

watch_if-Balanced :
    (now i : ℕ) (t : Tunnel) (w : World) (c : Bool)
    → (c ≡ true → mem i w.watchers ≡ true)
    → Balanced w
    → Balanced (watch_if c now i t w).1
unfolding watch_if
watch_if-Balanced now i t w true m b = watch-Balanced now i t w (m refl) b
watch_if-Balanced now i t w false m b = b

&&-first : (a b : Bool) → a && b ≡ true → a ≡ true
&&-first true b h = refl
&&-first false b h = h

stop-SameBooks : (t : Tunnel) (w : World) → SameBooks w (stop t w).1
unfolding stop
stop-SameBooks t w = ground (arith, close_if_open-SameBooks t.ss w)

-- Each event keeps the counters in step with the watchers.
pub step-Balanced : (e : Event) (t : Tunnel) (w : World) → Balanced w → Balanced (step e t w).1
unfolding step
step-Balanced begin_dial t w b = b
step-Balanced (end_dial now answer go) t w b = end_if-Balanced t.dialing now answer go t w b
step-Balanced (session_closes i) t w b =
    SameBooks-Balanced w (close_session i w) (close_session-SameBooks i w) b
step-Balanced (watcher_runs now i) t w b =
    watch_if-Balanced now i t w (mem i w.watchers && (w.sessions i).is_closed)
      (λ h. &&-first (mem i w.watchers) (w.sessions i).is_closed h) b
step-Balanced (idle_check now timeout) t w b =
    SameBooks-Balanced w (check_idle now timeout t w).1 (check_idle-SameBooks now timeout t w) b
step-Balanced (traffic i m) t w b = record { current = b.current; totals = b.totals }
step-Balanced reload t w b = b
step-Balanced stop_tunnel t w b = SameBooks-Balanced w (stop t w).1 (stop-SameBooks t w) b

-- After any sequence of events from a balanced world, `numSessions` is the number of sessions that
-- a watcher still has to finalize, and `numSessionsCreated` exceeds the finalized ones by as many,
-- both up to the width of the counter.
pub run-Balanced : (es : List Event) (t : Tunnel) (w : World) → Balanced w → Balanced (run es t w).1
unfolding run
run-Balanced [] t w b = b
run-Balanced (e ∷ es) t w b = run-Balanced es (step e t w).0 (step e t w).1 (step-Balanced e t w b)
