-- ===== src/Tunnel/Watch/Evicts.antt =====
-- When the watcher of a session evicts it.
use tlswrapper.Base.{
  ge→ltb, ap, ℕ, ◌+◌, ◌≤◌, ◌<◌, ◌≡◌, refl, ◌∙◌, ==_refl, true, false, Option, none, some, List, [],
  ◌∷◌, arith,
}
use tlswrapper.Tunnel.{
  Tunnel, World, Metrics, get_session, num_streams, track_idle, idle_too_long, close_session,
  check_open, check_idle,
}
use tlswrapper.Tunnel.Watch.{
  outer, timing, idle_notified, timer_fires, after_check, watch_check, wake, Act, carries, wakes,
  set_stats, fire_due, act_now, act, watch,
}

-- The tunnel holds the open session `i`, which is not stale, and which it takes to be idle since then.
record Holds (i : ℕ) (since : Option ℕ) (t : Tunnel) (w : World) : Type 0 where
  held : t.ss ≡ some i
  live : (w.sessions i).is_closed ≡ false
  fresh : t.stale ≡ false
  clock : t.idle_since ≡ since

-- The session carries `n` streams.
abbrev Carries : ℕ → ℕ → World → Type 0
Carries i n w = num_streams (w.sessions i).stats ≡ n

set_stats-Holds :
    (i : ℕ) (m : Metrics) (since : Option ℕ) (t : Tunnel) (w : World)
    → Holds i since t w
    → Holds i since t (set_stats i m w) × Carries i m.num_streams (set_stats i m w)
unfolding set_stats num_streams
set_stats-Holds i m since t w h = (
  record { held = h.held; live = rw (==_refl i) h.live; fresh = h.fresh; clock = h.clock },
  rw (==_refl i) refl,
)

-- The first check of an idle session starts the clock, and a later one before the time leaves it.
check_starts :
    (now timeout i : ℕ) (t : Tunnel) (w : World)
    → Holds i none t w
    → Carries i 0 w
    → 0 < timeout
    → check_idle now timeout t w ≡ (record t { idle_since = some now }, w)
unfolding check_idle get_session check_open track_idle idle_too_long
check_starts now timeout i t w h c p = ground (arith, h.held, h.live, h.fresh, h.clock, c, p)

check_keeps :
    (now timeout i s : ℕ) (t : Tunnel) (w : World)
    → Holds i (some s) t w
    → Carries i 0 w
    → now < s + timeout
    → check_idle now timeout t w ≡ (record t { idle_since = some s }, w)
unfolding check_idle get_session check_open track_idle idle_too_long
check_keeps now timeout i s t w h c p = ground (arith, h.held, h.live, h.fresh, h.clock, c, p)

check_evicts :
    (now timeout i s : ℕ) (t : Tunnel) (w : World)
    → Holds i (some s) t w
    → Carries i 0 w
    → 0 < timeout
    → s + timeout ≤ now
    → ((check_idle now timeout t w).1.sessions i).is_closed ≡ true
unfolding check_idle get_session check_open track_idle idle_too_long close_session
check_evicts now timeout i s t w h c p q =
    ground (arith, h.held, h.live, h.fresh, h.clock, c, p, q, ==_refl i)

waits_on :
    (now timeout i s : ℕ) (since : Option ℕ) (t : Tunnel) (w : World)
    → Holds i since t w
    → 0 < timeout
    → check_idle now timeout t w ≡ (record t { idle_since = some s }, w)
    → watch_check now timeout i t w ≡ (timing (now + timeout), record t { idle_since = some s }, w)
unfolding watch_check after_check
waits_on now timeout i s since t w h p e = ground (arith, e, h.live, p)

restarted :
    (i s : ℕ) (since : Option ℕ) (t : Tunnel) (w : World)
    → Holds i since t w
    → Holds i (some s) (record t { idle_since = some s }) w
restarted i s since t w h = record { held = h.held; live = h.live; fresh = h.fresh; clock = refl }

-- The session is used and idle again.
abbrev reuse : ℕ → Metrics → Metrics → World → World
reuse i busy idle w = set_stats i idle (set_stats i busy w)

used-Holds :
    (i : ℕ) (busy idle : Metrics) (since : Option ℕ) (t : Tunnel) (w : World)
    → idle.num_streams ≡ 0
    → Holds i since t w
    → Holds i since t (reuse i busy idle w) × Carries i 0 (reuse i busy idle w)
used-Holds i busy idle since t w z h =
    let (h1, c1) = set_stats-Holds i busy since t w h in
    let (h2, c2) = set_stats-Holds i idle since t (set_stats i busy w) h1 in (h2, c2 ∙ z)

closed_after :
    (now timeout i : ℕ) (t : Tunnel) (w : World)
    → ((check_idle now timeout t w).1.sessions i).is_closed ≡ true
    → ((watch_check now timeout i t w).2.sessions i).is_closed ≡ true
unfolding watch_check after_check
closed_after now timeout i t w h = ground (arith, h)

not_due :
    (now timeout i d : ℕ) (t : Tunnel) (w : World)
    → now ≤ d
    → fire_due now timeout i (timing d, t, w) ≡ (timing d, t, w)
unfolding fire_due
not_due now timeout i d t w h = rw (ge→ltb d now (λ l. omega (arith, l, h))) refl

before_timer :
    (timeout i now d : ℕ) (a : Act) (rest : List (ℕ × Act)) (t : Tunnel) (w : World)
    → now ≤ d
    → watch timeout i ((now, a) ∷ rest) (timing d, t, w)
      ≡ watch timeout i rest (act_now timeout i now a (timing d, t, w))
unfolding watch act
before_timer timeout i now d a rest t w h =
    ap (λ s. watch timeout i rest (act_now timeout i now a s)) (not_due now timeout i d t w h)

-- The acts of a session that is used and falls idle again before the timer fires.
abbrev used_and_idle : ℕ → ℕ → Metrics → Metrics → List (ℕ × Act) → List (ℕ × Act)
used_and_idle b now busy idle rest =
    (b, carries busy) ∷ (now, carries idle) ∷ (now, wakes idle_notified) ∷ rest

watch-used_and_idle :
    (timeout i b now d : ℕ) (busy idle : Metrics) (rest : List (ℕ × Act)) (t : Tunnel) (w : World)
    → b ≤ now
    → now ≤ d
    → watch timeout i (used_and_idle b now busy idle rest) (timing d, t, w)
      ≡ watch timeout i rest (watch_check now timeout i t (reuse i busy idle w))
unfolding watch act act_now wake
watch-used_and_idle timeout i b now d busy idle rest t w h k =
    before_timer timeout i b d (carries busy)
      ((now, carries idle) ∷ (now, wakes idle_notified) ∷ rest) t w (omega (arith, h, k))
    ∙ before_timer timeout i now d (carries idle) ((now, wakes idle_notified) ∷ rest) t
        (set_stats i busy w) k
    ∙ before_timer timeout i now d (wakes idle_notified) rest t (reuse i busy idle w) k

first_idle :
    (timeout i t0 : ℕ) (rest : List (ℕ × Act)) (t : Tunnel) (w : World)
    → watch timeout i ((t0, wakes idle_notified) ∷ rest) (outer, t, w)
      ≡ watch timeout i rest (watch_check t0 timeout i t w)
unfolding watch act act_now fire_due wake
first_idle timeout i t0 rest t w = refl

-- A session that falls idle at t0, is used, falls idle again at t1 before the timer fires, is used
-- again, and falls idle at t2, before the timer that t1 started fires but when the timeout since t0 has
-- run out: it is evicted at t2, however short a time before it was in use, since no check came while
-- it was.
pub evicted_right_after_use :
    (timeout i t0 t1 t2 b1 b2 : ℕ) (busy1 idle1 busy2 idle2 : Metrics) (t : Tunnel) (w : World)
    → t.ss ≡ some i
    → (w.sessions i).is_closed ≡ false
    → t.stale ≡ false
    → t.idle_since ≡ none
    → num_streams (w.sessions i).stats ≡ 0
    → idle1.num_streams ≡ 0
    → idle2.num_streams ≡ 0
    → b1 ≤ t1
    → t1 < t0 + timeout
    → b2 ≤ t2
    → t0 + timeout ≤ t2
    → t2 < t1 + timeout
    → let acts : List (ℕ × Act) =
        (t0, wakes idle_notified)
        ∷ (b1, carries busy1)
        ∷ (t1, carries idle1)
        ∷ (t1, wakes idle_notified)
        ∷ (b2, carries busy2)
        ∷ (t2, carries idle2)
        ∷ (t2, wakes idle_notified)
        ∷ [] in
      ((watch timeout i acts (outer, t, w)).2.sessions i).is_closed ≡ true
unfolding watch
evicted_right_after_use timeout i t0 t1 t2 b1 b2 busy1 idle1 busy2 idle2 t w held live fresh clock c
      z1 z2 q1 q q2 r r2 =
    let h : Holds i none t w = record { held = held; live = live; fresh = fresh; clock = clock } in
    let p : 0 < timeout = omega (arith, r, r2, q) in
    let t' = record t { idle_since = some t0 } in
    let first = waits_on t0 timeout i t0 none t w h p (check_starts t0 timeout i t w h c p) in
    let (h1, c1) = used-Holds i busy1 idle1 (some t0) t' w z1 (restarted i t0 none t w h) in
    let w1 = reuse i busy1 idle1 w in
    let second =
      waits_on t1 timeout i t0 (some t0) t' w1 h1 p (check_keeps t1 timeout i t0 t' w1 h1 c1 q) in
    let (h2, c2) = used-Holds i busy2 idle2 (some t0) t' w1 z2 h1 in
    let w2 = reuse i busy2 idle2 w1 in
    let last = used_and_idle b2 t2 busy2 idle2 [] in
    let path =
      first_idle timeout i t0 (used_and_idle b1 t1 busy1 idle1 last) t w
      ∙ ap (watch timeout i (used_and_idle b1 t1 busy1 idle1 last)) first
      ∙ watch-used_and_idle timeout i b1 t1 (t0 + timeout) busy1 idle1 last t' w q1
          (omega (arith, q))
      ∙ ap (watch timeout i last) second
      ∙ watch-used_and_idle timeout i b2 t2 (t1 + timeout) busy2 idle2 [] t' w1 q2
          (omega (arith, r2)) in
    rw path (closed_after t2 timeout i t' w2 (check_evicts t2 timeout i t0 t' w2 h2 c2 p r))

-- A session that falls idle and stays so is evicted when the timer fires.
pub idle_session_is_evicted :
    (timeout i t0 : ℕ) (t : Tunnel) (w : World)
    → t.ss ≡ some i
    → (w.sessions i).is_closed ≡ false
    → t.stale ≡ false
    → t.idle_since ≡ none
    → num_streams (w.sessions i).stats ≡ 0
    → 0 < timeout
    → let acts : List (ℕ × Act) =
        (t0, wakes idle_notified) ∷ (t0 + timeout, wakes timer_fires) ∷ [] in
      ((watch timeout i acts (outer, t, w)).2.sessions i).is_closed ≡ true
unfolding watch act act_now wake
idle_session_is_evicted timeout i t0 t w held live fresh clock c p =
    let h : Holds i none t w = record { held = held; live = live; fresh = fresh; clock = clock } in
    let t' = record t { idle_since = some t0 } in
    let first = waits_on t0 timeout i t0 none t w h p (check_starts t0 timeout i t w h c p) in
    let gone =
      check_evicts (t0 + timeout) timeout i t0 t' w (restarted i t0 none t w h) c p (omega arith) in
    rw
      (
        first_idle timeout i t0 ((t0 + timeout, wakes timer_fires) ∷ []) t w,
        first,
        not_due (t0 + timeout) timeout i (t0 + timeout) t' w (omega arith),
      )
      (ground (arith, gone))
