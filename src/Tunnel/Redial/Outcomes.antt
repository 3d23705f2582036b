-- ===== src/Tunnel/Redial/Outcomes.antt =====
-- What `dial` and `OpenStream` promise, for each value that they return.
use tlswrapper.Base.{
  ℕ, ◌%◌, ◌^◌, ◌≡◌, ◌⊎◌, ap, ◌&&◌, refl, is_empty, true, false, Option, none, some, arith, ◌∷◌, ◌∙◌,
  inl, inr, Bool-cases, Option-cases, ==_refl,
}
use tlswrapper.Tunnel.{
  Tunnel, World, get_session, add_session, install, close_session, finalize_session, add_u32,
  add_u64, minus_one, release_session, close_if_open, flush_session_metrics,
}
use tlswrapper.Tunnel.Redial.{
  no_dial_address, dial_in_progress, tunnel_stopped, no_session, dial_failed, group_closed,
  open_failed, Result, ok, err, Spawns, dial_begin, dial_end, dial, unlock, spawn_watchers,
}

-- The session that a successful dial leaves: current, watched, counted, and not marked.
pub record Installed (now i : ℕ) (t : Tunnel) (w : World) (t' : Tunnel) (w' : World) : Type 0 where
  pub current : t'.ss ≡ some i
  pub running : t.closed_sig ≡ false
  pub unlocked : t'.dialing ≡ false
  pub unmarked : (t'.stale ≡ false) × (t'.idle_evicted ≡ false) × (t'.idle_since ≡ none)
  pub named : t'.last_identity ≡ (w.sessions i).peer_identity
  pub watched : w'.watchers ≡ i ∷ w.watchers
  pub counted : w'.num_sessions ≡ add_u32 w.num_sessions 1
  pub created : w'.num_sessions_created ≡ add_u64 w.num_sessions_created 1
  pub finalized : w'.num_sessions_finalized ≡ w.num_sessions_finalized

-- What a dial leaves whose session was added before the group refused a goroutine of its: without the
-- finalizer it was finalized at once, and else it is closed and left to the finalizer.
pub record Refused (now i : ℕ) (go : Spawns) (t : Tunnel) (w : World) (t' : Tunnel) (w' : World)
    : Type 0 where
  pub running : t.closed_sig ≡ false
  pub shut : (w'.sessions i).is_closed ≡ true
  pub unlocked : t'.dialing ≡ false
  pub created : w'.num_sessions_created ≡ add_u64 w.num_sessions_created 1
  pub ends :
      ((go.finalizer ≡ false)
        × (t'.ss ≡ none)
        × (w'.watchers ≡ w.watchers)
        × (w'.num_sessions ≡ w.num_sessions % 2 ^ 32)
        × (w'.num_sessions_finalized ≡ add_u64 w.num_sessions_finalized 1))
      ⊎ ((go.finalizer ≡ true)
          × ((go.closer && go.accepter) ≡ false)
          × (t'.ss ≡ some i)
          × (w'.watchers ≡ i ∷ w.watchers)
          × (w'.num_sessions ≡ add_u32 w.num_sessions 1)
          × (w'.num_sessions_finalized ≡ w.num_sessions_finalized))

-- What the part of `dial` after the lock promises with each result.
abbrev pub Ended : ℕ → Option ℕ → Spawns → Tunnel → World → Result ℕ → Tunnel → World → Type 0
Ended now answer go t w (ok i) t' w' = (answer ≡ some i) × Installed now i t w t' w'
Ended now answer go t w (err tunnel_stopped) t' w' =
    (t.closed_sig ≡ true)
    × (t' ≡ record t { dialing = false })
    × ((i : ℕ) × (answer ≡ some i) × (w' ≡ close_session i w))
Ended now answer go t w (err dial_failed) t' w' =
    (answer ≡ none) × (t' ≡ record t { dialing = false }) × (w' ≡ w)
Ended now answer go t w (err group_closed) t' w' =
    (i : ℕ) × (answer ≡ some i) × Refused now i go t w t' w'
Ended now answer go t w (err _) t' w' = ⊥

-- What `dial` promises with each result.
abbrev pub Dialed : ℕ → Option ℕ → Spawns → Tunnel → World → Result ℕ → Tunnel → World → Type 0
Dialed now answer go t w (err no_dial_address) t' w' =
    (is_empty t.dial_addr ≡ true) × (t' ≡ t) × (w' ≡ w)
Dialed now answer go t w (err dial_in_progress) t' w' = (t.dialing ≡ true) × (t' ≡ t) × (w' ≡ w)
Dialed now answer go t w r t' w' = Ended now answer go t w r t' w'

close_if_open_frame :
    (o : Option ℕ) (w : World)
    → let w' = close_if_open o w in
      (w'.watchers ≡ w.watchers)
      × (w'.num_sessions ≡ w.num_sessions)
      × (w'.num_sessions_created ≡ w.num_sessions_created)
      × (w'.num_sessions_finalized ≡ w.num_sessions_finalized)
unfolding close_if_open
close_if_open_frame none w = (refl, refl, refl, refl)
close_if_open_frame (some i) w = ground arith

is_closed-close_session : (i : ℕ) (w : World) → ((close_session i w).sessions i).is_closed ≡ true
unfolding close_session
is_closed-close_session i w = rw (==_refl i) refl

-- Closing and then finalizing leaves a session closed.
is_closed-finalize_session :
    (now i : ℕ) (t : Tunnel) (w : World)
    → ((finalize_session now i t w).1.sessions i).is_closed ≡ (w.sessions i).is_closed
unfolding finalize_session
is_closed-finalize_session now i t w = elim (Option-cases (w.sessions i).stats) [
  | inl e ↦ rw (e, flush_session_metrics) refl
  | inr (m, e) ↦ rw (e, flush_session_metrics) refl
]

-- Adding a session and finalizing it in the same call, up to the width of the counters.
finalize_session-counts :
    (now i : ℕ) (t : Tunnel) (w : World)
    → let w' = (finalize_session now i t w).1 in
      (w'.watchers ≡ w.watchers)
      × (w'.num_sessions ≡ add_u32 w.num_sessions minus_one)
      × (w'.num_sessions_created ≡ w.num_sessions_created)
      × (w'.num_sessions_finalized ≡ add_u64 w.num_sessions_finalized 1)
unfolding finalize_session
finalize_session-counts now i t w = elim (Option-cases (w.sessions i).stats) [
  | inl e ↦ rw (e, flush_session_metrics) (refl, refl, refl, refl)
  | inr (m, e) ↦ rw (e, flush_session_metrics) (refl, refl, refl, refl)
]

finalize_session-ss :
    (now i : ℕ) (t : Tunnel) (w : World) → t.ss ≡ some i → (finalize_session now i t w).0.ss ≡ none
unfolding finalize_session release_session
finalize_session-ss now i t w e = ground (arith, e, ==_refl i)

-- A session that is installed, in a store that says so.
record Added (i : ℕ) (t : Tunnel) (w : World) (u : Tunnel) (v : World) : Type 0 where
  running : t.closed_sig ≡ false
  current : u.ss ≡ some i
  watchers : v.watchers ≡ w.watchers
  counted : v.num_sessions ≡ add_u32 w.num_sessions 1
  created : v.num_sessions_created ≡ add_u64 w.num_sessions_created 1
  finalized : v.num_sessions_finalized ≡ w.num_sessions_finalized

undone-Refused :
    (now i : ℕ) (go : Spawns) (t u : Tunnel) (w v : World)
    → Added i t w u v
    → go.finalizer ≡ false
    → let (t', w') = finalize_session now i u (close_session i v) in
      Refused now i go t w (unlock t') w'
unfolding unlock close_session
undone-Refused now i go t u w v a f =
    let (c1, c2, c3, c4) = finalize_session-counts now i u (close_session i v) in
    record {
      running = a.running;
      shut = is_closed-finalize_session now i u (close_session i v) ∙ is_closed-close_session i v;
      unlocked = refl;
      created = c3 ∙ a.created;
      ends = inl (
        f,
        finalize_session-ss now i u (close_session i v) a.current,
        c1 ∙ a.watchers,
        omega (arith, c2, a.counted),
        c4 ∙ ap (λ n. add_u64 n 1) a.finalized,
      );
    }

left-Refused :
    (now i : ℕ) (go : Spawns) (t u : Tunnel) (w v : World)
    → Added i t w u v
    → go.finalizer ≡ true
    → (go.closer && go.accepter) ≡ false
    → Refused now i go t w (unlock u) (close_session i (record v { watchers = i ∷ v.watchers }))
unfolding unlock close_session
left-Refused now i go t u w v a f c = record {
  running = a.running;
  shut = is_closed-close_session i (record v { watchers = i ∷ v.watchers });
  unlocked = refl;
  created = a.created;
  ends = inr (f, c, a.current, ap (◌∷◌ i) a.watchers, a.counted, a.finalized);
}

spawn_watchers-Ended :
    (now i : ℕ) (go : Spawns) (t u : Tunnel) (w v : World)
    → Added i t w u v
    → ((go.finalizer ≡ true)
        → (go.closer ≡ true)
        → (go.accepter ≡ true)
        → Installed now i t w (unlock u) (record v { watchers = i ∷ v.watchers }))
    → let (r, t', w') = spawn_watchers now i go u v in Ended now (some i) go t w r t' w'
unfolding spawn_watchers
spawn_watchers-Ended now i go t u w v a good = elim (Bool-cases go.finalizer) [
  | inr f ↦ simp f (i, refl, undone-Refused now i go t u w v a f)
  | inl f ↦ elim (Bool-cases go.closer) [
    | inr c ↦ simp (f, c) (i, refl, left-Refused now i go t u w v a f (rw c refl))
    | inl c ↦ elim (Bool-cases go.accepter) [
      | inr b ↦ simp (f, c, b) (i, refl, left-Refused now i go t u w v a f (rw (c, b) refl))
      | inl b ↦ simp (f, c, b) (refl, good f c b)
    ]
  ]
]

install-Added :
    (now i : ℕ) (t : Tunnel) (w : World)
    → t.closed_sig ≡ false
    → let (u, v) = install now i t w in Added i t w u v
unfolding install
install-Added now i t w c =
    let f = close_if_open_frame t.ss w in
    record {
      running = c;
      current = refl;
      watchers = ground (arith, f);
      counted = ground (arith, f);
      created = ground (arith, f);
      finalized = ground (arith, f);
    }

install-Installed :
    (now i : ℕ) (t : Tunnel) (w : World)
    → t.closed_sig ≡ false
    → let (u, v) = install now i t w in
      Installed now i t w (unlock u) (record v { watchers = i ∷ v.watchers })
unfolding install unlock
install-Installed now i t w c =
    let f = close_if_open_frame t.ss w in
    record {
      current = refl;
      running = c;
      unlocked = refl;
      unmarked = (refl, refl, refl);
      named = refl;
      watched = ground (arith, f);
      counted = ground (arith, f);
      created = ground (arith, f);
      finalized = ground (arith, f);
    }

add_session_running :
    (now i : ℕ) (t : Tunnel) (w : World)
    → t.closed_sig ≡ false
    → add_session now i t w ≡ some (install now i t w)
unfolding add_session
add_session_running now i t w c = simp c

add_session_stopped :
    (now i : ℕ) (t : Tunnel) (w : World) → t.closed_sig ≡ true → add_session now i t w ≡ none
unfolding add_session
add_session_stopped now i t w c = rw c

added-Ended :
    (now i : ℕ) (go : Spawns) (t : Tunnel) (w : World)
    → let (r, t', w') = dial_end now (some i) go t w in Ended now (some i) go t w r t' w'
unfolding dial_end unlock
added-Ended now i go t w = elim (Bool-cases t.closed_sig) [
  | inl c ↦ rw (add_session_stopped now i t w c) (c, refl, (i, refl, refl))
  | inr c ↦ rw (add_session_running now i t w c) (
      spawn_watchers-Ended now i go t (install now i t w).0 w (install now i t w).1
        (install-Added now i t w c) (λ _ _ _. install-Installed now i t w c))
]

dial_end-Ended :
    (now : ℕ) (answer : Option ℕ) (go : Spawns) (t : Tunnel) (w : World)
    → let (r, t', w') = dial_end now answer go t w in Ended now answer go t w r t' w'
unfolding dial_end unlock
dial_end-Ended now none go t w = (refl, refl, refl)
dial_end-Ended now (some i) go t w = added-Ended now i go t w

-- Taking the lock changes nothing that the promises mention.
Ended-locked :
    (now : ℕ) (answer : Option ℕ) (go : Spawns) (t : Tunnel) (w : World) (r : Result ℕ)
    (t' : Tunnel) (w' : World)
    → Ended now answer go (record t { dialing = true }) w r t' w'
    → Dialed now answer go t w r t' w'
Ended-locked now answer go t w (ok i) t' w' (a, v) = (
  a,
  record {
    current = v.current;
    running = v.running;
    unlocked = v.unlocked;
    unmarked = v.unmarked;
    named = v.named;
    watched = v.watched;
    counted = v.counted;
    created = v.created;
    finalized = v.finalized;
  },
)
Ended-locked now answer go t w (err no_dial_address) t' w' h = absurd h
Ended-locked now answer go t w (err dial_in_progress) t' w' h = absurd h
Ended-locked now answer go t w (err tunnel_stopped) t' w' h = h
Ended-locked now answer go t w (err no_session) t' w' h = absurd h
Ended-locked now answer go t w (err dial_failed) t' w' h = h
Ended-locked now answer go t w (err group_closed) t' w' (i, a, v) = (
  i,
  a,
  record {
    running = v.running;
    shut = v.shut;
    unlocked = v.unlocked;
    created = v.created;
    ends = v.ends;
  },
)
Ended-locked now answer go t w (err open_failed) t' w' h = absurd h

dial_begin_empty : (t : Tunnel) → is_empty t.dial_addr ≡ true → dial_begin t ≡ err no_dial_address
unfolding dial_begin
dial_begin_empty t e = rw e

dial_begin_busy :
    (t : Tunnel)
    → is_empty t.dial_addr ≡ false
    → t.dialing ≡ true
    → dial_begin t ≡ err dial_in_progress
unfolding dial_begin
dial_begin_busy t e d = rw (e, d)

dial_begin_locked :
    (t : Tunnel)
    → is_empty t.dial_addr ≡ false
    → t.dialing ≡ false
    → dial_begin t ≡ ok (record t { dialing = true })
unfolding dial_begin
dial_begin_locked t e d = simp (e, d)

-- Each result of `dial` says what happened, and each that comes after the lock leaves it free. A session
-- returned is current, watched and counted. A stopped tunnel is as it was, and the new session is
-- closed. A failed dial, a missing address or a dial in progress changes nothing. Where the group
-- refuses a goroutine the session is closed: without its finalizer the tunnel holds none and the
-- session is counted as created and as finalized, and else the tunnel holds it, watched and counted.
pub dial-Dialed :
    (now : ℕ) (answer : Option ℕ) (go : Spawns) (t : Tunnel) (w : World)
    → let (r, t', w') = dial now answer go t w in Dialed now answer go t w r t' w'
unfolding dial
dial-Dialed now answer go t w = elim (Bool-cases (is_empty t.dial_addr)) [
  | inl e ↦ rw (dial_begin_empty t e) (e, refl, refl)
  | inr e ↦ elim (Bool-cases t.dialing) [
    | inl d ↦ rw (dial_begin_busy t e d) (d, refl, refl)
    | inr d ↦
        let u = record t { dialing = true } in
        rw (dial_begin_locked t e d)
          (Ended-locked now answer go t w _ _ _ (dial_end-Ended now answer go u w))
  ]
]

abbrev pub all_spawned : Spawns
all_spawned = record { finalizer = true; closer = true; accepter = true }

get_session_open :
    (t : Tunnel) (w : World) (j : ℕ)
    → get_session t w ≡ some j
    → (t.ss ≡ some j) × ((w.sessions j).is_closed ≡ false)
unfolding get_session
get_session_open t w j h = ground arith

install_closes :
    (now i j : ℕ) (t : Tunnel) (w : World)
    → t.ss ≡ some j
    → (w.sessions j).is_closed ≡ false
    → ((install now i t w).1.sessions j).is_closed ≡ true
unfolding install close_session
install_closes now i j t w e o = rw (e, close_if_open, o, ==_refl j) refl

-- `dial` does not look at the current session: where the tunnel has an open session, is not dialing
-- and is not stopped, a dial that succeeds closes that session and puts its own in its place.
pub dial_closes_current :
    (now i j : ℕ) (t : Tunnel) (w : World)
    → is_empty t.dial_addr ≡ false
    → t.dialing ≡ false
    → t.closed_sig ≡ false
    → get_session t w ≡ some j
    → let (r, t', w') = dial now (some i) all_spawned t w in
      (r ≡ ok i) × (t'.ss ≡ some i) × ((w'.sessions j).is_closed ≡ true)
unfolding dial dial_end spawn_watchers
dial_closes_current now i j t w e d c g =
    let u = record t { dialing = true } in
    let o = get_session_open t w j g in
    rw (dial_begin_locked t e d, add_session_running now i u w c)
      (refl, unfold install unlock in refl, install_closes now i j u w o.0 o.1)
