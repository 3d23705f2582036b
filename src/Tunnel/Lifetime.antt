-- ===== src/Tunnel/Lifetime.antt =====
-- What holds of a tunnel over any history: who watches its session, and what `Stop` ends.
use tlswrapper.Base.{
  mem, remove, ℕ, ◌≡◌, refl, ap, ◌∙◌, sym, inl, inr, if◌then◌else◌, Bool, true, false, not, ◌||◌,
  ◌&&◌, Option, none, some, List, [], ◌∷◌, arith, Str, ==_refl, Bool-cases,
}
use tlswrapper.Tunnel.{
  Tunnel, World, new_tunnel, check_idle, check_open, close_session, finalize_session,
  release_session, stop, close_if_open, install, add_session,
}
use tlswrapper.Tunnel.Redial.{Result, Spawns, dial_begin, dial_end, added, spawn_watchers, unlock}
use tlswrapper.Tunnel.Events.{
  Event, begin_dial, end_dial, session_closes, watcher_runs, idle_check, traffic, reload,
  stop_tunnel, begin_on, end_if, watch_if, step, run,
}
use tlswrapper.Tunnel.Frame.{
  Watched, StaysClosed, close_session-StaysClosed, close_if_open-closed,
  finalize_session-StaysClosed, flush-watchers, mem-remove, release_session-ss,
}

-- A tunnel's session has its watcher, and is closed once the tunnel is stopped.
pub record Sound (t : Tunnel) (w : World) : Type 0 where
  pub watched : Watched t.ss w.watchers
  pub ended : t.closed_sig ≡ true → (i : ℕ) → t.ss ≡ some i → (w.sessions i).is_closed ≡ true

Sound-moved :
    (t s : Tunnel) (w v : World)
    → s.ss ≡ t.ss
    → s.closed_sig ≡ t.closed_sig
    → v.watchers ≡ w.watchers
    → StaysClosed w v
    → Sound t w
    → Sound s v
Sound-moved t s w v a b c d h = record {
  watched = λ i e. ap (mem i) c ∙ h.watched i (sym a ∙ e);
  ended = λ x i e. d i (h.ended (sym b ∙ x) i (sym a ∙ e));
}

release_session-closed_sig :
    (now i : ℕ) (t : Tunnel) → (release_session now i t).closed_sig ≡ t.closed_sig
unfolding release_session
release_session-closed_sig now i t = ground arith

-- The watcher of a session is gone when the tunnel has let go of it.
watch-Sound :
    (now i : ℕ) (t : Tunnel) (w : World)
    → Sound t w
    → let r = finalize_session now i t (record w { watchers = remove i w.watchers }) in
      Sound r.0 r.1
unfolding finalize_session
watch-Sound now i t w h =
    let u = record w { watchers = remove i w.watchers } in
    record {
      watched = λ j e.
          let (a, n) = release_session-ss now i j t e in
          ap (mem j) (flush-watchers (w.sessions i).stats u)
          ∙ mem-remove i j w.watchers n (h.watched j a);
      ended = λ x j e. finalize_session-StaysClosed now i t u j (
          h.ended (sym (release_session-closed_sig now i t) ∙ x) j
            (release_session-ss now i j t e).0);
    }

-- Both branches keep the invariant.
if-Sound :
    (c : Bool) (r s : Result ℕ × Tunnel × World)
    → Sound r.1 r.2
    → Sound s.1 s.2
    → Sound (if c then r else s).1 (if c then r else s).2
if-Sound true r s p q = p
if-Sound false r s p q = q

-- What `addSession` leaves: the session, and a tunnel that runs.
Fresh : ℕ → Tunnel → Type 0
Fresh i t = (t.ss ≡ some i) × (t.closed_sig ≡ false)

Fresh-Sound : (i : ℕ) (t : Tunnel) (w : World) → Fresh i t → mem i w.watchers ≡ true → Sound t w
unfolding Fresh
Fresh-Sound i t w (e, c) m = record {
  watched = λ j f. ground (arith, e, f, m);
  ended = λ x. ground (c, x, arith);
}

released-Sound :
    (now i : ℕ) (t : Tunnel) (w : World)
    → Fresh i t
    → let r = finalize_session now i t w in Sound r.0 r.1
unfolding finalize_session Fresh
released-Sound now i t w (e, c) = record {
  watched = λ j f. ground (arith, release_session-ss now i j t f, e, ==_refl i);
  ended = λ x. ground (arith, release_session-closed_sig now i t, x, c);
}

unlock-Sound : (t : Tunnel) (w : World) → Sound t w → Sound (unlock t) w
unfolding unlock
unlock-Sound t w h = record { watched = h.watched; ended = h.ended }

mem-head : (i : ℕ) (ws : List ℕ) → mem i (i ∷ ws) ≡ true
mem-head i ws = rw (==_refl i) refl

close_session-watchers : (i : ℕ) (w : World) → (close_session i w).watchers ≡ w.watchers
unfolding close_session
close_session-watchers i w = refl

spawn_watchers-Sound :
    (now i : ℕ) (go : Spawns) (t : Tunnel) (w : World)
    → Fresh i t
    → let r = spawn_watchers now i go t w in Sound r.1 r.2
unfolding spawn_watchers
spawn_watchers-Sound now i go t w f =
    let v = record w { watchers = i ∷ w.watchers } in
    let m = mem-head i w.watchers in
    if-Sound (not go.finalizer) _ _
      (unlock-Sound _ _ (released-Sound now i t (close_session i w) f))
      (if-Sound (not go.closer || not go.accepter) _ _
        (unlock-Sound _ _
          (Fresh-Sound i t (close_session i v) f (ap (mem i) (close_session-watchers i v) ∙ m)))
        (unlock-Sound _ _ (Fresh-Sound i t v f m)))

install-Fresh :
    (now i : ℕ) (t : Tunnel) (w : World) → t.closed_sig ≡ false → Fresh i (install now i t w).0
unfolding install Fresh
install-Fresh now i t w c = (refl, c)

add_session-Fresh :
    (now i : ℕ) (t : Tunnel) (w : World) (r : Tunnel × World)
    → add_session now i t w ≡ some r
    → Fresh i r.0
unfolding add_session
add_session-Fresh now i t w r e = elim (Bool-cases t.closed_sig) [
  | inl c ↦ ground (arith, c, e)
  | inr c ↦ ground (arith, c, e, install-Fresh now i t w c)
]

added-Sound :
    (now i : ℕ) (go : Spawns) (t : Tunnel) (w : World) (o : Option (Tunnel × World))
    → ((r : Tunnel × World) → o ≡ some r → Fresh i r.0)
    → Sound t w
    → let r = added now i go t w o in Sound r.1 r.2
unfolding added
added-Sound now i go t w none f h = unlock-Sound t (close_session i w) (
    Sound-moved t t w (close_session i w) refl refl (close_session-watchers i w)
      (close_session-StaysClosed i w) h)
added-Sound now i go t w (some (t', w')) f h = spawn_watchers-Sound now i go t' w' (f (t', w') refl)

dial_end-Sound :
    (now : ℕ) (answer : Option ℕ) (go : Spawns) (t : Tunnel) (w : World)
    → Sound t w
    → let r = dial_end now answer go t w in Sound r.1 r.2
unfolding dial_end
dial_end-Sound now none go t w h = unlock-Sound t w h
dial_end-Sound now (some i) go t w h =
    added-Sound now i go t w (add_session now i t w) (add_session-Fresh now i t w) h

end_if-Sound :
    (d : Bool) (now : ℕ) (answer : Option ℕ) (go : Spawns) (t : Tunnel) (w : World)
    → Sound t w
    → let r = end_if d now answer go t w in Sound r.0 r.1
unfolding end_if
end_if-Sound true now answer go t w h = dial_end-Sound now answer go t w h
end_if-Sound false now answer go t w h = h

watch_if-Sound :
    (c : Bool) (now i : ℕ) (t : Tunnel) (w : World)
    → Sound t w
    → let r = watch_if c now i t w in Sound r.0 r.1
unfolding watch_if
watch_if-Sound true now i t w h = watch-Sound now i t w h
watch_if-Sound false now i t w h = h

begin-Sound : (t : Tunnel) (w : World) → Sound t w → Sound (begin_on t (dial_begin t)) w
unfolding dial_begin begin_on
begin-Sound t w h =
    Sound-moved t (begin_on t (dial_begin t)) w w (ground arith) (ground arith) refl (λ j e. e) h

check_idle-Sound :
    (now timeout : ℕ) (t : Tunnel) (w : World)
    → Sound t w
    → let r = check_idle now timeout t w in Sound r.0 r.1
unfolding check_idle check_open close_session
check_idle-Sound now timeout t w h =
    let r = check_idle now timeout t w in
    Sound-moved t r.0 w r.1 (ground arith) (ground arith) (ground arith) (λ j e. ground (arith, e))
      h

close_if_open-watchers : (o : Option ℕ) (w : World) → (close_if_open o w).watchers ≡ w.watchers
unfolding close_if_open close_session
close_if_open-watchers none w = refl
close_if_open-watchers (some i) w = ground arith

stopped-Sound :
    (t : Tunnel) (w : World)
    → Sound t w
    → Sound (record t { closed_sig = true }) (close_if_open t.ss w)
stopped-Sound t w h = record {
  watched = λ i e. ap (mem i) (close_if_open-watchers t.ss w) ∙ h.watched i e;
  ended =
      λ x i e. ap (λ o. ((close_if_open o w).sessions i).is_closed) e ∙ close_if_open-closed i w;
}

if-pair-Sound :
    (c : Bool) (r s : Tunnel × World)
    → Sound r.0 r.1
    → Sound s.0 s.1
    → Sound (if c then r else s).0 (if c then r else s).1
if-pair-Sound true r s p q = p
if-pair-Sound false r s p q = q

stop-Sound : (t : Tunnel) (w : World) → Sound t w → let r = stop t w in Sound r.0 r.1
unfolding stop
stop-Sound t w h = if-pair-Sound t.closed_sig _ _ h (stopped-Sound t w h)

-- Each event keeps the invariant.
pub step-Sound :
    (e : Event) (t : Tunnel) (w : World) → Sound t w → let r = step e t w in Sound r.0 r.1
unfolding step
step-Sound begin_dial t w h = begin-Sound t w h
step-Sound (end_dial now answer go) t w h = end_if-Sound t.dialing now answer go t w h
step-Sound (session_closes i) t w h =
    Sound-moved t t w (close_session i w) refl refl (close_session-watchers i w)
      (close_session-StaysClosed i w) h
step-Sound (watcher_runs now i) t w h =
    watch_if-Sound (mem i w.watchers && (w.sessions i).is_closed) now i t w h
step-Sound (idle_check now timeout) t w h = check_idle-Sound now timeout t w h
step-Sound (traffic i m) t w h =
    Sound-moved t t w (step (traffic i m) t w).1 refl refl refl (λ j e. ground (arith, e)) h
step-Sound reload t w h = record { watched = h.watched; ended = h.ended }
step-Sound stop_tunnel t w h = stop-Sound t w h

-- Over any sequence of events from a sound state: the session that a tunnel holds has a watcher that will finalize
-- it, and is closed if the tunnel is stopped.
pub run-Sound :
    (es : List Event) (t : Tunnel) (w : World) → Sound t w → let r = run es t w in Sound r.0 r.1
unfolding run
run-Sound [] t w h = h
run-Sound (e ∷ es) t w h = run-Sound es (step e t w).0 (step e t w).1 (step-Sound e t w h)

-- A new tunnel is sound.
pub new_tunnel-Sound : (a : Str) (w : World) → Sound (new_tunnel a) w
unfolding new_tunnel
new_tunnel-Sound a w = record {
  watched = λ i e. ground (arith, e);
  ended = λ x i e. ground (arith, e);
}
