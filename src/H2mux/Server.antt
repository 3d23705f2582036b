-- ===== src/H2mux/Server.antt =====
-- `muxServer` of v4/mux/h2mux/connect.go: the Control and Stream calls of one connection, in any
-- order. A Control call is in its handshake until that ends; a session is a number.
use tlswrapper.Base.{
  ℕ, ◌+◌, ◌-◌, ◌≤◌, ◌≡◌, refl, subst, inl, inr, ltb, ◌&&◌, if◌then◌else◌, Bool, true, false, Option,
  none, some, List, [], ◌∷◌, arith, Bool-cases, Option-cases,
}

-- `ready_closes` are the calls of `close(svc.sessReady)`; a second one panics. `handshaking` are the
-- Control calls that wait for their handshake, `duplicates` those that were refused, `waiting` the
-- Stream calls that wait for `sessReady` and `routed` those that were handed to the session.
pub record Server : Type 0 where
  pub ctrl_started : Bool
  pub sess : Option ℕ
  pub ready_closes : ℕ
  pub handshaking : ℕ
  pub duplicates : ℕ
  pub waiting : ℕ
  pub routed : List ℕ

unfoldable pub new_mux_server : Server
new_mux_server = record {
  ctrl_started = false;
  sess = none;
  ready_closes = 0;
  handshaking = 0;
  duplicates = 0;
  waiting = 0;
  routed = [];
}

-- `Control` up to its handshake.
unfoldable pub control_begin : Server → Server
control_begin s =
    if s.ctrl_started
    then record s { duplicates = s.duplicates + 1 }
    else record s { ctrl_started = true; handshaking = s.handshaking + 1 }

-- The end of the handshake of a Control call: an error, or the new session.
unfoldable pub control_end : Option ℕ → Server → Server
control_end answer s =
    if ltb 0 s.handshaking
    then elim answer [
      | none ↦ record s { handshaking = s.handshaking - 1 }
      | some i ↦ record s {
        handshaking = s.handshaking - 1;
        sess = some i;
        ready_closes = s.ready_closes + 1;
      }
    ]
    else s

unfoldable pub stream_begin : Server → Server
stream_begin s = record s { waiting = s.waiting + 1 }

-- A Stream call goes on when `sessReady` is closed, and its stream is delivered to the session.
unfoldable pub stream_ready : Server → Server
stream_ready s =
    if ltb 0 s.ready_closes && ltb 0 s.waiting
    then elim s.sess [
      | none ↦ s
      | some i ↦ record s { waiting = s.waiting - 1; routed = i ∷ s.routed }
    ]
    else s

-- Its context is done first.
unfoldable pub stream_done : Server → Server
stream_done s = record s { waiting = s.waiting - 1 }

pub data Event : Type 0 where
  controls : Event
  shakes : (answer : Option ℕ) → Event
  streams readies cancels : Event

unfoldable pub step : Event → Server → Server
step controls s = control_begin s
step (shakes answer) s = control_end answer s
step streams s = stream_begin s
step readies s = stream_ready s
step cancels s = stream_done s

unfoldable pub run : List Event → Server → Server
run [] s = s
run (e ∷ es) s = run es (step e s)

abbrev pub is_set : Option ℕ → ℕ
is_set none = 0
is_set (some i) = 1

abbrev pub AllAre : Option ℕ → List ℕ → Type 0
AllAre o [] = Unit
AllAre o (i ∷ is) = (o ≡ some i) × AllAre o is

-- One Control call at most is past the check, in its handshake or after it, and the session is there
-- exactly if `sessReady` is closed.
record Sound (s : Server) : Type 0 where
  one : s.handshaking + s.ready_closes ≤ (if s.ctrl_started then 1 else 0)
  there : is_set s.sess ≡ s.ready_closes
  same : AllAre s.sess s.routed

none-AllAre : (o : Option ℕ) (is : List ℕ) → AllAre none is → AllAre o is
none-AllAre o [] h = tt
none-AllAre o (i ∷ is) h = cc (h.0)

not_set : (o : Option ℕ) → is_set o ≡ 0 → o ≡ none
not_set none h = refl
not_set (some i) h = cc

step-Sound : (e : Event) (s : Server) → Sound s → Sound (step e s)
unfolding step control_begin control_end stream_begin stream_ready stream_done
step-Sound controls s h = record {
  one = ground (arith, h.one);
  there = ground (arith, h.there);
  same = ground (arith, h.same);
}
step-Sound (shakes none) s h = record {
  one = ground (arith, h.one);
  there = ground (arith, h.there);
  same = ground (arith, h.same);
}
step-Sound (shakes (some i)) s h = elim (Bool-cases (ltb 0 s.handshaking)) [
  | inl y ↦ record {
    one = ground (arith, h.one, y);
    there = ground (arith, h.there, h.one, y);
    same =
        rw (control_end, y)
          (none-AllAre (some i) s.routed (subst (λ o. AllAre o s.routed) (unset y) h.same));
  }
  | inr n ↦ rw (control_end, n) h
]
  where
    unset : ltb 0 s.handshaking ≡ true → s.sess ≡ none
    unset y = not_set s.sess (ground (arith, h.one, h.there, y))
step-Sound streams s h = record { one = h.one; there = h.there; same = h.same }
step-Sound readies s h = elim (Option-cases s.sess) [
  | inl n ↦ record {
    one = ground (arith, n, h.one);
    there = ground (arith, n, h.there);
    same = ground (arith, n, h.same);
  }
  | inr (i, e) ↦ record {
    one = ground (arith, e, h.one);
    there = ground (arith, e, h.there);
    same = ground (arith, e, h.same);
  }
]
step-Sound cancels s h = record { one = h.one; there = h.there; same = h.same }

run-Sound : (es : List Event) (s : Server) → Sound s → Sound (run es s)
unfolding run
run-Sound [] s h = h
run-Sound (e ∷ es) s h = run-Sound es (step e s) (step-Sound e s h)

new_mux_server-Sound : Sound new_mux_server
unfolding new_mux_server
new_mux_server-Sound = record { one = omega arith; there = refl; same = tt }

-- Over any Control and Stream calls of one connection, in any order: `sessReady` is closed once at
-- most, so that its close never panics, and all streams are handed to one session.
pub control_closes_once :
    (es : List Event)
    → let s = run es new_mux_server in (s.ready_closes ≤ 1) × AllAre s.sess s.routed
control_closes_once es =
    let s = run es new_mux_server in
    let h = run-Sound es new_mux_server new_mux_server-Sound in (ground (arith, h.one), h.same)
