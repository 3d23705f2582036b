-- ===== src/Forwarder/Unblocks.antt =====
-- How the end of one direction ends the other: a copy waits for its peer until a connection is closed,
-- and `closeOnce` closes both.
use tlswrapper.Base.{
  ℕ, zero, suc, List, [], ◌∷◌, length, ap, ◌+◌, ◌≤◌, ◌≡◌, refl, sym, ◌∙◌, not, ◌||◌, if◌then◌else◌,
  Bool-cases, ◌⊎◌, inl, inr, Bool, true, false, ◌&&◌, arith,
}
use tlswrapper.Forwarder.Machine.{
  StartPc, DirPc, copied, Pair, Effect, close_both, force_close, step_dir, step_back, step_forth,
  start_at, step_start, step_pair, View, Thread, start_call, back_run, forth_run,
}
use tlswrapper.Forwarder.Moves.{PairInv, step_pair-PairInv}
use tlswrapper.Forwarder.{new_pair}
use tlswrapper.Forwarder.Counters.{new_pair-PairInv}
use tlswrapper.Forwarder.Finish.{is_finished, calls_due, PairInv-Settled}
use tlswrapper.Forwarder.Progress.{
  actions_left, actions_left_le, actions_left-step_pair, enabled, some_enabled_at, is_copying,
}

-- A pair with both connections closed or not, as `Close` was called for them.
abbrev pub is_closing : Effect → Bool
is_closing close_both = true
is_closing _ = false

-- The thread waits in `connCopy` for its peer: a read or a write on a connection that was closed
-- returns, and so does one on a connection whose peer ends it.
abbrev pub waits : Bool → (Thread → Bool) → Thread → Pair → Bool
waits closed ends start_call p = false
waits closed ends back_run p = is_copying p.back && not closed && not (ends back_run)
waits closed ends forth_run p = is_copying p.forth && not closed && not (ends forth_run)

-- One turn of a thread: nothing happens while it waits.
unfoldable pub turn : View × Bool → (Thread → Bool) → Thread → Pair × Bool → Pair × Bool
turn (v, b) ends t (p, closed) =
    let (e, q) = step_pair v t b p in
    if waits closed ends t p then (p, closed) else (q, closed || is_closing e)

-- A schedule names the threads, and the environment what each turn meets.
unfoldable pub run_threads :
    (ℕ → View × Bool) → (Thread → Bool) → ℕ → List Thread → Pair × Bool → Pair × Bool
run_threads env ends k [] s = s
run_threads env ends k (t ∷ ts) s = run_threads env ends (k + 1) ts (turn (env k) ends t s)

-- `closeOnce` has run only if the connections are closed.
abbrev Shut : Pair × Bool → Type 0
Shut (p, closed) = p.closed_once ≡ true → closed ≡ true

step_dir-closes :
    (cw eof : Bool) (p : Pair) (pc : DirPc)
    → let (e, q, pc') = step_dir cw eof p pc in
      q.closed_once ≡ true → (p.closed_once ≡ true) ⊎ (is_closing e ≡ true)
unfolding step_dir force_close
step_dir-closes cw eof p (copied true) h = ground (arith, h)
step_dir-closes cw eof p _ h = ground (arith, h)

start_at-closes :
    (v : View) (b : Bool) (p : Pair) (s : StartPc)
    → (start_at v b p s).1.closed_once ≡ p.closed_once
unfolding start_at
start_at-closes v b p _ = ground arith

step_pair-closes :
    (v : View) (t : Thread) (b : Bool) (p : Pair)
    → (step_pair v t b p).1.closed_once ≡ true
    → (p.closed_once ≡ true) ⊎ (is_closing (step_pair v t b p).0 ≡ true)
unfolding step_pair step_start step_back step_forth
step_pair-closes v start_call b p h = inl (sym (start_at-closes v b p p.starter) ∙ h)
step_pair-closes v back_run b p h = step_dir-closes p.accepted_half_close b p p.back h
step_pair-closes v forth_run b p h = step_dir-closes p.dialed_half_close b p p.forth h

turn-Shut :
    (env : View × Bool) (ends : Thread → Bool) (t : Thread) (s : Pair × Bool)
    → Shut s
    → Shut (turn env ends t s)
unfolding turn
turn-Shut (v, b) ends t (p, closed) h = elim (Bool-cases (waits closed ends t p)) [
  | inl y ↦ rw y h
  | inr n ↦ rw n (λ c. ground (arith, h, step_pair-closes v t b p c))
]

turn-PairInv :
    (env : View × Bool) (ends : Thread → Bool) (t : Thread) (s : Pair × Bool)
    → PairInv s.0
    → PairInv (turn env ends t s).0
unfolding turn
turn-PairInv (v, b) ends t (p, closed) h = elim (Bool-cases (waits closed ends t p)) [
  | inl y ↦ rw y h
  | inr n ↦ rw n (step_pair-PairInv v t b p h)
]

-- What lets both copies return: the connections are closed, or each peer ends its side.
abbrev Freed : (Thread → Bool) → Pair × Bool → Type 0
Freed ends (p, closed) = (closed ≡ true) ⊎ ((ends back_run ≡ true) × (ends forth_run ≡ true))

not_waiting :
    (ends : Thread → Bool) (t : Thread) (p : Pair) (closed : Bool)
    → Freed ends (p, closed)
    → waits closed ends t p ≡ false
not_waiting ends start_call p closed f = refl
not_waiting ends back_run p closed f = ground (arith, f)
not_waiting ends forth_run p closed f = ground (arith, f)

turn_free :
    (v : View) (b : Bool) (ends : Thread → Bool) (t : Thread) (p : Pair) (closed : Bool)
    → waits closed ends t p ≡ false
    → turn (v, b) ends t (p, closed)
      ≡ ((step_pair v t b p).1, closed || is_closing (step_pair v t b p).0)
unfolding turn
turn_free v b ends t p closed n = rw n refl

turn-Freed :
    (env : View × Bool) (ends : Thread → Bool) (t : Thread) (s : Pair × Bool)
    → Freed ends s
    → Freed ends (turn env ends t s)
unfolding turn
turn-Freed (v, b) ends t (p, closed) f = elim (Bool-cases (waits closed ends t p)) [
  | inl y ↦ rw y f
  | inr n ↦ rw n (ground (arith, f))
]

run_threads-PairInv :
    (env : ℕ → View × Bool) (ends : Thread → Bool) (k : ℕ) (ts : List Thread) (s : Pair × Bool)
    → PairInv s.0
    → PairInv (run_threads env ends k ts s).0
unfolding run_threads
run_threads-PairInv env ends k [] s h = h
run_threads-PairInv env ends k (t ∷ ts) s h =
    run_threads-PairInv env ends (k + 1) ts (turn (env k) ends t s)
      (turn-PairInv (env k) ends t s h)

run_threads-Shut :
    (env : ℕ → View × Bool) (ends : Thread → Bool) (k : ℕ) (ts : List Thread) (s : Pair × Bool)
    → Shut s
    → Shut (run_threads env ends k ts s)
unfolding run_threads
run_threads-Shut env ends k [] s h = h
run_threads-Shut env ends k (t ∷ ts) s h =
    run_threads-Shut env ends (k + 1) ts (turn (env k) ends t s) (turn-Shut (env k) ends t s h)

-- Whatever the environment does, at most `actions_left` turns finish a pair that is free to end.
turns_left_finish :
    (env : ℕ → View × Bool) (ends : Thread → Bool) (n k : ℕ) (s : Pair × Bool)
    → PairInv s.0
    → Freed ends s
    → actions_left s.0 ≤ n
    → (ts : List Thread) × (length ts ≤ n) × (is_finished (run_threads env ends k ts s).0 ≡ true)
unfolding run_threads
turns_left_finish env ends zero k (p, closed) v f h =
    elim (some_enabled_at p p.starter refl v.launched) [
      | inl d ↦ ([], omega arith, d)
      | inr (t, a) ↦ absurd (omega (arith, h, actions_left-step_pair (env k).0 t (env k).1 p v a))
    ]
turns_left_finish env ends (suc n) k (p, closed) v f h =
    elim (some_enabled_at p p.starter refl v.launched) [
      | inl d ↦ ([], omega arith, d)
      | inr (t, a) ↦
          let r = turn (env k) ends t (p, closed) in
          let free =
            turn_free (env k).0 (env k).1 ends t p closed (not_waiting ends t p closed f) in
          let less = actions_left-step_pair (env k).0 t (env k).1 p v a in
          let same : actions_left r.0 ≡ actions_left (step_pair (env k).0 t (env k).1 p).1 =
            ap (λ x. actions_left x.0) free in
          let (ts, l, d) =
            turns_left_finish env ends n (k + 1) r (turn-PairInv (env k) ends t (p, closed) v)
              (turn-Freed (env k) ends t (p, closed) f) (omega (arith, h, less, same)) in
          (t ∷ ts, omega (arith, l), d)
    ]

-- A turn of a direction whose copy failed leaves the connections closed.
back-closes :
    (v : View) (b : Bool) (ends : Thread → Bool) (p : Pair) (closed : Bool)
    → p.back ≡ copied false
    → Shut (p, closed)
    → (turn (v, b) ends back_run (p, closed)).1 ≡ true
unfolding turn step_pair step_back step_dir force_close
back-closes v b ends p closed e h = ground (arith, e, h)

forth-closes :
    (v : View) (b : Bool) (ends : Thread → Bool) (p : Pair) (closed : Bool)
    → p.forth ≡ copied false
    → Shut (p, closed)
    → (turn (v, b) ends forth_run (p, closed)).1 ≡ true
unfolding turn step_pair step_forth step_dir force_close
forth-closes v b ends p closed e h = ground (arith, e, h)

-- The pair can end: its connections were closed for it, a copy of its has failed, or each peer ends
-- its side.
abbrev pub CanEnd : (Thread → Bool) → Pair → Type 0
CanEnd ends p =
    (p.closed_once ≡ true)
    ⊎ (p.back ≡ copied false)
    ⊎ (p.forth ≡ copied false)
    ⊎ ((ends back_run ≡ true) × (ends forth_run ≡ true))

-- The schedule finishes the pair, and `OnClosed` was called once where there is a handler, or not at
-- all where no goroutine ran.
abbrev pub Finishes : (ℕ → View × Bool) → (Thread → Bool) → Pair × Bool → List Thread → Type 0
Finishes env ends s ts =
    let q = (run_threads env ends 0 ts s).0 in
    (is_finished q ≡ true) × (q.closed_calls ≡ (calls_due q.starter q.has_handler).1)

with_calls_due :
    (env : ℕ → View × Bool) (ends : Thread → Bool) (s : Pair × Bool) (ts : List Thread)
    → PairInv s.0
    → is_finished (run_threads env ends 0 ts s).0 ≡ true
    → Finishes env ends s ts
with_calls_due env ends s ts v f =
    (f, (PairInv-Settled _ (run_threads-PairInv env ends 0 ts s v) f).closes)

-- After one turn that frees the pair.
turn_then :
    (env : ℕ → View × Bool) (ends : Thread → Bool) (t : Thread) (p : Pair) (closed : Bool)
    → PairInv p
    → waits closed ends t p ≡ false
    → enabled t p ≡ true
    → Freed ends (turn (env 0) ends t (p, closed))
    → (ts : List Thread) × (length ts ≤ actions_left p)
      × (is_finished (run_threads env ends 0 ts (p, closed)).0 ≡ true)
unfolding run_threads
turn_then env ends t p closed v n a f =
    let r = turn (env 0) ends t (p, closed) in
    let less = actions_left-step_pair (env 0).0 t (env 0).1 p v a in
    let same : actions_left r.0 ≡ actions_left (step_pair (env 0).0 t (env 0).1 p).1 =
      ap (λ x. actions_left x.0) (turn_free (env 0).0 (env 0).1 ends t p closed n) in
    let (ts, l, d) =
      turns_left_finish env ends (actions_left r.0) 1 r (turn-PairInv (env 0) ends t (p, closed) v)
        f (omega arith) in
    (t ∷ ts, omega (arith, l, less, same), d)

schedule_to_end :
    (env : ℕ → View × Bool) (ends : Thread → Bool) (p : Pair) (closed : Bool)
    → PairInv p
    → Shut (p, closed)
    → CanEnd ends p
    → (ts : List Thread) × (length ts ≤ actions_left p)
      × (is_finished (run_threads env ends 0 ts (p, closed)).0 ≡ true)
schedule_to_end env ends p closed v h (inl c) =
    turns_left_finish env ends (actions_left p) 0 (p, closed) v (inl (h c)) (omega arith)
schedule_to_end env ends p closed v h (inr (inl e)) =
    turn_then env ends back_run p closed v (rw e refl) (unfold enabled in rw e refl)
      (inl (back-closes (env 0).0 (env 0).1 ends p closed e h))
schedule_to_end env ends p closed v h (inr (inr (inl e))) =
    turn_then env ends forth_run p closed v (rw e refl) (unfold enabled in rw e refl)
      (inl (forth-closes (env 0).0 (env 0).1 ends p closed e h))
schedule_to_end env ends p closed v h (inr (inr (inr f))) =
    turns_left_finish env ends (actions_left p) 0 (p, closed) v (inr f) (omega arith)

-- A pair, after any turns of its threads from the call of Start on, with whatever each meets, of which
-- a copy has failed, or for which closeOnce has run, or both of whose peers end their side: its threads
-- can finish it, by at most as many turns as it has actions left and never more than 50, whatever those
-- meet; the handler is then told once that the pair is closed. In the first two cases no peer needs to
-- end anything: the copy that still waits returns because the connections are closed.
pub one_end_ends_both :
    (a d : ℕ) (acw dcw h : Bool) (env env' : ℕ → View × Bool) (ends : Thread → Bool)
    (before : List Thread)
    → let s = run_threads env ends 0 before (new_pair a d acw dcw h, false) in
      CanEnd ends s.0
      → (ts : List Thread) × (length ts ≤ actions_left s.0)
        × (actions_left s.0 ≤ 50)
        × Finishes env' ends s ts
one_end_ends_both a d acw dcw h env env' ends before c =
    let s = run_threads env ends 0 before (new_pair a d acw dcw h, false) in
    let v =
      run_threads-PairInv env ends 0 before (new_pair a d acw dcw h, false)
        (new_pair-PairInv a d acw dcw h) in
    let shut = run_threads-Shut env ends 0 before (new_pair a d acw dcw h, false) (λ e. cc) in
    let (ts, l, f) = schedule_to_end env' ends s.0 s.1 v shut c in
    (ts, l, actions_left_le s.0, with_calls_due env' ends s ts v f)
