-- ===== src/Forwarder/Limit.antt =====
-- The limit on concurrent pairs: the check reads the counter after adding to it, so calls that race
-- may all be refused, but never too many are admitted.
use tlswrapper.Base.{
  ℕ, ◌+◌, ◌≤◌, ◌≡◌, refl, ◌⊎◌, inl, inr, Bool, List, [], ◌∷◌, arith, leb, if◌then◌else◌, All,
  All-get, get_elem?, some, sum_by, sum_by-set, sum_by-append, Option-cases,
}
use tlswrapper.Forwarder.{
  Forwarder, new, apply, view, Event, start, run, set_limit, stop_group, close_all, new_pair,
  run_pair, step, run_all,
}
use tlswrapper.Forwarder.Machine.{
  StartPc, checking, counting, counted, refusing, tracking, spawning_back, undo_closing,
  undo_untracking, undo_releasing, spawning_forth, joining, refused, half_started, started, Pair,
  Effect, nothing, step_back, step_forth, start_at, step_start, step_pair, View, Thread, start_call,
  back_run, forth_run,
}
use tlswrapper.Forwarder.Tally.{held, owner, hold, released}
use tlswrapper.Forwarder.Moves.{PairInv, Launched, step_dir-Frame, step_dir-Change}
use tlswrapper.Forwarder.Balance.{step_pair-Balanced}
use tlswrapper.Forwarder.Counters.{Inv, new-Inv, step-Inv}

-- 1 for a pair that was let in, or whose comparison will let it in, and that is not released.
admit_at : ℕ → StartPc → ℕ → ℕ
admit_at lim (counted v) n = if leb v lim then 1 else 0
admit_at lim refusing n = 0
admit_at lim _ n = n

pub admitted : ℕ → Pair → ℕ
admitted lim p = admit_at lim p.starter (held p)

admit_at_mono : (lim : ℕ) (s : StartPc) (m n : ℕ) → m ≤ n → admit_at lim s m ≤ admit_at lim s n
unfolding admit_at
admit_at_mono lim (counted v) m n h = omega arith
admit_at_mono lim refusing m n h = omega arith
admit_at_mono lim _ m n h = h

admit_at-le : (lim : ℕ) (s : StartPc) (m : ℕ) → admit_at lim s (hold (owner s) m) ≤ hold (owner s) m
unfolding admit_at owner hold
admit_at-le lim (counted v) m = ground arith
admit_at-le lim refusing m = omega arith
admit_at-le lim _ m = omega arith

admitted-le-held : (lim : ℕ) (p : Pair) → admitted lim p ≤ held p
unfolding admitted held
admitted-le-held lim p = admit_at-le lim p.starter _

-- An action lets a pair in only while the counter, after the addition, is within the limit.
abbrev Admits : ℕ → View → Pair → Pair → Type 0
Admits lim w p q = (admitted lim q ≤ admitted lim p) ⊎ (admitted lim q ≡ 1) × (w.count + 1 ≤ lim)

start_at-Admits :
    (lim : ℕ) (w : View) (ok : Bool) (p : Pair) (s : StartPc)
    → w.limit ≤ lim
    → p.starter ≡ s
    → Launched s p.back p.forth
    → Admits lim w p (start_at w ok p s).1
unfolding start_at admitted admit_at held owner hold released
start_at-Admits lim w ok p checking h e l = ground arith
start_at-Admits lim w ok p counting h e l = ground arith
start_at-Admits lim w ok p (counted n) h e l = ground arith
start_at-Admits lim w ok p refusing h e l = ground arith
start_at-Admits lim w ok p tracking h e l = ground arith
start_at-Admits lim w ok p spawning_back h e l = ground arith
start_at-Admits lim w ok p undo_closing h e l = ground arith
start_at-Admits lim w ok p undo_untracking h e l = ground arith
start_at-Admits lim w ok p undo_releasing h e l = ground arith
start_at-Admits lim w ok p spawning_forth h e l = ground arith
start_at-Admits lim w ok p joining h e l = ground arith
start_at-Admits lim w ok p (refused r) h e l = inl (omega arith)
start_at-Admits lim w ok p half_started h e l = inl (omega arith)
start_at-Admits lim w ok p started h e l = inl (omega arith)

admitted_mono :
    (lim : ℕ) (p q : Pair)
    → q.starter ≡ p.starter
    → held q ≤ held p
    → admitted lim q ≤ admitted lim p
unfolding admitted
admitted_mono lim p q e h = simp e (admit_at_mono lim p.starter (held q) (held p) h)

step_pair-Admits :
    (lim : ℕ) (w : View) (t : Thread) (b : Bool) (p : Pair)
    → w.limit ≤ lim
    → PairInv p
    → Admits lim w p (step_pair w t b p).1
unfolding step_pair step_start step_back step_forth
step_pair-Admits lim w start_call b p h v = start_at-Admits lim w b p p.starter h refl v.launched
step_pair-Admits lim w back_run b p h v =
    let c = step_pair-Balanced w back_run b p v in
    let u = step_dir-Change p.accepted_half_close b p p.back in
    inl (
      admitted_mono lim p (step_back b p).1
        (step_dir-Frame p.accepted_half_close b p p.back).starter (omega (arith, c.place, u.up)))
step_pair-Admits lim w forth_run b p h v =
    let c = step_pair-Balanced w forth_run b p v in
    let u = step_dir-Change p.dialed_half_close b p p.forth in
    inl (
      admitted_mono lim p (step_forth b p).1
        (step_dir-Frame p.dialed_half_close b p p.forth).starter (omega (arith, c.place, u.up)))

sum_by_mono : (lim : ℕ) (ps : List Pair) → sum_by (admitted lim) ps ≤ sum_by held ps
sum_by_mono lim [] = omega arith
sum_by_mono lim (p ∷ ps) = omega (arith, admitted-le-held lim p, sum_by_mono lim ps)

record Bounded (lim : ℕ) (f : Forwarder) : Type 0 where
  books : Inv f
  low : f.limit ≤ lim
  few : sum_by (admitted lim) f.pairs ≤ lim

apply-limit : (e : Effect) (a d : ℕ) (f : Forwarder) → (apply e a d f).limit ≡ f.limit
unfolding apply
apply-limit nothing a d f = refl
apply-limit _ a d f = refl

run_pair-few :
    (lim : ℕ) (f : Forwarder) (i : ℕ) (t : Thread) (b : Bool) (p : Pair)
    → Bounded lim f
    → get_elem? f.pairs i ≡ some p
    → let g = run_pair f i t b (some p) in (g.limit ≤ lim) × (sum_by (admitted lim) g.pairs ≤ lim)
unfolding run_pair
run_pair-few lim f i t b p v g =
    let w = All-get PairInv f.pairs i p v.books.sound g in
    let (e, q) = step_pair (view f) t b p in
    let s = sum_by-set (admitted lim) f.pairs i q p g in
    let m = sum_by_mono lim f.pairs in
    (
      omega (arith, v.low, apply-limit e p.accepted p.dialed f),
      elim (step_pair-Admits lim (view f) t b p v.low w) [
        | inl k ↦ omega (arith, k, s, v.few)
        | inr k ↦ omega (arith, k, s, m, v.books.counted)
      ],
    )

-- The events never set the limit above `lim`.
abbrev pub Within : ℕ → Event → Type 0
Within lim (set_limit n) = n ≤ lim
Within lim _ = Unit

new_pair-admitted : (lim a d : ℕ) (acw dcw h : Bool) → admitted lim (new_pair a d acw dcw h) ≡ 0
unfolding admitted admit_at held owner hold
new_pair-admitted lim a d acw dcw h = refl

step-few :
    (lim : ℕ) (f : Forwarder) (e : Event)
    → Within lim e
    → Bounded lim f
    → let g = step f e in (g.limit ≤ lim) × (sum_by (admitted lim) g.pairs ≤ lim)
unfolding step
step-few lim f (start a d acw dcw h) w v = (
  v.low,
  omega (
    arith,
    v.few,
    new_pair-admitted lim a d acw dcw h,
    sum_by-append (admitted lim) f.pairs (new_pair a d acw dcw h ∷ []),
  ),
)
step-few lim f (run i t b) w v = elim (Option-cases (get_elem? f.pairs i)) [
  | inl e ↦ rw e (v.low, v.few)
  | inr (p, e) ↦ rw e (run_pair-few lim f i t b p v e)
]
step-few lim f (set_limit n) w v = (w, v.few)
step-few lim f stop_group w v = (v.low, v.few)
step-few lim f close_all w v = (v.low, v.few)

step-Bounded :
    (lim : ℕ) (f : Forwarder) (e : Event) → Within lim e → Bounded lim f → Bounded lim (step f e)
step-Bounded lim f e w v = record {
  books = step-Inv f e v.books;
  low = (step-few lim f e w v).0;
  few = (step-few lim f e w v).1;
}

run_all-Bounded :
    (lim : ℕ) (f : Forwarder) (es : List Event)
    → All (Within lim) es
    → Bounded lim f
    → Bounded lim (run_all f es)
unfolding run_all
run_all-Bounded lim f [] w v = v
run_all-Bounded lim f (e ∷ es) w v =
    run_all-Bounded lim (step f e) es w.1 (step-Bounded lim f e w.0 v)

-- At no time of any schedule are more pairs admitted than `lim`, where the first limit and all that
-- are set later are at most `lim`.
pub never_over_limit :
    (lim max_conn : ℕ) (es : List Event)
    → max_conn ≤ lim
    → All (Within lim) es
    → sum_by (admitted lim) (run_all (new max_conn) es).pairs ≤ lim
never_over_limit lim max_conn es h w =
    (run_all-Bounded lim (new max_conn) es w (record {
      books = new-Inv max_conn;
      low = unfold new in h;
      few = unfold new in omega arith;
    })).few
