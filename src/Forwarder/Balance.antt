-- ===== src/Forwarder/Balance.antt =====
-- The change of what a pair holds of the counters is the effect of the action.
use tlswrapper.Base.{ℕ, ◌+◌, ◌≤◌, ◌≡◌, refl, ap, ◌⊎◌, inl, inr, Bool, arith}
use tlswrapper.Forwarder.Machine.{
  StartPc, checking, counting, counted, refusing, tracking, spawning_back, undo_closing,
  undo_untracking, undo_releasing, spawning_forth, joining, refused, half_started, started, DirPc,
  waiting, announcing, Pair, Effect, step_dir, step_back, step_forth, start_at, step_start,
  step_pair, View, Thread, start_call, back_run, forth_run,
}
use tlswrapper.Forwarder.Tally.{
  came_last, halved, unhalved, released, Owner, owner, nobody, call, goroutines, hold, held, halves,
  unhalves, step_dir-Books, Books-sym,
}
use tlswrapper.Forwarder.Moves.{
  count_up, count_down, half_up, half_down, step_dir-Change, step_dir-Frame, PairInv, Change,
  Launched,
}

pub record Balanced (e : Effect) (p q : Pair) : Type 0 where
  pub place : held q + count_down e ≡ held p + count_up e
  pub half : halves q ≡ halves p + half_up e
  pub unhalf : unhalves q ≡ unhalves p + half_down e

pub released-le-came_last : (x : DirPc) → released x ≤ came_last x
unfolding released came_last
released-le-came_last announcing = omega arith
released-le-came_last _ = omega arith

-- A direction changes what its pair holds only once the goroutines own it.
hold-step :
    (o : Owner) (m n d : ℕ)
    → n ≡ m + d
    → n ≤ 1
    → (o ≡ goroutines) ⊎ (d ≡ 0)
    → hold o n + d ≡ hold o m
unfolding hold
hold-step nobody m n d e h (inl g) = cc
hold-step nobody m n d e h (inr z) = omega arith
hold-step call m n d e h (inl g) = cc
hold-step call m n d e h (inr z) = omega arith
hold-step goroutines m n d e h g = omega arith

quiet :
    (s : StartPc) (x y : DirPc)
    → Launched s x y
    → (owner s ≡ goroutines) ⊎ (x ≡ waiting) × (y ≡ waiting)
unfolding owner
quiet spawning_forth x y l = inl refl
quiet joining x y l = inl refl
quiet half_started x y l = inl refl
quiet started x y l = inl refl
quiet checking x y l = inr l
quiet _ x y l = inr l

-- Nothing happens at a direction that waits.
waiting-still :
    (cw eof : Bool) (p : Pair) (pc : DirPc) → pc ≡ waiting → count_down (step_dir cw eof p pc).0 ≡ 0
unfolding step_dir count_down
waiting-still cw eof p pc e = rw e refl

quiet_back :
    (p : Pair)
    → Launched p.starter p.back p.forth
    → (owner p.starter ≡ goroutines) ⊎ (p.back ≡ waiting)
quiet_back p l = elim (quiet p.starter p.back p.forth l) [ inl g ↦ inl g | inr w ↦ inr w.0 ]

quiet_forth :
    (p : Pair)
    → Launched p.starter p.back p.forth
    → (owner p.starter ≡ goroutines) ⊎ (p.forth ≡ waiting)
quiet_forth p l = elim (quiet p.starter p.back p.forth l) [ inl g ↦ inl g | inr w ↦ inr w.1 ]

goroutines_or_still :
    (cw eof : Bool) (p q : Pair) (pc : DirPc)
    → (owner p.starter ≡ goroutines) ⊎ (pc ≡ waiting)
    → (owner p.starter ≡ goroutines) ⊎ (count_down (step_dir cw eof q pc).0 ≡ 0)
goroutines_or_still cw eof p q pc (inl g) = inl g
goroutines_or_still cw eof p q pc (inr w) = inr (waiting-still cw eof q pc w)

-- The three sums of two directions, when the first goes from `x` to `x'`.
sums :
    (o : Owner) (e : Effect) (x x' y : DirPc)
    → Change e x x'
    → came_last x' + came_last y ≤ 1
    → (o ≡ goroutines) ⊎ (count_down e ≡ 0)
    → (hold o (released x' + released y) + count_down e
        ≡ hold o (released x + released y) + count_up e)
      × (halved x' + halved y ≡ halved x + halved y + half_up e)
      × (unhalved x' + unhalved y ≡ unhalved x + unhalved y + half_down e)
sums o e x x' y c one g = (
  omega (
    arith,
    hold-step o (released x + released y) (released x' + released y) (count_down e)
        (omega (arith, c.down))
        (omega (arith, one, released-le-came_last x', released-le-came_last y)) g,
    c.up,
  ),
  omega (arith, c.half),
  omega (arith, c.unhalf),
)

step_back-Balanced :
    (eof : Bool) (p : Pair) → PairInv p → Balanced (step_back eof p).0 p (step_back eof p).1
unfolding step_back held halves unhalves
step_back-Balanced eof p v =
    let cw = p.accepted_half_close in
    let r = step_dir-Frame cw eof p p.back in
    let b = step_dir-Books cw eof p p.back p.forth v.books in
    let (s, h, u) =
      sums (owner p.starter) _ p.back _ p.forth (step_dir-Change cw eof p p.back) b.one_last
        (goroutines_or_still cw eof p p p.back (quiet_back p v.launched)) in
    record { place = rw (r.starter, r.forth) s; half = rw r.forth h; unhalf = rw r.forth u }

swapped :
    (o : Owner) (x y : DirPc) → hold o (released x + released y) ≡ hold o (released y + released x)
swapped o x y = ap (hold o) (omega arith)

step_forth-Balanced :
    (eof : Bool) (p : Pair) → PairInv p → Balanced (step_forth eof p).0 p (step_forth eof p).1
unfolding step_forth held halves unhalves
step_forth-Balanced eof p v =
    let cw = p.dialed_half_close in
    let r = step_dir-Frame cw eof p p.forth in
    let b = step_dir-Books cw eof p p.forth p.back (Books-sym v.books) in
    let (s, h, u) =
      sums (owner p.starter) _ p.forth _ p.back (step_dir-Change cw eof p p.forth) b.one_last
        (goroutines_or_still cw eof p p p.forth (quiet_forth p v.launched)) in
    record {
      place =
          rw (r.starter, r.back)
            (omega (
              arith,
              s,
              swapped (owner p.starter) p.back p.forth,
              swapped (owner p.starter) p.back (step_dir cw eof p p.forth).2,
            ));
      half = rw r.back (omega (arith, h));
      unhalf = rw r.back (omega (arith, u));
    }

start_at-Balanced :
    (w : View) (ok : Bool) (p : Pair) (s : StartPc)
    → p.starter ≡ s
    → Launched s p.back p.forth
    → let (e, q) = start_at w ok p s in Balanced e p q
unfolding start_at held halves unhalves count_up count_down half_up half_down released halved
    unhalved owner hold
start_at-Balanced w ok p checking e l = ground arith
start_at-Balanced w ok p counting e l = ground arith
start_at-Balanced w ok p (counted n) e l = ground arith
start_at-Balanced w ok p refusing e l = ground arith
start_at-Balanced w ok p tracking e l = ground arith
start_at-Balanced w ok p spawning_back e l = ground arith
start_at-Balanced w ok p undo_closing e l = ground arith
start_at-Balanced w ok p undo_untracking e l = ground arith
start_at-Balanced w ok p undo_releasing e l = ground arith
start_at-Balanced w ok p spawning_forth e l = ground arith
start_at-Balanced w ok p joining e l = ground arith
start_at-Balanced w ok p (refused r) e l = ground arith
start_at-Balanced w ok p half_started e l = ground arith
start_at-Balanced w ok p started e l = ground arith

-- Every action changes the counters by what the pair comes to hold or gives back.
pub step_pair-Balanced :
    (w : View) (t : Thread) (b : Bool) (p : Pair)
    → PairInv p
    → let (e, q) = step_pair w t b p in Balanced e p q
unfolding step_pair step_start
step_pair-Balanced w start_call b p v = start_at-Balanced w b p p.starter refl v.launched
step_pair-Balanced w back_run b p v = step_back-Balanced b p v
step_pair-Balanced w forth_run b p v = step_forth-Balanced b p v
