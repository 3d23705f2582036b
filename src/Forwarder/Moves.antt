-- ===== src/Forwarder/Moves.antt =====
-- Every action of a pair keeps its books, and its effect on the shared counters is the change of
-- what the pair holds.
use tlswrapper.Base.{ℕ, ◌+◌, ◌≡◌, refl, ap, ◌∙◌, Bool, true, false, arith}
use tlswrapper.Forwarder.Machine.{
  StartPc, checking, counting, counted, refusing, tracking, spawning_back, undo_closing,
  undo_untracking, undo_releasing, spawning_forth, joining, refused, half_started, started, DirPc,
  waiting, copied, Pair, Effect, count_inc, count_dec, half_inc, half_dec, step_dir, step_back,
  step_forth, start_at, step_start, step_pair, View, Thread, start_call, back_run, forth_run,
}
use tlswrapper.Forwarder.Tally.{
  pending, came_first, came_last, halved, unhalved, released, told, announced, astray, Books-sym,
  PairBooks, step_dir-Books,
}

abbrev pub is_launched : DirPc → Bool
is_launched waiting = false
is_launched _ = true

-- Which directions have been launched.
abbrev pub Launched : StartPc → DirPc → DirPc → Type 0
Launched spawning_forth x y = (is_launched x ≡ true) × (y ≡ waiting)
Launched joining x y = (is_launched x ≡ true) × (is_launched y ≡ true)
Launched half_started x y = (is_launched x ≡ true) × (is_launched y ≡ true)
Launched started x y = (is_launched x ≡ true) × (is_launched y ≡ true)
Launched _ x y = (x ≡ waiting) × (y ≡ waiting)

pub record PairInv (p : Pair) : Type 0 where
  pub books : PairBooks p p.back p.forth
  pub launched : Launched p.starter p.back p.forth

unfoldable pub count_up : Effect → ℕ
count_up count_inc = 1
count_up _ = 0

unfoldable pub count_down : Effect → ℕ
count_down count_dec = 1
count_down _ = 0

unfoldable pub half_up : Effect → ℕ
half_up half_inc = 1
half_up _ = 0

unfoldable pub half_down : Effect → ℕ
half_down half_dec = 1
half_down _ = 0

-- What one action does to the books of one direction.
pub record Change (e : Effect) (x y : DirPc) : Type 0 where
  pub up : count_up e ≡ 0
  pub down : released y ≡ released x + count_down e
  pub half : halved y ≡ halved x + half_up e
  pub unhalf : unhalved y ≡ unhalved x + half_down e

pub step_dir-Change :
    (cw eof : Bool) (p : Pair) (pc : DirPc)
    → let (e, q, pc') = step_dir cw eof p pc in Change e pc pc'
unfolding step_dir count_up count_down half_up half_down released halved unhalved
step_dir-Change cw eof p (copied true) = ground arith
step_dir-Change cw eof p _ = ground arith

-- What an action of a direction leaves alone.
pub record Frame (p q : Pair) : Type 0 where
  pub ends : (q.accepted ≡ p.accepted) × (q.dialed ≡ p.dialed)
  pub starter : q.starter ≡ p.starter
  pub back : q.back ≡ p.back
  pub forth : q.forth ≡ p.forth

pub step_dir-Frame : (cw eof : Bool) (p : Pair) (pc : DirPc) → Frame p (step_dir cw eof p pc).1
unfolding step_dir
step_dir-Frame cw eof p (copied true) = ground arith
step_dir-Frame cw eof p _ = ground arith

step_dir-is_launched :
    (cw eof : Bool) (p : Pair) (pc : DirPc) → is_launched (step_dir cw eof p pc).2 ≡ is_launched pc
unfolding step_dir
step_dir-is_launched cw eof p (copied true) = ground arith
step_dir-is_launched cw eof p _ = ground arith

waiting_of : (x : DirPc) → is_launched x ≡ false → x ≡ waiting
waiting_of waiting h = refl
waiting_of _ h = cc

Launched-step :
    (s : StartPc) (x y x' y' : DirPc)
    → is_launched x' ≡ is_launched x
    → is_launched y' ≡ is_launched y
    → Launched s x y
    → Launched s x' y'
Launched-step spawning_forth x y x' y' f g l = (f ∙ l.0, waiting_of y' (g ∙ ap is_launched l.1))
Launched-step joining x y x' y' f g l = (f ∙ l.0, g ∙ l.1)
Launched-step half_started x y x' y' f g l = (f ∙ l.0, g ∙ l.1)
Launched-step started x y x' y' f g l = (f ∙ l.0, g ∙ l.1)
Launched-step checking x y x' y' f g l =
    (waiting_of x' (f ∙ ap is_launched l.0), waiting_of y' (g ∙ ap is_launched l.1))
Launched-step _ x y x' y' f g l =
    (waiting_of x' (f ∙ ap is_launched l.0), waiting_of y' (g ∙ ap is_launched l.1))

step_back-PairInv : (eof : Bool) (p : Pair) → PairInv p → PairInv (step_back eof p).1
unfolding step_back
step_back-PairInv eof p v =
    let cw = p.accepted_half_close in
    let r = step_dir-Frame cw eof p p.back in
    record {
      books = rw r.forth (step_dir-Books cw eof p p.back p.forth v.books);
      launched =
          rw (r.starter, r.forth)
            (Launched-step p.starter p.back p.forth _ _ (step_dir-is_launched cw eof p p.back) refl
              v.launched);
    }

step_forth-PairInv : (eof : Bool) (p : Pair) → PairInv p → PairInv (step_forth eof p).1
unfolding step_forth
step_forth-PairInv eof p v =
    let cw = p.dialed_half_close in
    let r = step_dir-Frame cw eof p p.forth in
    record {
      books = rw r.back (Books-sym (step_dir-Books cw eof p p.forth p.back (Books-sym v.books)));
      launched =
          rw (r.starter, r.back)
            (Launched-step p.starter p.back p.forth _ _ refl (step_dir-is_launched cw eof p p.forth)
              v.launched);
    }

stay :
    (p : Pair) (s : StartPc)
    → p.starter ≡ s
    → PairBooks p p.back p.forth
    → Launched s p.back p.forth
    → PairInv p
stay p s e b l = record { books = b; launched = rw e l }

start_at-PairInv :
    (w : View) (ok : Bool) (p : Pair) (s : StartPc)
    → p.starter ≡ s
    → PairBooks p p.back p.forth
    → Launched s p.back p.forth
    → PairInv (start_at w ok p s).1
unfolding start_at pending came_first came_last told announced astray
start_at-PairInv w ok p checking e b l = ground arith
start_at-PairInv w ok p counting e b l = ground arith
start_at-PairInv w ok p (counted n) e b l = ground arith
start_at-PairInv w ok p refusing e b l = ground arith
start_at-PairInv w ok p tracking e b l = ground arith
start_at-PairInv w ok p spawning_back e b l = ground arith
start_at-PairInv w ok p undo_closing e b l = ground arith
start_at-PairInv w ok p undo_untracking e b l = ground arith
start_at-PairInv w ok p undo_releasing e b l = ground arith
start_at-PairInv w ok p spawning_forth e b l = ground arith
start_at-PairInv w ok p joining e b l = ground arith
start_at-PairInv w ok p (refused r) e b l = stay p (refused r) e b l
start_at-PairInv w ok p half_started e b l = stay p half_started e b l
start_at-PairInv w ok p started e b l = stay p started e b l

step_start-PairInv : (w : View) (ok : Bool) (p : Pair) → PairInv p → PairInv (step_start w ok p).1
unfolding step_start
step_start-PairInv w ok p v = start_at-PairInv w ok p p.starter refl v.books v.launched

-- Every action of a pair, whoever makes it, keeps its books.
pub step_pair-PairInv :
    (w : View) (t : Thread) (b : Bool) (p : Pair) → PairInv p → PairInv (step_pair w t b p).1
unfolding step_pair
step_pair-PairInv w start_call b p v = step_start-PairInv w b p v
step_pair-PairInv w back_run b p v = step_back-PairInv b p v
step_pair-PairInv w forth_run b p v = step_forth-PairInv b p v
