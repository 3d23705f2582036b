-- ===== src/Forwarder/Finish.antt =====
-- What is left when the goroutines have returned: nothing is held, and the handler was told.
use tlswrapper.Base.{
  ℕ, ◌+◌, ◌≡◌, refl, Bool, true, false, ◌&&◌, List, [], ◌∷◌, arith, All, All-get, get_elem?, some,
  sum_by,
}
use tlswrapper.Base.Int.{pos, eq_of_parts}
use tlswrapper.Forwarder.{new, Event, run_all}
use tlswrapper.Forwarder.Machine.{
  StartPc, StartError, waiting, refused, half_started, started, DirPc, done_first, done_last,
  strayed, Pair, is_done,
}
use tlswrapper.Forwarder.Tally.{
  pending, came_first, came_last, told, announced, astray, halved, unhalved, released, owner, hold,
  held, halves, unhalves, weight, goroutines,
}
use tlswrapper.Forwarder.Moves.{PairInv, Launched}
use tlswrapper.Forwarder.Counters.{reached-Inv}

-- `Start` has returned, and so have the goroutines that it launched.
abbrev finished_at : StartPc → DirPc → DirPc → Bool
finished_at (refused _) x y = true
finished_at half_started x y = is_done x && is_done y
finished_at started x y = is_done x && is_done y
finished_at _ x y = false

abbrev pub is_finished : Pair → Bool
is_finished p = finished_at p.starter p.back p.forth

and_left : (a b : Bool) → (a && b) ≡ true → a ≡ true
and_left a b h = ground arith

and_right : (a b : Bool) → (a && b) ≡ true → b ≡ true
and_right a b h = ground arith

-- A direction that is done has left one of two marks.
done_marks :
    (x : DirPc)
    → is_done x ≡ true
    → astray x ≡ 0
    → (pending x ≡ 0)
      × (released x ≡ came_last x)
      × (unhalved x ≡ came_last x)
      × (halved x ≡ came_first x)
      × (told x ≡ 1)
      × (announced x ≡ came_last x)
unfolding astray pending released came_last unhalved halved came_first told announced
done_marks done_first h s = omega arith
done_marks done_last h s = omega arith
done_marks strayed h s = absurd (omega arith)
done_marks _ h s = cc

-- How often `OnWriteClosed` and `OnClosed` are called for a pair that has finished.
abbrev pub calls_due : StartPc → Bool → ℕ × ℕ
calls_due (refused _) h = (0, 0)
calls_due _ h = (weight h 2, weight h 1)

pub record Settled (p : Pair) : Type 0 where
  pub free : held p ≡ 0
  pub even : halves p ≡ unhalves p
  pub writes : p.write_closed_calls ≡ (calls_due p.starter p.has_handler).0
  pub closes : p.closed_calls ≡ (calls_due p.starter p.has_handler).1

both_done :
    (p : Pair)
    → PairInv p
    → is_done p.back ≡ true
    → is_done p.forth ≡ true
    → (hold goroutines (released p.back + released p.forth) ≡ 0)
      × (halves p ≡ unhalves p)
      × (told p.back + told p.forth ≡ 2)
      × (announced p.back + announced p.forth ≡ 1)
unfolding halves unhalves hold
both_done p v x y =
    let a = done_marks p.back x (omega (arith, v.books.sane)) in
    let b = done_marks p.forth y (omega (arith, v.books.sane)) in omega (arith, a, b, v.books)

ran-Settled :
    (p : Pair)
    → PairInv p
    → owner p.starter ≡ goroutines
    → calls_due p.starter p.has_handler ≡ (weight p.has_handler 2, weight p.has_handler 1)
    → is_done p.back ≡ true
    → is_done p.forth ≡ true
    → Settled p
unfolding held
ran-Settled p v o d x y =
    let (h, e, t, n) = both_done p v x y in
    record {
      free = rw o h;
      even = e;
      writes = rw (d, ← t) v.books.writes;
      closes = rw (d, ← n) v.books.closes;
    }

idle_marks :
    (x : DirPc) → x ≡ waiting → (halved x ≡ 0) × (unhalved x ≡ 0) × (told x ≡ 0) × (announced x ≡ 0)
unfolding halved unhalved told announced
idle_marks x e = rw e (refl, refl, refl, refl)

refused-Settled :
    (p : Pair) (r : StartError)
    → PairInv p
    → p.starter ≡ refused r
    → (p.back ≡ waiting) × (p.forth ≡ waiting)
    → Settled p
unfolding held halves unhalves owner hold
refused-Settled p r v e l =
    let a = idle_marks p.back l.0 in
    let b = idle_marks p.forth l.1 in
    record {
      free = rw e refl;
      even = omega (arith, a, b);
      writes = rw e (ground (arith, a, b, v.books.writes));
      closes = rw e (ground (arith, a, b, v.books.closes));
    }

Settled-at :
    (p : Pair) (s : StartPc)
    → p.starter ≡ s
    → PairInv p
    → Launched s p.back p.forth
    → finished_at s p.back p.forth ≡ true
    → Settled p
unfolding owner
Settled-at p (refused r) e v l f = refused-Settled p r v e l
Settled-at p half_started e v l f =
    ran-Settled p v (rw e refl) (rw e refl) (and_left _ _ f) (and_right _ _ f)
Settled-at p started e v l f =
    ran-Settled p v (rw e refl) (rw e refl) (and_left _ _ f) (and_right _ _ f)
Settled-at p _ e v l f = cc

pub PairInv-Settled : (p : Pair) → PairInv p → is_finished p ≡ true → Settled p
PairInv-Settled p v f = Settled-at p p.starter refl v v.launched f

All-Settled :
    (ps : List Pair) → All PairInv ps → All (λ p. is_finished p ≡ true) ps → All Settled ps
All-Settled [] v f = tt
All-Settled (p ∷ ps) v f = (PairInv-Settled p v.0 f.0, All-Settled ps v.1 f.1)

sums_of_Settled :
    (ps : List Pair)
    → All Settled ps
    → (sum_by held ps ≡ 0) × (sum_by halves ps ≡ sum_by unhalves ps)
sums_of_Settled [] v = (refl, refl)
sums_of_Settled (p ∷ ps) v = omega (arith, v.0.free, v.0.even, sums_of_Settled ps v.1)

-- Once all pairs of a schedule have finished, no place in the limit is held, and no pair is half-open.
pub quiescent :
    (max_conn : ℕ) (es : List Event)
    → let f = run_all (new max_conn) es in
      All (λ p. is_finished p ≡ true) f.pairs → (f.count ≡ 0) × (f.num_half_open ≡ pos 0)
quiescent max_conn es done =
    let v = reached-Inv max_conn es in
    let s = sums_of_Settled _ (All-Settled _ v.sound done) in
    (omega (arith, v.counted, s), eq_of_parts _ _ (omega (arith, v.half, s)))

-- The handler of a finished pair was told of each direction once and of the end once, or never if
-- `Start` refused.
pub callbacks_once :
    (max_conn : ℕ) (es : List Event) (i : ℕ) (p : Pair)
    → get_elem? (run_all (new max_conn) es).pairs i ≡ some p
    → is_finished p ≡ true
    → (p.write_closed_calls, p.closed_calls) ≡ calls_due p.starter p.has_handler
callbacks_once max_conn es i p g f =
    let s = PairInv-Settled p (All-get PairInv _ i p (reached-Inv max_conn es).sound g) f in
    ground (arith, s.writes, s.closes)
