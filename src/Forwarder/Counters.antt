-- ===== src/Forwarder/Counters.antt =====
-- The shared counters, over every interleaving of any number of `Start` calls.
use tlswrapper.Base.{
  ℕ, ◌+◌, ◌≤◌, ◌≡◌, refl, inl, inr, Bool, some, List, [], ◌∷◌, arith, get_elem?, set, All, All-set,
  All-get, All-append, sum_by, sum_by-set, sum_by-get, sum_by-append, Option-cases,
}
use tlswrapper.Base.Int.{pos, negsuc, pos_part, neg_part, +ℤ_parts}
use tlswrapper.Forwarder.{
  Forwarder, new, apply, view, Event, start, run, set_limit, stop_group, close_all, new_pair,
  run_pair, step, run_all,
}
use tlswrapper.Forwarder.Machine.{Pair, Effect, count_dec, half_inc, half_dec, Thread, step_pair}
use tlswrapper.Forwarder.Tally.{
  pending, came_first, came_last, told, announced, astray, halved, unhalved, released, owner, hold,
  held, halves, unhalves,
}
use tlswrapper.Forwarder.Moves.{
  PairInv, step_pair-PairInv, count_up, count_down, half_up, half_down,
}
use tlswrapper.Forwarder.Balance.{Balanced, step_pair-Balanced}

pub record Inv (f : Forwarder) : Type 0 where
  pub counted : f.count ≡ sum_by held f.pairs
  pub half :
      pos_part f.num_half_open + sum_by unhalves f.pairs
      ≡ neg_part f.num_half_open + sum_by halves f.pairs
  pub sound : All PairInv f.pairs

pub new-Inv : (max_conn : ℕ) → Inv (new max_conn)
unfolding new
new-Inv max_conn = record { counted = refl; half = refl; sound = tt }

pub new_pair-PairInv : (a d : ℕ) (acw dcw h : Bool) → PairInv (new_pair a d acw dcw h)
unfolding pending came_first came_last told announced astray
new_pair-PairInv a d acw dcw h = ground arith

new_pair_holds_nothing :
    (a d : ℕ) (acw dcw h : Bool)
    → let p = new_pair a d acw dcw h in (held p ≡ 0) × (halves p ≡ 0) × (unhalves p ≡ 0)
unfolding held halves unhalves halved unhalved released owner hold
new_pair_holds_nothing a d acw dcw h = (refl, refl, refl)

apply-count :
    (e : Effect) (a d : ℕ) (f : Forwarder)
    → count_down e ≤ f.count
    → (apply e a d f).count + count_down e ≡ f.count + count_up e
unfolding apply count_down count_up
apply-count count_dec a d f h = omega arith
apply-count _ a d f h = omega arith

apply-half :
    (e : Effect) (a d : ℕ) (f : Forwarder)
    → let h = (apply e a d f).num_half_open in
      pos_part h + neg_part f.num_half_open + half_down e
      ≡ neg_part h + pos_part f.num_half_open + half_up e
unfolding apply half_down half_up
apply-half half_inc a d f = omega (arith, +ℤ_parts f.num_half_open (pos 1))
apply-half half_dec a d f = omega (arith, +ℤ_parts f.num_half_open (negsuc 0))
apply-half _ a d f = omega arith

down_le : (e : Effect) (m n k : ℕ) → n + count_down e ≡ m + count_up e → m ≤ k → count_down e ≤ k
unfolding count_down count_up
down_le count_dec m n k h l = omega arith
down_le _ m n k h l = omega arith

module _ (f : Forwarder) (v : Inv f) (i : ℕ) (p q : Pair) (e : Effect) where
  after_effect :
      get_elem? f.pairs i ≡ some p
      → Balanced e p q
      → PairInv q
      → Inv (record (apply e p.accepted p.dialed f) { pairs = set f.pairs i q })
  after_effect g c w = record {
    counted = omega (
      arith,
      v.counted,
      c.place,
      sum_by-set held f.pairs i q p g,
      apply-count e p.accepted p.dialed f (
          down_le e (held p) (held q) f.count c.place
            (omega (arith, v.counted, sum_by-get held f.pairs i p g))),
    );
    half = omega (
      arith,
      v.half,
      c.half,
      c.unhalf,
      sum_by-set halves f.pairs i q p g,
      sum_by-set unhalves f.pairs i q p g,
      apply-half e p.accepted p.dialed f,
    );
    sound = All-set PairInv f.pairs i q v.sound w;
  }

run_pair-Inv :
    (f : Forwarder) (i : ℕ) (t : Thread) (b : Bool) (p : Pair)
    → Inv f
    → get_elem? f.pairs i ≡ some p
    → Inv (run_pair f i t b (some p))
unfolding run_pair
run_pair-Inv f i t b p v g =
    let w = All-get PairInv f.pairs i p v.sound g in
    after_effect f v i p (step_pair (view f) t b p).1 (step_pair (view f) t b p).0 g
      (step_pair-Balanced (view f) t b p w) (step_pair-PairInv (view f) t b p w)

-- Every event keeps the counters equal to what the pairs hold.
pub step-Inv : (f : Forwarder) (e : Event) → Inv f → Inv (step f e)
unfolding step
step-Inv f (start a d acw dcw h) v =
    let (x, y, z) = new_pair_holds_nothing a d acw dcw h in
    let p = new_pair a d acw dcw h in
    record {
      counted = omega (arith, v.counted, x, sum_by-append held f.pairs (p ∷ []));
      half = omega (
        arith,
        v.half,
        y,
        z,
        sum_by-append halves f.pairs (p ∷ []),
        sum_by-append unhalves f.pairs (p ∷ []),
      );
      sound = All-append PairInv f.pairs (p ∷ []) v.sound (new_pair-PairInv a d acw dcw h, tt);
    }
step-Inv f (run i t b) v = elim (Option-cases (get_elem? f.pairs i)) [
  | inl e ↦ rw e v
  | inr (p, e) ↦ rw e (run_pair-Inv f i t b p v e)
]
step-Inv f (set_limit n) v = record { counted = v.counted; half = v.half; sound = v.sound }
step-Inv f stop_group v = record { counted = v.counted; half = v.half; sound = v.sound }
step-Inv f close_all v = record { counted = v.counted; half = v.half; sound = v.sound }

run_all-Inv : (f : Forwarder) (es : List Event) → Inv f → Inv (run_all f es)
unfolding run_all
run_all-Inv f [] v = v
run_all-Inv f (e ∷ es) v = run_all-Inv (step f e) es (step-Inv f e v)

-- After any schedule of any calls, the counter of pairs is the number of places that the pairs hold,
-- the counter of half-open pairs is the increments less the decrements that the pairs have made, and
-- each pair is in a consistent state.
pub reached-Inv : (max_conn : ℕ) (es : List Event) → Inv (run_all (new max_conn) es)
reached-Inv max_conn es = run_all-Inv (new max_conn) es (new-Inv max_conn)
