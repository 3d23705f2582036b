-- ===== src/Forwarder/Race.antt =====
-- The window between `remaining.Add(-1)` and `numHalfOpen.Add(1)`: the other goroutine can run
-- through its decrement first, and the counter is read below 0.
use tlswrapper.Base.{ℕ, ◌-◌, ◌^◌, ◌≤◌, ◌≡◌, refl, Bool, true, false, List, [], ◌∷◌, arith, ge→ltb}
use tlswrapper.Base.Int.{negsuc, ◌+ℤ◌}
use tlswrapper.Forwarder.{new, Event, start, run, run_all, step, apply, half_open_u32, run_pair}
use tlswrapper.Forwarder.Machine.{start_call, back_run, forth_run, step_pair}

-- One pair starts; both copies end; `back` decrements `remaining`, then `forth` overtakes it.
abbrev pub overtaking : ℕ → ℕ → Bool → List Event
overtaking a d h =
    start a d true true h
    ∷ run 0 start_call true
    ∷ run 0 start_call true
    ∷ run 0 start_call true
    ∷ run 0 start_call true
    ∷ run 0 start_call true
    ∷ run 0 start_call true
    ∷ run 0 back_run true
    ∷ run 0 back_run true
    ∷ run 0 back_run true
    ∷ run 0 back_run true
    ∷ run 0 forth_run true
    ∷ run 0 forth_run true
    ∷ run 0 forth_run true
    ∷ run 0 forth_run true
    ∷ run 0 forth_run true
    ∷ []

-- One pair whose two directions end in the order of `overtaking` makes `HalfOpenCount` read -1, and
-- `Stats` report the largest uint32, for any limit of at least 1.
pub half_open_underflows :
    (max_conn a d : ℕ) (h : Bool)
    → 1 ≤ max_conn
    → let f = run_all (new max_conn) (overtaking a d h) in
      (f.num_half_open ≡ negsuc 0) × (half_open_u32 f ≡ 2 ^ 32 - 1)
unfolding run_all new step apply step_pair half_open_u32 run_pair ◌+ℤ◌
half_open_underflows max_conn a d true le = rw (ge→ltb max_conn 1 (omega arith)) (refl, refl)
half_open_underflows max_conn a d false le = rw (ge→ltb max_conn 1 (omega arith)) (refl, refl)
