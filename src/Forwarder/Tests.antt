-- ===== src/Forwarder/Tests.antt =====
-- Runs of the forwarder on a concrete pair.
use tlswrapper.Base.{
  ℕ, ◌-◌, ◌^◌, ltb, inl, inr, ◌≤◌, ◌≡◌, refl, Bool, true, false, List, [], ◌∷◌, arith, sum_by,
  length,
}
use tlswrapper.Base.Int.{pos, negsuc, ◌+ℤ◌}
use tlswrapper.Forwarder.{
  new, Event, start, run, set_limit, run_all, step, apply, half_open_u32, run_pair, new_pair,
}
use tlswrapper.Forwarder.Machine.{
  Pair, started, counted, waiting, done_first, done_last, start_call, back_run, forth_run,
  step_pair, step_start, step_back, step_dir, start_at, View, Thread,
}
use tlswrapper.Forwarder.Finish.{callbacks_once, quiescent, calls_due}
use tlswrapper.Forwarder.Limit.{never_over_limit, admitted}
use tlswrapper.Forwarder.Counters.{Inv, reached-Inv}
use tlswrapper.Forwarder.Progress.{actions_left}
use tlswrapper.Forwarder.Unblocks.{run_threads, turn, Finishes, one_end_ends_both}
use tlswrapper.Forwarder.Race.{half_open_underflows, overtaking}

-- One pair from its start to its end.
abbrev whole_run : List Event
whole_run =
    start 3 4 true true true
    ∷ run 0 start_call true
    ∷ run 0 start_call true
    ∷ run 0 start_call true
    ∷ run 0 start_call true
    ∷ run 0 start_call true
    ∷ run 0 start_call true
    ∷ run 0 back_run true
    ∷ run 0 back_run true
    ∷ run 0 back_run true
    ∷ run 0 back_run true
    ∷ run 0 back_run true
    ∷ run 0 forth_run true
    ∷ run 0 forth_run true
    ∷ run 0 forth_run true
    ∷ run 0 forth_run true
    ∷ run 0 forth_run true
    ∷ run 0 forth_run true
    ∷ run 0 forth_run true
    ∷ run 0 forth_run true
    ∷ run 0 forth_run true
    ∷ []

abbrev finished_pair : Pair
finished_pair = record {
  accepted = 3;
  dialed = 4;
  accepted_half_close = true;
  dialed_half_close = true;
  has_handler = true;
  starter = started;
  back = done_first;
  forth = done_last;
  remaining = 0;
  closed_once = false;
  write_closed_calls = 2;
  closed_calls = 1;
}

callbacks_once_example :
    (finished_pair.write_closed_calls, finished_pair.closed_calls) ≡ calls_due started true
unfolding run_all new step apply step_pair run_pair ◌+ℤ◌
callbacks_once_example = callbacks_once 2 whole_run 0 finished_pair refl refl

quiescent_example :
    ((run_all (new 2) whole_run).count ≡ 0) × ((run_all (new 2) whole_run).num_half_open ≡ pos 0)
unfolding run_all new step apply step_pair run_pair ◌+ℤ◌
quiescent_example = quiescent 2 whole_run (refl, tt)

never_over_limit_example : sum_by (admitted 3) (run_all (new 2) (set_limit 3 ∷ whole_run)).pairs ≤ 3
never_over_limit_example =
    never_over_limit 3 2 (set_limit 3 ∷ whole_run) (omega arith) (ground arith)

reached-Inv_example : Inv (run_all (new 2) whole_run)
reached-Inv_example = reached-Inv 2 whole_run

-- A pair whose `Start` has counted it, and the environment that it meets.
abbrev first_steps : List Event
first_steps = start 3 4 true false true ∷ run 0 start_call true ∷ run 0 start_call true ∷ []

abbrev counted_pair : Pair
counted_pair = record {
  accepted = 3;
  dialed = 4;
  accepted_half_close = true;
  dialed_half_close = false;
  has_handler = true;
  starter = counted 1;
  back = waiting;
  forth = waiting;
  remaining = 2;
  closed_once = false;
  write_closed_calls = 0;
  closed_calls = 0;
}

abbrev fair : ℕ → View × Bool
fair k = (record { stopping = false; count = 1; limit = 2 }, true)

-- Both copies are under way, and the one back fails; the other peer never ends its side.
abbrev until_failed : List Thread
until_failed =
    start_call ∷ start_call ∷ start_call ∷ start_call ∷ start_call ∷ start_call ∷ back_run ∷ []

abbrev failing : ℕ → View × Bool
failing k = (record { stopping = false; count = 1; limit = 2 }, ltb k 6)

abbrev back_ends : Thread → Bool
back_ends back_run = true
back_ends _ = false

one_end_ends_both_example :
    let s = run_threads failing back_ends 0 until_failed (new_pair 3 4 true true true, false) in
    (ts : List Thread) × (length ts ≤ actions_left s.0)
    × (actions_left s.0 ≤ 50)
    × Finishes fair back_ends s ts
unfolding run_threads turn step_pair step_start step_back step_dir start_at
one_end_ends_both_example =
    one_end_ends_both 3 4 true true true failing fair back_ends until_failed (inr (inl refl))

half_open_underflows_example :
    ((run_all (new 1) (overtaking 3 4 true)).num_half_open ≡ negsuc 0)
    × (half_open_u32 (run_all (new 1) (overtaking 3 4 true)) ≡ 2 ^ 32 - 1)
half_open_underflows_example = half_open_underflows 1 3 4 true (omega arith)
