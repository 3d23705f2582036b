-- ===== src/Forwarder/Machine.antt =====
-- One call of `Start` (v4/forwarder/forwarder.go) with the two goroutines that it launches, an
-- atomic action at a time. What an action does to the shared state is its `Effect`.
use tlswrapper.Base.{ℕ, ◌+◌, ◌-◌, ltb, ◌==◌, if◌then◌else◌, Bool, true, false}

pub data StartError : Type 0 where
  group_closed conn_limit : StartError

-- Where `Start` stands.
pub data StartPc : Type 0 where
  checking : StartPc  -- before `select` on the group
  counting : StartPc  -- before `f.count.Add(1)`
  counted : (v : ℕ) → StartPc  -- before the comparison with `f.limit.Load()`
  refusing : StartPc  -- before `f.count.Add(-1)`
  tracking : StartPc  -- before `f.addConn`
  spawning_back : StartPc  -- before the first `f.g.Go`
  undo_closing undo_untracking undo_releasing : StartPc  -- in `cleanup`, after that failed
  spawning_forth : StartPc  -- before the second `f.g.Go`
  joining : StartPc  -- in the error branch of the second `f.g.Go`
  refused : StartError → StartPc  -- returned before any goroutine ran
  half_started : StartPc  -- returned the error of the second `f.g.Go`
  started : StartPc  -- returned nil

-- Where one direction, a run of `run(dst, src)`, stands. The error branch of the second `f.g.Go`
-- makes the same calls in the same order as `run` after a failed copy, so it is a direction too.
pub data DirPc : Type 0 where
  waiting : DirPc  -- not launched
  copying : DirPc  -- in `connCopy`
  copied : (eof : Bool) → DirPc  -- `err == nil`
  ended : DirPc  -- before `handler.OnWriteClosed`
  reported : DirPc  -- before `remaining.Add(-1)`
  first : DirPc  -- before `f.numHalfOpen.Add(1)`
  last : DirPc  -- before `f.numHalfOpen.Add(-1)`
  cleaning : DirPc  -- in `cleanupConn`, before the two closes
  untracking : DirPc  -- in `cleanupConn`, before the two deletes
  releasing : DirPc  -- before `f.count.Add(-1)`
  announcing : DirPc  -- before `handler.OnClosed`
  done_first done_last : DirPc
  strayed : DirPc  -- no case of the switch applied

-- The two calls of the handler are counted. `remaining` is an int32 that starts at 2.
pub record Pair : Type 0 where
  pub accepted : ℕ
  pub dialed : ℕ
  pub accepted_half_close : Bool
  pub dialed_half_close : Bool
  pub has_handler : Bool
  pub starter : StartPc
  pub back : DirPc  -- run(accepted, dialed)
  pub forth : DirPc  -- run(dialed, accepted)
  pub remaining : ℕ
  pub closed_once : Bool
  pub write_closed_calls : ℕ
  pub closed_calls : ℕ

pub data Effect : Type 0 where
  nothing count_inc count_dec half_inc half_dec track untrack close_both : Effect

-- `if handler != nil { … }`
abbrev pub call : Bool → ℕ → ℕ
call true n = n + 1
call false n = n

-- `closeOnce.Do`
unfoldable pub force_close : Pair → Effect × Pair × DirPc
force_close p =
    if p.closed_once
    then (nothing, p, ended)
    else (close_both, record p { closed_once = true }, ended)

-- `switch remaining.Add(-1)`; the invariant keeps `remaining` above 0 here.
after_add : ℕ → DirPc
after_add r = if r == 1 then first else if r == 0 then last else strayed

-- One action of a direction whose destination supports half-close if `cw`; `eof` is how the copy
-- ends, which the two connections decide.
unfoldable pub step_dir : Bool → Bool → Pair → DirPc → Effect × Pair × DirPc
unfolding force_close after_add
step_dir cw eof p waiting = (nothing, p, waiting)
step_dir cw eof p copying = (nothing, p, copied eof)
step_dir cw eof p (copied true) = if cw then (nothing, p, ended) else force_close p
step_dir cw eof p (copied false) = force_close p
step_dir cw eof p ended =
    (nothing, record p { write_closed_calls = call p.has_handler p.write_closed_calls }, reported)
step_dir cw eof p reported =
    (nothing, record p { remaining = p.remaining - 1 }, after_add (p.remaining - 1))
step_dir cw eof p first = (half_inc, p, done_first)
step_dir cw eof p last = (half_dec, p, cleaning)
step_dir cw eof p cleaning = (close_both, p, untracking)
step_dir cw eof p untracking = (untrack, p, releasing)
step_dir cw eof p releasing = (count_dec, p, announcing)
step_dir cw eof p announcing =
    (nothing, record p { closed_calls = call p.has_handler p.closed_calls }, done_last)
step_dir cw eof p done_first = (nothing, p, done_first)
step_dir cw eof p done_last = (nothing, p, done_last)
step_dir cw eof p strayed = (nothing, p, strayed)

unfoldable pub step_back : Bool → Pair → Effect × Pair
step_back eof p =
    let (e, q, pc) = step_dir p.accepted_half_close eof p p.back in (e, record q { back = pc })

unfoldable pub step_forth : Bool → Pair → Effect × Pair
step_forth eof p =
    let (e, q, pc) = step_dir p.dialed_half_close eof p p.forth in (e, record q { forth = pc })

abbrev pub is_done : DirPc → Bool
is_done done_first = true
is_done done_last = true
is_done strayed = true
is_done _ = false

-- What `Start` reads of the shared state.
pub record View : Type 0 where
  pub stopping : Bool  -- the group is closed
  pub count : ℕ
  pub limit : ℕ

-- One action of `Start`; `launched` is whether a call of `f.g.Go` succeeds.
unfoldable pub start_at : View → Bool → Pair → StartPc → Effect × Pair
start_at v launched p checking =
    (nothing, record p { starter = if v.stopping then refused group_closed else counting })
start_at v launched p counting = (count_inc, record p { starter = counted (v.count + 1) })
start_at v launched p (counted n) =
    (nothing, record p { starter = if ltb v.limit n then refusing else tracking })
start_at v launched p refusing = (count_dec, record p { starter = refused conn_limit })
start_at v launched p tracking = (track, record p { starter = spawning_back })
start_at v launched p spawning_back = (
  nothing,
  if launched
      then record p { starter = spawning_forth; back = copying }
      else record p { starter = undo_closing },
)
start_at v launched p undo_closing = (close_both, record p { starter = undo_untracking })
start_at v launched p undo_untracking = (untrack, record p { starter = undo_releasing })
start_at v launched p undo_releasing = (count_dec, record p { starter = refused group_closed })
start_at v launched p spawning_forth = (
  nothing,
  if launched
      then record p { starter = started; forth = copying }
      else record p { starter = joining; forth = copied false },
)
start_at v launched p joining =
    (nothing, if is_done p.forth then record p { starter = half_started } else p)
start_at v launched p (refused e) = (nothing, p)
start_at v launched p half_started = (nothing, p)
start_at v launched p started = (nothing, p)

unfoldable pub step_start : View → Bool → Pair → Effect × Pair
unfolding start_at
step_start v launched p = start_at v launched p p.starter

pub data Thread : Type 0 where
  start_call back_run forth_run : Thread

unfoldable pub step_pair : View → Thread → Bool → Pair → Effect × Pair
unfolding step_start step_back step_forth step_dir
step_pair v start_call b p = step_start v b p
step_pair v back_run b p = step_back b p
step_pair v forth_run b p = step_forth b p
