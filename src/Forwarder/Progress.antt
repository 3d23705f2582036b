-- ===== src/Forwarder/Progress.antt =====
-- Every effective action of a pair lowers a measure, and while a pair has not finished, one of its
-- threads has an action left.
use tlswrapper.Base.{ℕ, ◌+◌, ◌≤◌, ◌<◌, ◌≡◌, refl, ◌⊎◌, inl, inr, Bool, true, false, ◌&&◌, arith}
use tlswrapper.Forwarder.Machine.{
  StartPc, checking, counting, counted, refusing, tracking, spawning_back, undo_closing,
  undo_untracking, undo_releasing, spawning_forth, joining, refused, half_started, started, DirPc,
  waiting, copying, copied, ended, reported, first, last, cleaning, untracking, releasing,
  announcing, done_first, done_last, strayed, Pair, step_dir, step_back, step_forth, start_at,
  step_start, step_pair, View, Thread, start_call, back_run, forth_run, is_done,
}
use tlswrapper.Forwarder.Moves.{step_dir-Frame, PairInv, Launched, is_launched}
use tlswrapper.Forwarder.Finish.{is_finished}

-- The actions left to a direction that has been launched.
dir_left : DirPc → ℕ
dir_left copying = 10
dir_left (copied _) = 9
dir_left ended = 8
dir_left reported = 7
dir_left first = 1
dir_left last = 6
dir_left cleaning = 5
dir_left untracking = 4
dir_left releasing = 3
dir_left announcing = 2
dir_left _ = 0

start_left : StartPc → ℕ
start_left checking = 30
start_left counting = 29
start_left (counted _) = 28
start_left refusing = 27
start_left tracking = 26
start_left spawning_back = 25
start_left undo_closing = 24
start_left undo_untracking = 23
start_left undo_releasing = 22
start_left spawning_forth = 12
start_left joining = 1
start_left _ = 0

pub actions_left : Pair → ℕ
actions_left p = start_left p.starter + dir_left p.back + dir_left p.forth

dir_left_le : (x : DirPc) → dir_left x ≤ 10
unfolding dir_left
dir_left_le x = ground arith

start_left_le : (s : StartPc) → start_left s ≤ 30
unfolding start_left
start_left_le s = ground arith

pub actions_left_le : (p : Pair) → actions_left p ≤ 50
unfolding actions_left
actions_left_le p = omega (arith, start_left_le p.starter, dir_left_le p.back, dir_left_le p.forth)

abbrev pub dir_enabled : DirPc → Bool
dir_enabled waiting = false
dir_enabled done_first = false
dir_enabled done_last = false
dir_enabled strayed = false
dir_enabled _ = true

abbrev pub is_copying : DirPc → Bool
is_copying copying = true
is_copying _ = false

abbrev pub start_enabled : StartPc → DirPc → Bool
start_enabled joining y = is_done y
start_enabled (refused _) y = false
start_enabled half_started y = false
start_enabled started y = false
start_enabled _ y = true

-- The thread can act.
unfoldable pub enabled : Thread → Pair → Bool
enabled start_call p = start_enabled p.starter p.forth
enabled back_run p = dir_enabled p.back
enabled forth_run p = dir_enabled p.forth

step_dir-left :
    (cw eof : Bool) (p : Pair) (pc : DirPc)
    → dir_enabled pc ≡ true
    → dir_left (step_dir cw eof p pc).2 < dir_left pc
unfolding step_dir dir_left
step_dir-left cw eof p (copied true) h = ground arith
step_dir-left cw eof p _ h = ground arith

start_at-left :
    (w : View) (b : Bool) (p : Pair) (s : StartPc)
    → p.starter ≡ s
    → Launched s p.back p.forth
    → start_enabled s p.forth ≡ true
    → actions_left (start_at w b p s).1 < actions_left p
unfolding actions_left start_at start_left dir_left
start_at-left w b p checking e l h = ground arith
start_at-left w b p (refused r) e l h = cc
start_at-left w b p half_started e l h = cc
start_at-left w b p started e l h = cc
start_at-left w b p joining e l h = ground arith
start_at-left w b p _ e l h = ground arith

-- An action of a thread that can act brings the pair nearer to its end, whatever its outcome.
pub actions_left-step_pair :
    (w : View) (t : Thread) (b : Bool) (p : Pair)
    → PairInv p
    → enabled t p ≡ true
    → actions_left (step_pair w t b p).1 < actions_left p
unfolding step_pair enabled step_start step_back step_forth actions_left
actions_left-step_pair w start_call b p v h = start_at-left w b p p.starter refl v.launched h
actions_left-step_pair w back_run b p v h =
    let r = step_dir-Frame p.accepted_half_close b p p.back in
    rw (r.starter, r.forth) (omega (arith, step_dir-left p.accepted_half_close b p p.back h))
actions_left-step_pair w forth_run b p v h =
    let r = step_dir-Frame p.dialed_half_close b p p.forth in
    rw (r.starter, r.back) (omega (arith, step_dir-left p.dialed_half_close b p p.forth h))

done_or_enabled : (x : DirPc) → is_launched x ≡ true → (is_done x ≡ true) ⊎ (dir_enabled x ≡ true)
done_or_enabled waiting h = cc
done_or_enabled _ h = ground arith

running :
    (p : Pair)
    → is_launched p.back ≡ true
    → is_launched p.forth ≡ true
    → ((is_done p.back && is_done p.forth) ≡ true) ⊎ ((t : Thread) × (enabled t p ≡ true))
unfolding enabled
running p x y = elim (done_or_enabled p.back x) [
  | inl b ↦ elim (done_or_enabled p.forth y) [
    | inl f ↦ inl (rw (b, f) refl)
    | inr f ↦ inr (forth_run, f)
  ]
  | inr b ↦ inr (back_run, b)
]

-- A pair that has not finished has an action left.
pub some_enabled_at :
    (p : Pair) (s : StartPc)
    → p.starter ≡ s
    → Launched s p.back p.forth
    → (is_finished p ≡ true) ⊎ ((t : Thread) × (enabled t p ≡ true))
some_enabled_at p (refused r) e l = inl (rw e refl)
some_enabled_at p half_started e l = simp e (running p l.0 l.1)
some_enabled_at p started e l = simp e (running p l.0 l.1)
some_enabled_at p joining e l = elim (done_or_enabled p.forth l.1) [
  | inl d ↦ inr (start_call, unfold enabled in rw (e, d) refl)
  | inr d ↦ inr (forth_run, unfold enabled in d)
]
some_enabled_at p _ e l = inr (start_call, unfold enabled in rw e refl)
