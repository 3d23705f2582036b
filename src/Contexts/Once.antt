-- ===== src/Contexts/Once.antt =====
-- Each context is cancelled once.
use tlswrapper.Base.{
  count, count-append, count-remove, ℕ, ◌+◌, ◌≡◌, refl, ap, inl, inr, ltb, if◌then◌else◌, Option,
  none, some, List, [], ◌∷◌, arith, Option-cases,
}
use tlswrapper.Contexts.{
  Manager, new_manager, with_timeout, cancel, close, Call, ask, release, shut, step, run,
}

abbrev pub live : Option (List ℕ) → List ℕ
live none = []
live (some cs) = cs

-- 1 for a context that was given out.
abbrev pub given : ℕ → ℕ → ℕ
given i n = if ltb i n then 1 else 0

-- A context that was given out is in the map, or was cancelled once; no other is in either.
abbrev pub EachOnce : Manager → Type 0
EachOnce m = (i : ℕ) → count i (live m.contexts) + count i m.cancelled ≡ given i m.issued

with_timeout-EachOnce : (m : Manager) → EachOnce m → EachOnce (with_timeout m).1
unfolding with_timeout
with_timeout-EachOnce m h i = elim (Option-cases m.contexts) [
  | inl n ↦ ground (arith, n, h i)
  | inr (cs, e) ↦ ground (arith, e, h i)
]

cancel-EachOnce : (k : ℕ) (m : Manager) → EachOnce m → EachOnce (cancel k m)
unfolding cancel
cancel-EachOnce k m h i = elim (Option-cases m.contexts) [
  | inl n ↦ ground (arith, n, h i)
  | inr (cs, e) ↦ ground (arith, e, h i, count-remove i k cs)
]

close-EachOnce : (m : Manager) → EachOnce m → EachOnce (close m)
unfolding close
close-EachOnce m h i = elim (Option-cases m.contexts) [
  | inl n ↦ ground (arith, n, h i)
  | inr (cs, e) ↦ ground (arith, e, h i, count-append i cs m.cancelled)
]

step-EachOnce : (c : Call) (m : Manager) → EachOnce m → EachOnce (step c m)
unfolding step
step-EachOnce ask m h = with_timeout-EachOnce m h
step-EachOnce (release k) m h = cancel-EachOnce k m h
step-EachOnce shut m h = close-EachOnce m h

run-EachOnce : (cs : List Call) (m : Manager) → EachOnce m → EachOnce (run cs m)
unfolding run
run-EachOnce [] m h = h
run-EachOnce (c ∷ cs) m h = run-EachOnce cs (step c m) (step-EachOnce c m h)

new_manager-EachOnce : EachOnce new_manager
unfolding new_manager
new_manager-EachOnce i = ground arith

close-contexts : (m : Manager) → (close m).contexts ≡ none
unfolding close
close-contexts m = elim (Option-cases m.contexts) [
  | inl n ↦ ground (arith, n)
  | inr (cs, e) ↦ ground (arith, e)
]

issued-close : (m : Manager) → (close m).issued ≡ m.issued
unfolding close
issued-close m = ground arith

-- After any calls in any order and a `close`: each context that was given out has been cancelled
-- exactly once, no other has been, and no more contexts are given out.
pub closed_cancels_once :
    (cs : List Call) (i : ℕ)
    → let m = run cs new_manager in
      (count i (close m).cancelled ≡ given i m.issued) × ((with_timeout (close m)).0 ≡ none)
closed_cancels_once cs i =
    let m = run cs new_manager in
    let h = close-EachOnce m (run-EachOnce cs new_manager new_manager-EachOnce) i in
    let e = close-contexts m in
    (
      omega (arith, h, ap (λ o. count i (live o)) e, ap (given i) (issued-close m)),
      unfold with_timeout in rw e refl,
    )
