-- ===== src/H2mux/Stream/Writes.antt =====
-- `Write`, and the calls that end a stream.
use tlswrapper.Base.{
  ℕ, ◌+◌, ◌≡◌, ◌⊎◌, refl, sym, ap, ◌∙◌, inl, inr, if◌then◌else◌, Bool, true, false, Option, none,
  some, List, [], ◌∷◌, ◌++◌, append-nil, length, concat, arith, Bool-cases,
}
use mathlib.Core.List.{append_assoc}
use tlswrapper.H2mux.Stream.{
  Stream, deadline_exceeded, transport, Send, goes, breaks, timer_first, WriteResult, wrote,
  write_err, write_blocks, new_stream, abort, has_passed, is_set, write, close_write, call_on_close,
  close_stream,
}

-- How often a write that times out aborts the RPC.
abbrev pub aborted : Stream → ℕ
aborted s = if s.can_abort then s.aborts + 1 else s.aborts

-- What a write that times out has sent: nothing if the deadline was over when it began, and else all
-- of its bytes in one message or nothing, as its goroutine succeeds in the end or not.
abbrev pub LateSent : List ℕ → ℕ → Send → Stream → List (List ℕ) → Type 0
LateSent b now r s sent =
    ((has_passed s.write_deadline now ≡ true) × (sent ≡ s.sent))
    ⊎ ((has_passed s.write_deadline now ≡ false)
        × ((sends : Bool) × (r ≡ timer_first sends)
            × (sent ≡ (if sends then s.sent ++ (b ∷ []) else s.sent))))

-- Each result of a write says what was sent.
abbrev pub Wrote : List ℕ → ℕ → Send → Stream → WriteResult × Stream → Type 0
Wrote b now r s (wrote n, s') =
    (n ≡ length b) × (concat s'.sent ≡ concat s.sent ++ b) × (s'.aborts ≡ s.aborts)
Wrote b now r s (write_err deadline_exceeded, s') =
    (s'.aborts ≡ aborted s) × (is_set s.write_deadline ≡ true) × LateSent b now r s s'.sent
Wrote b now r s (write_err (transport e), s') =
    (s' ≡ s) × (r ≡ breaks e) × (has_passed s.write_deadline now ≡ false)
Wrote b now r s (write_blocks, s') =
    (s' ≡ s) × ((sends : Bool) × (r ≡ timer_first sends)) × (s.write_deadline ≡ none)

concat-append : (xs ys : List (List ℕ)) → concat (xs ++ ys) ≡ concat xs ++ concat ys
concat-append [] ys = refl
concat-append (x ∷ xs) ys =
    ap (◌++◌ x) (concat-append xs ys) ∙ sym (append_assoc x (concat xs) (concat ys))

pub concat-snoc : (xs : List (List ℕ)) (b : List ℕ) → concat (xs ++ (b ∷ [])) ≡ concat xs ++ b
concat-snoc xs b = concat-append xs (b ∷ []) ∙ ap (◌++◌ (concat xs)) (append-nil b)

sent-abort : (s : Stream) → ((abort s).sent ≡ s.sent) × ((abort s).aborts ≡ aborted s)
unfolding abort
sent-abort s = ground arith

passed_is_set : (t : Option ℕ) (now : ℕ) → has_passed t now ≡ true → is_set t ≡ true
passed_is_set t now h = ground (arith, h)

is_set-false : (t : Option ℕ) → is_set t ≡ false → t ≡ none
is_set-false none h = refl
is_set-false (some t) h = cc

-- A Write that succeeds has sent all its bytes in one message, or nothing if there are none, and
-- reports their number. One that times out aborts the RPC if it can, and had a deadline; if that was
-- over when it began it sends nothing, and else its goroutine may still send its bytes, all in one
-- message and once. One that fails otherwise has the error of SendMsg and changes nothing, and only
-- one without a deadline can block.
pub write-Wrote : (b : List ℕ) (now : ℕ) (r : Send) (s : Stream) → Wrote b now r s (write b now r s)
unfolding write
write-Wrote [] now r s = (refl, sym (append-nil (concat s.sent)), refl)
write-Wrote (b ∷ bs) now r s = elim (Bool-cases (has_passed s.write_deadline now)) [
  | inl e ↦
      let (a, c) = sent-abort s in
      rw (e, write) (c, passed_is_set s.write_deadline now e, inl (e, a))
  | inr e ↦ rw (e, write) (not_passed r e)
]
  where
    late : Bool → Stream
    late sends = if sends then record s { sent = s.sent ++ ((b ∷ bs) ∷ []) } else s

    late_same :
        (sends : Bool)
        → (aborted (late sends) ≡ aborted s)
          × ((late sends).sent ≡ (if sends then s.sent ++ ((b ∷ bs) ∷ []) else s.sent))
    late_same true = (refl, refl)
    late_same false = (refl, refl)

    not_passed :
        (q : Send)
        → has_passed s.write_deadline now ≡ false
        → Wrote (b ∷ bs) now q s (elim q [
          | goes ↦ (wrote (length (b ∷ bs)), record s { sent = s.sent ++ ((b ∷ bs) ∷ []) })
          | breaks e ↦ (write_err (transport e), s)
          | timer_first sends ↦
              if is_set s.write_deadline
              then (write_err deadline_exceeded, abort (late sends))
              else (write_blocks, s)
        ])
    not_passed goes e = (refl, concat-snoc s.sent (b ∷ bs), refl)
    not_passed (breaks x) e = (refl, refl, e)
    not_passed (timer_first sends) e = elim (Bool-cases (is_set s.write_deadline)) [
      | inl y ↦
          let (a, c) = sent-abort (late sends) in
          let (x, z) = late_same sends in rw y (c ∙ x, y, inr (e, (sends, refl, a ∙ z)))
      | inr n ↦ rw n (refl, (sends, refl), is_set-false s.write_deadline n)
    ]

-- What a stream has been told to do.
pub data Call : Type 0 where
  writes : (b : List ℕ) (now : ℕ) (r : Send) → Call
  closes_write closes : Call

unfoldable pub call : Call → Stream → Stream
call (writes b now r) s = (write b now r s).1
call closes_write s = close_write s
call closes s = close_stream s

unfoldable pub calls : List Call → Stream → Stream
calls [] s = s
calls (c ∷ cs) s = calls cs (call c s)

abbrev pub once : Bool → ℕ
once true = 1
once false = 0

-- The write side was closed once or not at all, and so was the stream; a closed stream has its
-- write side closed.
pub record ClosesOnce (s : Stream) : Type 0 where
  pub write_side : s.close_writes ≡ once s.write_closed
  pub whole : s.on_closes ≡ (if s.has_on_close then once s.done else 0)
  pub both : s.done ≡ true → s.write_closed ≡ true

call-ClosesOnce : (c : Call) (s : Stream) → ClosesOnce s → ClosesOnce (call c s)
unfolding call write close_write close_stream call_on_close abort
call-ClosesOnce (writes [] now r) s h = h
call-ClosesOnce (writes (b ∷ bs) now r) s h = record {
  write_side = ground (arith, h.write_side);
  whole = ground (arith, h.whole);
  both = ground (arith, h.both);
}
call-ClosesOnce closes_write s h = record {
  write_side = ground (arith, h.write_side);
  whole = ground (arith, h.whole);
  both = ground (arith, h.both);
}
call-ClosesOnce closes s h = record {
  write_side = ground (arith, h.write_side, h.both);
  whole = ground (arith, h.whole);
  both = ground (arith, h.both);
}

calls-ClosesOnce : (cs : List Call) (s : Stream) → ClosesOnce s → ClosesOnce (calls cs s)
unfolding calls
calls-ClosesOnce [] s h = h
calls-ClosesOnce (c ∷ cs) s h = calls-ClosesOnce cs (call c s) (call-ClosesOnce c s h)

new_stream-ClosesOnce :
    (has_on_close can_abort : Bool) → ClosesOnce (new_stream has_on_close can_abort)
unfolding new_stream
new_stream-ClosesOnce has_on_close can_abort = record {
  write_side = refl;
  whole = ground arith;
  both = λ e. cc;
}

-- A closed stream stays closed, with the same `onClose`.
abbrev Ended : Bool → Stream → Type 0
Ended has s = (s.done ≡ true) × (s.has_on_close ≡ has)

call-Ended : (has : Bool) (c : Call) (s : Stream) → Ended has s → Ended has (call c s)
unfolding call write close_write close_stream call_on_close abort
call-Ended has (writes [] now r) s h = h
call-Ended has (writes (b ∷ bs) now r) s h = ground (arith, h)
call-Ended has closes_write s h = ground (arith, h)
call-Ended has closes s h = ground (arith, h)

calls-Ended : (has : Bool) (cs : List Call) (s : Stream) → Ended has s → Ended has (calls cs s)
unfolding calls
calls-Ended has [] s h = h
calls-Ended has (c ∷ cs) s h = calls-Ended has cs (call c s) (call-Ended has c s h)

same_on_close : (c : Call) (s : Stream) → (call c s).has_on_close ≡ s.has_on_close
unfolding call write close_write close_stream call_on_close abort
same_on_close (writes [] now r) s = refl
same_on_close (writes (b ∷ bs) now r) s = ground arith
same_on_close closes_write s = ground arith
same_on_close closes s = ground arith

calls_same_on_close : (cs : List Call) (s : Stream) → (calls cs s).has_on_close ≡ s.has_on_close
unfolding calls
calls_same_on_close [] s = refl
calls_same_on_close (c ∷ cs) s = calls_same_on_close cs (call c s) ∙ same_on_close c s

close_stream-done : (s : Stream) → (close_stream s).done ≡ true
unfolding close_stream close_write call_on_close
close_stream-done s = ground arith

-- Over any calls of Write, CloseWrite and Close on a new stream, a Close among them: the write side
-- is closed exactly once, and `onClose`, where it is set, called exactly once.
pub closed_once :
    (has_on_close can_abort : Bool) (cs ds : List Call)
    → let s = calls ds (call closes (calls cs (new_stream has_on_close can_abort))) in
      (s.close_writes ≡ 1) × (s.on_closes ≡ (if has_on_close then 1 else 0))
closed_once has_on_close can_abort cs ds =
    let new = new_stream has_on_close can_abort in
    let closed = call closes (calls cs new) in
    let s = calls ds closed in
    let h : ClosesOnce s = calls-ClosesOnce ds closed (
      call-ClosesOnce closes (calls cs new)
        (calls-ClosesOnce cs new (new_stream-ClosesOnce has_on_close can_abort))) in
    let kept : (calls cs new).has_on_close ≡ has_on_close =
      calls_same_on_close cs new ∙ (unfold new_stream in refl) in
    let (d, o) = calls-Ended has_on_close ds closed (
      (unfold call in close_stream-done (calls cs new)),
      same_on_close closes (calls cs new) ∙ kept,
    ) in
    (h.write_side ∙ rw (h.both d) refl, h.whole ∙ rw (d, o) refl)
