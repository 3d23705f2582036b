-- ===== src/H3mux/Session/Counted.antt =====
-- NumStreams is the number of streams that were not closed.
use tlswrapper.Base.{
  ℕ, suc, ◌+◌, ◌%◌, ◌^◌, ◌≤◌, ◌<◌, ◌≡◌, refl, sym, ap, ◌∙◌, inl, inr, ◌==◌, if◌then◌else◌, Bool,
  true, false, Option, none, some, List, [], ◌∷◌, length, get_elem?, set, sum_by, sum_by-append,
  sum_by-set, arith, Option-cases,
}
use tlswrapper.H3mux.Session.{
  Conn, Session, OpenAnswer, opens, no_stream, no_marker, ReadResult, new_h3_session, close,
  wrap_stream, open_stream, accept_stream, on_stream_close, stream_read, quic_read, count_read,
  read, write, close_stream, Call, open_streams, accept_streams, reads, writes, close_streams,
  takes_idle, closes, call, calls,
}

abbrev pub closed_or_not : Bool → ℕ
closed_or_not fired = if fired then 0 else 1

abbrev pub is_open : Conn → ℕ
is_open c = closed_or_not c.fired

-- The streams that were opened or accepted and not closed.
abbrev pub open_count : Session → ℕ
open_count s = sum_by is_open s.streams

abbrev pub Counted : Session → Type 0
Counted s = s.num_streams ≡ open_count s % 2 ^ 64

wrap_stream-Counted :
    (strip : Bool) (arriving : List ℕ) (s : Session)
    → Counted s
    → Counted (wrap_stream strip arriving s)
unfolding wrap_stream
wrap_stream-Counted strip arriving s h = omega (
  arith,
  h,
  sum_by-append is_open s.streams
      (record { arriving = arriving; strip_marker = strip; fired = false; errored = false } ∷ []),
)

open_stream-Counted :
    (answer : OpenAnswer) (closed_since : Bool) (s : Session)
    → Counted s
    → Counted (open_stream answer closed_since s).1
unfolding open_stream
open_stream-Counted no_stream closed_since s h = ground (arith, h)
open_stream-Counted no_marker closed_since s h = ground (arith, h)
open_stream-Counted opens closed_since s h = ground (
  arith,
  h,
  wrap_stream-Counted false [] (record s { streams_opened = (s.streams_opened + 1) % 2 ^ 64 }) h,
)

accept_stream-Counted :
    (answer : Option (List ℕ)) (s : Session) → Counted s → Counted (accept_stream answer s).1
unfolding accept_stream
accept_stream-Counted none s h = h
accept_stream-Counted (some arriving) s h =
    wrap_stream-Counted true arriving
      (record s { streams_accepted = (s.streams_accepted + 1) % 2 ^ 64 }) h

-- A call that leaves `fired` as it was leaves the count.
set_same :
    (s : Session) (i : ℕ) (c d : Conn)
    → get_elem? s.streams i ≡ some c
    → d.fired ≡ c.fired
    → sum_by is_open (set s.streams i d) ≡ open_count s
set_same s i c d e f = omega (arith, sum_by-set is_open s.streams i d c e, ap closed_or_not f)

quic_read-fired : (n : ℕ) (at_end : Bool) (c : Conn) → (quic_read n at_end c).1.fired ≡ c.fired
unfolding quic_read stream_read
quic_read-fired n at_end c = ground arith

count_read-fired : (r : ReadResult) (c : Conn) (s : Session) → (count_read r c s).0.fired ≡ c.fired
unfolding count_read
count_read-fired r c s = ground arith

count_read-same :
    (r : ReadResult) (c : Conn) (s : Session)
    → ((count_read r c s).1.streams ≡ s.streams)
      × ((count_read r c s).1.num_streams ≡ s.num_streams)
unfolding count_read
count_read-same r c s = ground arith

read-Counted : (i n : ℕ) (at_end : Bool) (s : Session) → Counted s → Counted (read i n at_end s).1
unfolding read
read-Counted i n at_end s h = elim (Option-cases (get_elem? s.streams i)) [
  | inl e ↦ rw (read, e) h
  | inr (c, e) ↦
      let (r, c') = quic_read n at_end c in
      let (d, s') = count_read r c' s in
      let (streams, num) = count_read-same r c' s in
      let kept : d.fired ≡ c.fired = count_read-fired r c' s ∙ quic_read-fired n at_end c in
      rw (read, e) (num ∙ h ∙ ap (λ k. k % 2 ^ 64) (sym (rw streams (set_same s i c d e kept))))
]

write-Counted : (i n : ℕ) (fails : Bool) (s : Session) → Counted s → Counted (write i n fails s)
unfolding write
write-Counted i n fails s h = elim (Option-cases (get_elem? s.streams i)) [
  | inl e ↦ rw (write, e) h
  | inr (c, e) ↦
      rw (write, e)
        (omega (
          arith,
          h,
          set_same s i c (record c { errored = if fails then true else c.errored }) e refl,
        ))
]

close_stream-Counted : (i : ℕ) (s : Session) → Counted s → Counted (close_stream i s)
unfolding close_stream on_stream_close
close_stream-Counted i s h = elim (Option-cases (get_elem? s.streams i)) [
  | inl e ↦ ground (arith, e, h)
  | inr (c, e) ↦
      ground (arith, e, h, sum_by-set is_open s.streams i (record c { fired = true }) c e)
]

call-Counted : (c : Call) (s : Session) → Counted s → Counted (call c s)
unfolding call close
call-Counted (open_streams answer closed_since) s h = open_stream-Counted answer closed_since s h
call-Counted (accept_streams answer) s h = accept_stream-Counted answer s h
call-Counted (reads i n at_end) s h = read-Counted i n at_end s h
call-Counted (writes i n fails) s h = write-Counted i n fails s h
call-Counted (close_streams i) s h = close_stream-Counted i s h
call-Counted takes_idle s h = h
call-Counted closes s h = ground (arith, h)

calls-Counted : (cs : List Call) (s : Session) → Counted s → Counted (calls cs s)
unfolding calls
calls-Counted [] s h = h
calls-Counted (c ∷ cs) s h = calls-Counted cs (call c s) (call-Counted c s h)

open_count-le : (xs : List Conn) → sum_by is_open xs ≤ length xs
open_count-le [] = omega arith
open_count-le (c ∷ xs) = ground (arith, open_count-le xs)

-- What the close of a stream that is open does, by the counter.
close_stream_first :
    (i : ℕ) (c : Conn) (s : Session)
    → get_elem? s.streams i ≡ some c
    → c.fired ≡ false
    → let t = close_stream i s in
      (t.idle ≡ (if t.num_streams == 0 then true else s.idle)) × (open_count s ≡ suc (open_count t))
unfolding close_stream on_stream_close
close_stream_first i c s e f =
    ground (arith, e, f, sum_by-set is_open s.streams i (record c { fired = true }) c e)

-- After any calls on a session and its streams, of which there are fewer than 2^64: NumStreams is the
-- number of streams that were opened or accepted and not closed. The close of a stream that is open
-- puts a signal in the idle channel if no other is open, and else leaves the channel as it is.
pub idle_after_last_close :
    (rejects : Bool) (cs : List Call) (i : ℕ) (c : Conn)
    → let s = calls cs (new_h3_session rejects) in
      length s.streams < 2 ^ 64
      → get_elem? s.streams i ≡ some c
      → c.fired ≡ false
      → let t = close_stream i s in
        (s.num_streams ≡ open_count s)
        × (open_count s ≡ suc (open_count t))
        × (t.idle ≡ (if open_count t == 0 then true else s.idle))
idle_after_last_close rejects cs i c l e f =
    let s = calls cs (new_h3_session rejects) in
    let h = calls-Counted cs (new_h3_session rejects) (unfold new_h3_session in refl) in
    let (idle, one) = close_stream_first i c s e f in
    let t = close_stream-Counted i s h in
    let small = open_count-le s.streams in
    (
      omega (arith, h, small, l),
      one,
      idle ∙ ap (λ n. if n == 0 then true else s.idle) (omega (arith, t, one, small, l)),
    )
