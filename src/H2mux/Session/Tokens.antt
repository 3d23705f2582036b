-- ===== src/H2mux/Session/Tokens.antt =====
-- Each call of `Open` that is under way owns one token: its entry in the map, a deliverer that has
-- claimed it, or the connection in its channel.
use tlswrapper.Base.{
  ℕ, suc, ◌+◌, ◌^◌, ◌≤◌, ◌<◌, ◌≡◌, refl, inl, inr, ◌==◌, if◌then◌else◌, Bool, true, false, Option,
  none, some, List, [], ◌∷◌, mem, count, count-remove, count_mem, arith, Bool-cases, Option-cases,
  length,
}
use tlswrapper.H2mux.Session.{
  Session, new_session, Phase, idle, sending, waiting, giving_up, draining, opened, failed, find,
  take_out, open_begin, open_sent, open_receive, open_sees_closed, open_sees_done, abandon, drain,
  deliver_stream, send, offer_queued, offer_sees_closed, accept, close, Event, opens, sent,
  receives, sees_closed, sees_done, abandons, drains, delivers, sends, queues, drops, accepts,
  closes, step, run,
}

-- The tokens that a call owns, and how many of them may be its entry in the map.
abbrev pub owed : Phase → ℕ
owed idle = 0
owed sending = 1
owed waiting = 1
owed (giving_up e) = 1
owed (draining e) = 1
owed (opened c) = 0
owed (failed e) = 0

abbrev pub may_wait : Phase → ℕ
may_wait (draining e) = 0
may_wait _ = 1

abbrev pub key_count : ℕ → List (ℕ × ℕ) → ℕ
key_count i [] = 0
key_count i ((k, c) ∷ xs) = if k == i then suc (key_count i xs) else key_count i xs

abbrev pub Tokens : Session → Type 0
Tokens s =
    (i : ℕ)
    → (count i s.pending + key_count i s.held + key_count i s.buffered ≡ owed (s.phases i))
      × (count i s.pending ≤ may_wait (s.phases i))
      × (s.open_seq < i → s.phases i ≡ idle)

pub key_count-take_out :
    (i k c : ℕ) (xs : List (ℕ × ℕ))
    → find k xs ≡ some c
    → key_count i xs
      ≡ (if k == i then suc (key_count i (take_out k xs)) else key_count i (take_out k xs))
unfolding take_out
key_count-take_out i k c [] h = cc
key_count-take_out i k c ((x, d) ∷ xs) h = ground (arith, h, key_count-take_out i k c xs)

pub find-none : (i : ℕ) (xs : List (ℕ × ℕ)) → find i xs ≡ none → key_count i xs ≡ 0
find-none i [] h = omega arith
find-none i ((x, d) ∷ xs) h = ground (arith, h, find-none i xs)

open_begin-Tokens : (s : Session) → s.open_seq + 1 < 2 ^ 64 → Tokens s → Tokens (open_begin s).1
unfolding open_begin
open_begin-Tokens s r h i = ground (arith, h i, h (s.open_seq + 1))

open_receive-Tokens : (k : ℕ) (s : Session) → Tokens s → Tokens (open_receive k s)
unfolding open_receive
open_receive-Tokens k s h i = elim (Option-cases (find k s.buffered)) [
  | inl n ↦ ground (arith, n, h i)
  | inr (c, e) ↦ ground (arith, e, h i, key_count-take_out i k c s.buffered e)
]

open_sent-Tokens : (k : ℕ) (ok : Bool) (s : Session) → Tokens s → Tokens (open_sent k ok s)
unfolding open_sent
open_sent-Tokens k true s h i = ground (arith, h i)
open_sent-Tokens k false s h i = ground (arith, h i)

open_sees_closed-Tokens : (k : ℕ) (s : Session) → Tokens s → Tokens (open_sees_closed k s)
unfolding open_sees_closed
open_sees_closed-Tokens k s h i = ground (arith, h i)

open_sees_done-Tokens : (k : ℕ) (s : Session) → Tokens s → Tokens (open_sees_done k s)
unfolding open_sees_done
open_sees_done-Tokens k s h i = ground (arith, h i)

pub abandon-Tokens : (k : ℕ) (s : Session) → Tokens s → Tokens (abandon k s)
unfolding abandon
abandon-Tokens k s h i = elim (Bool-cases (mem k s.pending)) [
  | inl y ↦ ground (arith, y, h i, count-remove i k s.pending y)
  | inr n ↦ ground (arith, n, h i, count_mem k s.pending n)
]

drain-Tokens : (k : ℕ) (s : Session) → Tokens s → Tokens (drain k s)
unfolding drain
drain-Tokens k s h i = elim (Option-cases (find k s.buffered)) [
  | inl n ↦ ground (arith, n, h i)
  | inr (c, e) ↦ ground (arith, e, h i, key_count-take_out i k c s.buffered e)
]

deliver_stream-Tokens :
    (rid : Option ℕ) (c : ℕ) (s : Session) → Tokens s → Tokens (deliver_stream rid c s)
unfolding deliver_stream
deliver_stream-Tokens none c s h i = h i
deliver_stream-Tokens (some k) c s h i = elim (Bool-cases (mem k s.pending)) [
  | inl y ↦ ground (arith, y, h i, count-remove i k s.pending y)
  | inr n ↦ ground (arith, n, h i)
]

send-Tokens : (k : ℕ) (s : Session) → Tokens s → Tokens (send k s)
unfolding send
send-Tokens k s h i = elim (Option-cases (find k s.held)) [
  | inl n ↦ ground (arith, n, h i)
  | inr (c, e) ↦ ground (arith, e, h i, key_count-take_out i k c s.held e)
]

offer_queued-Tokens : (c : ℕ) (s : Session) → Tokens s → Tokens (offer_queued c s)
unfolding offer_queued
offer_queued-Tokens c s h i = ground (arith, h i)

offer_sees_closed-Tokens : (c : ℕ) (s : Session) → Tokens s → Tokens (offer_sees_closed c s)
unfolding offer_sees_closed
offer_sees_closed-Tokens c s h i = ground (arith, h i)

accept-Tokens : (s : Session) → Tokens s → Tokens (accept s).1
unfolding accept
accept-Tokens s h i = ground (arith, h i)

close-Tokens : (s : Session) → Tokens s → Tokens (close s)
unfolding close
close-Tokens s h i = ground (arith, h i)

step-Tokens : (e : Event) (s : Session) → s.open_seq + 1 < 2 ^ 64 → Tokens s → Tokens (step e s)
unfolding step
step-Tokens opens s r h = open_begin-Tokens s r h
step-Tokens (sent i ok) s r h = open_sent-Tokens i ok s h
step-Tokens (receives i) s r h = open_receive-Tokens i s h
step-Tokens (sees_closed i) s r h = open_sees_closed-Tokens i s h
step-Tokens (sees_done i) s r h = open_sees_done-Tokens i s h
step-Tokens (abandons i) s r h = abandon-Tokens i s h
step-Tokens (drains i) s r h = drain-Tokens i s h
step-Tokens (delivers rid c) s r h = deliver_stream-Tokens rid c s h
step-Tokens (sends i) s r h = send-Tokens i s h
step-Tokens (queues c) s r h = offer_queued-Tokens c s h
step-Tokens (drops c) s r h = offer_sees_closed-Tokens c s h
step-Tokens accepts s r h = accept-Tokens s h
step-Tokens closes s r h = close-Tokens s h

step-open_seq : (e : Event) (s : Session) → (step e s).open_seq ≤ s.open_seq + 1
unfolding step open_begin open_sent open_receive open_sees_closed open_sees_done abandon drain
    deliver_stream send offer_queued offer_sees_closed accept close
step-open_seq opens s = ground arith
step-open_seq (sent i ok) s = ground arith
step-open_seq (receives i) s = ground arith
step-open_seq (sees_closed i) s = ground arith
step-open_seq (sees_done i) s = ground arith
step-open_seq (abandons i) s = ground arith
step-open_seq (drains i) s = ground arith
step-open_seq (delivers none c) s = omega arith
step-open_seq (delivers (some i) c) s = ground arith
step-open_seq (sends i) s = ground arith
step-open_seq (queues c) s = ground arith
step-open_seq (drops c) s = ground arith
step-open_seq accepts s = ground arith
step-open_seq closes s = ground arith

pub run-open_seq : (es : List Event) (s : Session) → (run es s).open_seq ≤ s.open_seq + length es
unfolding run
run-open_seq [] s = omega arith
run-open_seq (e ∷ es) s = omega (arith, step-open_seq e s, run-open_seq es (step e s))

-- The request ids do not wrap around in fewer than 2^64 events.
pub run-Tokens :
    (es : List Event) (s : Session) → s.open_seq + length es < 2 ^ 64 → Tokens s → Tokens (run es s)
unfolding run
run-Tokens [] s r h = h
run-Tokens (e ∷ es) s r h =
    let n = step-open_seq e s in
    run-Tokens es (step e s) (omega (arith, n)) (step-Tokens e s (omega arith) h)

pub new_session-Tokens : (rejects : Bool) → Tokens (new_session rejects)
unfolding new_session
new_session-Tokens rejects i = (omega arith, omega arith, λ h. refl)
