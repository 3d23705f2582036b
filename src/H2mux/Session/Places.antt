-- ===== src/H2mux/Session/Places.antt =====
-- Where the connections are: each that arrived is in one place.
use tlswrapper.Base.{
  ℕ, suc, ◌+◌, ◌≡◌, refl, inl, inr, ◌==◌, if◌then◌else◌, Bool, Option, none, some, List, [], ◌∷◌,
  mem, count, count-remove, count-append, arith, Bool-cases, Option-cases,
}
use tlswrapper.H2mux.Session.{
  Session, new_session, find, take_out, open_begin, open_sent, open_receive, open_sees_closed,
  open_sees_done, abandon, drain, deliver_stream, send, offer_queued, offer_sees_closed, accept,
  close, Event, opens, sent, receives, sees_closed, sees_done, abandons, drains, delivers, sends,
  queues, drops, accepts, closes, step, run,
}

abbrev pub conn_count : ℕ → List (ℕ × ℕ) → ℕ
conn_count c [] = 0
conn_count c ((k, d) ∷ xs) = if d == c then suc (conn_count c xs) else conn_count c xs

-- How often connection `c` stands with a goroutine or in a channel, and with whoever it was for.
abbrev pub in_flight : ℕ → Session → ℕ
in_flight c s = conn_count c s.held + conn_count c s.buffered + count c s.offering

abbrev pub at_rest : ℕ → Session → ℕ
at_rest c s = count c s.accept_ch + count c s.taken + count c s.returned + count c s.closed_conns

abbrev pub Placed : Session → Type 0
Placed s = (c : ℕ) → in_flight c s + at_rest c s ≡ count c s.arrived

conn_count-take_out :
    (c k d : ℕ) (xs : List (ℕ × ℕ))
    → find k xs ≡ some d
    → conn_count c xs
      ≡ (if d == c then suc (conn_count c (take_out k xs)) else conn_count c (take_out k xs))
unfolding take_out
conn_count-take_out c k d [] h = cc
conn_count-take_out c k d ((x, y) ∷ xs) h = ground (arith, h, conn_count-take_out c k d xs)

open_receive-Placed : (k : ℕ) (s : Session) → Placed s → Placed (open_receive k s)
unfolding open_receive
open_receive-Placed k s h c = elim (Option-cases (find k s.buffered)) [
  | inl n ↦ ground (arith, n, h c)
  | inr (d, e) ↦ ground (arith, e, h c, conn_count-take_out c k d s.buffered e)
]

drain-Placed : (k : ℕ) (s : Session) → Placed s → Placed (drain k s)
unfolding drain
drain-Placed k s h c = elim (Option-cases (find k s.buffered)) [
  | inl n ↦ ground (arith, n, h c)
  | inr (d, e) ↦ ground (arith, e, h c, conn_count-take_out c k d s.buffered e)
]

deliver_stream-Placed :
    (rid : Option ℕ) (d : ℕ) (s : Session) → Placed s → Placed (deliver_stream rid d s)
unfolding deliver_stream
deliver_stream-Placed none d s h c = ground (arith, h c)
deliver_stream-Placed (some k) d s h c = ground (arith, h c)

send-Placed : (k : ℕ) (s : Session) → Placed s → Placed (send k s)
unfolding send
send-Placed k s h c = elim (Option-cases (find k s.held)) [
  | inl n ↦ ground (arith, n, h c)
  | inr (d, e) ↦ ground (arith, e, h c, conn_count-take_out c k d s.held e)
]

offer_queued-Placed : (d : ℕ) (s : Session) → Placed s → Placed (offer_queued d s)
unfolding offer_queued
offer_queued-Placed d s h c = elim (Bool-cases (mem d s.offering)) [
  | inl y ↦
      ground (arith, y, h c, count-remove c d s.offering y, count-append c s.accept_ch (d ∷ []))
  | inr n ↦ ground (arith, n, h c)
]

offer_sees_closed-Placed : (d : ℕ) (s : Session) → Placed s → Placed (offer_sees_closed d s)
unfolding offer_sees_closed
offer_sees_closed-Placed d s h c = elim (Bool-cases (mem d s.offering)) [
  | inl y ↦ ground (arith, y, h c, count-remove c d s.offering y)
  | inr n ↦ ground (arith, n, h c)
]

queue-Placed : (s : Session) (q : List ℕ) → s.accept_ch ≡ q → Placed s → Placed (accept s).1
unfolding accept
queue-Placed s [] e h c = ground (arith, e, h c)
queue-Placed s (d ∷ q) e h c = ground (arith, e, h c)

step-Placed : (e : Event) (s : Session) → Placed s → Placed (step e s)
unfolding step open_begin open_sent open_sees_closed open_sees_done abandon close
step-Placed opens s h c = ground (arith, h c)
step-Placed (sent i ok) s h c = ground (arith, h c)
step-Placed (receives i) s h c = open_receive-Placed i s h c
step-Placed (sees_closed i) s h c = ground (arith, h c)
step-Placed (sees_done i) s h c = ground (arith, h c)
step-Placed (abandons i) s h c = ground (arith, h c)
step-Placed (drains i) s h c = drain-Placed i s h c
step-Placed (delivers rid d) s h c = deliver_stream-Placed rid d s h c
step-Placed (sends i) s h c = send-Placed i s h c
step-Placed (queues d) s h c = offer_queued-Placed d s h c
step-Placed (drops d) s h c = offer_sees_closed-Placed d s h c
step-Placed accepts s h c = queue-Placed s s.accept_ch refl h c
step-Placed closes s h c = ground (arith, h c)

pub run-Placed : (es : List Event) (s : Session) → Placed s → Placed (run es s)
unfolding run
run-Placed [] s h = h
run-Placed (e ∷ es) s h = run-Placed es (step e s) (step-Placed e s h)

pub new_session-Placed : (rejects : Bool) → Placed (new_session rejects)
unfolding new_session
new_session-Placed rejects c = refl
