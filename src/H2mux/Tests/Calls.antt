-- ===== src/H2mux/Tests/Calls.antt =====
-- Two calls of `Open`, one of which gives up while its connection is on the way.
use tlswrapper.Base.{
  ◌≡◌, ◌+◌, remove, ◌++◌, refl, inr, true, false, List, [], ◌∷◌, none, some, count, arith,
}
use tlswrapper.H2mux.Session.{
  Session, new_session, failed, context_done, opened, open_begin, take_out, Event, opens, sent,
  receives, sees_done, abandons, drains, delivers, sends, queues, step, run, drain, abandon,
  offer_queued, deliver_stream, open_receive, send, open_sees_done, open_sent,
}
use tlswrapper.H2mux.Session.Places.{at_rest}
use tlswrapper.H2mux.Session.Resolved.{IsQuiet, no_conn_is_lost, give_up, giving_up_ends}
use tlswrapper.H2mux.Session.Dialed.{open_is_dialed_back}
use tlswrapper.H2mux.Client.{open_request, other, dial_back, recv_control_loop}

abbrev two_calls : List Event
two_calls =
    opens
    ∷ sent 1 true
    ∷ opens
    ∷ sent 2 true
    ∷ delivers (some 1) 10
    ∷ sees_done 1
    ∷ sends 1
    ∷ delivers (some 2) 20
    ∷ sends 2
    ∷ receives 2
    ∷ delivers none 30
    ∷ queues 30
    ∷ []

abbrev all_ended : List Event
all_ended = two_calls ++ (abandons 1 ∷ drains 1 ∷ [])

abbrev after : List Event → Session
after es = run es (new_session false)

all_ended-IsQuiet : IsQuiet (after all_ended)
unfolding run step drain abandon offer_queued deliver_stream open_receive send open_sees_done
    open_sent open_begin new_session remove take_out
all_ended-IsQuiet = record { ended = λ i. ground arith; offered = refl }

no_conn_is_lost_example : at_rest 10 (after all_ended) ≡ count 10 (after all_ended).arrived
no_conn_is_lost_example = no_conn_is_lost false all_ended 10 (omega arith) all_ended-IsQuiet

giving_up_ends_example : (run (give_up 1) (after two_calls)).phases 1 ≡ failed context_done
unfolding run step drain abandon offer_queued deliver_stream open_receive send open_sees_done
    open_sent open_begin new_session remove take_out
giving_up_ends_example = giving_up_ends false two_calls 1 context_done (omega arith) refl

open_is_dialed_back_example :
    let s = after two_calls in
    let rids = recv_control_loop true (open_request (some 3) ∷ []) in
    let dialed = dial_back (λ i. i + 100) rids in
    ((open_begin s).0 ≡ inr 3)
    × (rids ≡ 3 ∷ [])
    × ((run (opens ∷ sent 3 true ∷ dialed ++ (receives 3 ∷ [])) s).phases 3 ≡ opened 103)
    × (recv_control_loop true (open_request (some 4) ∷ other ∷ []) ≡ 4 ∷ [])
unfolding run step drain abandon offer_queued deliver_stream open_receive send open_sees_done
    open_sent open_begin new_session remove take_out
open_is_dialed_back_example =
    open_is_dialed_back two_calls (λ i. i + 100) (open_request (some 4) ∷ other ∷ []) (omega arith)
      refl refl
