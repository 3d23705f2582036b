-- ===== src/H3mux/Listener.antt =====
-- `H3Listener` of v4/mux/h3mux/connect.go: a listener and the connections that it tracks, an event at a
-- time and in any order. A connection is a number.
pub mod Tells
use tlswrapper.Base.{
  ℕ, if◌then◌else◌, Bool, true, false, ◌&&◌, not, List, [], ◌∷◌, ◌++◌, mem, remove,
}

-- `owned` is whether `ListenMux` made the listener, so that `tr` and `pconn` are there. `ended` are
-- the connections whose context is done, `told` those that `Close` sent the close frame, `pending`
-- those that `Accept` has from QUIC and has not returned yet, `accepted` those that it has returned.
pub record Listener : Type 0 where
  pub owned : Bool
  pub closed : Bool
  pub tr_closed : Bool
  pub conns : List ℕ
  pub ended : List ℕ
  pub told : List ℕ
  pub pending : List ℕ
  pub accepted : List ℕ

-- `NewListener` and `ListenMux`
unfoldable pub new_listener : Bool → Listener
new_listener owned = record {
  owned = owned;
  closed = false;
  tr_closed = false;
  conns = [];
  ended = [];
  told = [];
  pending = [];
  accepted = [];
}

-- `l.conns[conn] = struct{}{}`
unfoldable pub track_conn : ℕ → Listener → Listener
track_conn c l = record l { conns = if mem c l.conns then l.conns else c ∷ l.conns }

-- `Accept`, when QUIC's listener returns a connection: none once it is closed.
unfoldable pub accept_begin : ℕ → Listener → Listener
accept_begin c l = if l.closed then l else record l { pending = c ∷ l.pending }

-- The rest of `Accept`, for a connection that it has.
unfoldable pub accept_end : ℕ → Listener → Listener
accept_end c l =
    if mem c l.pending
    then (let l' = if l.owned then track_conn c l else l in
        record l' { pending = remove c l'.pending; accepted = c ∷ l'.accepted })
    else l

-- The goroutine that `trackConn` starts: it goes on when the context is done.
unfoldable pub untrack_conn : ℕ → Listener → Listener
untrack_conn c l = if mem c l.ended then record l { conns = remove c l.conns } else l

-- `Close`
unfoldable pub close : Listener → Listener
close l =
    let l' = record l { closed = true } in
    if l'.owned then record l' { told = l'.conns ++ l'.told; tr_closed = true } else l'

pub data Event : Type 0 where
  begin_accept end_accept context_ends untracks : (c : ℕ) → Event
  closes : Event

unfoldable pub step : Event → Listener → Listener
step (begin_accept c) l = accept_begin c l
step (end_accept c) l = accept_end c l
step (context_ends c) l = record l { ended = c ∷ l.ended }
step (untracks c) l = untrack_conn c l
step closes l = close l

unfoldable pub run : List Event → Listener → Listener
run [] l = l
run (e ∷ es) l = run es (step e l)
