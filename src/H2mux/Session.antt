-- ===== src/H2mux/Session.antt =====
-- `session` and `serverSession` of v4/mux/h2mux/session.go: the calls of `Open`, the deliveries of
-- `DeliverStream`, `Accept` and `Close`, a step at a time and in any order. A connection is a number.
-- The channel of a call is known by its request id, and so is the call.
pub mod Tokens
pub mod Places
pub mod Resolved
pub mod Dialed
use tlswrapper.Base.{
  ℕ, ◌+◌, ◌%◌, ◌^◌, ◌⊎◌, inl, inr, ltb, ◌==◌, if◌then◌else◌, Bool, true, false, ◌&&◌, Option, none,
  some, List, [], ◌∷◌, ◌++◌, mem, remove, length,
}

pub data OpenError : Type 0 where
  session_closed inbound_rejected send_failed context_done stream_failed : OpenError

-- Where the `Open` call of a request id stands. `idle` is an id that is not given out;
-- `giving_up e` is before `abandon`, and `draining e` is in `<-ch` after it.
pub data Phase : Type 0 where
  idle sending waiting : Phase
  giving_up draining : OpenError → Phase
  opened : ℕ → Phase
  failed : OpenError → Phase

-- `held` are the deliverers that have claimed a waiter and not sent yet; `buffered` is what the
-- channels of the calls hold; `offering` are the deliverers in the `select` on `acceptCh`.
-- `returned`, `taken` and `closed_conns` are the connections that `Open` and `Accept` have
-- returned and those that were closed; `arrived` are all that came.
pub record Session : Type 0 where
  pub closed : Bool  -- `closedCh`
  pub cleanups : ℕ  -- calls of `cleanup`
  pub peer_rejects_inbound : Bool
  pub open_seq : ℕ  -- uint64
  pub pending : List ℕ  -- the keys of the map
  pub phases : ℕ → Phase
  pub held : List (ℕ × ℕ)
  pub buffered : List (ℕ × ℕ)
  pub offering : List ℕ
  pub accept_ch : List ℕ
  pub returned : List ℕ
  pub taken : List ℕ
  pub closed_conns : List ℕ
  pub arrived : List ℕ
  pub streams_opened : ℕ  -- uint64
  pub streams_accepted : ℕ  -- uint64

unfoldable pub new_session : Bool → Session
new_session rejects = record {
  closed = false;
  cleanups = 0;
  peer_rejects_inbound = rejects;
  open_seq = 0;
  pending = [];
  phases = λ i. idle;
  held = [];
  buffered = [];
  offering = [];
  accept_ch = [];
  returned = [];
  taken = [];
  closed_conns = [];
  arrived = [];
  streams_opened = 0;
  streams_accepted = 0;
}

-- The connection under a request id.
abbrev pub find : ℕ → List (ℕ × ℕ) → Option ℕ
find i [] = none
find i ((k, c) ∷ xs) = if k == i then some c else find i xs

unfoldable pub take_out : ℕ → List (ℕ × ℕ) → List (ℕ × ℕ)
take_out i [] = []
take_out i ((k, c) ∷ xs) = if k == i then xs else (k, c) ∷ take_out i xs

abbrev pub set_phase : ℕ → Phase → (ℕ → Phase) → ℕ → Phase
set_phase i p f j = if j == i then p else f j

-- `Open` up to the registration of its channel. It fails at once, or has a request id.
unfoldable pub open_begin : Session → (OpenError ⊎ ℕ) × Session
open_begin s =
    let rid = (s.open_seq + 1) % 2 ^ 64 in
    if s.closed
    then (inl session_closed, s)
    else if s.peer_rejects_inbound
    then (inl inbound_rejected, s)
    else (
      inr rid,
      record s {
        open_seq = rid;
        pending = rid ∷ s.pending;
        phases = set_phase rid sending s.phases;
      },
    )

-- The result of `ctrl.Send`.
unfoldable pub open_sent : ℕ → Bool → Session → Session
open_sent i ok s = elim (s.phases i) [
  | sending ↦ record s {
    phases = set_phase i (if ok then waiting else giving_up send_failed) s.phases;
  }
  | _ ↦ s
]

-- The three arms of the `select` of `Open`.
unfoldable pub open_receive : ℕ → Session → Session
open_receive i s = elim (s.phases i) [
  | waiting ↦ elim (find i s.buffered) [
    | none ↦ s
    | some c ↦ record s {
      phases = set_phase i (opened c) s.phases;
      buffered = take_out i s.buffered;
      returned = c ∷ s.returned;
      streams_opened = (s.streams_opened + 1) % 2 ^ 64;
    }
  ]
  | _ ↦ s
]

unfoldable pub open_sees_closed : ℕ → Session → Session
open_sees_closed i s = elim (s.phases i) [
  | waiting ↦
      if s.closed then record s { phases = set_phase i (giving_up session_closed) s.phases } else s
  | _ ↦ s
]

unfoldable pub open_sees_done : ℕ → Session → Session
open_sees_done i s = elim (s.phases i) [
  | waiting ↦ record s { phases = set_phase i (giving_up context_done) s.phases }
  | _ ↦ s
]

-- `abandon`, under the lock.
unfoldable pub abandon : ℕ → Session → Session
abandon i s = elim (s.phases i) [
  | giving_up e ↦
      if mem i s.pending
      then record s { pending = remove i s.pending; phases = set_phase i (failed e) s.phases }
      else record s { phases = set_phase i (draining e) s.phases }
  | _ ↦ s
]

-- `_ = (<-ch).Close()`, which waits for a connection.
unfoldable pub drain : ℕ → Session → Session
drain i s = elim (s.phases i) [
  | draining e ↦ elim (find i s.buffered) [
    | none ↦ s
    | some c ↦ record s {
      phases = set_phase i (failed e) s.phases;
      buffered = take_out i s.buffered;
      closed_conns = c ∷ s.closed_conns;
    }
  ]
  | _ ↦ s
]

-- `DeliverStream` up to its send. `none` is the empty request id.
unfoldable pub deliver_stream : Option ℕ → ℕ → Session → Session
deliver_stream none c s = record s { offering = c ∷ s.offering; arrived = c ∷ s.arrived }
deliver_stream (some i) c s =
    if mem i s.pending
    then record s { pending = remove i s.pending; held = (i, c) ∷ s.held; arrived = c ∷ s.arrived }
    else record s { closed_conns = c ∷ s.closed_conns; arrived = c ∷ s.arrived }

-- `ch <- conn`. The channel holds one connection; a full one blocks.
unfoldable pub send : ℕ → Session → Session
send i s = elim (find i s.held) [
  | none ↦ s
  | some c ↦ elim (find i s.buffered) [
    | none ↦ record s { held = take_out i s.held; buffered = (i, c) ∷ s.buffered }
    | some d ↦ s
  ]
]

abbrev pub accept_backlog : ℕ
accept_backlog = 16

-- The arms of the `select` on `acceptCh`, for a deliverer of `c`.
unfoldable pub offer_queued : ℕ → Session → Session
offer_queued c s =
    if mem c s.offering && ltb (length s.accept_ch) accept_backlog
    then record s {
      offering = remove c s.offering;
      accept_ch = s.accept_ch ++ (c ∷ []);
      streams_accepted = (s.streams_accepted + 1) % 2 ^ 64;
    }
    else s

unfoldable pub offer_sees_closed : ℕ → Session → Session
offer_sees_closed c s =
    if mem c s.offering && s.closed
    then record s { offering = remove c s.offering; closed_conns = c ∷ s.closed_conns }
    else s

-- `Accept` returns a queued connection, also from a closed session. `none` is a call that blocks.
unfoldable pub accept : Session → Option (OpenError ⊎ ℕ) × Session
accept s = elim s.accept_ch [
  | [] ↦ (if s.closed then some (inl session_closed) else none, s)
  | c ∷ cs ↦ (some (inr c), record s { accept_ch = cs; taken = c ∷ s.taken })
]

-- `closeOnce` is `closed`.
unfoldable pub close : Session → Session
close s = if s.closed then s else record s { closed = true; cleanups = s.cleanups + 1 }

pub data Event : Type 0 where
  opens : Event
  sent : (i : ℕ) (ok : Bool) → Event
  receives sees_closed sees_done abandons drains : (i : ℕ) → Event
  delivers : (rid : Option ℕ) (c : ℕ) → Event
  sends : (i : ℕ) → Event
  queues drops : (c : ℕ) → Event
  accepts closes : Event

unfoldable pub step : Event → Session → Session
step opens s = (open_begin s).1
step (sent i ok) s = open_sent i ok s
step (receives i) s = open_receive i s
step (sees_closed i) s = open_sees_closed i s
step (sees_done i) s = open_sees_done i s
step (abandons i) s = abandon i s
step (drains i) s = drain i s
step (delivers rid c) s = deliver_stream rid c s
step (sends i) s = send i s
step (queues c) s = offer_queued c s
step (drops c) s = offer_sees_closed c s
step accepts s = (accept s).1
step closes s = close s

unfoldable pub run : List Event → Session → Session
run [] s = s
run (e ∷ es) s = run es (step e s)
