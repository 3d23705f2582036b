-- ===== src/H2mux/Client.antt =====
-- `clientSession` and `recvControlLoop` of v4/mux/h2mux/session.go. What the gRPC client answers to
-- `Stream` is an argument: a connection, or `none` for an error.
use tlswrapper.Base.{
  ℕ, ◌+◌, ◌%◌, ◌^◌, ◌⊎◌, inl, inr, if◌then◌else◌, Bool, Option, none, some, List, [], ◌∷◌,
}
use tlswrapper.H2mux.Session.{
  Session, OpenError, session_closed, inbound_rejected, stream_failed, close, Event, delivers,
  sends,
}

-- The body of a control message. A request id that is empty is `none`.
pub data ControlMessage : Type 0 where
  open_request : (rid : Option ℕ) → ControlMessage
  other : ControlMessage

-- The request ids for which `onOpenRequest` is called, of the messages received before an error.
-- `has_callback` is false where `onOpenRequest` is nil.
unfoldable pub recv_control_loop : Bool → List ControlMessage → List ℕ
recv_control_loop has_callback [] = []
recv_control_loop has_callback (open_request none ∷ msgs) = recv_control_loop has_callback msgs
recv_control_loop has_callback (open_request (some rid) ∷ msgs) =
    let rest = recv_control_loop has_callback msgs in if has_callback then rid ∷ rest else rest
recv_control_loop has_callback (other ∷ msgs) = recv_control_loop has_callback msgs

-- `dialStreamForServer` up to its `select`, which is that of `DeliverStream`.
unfoldable pub dial_stream_for_server : Option ℕ → Session → Session
dial_stream_for_server none s = s
dial_stream_for_server (some c) s = record s { offering = c ∷ s.offering; arrived = c ∷ s.arrived }

-- `dialStreamForServer` for each request id, whose `Stream` call names the id: the server's handler
-- delivers the connection under it, and its deliverer sends it on.
unfoldable pub dial_back : (ℕ → ℕ) → List ℕ → List Event
dial_back conn [] = []
dial_back conn (rid ∷ rids) = delivers (some rid) (conn rid) ∷ sends rid ∷ dial_back conn rids

unfoldable pub open_stream : Option ℕ → Session → (OpenError ⊎ ℕ) × Session
open_stream answer s =
    if s.closed
    then (inl session_closed, s)
    else if s.peer_rejects_inbound
    then (inl inbound_rejected, s)
    else elim answer [
      | none ↦ (inl stream_failed, s)
      | some c ↦ (
        inr c,
        record s {
          returned = c ∷ s.returned;
          arrived = c ∷ s.arrived;
          streams_opened = (s.streams_opened + 1) % 2 ^ 64;
        },
      )
    ]

-- A client session with the number of calls of `streamCtxCancel`.
pub record Client : Type 0 where
  pub session : Session
  pub cancels : ℕ

unfoldable pub close_client : Client → Client
close_client k =
    if k.session.closed then k else record k { session = close k.session; cancels = k.cancels + 1 }
