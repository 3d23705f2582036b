-- ===== src/H3mux/Connect.antt =====
-- `clientHandshake`, `serverHandshake` and `h3InboundSession` of v4/mux/h3mux/connect.go: from a QUIC
-- connection to a session. QUIC's answers, the JSON package and the bytes of the peer are arguments.
pub mod Agrees
use tlswrapper.Base.{
  ℕ, suc, ◌+◌, ◌⊎◌, inl, inr, Str, if◌then◌else◌, Bool, true, false, Option, none, some, List, [],
  ◌∷◌,
}
use tlswrapper.H3mux.Handshake.{
  Json, Writer, HandshakeError, Result, ok, err, do_client_handshake, do_server_handshake,
}
use tlswrapper.H3mux.Session.{Session, new_h3_session, close}

-- The connection: the calls of its `CloseWithError`, and the deadline of the control stream.
pub record Link : Type 0 where
  pub closes : ℕ
  pub deadline : Option ℕ

pub data ConnectError : Type 0 where
  no_control : ConnectError
  handshake_failed : HandshakeError → ConnectError

-- `ctrl` is the control stream, with what the peer sends on it, if QUIC gives one.
pub record Setup : Type 0 where
  pub json : Json
  pub writer : Writer
  pub ctrl : Option (List ℕ)
  pub ctx_deadline : Option ℕ
  pub local_id : Str
  pub reject_inbound : Bool

unfoldable pub apply_handshake_deadline : Option ℕ → Link → Link
apply_handshake_deadline none l = l
apply_handshake_deadline (some d) l = record l { deadline = some d }

-- What follows the exchange: the session, with the identity of the peer.
unfoldable pub finish : Result (Str × Bool) → Link → (ConnectError ⊎ (Str × Session)) × Link
finish (err e) l = (inl (handshake_failed e), record l { closes = l.closes + 1 })
finish (ok (peer_id, rejects)) l =
    (inr (peer_id, new_h3_session rejects), record l { deadline = none })

unfoldable pub client_handshake : Setup → Link → (ConnectError ⊎ (Str × Session)) × Link
client_handshake c l = elim c.ctrl [
  | none ↦ (inl no_control, record l { closes = l.closes + 1 })
  | some incoming ↦
      finish (do_client_handshake c.json c.writer incoming c.local_id c.reject_inbound).1
        (apply_handshake_deadline c.ctx_deadline l)
]

unfoldable pub server_handshake : Setup → Link → (ConnectError ⊎ (Str × Session)) × Link
server_handshake c l = elim c.ctrl [
  | none ↦ (inl no_control, record l { closes = l.closes + 1 })
  | some incoming ↦
      finish (do_server_handshake c.json c.writer incoming c.local_id c.reject_inbound).1
        (apply_handshake_deadline c.ctx_deadline l)
]

-- `h3InboundSession`: the result of the handshake, once it is done.
pub record Inbound : Type 0 where
  pub link : Link
  pub done : Option (ConnectError ⊎ (Str × Session))

-- `doHandshake`, under the mutex. A later call finds the result.
unfoldable pub do_handshake : Setup → Inbound → Inbound
do_handshake c s = elim s.done [
  | some r ↦ s
  | none ↦ let (r, l) = server_handshake c s.link in record { link = l; done = some r }
]

-- `Close`
unfoldable pub close_inbound : Inbound → Inbound
close_inbound s = elim s.done [
  | none ↦ record s { link = record s.link { closes = s.link.closes + 1 } }
  | some (inl e) ↦ s
  | some (inr (peer_id, ss)) ↦ record s { done = some (inr (peer_id, close ss)) }
]
