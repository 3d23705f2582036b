-- ===== src/H3mux/Tests.antt =====
-- A format that decodes what it encodes: the flag and then the identity.
use tlswrapper.Base.{
  ℕ, suc, ◌≡◌, refl, true, false, Option, none, some, List, [], ◌∷◌, if◌then◌else◌, lit, arith,
  ◌==◌,
}
use tlswrapper.H3mux.Session.{
  Conn, Call, opens, open_streams, accept_streams, close_streams, calls, call, open_stream,
  accept_stream, wrap_stream, close_stream, on_stream_close, new_h3_session,
}
use tlswrapper.H3mux.Session.Counted.{open_count, idle_after_last_close}
use tlswrapper.H3mux.Handshake.{
  HandshakeMsg, Json, Writer, put_uint32, write_handshake, uint32, read_full, read_handshake,
  do_client_handshake, do_server_handshake,
}
use tlswrapper.H3mux.Handshake.Framing.{IsJson}
use tlswrapper.Base.{◌↔◌, inl, All}
use tlswrapper.H3mux.Session.{inbound_rejected}
use tlswrapper.H3mux.Connect.{Link, Setup, client_handshake, server_handshake}
use tlswrapper.H3mux.Connect.Agrees.{Joined, sessions_agree}
use tlswrapper.H3mux.Listener.{
  Event, begin_accept, end_accept, context_ends, untracks, run, close, new_listener,
}
use tlswrapper.H3mux.Listener.Tells.{HasEnd, WasReturned, close_tells}

abbrev encode : HandshakeMsg → Option (List ℕ)
encode msg = some ((if msg.reject_inbound then 1 else 0) ∷ msg.identity)

abbrev decode : List ℕ → Option HandshakeMsg
decode [] = none
decode (x ∷ xs) = some (record { identity = xs; reject_inbound = x == 1 })

abbrev plain : Json
plain = record { marshal = encode; unmarshal = decode }

plain-IsJson : IsJson plain
plain-IsJson msg body u h = ground (arith, h)

abbrev working : Writer
working = record { header_goes = true; body_goes = true }

-- The bytes of the two hellos, with a byte after the client's.
abbrev to_server : List ℕ
to_server = 0 ∷ 0 ∷ 0 ∷ 2 ∷ 0 ∷ 65 ∷ 7 ∷ []

abbrev to_client : List ℕ
to_client = 0 ∷ 0 ∷ 0 ∷ 2 ∷ 1 ∷ 66 ∷ []

-- An accepted stream that was closed, and one that is open.
abbrev two_streams : List Call
two_streams =
    open_streams opens false
    ∷ accept_streams (some (0 ∷ 1 ∷ []))
    ∷ close_streams 1
    ∷ close_streams 1
    ∷ []

abbrev opened : Conn
opened = record { arriving = []; strip_marker = false; fired = false; errored = false }

idle_after_last_close_example :
    let s = calls two_streams (new_h3_session false) in
    let t = close_stream 0 s in
    (s.num_streams ≡ open_count s)
    × (open_count s ≡ suc (open_count t))
    × (t.idle ≡ (if open_count t == 0 then true else s.idle))
unfolding calls call open_stream accept_stream wrap_stream close_stream new_h3_session
    on_stream_close
idle_after_last_close_example =
    idle_after_last_close false two_streams 0 opened (omega arith) refl refl

abbrev client_setup : Setup
client_setup = record {
  json = plain;
  writer = working;
  ctrl = some to_client;
  ctx_deadline = some 90;
  local_id = lit "A";
  reject_inbound = false;
}

abbrev server_setup : Setup
server_setup = record {
  json = plain;
  writer = working;
  ctrl = some to_server;
  ctx_deadline = none;
  local_id = lit "B";
  reject_inbound = true;
}

abbrev fresh : Link
fresh = record { closes = 0; deadline = none }

sessions_agree_example :
    Joined (lit "B") true fresh (client_handshake client_setup fresh)
    × Joined (lit "A") false fresh (server_handshake server_setup fresh)
    × (((open_stream opens false (new_h3_session true)).0 ≡ inl inbound_rejected) ↔ (true ≡ true))
    × (((open_stream opens false (new_h3_session false)).0 ≡ inl inbound_rejected) ↔ (false ≡ true))
unfolding do_client_handshake do_server_handshake write_handshake put_uint32 read_handshake
    read_full uint32
sessions_agree_example =
    sessions_agree client_setup server_setup fresh fresh to_server to_client (7 ∷ []) [] opens false
      refl plain-IsJson refl refl refl refl refl refl refl refl

-- Three connections come; one ends, and one is not returned yet.
abbrev arrivals : List Event
arrivals =
    begin_accept 1
    ∷ end_accept 1
    ∷ begin_accept 2
    ∷ end_accept 2
    ∷ context_ends 1
    ∷ untracks 1
    ∷ begin_accept 3
    ∷ []

close_tells_example :
    let l = close (run arrivals (new_listener true)) in
    All (HasEnd l) l.accepted × All (WasReturned l) l.told
close_tells_example = close_tells arrivals
