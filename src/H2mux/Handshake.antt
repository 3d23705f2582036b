-- ===== src/H2mux/Handshake.antt =====
-- v4/mux/h2mux/handshake.go: the two sides of the exchange on the control stream, whose messages are
-- values. What `Recv` and `Send` answer is an argument.
use tlswrapper.Base.{◌≡◌, refl, if◌then◌else◌, Bool, true, Option, none, some, List, [], ◌∷◌, Str}

pub record Hello : Type 0 where
  pub identity : Str
  pub reject_inbound : Bool

pub data Body : Type 0 where
  client_hello server_hello : Hello → Body
  other : Body

pub data HandshakeError : Type 0 where
  recv_failed send_failed unexpected_message : HandshakeError

pub data Result : Type 0 where
  ok : Hello → Result
  err : HandshakeError → Result

-- What a side takes the peer's message for: its identity and its flag.
unfoldable pub client_reads : Option Body → Result
client_reads none = err recv_failed
client_reads (some (server_hello h)) = ok h
client_reads (some (client_hello h)) = err unexpected_message
client_reads (some other) = err unexpected_message

unfoldable pub server_reads : Option Body → Result
server_reads none = err recv_failed
server_reads (some (client_hello h)) = ok h
server_reads (some (server_hello h)) = err unexpected_message
server_reads (some other) = err unexpected_message

-- The messages sent, and the result.
unfoldable pub do_client_handshake : Bool → Option Body → Hello → List Body × Result
do_client_handshake send_ok received me =
    if send_ok then (client_hello me ∷ [], client_reads received) else ([], err send_failed)

unfoldable pub reply_to : Bool → Hello → Result → List Body × Result
reply_to send_ok me (err e) = ([], err e)
reply_to send_ok me (ok h) = if send_ok then (server_hello me ∷ [], ok h) else ([], err send_failed)

unfoldable pub do_server_handshake : Bool → Option Body → Hello → List Body × Result
do_server_handshake send_ok received me = reply_to send_ok me (server_reads received)

abbrev first : List Body → Option Body
first [] = none
first (m ∷ ms) = some m

-- A client and a server that reach each other: each takes the other's hello for what it is.
pub hellos_meet :
    (client server : Hello)
    → let to_server = first (do_client_handshake true none client).0 in
      let (sent, at_server) = do_server_handshake true to_server server in
      (at_server ≡ ok client) × ((do_client_handshake true (first sent) client).1 ≡ ok server)
unfolding do_client_handshake do_server_handshake reply_to server_reads client_reads
hellos_meet client server = (refl, refl)
