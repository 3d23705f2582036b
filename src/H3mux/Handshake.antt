-- ===== src/H3mux/Handshake.antt =====
-- v4/mux/h3mux/handshake.go: the messages on the control stream, as bytes, and the two sides of the
-- exchange. The JSON package is outside: its two functions are an argument.
pub mod Framing
pub mod Exchange
use tlswrapper.Base.{
  ℕ, ◌+◌, ◌-◌, ◌*◌, ◌/◌, ◌%◌, ◌^◌, ltb, if◌then◌else◌, Bool, true, false, Option, none, some, List,
  [], ◌∷◌, ◌++◌, Str, length, take, drop,
}

pub record HandshakeMsg : Type 0 where
  pub identity : Str
  pub reject_inbound : Bool

pub record Json : Type 0 where
  pub marshal : HandshakeMsg → Option (List ℕ)
  pub unmarshal : List ℕ → Option HandshakeMsg

abbrev pub max_handshake_msg_size : ℕ
max_handshake_msg_size = 4096

-- `ErrHandshakeFailed`, with what failed.
pub data HandshakeError : Type 0 where
  json_encode too_large write_header write_body read_header read_body json_decode : HandshakeError

pub data Result {ℓ} (A : Type ℓ) : Type ℓ where
  ok : A → Result A
  err : HandshakeError → Result A

-- `binary.BigEndian`
unfoldable pub put_uint32 : ℕ → List ℕ
put_uint32 v = v / 2 ^ 24 % 256 ∷ v / 2 ^ 16 % 256 ∷ v / 2 ^ 8 % 256 ∷ v % 256 ∷ []

unfoldable pub uint32 : List ℕ → ℕ
uint32 (a ∷ b ∷ c ∷ d ∷ rest) = a * 2 ^ 24 + b * 2 ^ 16 + c * 2 ^ 8 + d
uint32 _ = 0

-- `io.ReadFull` of `n` bytes: these and what follows, or none where the stream ends before.
unfoldable pub read_full : ℕ → List ℕ → Option (List ℕ × List ℕ)
read_full n r = if ltb (length r) n then none else some (take n r, drop n r)

-- The two writes of `writeHandshake` succeed, or one of them fails having written nothing.
pub record Writer : Type 0 where
  pub header_goes : Bool
  pub body_goes : Bool

-- The bytes written, and the error if there is one.
unfoldable pub write_handshake : Json → Writer → HandshakeMsg → List ℕ × Option HandshakeError
write_handshake json w msg = elim (json.marshal msg) [
  | none ↦ ([], some json_encode)
  | some body ↦
      if ltb max_handshake_msg_size (length body)
      then ([], some too_large)
      else let hdr = put_uint32 (length body % 2 ^ 32) in
        if w.header_goes
        then if w.body_goes then (hdr ++ body, none) else (hdr, some write_body)
        else ([], some write_header)
]

-- The message and what follows it.
unfoldable pub read_handshake : Json → List ℕ → Result (HandshakeMsg × List ℕ)
read_handshake json r = elim (read_full 4 r) [
  | none ↦ err read_header
  | some (hdr, rest) ↦
      if ltb max_handshake_msg_size (uint32 hdr)
      then err too_large
      else elim (read_full (uint32 hdr) rest) [
        | none ↦ err read_body
        | some (buf, left) ↦ elim (json.unmarshal buf) [
          | none ↦ err json_decode
          | some msg ↦ ok (msg, left)
        ]
      ]
]

-- The identity and the flag of the peer, or the error; and what was written.
unfoldable pub peer_of : Result (HandshakeMsg × List ℕ) → Result (Str × Bool)
peer_of (ok (msg, rest)) = ok (msg.identity, msg.reject_inbound)
peer_of (err e) = err e

unfoldable pub do_client_handshake :
    Json → Writer → List ℕ → Str → Bool → List ℕ × Result (Str × Bool)
do_client_handshake json w incoming local_id reject_inbound =
    let (sent, failed) =
      write_handshake json w (record { identity = local_id; reject_inbound = reject_inbound }) in
    elim failed [ some e ↦ (sent, err e) | none ↦ (sent, peer_of (read_handshake json incoming)) ]

unfoldable pub do_server_handshake :
    Json → Writer → List ℕ → Str → Bool → List ℕ × Result (Str × Bool)
do_server_handshake json w incoming local_id reject_inbound = elim (read_handshake json incoming) [
  | err e ↦ ([], err e)
  | ok (hello, rest) ↦
      let (sent, failed) =
        write_handshake json w (record { identity = local_id; reject_inbound = reject_inbound }) in
      elim failed [
        | some e ↦ (sent, err e)
        | none ↦ (sent, ok (hello.identity, hello.reject_inbound))
      ]
]
