-- ===== src/H3mux/Handshake/Exchange.antt =====
-- The two sides of the handshake together.
use tlswrapper.Base.{ℕ, ◌≡◌, refl, ap, inl, inr, Bool, true, none, List, ◌++◌, Str, Option-cases}
use tlswrapper.H3mux.Utf8.{is_utf8}
use tlswrapper.H3mux.Handshake.{
  HandshakeMsg, Json, ok, Writer, write_handshake, read_handshake, peer_of, do_client_handshake,
  do_server_handshake,
}
use tlswrapper.H3mux.Handshake.Framing.{IsJson, read_handshake-write_handshake}

abbrev pub hello : Str → Bool → HandshakeMsg
hello id reject = record { identity = id; reject_inbound = reject }

-- What each side sends depends on the other as the code says: the client sends before it reads.
client_sent :
    (json : Json) (w : Writer) (incoming : List ℕ) (id : Str) (reject : Bool)
    → (do_client_handshake json w incoming id reject).0
      ≡ (write_handshake json w (hello id reject)).0
unfolding do_client_handshake
client_sent json w incoming id reject =
    elim (Option-cases (write_handshake json w (hello id reject)).1) [
      | inl e ↦ rw (do_client_handshake, e) refl
      | inr (x, e) ↦ rw (do_client_handshake, e) refl
    ]

-- Each side on what the other has written, where its own write reports no error.
server_side :
    (json : Json) (w : Writer) (id : Str) (reject : Bool) (msg : HandshakeMsg)
    (incoming rest : List ℕ)
    → read_handshake json incoming ≡ ok (msg, rest)
    → (write_handshake json w (hello id reject)).1 ≡ none
    → do_server_handshake json w incoming id reject
      ≡ ((write_handshake json w (hello id reject)).0, ok (msg.identity, msg.reject_inbound))
unfolding do_server_handshake
server_side json w id reject msg incoming rest r e = rw (do_server_handshake, r, e) refl

client_side :
    (json : Json) (w : Writer) (id : Str) (reject : Bool) (msg : HandshakeMsg)
    (incoming rest : List ℕ)
    → read_handshake json incoming ≡ ok (msg, rest)
    → (write_handshake json w (hello id reject)).1 ≡ none
    → (do_client_handshake json w incoming id reject).1 ≡ ok (msg.identity, msg.reject_inbound)
unfolding do_client_handshake peer_of
client_side json w id reject msg incoming rest r e = rw (do_client_handshake, e, r) refl

-- Where a client and a server run the handshake with each other and neither write reports an error,
-- each side learns the identity and the flag of the other, whatever either of them sends after it.
-- The identities are in UTF-8, of which the JSON package is assumed to decode what it encodes.
pub handshake_agrees :
    (json : Json) (cw sw : Writer) (cid sid : Str) (crej srej : Bool)
    (to_server to_client more more' : List ℕ)
    → IsJson json
    → is_utf8 cid ≡ true
    → is_utf8 sid ≡ true
    → (write_handshake json cw (hello cid crej)).1 ≡ none
    → (write_handshake json sw (hello sid srej)).1 ≡ none
    → to_server ≡ (do_client_handshake json cw to_client cid crej).0 ++ more
    → to_client ≡ (do_server_handshake json sw to_server sid srej).0 ++ more'
    → ((do_server_handshake json sw to_server sid srej).1 ≡ ok (cid, crej))
      × ((do_client_handshake json cw to_client cid crej).1 ≡ ok (sid, srej))
handshake_agrees json cw sw cid sid crej srej to_server to_client more more' law cu su cok sok ts
      tc =
    let at_server : read_handshake json to_server ≡ ok (hello cid crej, more) =
      rw (ts, client_sent json cw to_client cid crej)
        (read_handshake-write_handshake json cw (hello cid crej) more law cu cok) in
    let server = server_side json sw sid srej (hello cid crej) to_server more at_server sok in
    let at_client : read_handshake json to_client ≡ ok (hello sid srej, more') =
      rw (tc, server) (read_handshake-write_handshake json sw (hello sid srej) more' law su sok) in
    (
      ap (λ p. p.1) server,
      client_side json cw cid crej (hello sid srej) to_client more' at_client cok,
    )
