-- ===== src/H3mux/Connect/Agrees.antt =====
-- What the two ends of a connection come to agree on.
use tlswrapper.Base.{
  ℕ, ◌≡◌, ◌⊎◌, ◌↔◌, refl, sym, inl, inr, Str, Bool, true, false, Option, none, some, List, ◌++◌,
  arith, Option-cases,
}
use tlswrapper.H3mux.Utf8.{is_utf8}
use tlswrapper.H3mux.Handshake.{
  Result, ok, write_handshake, do_client_handshake, do_server_handshake,
}
use tlswrapper.H3mux.Handshake.Framing.{IsJson}
use tlswrapper.H3mux.Handshake.Exchange.{hello, handshake_agrees}
use tlswrapper.H3mux.Session.{
  Session, inbound_rejected, OpenAnswer, opens, no_stream, no_marker, open_error, open_stream,
  new_h3_session,
}
use tlswrapper.H3mux.Connect.{
  Link, ConnectError, Setup, apply_handshake_deadline, finish, client_handshake, server_handshake,
  Inbound, do_handshake,
}

-- The end of a handshake that succeeds: the session knows the peer, the connection is open, and no
-- deadline is left.
pub record Joined (peer_id : Str) (rejects : Bool) (l : Link)
    (r : (ConnectError ⊎ (Str × Session)) × Link) : Type 0 where
  pub session : r.0 ≡ inr (peer_id, new_h3_session rejects)
  pub kept_open : r.1.closes ≡ l.closes
  pub cleared : r.1.deadline ≡ none

finish-Joined :
    (peer_id : Str) (rejects : Bool) (r : Result (Str × Bool)) (d : Option ℕ) (l : Link)
    → r ≡ ok (peer_id, rejects)
    → Joined peer_id rejects l (finish r (apply_handshake_deadline d l))
unfolding finish apply_handshake_deadline
finish-Joined peer_id rejects r none l e = record {
  session = rw e refl;
  kept_open = rw e refl;
  cleared = rw e refl;
}
finish-Joined peer_id rejects r (some d) l e = record {
  session = rw e refl;
  kept_open = rw e refl;
  cleared = rw e refl;
}

client-Joined :
    (c : Setup) (l : Link) (incoming : List ℕ) (peer_id : Str) (rejects : Bool)
    → c.ctrl ≡ some incoming
    → (do_client_handshake c.json c.writer incoming c.local_id c.reject_inbound).1
      ≡ ok (peer_id, rejects)
    → Joined peer_id rejects l (client_handshake c l)
unfolding client_handshake
client-Joined c l incoming peer_id rejects e h =
    rw (client_handshake, e) (finish-Joined peer_id rejects _ c.ctx_deadline l h)

server-Joined :
    (c : Setup) (l : Link) (incoming : List ℕ) (peer_id : Str) (rejects : Bool)
    → c.ctrl ≡ some incoming
    → (do_server_handshake c.json c.writer incoming c.local_id c.reject_inbound).1
      ≡ ok (peer_id, rejects)
    → Joined peer_id rejects l (server_handshake c l)
unfolding server_handshake
server-Joined c l incoming peer_id rejects e h =
    rw (server_handshake, e) (finish-Joined peer_id rejects _ c.ctx_deadline l h)

-- A new session opens no stream exactly if the peer takes none.
pub open_rejected_iff :
    (rejects : Bool) (answer : OpenAnswer) (closed_since : Bool)
    → ((open_stream answer closed_since (new_h3_session rejects)).0 ≡ inl inbound_rejected)
      ↔ (rejects ≡ true)
unfolding open_stream new_h3_session open_error
open_rejected_iff true answer closed_since = (λ h. refl, λ h. refl)
open_rejected_iff false opens closed_since = (λ h. cc, λ h. cc)
open_rejected_iff false no_stream true = (λ h. cc, λ h. cc)
open_rejected_iff false no_stream false = (λ h. cc, λ h. cc)
open_rejected_iff false no_marker true = (λ h. cc, λ h. cc)
open_rejected_iff false no_marker false = (λ h. cc, λ h. cc)

-- Where a client and a server set up a session with each other, over control streams that carry what
-- the other writes, with anything after it, and neither write reports an error, with identities in
-- UTF-8, of which the JSON package is taken to decode what it encodes: each has a session that names the other, over a connection that is
-- not closed and without a deadline; and Open on it is rejected at once exactly if the other end
-- takes no inbound streams.
pub sessions_agree :
    (c s : Setup) (cl sl : Link) (to_server to_client more more' : List ℕ) (answer : OpenAnswer)
    (closed_since : Bool)
    → c.json ≡ s.json
    → IsJson s.json
    → is_utf8 c.local_id ≡ true
    → is_utf8 s.local_id ≡ true
    → c.ctrl ≡ some to_client
    → s.ctrl ≡ some to_server
    → (write_handshake c.json c.writer (hello c.local_id c.reject_inbound)).1 ≡ none
    → (write_handshake s.json s.writer (hello s.local_id s.reject_inbound)).1 ≡ none
    → to_server
      ≡ (do_client_handshake c.json c.writer to_client c.local_id c.reject_inbound).0 ++ more
    → to_client
      ≡ (do_server_handshake s.json s.writer to_server s.local_id s.reject_inbound).0 ++ more'
    → Joined s.local_id s.reject_inbound cl (client_handshake c cl)
      × Joined c.local_id c.reject_inbound sl (server_handshake s sl)
      × (((open_stream answer closed_since (new_h3_session s.reject_inbound)).0
            ≡ inl inbound_rejected)
          ↔ (s.reject_inbound ≡ true))
      × (((open_stream answer closed_since (new_h3_session c.reject_inbound)).0
            ≡ inl inbound_rejected)
          ↔ (c.reject_inbound ≡ true))
sessions_agree c s cl sl to_server to_client more more' answer closed_since same law cu su cc_ sc cw
      sw ts tc =
    let at_client : (write_handshake s.json c.writer (hello c.local_id c.reject_inbound)).1 ≡ none =
      rw (sym same) cw in
    let sent : to_server
        ≡ (do_client_handshake s.json c.writer to_client c.local_id c.reject_inbound).0 ++ more =
      rw (sym same) ts in
    let (server, client) =
      handshake_agrees s.json c.writer s.writer c.local_id s.local_id c.reject_inbound
        s.reject_inbound to_server to_client more more' law cu su at_client sw sent tc in
    (
      client-Joined c cl to_client s.local_id s.reject_inbound cc_ (rw same client),
      server-Joined s sl to_server c.local_id c.reject_inbound sc server,
      open_rejected_iff s.reject_inbound answer closed_since,
      open_rejected_iff c.reject_inbound answer closed_since,
    )

-- The handshake of an inbound session runs once.
do_handshake_again :
    (c d : Setup) (s : Inbound) → do_handshake d (do_handshake c s) ≡ do_handshake c s
unfolding do_handshake
do_handshake_again c d s = elim (Option-cases s.done) [
  | inl n ↦ rw n refl
  | inr (r, e) ↦ ground (arith, e)
]
