-- ===== src/H2mux/Session/Dialed.antt =====
-- A server-initiated stream: `Open` of the server session, and the client session that dials back.
use tlswrapper.Base.{
  ℕ, suc, ◌+◌, ◌^◌, ◌≤◌, ◌<◌, ◌≡◌, refl, ap, inl, inr, true, false, none, some, List, [], ◌∷◌, ◌++◌,
  arith, Option-cases, length, ==_refl,
}
use tlswrapper.H2mux.Session.{
  Session, new_session, opened, find, open_begin, open_sent, open_receive, deliver_stream, send,
  Event, opens, sent, delivers, sends, receives, step, run,
}
use tlswrapper.H2mux.Session.Tokens.{Tokens, key_count, run-open_seq}
use tlswrapper.H2mux.Session.Resolved.{reached-Tokens, some-count}
use tlswrapper.H2mux.Client.{ControlMessage, open_request, other, recv_control_loop, dial_back}

no_key : (i : ℕ) (xs : List (ℕ × ℕ)) → key_count i xs ≡ 0 → find i xs ≡ none
no_key i xs h = elim (Option-cases (find i xs)) [
  | inl n ↦ n
  | inr (c, e) ↦ absurd (omega (arith, h, some-count i c xs e))
]

-- A call goes through in a state in which its request id is new.
exchange :
    (c : ℕ) (s : Session)
    → s.closed ≡ false
    → s.peer_rejects_inbound ≡ false
    → s.open_seq + 1 < 2 ^ 64
    → Tokens s
    → let i = s.open_seq + 1 in
      (run (opens ∷ sent i true ∷ delivers (some i) c ∷ sends i ∷ receives i ∷ []) s).phases i
      ≡ opened c
unfolding run step open_begin open_sent deliver_stream send open_receive
exchange c s o r l t =
    let i = s.open_seq + 1 in
    ground (arith, o, r, l, t i, no_key i s.held, no_key i s.buffered, ==_refl i)

-- The request ids that the messages ask for, each as often as it is asked for.
abbrev pub asked : List ControlMessage → List ℕ
asked [] = []
asked (open_request (some rid) ∷ msgs) = rid ∷ asked msgs
asked (_ ∷ msgs) = asked msgs

-- A control loop with its callback makes one call for each request.
recv_control_loop-asked : (msgs : List ControlMessage) → recv_control_loop true msgs ≡ asked msgs
unfolding recv_control_loop
recv_control_loop-asked [] = refl
recv_control_loop-asked (open_request none ∷ msgs) = recv_control_loop-asked msgs
recv_control_loop-asked (open_request (some rid) ∷ msgs) =
    ap (◌∷◌ rid) (recv_control_loop-asked msgs)
recv_control_loop-asked (other ∷ msgs) = recv_control_loop-asked msgs

-- In an open server session that fewer than 2^64 - 1 events lead to and whose peer takes inbound
-- streams: a call of Open takes the next request id, and once its message is sent, the client's
-- control loop dials back once, for that id; Open returns the connection that the client's stream is
-- delivered with. Of any other messages the loop makes one call for each request in them, in order.
pub open_is_dialed_back :
    (es : List Event) (conn : ℕ → ℕ) (msgs : List ControlMessage)
    → suc (length es) < 2 ^ 64
    → (run es (new_session false)).closed ≡ false
    → (run es (new_session false)).peer_rejects_inbound ≡ false
    → let s = run es (new_session false) in
      let i = s.open_seq + 1 in
      let rids = recv_control_loop true (open_request (some i) ∷ []) in
      ((open_begin s).0 ≡ inr i)
      × (rids ≡ i ∷ [])
      × ((run (opens ∷ sent i true ∷ dial_back conn rids ++ (receives i ∷ [])) s).phases i
          ≡ opened (conn i))
      × (recv_control_loop true msgs ≡ asked msgs)
unfolding recv_control_loop open_begin dial_back
open_is_dialed_back es conn msgs l o r =
    let s = run es (new_session false) in
    let n = run-open_seq es (new_session false) in
    let n' : s.open_seq ≤ length es = unfold new_session in omega (arith, n) in
    (
      ground (arith, o, r, n', l),
      refl,
      exchange (conn (s.open_seq + 1)) s o r (omega (arith, n', l))
          (reached-Tokens false es (omega arith)),
      recv_control_loop-asked msgs,
    )
