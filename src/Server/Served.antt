-- ===== src/Server/Served.antt =====
-- The counters that throttle the mux listener, over any history of accepted sessions.
use tlswrapper.Base.{
  mem, ℕ, suc, ◌+◌, ◌%◌, ◌^◌, ◌≡◌, refl, ap, ap₂, if◌then◌else◌, Bool, true, false, List, [], ◌∷◌,
  length, arith,
}
use tlswrapper.Tunnel.{Tunnel, close_session}
use tlswrapper.Tunnel.Books.{length-remove, flush-SameBooks}
use tlswrapper.Server.Serve.{
  Acceptor, Event, session_comes, handshake_ends, session_ends, close_accepted, begin_handshake,
  serve_begin, end_handshake, has_key, delete_key, serve_end, step, run, listener_stats,
}

-- The half-open count is of the sessions in their handshake; the sessions are those with a watcher
-- of an outbound tunnel and those served, and as many are created and not finalized.
pub record Counted (a : Acceptor) : Type 0 where
  pub half : a.num_half_open ≡ length a.handshaking % 2 ^ 32
  pub live :
      a.server.world.num_sessions
      ≡ (length a.server.world.watchers + length a.server.accepted_tunnels) % 2 ^ 32
  pub totals :
      a.server.world.num_sessions_created
      ≡ (a.server.world.num_sessions_finalized
          + (length a.server.world.watchers + length a.server.accepted_tunnels))
        % 2 ^ 64

begin_handshake-Counted :
    (i : ℕ) (go has_ctx : Bool) (a : Acceptor)
    → Counted a
    → Counted (begin_handshake i go has_ctx a)
unfolding begin_handshake close_accepted close_session
begin_handshake-Counted i true true a c = record {
  half = omega (arith, c.half);
  live = c.live;
  totals = c.totals;
}
begin_handshake-Counted i true false a c = record {
  half = c.half;
  live = c.live;
  totals = c.totals;
}
begin_handshake-Counted i false has_ctx a c = record {
  half = c.half;
  live = c.live;
  totals = c.totals;
}

serve_begin-Counted :
    (now i : ℕ) (go : Bool) (a : Acceptor) → Counted a → Counted (serve_begin now i go a)
unfolding serve_begin
serve_begin-Counted now i false a c = c
serve_begin-Counted now i true a c = record {
  half = c.half;
  live = omega (arith, c.live);
  totals = omega (arith, c.totals);
}

end_handshake-Counted :
    (now i : ℕ) (ok go : Bool) (a : Acceptor)
    → mem i a.handshaking ≡ true
    → Counted a
    → Counted (end_handshake now i ok go a)
unfolding end_handshake
end_handshake-Counted now i true go a m c = serve_begin-Counted now i go _ (record {
  half = omega (arith, c.half, length-remove i a.handshaking m);
  live = c.live;
  totals = c.totals;
})
end_handshake-Counted now i false go a m c = record {
  half = omega (arith, c.half, length-remove i a.handshaking m);
  live = c.live;
  totals = c.totals;
}

length-delete_key :
    (i : ℕ) (m : List (ℕ × Tunnel)) → has_key i m ≡ true → length m ≡ suc (length (delete_key i m))
unfolding delete_key
length-delete_key i [] h = ground (arith, h)
length-delete_key i ((k, t) ∷ m) h = ground (arith, length-delete_key i m)

serve_end-Counted :
    (now i : ℕ) (a : Acceptor)
    → has_key i a.server.accepted_tunnels ≡ true
    → Counted a
    → Counted (serve_end now i a)
unfolding serve_end
serve_end-Counted now i a m c =
    let f = flush-SameBooks (a.server.world.sessions i).stats a.server.world in
    let l = length-delete_key i a.server.accepted_tunnels m in
    record {
      half = c.half;
      live = omega (arith, c.live, f.current, ap length f.watchers, l);
      totals = omega (arith, c.totals, f.created, f.finalized, ap length f.watchers, l);
    }

choice-Counted :
    (b : Bool) (x y : Acceptor) → (b ≡ true → Counted x) → Counted y → Counted (if b then x else y)
choice-Counted true x y p q = p refl
choice-Counted false x y p q = q

step-Counted : (e : Event) (a : Acceptor) → Counted a → Counted (step e a)
unfolding step
step-Counted (session_comes i go has_ctx) a c = begin_handshake-Counted i go has_ctx a c
step-Counted (handshake_ends now i ok go) a c =
    choice-Counted (mem i a.handshaking) _ a (λ m. end_handshake-Counted now i ok go a m c) c
step-Counted (session_ends now i) a c =
    choice-Counted (has_key i a.server.accepted_tunnels) _ a (λ m. serve_end-Counted now i a m c) c

run-Counted : (es : List Event) (a : Acceptor) → Counted a → Counted (run es a)
unfolding run
run-Counted [] a c = c
run-Counted (e ∷ es) a c = run-Counted es (step e a) (step-Counted e a c)

-- Over any accepted sessions, handshakes and ends, in any order, `ListenerStats` reports, up to the
-- width of its results, the sessions with a watcher together with those being served, and the
-- handshakes under way. It starts where the counters are so.
pub listener_stats-run :
    (es : List Event) (a : Acceptor)
    → Counted a
    → let b = run es a in
      listener_stats b ≡ (
        (length b.server.world.watchers + length b.server.accepted_tunnels) % 2 ^ 32,
        length b.handshaking % 2 ^ 32,
      )
unfolding listener_stats
listener_stats-run es a c = let v = run-Counted es a c in ap₂ (λ m n. (m, n)) v.live v.half
