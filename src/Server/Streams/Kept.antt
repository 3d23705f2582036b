-- ===== src/Server/Streams/Kept.antt =====
-- What becomes of each connection.
use tlswrapper.Base.{
  ℕ, ◌+◌, ◌≡◌, refl, inl, inr, Str, is_empty, ◌==◌, ◌&&◌, not, if◌then◌else◌, Bool, true, false,
  Option, none, some, List, [], ◌∷◌, count, arith, Bool-cases, Option-cases,
}
use tlswrapper.Server.Streams.{
  Served, start_pair, local_serve, Handler, local_handler, empty_handler, handle, serve_one, Round,
  accepts, times_out, fails, serve, inbound_dialed, handle_inbound_stream, Inbound,
  accept_inbound_streams,
}

abbrev pub one_if : Bool → ℕ
one_if true = 1
one_if false = 0

abbrev pub pair_count : ℕ → List (ℕ × ℕ) → ℕ
pair_count c [] = 0
pair_count c ((a, d) ∷ ps) = one_if (a == c) + one_if (d == c) + pair_count c ps

-- How often `c` was closed or taken by the forwarder.
abbrev pub kept : ℕ → Served → ℕ
kept c s = count c s.closed + pair_count c s.started

abbrev pub conn_count : ℕ → Option ℕ → ℕ
conn_count c none = 0
conn_count c (some d) = one_if (d == c)

-- The streams that a local handler opens: none where no tunnel was found.
abbrev pub opened_by : ℕ → Handler → ℕ
opened_by c (local_handler r) = if r.found then conn_count c r.dialed else 0
opened_by c empty_handler = 0

-- What the rounds of `Serve` obtain, and what of it is lost.
abbrev pub obtained : ℕ → List Round → ℕ
obtained c [] = 0
obtained c (accepts d go has_ctx h ∷ rounds) =
    one_if (d == c) + (if go && has_ctx then opened_by c h else 0) + obtained c rounds
obtained c (times_out ∷ rounds) = obtained c rounds
obtained c (fails ∷ rounds) = 0

abbrev pub lost : ℕ → List Round → ℕ
lost c [] = 0
lost c (accepts d go has_ctx h ∷ rounds) =
    (if go && has_ctx then 0 else one_if (d == c)) + lost c rounds
lost c (times_out ∷ rounds) = lost c rounds
lost c (fails ∷ rounds) = 0

start_pair-kept :
    (b : Bool) (a d c : ℕ) (s : Served)
    → kept c (start_pair b a d s) ≡ kept c s + one_if (a == c) + one_if (d == c)
unfolding start_pair
start_pair-kept true a d c s = omega arith
start_pair-kept false a d c s = ground arith

handle-kept :
    (h : Handler) (a c : ℕ) (s : Served)
    → kept c (handle h a s) ≡ kept c s + one_if (a == c) + opened_by c h
unfolding handle local_serve
handle-kept (local_handler r) a c s = elim (Option-cases r.dialed) [
  | inl e ↦ ground (arith, e)
  | inr (d, e) ↦ ground (arith, e, start_pair-kept r.start_ok a d c s)
]
handle-kept empty_handler a c s = ground arith

serve-kept :
    (rounds : List Round) (c : ℕ) (s : Served)
    → kept c (serve rounds s) + lost c rounds ≡ kept c s + obtained c rounds
unfolding serve serve_one
serve-kept [] c s = refl
serve-kept (accepts d true true h ∷ rounds) c s =
    omega (arith, serve-kept rounds c (handle h d s), handle-kept h d c s)
serve-kept (accepts d true false h ∷ rounds) c s = omega (arith, serve-kept rounds c s)
serve-kept (accepts d false has_ctx h ∷ rounds) c s = omega (arith, serve-kept rounds c s)
serve-kept (times_out ∷ rounds) c s = serve-kept rounds c s
serve-kept (fails ∷ rounds) c s = refl

-- The streams of a session, until the group refuses, and the connections dialed for them.
abbrev pub obtained_inbound : Str → ℕ → List Inbound → ℕ
obtained_inbound connect c [] = 0
obtained_inbound connect c (r ∷ rounds) =
    let dialed = if not (is_empty connect) && r.has_ctx then conn_count c r.dialed else 0 in
    let rest = obtained_inbound connect c rounds in
    one_if (r.stream == c) + (if r.go then dialed + rest else 0)

handle_inbound_stream-kept :
    (connect : Str) (has_ctx : Bool) (dialed : Option ℕ) (b : Bool) (stream c : ℕ) (s : Served)
    → kept c (handle_inbound_stream connect has_ctx dialed b stream s)
      ≡ kept c s
        + one_if (stream == c)
        + (if not (is_empty connect) && has_ctx then conn_count c dialed else 0)
unfolding handle_inbound_stream inbound_dialed
handle_inbound_stream-kept connect has_ctx none b stream c s = ground arith
handle_inbound_stream-kept connect has_ctx (some d) true stream c s = ground arith
handle_inbound_stream-kept connect has_ctx (some d) false stream c s = ground arith

inbound_streams-kept :
    (connect : Str) (rounds : List Inbound) (c : ℕ) (s : Served)
    → kept c (accept_inbound_streams connect rounds s)
      ≡ kept c s + obtained_inbound connect c rounds
unfolding accept_inbound_streams
inbound_streams-kept connect [] c s = omega arith
inbound_streams-kept connect (r ∷ rounds) c s = elim (Bool-cases r.go) [
  | inl y ↦
      let s' = handle_inbound_stream connect r.has_ctx r.dialed r.start_ok r.stream s in
      let more = inbound_streams-kept connect rounds c s' in
      let now = handle_inbound_stream-kept connect r.has_ctx r.dialed r.start_ok r.stream c s in
      rw (accept_inbound_streams, y) (omega (arith, more, now))
  | inr n ↦ rw (accept_inbound_streams, n) (ground arith)
]

-- Each connection that `Serve` accepts and each stream that is opened for it is closed or taken by
-- the forwarder, once for each time that it was obtained, but for the accepted ones for which the
-- goroutine group or the context manager refuses: those are dropped open. Of the streams of a session
-- and the connections dialed for them none is dropped, whatever fails.
pub connections-kept :
    (rounds : List Round) (connect : Str) (streams : List Inbound) (c : ℕ) (s : Served)
    → (kept c (serve rounds s) + lost c rounds ≡ kept c s + obtained c rounds)
      × (kept c (accept_inbound_streams connect streams s)
          ≡ kept c s + obtained_inbound connect c streams)
connections-kept rounds connect streams c s =
    (serve-kept rounds c s, inbound_streams-kept connect streams c s)
