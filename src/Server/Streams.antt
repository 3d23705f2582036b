-- ===== src/Server/Streams.antt =====
-- The connections of v4/server.go and v4/handler.go: `Serve`, `serveOne` and `LocalHandler.Serve` for
-- local ones, `acceptInboundStreams` and `handleInboundStream` for the streams of a session. A
-- connection is a number; what the network, the tunnel, the forwarder, the goroutine group and the
-- context manager answer is an argument.
pub mod Kept
use tlswrapper.Base.{
  ℕ, suc, ◌+◌, ◌%◌, ◌^◌, Str, is_empty, if◌then◌else◌, Bool, true, false, Option, none, some, List,
  [], ◌∷◌, ◌++◌, count,
}

-- `closed` are the connections closed, `started` the pairs that the forwarder took. The last
-- two are `stats.request` and `stats.success`.
pub record Served : Type 0 where
  pub closed : List ℕ
  pub started : List (ℕ × ℕ)
  pub request : ℕ
  pub success : ℕ

abbrev pub close_conn : ℕ → Served → Served
close_conn c s = record s { closed = c ∷ s.closed }

-- Whether `findSession` finds a tunnel, the stream that `OpenStream` returns, and whether `Start`
-- takes the pair.
pub record Answers : Type 0 where
  pub found : Bool
  pub dialed : Option ℕ
  pub start_ok : Bool

unfoldable pub start_pair : Bool → ℕ → ℕ → Served → Served
start_pair true a d s = record s { started = (a, d) ∷ s.started }
start_pair false a d s = close_conn d (close_conn a s)

-- `LocalHandler.Serve`
unfoldable pub local_serve : Answers → ℕ → Served → Served
local_serve r accepted s =
    if r.found
    then elim r.dialed [
      | none ↦ close_conn accepted s
      | some d ↦ start_pair r.start_ok accepted d s
    ]
    else close_conn accepted s

pub data Handler : Type 0 where
  local_handler : Answers → Handler
  empty_handler : Handler

unfoldable pub handle : Handler → ℕ → Served → Served
handle (local_handler r) accepted s = local_serve r accepted s
handle empty_handler accepted s = close_conn accepted s

-- `has_ctx` is whether the context manager gives out a context.
unfoldable pub serve_one : Bool → Handler → ℕ → Served → Served
serve_one has_ctx h accepted s = if has_ctx then handle h accepted s else s

-- A round of `Serve`: a connection, with the answers for it, a timeout of the listener, or the end.
pub data Round : Type 0 where
  accepts : (c : ℕ) (go has_ctx : Bool) (h : Handler) → Round
  times_out : Round
  fails : Round

unfoldable pub serve : List Round → Served → Served
serve [] s = s
serve (accepts c go has_ctx h ∷ rounds) s = serve rounds (if go then serve_one has_ctx h c s else s)
serve (times_out ∷ rounds) s = serve rounds s
serve (fails ∷ rounds) s = s

-- `handleInboundStream`; `dialed` is what `dialDirect` answers.
unfoldable pub inbound_dialed : Option ℕ → Bool → ℕ → Served → Served
inbound_dialed none start_ok stream s = close_conn stream s
inbound_dialed (some d) true stream s = record s { started = (stream, d) ∷ s.started }
inbound_dialed (some d) false stream s = close_conn stream (close_conn d s)

unfoldable pub handle_inbound_stream : Str → Bool → Option ℕ → Bool → ℕ → Served → Served
handle_inbound_stream connect has_ctx dialed start_ok stream s =
    let s' = record s { request = (s.request + 1) % 2 ^ 64 } in
    if is_empty connect
    then close_conn stream s'
    else if has_ctx
    then inbound_dialed dialed start_ok stream s'
    else close_conn stream s'

-- The callback `Closed` of the pair.
unfoldable pub stream_finished : Served → Served
stream_finished s = record s { success = (s.success + 1) % 2 ^ 64 }

-- A round of `acceptInboundStreams` and of the loop of `serveSession`, whose session ends it.
pub record Inbound : Type 0 where
  pub stream : ℕ
  pub go : Bool
  pub has_ctx : Bool
  pub dialed : Option ℕ
  pub start_ok : Bool

unfoldable pub accept_inbound_streams : Str → List Inbound → Served → Served
accept_inbound_streams connect [] s = s
accept_inbound_streams connect (r ∷ rounds) s =
    if r.go
    then accept_inbound_streams connect rounds
        (handle_inbound_stream connect r.has_ctx r.dialed r.start_ok r.stream s)
    else close_conn r.stream s
