-- ===== src/H3mux/Session.antt =====
-- `h3Session` of v4/mux/h3mux/session.go with its streams, `quicConn` and `countingConn` of
-- v4/mux/h3mux/stream.go: their calls one after the other. QUIC's answers are arguments; a stream is
-- its place in the list.
pub mod Counted
use tlswrapper.Base.{
  ℕ, suc, ◌+◌, ◌-◌, ◌%◌, ◌^◌, ◌⊎◌, inl, inr, ltb, ◌==◌, if◌then◌else◌, Bool, true, false, ◌&&◌, not,
  Option, none, some, List, [], ◌∷◌, ◌++◌, length, get_elem?, set, take, drop,
}

-- `arriving` are the bytes that the peer has sent and QUIC holds. `fired` is the `closeOnce` of
-- `quicConn`; `errored` is that of `countingConn`.
pub record Conn : Type 0 where
  pub arriving : List ℕ
  pub strip_marker : Bool
  pub fired : Bool
  pub errored : Bool

-- The counters are 64 bits wide; `num_streams`, an int64, is its 64 bits. `idle` is whether
-- `idleCh`, of one place, holds a signal.
pub record Session : Type 0 where
  pub closed : Bool
  pub conn_closes : ℕ
  pub peer_rejects_open : Bool
  pub streams_opened : ℕ
  pub streams_accepted : ℕ
  pub streams_succeeded : ℕ
  pub streams_failed : ℕ
  pub num_streams : ℕ
  pub bytes_received : ℕ
  pub bytes_sent : ℕ
  pub idle : Bool
  pub streams : List Conn

abbrev pub add_u64 : ℕ → ℕ → ℕ
add_u64 a b = (a + b) % 2 ^ 64

unfoldable pub new_h3_session : Bool → Session
new_h3_session rejects = record {
  closed = false;
  conn_closes = 0;
  peer_rejects_open = rejects;
  streams_opened = 0;
  streams_accepted = 0;
  streams_succeeded = 0;
  streams_failed = 0;
  num_streams = 0;
  bytes_received = 0;
  bytes_sent = 0;
  idle = false;
  streams = [];
}

-- `close` is done once.
unfoldable pub close : Session → Session
close s = if s.closed then s else record s { closed = true; conn_closes = s.conn_closes + 1 }

unfoldable pub wrap_stream : Bool → List ℕ → Session → Session
wrap_stream strip arriving s = record s {
  num_streams = add_u64 s.num_streams 1;
  streams =
      s.streams
      ++ (record { arriving = arriving; strip_marker = strip; fired = false; errored = false }
          ∷ []);
}

pub data OpenError : Type 0 where
  session_closed inbound_rejected open_failed marker_failed accept_failed : OpenError

-- `OpenStreamSync` and the write of the open marker.
pub data OpenAnswer : Type 0 where
  opens no_stream no_marker : OpenAnswer

-- `closed_since` is whether the session was closed while `Open` waited.
unfoldable pub open_error : Bool → OpenError → OpenError
open_error closed_since e = if closed_since then session_closed else e

-- The new stream is the last of the list.
unfoldable pub open_stream : OpenAnswer → Bool → Session → (OpenError ⊎ ℕ) × Session
open_stream answer closed_since s =
    if s.closed
    then (inl session_closed, s)
    else if s.peer_rejects_open
    then (inl inbound_rejected, s)
    else elim answer [
      | no_stream ↦ (
        inl (open_error closed_since open_failed),
        record s { streams_failed = add_u64 s.streams_failed 1 },
      )
      | no_marker ↦ (
        inl (open_error closed_since marker_failed),
        record s { streams_failed = add_u64 s.streams_failed 1 },
      )
      | opens ↦ (
        inr (length s.streams),
        wrap_stream false [] (record s { streams_opened = add_u64 s.streams_opened 1 }),
      )
    ]

-- `AcceptStream` answers with a stream and what it holds by now.
unfoldable pub accept_stream : Option (List ℕ) → Session → (OpenError ⊎ ℕ) × Session
accept_stream none s = (inl (if s.closed then session_closed else accept_failed), s)
accept_stream (some arriving) s = (
  inr (length s.streams),
  wrap_stream true arriving (record s { streams_accepted = add_u64 s.streams_accepted 1 }),
)

-- `onStreamClose`
unfoldable pub on_stream_close : Session → Session
on_stream_close s =
    let n = add_u64 s.num_streams (2 ^ 64 - 1) in
    record s { num_streams = n; idle = if n == 0 then true else s.idle }

-- How a call on a stream ends: the number of bytes and whether there is an error other than the end.
pub data ReadResult : Type 0 where
  got : List ℕ → ReadResult
  marker_err : ReadResult
  read_err : (is_eof : Bool) → ReadResult

-- `quicConn.Read` with room for `n` bytes, where the stream holds some or `at_end` says how it ends.
unfoldable pub stream_read : ℕ → Bool → Conn → ReadResult × Conn
stream_read n at_end c =
    if ltb 0 (length c.arriving)
    then (got (take n c.arriving), record c { arriving = drop n c.arriving })
    else (read_err at_end, c)

unfoldable pub quic_read : ℕ → Bool → Conn → ReadResult × Conn
quic_read n at_end c =
    if c.strip_marker
    then elim c.arriving [
      | [] ↦ (marker_err, c)
      | marker ∷ rest ↦ stream_read n at_end (record c { arriving = rest; strip_marker = false })
    ]
    else stream_read n at_end c

unfoldable pub count_read : ReadResult → Conn → Session → Conn × Session
count_read (got d) c s = (c, record s { bytes_received = add_u64 s.bytes_received (length d) })
count_read marker_err c s = (record c { errored = true }, s)
count_read (read_err is_eof) c s = (record c { errored = if is_eof then c.errored else true }, s)

-- `countingConn.Read`
unfoldable pub read : ℕ → ℕ → Bool → Session → Option ReadResult × Session
read i n at_end s = elim (get_elem? s.streams i) [
  | none ↦ (none, s)
  | some c ↦
      let (r, c') = quic_read n at_end c in
      let (d, s') = count_read r c' s in (some r, record s' { streams = set s'.streams i d })
]

-- `countingConn.Write`: QUIC takes `n` bytes, and fails or not.
unfoldable pub write : ℕ → ℕ → Bool → Session → Session
write i n fails s = elim (get_elem? s.streams i) [
  | none ↦ s
  | some c ↦ record s {
    bytes_sent = add_u64 s.bytes_sent n;
    streams = set s.streams i (record c { errored = if fails then true else c.errored });
  }
]

-- `countingConn.Close`: the close of `quicConn` fires its callback once.
unfoldable pub close_stream : ℕ → Session → Session
close_stream i s = elim (get_elem? s.streams i) [
  | none ↦ s
  | some c ↦
      let fired = record s { streams = set s.streams i (record c { fired = true }) } in
      let t = if c.fired then s else on_stream_close fired in
      if c.errored
      then record t { streams_failed = add_u64 t.streams_failed 1 }
      else record t { streams_succeeded = add_u64 t.streams_succeeded 1 }
]

pub data Call : Type 0 where
  open_streams : (answer : OpenAnswer) (closed_since : Bool) → Call
  accept_streams : (answer : Option (List ℕ)) → Call
  reads : (i n : ℕ) (at_end : Bool) → Call
  writes : (i n : ℕ) (fails : Bool) → Call
  close_streams : (i : ℕ) → Call
  takes_idle closes : Call

unfoldable pub call : Call → Session → Session
call (open_streams answer closed_since) s = (open_stream answer closed_since s).1
call (accept_streams answer) s = (accept_stream answer s).1
call (reads i n at_end) s = (read i n at_end s).1
call (writes i n fails) s = write i n fails s
call (close_streams i) s = close_stream i s
call takes_idle s = record s { idle = false }
call closes s = close s

unfoldable pub calls : List Call → Session → Session
calls [] s = s
calls (c ∷ cs) s = calls cs (call c s)
