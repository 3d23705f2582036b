-- ===== src/H2mux/Stream.antt =====
-- `grpcStream` of v4/mux/h2mux/stream.go. A buffer is the list of its bytes, and times are numbers.
-- gRPC is outside: what `RecvMsg` and `SendMsg` answer is an argument, and so is `mem.ReadUnsafe`.
pub mod Reads
pub mod Writes
use tlswrapper.Base.{
  ℕ, ◌+◌, leb, if◌then◌else◌, Bool, true, false, Option, none, some, List, [], ◌∷◌, ◌++◌, length,
}

-- `transport e` is an error of gRPC, end of file among them.
pub data StreamError : Type 0 where
  deadline_exceeded : StreamError
  transport : ℕ → StreamError

-- `abortRead` and `abortWrite` are one function; `can_abort` is whether it is set, and `aborts`
-- counts its calls. `done` is `doneCh`, and `closeOnce` with it; `write_closed` is
-- `closeWriteOnce`. `sent` are the payloads of the calls of `SendMsg` that succeeded.
pub record Stream : Type 0 where
  pub read_bufs : List (List ℕ)
  pub read_deadline : Option ℕ  -- `none` is the zero time
  pub write_deadline : Option ℕ
  pub can_abort : Bool
  pub aborts : ℕ
  pub has_on_close : Bool
  pub on_closes : ℕ
  pub done : Bool
  pub write_closed : Bool
  pub close_writes : ℕ
  pub sent : List (List ℕ)

-- `newClientSideStream`, and `newServerSideStream`, whose `closeWrite` does nothing.
unfoldable pub new_stream : Bool → Bool → Stream
new_stream has_on_close can_abort = record {
  read_bufs = [];
  read_deadline = none;
  write_deadline = none;
  can_abort = can_abort;
  aborts = 0;
  has_on_close = has_on_close;
  on_closes = 0;
  done = false;
  write_closed = false;
  close_writes = 0;
  sent = [];
}

unfoldable pub abort : Stream → Stream
abort s = if s.can_abort then record s { aborts = s.aborts + 1 } else s

-- `readTimeout` and `writeTimeout`: whether a deadline is set and has passed at time `now`.
abbrev pub has_passed : Option ℕ → ℕ → Bool
has_passed none now = false
has_passed (some t) now = leb t now

abbrev pub is_set : Option ℕ → Bool
is_set none = false
is_set (some t) = true

-- What becomes of a call of `RecvMsg`: a message, an error, or the timer fires first.
pub data Receive : Type 0 where
  arrives : (bufs : List (List ℕ)) → Receive
  fails : (e : ℕ) → Receive
  timer_fires : Receive

pub data ReadResult : Type 0 where
  got : List ℕ → ReadResult
  read_err : StreamError → ReadResult
  blocks : ReadResult

-- What `ReadUnsafe` leaves of the first buffer stays the first.
abbrev pub keep_rest : Option (List ℕ) → List (List ℕ) → List (List ℕ)
keep_rest none bufs = bufs
keep_rest (some rest) bufs = rest ∷ bufs

-- The first buffer that is not empty, read by `ReadUnsafe` into room for `n` bytes.
unfoldable pub take_buf :
    (ℕ → List ℕ → List ℕ × Option (List ℕ)) → ℕ → List (List ℕ) → Option (List ℕ × List (List ℕ))
take_buf read_unsafe n [] = none
take_buf read_unsafe n ([] ∷ bufs) = take_buf read_unsafe n bufs
take_buf read_unsafe n ((x ∷ xs) ∷ bufs) =
    let r = read_unsafe n (x ∷ xs) in some (r.0, keep_rest r.1 bufs)

-- The buffers are read first, and `other` is what follows where all of them are empty.
abbrev pub first_or :
    Option (List ℕ × List (List ℕ))
    → List (ℕ × Receive)
    → Stream
    → ReadResult × List (ℕ × Receive) × Stream
    → ReadResult × List (ℕ × Receive) × Stream
first_or none inbox s other = other
first_or (some (d, bufs)) inbox s other = (got d, inbox, record s { read_bufs = bufs })

unfoldable pub read_aborted : List (ℕ × Receive) → Stream → ReadResult × List (ℕ × Receive) × Stream
read_aborted inbox s = (read_err deadline_exceeded, inbox, abort (record s { read_bufs = [] }))

-- The loop of `Read`, with `recvChunk`, over the calls of `RecvMsg` and their times. A call is made
-- only while the deadline has not passed; without a deadline no timer fires. A message that the
-- goroutine of a call that timed out receives later is not in the list.
unfoldable pub read_loop :
    (ℕ → List ℕ → List ℕ × Option (List ℕ))
    → ℕ
    → List (ℕ × Receive)
    → Stream
    → ReadResult × List (ℕ × Receive) × Stream
read_loop read_unsafe n [] s =
    first_or (take_buf read_unsafe n s.read_bufs) [] s (blocks, [], record s { read_bufs = [] })
read_loop read_unsafe n ((now, arrives bufs) ∷ inbox) s =
    let again = read_loop read_unsafe n inbox (record s { read_bufs = bufs }) in
    first_or (take_buf read_unsafe n s.read_bufs) ((now, arrives bufs) ∷ inbox) s (
      if has_passed s.read_deadline now
      then read_aborted ((now, arrives bufs) ∷ inbox) s
      else again)
read_loop read_unsafe n ((now, fails e) ∷ inbox) s =
    first_or (take_buf read_unsafe n s.read_bufs) ((now, fails e) ∷ inbox) s (
      if has_passed s.read_deadline now
      then read_aborted ((now, fails e) ∷ inbox) s
      else (read_err (transport e), inbox, record s { read_bufs = [] }))
read_loop read_unsafe n ((now, timer_fires) ∷ inbox) s =
    first_or (take_buf read_unsafe n s.read_bufs) ((now, timer_fires) ∷ inbox) s (
      if is_set s.read_deadline
      then read_aborted inbox s
      else (blocks, (now, timer_fires) ∷ inbox, record s { read_bufs = [] }))

-- Reads one after the other, into room for the numbers of bytes of the list.
unfoldable pub read_all :
    (ℕ → List ℕ → List ℕ × Option (List ℕ))
    → List ℕ
    → List (ℕ × Receive)
    → Stream
    → List ReadResult × List (ℕ × Receive) × Stream
read_all read_unsafe [] inbox s = ([], inbox, s)
read_all read_unsafe (n ∷ ns) inbox s =
    let (r, inbox', s') = read_loop read_unsafe n inbox s in
    let (rs, inbox'', s'') = read_all read_unsafe ns inbox' s' in (r ∷ rs, inbox'', s'')

-- What becomes of a call of `SendMsg`. Where the timer fires first, the goroutine that makes the call
-- goes on, and `sends` is whether the call succeeds in the end, or had succeeded at that moment.
pub data Send : Type 0 where
  goes : Send
  breaks : (e : ℕ) → Send
  timer_first : (sends : Bool) → Send

pub data WriteResult : Type 0 where
  wrote : ℕ → WriteResult
  write_err : StreamError → WriteResult
  write_blocks : WriteResult

-- `Write` at time `now`, with its goroutine if there is one. Without a deadline no timer fires: the
-- call blocks.
unfoldable pub write : List ℕ → ℕ → Send → Stream → WriteResult × Stream
write [] now r s = (wrote 0, s)
write (b ∷ bs) now r s =
    if has_passed s.write_deadline now then (write_err deadline_exceeded, abort s) else elim r [
      | goes ↦ (wrote (length (b ∷ bs)), record s { sent = s.sent ++ ((b ∷ bs) ∷ []) })
      | breaks e ↦ (write_err (transport e), s)
      | timer_first sends ↦
          let late = if sends then record s { sent = s.sent ++ ((b ∷ bs) ∷ []) } else s in
          if is_set s.write_deadline
          then (write_err deadline_exceeded, abort late)
          else (write_blocks, s)
    ]

-- `doCloseWrite`, which is all of `CloseWrite`.
unfoldable pub close_write : Stream → Stream
close_write s =
    if s.write_closed
    then s
    else record s { write_closed = true; close_writes = s.close_writes + 1 }

unfoldable pub call_on_close : Stream → Stream
call_on_close s = if s.has_on_close then record s { on_closes = s.on_closes + 1 } else s

unfoldable pub close_stream : Stream → Stream
close_stream s = if s.done then s else close_write (call_on_close (record s { done = true }))

unfoldable pub set_deadline : Option ℕ → Stream → Stream
set_deadline t s = record s { read_deadline = t; write_deadline = t }

unfoldable pub set_read_deadline : Option ℕ → Stream → Stream
set_read_deadline t s = record s { read_deadline = t }

unfoldable pub set_write_deadline : Option ℕ → Stream → Stream
set_write_deadline t s = record s { write_deadline = t }
