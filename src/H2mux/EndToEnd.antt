-- ===== src/H2mux/EndToEnd.antt =====
-- A stream from its writer to its reader: `Write`, `Marshal`, the transport, `Unmarshal` and `Read`.
use tlswrapper.Base.{
  ℕ, ◌<◌, ◌^◌, ◌≡◌, refl, sym, ap, ◌∙◌, true, false, Option, none, some, List, [], ◌∷◌, ◌++◌,
  append-nil, length, concat,
}
use mathlib.Core.List.{append_assoc}
use mathlib.Core.Option
use mathlib.Core.Option.{some-injective}
use tlswrapper.H2mux.Stream.{
  Stream, Receive, arrives, fails, timer_fires, goes, new_stream, read_all, write,
}
use tlswrapper.H2mux.Stream.Reads.{IsReader, all_bytes, arriving, content, reads_in_order}
use tlswrapper.H2mux.Stream.Writes.{concat-snoc}
use tlswrapper.H2mux.Codec.{Wire, raw_chunk, marshal, unmarshal_chunk}
use tlswrapper.H2mux.Codec.RoundTrip.{IsWire, unmarshal-marshal}

-- Writes that `SendMsg` takes, on a stream without a deadline.
unfoldable pub write_all : List (List ℕ) → Stream → Stream
write_all [] s = s
write_all (b ∷ bs) s = write_all bs (write b 0 goes s).1

-- The transport carries each message: its bytes arrive in order, in buffers of any sizes, and
-- `Unmarshal` reads them. The message takes fewer than 2^64 bytes.
abbrev pub Carried : Wire → List (List ℕ) → List (ℕ × Receive) → Type 0
Carried w [] [] = Unit
Carried w [] (r ∷ inbox) = ⊥
Carried w (p ∷ ps) [] = ⊥
Carried w (p ∷ ps) ((now, arrives bufs) ∷ inbox) =
    ((raw : List (List ℕ)) × (Option.map concat (marshal w (raw_chunk p)) ≡ some (concat raw))
      × (unmarshal_chunk w raw ≡ some bufs))
    × (length p < 2 ^ 64)
    × Carried w ps inbox
Carried w (p ∷ ps) ((now, fails e) ∷ inbox) = ⊥
Carried w (p ∷ ps) ((now, timer_fires) ∷ inbox) = ⊥

Carried-arriving :
    (w : Wire) (ps : List (List ℕ)) (inbox : List (ℕ × Receive))
    → IsWire w
    → Carried w ps inbox
    → arriving inbox ≡ concat ps
Carried-arriving w [] [] laws h = refl
Carried-arriving w [] (r ∷ inbox) laws h = absurd h
Carried-arriving w (p ∷ ps) [] laws h = absurd h
Carried-arriving w (p ∷ ps) ((now, arrives bufs) ∷ inbox) laws ((raw, m, u), l, h) =
    let read : some (concat bufs) ≡ some p =
      ap (Option.map concat) (sym u) ∙ unmarshal-marshal w laws p raw l m in
    rw (some-injective _ _ read, Carried-arriving w ps inbox laws h) refl
Carried-arriving w (p ∷ ps) ((now, fails e) ∷ inbox) laws h = absurd h
Carried-arriving w (p ∷ ps) ((now, timer_fires) ∷ inbox) laws h = absurd h

write-goes :
    (b : List ℕ) (s : Stream)
    → s.write_deadline ≡ none
    → (concat (write b 0 goes s).1.sent ≡ concat s.sent ++ b)
      × ((write b 0 goes s).1.write_deadline ≡ none)
unfolding write
write-goes [] s h = (sym (append-nil (concat s.sent)), h)
write-goes (x ∷ xs) s h = rw h (concat-snoc s.sent (x ∷ xs), refl)

write_all-sent :
    (bs : List (List ℕ)) (s : Stream)
    → s.write_deadline ≡ none
    → concat (write_all bs s).sent ≡ concat s.sent ++ concat bs
unfolding write_all
write_all-sent [] s h = sym (append-nil (concat s.sent))
write_all-sent (b ∷ bs) s h =
    let (sent, still) = write-goes b s h in
    write_all-sent bs (write b 0 goes s).1 still
    ∙ rw sent (append_assoc (concat s.sent) b (concat bs))

-- What one end writes is what the other end reads: where a new stream sends all of some writes and
-- the transport carries the messages in buffers of any sizes, reads of any sizes at a new stream of
-- the peer return the bytes written, in order and each once, up to those that are not read yet.
-- `mem.ReadUnsafe`, `protowire` and the proto codec are assumed to do what they document.
pub written_is_read :
    (read_unsafe : ℕ → List ℕ → List ℕ × Option (List ℕ)) (w : Wire)
    → IsReader read_unsafe
    → IsWire w
    → (bs : List (List ℕ)) (ns : List ℕ) (inbox : List (ℕ × Receive))
    → Carried w (write_all bs (new_stream true true)).sent inbox
    → let (rs, inbox', s') = read_all read_unsafe ns inbox (new_stream false true) in
      all_bytes rs ++ content inbox' s' ≡ concat bs
written_is_read read_unsafe w reader laws bs ns inbox h =
    let sent : concat (write_all bs (new_stream true true)).sent ≡ concat bs =
      unfold new_stream in write_all-sent bs (new_stream true true) refl in
    let none_yet : content inbox (new_stream false true) ≡ arriving inbox =
      unfold new_stream in refl in
    (reads_in_order read_unsafe reader ns inbox (new_stream false true)).0
    ∙ none_yet
    ∙ Carried-arriving w _ inbox laws h
    ∙ sent
