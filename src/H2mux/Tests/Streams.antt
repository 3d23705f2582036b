-- ===== src/H2mux/Tests/Streams.antt =====
-- A transport that does what is assumed, with streams over it.
use tlswrapper.Base.{
  ℕ, suc, ◌+◌, ◌*◌, ◌/◌, ◌%◌, ◌≡◌, ◌≤◌, refl, leb, leb→le, Bool-cases, inl, inr, zero, ◌==◌, ◌&&◌,
  if◌then◌else◌, true, false, Option, none, some, List, [], ◌∷◌, ◌++◌, length, length-take, take,
  drop, take-append-drop, concat, append-nil, take-length_le, arith,
}
use mathlib.Core.Option
use tlswrapper.H2mux.Codec.{Wire, header, marshal, unmarshal_chunk, fast_header}
use tlswrapper.H2mux.Codec.RoundTrip.{IsWire, unmarshal_is_base}
use tlswrapper.H2mux.Stream.{
  Stream, Receive, arrives, new_stream, read_all, timer_first, write, set_write_deadline,
}
use tlswrapper.H2mux.Stream.Reads.{IsReader, or_nil, all_bytes, content}
use tlswrapper.H2mux.Stream.Writes.{Wrote, write-Wrote}
use tlswrapper.H2mux.EndToEnd.{write_all, written_is_read}

-- A tag is one byte and a number one place; both are so in protobuf where they are small.
abbrev chunk_of : List ℕ → Option (List ℕ)
chunk_of [] = some []
chunk_of (x ∷ []) = none
chunk_of (x ∷ y ∷ d) = if (x == 10) && (y == length d) then some d else none

abbrev first_tag : List ℕ → Option (ℕ × ℕ × ℕ)
first_tag [] = none
first_tag (x ∷ xs) = some (x / 8, x % 8, 1)

abbrev first_number : List ℕ → Option (ℕ × ℕ)
first_number [] = none
first_number (x ∷ xs) = some (x, 1)

abbrev wire : Wire
wire = record {
  tag = λ num typ. (num * 8 + typ) ∷ [];
  varint = λ n. n ∷ [];
  consume_tag = first_tag;
  consume_varint = first_number;
  base_chunk = chunk_of;
  base_marshal = λ m. none;
  base_unmarshal = λ bufs. none;
}

more_tag_lem : (b c : List ℕ) (r : ℕ × ℕ × ℕ) → first_tag b ≡ some r → first_tag (b ++ c) ≡ some r
more_tag_lem [] c r h = cc
more_tag_lem (x ∷ xs) c r h = h

more_number_lem :
    (b c : List ℕ) (r : ℕ × ℕ) → first_number b ≡ some r → first_number (b ++ c) ≡ some r
more_number_lem [] c r h = cc
more_number_lem (x ∷ xs) c r h = h

one_field_lem :
    (b : List ℕ) (n size m : ℕ)
    → first_tag b ≡ some (1, 2, n)
    → first_number (drop n b) ≡ some (size, m)
    → n + m + size ≡ length b
    → chunk_of b ≡ some (drop (n + m) b)
one_field_lem [] n size m t v l = cc
one_field_lem (x ∷ r) zero size m t v l = absurd (ground (arith, t))
one_field_lem (x ∷ []) (suc zero) size m t v l = cc
one_field_lem (x ∷ y ∷ d) (suc zero) size zero t v l = absurd (ground (arith, v))
one_field_lem (x ∷ y ∷ d) (suc zero) size (suc zero) t v l = ground (arith, t, v, l)
one_field_lem (x ∷ y ∷ d) (suc zero) size (suc (suc m)) t v l = absurd (ground (arith, v))
one_field_lem (x ∷ r) (suc (suc n)) size m t v l = absurd (ground (arith, t))

tag_fits_lem : (b : List ℕ) (num typ n : ℕ) → first_tag b ≡ some (num, typ, n) → n ≤ length b
tag_fits_lem [] num typ n h = cc
tag_fits_lem (x ∷ xs) num typ n h = ground (arith, h)

wire-IsWire : IsWire wire
wire-IsWire = record {
  reads_tag = λ rest. refl;
  reads_varint = λ n rest h. refl;
  tag_fits = tag_fits_lem;
  more_tag = more_tag_lem;
  more_varint = more_number_lem;
  one_field = one_field_lem;
  no_field = refl;
}

abbrev reader : ℕ → List ℕ → List ℕ × Option (List ℕ)
reader n b = (take n b, if leb (length b) n then none else some (drop n b))

reader_splits : (n : ℕ) (b : List ℕ) → (reader n b).0 ++ or_nil (reader n b).1 ≡ b
reader_splits n b = elim (Bool-cases (leb (length b) n)) [
  | inl e ↦ rw (e, take-length_le n b (leb→le (length b) n e)) (append-nil b)
  | inr e ↦ rw e (take-append-drop n b)
]

reader-IsReader : IsReader reader
reader-IsReader = record {
  splits = reader_splits;
  fits = λ n b. omega (arith, length-take n b);
  moves = λ n x xs h. omega (arith, length-take n (x ∷ xs));
}

-- Five bytes in three buffers, with the header in the first.
abbrev split_message : List (List ℕ)
split_message = (10 ∷ 5 ∷ 7 ∷ []) ∷ (8 ∷ []) ∷ (9 ∷ 6 ∷ 5 ∷ []) ∷ []

unmarshal_is_base_example :
    Option.map concat (unmarshal_chunk wire split_message) ≡ some (7 ∷ 8 ∷ 9 ∷ 6 ∷ 5 ∷ [])
unmarshal_is_base_example = unmarshal_is_base wire wire-IsWire split_message

abbrev waiting_for : Stream
waiting_for = set_write_deadline (some 20) (new_stream true true)

write-Wrote_example :
    Wrote
      (1 ∷ [])
      10
      (timer_first true)
      waiting_for
      (write (1 ∷ []) 10 (timer_first true) waiting_for)
write-Wrote_example = write-Wrote (1 ∷ []) 10 (timer_first true) waiting_for

abbrev two_writes : List (List ℕ)
two_writes = (1 ∷ 2 ∷ []) ∷ (3 ∷ []) ∷ []

abbrev two_messages : List (ℕ × Receive)
two_messages = (0, arrives ((1 ∷ []) ∷ (2 ∷ []) ∷ [])) ∷ (0, arrives ((3 ∷ []) ∷ [])) ∷ []

written_is_read_example :
    let (rs, inbox, s) = read_all reader (1 ∷ 4 ∷ []) two_messages (new_stream false true) in
    all_bytes rs ++ content inbox s ≡ 1 ∷ 2 ∷ 3 ∷ []
unfolding marshal header write_all new_stream write unmarshal_chunk fast_header
written_is_read_example =
    written_is_read reader wire reader-IsReader wire-IsWire two_writes (1 ∷ 4 ∷ []) two_messages (
      ((10 ∷ 2 ∷ 1 ∷ []) ∷ (2 ∷ []) ∷ [], refl, refl),
      omega arith,
      (((10 ∷ 1 ∷ 3 ∷ []) ∷ [], refl, refl), omega arith, tt),
    )
