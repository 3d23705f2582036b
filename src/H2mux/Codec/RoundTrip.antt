-- ===== src/H2mux/Codec/RoundTrip.antt =====
-- The fast path against the proto codec, and against what `Marshal` writes.
use tlswrapper.Base.{
  ℕ, ◌+◌, ◌-◌, ◌^◌, ◌≤◌, ◌<◌, ◌≡◌, refl, sym, ap, ◌∙◌, inl, inr, ◌==◌, true, some, List, [], ◌∷◌,
  ◌++◌, append-nil, length, length-append, drop, concat, drop-append_le, drop-append_length,
  drop-drop, arith, Bool-cases, Option-cases,
}
use mathlib.Core.List.{append_assoc}
use mathlib.Core.Option.{some-injective}
use mathlib.Core.Option
use tlswrapper.H2mux.Codec.{
  Wire, raw_chunk_field, bytes_type, raw_chunk, unless_empty, header, marshal, unmarshal_slow,
  fast_header, unmarshal_chunk,
}

-- What the code relies on of `protowire` and of the proto codec. The tag of the field and a
-- number are read back from bytes that are there, whatever follows them; and a message that is one field, of bytes
-- and with the chunk's number, up to its end is the chunk of those bytes, as the empty one is of none.
pub record IsWire (w : Wire) : Type 0 where
  pub reads_tag :
      (rest : List ℕ)
      → w.consume_tag (w.tag raw_chunk_field bytes_type ++ rest)
        ≡ some (raw_chunk_field, bytes_type, length (w.tag raw_chunk_field bytes_type))
  pub reads_varint :
      (n : ℕ) (rest : List ℕ)
      → n < 2 ^ 64
      → w.consume_varint (w.varint n ++ rest) ≡ some (n, length (w.varint n))
  pub tag_fits : (b : List ℕ) (num typ n : ℕ) → w.consume_tag b ≡ some (num, typ, n) → n ≤ length b
  pub more_tag :
      (b c : List ℕ) (r : ℕ × ℕ × ℕ) → w.consume_tag b ≡ some r → w.consume_tag (b ++ c) ≡ some r
  pub more_varint :
      (b c : List ℕ) (r : ℕ × ℕ) → w.consume_varint b ≡ some r → w.consume_varint (b ++ c) ≡ some r
  pub one_field :
      (b : List ℕ) (n size m : ℕ)
      → w.consume_tag b ≡ some (1, 2, n)
      → w.consume_varint (drop n b) ≡ some (size, m)
      → n + m + size ≡ length b
      → w.base_chunk b ≡ some (drop (n + m) b)
  pub no_field : w.base_chunk [] ≡ some []

-- The fast path is taken: the header stands in the first buffer, and its size runs to the end.
record FastHeader (w : Wire) (first : List ℕ) (total off : ℕ) : Type 0 where
  n : ℕ
  size : ℕ
  m : ℕ
  tagged : w.consume_tag first ≡ some (1, 2, n)
  sized : w.consume_varint (drop n first) ≡ some (size, m)
  inside : n + m ≤ length first
  whole : size ≡ total - (n + m)
  offset : off ≡ n + m

concat-unless_empty : (d : List ℕ) → concat (unless_empty d) ≡ d
concat-unless_empty [] = refl
concat-unless_empty (b ∷ bs) = append-nil (b ∷ bs)

concat-unless_append :
    (d : List ℕ) (more : List (List ℕ)) → concat (unless_empty d ++ more) ≡ d ++ concat more
concat-unless_append [] more = refl
concat-unless_append (b ∷ bs) more = refl

module _ (w : Wire) where
  fast_header-FastHeader :
      (first : List ℕ) (total off : ℕ)
      → fast_header w first total ≡ some off
      → FastHeader w first total off
  unfolding fast_header
  fast_header-FastHeader first total off h = elim (Option-cases (w.consume_tag first)) [
    | inl e ↦ cc (e, h)
    | inr ((num, typ, n), e) ↦ elim (Option-cases (w.consume_varint (drop n first))) [
      | inl f ↦ absurd (ground (arith, e, f, h))
      | inr ((size, m), f) ↦ record {
        n = n;
        size = size;
        m = m;
        tagged = ground (arith, e, f, h);
        sized = f;
        inside = ground (arith, e, f, h);
        whole = ground (arith, e, f, h);
        offset = ground (arith, e, f, h);
      }
    ]
  ]

no_bytes : (xs : List ℕ) → (length xs == 0) ≡ true → xs ≡ []
no_bytes [] h = refl
no_bytes (x ∷ xs) h = absurd (ground (arith, h))

module _ (w : Wire) (laws : IsWire w) where
  -- A header in the first buffer is one of the whole message.
  fast-base :
      (first rest : List ℕ) (off : ℕ)
      → FastHeader w first (length (first ++ rest)) off
      → w.base_chunk (first ++ rest) ≡ some (drop off first ++ rest)
  fast-base first rest off h =
      let n_le = laws.tag_fits first 1 2 h.n h.tagged in
      let later : drop h.n (first ++ rest) ≡ drop h.n first ++ rest =
        drop-append_le h.n first rest n_le in
      let sized : w.consume_varint (drop h.n (first ++ rest)) ≡ some (h.size, h.m) =
        rw later (laws.more_varint (drop h.n first) rest _ h.sized) in
      laws.one_field (first ++ rest) h.n h.size h.m (laws.more_tag first rest _ h.tagged) sized
        (omega (arith, h.whole, h.inside, length-append first rest))
      ∙ rw h.offset (ap some (drop-append_le (h.n + h.m) first rest h.inside))

  slow-base :
      (bufs : List (List ℕ))
      → Option.map concat (unmarshal_slow w bufs) ≡ w.base_chunk (concat bufs)
  unfolding unmarshal_slow
  slow-base bufs = elim (Option-cases (w.base_chunk (concat bufs))) [
    | inl e ↦ rw (unmarshal_slow, e) refl
    | inr (d, e) ↦ rw (unmarshal_slow, e) (ap some (concat-unless_empty d))
  ]

  unmarshal_chunk-base_lem :
      (bufs : List (List ℕ))
      → Option.map concat (unmarshal_chunk w bufs) ≡ w.base_chunk (concat bufs)
  unfolding unmarshal_chunk
  unmarshal_chunk-base_lem [] = sym laws.no_field
  unmarshal_chunk-base_lem (first ∷ more) =
      elim (Bool-cases (length (concat (first ∷ more)) == 0)) [
        | inl e ↦ rw e (rw (no_bytes (concat (first ∷ more)) e) (sym laws.no_field))
        | inr e ↦ elim (Option-cases (fast_header w first (length (concat (first ∷ more))))) [
          | inl f ↦ rw (e, f) (slow-base (first ∷ more))
          | inr (off, f) ↦
              rw (e, f)
                (ap some (concat-unless_append (drop off first) more)
                  ∙ sym (
                      fast-base first (concat more) off
                        (fast_header-FastHeader w first (length (concat (first ∷ more))) off f)))
        ]
      ]

  -- What `Marshal` writes of a payload is the one field that the proto codec reads.
  base-header : (p : List ℕ) → length p < 2 ^ 64 → w.base_chunk (header w p ++ p) ≡ some p
  unfolding header
  base-header p h =
      let t = w.tag raw_chunk_field bytes_type in
      let v = w.varint (length p) in
      let split : (t ++ v) ++ p ≡ t ++ (v ++ p) = append_assoc t v p in
      let after : drop (length t) (t ++ (v ++ p)) ≡ v ++ p = drop-append_length t (v ++ p) in
      let n : length (t ++ (v ++ p)) ≡ length t + length v + length p =
        omega (arith, length-append t (v ++ p), length-append v p) in
      rw split (
        laws.one_field (t ++ (v ++ p)) (length t) (length p) (length v) (laws.reads_tag (v ++ p))
          (rw after (laws.reads_varint (length p) p h)) (omega (arith, n))
        ∙ ap some (
            sym (drop-drop (length v) (length t) (length t + length v) (t ++ (v ++ p)) refl)
            ∙ rw after (drop-append_length v p)))

  marshal-base :
      (p bytes : List ℕ)
      → length p < 2 ^ 64
      → Option.map concat (marshal w (raw_chunk p)) ≡ some bytes
      → w.base_chunk bytes ≡ some p
  unfolding marshal
  marshal-base [] bytes h e =
      let same : [] ≡ bytes = some-injective _ _ e in rw (sym same) laws.no_field
  marshal-base (b ∷ bs) bytes h e =
      let same = some-injective _ _ e in
      rw (sym same, append-nil (header w (b ∷ bs) ++ (b ∷ bs))) (base-header (b ∷ bs) h)

-- Unmarshal into a rawChunk reads from any message, however its bytes stand in the transport's
-- buffers, what the proto codec reads from those bytes, and fails where that fails. `protowire` and
-- the proto codec are assumed to read what they write, and a message of one field as that field.
pub unmarshal_is_base :
    (w : Wire)
    → IsWire w
    → (bufs : List (List ℕ))
    → Option.map concat (unmarshal_chunk w bufs) ≡ w.base_chunk (concat bufs)
unmarshal_is_base w laws bufs = unmarshal_chunk-base_lem w laws bufs

-- Under the same assumptions: a payload of fewer than 2^64 bytes that Marshal writes is what
-- Unmarshal reads, however the bytes stand in the transport's buffers.
pub unmarshal-marshal :
    (w : Wire)
    → IsWire w
    → (payload : List ℕ) (bufs : List (List ℕ)) → length payload < 2 ^ 64
    → Option.map concat (marshal w (raw_chunk payload)) ≡ some (concat bufs)
    → Option.map concat (unmarshal_chunk w bufs) ≡ some payload
unmarshal-marshal w laws payload bufs h e =
    unmarshal_is_base w laws bufs ∙ marshal-base w laws payload (concat bufs) h e
