-- ===== src/H2mux/Codec.antt =====
-- `rawChunkCodec` of v4/mux/h2mux/codec.go. A message is a list of buffers of bytes; the counts of
-- references to the transport's buffers are left out.
pub mod RoundTrip
use tlswrapper.Base.{
  ℕ, ◌+◌, ◌-◌, ◌%◌, ◌^◌, ◌==◌, leb, if◌then◌else◌, Bool, true, false, ◌&&◌, not, Option, none, some,
  List, [], ◌∷◌, ◌++◌, is_empty, length, drop, concat,
}

-- The calls of `protowire` and of the original proto codec: a tag and a number as their bytes, and
-- the same read from the front of some bytes, with how many there were. `base_chunk` is the data
-- field of a `muxpb.Chunk`; another message is a number.
pub record Wire : Type 0 where
  pub tag : ℕ → ℕ → List ℕ
  pub varint : ℕ → List ℕ
  pub consume_tag : List ℕ → Option (ℕ × ℕ × ℕ)
  pub consume_varint : List ℕ → Option (ℕ × ℕ)
  pub base_chunk : List ℕ → Option (List ℕ)
  pub base_marshal : ℕ → Option (List (List ℕ))
  pub base_unmarshal : List (List ℕ) → Option ℕ

abbrev pub raw_chunk_field : ℕ
raw_chunk_field = 1

-- `protowire.BytesType`
abbrev pub bytes_type : ℕ
bytes_type = 2

-- The dynamic types that the codec tells apart.
pub data Value : Type 0 where
  raw_chunk : (payload : List ℕ) → Value
  message : ℕ → Value

pub data Decoded : Type 0 where
  chunk : (bufs : List (List ℕ)) → Decoded
  decoded : ℕ → Decoded

-- Without the buffers that hold nothing: `rest.Len() > 0`, `len(msg.Data) > 0`.
abbrev pub unless_empty : List ℕ → List (List ℕ)
unless_empty [] = []
unless_empty (b ∷ bs) = (b ∷ bs) ∷ []

module _ (w : Wire) where
  unfoldable pub header : List ℕ → List ℕ
  header payload = w.tag raw_chunk_field bytes_type ++ w.varint (length payload)

  unfoldable pub marshal : Value → Option (List (List ℕ))
  marshal (message m) = w.base_marshal m
  marshal (raw_chunk []) = some []
  marshal (raw_chunk (b ∷ bs)) = some ((header (b ∷ bs) ++ (b ∷ bs)) ∷ [])

  unfoldable pub unmarshal_slow : List (List ℕ) → Option (List (List ℕ))
  unmarshal_slow bufs = elim (w.base_chunk (concat bufs)) [
    | none ↦ none
    | some d ↦ some (unless_empty d)
  ]

  -- How many bytes of the first buffer the header takes, where the fast path can be taken.
  -- `int64` of two numbers below 2^64 is equal exactly where they are.
  unfoldable pub fast_header : List ℕ → ℕ → Option ℕ
  fast_header first total = elim (w.consume_tag first) [
    | none ↦ none
    | some (num, typ, n) ↦
        if (num == raw_chunk_field) && (typ == bytes_type)
        then elim (w.consume_varint (drop n first)) [
          | none ↦ none
          | some (size, m) ↦
              if leb (n + m) (length first) && (size == (total - (n + m)))
              then some (n + m)
              else none
        ]
        else none
  ]

  -- `Unmarshal` into a `rawChunk`: the buffers, or `none` for an error.
  unfoldable pub unmarshal_chunk : List (List ℕ) → Option (List (List ℕ))
  unmarshal_chunk [] = some []
  unmarshal_chunk (first ∷ more) =
      if length (concat (first ∷ more)) == 0
      then some []
      else elim (fast_header first (length (concat (first ∷ more)))) [
        | none ↦ unmarshal_slow (first ∷ more)
        | some off ↦ some (unless_empty (drop off first) ++ more)
      ]

  -- `into_chunk` is whether the target is a `rawChunk`.
  unfoldable pub unmarshal : Bool → List (List ℕ) → Option Decoded
  unmarshal true bufs = elim (unmarshal_chunk bufs) [ none ↦ none | some bs ↦ some (chunk bs) ]
  unmarshal false bufs = elim (w.base_unmarshal bufs) [ none ↦ none | some m ↦ some (decoded m) ]
