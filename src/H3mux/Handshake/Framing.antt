-- ===== src/H3mux/Handshake/Framing.antt =====
-- A message is read back from the bytes that `writeHandshake` writes.
use tlswrapper.Base.{
  ℕ, ◌%◌, ◌^◌, ◌≤◌, ◌<◌, ◌≡◌, refl, ap, ◌∙◌, ltb, ge→ltb, inl, inr, true, false, none, some, List,
  [], ◌∷◌, ◌++◌, length, take, length-append, drop-append_length, arith, Option-cases,
}
use mathlib.Core.List.{append_assoc}
use tlswrapper.H3mux.Utf8.{is_utf8}
use tlswrapper.H3mux.Handshake.{
  HandshakeMsg, Json, max_handshake_msg_size, ok, put_uint32, uint32, read_full, Writer,
  write_handshake, read_handshake,
}

take-append_length {ℓ} : {A : Type ℓ} (xs ys : List A) → take (length xs) (xs ++ ys) ≡ xs
take-append_length [] ys = refl
take-append_length (x ∷ xs) ys = ap (◌∷◌ x) (take-append_length xs ys)

read_full-append : (xs ys : List ℕ) → read_full (length xs) (xs ++ ys) ≡ some (xs, ys)
unfolding read_full
read_full-append xs ys =
    let enough : ltb (length (xs ++ ys)) (length xs) ≡ false =
      ge→ltb _ _ (λ h. omega (arith, length-append xs ys)) in
    rw (enough, take-append_length xs ys, drop-append_length xs ys) refl

uint32-put_uint32 : (v : ℕ) → v < 2 ^ 32 → uint32 (put_uint32 v) ≡ v
unfolding uint32 put_uint32
uint32-put_uint32 v h = omega arith

-- A body that is short enough is read whole, with what follows left over.
frame-read :
    (json : Json) (body rest : List ℕ) (msg : HandshakeMsg)
    → length body ≤ max_handshake_msg_size
    → json.unmarshal body ≡ some msg
    → read_handshake json (put_uint32 (length body % 2 ^ 32) ++ (body ++ rest)) ≡ ok (msg, rest)
unfolding read_handshake
frame-read json body rest msg l u =
    let hdr = put_uint32 (length body % 2 ^ 32) in
    let first : read_full 4 (hdr ++ (body ++ rest)) ≡ some (hdr, body ++ rest) =
      unfold put_uint32 in read_full-append hdr (body ++ rest) in
    let small : length body % 2 ^ 32 ≡ length body = omega arith in
    let size : uint32 hdr ≡ length body = uint32-put_uint32 _ (omega arith) ∙ small in
    let fits : ltb max_handshake_msg_size (length body) ≡ false = ge→ltb _ _ (λ h. omega arith) in
    rw (read_handshake, first, size, fits, read_full-append body rest, u) refl

-- What the code relies on of the JSON package: it decodes what it encodes, where the string is valid
-- UTF-8.
abbrev pub IsJson : Json → Type 0
IsJson json =
    (msg : HandshakeMsg) (body : List ℕ)
    → is_utf8 msg.identity ≡ true
    → json.marshal msg ≡ some body
    → json.unmarshal body ≡ some msg

-- A write that reports no error has written the body, which is short enough, behind its length.
written :
    (json : Json) (w : Writer) (msg : HandshakeMsg)
    → (write_handshake json w msg).1 ≡ none
    → (body : List ℕ) × (json.marshal msg ≡ some body)
      × (length body ≤ max_handshake_msg_size)
      × ((write_handshake json w msg).0 ≡ put_uint32 (length body % 2 ^ 32) ++ body)
unfolding write_handshake
written json w msg h = elim (Option-cases (json.marshal msg)) [
  | inl e ↦ absurd (ground (arith, e, h))
  | inr (body, e) ↦ (body, e, ground (arith, e, h), ground (arith, e, h))
]

-- Where writeHandshake reports no error, readHandshake gives the message from what was written and
-- leaves whatever follows it, for an identity in UTF-8. The JSON package is assumed to decode what it
-- encodes of such.
pub read_handshake-write_handshake :
    (json : Json) (w : Writer) (msg : HandshakeMsg) (rest : List ℕ)
    → IsJson json
    → is_utf8 msg.identity ≡ true
    → (write_handshake json w msg).1 ≡ none
    → read_handshake json ((write_handshake json w msg).0 ++ rest) ≡ ok (msg, rest)
read_handshake-write_handshake json w msg rest law u h =
    let (body, e, l, bytes) = written json w msg h in
    rw (bytes, append_assoc (put_uint32 (length body % 2 ^ 32)) body rest)
      (frame-read json body rest msg l (law msg body u e))
