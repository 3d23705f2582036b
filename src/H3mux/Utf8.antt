-- ===== src/H3mux/Utf8.antt =====
-- UTF-8 as Go's unicode/utf8 has it: of a string that is valid, encoding/json writes every character,
-- where it replaces the bytes of one that is not.
use tlswrapper.Base.{
  ℕ, leb, ◌&&◌, if◌then◌else◌, Bool, true, false, Option, none, some, List, [], ◌∷◌, Str,
}

-- The ranges of the bytes that follow a first byte; none for one that starts no character.
abbrev followers : ℕ → Option (List (ℕ × ℕ))
followers b =
    if leb b 0x7f
    then some []
    else if leb 0xc2 b && leb b 0xdf
    then some ((0x80, 0xbf) ∷ [])
    else if leb 0xe0 b && leb b 0xe0
    then some ((0xa0, 0xbf) ∷ (0x80, 0xbf) ∷ [])
    else if leb 0xed b && leb b 0xed
    then some ((0x80, 0x9f) ∷ (0x80, 0xbf) ∷ [])
    else if leb 0xe1 b && leb b 0xef
    then some ((0x80, 0xbf) ∷ (0x80, 0xbf) ∷ [])
    else if leb 0xf0 b && leb b 0xf0
    then some ((0x90, 0xbf) ∷ (0x80, 0xbf) ∷ (0x80, 0xbf) ∷ [])
    else if leb 0xf1 b && leb b 0xf3
    then some ((0x80, 0xbf) ∷ (0x80, 0xbf) ∷ (0x80, 0xbf) ∷ [])
    else if leb 0xf4 b && leb b 0xf4
    then some ((0x80, 0x8f) ∷ (0x80, 0xbf) ∷ (0x80, 0xbf) ∷ [])
    else none

-- The rest of a string, in a character that the ranges are still to come of.
abbrev valid_from : List (ℕ × ℕ) → Str → Bool
valid_from [] [] = true
valid_from (r ∷ rs) [] = false
valid_from ((lo, hi) ∷ rs) (b ∷ bs) = let rest = valid_from rs bs in leb lo b && leb b hi && rest
valid_from [] (b ∷ bs) = elim (followers b) [ none ↦ false | some rs ↦ valid_from rs bs ]

-- `utf8.ValidString`
abbrev pub is_utf8 : Str → Bool
is_utf8 s = valid_from [] s
