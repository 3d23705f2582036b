-- ===== src/Config/Startups.antt =====
-- `parseMaxStartups` of v4/config/loader.go, with the parts of strings.SplitN and strconv.Atoi it
-- uses.
use tlswrapper.Base.{
  ℕ, zero, suc, ◌+◌, ◌-◌, ◌*◌, ◌^◌, Str, ltb, leb, ◌==◌, if◌then◌else◌, Bool, true, false, ◌&&◌,
  ◌||◌, Option, none, some, List, [], ◌∷◌, ◌≡◌, arith, is_empty, inl, inr, Bool-cases,
}
use tlswrapper.Base.Int.{ℤ, pos, negsuc, sub_ℕ, ltb_ℤ, ◌≤ℤ◌}

-- The text before and after the first `sep`.
pub cut : ℕ → Str → Option (Str × Str)
cut sep [] = none
cut sep (c ∷ s) =
    if c == sep
    then some ([], s)
    else elim (cut sep s) [ none ↦ none | some (a, b) ↦ some (c ∷ a, b) ]

-- strings.SplitN with a positive bound of `suc n` parts.
unfoldable pub split_n : ℕ → ℕ → Str → List Str
unfolding cut
split_n sep zero s = s ∷ []
split_n sep (suc n) s = elim (cut sep s) [ none ↦ s ∷ [] | some (a, b) ↦ a ∷ split_n sep n b ]

pub data Digits : Type 0 where
  num : ℕ → Digits
  bad_syntax out_of_range : Digits

-- The digit loop of strconv.ParseUint, base 10 and 64 bits.
digits : ℕ → Str → Digits
digits acc [] = num acc
digits acc (c ∷ s) =
    let n = acc * 10 + (c - b'0') in
    let rest = digits n s in
    if leb b'0' c && leb c b'9' then if leb (2 ^ 64) n then out_of_range else rest else bad_syntax

abbrev min_int64 : ℤ
min_int64 = negsuc (2 ^ 63 - 1)

abbrev max_int64 : ℤ
max_int64 = pos (2 ^ 63 - 1)

-- The value, and whether it stands beside an error.
signed : Bool → Digits → ℤ × Bool
signed minus (num n) =
    if minus
    then if ltb (2 ^ 63) n then (min_int64, true) else (sub_ℕ 0 n, false)
    else if leb (2 ^ 63) n
    then (max_int64, true)
    else (pos n, false)
signed minus bad_syntax = (pos 0, true)
signed minus out_of_range = (if minus then min_int64 else max_int64, true)

unsigned_text : Bool → Str → ℤ × Bool
unfolding signed digits
unsigned_text minus s = if is_empty s then (pos 0, true) else signed minus (digits 0 s)

-- strconv.Atoi.
unfoldable pub atoi : Str → ℤ × Bool
unfolding unsigned_text
atoi [] = (pos 0, true)
atoi (c ∷ s) =
    if c == b'-'
    then unsigned_text true s
    else if c == b'+'
    then unsigned_text false s
    else unsigned_text false (c ∷ s)

pub data StartupsError : Type 0 where
  bad_format bad_start bad_rate bad_full : StartupsError

-- The named results `start, rate, full, err`.
pub record Startups : Type 0 where
  pub start : ℤ
  pub rate : ℤ
  pub full : ℤ
  pub err : Option StartupsError

abbrev pub no_startups : Startups
no_startups = record { start = pos 0; rate = pos 0; full = pos 0; err = none }

unfoldable pub parse_full : Startups → Str → Startups
parse_full r s =
    let (v, bad) = atoi s in
    let r' = record r { full = v } in
    if bad || ltb_ℤ v r.start then record r' { err = some bad_full } else r'

unfoldable pub parse_rate : Startups → Str → Str → Startups
unfolding parse_full
parse_rate r s t =
    let (v, bad) = atoi s in
    let r' = record r { rate = v } in
    if bad || ltb_ℤ v (pos 0) || ltb_ℤ (pos 100) v
    then record r' { err = some bad_rate }
    else parse_full r' t

unfoldable pub parse_start : Str → Str → Str → Startups
unfolding parse_rate
parse_start s t u =
    let (v, bad) = atoi s in
    let r' = record no_startups { start = v } in
    if bad || ltb_ℤ v (pos 1) then record r' { err = some bad_start } else parse_rate r' t u

unfoldable pub parse_parts : List Str → Startups
unfolding parse_start
parse_parts (s ∷ t ∷ u ∷ []) = parse_start s t u
parse_parts _ = record no_startups { err = some bad_format }

unfoldable pub parse_max_startups : Str → Startups
unfolding parse_parts
parse_max_startups s = parse_parts (split_n b':' 2 s)

-- What `hlistener` and `hardenedMuxListener` are given.
pub record IsThrottle (r : Startups) : Type 0 where
  pub start_pos : pos 1 ≤ℤ r.start
  pub rate_pos : pos 0 ≤ℤ r.rate
  pub rate_le : r.rate ≤ℤ pos 100
  pub full_le : r.start ≤ℤ r.full

parse_full-IsThrottle :
    (r : Startups) (s : Str)
    → pos 1 ≤ℤ r.start
    → (pos 0 ≤ℤ r.rate) × (r.rate ≤ℤ pos 100)
    → (parse_full r s).err ≡ none
    → IsThrottle (parse_full r s)
unfolding parse_full
parse_full-IsThrottle r s a b h = ground arith

parse_start-IsThrottle :
    (s t u : Str) → (parse_start s t u).err ≡ none → IsThrottle (parse_start s t u)
unfolding parse_start
parse_start-IsThrottle s t u h = elim (Bool-cases ((atoi s).1 || ltb_ℤ (atoi s).0 (pos 1))) [
  | inl bad ↦ ground arith
  | inr good ↦ ground (
    arith,
    parse_full-IsThrottle (record no_startups { start = (atoi s).0; rate = (atoi t).0 }) u,
  )
]

parse_parts-IsThrottle :
    (parts : List Str) → (parse_parts parts).err ≡ none → IsThrottle (parse_parts parts)
unfolding parse_parts
parse_parts-IsThrottle (s ∷ t ∷ u ∷ []) h = parse_start-IsThrottle s t u h
parse_parts-IsThrottle _ h = cc

-- A text that parses without an error gives a start of at least 1, a rate from 0 to 100, and a full
-- limit of at least the start.
pub parse_max_startups-IsThrottle :
    (s : Str) → (parse_max_startups s).err ≡ none → IsThrottle (parse_max_startups s)
unfolding parse_max_startups
parse_max_startups-IsThrottle s h = parse_parts-IsThrottle (split_n b':' 2 s) h
