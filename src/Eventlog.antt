-- ===== src/Eventlog.antt =====
-- v4/eventlog/eventlog.go: the bounded log of recent events. A position out of bounds, where Go
-- panics, gives no entry; the log's states never read one.
pub mod Recents
pub mod Adds
pub mod Reads
mod Tests
use tlswrapper.Base.{
  ℕ, zero, suc, ◌+◌, ◌-◌, ◌%◌, ◌==◌, Str, str_eq, ltb, if◌then◌else◌, Bool, true, false, Option,
  none, some, List, [], ◌∷◌, ◌++◌, length, get_elem?, set,
}

pub record Entry : Type 0 where
  pub tstamp : ℕ
  pub message : Str
  pub count : ℕ

-- `cap` is the capacity of the slice `elements`.
pub record Recent : Type 0 where
  pub elements : List Entry
  pub lastpos : ℕ
  pub cap : ℕ

-- `NewRecent`
unfoldable pub new_recent : ℕ → Recent
new_recent sizelimit = record { elements = []; lastpos = 0; cap = sizelimit }

-- `if pos--; pos < 0 { pos = len(p.elements) - 1 }`
abbrev pub previous : ℕ → ℕ → ℕ
previous zero n = n - 1
previous (suc pos) n = pos

-- A new entry: appended while there is room, else over the oldest.
unfoldable pub push : Entry → Recent → Recent
push e p =
    if ltb (length p.elements) p.cap
    then record p { elements = p.elements ++ (e ∷ []); lastpos = (p.lastpos + 1) % p.cap }
    else record p {
      elements = set p.elements p.lastpos e;
      lastpos = (p.lastpos + 1) % length p.elements;
    }

-- `Add`: the newest entry counts a message that is repeated.
unfoldable pub add : ℕ → Str → Recent → Recent
unfolding push
add timestamp message p =
    let element : Entry = record { tstamp = timestamp; message = message; count = 1 } in
    let pos = previous p.lastpos (length p.elements) in
    elim (get_elem? p.elements pos) [
      | none ↦ push element p
      | some last ↦
          if str_eq last.message message
          then record p {
            elements =
                set p.elements pos
                  (record { tstamp = timestamp; message = last.message; count = last.count + 1 });
          }
          else push element p
    ]

-- A line of the output: `Format` prints the count only if it is not 1.
pub data Line : Type 0 where
  once : (tstamp : ℕ) (message : Str) → Line
  repeated : (tstamp : ℕ) (message : Str) (count : ℕ) → Line

unfoldable pub line : Entry → Line
line e = if e.count == 1 then once e.tstamp e.message else repeated e.tstamp e.message e.count

-- The loop of `Format`: the entries that it prints, from before `pos` backwards.
unfoldable pub entries_from : ℕ → ℕ → List Entry → List Entry
entries_from zero pos xs = []
entries_from (suc n) pos xs =
    let pos' = previous pos (length xs) in
    let rest = entries_from n pos' xs in elim (get_elem? xs pos') [ none ↦ [] | some e ↦ e ∷ rest ]

-- The lines that the writer takes; `written k` is whether the `k`-th write succeeds.
unfoldable pub write_lines : (ℕ → Bool) → ℕ → List Entry → List Line × Bool
write_lines written k [] = ([], true)
write_lines written k (e ∷ es) =
    let (out, ok) = write_lines written (suc k) es in
    if written k then (line e ∷ out, ok) else ([], false)

-- `Format`: the lines written, and whether it returns nil.
unfoldable pub format : (ℕ → Bool) → ℕ → Recent → List Line × Bool
format written n p =
    let m = if ltb (length p.elements) n then length p.elements else n in
    write_lines written 0 (entries_from m p.lastpos p.elements)
