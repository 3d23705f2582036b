-- ===== src/Eventlog/Tests.antt =====
-- A log of two entries, with a repeated message.
use tlswrapper.Base.{ℕ, Str, lit, List, [], ◌∷◌, ◌≡◌, refl, Bool, true, take, map, arith}
use tlswrapper.Eventlog.{line, new_recent, format}
use tlswrapper.Eventlog.Adds.{add_all, remember_all}
use tlswrapper.Eventlog.Reads.{format-add_all}

abbrev history : List (ℕ × Str)
history = (1, lit "up") ∷ (2, lit "down") ∷ (3, lit "down") ∷ (4, lit "up") ∷ []

abbrev every_line : ℕ → Bool
every_line i = true

format-add_all_example :
    format every_line 5 (add_all history (new_recent 2))
    ≡ (map line (take 5 (remember_all 2 history [])), true)
format-add_all_example = format-add_all every_line 5 2 history (omega arith) (λ i. refl)
