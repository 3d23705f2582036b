-- ===== src/Contexts.antt =====
-- `contextMgr` of v4/context.go: the timeout contexts that a shutdown cancels. A context is a
-- number, given out in order; its own timeout is left out.
pub mod Once
mod Tests
use tlswrapper.Base.{
  mem, remove, ℕ, ◌+◌, ◌==◌, ◌||◌, if◌then◌else◌, Bool, true, false, Option, none, some, List, [],
  ◌∷◌, ◌++◌,
}

-- `contexts` is `none` for the nil map. `cancelled` are the calls of cancel functions, the last
-- first, and `issued` is how many contexts were given out.
pub record Manager : Type 0 where
  pub contexts : Option (List ℕ)
  pub cancelled : List ℕ
  pub issued : ℕ

-- The manager as `NewServer` makes it.
unfoldable pub new_manager : Manager
new_manager = record { contexts = some []; cancelled = []; issued = 0 }

unfoldable pub with_timeout : Manager → Option ℕ × Manager
with_timeout m = elim m.contexts [
  | none ↦ (none, m)
  | some cs ↦ (some m.issued, record m { contexts = some (m.issued ∷ cs); issued = m.issued + 1 })
]

unfoldable pub cancel : ℕ → Manager → Manager
cancel i m = elim m.contexts [
  | none ↦ m
  | some cs ↦
      if mem i cs
      then record m { contexts = some (remove i cs); cancelled = i ∷ m.cancelled }
      else m
]

unfoldable pub close : Manager → Manager
close m = elim m.contexts [
  | none ↦ m
  | some cs ↦ record m { contexts = none; cancelled = cs ++ m.cancelled }
]

-- The calls of the goroutines, in the order in which they get the mutex.
pub data Call : Type 0 where
  ask : Call
  release : ℕ → Call
  shut : Call

unfoldable pub step : Call → Manager → Manager
step ask m = (with_timeout m).1
step (release i) m = cancel i m
step shut m = close m

unfoldable pub run : List Call → Manager → Manager
run [] m = m
run (c ∷ cs) m = run cs (step c m)
