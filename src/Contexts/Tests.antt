-- ===== src/Contexts/Tests.antt =====
-- Three contexts, one of which is released twice.
use tlswrapper.Base.{count, ◌≡◌, List, [], ◌∷◌, none}
use tlswrapper.Contexts.{new_manager, with_timeout, close, Call, ask, release, run}
use tlswrapper.Contexts.Once.{given, closed_cancels_once}

abbrev calls : List Call
calls = ask ∷ ask ∷ release 0 ∷ release 0 ∷ ask ∷ []

closed_cancels_once_example :
    (count 0 (close (run calls new_manager)).cancelled ≡ given 0 (run calls new_manager).issued)
    × ((with_timeout (close (run calls new_manager))).0 ≡ none)
closed_cancels_once_example = closed_cancels_once calls 0
