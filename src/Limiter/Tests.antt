-- ===== src/Limiter/Tests.antt =====
-- Three sessions come while the limits are exceeded, the third when they no longer are.
use tlswrapper.Base.{List, [], ◌∷◌, some, none, true, false, arith}
use tlswrapper.Limiter.{Config, Round, Listener, accept}
use tlswrapper.Limiter.Admission.{Admits, accept-Admits}

abbrev limits : Config
limits = record { start = 10; full = 60; max_sessions = 128 }

abbrev arrivals : List Round
arrivals =
    record { session = some 1; num_sessions = 5; num_half_open = 61; draw = false }
    ∷ record { session = some 2; num_sessions = 5; num_half_open = 11; draw = true }
    ∷ record { session = some 3; num_sessions = 5; num_half_open = 11; draw = false }
    ∷ record { session = none; num_sessions = 5; num_half_open = 0; draw = false }
    ∷ []

abbrev idle : Listener
idle = record { total = 0; served = 0; closed = [] }

accept-Admits_example :
    Admits limits arrivals idle
      (accept limits arrivals idle).0
      (accept limits arrivals idle).1
      (accept limits arrivals idle).2
accept-Admits_example = accept-Admits limits arrivals idle (omega arith)
