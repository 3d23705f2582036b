-- ===== src/Latency/Tests.antt =====
-- The percentiles of a few samples.
use mathlib.Core.List.{foldl}
use tlswrapper.Base.{ℕ, List, [], ◌∷◌}
use tlswrapper.Latency.{percentiles, new_ring}
use tlswrapper.Latency.History.{remember, record_all}
use tlswrapper.Latency.Ranks.{Reports, percentiles-record_all}

abbrev few : List ℕ
few = 50 ∷ 7 ∷ 300 ∷ 20 ∷ []

percentiles-record_all_example :
    Reports (foldl remember [] few) (percentiles (record_all new_ring few))
percentiles-record_all_example = percentiles-record_all few
