-- ===== src/Limiter.antt =====
-- v4/muxlimiter.go: the listener that throttles mux sessions. What the listener below answers, the
-- counters at that moment and the comparison of `rand.Float64()` with the rate are arguments.
pub mod Admission
mod Tests
use tlswrapper.Base.{
  ℕ, suc, ◌+◌, ◌%◌, ◌^◌, ltb, if◌then◌else◌, Bool, true, false, ◌&&◌, Option, none, some, List, [],
  ◌∷◌,
}
use tlswrapper.Tunnel.{add_u64}

-- `hardenedMuxListenerConfig`; all are uint32.
pub record Config : Type 0 where
  pub start : ℕ
  pub full : ℕ
  pub max_sessions : ℕ

-- One round of the loop in `Accept`: the session or an error, `c.Stats()`, and the draw.
pub record Round : Type 0 where
  pub session : Option ℕ
  pub num_sessions : ℕ
  pub num_half_open : ℕ
  pub draw : Bool

-- `isLimited`
unfoldable pub is_limited : Config → Round → Bool
is_limited c r =
    if ltb 0 c.max_sessions && ltb c.max_sessions r.num_sessions
    then true
    else if ltb 0 c.full && ltb c.full r.num_half_open
    then true
    else if ltb 0 c.start && ltb c.start r.num_half_open
    then r.draw
    else false

-- The counters, and the sessions closed by the listener, the last first.
pub record Listener : Type 0 where
  pub total : ℕ  -- uint64
  pub served : ℕ  -- uint64
  pub closed : List ℕ

pub data Answer : Type 0 where
  accepted : ℕ → Answer
  failed : Answer
  waiting : Answer  -- the rounds given are used up, and the loop goes on

-- `Accept`, over the rounds that the listener below has ready; it gives back those left.
unfoldable pub accept : Config → List Round → Listener → Answer × Listener × List Round
accept c [] l = (waiting, l, [])
accept c (r ∷ rs) l = elim r.session [
  | none ↦ (failed, l, rs)
  | some i ↦
      let l' = record l { total = add_u64 l.total 1 } in
      let rest = accept c rs (record l' { closed = i ∷ l'.closed }) in
      if is_limited c r then rest else (accepted i, record l' { served = add_u64 l'.served 1 }, rs)
]
