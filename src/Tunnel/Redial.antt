-- ===== src/Tunnel/Redial.antt =====
-- `dial`, `redial`, `schedule`, `maintenance` and `OpenStream` of v4/tunnel.go. What the network
-- and the goroutine group answer is an argument.
pub mod Backoff
pub mod Outcomes
use tlswrapper.Base.{
  ℕ, zero, suc, ◌+◌, ◌-◌, ◌*◌, ◌/◌, ◌^◌, ◌≤◌, ◌<◌, ◌≡◌, refl, Str, is_empty, ltb, leb, ◌||◌, not,
  if◌then◌else◌, Bool, true, false, Option, none, some, List, [], ◌∷◌, get_or, length, arith,
}
use tlswrapper.Tunnel.{Tunnel, World, get_session, add_session, close_session, finalize_session}

pub data DialError : Type 0 where
  no_dial_address dial_in_progress tunnel_stopped no_session : DialError
  dial_failed group_closed open_failed : DialError

pub data Result (A : Type 0) : Type 0 where
  ok : A → Result A
  err : DialError → Result A

-- Whether the three calls of `t.s.g.Go` in `dial` succeed.
pub record Spawns : Type 0 where
  pub finalizer : Bool
  pub closer : Bool
  pub accepter : Bool

-- Up to the wait for the network: the checks, and `t.dialMu.TryLock()`.
unfoldable pub dial_begin : Tunnel → Result Tunnel
dial_begin t =
    if is_empty t.dial_addr
    then err no_dial_address
    else if t.dialing
    then err dial_in_progress
    else ok (record t { dialing = true })

unfoldable pub unlock : Tunnel → Tunnel
unlock t = record t { dialing = false }

-- After `addSession`: the goroutines that serve the session.
unfoldable pub spawn_watchers : ℕ → ℕ → Spawns → Tunnel → World → Result ℕ × Tunnel × World
unfolding unlock
spawn_watchers now i go t w =
    if not go.finalizer
    then (let (t', w') = finalize_session now i t (close_session i w) in
        (err group_closed, unlock t', w'))
    else (let w' = record w { watchers = i ∷ w.watchers } in
        if not go.closer || not go.accepter
        then (err group_closed, unlock t, close_session i w')
        else (ok i, unlock t, w'))

unfoldable pub added :
    ℕ → ℕ → Spawns → Tunnel → World → Option (Tunnel × World) → Result ℕ × Tunnel × World
unfolding unlock spawn_watchers
added now i go t w none = (err tunnel_stopped, unlock t, close_session i w)
added now i go t w (some (t', w')) = spawn_watchers now i go t' w'

-- From the answer of `Dial` on; the deferred unlock comes last.
unfoldable pub dial_end : ℕ → Option ℕ → Spawns → Tunnel → World → Result ℕ × Tunnel × World
unfolding unlock added
dial_end now none go t w = (err dial_failed, unlock t, w)
dial_end now (some i) go t w = added now i go t w (add_session now i t w)

unfoldable pub dial_from :
    ℕ → Option ℕ → Spawns → Tunnel → World → Result Tunnel → Result ℕ × Tunnel × World
dial_from now answer go t w (err e) = (err e, t, w)
dial_from now answer go t w (ok t') = dial_end now answer go t' w

-- The whole of `dial`, when nothing else happens to the tunnel meanwhile.
unfoldable pub dial : ℕ → Option ℕ → Spawns → Tunnel → World → Result ℕ × Tunnel × World
unfolding dial_from
dial now answer go t w = dial_from now answer go t w (dial_begin t)

-- `math.MaxInt` on a 64-bit system.
abbrev pub max_int : ℕ
max_int = 2 ^ 63 - 1

-- The errors that `redial` does not count.
abbrev pub is_benign : DialError → Bool
is_benign no_dial_address = true
is_benign dial_in_progress = true
is_benign tunnel_stopped = true
is_benign _ = false

-- `redial`, after its call of `dial`.
unfoldable pub redial_done : Result ℕ → Tunnel → Tunnel
redial_done (ok i) t = record t { redial_count = 0 }
redial_done (err e) t =
    if is_benign e
    then record t { redial_count = 0 }
    else if ltb t.redial_count max_int
    then record t { redial_count = t.redial_count + 1 }
    else t

-- `redial`; without a context (`ctx == nil`, the manager is closed) it does nothing.
unfoldable pub redial : ℕ → Bool → Option ℕ → Spawns → Tunnel → World → Tunnel × World
redial now has_ctx answer go t w =
    if has_ctx then (let (r, t', w') = dial now answer go t w in (redial_done r t', w')) else (t, w)

-- `maintenance`
unfoldable pub maintenance : ℕ → Bool → Bool → Option ℕ → Spawns → Tunnel → World → Tunnel × World
maintenance now no_redial has_ctx answer go t w = elim (get_session t w) [
  | some i ↦ (t, w)
  | none ↦ if no_redial || is_empty t.dial_addr then (t, w) else redial now has_ctx answer go t w
]

-- `OpenStream`; `opened` is whether `ss.Open` succeeds.
unfoldable pub open_stream :
    ℕ → Option ℕ → Spawns → Bool → Tunnel → World → Result ℕ × Tunnel × World
open_stream now answer go opened t w = elim (get_session t w) [
  | some i ↦ (if opened then ok i else err open_failed, t, w)
  | none ↦
      if is_empty t.dial_addr
      then (err no_session, t, w)
      else (let (r, t', w') = dial now answer go t w in
          elim r [
            | err e ↦ (err e, t', w')
            | ok i ↦ (if opened then ok i else err open_failed, t', w')
          ])
]

abbrev millisecond : ℕ
millisecond = 1_000_000

-- `waitTimeConst`, in nanoseconds.
abbrev pub wait_time_const : List ℕ
wait_time_const =
    200 * millisecond
    ∷ 2_000 * millisecond
    ∷ 2_000 * millisecond
    ∷ 5_000 * millisecond
    ∷ 5_000 * millisecond
    ∷ 15_000 * millisecond
    ∷ 15_000 * millisecond
    ∷ 15_000 * millisecond
    ∷ 60_000 * millisecond
    ∷ 60_000 * millisecond
    ∷ 120_000 * millisecond
    ∷ 300_000 * millisecond
    ∷ 600_000 * millisecond
    ∷ []

unfoldable pub base_wait : ℕ → ℕ
base_wait n =
    if ltb n (length wait_time_const) then get_or wait_time_const n 0 else 600_000 * millisecond

-- `rand.Int63n` answers `r` with `r < b * 2 / 5`.
unfoldable pub jittered : ℕ → ℕ → ℕ
jittered b r = b + r - b / 5

-- `schedule`: how long to wait before the next attempt, or no attempt.
unfoldable pub schedule : Bool → ℕ → Tunnel → Option ℕ
schedule no_redial r t =
    if no_redial || is_empty t.dial_addr || ltb t.redial_count 1
    then none
    else some (jittered (base_wait (t.redial_count - 1)) r)
