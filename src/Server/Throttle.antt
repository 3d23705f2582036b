-- ===== src/Server/Throttle.antt =====
-- The limits that `startMuxListen` gives to the listener that throttles h3mux sessions, where
-- `uint32(startupFull)` wraps.
use tlswrapper.Base.{ℕ, ◌+◌, ◌*◌, ◌^◌, ◌<◌, ◌≡◌, ap, ◌∙◌, lt→ltb, Str, Option, true, arith}
use tlswrapper.Base.Int.{pos, ltb_ℤ}
use tlswrapper.Config.{File}
use tlswrapper.Config.Validate.{
  MediaType, ok, validate, IsValid, validate-IsValid, parsed_max_startups,
}
use tlswrapper.Limiter.{Round, is_limited}
use tlswrapper.Server.Reload.{to_u32, throttle_config}

full_wrapped :
    (cfg : File) (k n : ℕ)
    → n < 2 ^ 32
    → (parsed_max_startups cfg).full ≡ pos (k * 2 ^ 32 + n)
    → (throttle_config cfg).full ≡ n
unfolding throttle_config
full_wrapped cfg k n l h = ap to_u32 h ∙ omega (arith, l)

-- A snapshot that Validate has passed can have a full limit of k * 2^32 + n, with k and n not 0. Of the
-- handshakes under way, of which a uint32 counts fewer than 2^32, there are always fewer than that;
-- but the listener limits each session that comes while there are more than n.
pub full_limit_wraps :
    (parse : Str → Option MediaType) (raw cfg : File) (k n : ℕ) (r : Round)
    → validate parse raw ≡ ok cfg
    → (parsed_max_startups cfg).full ≡ pos (k * 2 ^ 32 + n)
    → 0 < k
    → 0 < n
    → n < r.num_half_open
    → r.num_half_open < 2 ^ 32
    → IsValid parse cfg
      × (ltb_ℤ (pos r.num_half_open) (parsed_max_startups cfg).full ≡ true)
      × (is_limited (throttle_config cfg) r ≡ true)
unfolding is_limited
full_limit_wraps parse raw cfg k n r v h p q m l =
    let small : n < 2 ^ 32 = omega (arith, m, l) in
    (
      validate-IsValid parse raw cfg v,
      rw h (lt→ltb _ _ (omega (arith, p, l))),
      ground (arith, full_wrapped cfg k n small h, q, m),
    )
