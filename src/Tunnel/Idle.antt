-- ===== src/Tunnel/Idle.antt =====
-- Idle and stale eviction: when `checkIdle` closes the session, and what follows.
use tlswrapper.Base.{
  ℕ, zero, suc, ◌-◌, ◌≤◌, ◌<◌, ◌≡◌, refl, ◌↔◌, ◌⊎◌, inl, inr, is_empty, ◌==◌, Bool, true, false,
  not, ◌||◌, ◌&&◌, Option, none, some, arith, ==_refl, Bool-cases, ◌∙◌,
}
use tlswrapper.Tunnel.{
  Tunnel, World, get_session, num_streams, track_idle, idle_too_long, close_session, check_open,
  check_idle, release_session, finalize_session,
}

-- The streams of session `i`.
abbrev pub streams : ℕ → World → ℕ
streams i w = num_streams (w.sessions i).stats

-- The idle timeout has run out at `now`.
abbrev pub IdleFor : ℕ → ℕ → Option ℕ → Type 0
IdleFor now timeout none = ⊥
IdleFor now timeout (some s) = (0 < timeout) × (timeout ≤ now - s)

-- The session carries no stream, and it is stale or has been idle for the timeout.
abbrev pub Evictable : ℕ → ℕ → ℕ → Tunnel → World → Type 0
Evictable now timeout i t w =
    (streams i w ≡ 0) × ((t.stale ≡ true) ⊎ IdleFor now timeout t.idle_since)

-- The code's test, by the number of streams and the idle clock.
evicts : ℕ → ℕ → Bool → ℕ → Option ℕ → Bool
evicts now timeout stale n since =
    stale && n == 0 || idle_too_long now timeout (track_idle now n since)

evicts_iff :
    (now timeout : ℕ) (stale : Bool) (n : ℕ) (since : Option ℕ)
    → (evicts now timeout stale n since ≡ true)
      ↔ ((n ≡ 0) × ((stale ≡ true) ⊎ IdleFor now timeout since))
unfolding evicts idle_too_long track_idle
evicts_iff now timeout stale zero none = ground arith
evicts_iff now timeout stale zero (some s) = ground arith
evicts_iff now timeout stale (suc n) since = ground arith

is_closed-close_self : (i : ℕ) (w : World) → ((close_session i w).sessions i).is_closed ≡ true
unfolding close_session
is_closed-close_self i w = rw (==_refl i) refl

get_session_open :
    (t : Tunnel) (w : World) (i : ℕ)
    → get_session t w ≡ some i
    → (t.ss ≡ some i) × ((w.sessions i).is_closed ≡ false)
unfolding get_session
get_session_open t w i h = ground arith

check_open-is_closed :
    (now timeout i : ℕ) (t : Tunnel) (w : World)
    → (w.sessions i).is_closed ≡ false
    → ((check_open now timeout i t w).1.sessions i).is_closed
      ≡ evicts now timeout t.stale (streams i w) t.idle_since
unfolding check_open evicts
check_open-is_closed now timeout i t w o = ground (arith, is_closed-close_self i w)

check_idle_open :
    (now timeout i : ℕ) (t : Tunnel) (w : World)
    → get_session t w ≡ some i
    → check_idle now timeout t w ≡ check_open now timeout i t w
unfolding check_idle
check_idle_open now timeout i t w g = rw (g, check_idle)

-- `checkIdle` closes the tunnel's session exactly when it carries no stream and is stale or has been
-- idle for the timeout.
pub check_idle-closes_iff :
    (now timeout i : ℕ) (t : Tunnel) (w : World)
    → get_session t w ≡ some i
    → (((check_idle now timeout t w).1.sessions i).is_closed ≡ true) ↔ Evictable now timeout i t w
check_idle-closes_iff now timeout i t w g =
    rw
      (
        check_idle_open now timeout i t w g,
        check_open-is_closed now timeout i t w (get_session_open t w i g).1,
      )
      (evicts_iff now timeout t.stale (streams i w) t.idle_since)

-- Without an open session there is nothing to do.
pub check_idle-none :
    (now timeout : ℕ) (t : Tunnel) (w : World)
    → get_session t w ≡ none
    → check_idle now timeout t w ≡ (t, w)
unfolding check_idle
check_idle-none now timeout t w g = rw (g, check_idle)

check_open-marks :
    (now timeout i : ℕ) (t : Tunnel) (w : World)
    → t.idle_evicted ≡ false
    → evicts now timeout t.stale (streams i w) t.idle_since ≡ true
    → let t' = (check_open now timeout i t w).0 in
      (t'.idle_evicted ≡ not t.stale)
      × (t'.ss ≡ t.ss)
      × (t'.dial_addr ≡ t.dial_addr)
      × (t'.redial_sig ≡ t.redial_sig)
unfolding check_open evicts idle_too_long track_idle
check_open-marks now timeout i t w e h = elim (Bool-cases t.stale) [
  | inl s ↦ stale_case (streams i w) refl s
  | inr s ↦ ground (arith, s)
]
  where
    stale_case :
        (n : ℕ)
        → streams i w ≡ n
        → t.stale ≡ true
        → let t' = (check_open now timeout i t w).0 in
          (t'.idle_evicted ≡ not t.stale)
          × (t'.ss ≡ t.ss)
          × (t'.dial_addr ≡ t.dial_addr)
          × (t'.redial_sig ≡ t.redial_sig)
    stale_case zero q s = ground (arith, s)
    stale_case (suc n) q s = ground (arith, s, q)

release_current :
    (now i : ℕ) (t : Tunnel)
    → t.ss ≡ some i
    → (release_session now i t).redial_sig
      ≡ (t.redial_sig || not t.idle_evicted && not (is_empty t.dial_addr))
unfolding release_session
release_current now i t e = rw (e, ==_refl i) refl

-- After an eviction and the session's finalization, the redial loop is woken exactly if the session
-- was stale and the tunnel has an address to dial: an idle session is dropped for good.
pub redial_after_eviction :
    (now later timeout i : ℕ) (t : Tunnel) (w : World)
    → get_session t w ≡ some i
    → t.idle_evicted ≡ false
    → t.redial_sig ≡ false
    → Evictable now timeout i t w
    → let (t', w') = check_idle now timeout t w in
      (finalize_session later i t' w').0.redial_sig ≡ (t.stale && not (is_empty t.dial_addr))
unfolding finalize_session
redial_after_eviction now later timeout i t w g e r v =
    let o = (get_session_open t w i g).0 in
    let h = (evicts_iff now timeout t.stale (streams i w) t.idle_since).1 v in
    let (a, b, c, d) = check_open-marks now timeout i t w e h in
    rw (check_idle_open now timeout i t w g) (
      release_current later i (check_open now timeout i t w).0 (b ∙ o) ∙ ground (arith, a, c, d, r))
