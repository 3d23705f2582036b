-- ===== src/Tunnel/Redial/Backoff.antt =====
-- The waits between redials.
use Prim.Native.Nat.{min}
use tlswrapper.Base.{
  ℕ, zero, suc, ◌+◌, ◌-◌, ◌*◌, ◌/◌, ◌≤◌, ◌<◌, ◌≡◌, ap, ◌⊎◌, ◌↔◌, dec_lt, All-get_or, is_empty, Bool,
  true, false, none, some, length, arith, ge→ltb, lt→ltb,
}
use tlswrapper.Tunnel.{Tunnel}
use tlswrapper.Tunnel.Redial.{
  wait_time_const, base_wait, jittered, schedule, err, DialError, is_benign, redial_done, max_int,
}

base_wait-le_suc : (n : ℕ) → base_wait n ≤ base_wait (suc n)
unfolding base_wait
base_wait-le_suc zero = omega arith
base_wait-le_suc (suc n) = ground arith

base_wait-le_add : (k m : ℕ) → base_wait m ≤ base_wait (k + m)
base_wait-le_add zero m = omega (arith, ap base_wait (zero_plus m))
  where
    zero_plus : (m : ℕ) → 0 + m ≡ m
    zero_plus m = omega arith
base_wait-le_add (suc k) m =
    let e : suc k + m ≡ suc (k + m) = omega arith in
    omega (arith, base_wait-le_add k m, base_wait-le_suc (k + m), ap base_wait e)

-- The waits do not shrink from one failure to the next.
base_wait_mono : (m n : ℕ) → m ≤ n → base_wait m ≤ base_wait n
base_wait_mono m n h =
    let e : n - m + m ≡ n = omega arith in omega (arith, base_wait-le_add (n - m) m, ap base_wait e)

-- From a fifth of a second to ten minutes, in steps of five nanoseconds.
abbrev InTable : ℕ → Type 0
InTable w = (200_000_000 ≤ w) × (w ≤ 600_000_000_000) × (5 * (w / 5) ≡ w)

base_wait-InTable : (n : ℕ) → InTable (base_wait n)
unfolding base_wait
base_wait-InTable n = elim (dec_lt n (length wait_time_const)) [
  | yes lt ↦
      rw (lt→ltb n (length wait_time_const) lt)
        (All-get_or InTable wait_time_const n 0 (omega arith) lt)
  | no ge ↦ rw (ge→ltb n (length wait_time_const) ge) (omega arith)
]

-- The wait that is drawn around a table entry.
pub jittered_bounds :
    (n r : ℕ)
    → r < base_wait n * 2 / 5
    → let b = base_wait n in
      (4 * b ≤ 5 * jittered b r)
      × (5 * jittered b r < 6 * b)
      × (160_000_000 ≤ jittered b r)
      × (jittered b r < 720_000_000_000)
unfolding jittered
jittered_bounds n r h = ground (arith, base_wait-InTable n)

-- A scheduled wait is within a fifth of its table entry, and between 0.16 s and 720 s, where the
-- random draw is within its range.
pub schedule_bounds :
    (no_redial : Bool) (r : ℕ) (t : Tunnel) (d : ℕ)
    → r < base_wait (t.redial_count - 1) * 2 / 5
    → schedule no_redial r t ≡ some d
    → let b = base_wait (t.redial_count - 1) in
      (4 * b ≤ 5 * d) × (5 * d < 6 * b) × (160_000_000 ≤ d) × (d < 720_000_000_000)
unfolding schedule jittered
schedule_bounds no_redial r t d h e = ground (arith, base_wait-InTable (t.redial_count - 1))

-- Another failure never shortens the table entry that the next wait is drawn around.
pub base_wait-redial_done :
    (t : Tunnel) (e : DialError)
    → is_benign e ≡ false
    → 1 ≤ t.redial_count
    → base_wait (t.redial_count - 1) ≤ base_wait ((redial_done (err e) t).redial_count - 1)
unfolding redial_done
base_wait-redial_done t e b h = base_wait_mono (t.redial_count - 1) _ (ground arith)

-- No wait is scheduled exactly if redials are off, there is no address, or no failure is counted.
pub schedule-none_iff :
    (no_redial : Bool) (r : ℕ) (t : Tunnel)
    → (schedule no_redial r t ≡ none)
      ↔ ((no_redial ≡ true) ⊎ (is_empty t.dial_addr ≡ true) ⊎ (t.redial_count ≡ 0))
unfolding schedule
schedule-none_iff no_redial r t = ground arith

-- `redial` after `redial` that fails.
unfoldable pub fail_times : ℕ → DialError → Tunnel → Tunnel
fail_times zero e t = t
fail_times (suc k) e t = redial_done (err e) (fail_times k e t)

-- Failures that are not benign are counted one by one up to `math.MaxInt`, where the count stays.
pub redial_count-fail_times :
    (k : ℕ) (e : DialError) (t : Tunnel)
    → is_benign e ≡ false
    → t.redial_count ≤ max_int
    → (fail_times k e t).redial_count ≡ min (t.redial_count + k) max_int
unfolding fail_times redial_done
redial_count-fail_times zero e t b h = omega arith
redial_count-fail_times (suc k) e t b h = ground (arith, redial_count-fail_times k e t b h)
