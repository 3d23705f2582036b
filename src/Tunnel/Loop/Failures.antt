-- ===== src/Tunnel/Loop/Failures.antt =====
-- How the loop waits between attempts that fail.
use tlswrapper.Base.{
  ℕ, suc, ◌+◌, ◌*◌, ◌/◌, ◌<◌, ◌≤◌, ◌≡◌, refl, ap, ◌∙◌, is_empty, true, false, none, some, List, [],
  ◌∷◌, ◌++◌, length, arith,
}
use tlswrapper.Tunnel.{Tunnel, World, get_session}
use tlswrapper.Tunnel.Redial.{
  err, Spawns, dial_failed, dial, dial_begin, dial_from, dial_end, unlock, maintenance, redial,
  redial_done, schedule, base_wait, jittered, max_int,
}
use tlswrapper.Tunnel.Redial.Backoff.{jittered_bounds}
use tlswrapper.Tunnel.Loop.{
  selecting, Answers, enter, timer_fires, select, Act, enters, selects, act, loop,
}

-- The answers to a dial that fails.
abbrev pub fails : Spawns → ℕ → Answers
fails go draw = record { no_redial = false; has_ctx = true; answer = none; go = go; draw = draw }

-- The timer fires and the attempt fails, at each time and with each draw.
abbrev pub failures : Spawns → List (ℕ × ℕ) → List Act
failures go [] = []
failures go ((now, draw) ∷ rest) =
    selects timer_fires ∷ enters now (fails go draw) ∷ failures go rest

-- A tunnel with an address to dial, no session, and no dial under way.
pub record Down (t : Tunnel) (w : World) : Type 0 where
  pub lost : get_session t w ≡ none
  pub named : is_empty t.dial_addr ≡ false
  pub unlocked : t.dialing ≡ false

abbrev pub failed : ℕ → Tunnel → Tunnel
failed n t = record t { redial_count = t.redial_count + n }

failed-Down : (n : ℕ) (t : Tunnel) (w : World) → Down t w → Down (failed n t) w
unfolding get_session
failed-Down n t w h = record { lost = h.lost; named = h.named; unlocked = h.unlocked }

dial_fails :
    (now : ℕ) (go : Spawns) (t : Tunnel) (w : World)
    → Down t w
    → dial now none go t w ≡ (err dial_failed, t, w)
unfolding dial dial_begin dial_from dial_end unlock
dial_fails now go t w h = ground (arith, h.named, h.unlocked)

attempt_fails :
    (now draw : ℕ) (go : Spawns) (t : Tunnel) (w : World)
    → Down t w
    → t.redial_count < max_int
    → enter now (fails go draw) t w
      ≡ (selecting (some (jittered (base_wait t.redial_count) draw)), failed 1 t, w)
unfolding enter maintenance redial redial_done schedule
attempt_fails now draw go t w h l = ground (arith, h.lost, h.named, dial_fails now go t w h, l)

round_fails :
    (now draw d : ℕ) (go : Spawns) (rest : List Act) (t : Tunnel) (w : World)
    → Down t w
    → t.redial_count < max_int
    → loop (selects timer_fires ∷ enters now (fails go draw) ∷ rest) (selecting (some d), t, w)
      ≡ loop rest (selecting (some (jittered (base_wait t.redial_count) draw)), failed 1 t, w)
unfolding loop act select
round_fails now draw d go rest t w h l = ap (loop rest) (attempt_fails now draw go t w h l)

-- The wait that the last of the attempts leaves.
abbrev pub last_wait : ℕ → ℕ → List (ℕ × ℕ) → ℕ
last_wait d n [] = d
last_wait d n ((now, draw) ∷ rest) = last_wait (jittered (base_wait n) draw) (n + 1) rest

failed_once : (n : ℕ) (t : Tunnel) → failed n (failed 1 t) ≡ failed (suc n) t
failed_once n t = ap (λ k. record t { redial_count = k }) (omega arith)

-- The loop while attempts fail.
pub loop-failures :
    (draws : List (ℕ × ℕ)) (d : ℕ) (go : Spawns) (t : Tunnel) (w : World)
    → Down t w
    → t.redial_count + length draws ≤ max_int
    → loop (failures go draws) (selecting (some d), t, w)
      ≡ (selecting (some (last_wait d t.redial_count draws)), failed (length draws) t, w)
unfolding loop
loop-failures [] d go t w h l =
    ap (λ k. (selecting (some d), record t { redial_count = k }, w)) (omega arith)
loop-failures ((now, draw) ∷ draws) d go t w h l =
    round_fails now draw d go (failures go draws) t w h (omega (arith, l))
    ∙ loop-failures draws (jittered (base_wait t.redial_count) draw) go (failed 1 t) w
        (failed-Down 1 t w h) (omega (arith, l))
    ∙ ap
        (λ u. (
          selecting (
              some
                (last_wait (jittered (base_wait t.redial_count) draw) (t.redial_count + 1) draws)),
          u,
          w,
        ))
        (failed_once (length draws) t)

last_wait-snoc :
    (draws : List (ℕ × ℕ)) (d n now draw : ℕ)
    → last_wait d n (draws ++ ((now, draw) ∷ [])) ≡ jittered (base_wait (n + length draws)) draw
last_wait-snoc [] d n now draw = ap (λ k. jittered (base_wait k) draw) (omega arith)
last_wait-snoc ((now', draw') ∷ draws) d n now draw =
    last_wait-snoc draws (jittered (base_wait n) draw') (n + 1) now draw
    ∙ ap (λ k. jittered (base_wait k) draw) (omega arith)

length-snoc :
    {A : Type 0} → (draws : List A) (a : A) → length (draws ++ (a ∷ [])) ≡ length draws + 1
length-snoc [] a = refl
length-snoc (b ∷ draws) a = omega (arith, length-snoc draws a)

-- While a tunnel is down, any number of attempts fail, up to the largest int, one each time that
-- the timer fires: each is counted, no session and no counter of the server is touched, and the next
-- attempt is scheduled after the table entry of the number of failures before the last, give or take
-- a fifth, and after at least 0.16 s and less than 720 s, where the last draw is within its range.
pub failures_back_off :
    (draws : List (ℕ × ℕ)) (now draw d : ℕ) (go : Spawns) (t : Tunnel) (w : World)
    → Down t w
    → t.redial_count + length draws < max_int
    → draw < base_wait (t.redial_count + length draws) * 2 / 5
    → let b = base_wait (t.redial_count + length draws) in
      let (p, t', w') =
        loop (failures go (draws ++ ((now, draw) ∷ []))) (selecting (some d), t, w) in
      (p ≡ selecting (some (jittered b draw)))
      × (t' ≡ failed (length draws + 1) t)
      × (w' ≡ w)
      × (4 * b ≤ 5 * jittered b draw)
      × (5 * jittered b draw < 6 * b)
      × (160_000_000 ≤ jittered b draw)
      × (jittered b draw < 720_000_000_000)
failures_back_off draws now draw d go t w h l r =
    let n = t.redial_count + length draws in
    let all = draws ++ ((now, draw) ∷ []) in
    let e = loop-failures all d go t w h (omega (arith, l, length-snoc draws (now, draw))) in
    let (b1, b2, b3, b4) = jittered_bounds n draw r in
    rw e (
      ap (λ k. selecting (some k)) (last_wait-snoc draws d t.redial_count now draw),
      ap (λ k. failed k t) (length-snoc draws (now, draw)),
      refl,
      b1,
      b2,
      b3,
      b4,
    )
