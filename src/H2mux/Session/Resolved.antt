-- ===== src/H2mux/Session/Resolved.antt =====
-- What becomes of the connections and of the calls of `Open`.
use tlswrapper.Base.{
  ℕ, ◌^◌, ◌≤◌, ◌<◌, ◌≡◌, refl, ap, inl, inr, Bool, none, some, List, [], ◌∷◌, mem, count, arith,
  Bool-cases, Option-cases, length, ==_refl,
}
use tlswrapper.H2mux.Session.{
  Session, new_session, OpenError, Phase, giving_up, draining, failed, find, abandon, drain, send,
  Event, abandons, drains, sends, step, run,
}
use tlswrapper.H2mux.Session.Tokens.{
  owed, may_wait, key_count, Tokens, find-none, abandon-Tokens, run-Tokens, new_session-Tokens,
}
use tlswrapper.H2mux.Session.Places.{conn_count, at_rest, run-Placed, new_session-Placed}

-- No call of `Open` is under way, and no deliverer is in the `select` on `acceptCh`.
pub record IsQuiet (s : Session) : Type 0 where
  pub ended : (i : ℕ) → owed (s.phases i) ≡ 0
  pub offered : s.offering ≡ []

no_keys : (xs : List (ℕ × ℕ)) → ((i : ℕ) → key_count i xs ≡ 0) → xs ≡ []
no_keys [] h = refl
no_keys ((k, c) ∷ xs) h = absurd (ground (arith, h k))

quiet-held : (s : Session) → Tokens s → IsQuiet s → (s.held ≡ []) × (s.buffered ≡ [])
quiet-held s t q = (
  no_keys s.held (λ i. omega (arith, t i, q.ended i)),
  no_keys s.buffered (λ i. omega (arith, t i, q.ended i)),
)

pub reached-Tokens :
    (rejects : Bool) (es : List Event) → length es < 2 ^ 64 → Tokens (run es (new_session rejects))
reached-Tokens rejects es l =
    run-Tokens es (new_session rejects) (unfold new_session in omega (arith, l))
      (new_session-Tokens rejects)

-- After fewer than 2^64 events of a new session, in any order, once no call of Open is under way and
-- no delivery is waiting: each connection that arrived is queued for Accept, was returned by Accept
-- or by Open, or was closed, and it is so as often as it arrived.
pub no_conn_is_lost :
    (rejects : Bool) (es : List Event) (c : ℕ)
    → length es < 2 ^ 64
    → IsQuiet (run es (new_session rejects))
    → at_rest c (run es (new_session rejects)) ≡ count c (run es (new_session rejects)).arrived
no_conn_is_lost rejects es c l q =
    let s = run es (new_session rejects) in
    let t = reached-Tokens rejects es l in
    let (h, b) = quiet-held s t q in
    let p = run-Placed es (new_session rejects) (new_session-Placed rejects) c in
    omega (arith, p, ap (conn_count c) h, ap (conn_count c) b, ap (count c) q.offered)

find-some : (i : ℕ) (xs : List (ℕ × ℕ)) → 1 ≤ key_count i xs → (c : ℕ) × (find i xs ≡ some c)
find-some i xs h = elim (Option-cases (find i xs)) [
  | inl n ↦ absurd (omega (arith, find-none i xs n))
  | inr s ↦ s
]

pub some-count : (i c : ℕ) (xs : List (ℕ × ℕ)) → find i xs ≡ some c → 1 ≤ key_count i xs
some-count i c [] h = cc
some-count i c ((x, d) ∷ xs) h = ground (arith, h, some-count i c xs)

owed_le : (p : Phase) → owed p ≤ 1
owed_le p = ground arith

drain-failed :
    (i c : ℕ) (e : OpenError) (s : Session)
    → s.phases i ≡ draining e
    → find i s.buffered ≡ some c
    → (drain i s).phases i ≡ failed e
unfolding drain
drain-failed i c e s p f = ground (arith, p, f)

send_nothing : (i : ℕ) (s : Session) → find i s.held ≡ none → send i s ≡ s
unfolding send
send_nothing i s n = ground (arith, n)

-- Where a deliverer has claimed the call, its channel is empty, and the send does not block.
send-moves :
    (i c : ℕ) (s : Session)
    → Tokens s
    → find i s.held ≡ some c
    → ((send i s).phases ≡ s.phases) × (find i (send i s).buffered ≡ some c)
unfolding send
send-moves i c s t f = elim (Option-cases (find i s.buffered)) [
  | inl n ↦ (ground (arith, f, n), ground (arith, f, n, ==_refl i))
  | inr (d, g) ↦ absurd (
      omega
        (arith, t i, owed_le (s.phases i), some-count i c s.held f, some-count i d s.buffered g))
]

send-drain :
    (i : ℕ) (e : OpenError) (s : Session)
    → Tokens s
    → s.phases i ≡ draining e
    → (drain i (send i s)).phases i ≡ failed e
send-drain i e s t p = elim (Option-cases (find i s.held)) [
  | inl n ↦
      let (c, f) =
        find-some i s.buffered
          (omega (arith, t i, ap owed p, ap may_wait p, find-none i s.held n)) in
      rw (send_nothing i s n) (drain-failed i c e s p f)
  | inr (c, f) ↦ let (same, g) = send-moves i c s t f in drain-failed i c e (send i s) (rw same p) g
]

-- The steps of a call that gives up, with the send of the deliverer that has claimed it, if any.
abbrev pub give_up : ℕ → List Event
give_up i = abandons i ∷ sends i ∷ drains i ∷ []

failed_stays :
    (i : ℕ) (e : OpenError) (s : Session)
    → s.phases i ≡ failed e
    → (drain i (send i s)).phases i ≡ failed e
unfolding drain send
failed_stays i e s p = ground (arith, p)

give_up-failed :
    (i : ℕ) (e : OpenError) (s : Session)
    → Tokens s
    → s.phases i ≡ giving_up e
    → (run (give_up i) s).phases i ≡ failed e
unfolding run step
give_up-failed i e s t p = elim (Bool-cases (mem i s.pending)) [
  | inl y ↦ failed_stays i e (abandon i s) (unfold abandon in ground (arith, p, y))
  | inr n ↦
      send-drain i e (abandon i s) (abandon-Tokens i s t) (unfold abandon in ground (arith, p, n))
]

-- In every state that fewer than 2^64 events lead to, in any order, a call of Open that gives up
-- ends with the error for which it gives up, by its own `abandon` and receive and the send of the
-- deliverer that has claimed it: neither of these can block for ever.
pub giving_up_ends :
    (rejects : Bool) (es : List Event) (i : ℕ) (e : OpenError)
    → length es < 2 ^ 64
    → (run es (new_session rejects)).phases i ≡ giving_up e
    → (run (give_up i) (run es (new_session rejects))).phases i ≡ failed e
giving_up_ends rejects es i e l p =
    give_up-failed i e (run es (new_session rejects)) (reached-Tokens rejects es l) p
