-- ===== src/Limiter/Admission.antt =====
-- What `Accept` of the throttling listener promises.
use tlswrapper.Base.{
  ℕ, suc, ◌+◌, ◌%◌, ◌^◌, ◌<◌, ◌≡◌, ◌⊎◌, refl, ap, sym, inl, inr, true, false, none, some, List, [],
  ◌∷◌, ◌++◌, length, arith, Bool-cases, Option-cases, subst,
}
use tlswrapper.Tunnel.{add_u64}
use tlswrapper.Limiter.{
  Config, Round, is_limited, Listener, Answer, accepted, failed, waiting, accept,
}

-- The session exceeds a limit, of those that are set: there are too many sessions, or too many
-- handshakes under way, or more than the start of the random refusals, and the draw is against it.
abbrev pub Exceeds : Config → Round → Type 0
Exceeds c r =
    ((0 < c.max_sessions) × (c.max_sessions < r.num_sessions))
    ⊎ ((0 < c.full) × (c.full < r.num_half_open))
    ⊎ ((0 < c.start) × (c.start < r.num_half_open) × (r.draw ≡ true))

-- A round that the loop passes over: a session `i` beyond the limits.
abbrev pub Rejected : Config → Round → ℕ → Type 0
Rejected c r i = (r.session ≡ some i) × Exceeds c r

is_limited-Exceeds : (c : Config) (r : Round) → is_limited c r ≡ true → Exceeds c r
unfolding is_limited
is_limited-Exceeds c r h = ground (arith, h)

Exceeds-is_limited : (c : Config) (r : Round) → Exceeds c r → is_limited c r ≡ true
unfolding is_limited
Exceeds-is_limited c r h = ground (arith, h)

within_of_not_limited : (c : Config) (r : Round) → is_limited c r ≡ false → ¬ Exceeds c r
within_of_not_limited c r h e = let y = Exceeds-is_limited c r e in cc

-- The sessions `is` of the rounds `rs`, all rejected.
abbrev pub AllRejected : Config → List Round → List ℕ → Type 0
AllRejected c [] [] = Unit
AllRejected c [] (i ∷ is) = ⊥
AllRejected c (r ∷ rs) [] = ⊥
AllRejected c (r ∷ rs) (i ∷ is) = Rejected c r i × AllRejected c rs is

-- The sessions closed, on top of those closed before.
abbrev pub push_all : List ℕ → List ℕ → List ℕ
push_all [] closed = closed
push_all (i ∷ is) closed = push_all is (i ∷ closed)

-- What is true of the round that ends the loop, and of the counters then. `n` rounds before it
-- were passed over.
abbrev pub Ends : Config → Listener → ℕ → Answer → Listener → List Round → List Round → Type 0
Ends c l n (accepted i) l' last rest =
    (r : Round) × (last ≡ r ∷ rest)
    × (r.session ≡ some i)
    × (¬ Exceeds c r)
    × (l'.total ≡ (l.total + n + 1) % 2 ^ 64)
    × (l'.served ≡ add_u64 l.served 1)
Ends c l n failed l' last rest =
    (r : Round) × (last ≡ r ∷ rest)
    × (r.session ≡ none)
    × (l'.total ≡ (l.total + n) % 2 ^ 64)
    × (l'.served ≡ l.served)
Ends c l n waiting l' last rest =
    (last ≡ []) × (rest ≡ []) × (l'.total ≡ (l.total + n) % 2 ^ 64) × (l'.served ≡ l.served)

-- The rounds split into those passed over, whose sessions are closed, and the end of the loop.
pub record Admits (c : Config) (rs : List Round) (l : Listener) (a : Answer) (l' : Listener)
    (rest : List Round) : Type 0 where
  pub over : List Round
  pub sessions : List ℕ
  pub last : List Round
  pub split : rs ≡ over ++ last
  pub rejected : AllRejected c over sessions
  pub closed : l'.closed ≡ push_all sessions l.closed
  pub ends : Ends c l (length over) a l' last rest

-- The listener after a rejected session.
abbrev reject : ℕ → Listener → Listener
reject i l = record { total = add_u64 l.total 1; served = l.served; closed = i ∷ l.closed }

Ends-later :
    (c : Config) (i : ℕ) (l : Listener) (n : ℕ) (a : Answer) (l' : Listener)
    (last rest : List Round)
    → Ends c (reject i l) n a l' last rest
    → Ends c l (suc n) a l' last rest
Ends-later c i l n (accepted j) l' last rest (r, e, s, b, t, v) = (r, e, s, b, omega (arith, t), v)
Ends-later c i l n failed l' last rest (r, e, s, t, v) = (r, e, s, omega (arith, t), v)
Ends-later c i l n waiting l' last rest (e, s, t, v) = (e, s, omega (arith, t), v)

Admits-later :
    (c : Config) (r : Round) (i : ℕ) (rs : List Round) (l : Listener) (a : Answer) (l' : Listener)
    (rest : List Round)
    → Rejected c r i
    → Admits c rs (reject i l) a l' rest
    → Admits c (r ∷ rs) l a l' rest
Admits-later c r i rs l a l' rest j q = record {
  over = r ∷ q.over;
  sessions = i ∷ q.sessions;
  last = q.last;
  split = ap (◌∷◌ r) q.split;
  rejected = (j, q.rejected);
  closed = q.closed;
  ends = Ends-later c i l (length q.over) a l' q.last rest q.ends;
}

-- What `Accept` does with one round.
accept-over :
    (c : Config) (r : Round) (i : ℕ) (rs : List Round) (l : Listener)
    → r.session ≡ some i
    → is_limited c r ≡ true
    → accept c (r ∷ rs) l ≡ accept c rs (reject i l)
unfolding accept
accept-over c r i rs l e b = rw (e, accept) (rw b refl)

accept-served :
    (c : Config) (r : Round) (i : ℕ) (rs : List Round) (l : Listener)
    → r.session ≡ some i
    → is_limited c r ≡ false
    → accept c (r ∷ rs) l ≡ (
      accepted i,
      record { total = add_u64 l.total 1; served = add_u64 l.served 1; closed = l.closed },
      rs,
    )
unfolding accept
accept-served c r i rs l e b = rw (e, accept) (rw b refl)

accept-failed :
    (c : Config) (r : Round) (rs : List Round) (l : Listener)
    → r.session ≡ none
    → accept c (r ∷ rs) l ≡ (failed, l, rs)
unfolding accept
accept-failed c r rs l e = rw (e, accept) refl

abbrev Promise : Config → List Round → Listener → Answer × Listener × List Round → Type 0
Promise c rs l (a, l', rest) = Admits c rs l a l' rest

-- `Accept` closes exactly the sessions that exceed the limits when they come, counts each session
-- that comes and the one it serves, and returns the first that is within the limits, or the first
-- error. Its counter of sessions starts in range.
pub accept-Admits :
    (c : Config) (rs : List Round) (l : Listener)
    → l.total < 2 ^ 64
    → let r = accept c rs l in Admits c rs l r.0 r.1 r.2
unfolding accept
accept-Admits c [] l h = record {
  over = [];
  sessions = [];
  last = [];
  split = refl;
  rejected = tt;
  closed = refl;
  ends = (refl, refl, omega (arith, h), refl);
}
accept-Admits c (r ∷ rs) l h = elim (Option-cases r.session) [
  | inl n ↦ subst (Promise c (r ∷ rs) l) (sym (accept-failed c r rs l n)) (record {
    over = [];
    sessions = [];
    last = r ∷ rs;
    split = refl;
    rejected = tt;
    closed = refl;
    ends = (r, refl, n, omega (arith, h), refl);
  })
  | inr (i, e) ↦ elim (Bool-cases (is_limited c r)) [
    | inl b ↦ subst (Promise c (r ∷ rs) l) (sym (accept-over c r i rs l e b)) (
        Admits-later c r i rs l _ _ _ (e, is_limited-Exceeds c r b)
          (accept-Admits c rs (reject i l) (omega arith)))
    | inr b ↦ subst (Promise c (r ∷ rs) l) (sym (accept-served c r i rs l e b)) (record {
      over = [];
      sessions = [];
      last = r ∷ rs;
      split = refl;
      rejected = tt;
      closed = refl;
      ends = (r, refl, e, within_of_not_limited c r b, omega arith, refl);
    })
  ]
]
