-- ===== src/H3mux/Listener/Tells.antt =====
-- Which connections the close of a listener tells of it.
use tlswrapper.Base.{
  ℕ, ◌≡◌, ◌⊎◌, refl, inl, inr, ◌==◌, ==_refl, ◌||◌, true, false, List, [], ◌∷◌, ◌++◌, mem, remove,
  All, arith, Bool-cases,
}
use tlswrapper.H3mux.Listener.{
  Listener, new_listener, track_conn, accept_begin, accept_end, untrack_conn, close, Event,
  begin_accept, end_accept, context_ends, untracks, closes, step, run,
}

mem-remove_cases :
    (c d : ℕ) (xs : List ℕ) → mem c xs ≡ true → (mem c (remove d xs) ≡ true) ⊎ ((d == c) ≡ true)
unfolding remove
mem-remove_cases c d [] h = ground (arith, h)
mem-remove_cases c d (x ∷ xs) h = ground (arith, h, mem-remove_cases c d xs)

mem-remove_sub : (c d : ℕ) (xs : List ℕ) → mem c (remove d xs) ≡ true → mem c xs ≡ true
unfolding remove
mem-remove_sub c d [] h = h
mem-remove_sub c d (x ∷ xs) h = ground (arith, h, mem-remove_sub c d xs)

mem-append_cases : (c : ℕ) (xs ys : List ℕ) → mem c (xs ++ ys) ≡ (mem c xs || mem c ys)
mem-append_cases c [] ys = refl
mem-append_cases c (x ∷ xs) ys = ground (arith, mem-append_cases c xs ys)

-- Of one connection: it is tracked or at its end once it is returned, and tracked or told only then.
record Follows (c : ℕ) (l : Listener) : Type 0 where
  owns : l.owned ≡ true
  held : (mem c l.accepted ≡ false) ⊎ (mem c l.conns ≡ true) ⊎ (mem c l.ended ≡ true)
  known : (mem c l.accepted ≡ true) ⊎ ((mem c l.conns ≡ false) × (mem c l.told ≡ false))

new_listener-Follows : (c : ℕ) → Follows c (new_listener true)
unfolding new_listener
new_listener-Follows c = record { owns = refl; held = inl refl; known = inr (refl, refl) }

accept_end-Follows : (c d : ℕ) (l : Listener) → Follows c l → Follows c (accept_end d l)
unfolding accept_end track_conn
accept_end-Follows c d l h = record {
  owns = ground (arith, h.owns);
  held = ground (arith, h.owns, h.held);
  known = ground (arith, h.owns, h.known);
}

untrack_conn-Follows : (c d : ℕ) (l : Listener) → Follows c l → Follows c (untrack_conn d l)
unfolding untrack_conn
untrack_conn-Follows c d l h = elim (Bool-cases (mem d l.ended)) [
  | inr n ↦ rw n h
  | inl y ↦ rw y (record {
    owns = h.owns;
    held = ground (arith, y, h.held, mem-remove_cases c d l.conns);
    known = ground (arith, y, h.known, mem-remove_sub c d l.conns);
  })
]

close-Follows : (c : ℕ) (l : Listener) → Follows c l → Follows c (close l)
unfolding close
close-Follows c l h = record {
  owns = ground (arith, h.owns);
  held = ground (arith, h.owns, h.held);
  known = ground (arith, h.owns, h.known, mem-append_cases c l.conns l.told);
}

step-Follows : (c : ℕ) (e : Event) (l : Listener) → Follows c l → Follows c (step e l)
unfolding step accept_begin
step-Follows c (begin_accept d) l h = record {
  owns = ground (arith, h.owns);
  held = ground (arith, h.held);
  known = ground (arith, h.known);
}
step-Follows c (end_accept d) l h = accept_end-Follows c d l h
step-Follows c (context_ends d) l h = record {
  owns = h.owns;
  held = ground (arith, h.held);
  known = h.known;
}
step-Follows c (untracks d) l h = untrack_conn-Follows c d l h
step-Follows c closes l h = close-Follows c l h

run-Follows : (c : ℕ) (es : List Event) (l : Listener) → Follows c l → Follows c (run es l)
unfolding run
run-Follows c [] l h = h
run-Follows c (e ∷ es) l h = run-Follows c es (step e l) (step-Follows c e l h)

members-All : {P : ℕ → Type 0} → (xs : List ℕ) → ((c : ℕ) → mem c xs ≡ true → P c) → All P xs
members-All [] h = tt
members-All (x ∷ xs) h =
    (h x (ground (arith, ==_refl x)), members-All xs (λ c m. h c (ground (arith, m))))

-- The connection has ended, or the close told it.
abbrev pub HasEnd : Listener → ℕ → Type 0
HasEnd l c = (mem c l.ended ≡ true) ⊎ (mem c l.told ≡ true)

abbrev pub WasReturned : Listener → ℕ → Type 0
WasReturned l c = mem c l.accepted ≡ true

closed-HasEnd : (l : Listener) (c : ℕ) → Follows c l → mem c l.accepted ≡ true → HasEnd (close l) c
unfolding close
closed-HasEnd l c h m = ground (arith, h.owns, h.held, m, mem-append_cases c l.conns l.told)

closed-WasReturned :
    (l : Listener) (c : ℕ) → Follows c l → mem c (close l).told ≡ true → WasReturned (close l) c
unfolding close
closed-WasReturned l c h m = ground (arith, h.owns, h.known, m, mem-append_cases c l.conns l.told)

same_accepted : (l : Listener) (c : ℕ) → mem c (close l).accepted ≡ true → mem c l.accepted ≡ true
unfolding close
same_accepted l c m = ground (arith, m)

-- After any events of a listener that ListenMux made, Accept, the ends of connections and earlier
-- Close among them, a Close sends the close frame to each connection that Accept has returned and
-- that has not ended, and to none that Accept has not returned.
pub close_tells :
    (es : List Event)
    → let l = close (run es (new_listener true)) in
      All (HasEnd l) l.accepted × All (WasReturned l) l.told
close_tells es =
    let l = run es (new_listener true) in
    let follows = λ (c : ℕ). run-Follows c es (new_listener true) (new_listener-Follows c) in
    (
      members-All (close l).accepted (λ c m. closed-HasEnd l c (follows c) (same_accepted l c m)),
      members-All (close l).told (λ c m. closed-WasReturned l c (follows c) m),
    )
