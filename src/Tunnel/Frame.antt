-- ===== src/Tunnel/Frame.antt =====
-- What the operations of a tunnel leave as it was.
use tlswrapper.Base.{
  mem, remove, ℕ, ◌≡◌, refl, ap, ◌∙◌, inl, inr, ◌==◌, true, false, Option, none, some, List, [],
  ◌∷◌, arith, ==_refl, Option-cases,
}
use tlswrapper.Tunnel.{
  Tunnel, World, Metrics, close_session, finalize_session, release_session, flush_session_metrics,
  close_if_open,
}

-- The session that a tunnel holds has a goroutine that will finalize it.
abbrev pub Watched : Option ℕ → List ℕ → Type 0
Watched o ws = (i : ℕ) → o ≡ some i → mem i ws ≡ true

-- The sessions that are closed stay closed.
abbrev pub StaysClosed : World → World → Type 0
StaysClosed w v = (j : ℕ) → (w.sessions j).is_closed ≡ true → (v.sessions j).is_closed ≡ true

pub close_session-StaysClosed : (i : ℕ) (w : World) → StaysClosed w (close_session i w)
unfolding close_session
close_session-StaysClosed i w j h = ground (arith, h)

pub close_if_open-StaysClosed : (o : Option ℕ) (w : World) → StaysClosed w (close_if_open o w)
unfolding close_if_open close_session
close_if_open-StaysClosed none w j h = h
close_if_open-StaysClosed (some i) w j h = ground (arith, h)

pub close_if_open-closed :
    (i : ℕ) (w : World) → ((close_if_open (some i) w).sessions i).is_closed ≡ true
unfolding close_if_open close_session
close_if_open-closed i w = ground (arith, ==_refl i)

pub flush-sessions :
    (o : Option Metrics) (w : World) → (flush_session_metrics o w).sessions ≡ w.sessions
unfolding flush_session_metrics
flush-sessions none w = refl
flush-sessions (some m) w = refl

pub finalize_session-StaysClosed :
    (now i : ℕ) (t : Tunnel) (w : World) → StaysClosed w (finalize_session now i t w).1
unfolding finalize_session
finalize_session-StaysClosed now i t w j h =
    ap (λ f. (f j).is_closed) (flush-sessions (w.sessions i).stats w) ∙ h

pub flush-watchers :
    (o : Option Metrics) (w : World) → (flush_session_metrics o w).watchers ≡ w.watchers
unfolding flush_session_metrics
flush-watchers none w = refl
flush-watchers (some m) w = refl

pub finalize_session-watchers :
    (now i : ℕ) (t : Tunnel) (w : World) → (finalize_session now i t w).1.watchers ≡ w.watchers
unfolding finalize_session
finalize_session-watchers now i t w = flush-watchers (w.sessions i).stats w

pub mem-remove :
    (i j : ℕ) (ws : List ℕ) → i == j ≡ false → mem j ws ≡ true → mem j (remove i ws) ≡ true
unfolding remove
mem-remove i j [] n h = h
mem-remove i j (x ∷ ws) n h = ground (arith, mem-remove i j ws n)

-- A tunnel lets go of the session that it is told of, and of no other.
pub release_session-ss :
    (now i j : ℕ) (t : Tunnel)
    → (release_session now i t).ss ≡ some j
    → (t.ss ≡ some j) × (i == j ≡ false)
unfolding release_session
release_session-ss now i j t h = elim (Option-cases t.ss) [
  | inl n ↦ ground (arith, n, h)
  | inr (k, e) ↦ ground (arith, e, h)
]
