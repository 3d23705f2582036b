-- ===== src/Server/Closing.antt =====
-- Sessions that are only closed: what a tunnel can still read of them.
use tlswrapper.Base.{
  ℕ, ◌≡◌, refl, ap, ◌∙◌, inl, inr, true, false, some, arith, Option-cases, ==_refl,
}
use tlswrapper.Tunnel.{Tunnel, World, get_session, check_idle, check_open, close_session}
use tlswrapper.Tunnel.Frame.{StaysClosed, close_session-StaysClosed}

-- Sessions may have been closed, and nothing else has happened to them.
pub record OnlyCloses (w v : World) : Type 0 where
  pub stats : (j : ℕ) → (v.sessions j).stats ≡ (w.sessions j).stats
  pub closed : StaysClosed w v

pub OnlyCloses-refl : (w : World) → OnlyCloses w w
OnlyCloses-refl w = record { stats = λ j. refl; closed = λ j h. h }

pub OnlyCloses-trans : (u v w : World) → OnlyCloses u v → OnlyCloses v w → OnlyCloses u w
OnlyCloses-trans u v w a b = record {
  stats = λ j. b.stats j ∙ a.stats j;
  closed = λ j h. b.closed j (a.closed j h);
}

pub close_session-OnlyCloses : (i : ℕ) (w : World) → OnlyCloses w (close_session i w)
unfolding close_session
close_session-OnlyCloses i w = record {
  stats = λ j. ground (arith);
  closed = close_session-StaysClosed i w;
}

pub check_idle-OnlyCloses :
    (now timeout : ℕ) (t : Tunnel) (w : World) → OnlyCloses w (check_idle now timeout t w).1
unfolding check_idle check_open close_session
check_idle-OnlyCloses now timeout t w = record {
  stats = λ j. ground arith;
  closed = λ j h. ground (arith, h);
}

pub get_session-OnlyCloses :
    (t : Tunnel) (w v : World) (i : ℕ)
    → OnlyCloses w v
    → get_session t v ≡ some i
    → get_session t w ≡ some i
unfolding get_session
get_session-OnlyCloses t w v i c e = elim (Option-cases t.ss) [
  | inl n ↦ ground (arith, n, e)
  | inr (k, m) ↦ ground (arith, m, e, c.closed k)
]

pub get_session-of_ss : (t u : Tunnel) (w : World) → u.ss ≡ t.ss → get_session u w ≡ get_session t w
unfolding get_session
get_session-of_ss t u w e = ap (λ o. get_session (record t { ss = o }) w) e

pub get_session-closed :
    (t : Tunnel) (i : ℕ) (w : World) → get_session t w ≡ some i → (w.sessions i).is_closed ≡ false
unfolding get_session
get_session-closed t i w e = elim (Option-cases t.ss) [
  | inl n ↦ ground (arith, n, e)
  | inr (k, m) ↦ ground (arith, m, e)
]

pub is_closed-close_session :
    (i : ℕ) (w : World) → ((close_session i w).sessions i).is_closed ≡ true
unfolding close_session
is_closed-close_session i w = ground (arith, ==_refl i)
