-- ===== src/Server/Stale.antt =====
-- What `markSessionsStale` leaves.
use tlswrapper.Base.{
  ℕ, ◌<◌, ◌≡◌, refl, ap, ◌∙◌, sym, subst, ℕ_discrete, true, Option, none, some, List, [], ◌∷◌, ◌++◌,
  map, All, arith,
}
use tlswrapper.Tunnel.{
  Tunnel, World, get_session, check_idle, check_open, close_session, num_streams,
}
use tlswrapper.Server.{
  Server, get_all_tunnels, mark_stale, mark_main, mark_all, mark_accepted, mark_sessions_stale,
}
use tlswrapper.Server.Closing.{
  OnlyCloses, OnlyCloses-refl, OnlyCloses-trans, check_idle-OnlyCloses, get_session-OnlyCloses,
  get_session-of_ss, get_session-closed, is_closed-close_session,
}

-- Marked, and not idle if its session is open.
pub record MarkedBusy (w : World) (t : Tunnel) : Type 0 where
  pub marked : t.stale ≡ true
  pub busy : (i : ℕ) → get_session t w ≡ some i → 0 < num_streams (w.sessions i).stats

MarkedBusy-OnlyCloses :
    (w v : World) (t : Tunnel) → OnlyCloses w v → MarkedBusy w t → MarkedBusy v t
MarkedBusy-OnlyCloses w v t c m = record {
  marked = m.marked;
  busy = λ i e.
      omega (arith, ap num_streams (c.stats i), m.busy i (get_session-OnlyCloses t w v i c e));
}

-- A marked tunnel without streams is evicted at once.
mark_stale-idle :
    (now timeout i : ℕ) (t : Tunnel) (w : World)
    → get_session t w ≡ some i
    → num_streams (w.sessions i).stats ≡ 0
    → mark_stale now timeout t w ≡ (record t { stale = true }, close_session i w)
unfolding mark_stale check_idle check_open get_session
mark_stale-idle now timeout i t w e z = ground (arith, e, z)

mark_stale-frame :
    (now timeout : ℕ) (t : Tunnel) (w : World)
    → let r = mark_stale now timeout t w in (r.0.stale ≡ true) × (r.0.ss ≡ t.ss)
unfolding mark_stale check_idle check_open
mark_stale-frame now timeout t w = ground arith

mark_stale-OnlyCloses :
    (now timeout : ℕ) (t : Tunnel) (w : World) → OnlyCloses w (mark_stale now timeout t w).1
unfolding mark_stale
mark_stale-OnlyCloses now timeout t w = check_idle-OnlyCloses now timeout _ w

mark_stale_busy :
    (now timeout i : ℕ) (t : Tunnel) (w : World)
    → let r = mark_stale now timeout t w in
      get_session r.0 r.1 ≡ some i → 0 < num_streams (r.1.sessions i).stats
mark_stale_busy now timeout i t w e =
    let r = mark_stale now timeout t w in
    let (s, f) = mark_stale-frame now timeout t w in
    let c = mark_stale-OnlyCloses now timeout t w in
    let before : get_session t w ≡ some i =
      get_session-OnlyCloses t w r.1 i c (sym (get_session-of_ss t r.0 r.1 f) ∙ e) in
    elim (ℕ_discrete (num_streams (w.sessions i).stats) 0) [
      | yes z ↦
          let same =
            ap (λ p. (p.1.sessions i).is_closed) (mark_stale-idle now timeout i t w before z) in
          let open_ = get_session-closed r.0 i r.1 e in
          ground (arith, same, open_, is_closed-close_session i w)
      | no nz ↦ omega (arith, ap num_streams (c.stats i), nz)
    ]

mark_stale-MarkedBusy :
    (now timeout : ℕ) (t : Tunnel) (w : World)
    → let r = mark_stale now timeout t w in MarkedBusy r.1 r.0
mark_stale-MarkedBusy now timeout t w = record {
  marked = (mark_stale-frame now timeout t w).0;
  busy = λ i e. mark_stale_busy now timeout i t w e;
}

mark_all-OnlyCloses :
    (now timeout : ℕ) (ts : List Tunnel) (w : World) → OnlyCloses w (mark_all now timeout ts w).1
unfolding mark_all
mark_all-OnlyCloses now timeout [] w = OnlyCloses-refl w
mark_all-OnlyCloses now timeout (t ∷ ts) w =
    OnlyCloses-trans w _ _ (mark_stale-OnlyCloses now timeout t w)
      (mark_all-OnlyCloses now timeout ts (mark_stale now timeout t w).1)

mark_all-MarkedBusy :
    (now timeout : ℕ) (ts : List Tunnel) (w : World)
    → let r = mark_all now timeout ts w in All (MarkedBusy r.1) r.0
unfolding mark_all
mark_all-MarkedBusy now timeout [] w = tt
mark_all-MarkedBusy now timeout (t ∷ ts) w =
    let v = (mark_stale now timeout t w).1 in
    (
      MarkedBusy-OnlyCloses v _ _ (mark_all-OnlyCloses now timeout ts v)
          (mark_stale-MarkedBusy now timeout t w),
      mark_all-MarkedBusy now timeout ts v,
    )

-- The accepted tunnels are marked as a list of tunnels is.
mark_accepted-mark_all :
    (now timeout : ℕ) (ts : List (ℕ × Tunnel)) (w : World)
    → let r = mark_accepted now timeout ts w in
      (map (λ e. e.1) r.0, r.1) ≡ mark_all now timeout (map (λ e. e.1) ts) w
unfolding mark_accepted mark_all
mark_accepted-mark_all now timeout [] w = refl
mark_accepted-mark_all now timeout ((k, t) ∷ ts) w =
    let (t', v) = mark_stale now timeout t w in
    ap (λ p. (t' ∷ p.0, p.1)) (mark_accepted-mark_all now timeout ts v)

mark_all-append :
    (now timeout : ℕ) (ts us : List Tunnel) (w : World)
    → let r = mark_all now timeout ts w in
      let q = mark_all now timeout us r.1 in mark_all now timeout (ts ++ us) w ≡ (r.0 ++ q.0, q.1)
unfolding mark_all
mark_all-append now timeout [] us w = refl
mark_all-append now timeout (t ∷ ts) us w =
    let (t', v) = mark_stale now timeout t w in
    ap (λ p. (t' ∷ p.0, p.1)) (mark_all-append now timeout ts us v)

mark_others :
    (now timeout : ℕ) (ts : List Tunnel) (us : List (ℕ × Tunnel)) (w : World)
    → let r = mark_all now timeout ts w in
      let q = mark_accepted now timeout us r.1 in
      (r.0 ++ map (λ e. e.1) q.0, q.1) ≡ mark_all now timeout (ts ++ map (λ e. e.1) us) w
mark_others now timeout ts us w =
    let r = mark_all now timeout ts w in
    ap (λ p. (r.0 ++ p.0, p.1)) (mark_accepted-mark_all now timeout us r.1)
    ∙ sym (mark_all-append now timeout ts (map (λ e. e.1) us) w)

mark_main-mark_all :
    (now timeout : ℕ) (o : Option Tunnel) (s : Server)
    → let s' = mark_sessions_stale now timeout (record s { main_tunnel = o }) in
      (get_all_tunnels s', s'.world)
      ≡ mark_all now timeout (get_all_tunnels (record s { main_tunnel = o })) s.world
unfolding mark_sessions_stale get_all_tunnels mark_main mark_all
mark_main-mark_all now timeout none s =
    mark_others now timeout s.identity_tunnels s.accepted_tunnels s.world
mark_main-mark_all now timeout (some t) s =
    let (t', v) = mark_stale now timeout t s.world in
    ap (λ p. (t' ∷ p.0, p.1)) (mark_others now timeout s.identity_tunnels s.accepted_tunnels v)

-- After `markSessionsStale`, every tunnel of the server is marked, and a tunnel whose session is
-- still open has streams: the idle sessions are closed at once.
pub mark_sessions_stale-MarkedBusy :
    (now timeout : ℕ) (s : Server)
    → let s' = mark_sessions_stale now timeout s in All (MarkedBusy s'.world) (get_all_tunnels s')
mark_sessions_stale-MarkedBusy now timeout s =
    subst (λ p. All (MarkedBusy p.1) p.0) (sym (mark_main-mark_all now timeout s.main_tunnel s))
      (mark_all-MarkedBusy now timeout (get_all_tunnels s) s.world)
