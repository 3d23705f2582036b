-- ===== src/Server/Timeout.antt =====
-- What `timeoutAllSessions` leaves.
use tlswrapper.Base.{ℕ, ◌≡◌, inl, inr, Option, none, some, List, [], ◌∷◌, All, arith, Option-cases}
use tlswrapper.Tunnel.{Tunnel, World, get_session, close_session}
use tlswrapper.Server.{Server, get_all_tunnels, close_current, close_all, timeout_all_sessions}
use tlswrapper.Server.Closing.{
  OnlyCloses, OnlyCloses-refl, OnlyCloses-trans, close_session-OnlyCloses, get_session-OnlyCloses,
  get_session-closed, is_closed-close_session,
}

-- No open session is left.
abbrev pub NoSession : World → Tunnel → Type 0
NoSession w t = get_session t w ≡ none

close_current-OnlyCloses : (o : Option ℕ) (w : World) → OnlyCloses w (close_current o w)
unfolding close_current
close_current-OnlyCloses none w = OnlyCloses-refl w
close_current-OnlyCloses (some i) w = close_session-OnlyCloses i w

close_all-OnlyCloses : (ts : List Tunnel) (w : World) → OnlyCloses w (close_all ts w)
unfolding close_all
close_all-OnlyCloses [] w = OnlyCloses-refl w
close_all-OnlyCloses (t ∷ ts) w =
    let v = close_current (get_session t w) w in
    OnlyCloses-trans w v _ (close_current-OnlyCloses (get_session t w) w)
      (close_all-OnlyCloses ts v)

NoSession-OnlyCloses : (w v : World) (t : Tunnel) → OnlyCloses w v → NoSession w t → NoSession v t
NoSession-OnlyCloses w v t c n = elim (Option-cases (get_session t v)) [
  | inl e ↦ e
  | inr (i, e) ↦ ground (arith, n, get_session-OnlyCloses t w v i c e)
]

closed-NoSession :
    (i : ℕ) (t : Tunnel) (w : World) → get_session t w ≡ some i → NoSession (close_session i w) t
closed-NoSession i t w e =
    let v = close_session i w in
    elim (Option-cases (get_session t v)) [
      | inl n ↦ n
      | inr (j, f) ↦
          let same = get_session-OnlyCloses t w v j (close_session-OnlyCloses i w) f in
          let open_ = get_session-closed t j v f in
          ground (arith, e, same, open_, is_closed-close_session i w)
    ]

close_current-NoSession : (t : Tunnel) (w : World) → NoSession (close_current (get_session t w) w) t
unfolding close_current
close_current-NoSession t w = elim (Option-cases (get_session t w)) [
  | inl e ↦ rw (e, close_current) e
  | inr (i, e) ↦ rw (e, close_current) (closed-NoSession i t w e)
]

pub close_all-NoSession : (ts : List Tunnel) (w : World) → All (NoSession (close_all ts w)) ts
unfolding close_all
close_all-NoSession [] w = tt
close_all-NoSession (t ∷ ts) w =
    let v = close_current (get_session t w) w in
    (
      NoSession-OnlyCloses v _ t (close_all-OnlyCloses ts v) (close_current-NoSession t w),
      close_all-NoSession ts v,
    )

-- After `timeoutAllSessions`, no tunnel of the server has an open session.
pub timeout_all_sessions-NoSession :
    (s : Server) → let s' = timeout_all_sessions s in All (NoSession s'.world) (get_all_tunnels s')
unfolding timeout_all_sessions get_all_tunnels
timeout_all_sessions-NoSession s = close_all-NoSession (get_all_tunnels s) s.world
