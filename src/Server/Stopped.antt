-- ===== src/Server/Stopped.antt =====
-- What `Shutdown` leaves, and what a `Start` that succeeds has set up.
use tlswrapper.Base.{
  mem, ℕ, ◌≡◌, refl, ◌∙◌, inl, inr, Str, Bool, true, Option, none, some, List, [], ◌∷◌, All, arith,
  Bool-cases, ==_refl, subst,
}
use tlswrapper.Tunnel.{Tunnel, World, stop}
use tlswrapper.Server.{Server, Listener, get_all_tunnels}
use tlswrapper.Server.Listeners.{IsMap}
use tlswrapper.Server.Loaded.{Configured, load_tunnels-Configured}
use tlswrapper.Server.Timeout.{NoSession, close_all-NoSession}
use tlswrapper.Server.Reload.{Service, ReloadError, Replies, close_listener, load_service}
use tlswrapper.Server.Shutdown.{
  StartError, start_mux, start_api, and_then, start_service, stop_main_tunnel, stop_tunnels,
  close_identities, stop_server, Down, shutdown,
}

-- The run loop of a tunnel has been told to end.
abbrev pub IsStopped : Tunnel → Type 0
IsStopped t = t.closed_sig ≡ true

abbrev pub MainStopped : Option Tunnel → Type 0
MainStopped none = Unit
MainStopped (some t) = IsStopped t

-- The listener, if there is one, is among the closed.
abbrev pub IsClosed : Option ℕ → List ℕ → Type 0
IsClosed none closed = Unit
IsClosed (some l) closed = mem l closed ≡ true

pub record IsDown (s : Service) (d : Down) : Type 0 where
  pub main : MainStopped d.service.server.main_tunnel
  pub identity : All IsStopped d.service.server.identity_tunnels
  pub sessions : All (NoSession d.service.server.world) (get_all_tunnels d.service.server)
  pub mux : IsClosed s.mux_listener d.service.server.closed_listeners
  pub api : IsClosed s.api_listener d.service.server.closed_listeners
  pub local : IsClosed s.server.local_listener d.service.server.closed_listeners
  pub identities :
      All (λ e. mem e.1.handle d.service.server.closed_listeners ≡ true) s.server.identities
  pub flags : (d.ctx_closed ≡ true) × (d.group_closed ≡ true) × (d.forwarder_closed ≡ true)

stop-IsStopped : (t : Tunnel) (w : World) → IsStopped (stop t w).0
unfolding stop
stop-IsStopped t w = elim (Bool-cases t.closed_sig) [
  | inl c ↦ ground (arith, c)
  | inr c ↦ ground (arith, c)
]

stop_main_tunnel-MainStopped :
    (o : Option Tunnel) (w : World) → MainStopped (stop_main_tunnel o w).0
unfolding stop_main_tunnel
stop_main_tunnel-MainStopped none w = tt
stop_main_tunnel-MainStopped (some t) w = stop-IsStopped t w

stop_tunnels-IsStopped : (ts : List Tunnel) (w : World) → All IsStopped (stop_tunnels ts w).0
unfolding stop_tunnels
stop_tunnels-IsStopped [] w = tt
stop_tunnels-IsStopped (t ∷ ts) w = (stop-IsStopped t w, stop_tunnels-IsStopped ts (stop t w).1)

-- The closed listeners only become more.
abbrev pub Grows : List ℕ → List ℕ → Type 0
Grows xs ys = (l : ℕ) → mem l xs ≡ true → mem l ys ≡ true

close_listener-Grows :
    (o : Option ℕ) (s : Server) → Grows s.closed_listeners (close_listener o s).closed_listeners
unfolding close_listener
close_listener-Grows none s l h = h
close_listener-Grows (some k) s l h = ground (arith, h)

close_listener-IsClosed :
    (o : Option ℕ) (s : Server) → IsClosed o (close_listener o s).closed_listeners
unfolding close_listener
close_listener-IsClosed none s = tt
close_listener-IsClosed (some k) s = ground (arith, ==_refl k)

close_identities-Grows :
    (ils : List (Str × Listener)) (s : Server)
    → Grows s.closed_listeners (close_identities ils s).closed_listeners
unfolding close_identities
close_identities-Grows [] s l h = h
close_identities-Grows ((id, il) ∷ ils) s l h =
    close_identities-Grows ils (close_listener (some il.handle) s) l
      (close_listener-Grows (some il.handle) s l h)

IsClosed-Grows : (o : Option ℕ) (xs ys : List ℕ) → Grows xs ys → IsClosed o xs → IsClosed o ys
IsClosed-Grows none xs ys g h = tt
IsClosed-Grows (some l) xs ys g h = g l h

close_identities-closed :
    (ils : List (Str × Listener)) (s : Server)
    → All (λ e. mem e.1.handle (close_identities ils s).closed_listeners ≡ true) ils
unfolding close_identities
close_identities-closed [] s = tt
close_identities-closed ((id, il) ∷ ils) s =
    let s' = close_listener (some il.handle) s in
    (
      IsClosed-Grows (some il.handle) _ _ (close_identities-Grows ils s')
          (close_listener-IsClosed (some il.handle) s),
      close_identities-closed ils s',
    )

close_listener-frame :
    (o : Option ℕ) (s : Server)
    → ((close_listener o s).local_listener ≡ s.local_listener)
      × ((close_listener o s).identities ≡ s.identities)
unfolding close_listener
close_listener-frame none s = (refl, refl)
close_listener-frame (some k) s = (refl, refl)

-- After `Shutdown`, also one that times out: every tunnel that the configuration drives is stopped,
-- no tunnel of the server has an open session, every listener that was open is closed, and the
-- context manager, the group and the forwarder are closed.
pub shutdown-IsDown : (finished : Bool) (s : Service) → IsDown s (shutdown finished s)
unfolding shutdown stop_server get_all_tunnels
shutdown-IsDown finished s =
    let s0 = close_listener s.mux_listener s.server in
    let s1 = close_listener s.api_listener s0 in
    let a = close_listener s1.local_listener s1 in
    let b = close_identities s1.identities a in
    let (l0, i0) = close_listener-frame s.mux_listener s.server in
    let (l1, i1) = close_listener-frame s.api_listener s0 in
    let from_a = close_identities-Grows s1.identities a in
    let from_1 : Grows s1.closed_listeners b.closed_listeners =
      λ l h. from_a l (close_listener-Grows s1.local_listener s1 l h) in
    record {
      main = stop_main_tunnel-MainStopped b.main_tunnel b.world;
      identity = stop_tunnels-IsStopped b.identity_tunnels _;
      sessions = close_all-NoSession (get_all_tunnels (stop_server s1)) (stop_server s1).world;
      mux = IsClosed-Grows s.mux_listener _ _ from_1 (
          IsClosed-Grows s.mux_listener _ _ (close_listener-Grows s.api_listener s0)
            (close_listener-IsClosed s.mux_listener s.server));
      api = IsClosed-Grows s.api_listener _ _ from_1 (close_listener-IsClosed s.api_listener s0);
      local =
          subst (λ o. IsClosed o b.closed_listeners) (l1 ∙ l0)
            (IsClosed-Grows s1.local_listener _ _ from_a
              (close_listener-IsClosed s1.local_listener s1));
      identities =
          subst (λ ils. All (λ e. mem e.1.handle b.closed_listeners ≡ true) ils) (i1 ∙ i0)
            (close_identities-closed s1.identities a);
      flags = (refl, refl, refl);
    }

and_then-none :
    (P : Service → Type 0) (r : Service × List ReloadError)
    (next : Service → Service × Option StartError)
    → ((next r.0).1 ≡ none → P (next r.0).0)
    → (and_then r next).1 ≡ none
    → P (and_then r next).0
unfolding and_then
and_then-none P (s, []) next h e = h e
and_then-none P (s, x ∷ es) next h e = ground (arith, e)

-- A `Start` that returns nil has set up the tunnels and the identity listeners as the
-- configuration says, from whatever was there. The identities of the configuration are distinct.
pub start_service-Configured :
    (r : Replies) (go : Bool) (s : Service)
    → IsMap s.cfg.identity.listen
    → (start_service r go s).1 ≡ none
    → Configured s.cfg (start_service r go s).0.server
unfolding start_service load_service
start_service-Configured r go s m =
    let P = λ (x : Service). Configured s.cfg x.server in
    and_then-none P (start_mux r s) _ (
      and_then-none P (start_api r (start_mux r s).0) _ (
        and_then-none P (load_service s.cfg r (start_api r (start_mux r s).0).0) _
          (λ e. load_tunnels-Configured s.cfg r.answers _ m)))
