-- ===== src/Server/Shutdown.antt =====
-- `Start` and `Shutdown` of v4/server.go. Whether the goroutines end before the timeout is an
-- argument.
use tlswrapper.Base.{
  Str, is_empty, if◌then◌else◌, Bool, true, false, Option, none, some, List, [], ◌∷◌,
}
use tlswrapper.Tunnel.{Tunnel, World, stop}
use tlswrapper.Server.{Server, Listener, get_all_tunnels, close_all}
use tlswrapper.Server.Reload.{
  Service, ReloadError, Replies, close_listener, start_mux_listen, start_api_listen, load_service,
}

pub data StartError : Type 0 where
  failed : List ReloadError → StartError
  maintenance_failed : StartError

unfoldable pub start_mux : Replies → Service → Service × List ReloadError
start_mux r s = if is_empty s.cfg.mux_listen then (s, []) else start_mux_listen s.cfg r s

unfoldable pub start_api : Replies → Service → Service × List ReloadError
start_api r s = if is_empty s.cfg.api_listen then (s, []) else start_api_listen r s

-- A failed step ends `Start`; what the steps before it opened stays open.
unfoldable pub and_then :
    Service × List ReloadError
    → (Service → Service × Option StartError)
    → Service × Option StartError
and_then (s, []) next = next s
and_then (s, e ∷ es) next = (s, some (failed (e ∷ es)))

-- `Start`; `go` is whether the group takes `maintenanceLoop`.
unfoldable pub start_service : Replies → Bool → Service → Service × Option StartError
unfolding and_then
start_service r go s = and_then (start_mux r s) (λ (s1 : Service).
    and_then (start_api r s1) (λ (s2 : Service).
      and_then (load_service s.cfg r s2)
        (λ (s3 : Service). (s3, if go then none else some maintenance_failed))))

unfoldable pub stop_main_tunnel : Option Tunnel → World → Option Tunnel × World
stop_main_tunnel none w = (none, w)
stop_main_tunnel (some t) w = let (t', w') = stop t w in (some t', w')

unfoldable pub stop_tunnels : List Tunnel → World → List Tunnel × World
stop_tunnels [] w = ([], w)
stop_tunnels (t ∷ ts) w =
    let (t', w') = stop t w in let (ts', w'') = stop_tunnels ts w' in (t' ∷ ts', w'')

unfoldable pub close_identities : List (Str × Listener) → Server → Server
close_identities [] s = s
close_identities ((id, il) ∷ ils) s = close_identities ils (close_listener (some il.handle) s)

-- The listeners, and then the tunnels that the configuration drives.
unfoldable pub stop_server : Server → Server
stop_server s0 =
    let s = close_identities s0.identities (close_listener s0.local_listener s0) in
    let (main, w) = stop_main_tunnel s.main_tunnel s.world in
    let (identity, w') = stop_tunnels s.identity_tunnels w in
    record s { main_tunnel = main; identity_tunnels = identity; world = w' }

-- What `Shutdown` leaves, with the flags of the context manager, the group and the forwarder.
pub record Down : Type 0 where
  pub service : Service
  pub ctx_closed : Bool
  pub group_closed : Bool
  pub forwarder_closed : Bool
  pub timed_out : Bool

-- `Shutdown`
unfoldable pub shutdown : Bool → Service → Down
shutdown finished s =
    let s1 = close_listener s.api_listener (close_listener s.mux_listener s.server) in
    let s2 = stop_server s1 in
    record {
      service = record s {
        server = record s2 { world = close_all (get_all_tunnels s2) s2.world };
        mux_listener = none;
        throttle = none;
        api_listener = none;
      };
      ctx_closed = true;
      group_closed = true;
      forwarder_closed = true;
      timed_out = if finished then false else true;
    }
