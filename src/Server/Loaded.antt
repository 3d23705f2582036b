-- ===== src/Server/Loaded.antt =====
-- What `loadTunnels` promises as a whole.
use tlswrapper.Base.{
  ◌≡◌, refl, ◌∙◌, sym, inl, inr, Str, List, [], ◌∷◌, arith, Bool-cases, Option-cases, subst,
}
use tlswrapper.Config.{File}
use tlswrapper.Server.{Server}
use tlswrapper.Server.Load.{
  Answers, bind_listeners, load_listeners, load_main, load_local, close_local, bind_local,
  load_identity_tunnels, load_tunnels, tally,
}
use tlswrapper.Server.Multiset.{addrs, load_identity_tunnels-tally}
use tlswrapper.Server.Listeners.{
  IsMap, AllConfigured, MainConfigured, load_listeners-AllConfigured, load_main-MainConfigured,
}

bind_listeners-main :
    (a : Answers) (active : List (Str × Str)) (s : Server)
    → (bind_listeners a active s).0.main_tunnel ≡ s.main_tunnel
unfolding bind_listeners
bind_listeners-main a [] s = refl
bind_listeners-main a ((id, addr) ∷ active) s = elim (Option-cases (a.listen id)) [
  | inl n ↦ rw (n, bind_listeners) (bind_listeners-main a active s)
  | inr (l, e) ↦ elim (Bool-cases (a.listen_go id)) [
    | inl g ↦ rw (e, g, bind_listeners) (bind_listeners-main a active _)
    | inr g ↦ rw (e, g, bind_listeners) (bind_listeners-main a active _)
  ]
]

load_listeners-main :
    (cfg : File) (a : Answers) (s : Server) → (load_listeners cfg a s).0.main_tunnel ≡ s.main_tunnel
unfolding load_listeners
load_listeners-main cfg a s = bind_listeners-main a _ _

load_local-main :
    (cfg : File) (a : Answers) (s : Server) → (load_local cfg a s).0.main_tunnel ≡ s.main_tunnel
unfolding load_local close_local bind_local
load_local-main cfg a s = ground arith

-- A server is as the configuration says: its main tunnel, its identity listeners, and, address by
-- address, its identity tunnels.
pub record Configured (cfg : File) (s : Server) : Type 0 where
  pub main : MainConfigured cfg.mux_connect s.main_tunnel
  pub listeners : AllConfigured cfg.identity.listen s.identities
  pub tunnels : (b : Str) → tally (addrs s.identity_tunnels) b ≡ tally cfg.identity.mux_connect b

-- After `loadTunnels`, from any state of the server and with any calls failing, the main tunnel
-- dials the configured address, or is absent where there is none, each identity listener is
-- configured at the address that it is bound to, and the identity tunnels dial each address
-- exactly as often as it is listed. The identities of the configuration are distinct.
pub load_tunnels-Configured :
    (cfg : File) (a : Answers) (s : Server)
    → IsMap cfg.identity.listen
    → Configured cfg (load_tunnels cfg a s).0
unfolding load_tunnels load_identity_tunnels
load_tunnels-Configured cfg a s h =
    let s1 = (load_main cfg a s).0 in
    let s2 = (load_local cfg a s1).0 in
    let s3 = (load_listeners cfg a s2).0 in
    record {
      main =
          subst (MainConfigured cfg.mux_connect)
            (sym (load_listeners-main cfg a s2 ∙ load_local-main cfg a s1))
            (load_main-MainConfigured cfg a s);
      listeners = load_listeners-AllConfigured cfg a s2 h;
      tunnels = λ b. load_identity_tunnels-tally cfg a s3 b;
    }
