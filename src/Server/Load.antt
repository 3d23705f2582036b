-- ===== src/Server/Load.antt =====
-- `loadTunnels` of v4/server.go: the listeners and tunnels after a (re)load of the configuration.
use tlswrapper.Base.{
  ℕ, suc, ◌-◌, Str, is_empty, str_eq, ltb, ◌||◌, if◌then◌else◌, Bool, false, Option, none, some,
  List, [], ◌∷◌, ◌++◌,
}
use tlswrapper.Tunnel.{Tunnel, World, new_tunnel, stop}
use tlswrapper.Config.{File}
use tlswrapper.Server.{Server, Listener}

-- What `net.Listen` and the goroutine group answer. An identity's calls are told apart by its name,
-- those of a tunnel by its place in the configuration.
pub record Answers : Type 0 where
  pub local_listen : Option ℕ
  pub local_go : Bool
  pub listen : Str → Option ℕ
  pub listen_go : Str → Bool
  pub main_go : Bool
  pub tunnel_go : ℕ → Bool

pub data LoadError : Type 0 where
  start_main start_tunnel : Str → LoadError
  local_listen_failed local_go_failed : Str → LoadError
  listen_failed listen_go_failed : Str → LoadError

-- Part 0, the main tunnel that is no longer configured. `Stop` always returns nil.
unfoldable pub stop_main : File → Server → Server
stop_main cfg s = elim s.main_tunnel [
  | none ↦ s
  | some t ↦
      if str_eq t.dial_addr cfg.mux_connect
      then s
      else record s { main_tunnel = none; world = (stop t s.world).1 }
]

-- `Start` fails only when the group does not take the goroutine.
unfoldable pub start_main_tunnel : File → Answers → Server → Server × List LoadError
start_main_tunnel cfg a s = elim s.main_tunnel [
  | some t ↦ (s, [])
  | none ↦ if is_empty cfg.mux_connect then (s, []) else (
    record s { main_tunnel = some (new_tunnel cfg.mux_connect) },
    if a.main_go then [] else start_main cfg.mux_connect ∷ [],
  )
]

unfoldable pub load_main : File → Answers → Server → Server × List LoadError
load_main cfg a s = start_main_tunnel cfg a (stop_main cfg s)

-- Part 0b. The listener that is bound to another address is closed first.
unfoldable pub close_local : Server → Server
close_local s = elim s.local_listener [
  | none ↦ s
  | some l ↦ record s {
    local_listener = none;
    local_listen_addr = [];
    closed_listeners = l ∷ s.closed_listeners;
  }
]

unfoldable pub bind_local : File → Answers → Server → Server × List LoadError
bind_local cfg a s = if is_empty cfg.listen then (s, []) else elim a.local_listen [
  | none ↦ (s, local_listen_failed cfg.listen ∷ [])
  | some l ↦
      if a.local_go
      then (record s { local_listener = some l; local_listen_addr = cfg.listen }, [])
      else (record s { closed_listeners = l ∷ s.closed_listeners }, local_go_failed cfg.listen ∷ [])
]

unfoldable pub load_local : File → Answers → Server → Server × List LoadError
load_local cfg a s =
    if str_eq s.local_listen_addr cfg.listen then (s, []) else bind_local cfg a (close_local s)

-- Part 1. A Go map as an association list with each key once: look up, and delete.
abbrev pub lookup {ℓ} : {A : Type ℓ} → Str → List (Str × A) → Option A
lookup k [] = none
lookup k ((j, v) ∷ m) = if str_eq j k then some v else lookup k m

unfoldable pub delete : Str → List (Str × Str) → List (Str × Str)
delete k [] = []
delete k ((j, v) ∷ m) = if str_eq j k then m else (j, v) ∷ delete k m

abbrev pub is_bound : Option Str → Str → Bool
is_bound none addr = false
is_bound (some a) addr = str_eq a addr

-- The listeners kept, the handles closed, and the addresses that are still to be bound.
pub record Split : Type 0 where
  pub kept : List (Str × Listener)
  pub closed : List ℕ
  pub active : List (Str × Str)

unfoldable pub split_listeners : List (Str × Listener) → List (Str × Str) → Split
split_listeners [] active = record { kept = []; closed = []; active = active }
split_listeners ((id, il) ∷ ils) active =
    if is_bound (lookup id active) il.addr
    then (let r = split_listeners ils (delete id active) in record r { kept = (id, il) ∷ r.kept })
    else (let r = split_listeners ils active in record r { closed = il.handle ∷ r.closed })

-- `identityListener.start` with the loop over the addresses left.
unfoldable pub bind_listeners : Answers → List (Str × Str) → Server → Server × List LoadError
bind_listeners a [] s = (s, [])
bind_listeners a ((id, addr) ∷ active) s = elim (a.listen id) [
  | none ↦ let (s', es) = bind_listeners a active s in (s', listen_failed id ∷ es)
  | some l ↦
      if a.listen_go id
      then bind_listeners a active
          (record s { identities = (id, record { handle = l; addr = addr }) ∷ s.identities })
      else (let (s', es) =
            bind_listeners a active (record s { closed_listeners = l ∷ s.closed_listeners }) in
          (s', listen_go_failed id ∷ es))
]

unfoldable pub load_listeners : File → Answers → Server → Server × List LoadError
load_listeners cfg a s =
    let r = split_listeners s.identities cfg.identity.listen in
    bind_listeners a r.active
      (record s { identities = r.kept; closed_listeners = r.closed ++ s.closed_listeners })

-- Part 2. `desired` is the Go map from an address to how many tunnels are wanted.
abbrev pub one_less : (Str → ℕ) → Str → Str → ℕ
one_less d addr b = if str_eq addr b then d b - 1 else d b

unfoldable pub tally : List Str → Str → ℕ
tally [] b = 0
tally (x ∷ xs) b = if str_eq x b then suc (tally xs b) else tally xs b

-- The tunnels kept, what is still desired, and the world after the others have stopped.
unfoldable pub keep_tunnels : (Str → ℕ) → List Tunnel → World → List Tunnel × (Str → ℕ) × World
keep_tunnels d [] w = ([], d, w)
keep_tunnels d (t ∷ ts) w =
    if ltb 0 (d t.dial_addr)
    then (let (kept, d', w') = keep_tunnels (one_less d t.dial_addr) ts w in (t ∷ kept, d', w'))
    else keep_tunnels d ts (stop t w).1

-- The tunnels created for the addresses left, in the order of the configuration, the first of
-- which stands at place `n`. `Start` of a tunnel without an address returns nil.
unfoldable pub create_tunnels : Answers → (Str → ℕ) → ℕ → List Str → List Tunnel × List LoadError
create_tunnels a d n [] = ([], [])
create_tunnels a d n (x ∷ xs) =
    if ltb 0 (d x)
    then (let (ts, es) = create_tunnels a (one_less d x) (suc n) xs in
        (new_tunnel x ∷ ts, if is_empty x || a.tunnel_go n then es else start_tunnel x ∷ es))
    else create_tunnels a d (suc n) xs

unfoldable pub load_identity_tunnels : File → Answers → Server → Server × List LoadError
load_identity_tunnels cfg a s =
    let wanted = cfg.identity.mux_connect in
    let (kept, d, w) = keep_tunnels (tally wanted) s.identity_tunnels s.world in
    let (added, es) = create_tunnels a d 0 wanted in
    (record s { identity_tunnels = kept ++ added; world = w }, es)

-- `loadTunnels`; it returns the errors of all its parts joined.
unfoldable pub load_tunnels : File → Answers → Server → Server × List LoadError
load_tunnels cfg a s0 =
    let (s1, e1) = load_main cfg a s0 in
    let (s2, e2) = load_local cfg a s1 in
    let (s3, e3) = load_listeners cfg a s2 in
    let (s4, e4) = load_identity_tunnels cfg a s3 in (s4, e1 ++ e2 ++ e3 ++ e4)
