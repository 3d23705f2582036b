-- ===== src/Server/Listeners.antt =====
-- The identity listeners and the main tunnel after `loadTunnels`.
use tlswrapper.Base.{
  ◌≡◌, ap, ◌∙◌, sym, inl, inr, Str, is_empty, str_eq, str_eq_iff, true, Option, none, some, List,
  [], ◌∷◌, All, arith, Bool-cases, Option-cases,
}
use tlswrapper.Tunnel.{Tunnel, new_tunnel}
use tlswrapper.Config.{File}
use tlswrapper.Server.{Server, Listener}
use tlswrapper.Server.Load.{
  Answers, lookup, delete, is_bound, split_listeners, bind_listeners, load_listeners, load_main,
  stop_main, start_main_tunnel,
}

-- A lookup finds every entry, as in a list that has each key once.
abbrev pub IsMap : List (Str × Str) → Type 0
IsMap m = All (λ e. lookup e.0 m ≡ some e.1) m

-- Each listener is bound where the configuration says.
abbrev pub AllConfigured : List (Str × Str) → List (Str × Listener) → Type 0
AllConfigured m ils = All (λ e. lookup e.0 m ≡ some e.1.addr) ils

Found : List (Str × Str) → List (Str × Str) → Type 0
Found m active = All (λ e. lookup e.0 m ≡ some e.1) active

delete-Found :
    (m : List (Str × Str)) (k : Str) (active : List (Str × Str))
    → Found m active
    → Found m (delete k active)
unfolding Found delete
delete-Found m k [] f = f
delete-Found m k ((j, v) ∷ active) f = ground (arith, f, delete-Found m k active)

found : (m : List (Str × Str)) → IsMap m → Found m m
unfolding Found
found m h = h

bound-Found :
    (m : List (Str × Str)) (k addr : Str) (active : List (Str × Str))
    → Found m active
    → is_bound (lookup k active) addr ≡ true
    → lookup k m ≡ some addr
unfolding Found
bound-Found m k addr [] f h = ground (arith, h)
bound-Found m k addr ((j, v) ∷ active) f h = elim (Bool-cases (str_eq j k)) [
  | inl e ↦
      let bound : str_eq v addr ≡ true = ground (arith, e, h) in
      sym (ap (λ x. lookup x m) ((str_eq_iff j k).0 e))
      ∙ f.0
      ∙ ap some ((str_eq_iff v addr).0 bound)
  | inr e ↦ ground (arith, e, f, h, bound-Found m k addr active)
]

split_listeners-Found :
    (m : List (Str × Str)) (ils : List (Str × Listener)) (active : List (Str × Str))
    → Found m active
    → let r = split_listeners ils active in AllConfigured m r.kept × Found m r.active
unfolding split_listeners
split_listeners-Found m [] active f = (tt, f)
split_listeners-Found m ((id, il) ∷ ils) active f =
    elim (Bool-cases (is_bound (lookup id active) il.addr)) [
      | inl b ↦ ground (
        arith,
        b,
        bound-Found m id il.addr active f b,
        split_listeners-Found m ils (delete id active) (delete-Found m id active f),
      )
      | inr b ↦ ground (arith, b, split_listeners-Found m ils active f)
    ]

bind_listeners-Found :
    (m : List (Str × Str)) (a : Answers) (active : List (Str × Str)) (s : Server)
    → Found m active
    → AllConfigured m s.identities
    → AllConfigured m (bind_listeners a active s).0.identities
unfolding bind_listeners Found
bind_listeners-Found m a [] s f h = h
bind_listeners-Found m a ((id, addr) ∷ active) s f h = elim (Option-cases (a.listen id)) [
  | inl n ↦ rw (n, bind_listeners) (bind_listeners-Found m a active s f.1 h)
  | inr (l, e) ↦ elim (Bool-cases (a.listen_go id)) [
    | inl g ↦ rw (e, g, bind_listeners) (bind_listeners-Found m a active _ f.1 (f.0, h))
    | inr g ↦ rw (e, g, bind_listeners) (bind_listeners-Found m a active _ f.1 h)
  ]
]

-- After a load of the listeners, whatever was open before and whatever fails, each identity
-- listener that is left is configured, at the address that it is bound to.
pub load_listeners-AllConfigured :
    (cfg : File) (a : Answers) (s : Server)
    → IsMap cfg.identity.listen
    → AllConfigured cfg.identity.listen (load_listeners cfg a s).0.identities
unfolding load_listeners
load_listeners-AllConfigured cfg a s h =
    let (k, f) =
      split_listeners-Found cfg.identity.listen s.identities cfg.identity.listen
        (found cfg.identity.listen h) in
    bind_listeners-Found cfg.identity.listen a _ _ f k

-- The main tunnel is there iff it is configured, with the configured address.
abbrev pub MainConfigured : Str → Option Tunnel → Type 0
MainConfigured addr none = is_empty addr ≡ true
MainConfigured addr (some t) = t.dial_addr ≡ addr

pub load_main-MainConfigured :
    (cfg : File) (a : Answers) (s : Server)
    → MainConfigured cfg.mux_connect (load_main cfg a s).0.main_tunnel
unfolding load_main stop_main start_main_tunnel new_tunnel
load_main-MainConfigured cfg a s = elim (Option-cases s.main_tunnel) [
  | inl n ↦ ground (arith, n)
  | inr (t, e) ↦ ground (arith, e, str_eq_iff t.dial_addr cfg.mux_connect)
]
