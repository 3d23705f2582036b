-- ===== src/Server/Reloaded.antt =====
-- What `ReloadConfig` promises.
use tlswrapper.Base.{
  ℕ, ◌≡◌, ◌≢◌, refl, ap, ◌∙◌, sym, inl, inr, Str, str_eq, str_eq_iff, if◌then◌else◌, Bool, true,
  false, Option, none, some, List, [], ◌∷◌, arith, Bool-cases, Option-cases,
}
use tlswrapper.Config.{File, max_streams}
use tlswrapper.Server.Listeners.{IsMap}
use tlswrapper.Server.Loaded.{Configured, load_tunnels-Configured}
use tlswrapper.Server.Reload.{
  Service, ReloadError, Replies, start_mux_listen, reload_mux_listen, start_api_listen,
  reload_api_listen, swap_config, mark_service, load_service, finish_reload, reload_steps,
  reload_config,
}

-- What a reload leaves, with the errors that it returns. `skipped` is the reload of the
-- configuration that was last applied, and only that.
pub data Reloaded (cfg : File) (json : Option Str) (s : Service) (s' : Service)
    (es : List ReloadError) : Type 0 where
  skipped : json ≡ some s.last_config_json → s' ≡ s → es ≡ [] → Reloaded cfg json s s' es
  applied :
      json ≢ some s.last_config_json
      → Configured cfg s'.server
      → s'.cfg ≡ cfg
      → s'.stream_limit ≡ max_streams cfg
      → es ≡ []
      → ((b : Str) → json ≡ some b → s'.last_config_json ≡ b)
      → Reloaded cfg json s s' es
  partial :
      json ≢ some s.last_config_json
      → Configured cfg s'.server
      → s'.cfg ≡ cfg
      → s'.stream_limit ≡ max_streams cfg
      → es ≢ []
      → s'.last_config_json ≡ s.last_config_json
      → Reloaded cfg json s s' es

-- The parts of a service that the middle steps leave alone.
record Steady (a b : Service) : Type 0 where
  cfg : b.cfg ≡ a.cfg
  limit : b.stream_limit ≡ a.stream_limit
  json : b.last_config_json ≡ a.last_config_json

reload_mux_listen-Steady :
    (old cfg : File) (r : Replies) (s : Service) → Steady s (reload_mux_listen old cfg r s).0
unfolding reload_mux_listen start_mux_listen
reload_mux_listen-Steady old cfg r s = record {
  cfg = ground arith;
  limit = ground arith;
  json = ground arith;
}

reload_api_listen-Steady :
    (old cfg : File) (r : Replies) (s : Service) → Steady s (reload_api_listen old cfg r s).0
unfolding reload_api_listen start_api_listen
reload_api_listen-Steady old cfg r s = record {
  cfg = ground arith;
  limit = ground arith;
  json = ground arith;
}

-- The state after the steps of a reload, before its end.
record Stepped (cfg : File) (s s' : Service) : Type 0 where
  configured : Configured cfg s'.server
  current : s'.cfg ≡ cfg
  limit : s'.stream_limit ≡ max_streams cfg
  json : s'.last_config_json ≡ s.last_config_json

Swapped : File → Service → Service → Type 0
Swapped cfg s s' =
    (s'.cfg ≡ cfg)
    × (s'.stream_limit ≡ max_streams cfg)
    × (s'.last_config_json ≡ s.last_config_json)

swap_config-Swapped :
    (cfg : File) (r : Replies) (s : Service)
    → Swapped cfg s (mark_service r.now (swap_config cfg r s).0)
unfolding swap_config mark_service Swapped
swap_config-Swapped cfg r s = elim (Option-cases r.tls) [
  | inl n ↦ rw (n, swap_config) (refl, refl, refl)
  | inr (t, e) ↦ rw (e, swap_config) (refl, refl, refl)
]

load_service-Stepped :
    (cfg : File) (r : Replies) (s a b c : Service)
    → IsMap cfg.identity.listen
    → Swapped cfg s a
    → Steady a b
    → Steady b c
    → Stepped cfg s (load_service cfg r c).0
unfolding load_service Swapped
load_service-Stepped cfg r s a b c h (e, l, j) p q = record {
  configured = load_tunnels-Configured cfg r.answers c.server h;
  current = q.cfg ∙ p.cfg ∙ e;
  limit = q.limit ∙ p.limit ∙ l;
  json = q.json ∙ p.json ∙ j;
}

reload_steps-Stepped :
    (cfg : File) (r : Replies) (s : Service)
    → IsMap cfg.identity.listen
    → Stepped cfg s (reload_steps cfg r s).0
unfolding reload_steps
reload_steps-Stepped cfg r s h =
    let a = mark_service r.now (swap_config cfg r s).0 in
    let b = (reload_mux_listen s.cfg cfg r a).0 in
    load_service-Stepped cfg r s a b (reload_api_listen s.cfg cfg r b).0 h
      (swap_config-Swapped cfg r s) (reload_mux_listen-Steady s.cfg cfg r a)
      (reload_api_listen-Steady s.cfg cfg r b)

finish_reload-Reloaded :
    (cfg : File) (now : ℕ) (json : Option Str) (b : Str) (es : List ReloadError) (s s' : Service)
    → json ≢ some s.last_config_json
    → ((c : Str) → json ≡ some c → b ≡ c)
    → Stepped cfg s s'
    → let r = finish_reload now b es s' in Reloaded cfg json s r.0 r.1
unfolding finish_reload
finish_reload-Reloaded cfg now json b [] s s' d h t =
    applied d t.configured t.current t.limit refl h
finish_reload-Reloaded cfg now json b (e ∷ es) s s' d h t =
    partial d t.configured t.current t.limit (λ n. ground (arith, n)) t.json

new_json : (a b : Str) → str_eq a b ≡ false → some b ≢ some a
new_json a b n e = let same = (str_eq_iff a b).1 (ground (arith, e)) in cc

-- `ReloadConfig` does nothing if and only if the configuration's JSON is the one last applied. Otherwise,
-- whatever fails, it goes on to the end: the snapshot, the stream limit, the tunnels and the
-- identity listeners are as the new configuration says, and its JSON is remembered iff there was
-- no error, so that a reload that failed can be tried again. The identities of the configuration
-- are distinct.
pub reload_config-Reloaded :
    (cfg : File) (json : Option Str) (r : Replies) (s : Service)
    → IsMap cfg.identity.listen
    → let q = reload_config cfg json r s in Reloaded cfg json s q.0 q.1
unfolding reload_config
reload_config-Reloaded cfg none r s h =
    finish_reload-Reloaded cfg r.now none [] (reload_steps cfg r s).1 s (reload_steps cfg r s).0
      (λ n. cc) (λ c n. ground (arith, n)) (reload_steps-Stepped cfg r s h)
reload_config-Reloaded cfg (some b) r s h = elim (Bool-cases (str_eq s.last_config_json b)) [
  | inl e ↦
      rw (e, reload_config)
        (skipped (ap some (sym ((str_eq_iff s.last_config_json b).0 e))) refl refl)
  | inr e ↦
      rw (e, reload_config)
        (finish_reload-Reloaded cfg r.now (some b) b (reload_steps cfg r s).1 s
          (reload_steps cfg r s).0 (new_json s.last_config_json b e) (λ c n. ground (arith, n))
          (reload_steps-Stepped cfg r s h))
]

finish_reload-json :
    (now : ℕ) (b : Str) (es : List ReloadError) (s : Service)
    → (finish_reload now b es s).1 ≡ []
    → (finish_reload now b es s).0.last_config_json ≡ b
unfolding finish_reload
finish_reload-json now b [] s h = refl
finish_reload-json now b (e ∷ es) s h = ground (arith, h)

choice-json :
    (b : Str) (c : Bool) (x y : Service × List ReloadError)
    → (c ≡ true → x.0.last_config_json ≡ b)
    → (y.1 ≡ [] → y.0.last_config_json ≡ b)
    → (if c then x else y).1 ≡ []
    → (if c then x else y).0.last_config_json ≡ b
choice-json b true x y p q h = p refl
choice-json b false x y p q h = q h

reload_config-json :
    (cfg : File) (b : Str) (r : Replies) (s : Service)
    → (reload_config cfg (some b) r s).1 ≡ []
    → (reload_config cfg (some b) r s).0.last_config_json ≡ b
unfolding reload_config
reload_config-json cfg b r s h =
    choice-json b (str_eq s.last_config_json b) (s, []) _
      (λ e. (str_eq_iff s.last_config_json b).0 e)
      (finish_reload-json r.now b (reload_steps cfg r s).1 (reload_steps cfg r s).0) h

-- A configuration whose reload succeeded is skipped the next time: the state stays as it is, and
-- nothing is returned.
pub reload_config_twice :
    (cfg : File) (b : Str) (r q : Replies) (s : Service)
    → (reload_config cfg (some b) r s).1 ≡ []
    → let s' = (reload_config cfg (some b) r s).0 in reload_config cfg (some b) q s' ≡ (s', [])
unfolding reload_config
reload_config_twice cfg b r q s h =
    let s' = (reload_config cfg (some b) r s).0 in
    let e : str_eq s'.last_config_json b ≡ true =
      (str_eq_iff s'.last_config_json b).1 (reload_config-json cfg b r s h) in
    rw (e, reload_config) refl
