-- ===== src/Server/Reload.antt =====
-- `ReloadConfig`, `reloadMuxListen` and `reloadAPIListen` of v4/server.go. What the network, the TLS
-- library and the goroutine group answer is an argument; a TLS configuration is a name.
use tlswrapper.Base.{
  ℕ, ◌-◌, ◌%◌, ◌^◌, Str, lit, is_empty, str_eq, ◌==◌, if◌then◌else◌, Bool, true, false, not, ◌&&◌,
  Option, none, some, List, [], ◌∷◌, ◌++◌,
}
use tlswrapper.Base.Int.{ℤ, pos, negsuc}
use tlswrapper.Config.{File, Mux, Tcp, max_streams, idle_timeout}
use tlswrapper.Config.Validate.{parsed_max_startups}
use tlswrapper.Eventlog.{Recent, add}
use tlswrapper.Limiter.{Config}
use tlswrapper.Server.{Server, mark_sessions_stale}
use tlswrapper.Server.Load.{Answers, LoadError, load_tunnels}

-- The rest of what a server keeps. `throttle` are the limits of the mux listener, and `log` the
-- recent events.
pub record Service : Type 0 where
  pub server : Server
  pub cfg : File
  pub tlscfg : ℕ
  pub mux_dialer : File × ℕ
  pub stream_limit : ℤ
  pub mux_listener : Option ℕ
  pub throttle : Option Config
  pub api_listener : Option ℕ
  pub last_config_json : Str
  pub log : Recent

pub data ReloadError : Type 0 where
  tls_failed : ReloadError
  mux_listen_failed mux_go_failed : ReloadError
  api_listen_failed api_go_failed : ReloadError
  load : LoadError → ReloadError

pub record Replies : Type 0 where
  pub now : ℕ
  pub tls : Option ℕ
  pub mux_listen : Option ℕ
  pub mux_go : Bool
  pub api_listen : Option ℕ
  pub api_go : Bool
  pub answers : Answers

-- `==` of Go on the structs of the configuration.
abbrev pub eq_ℤ : ℤ → ℤ → Bool
eq_ℤ (pos m) (pos n) = m == n
eq_ℤ (pos m) (negsuc n) = false
eq_ℤ (negsuc m) (pos n) = false
eq_ℤ (negsuc m) (negsuc n) = m == n

abbrev pub eq_bool : Bool → Bool → Bool
eq_bool true b = b
eq_bool false b = not b

unfoldable pub eq_tcp : Tcp → Tcp → Bool
eq_tcp a b =
    eq_bool a.keep_alive b.keep_alive
    && eq_bool a.no_delay b.no_delay
    && eq_ℤ a.read_buffer b.read_buffer
    && eq_ℤ a.write_buffer b.write_buffer
    && eq_ℤ a.backlog b.backlog

unfoldable pub eq_mux : Mux → Mux → Bool
unfolding eq_tcp
eq_mux a b =
    eq_tcp a.tcp b.tcp
    && eq_ℤ a.session_window b.session_window
    && eq_ℤ a.stream_window b.stream_window
    && eq_ℤ a.max_half_open b.max_half_open
    && eq_ℤ a.max_streams b.max_streams
    && eq_ℤ a.connect_timeout b.connect_timeout
    && eq_ℤ a.ping_timeout b.ping_timeout
    && eq_ℤ a.keep_alive b.keep_alive
    && eq_ℤ a.send_timeout b.send_timeout
    && eq_ℤ a.idle_timeout b.idle_timeout

-- `uint32(v)` of a Go int.
abbrev pub to_u32 : ℤ → ℕ
to_u32 (pos n) = n % 2 ^ 32
to_u32 (negsuc n) = 2 ^ 32 - 1 - n % 2 ^ 32

-- The limits that `startMuxListen` gives to the listener.
unfoldable pub throttle_config : File → Config
throttle_config cfg =
    let s = parsed_max_startups cfg in
    record { start = to_u32 s.start; full = to_u32 s.full; max_sessions = to_u32 cfg.max_sessions }

unfoldable pub close_listener : Option ℕ → Server → Server
close_listener none s = s
close_listener (some l) s = record s { closed_listeners = l ∷ s.closed_listeners }

-- `startMuxListen`, after the parsing of the limits.
unfoldable pub start_mux_listen : File → Replies → Service → Service × List ReloadError
start_mux_listen cfg r s = elim r.mux_listen [
  | none ↦ (s, mux_listen_failed ∷ [])
  | some l ↦
      if r.mux_go
      then (record s { mux_listener = some l; throttle = some (throttle_config cfg) }, [])
      else (record s { server = close_listener (some l) s.server }, mux_go_failed ∷ [])
]

-- The settings that the mux listener captures when it is built.
unfoldable pub same_listen : File → File → Bool
same_listen old cfg =
    str_eq cfg.mux_listen old.mux_listen
    && str_eq cfg.mux_protocol old.mux_protocol
    && eq_ℤ cfg.max_sessions old.max_sessions
    && str_eq cfg.max_startups old.max_startups
    && eq_mux cfg.mux old.mux
    && str_eq cfg.identity.claim old.identity.claim
    && str_eq cfg.connect old.connect

-- `reloadMuxListen`
unfoldable pub reload_mux_listen : File → File → Replies → Service → Service × List ReloadError
reload_mux_listen old cfg r s =
    let closed = record s {
      mux_listener = none;
      throttle = none;
      server = close_listener s.mux_listener s.server;
    } in
    if same_listen old cfg
    then (s, [])
    else if is_empty cfg.mux_listen
    then (closed, [])
    else start_mux_listen cfg r closed

unfoldable pub start_api_listen : Replies → Service → Service × List ReloadError
start_api_listen r s = elim r.api_listen [
  | none ↦ (s, api_listen_failed ∷ [])
  | some l ↦
      if r.api_go
      then (record s { api_listener = some l }, [])
      else (record s { server = close_listener (some l) s.server }, api_go_failed ∷ [])
]

-- `reloadAPIListen`
unfoldable pub reload_api_listen : File → File → Replies → Service → Service × List ReloadError
reload_api_listen old cfg r s =
    let closed = record s {
      api_listener = none;
      server = close_listener s.api_listener s.server;
    } in
    if str_eq cfg.api_listen old.api_listen
    then (s, [])
    else if is_empty cfg.api_listen
    then (closed, [])
    else start_api_listen r closed

unfoldable pub load_errors : List LoadError → List ReloadError
load_errors [] = []
load_errors (e ∷ es) = load e ∷ load_errors es

-- The snapshot that the following steps see; the old TLS material stays if there is no new one.
unfoldable pub swap_config : File → Replies → Service → Service × List ReloadError
swap_config cfg r s = elim r.tls [
  | none ↦ (
    record s { cfg = cfg; mux_dialer = (cfg, s.tlscfg); stream_limit = max_streams cfg },
    tls_failed ∷ [],
  )
  | some t ↦ (
    record s { cfg = cfg; tlscfg = t; mux_dialer = (cfg, t); stream_limit = max_streams cfg },
    [],
  )
]

unfoldable pub mark_service : ℕ → Service → Service
mark_service now s = record s { server = mark_sessions_stale now (idle_timeout s.cfg) s.server }

unfoldable pub load_service : File → Replies → Service → Service × List ReloadError
load_service cfg r s =
    let (server, es) = load_tunnels cfg r.answers s.server in
    (record s { server = server }, load_errors es)

-- The end: the JSON is remembered only where nothing failed.
unfoldable pub finish_reload : ℕ → Str → List ReloadError → Service → Service × List ReloadError
finish_reload now json [] s =
    (record s { log = add now (lit "config loaded") s.log; last_config_json = json }, [])
finish_reload now json (e ∷ es) s = (record s { log = add now (lit "config loaded") s.log }, e ∷ es)

unfoldable pub reload_steps : File → Replies → Service → Service × List ReloadError
reload_steps cfg r s0 =
    let old = s0.cfg in
    let (s1, e1) = swap_config cfg r s0 in
    let s2 = mark_service r.now s1 in
    let (s3, e3) = reload_mux_listen old cfg r s2 in
    let (s4, e4) = reload_api_listen old cfg r s3 in
    let (s5, e5) = load_service cfg r s4 in (s5, e1 ++ e3 ++ e4 ++ e5)

-- `ReloadConfig`. `json` is the answer of `json.Marshal`; without one, nothing is remembered.
unfoldable pub reload_config : File → Option Str → Replies → Service → Service × List ReloadError
reload_config cfg json r s = elim json [
  | none ↦ let (s', es) = reload_steps cfg r s in finish_reload r.now [] es s'
  | some b ↦
      let (s', es) = reload_steps cfg r s in
      if str_eq s.last_config_json b then (s, []) else finish_reload r.now b es s'
]
