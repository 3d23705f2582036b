-- ===== src/Config/Defs.antt =====
-- The types of v4/config/config.go, the default snapshot, and the accessors of utils.go.
use tlswrapper.Base.{
  ℕ, Str, lit, is_empty, str_eq, Bool, true, false, Option, none, some, List, [], ◌∷◌, ◌*◌,
  if◌then◌else◌,
}
use tlswrapper.Base.Int.{ℤ, pos, pos_part, is_zero}

pub record Tcp : Type 0 where
  pub keep_alive : Bool
  pub no_delay : Bool
  pub read_buffer : ℤ
  pub write_buffer : ℤ
  pub backlog : ℤ

pub record Mux : Type 0 where
  pub tcp : Tcp
  pub session_window : ℤ
  pub stream_window : ℤ
  pub max_half_open : ℤ
  pub max_streams : ℤ
  pub connect_timeout : ℤ
  pub ping_timeout : ℤ
  pub keep_alive : ℤ
  pub send_timeout : ℤ
  pub idle_timeout : ℤ

pub record Tls : Type 0 where
  pub certificate : Str
  pub private_key : Str
  pub auth_certs : List Str
  pub server_name : Str
  pub alpn : Str

-- `listen` is the Go map, as an association list.
pub record Identity : Type 0 where
  pub claim : Str
  pub mux_connect : List Str
  pub listen : List (Str × Str)

pub record File : Type 0 where
  pub type_ : Str
  pub api_listen : Str
  pub mux_listen : Str
  pub mux_connect : Str
  pub mux_protocol : Str
  pub listen : Str
  pub connect : Str
  pub identity : Identity
  pub log : Str
  pub log_level : ℤ
  pub max_sessions : ℤ
  pub max_startups : Str
  pub no_redial : Bool
  pub tls : Option Tls
  pub mux : Mux
  pub tcp : Tcp

abbrev default_tcp : Tcp
default_tcp = record {
  keep_alive = false;
  no_delay = true;
  read_buffer = pos 0;
  write_buffer = pos 0;
  backlog = pos 16;
}

abbrev default_mux : Mux
default_mux = record {
  tcp = default_tcp;
  session_window = pos 0;
  stream_window = pos 0;
  max_half_open = pos 256;
  max_streams = pos 0;
  connect_timeout = pos 15;
  ping_timeout = pos 15;
  keep_alive = pos 300;
  send_timeout = pos 15;
  idle_timeout = pos 0;
}

-- `Default`. The log level is slog.LevelNotice, a constant of the logging library.
abbrev pub default_file : Str → ℤ → File
default_file type_ level_notice = record {
  type_ = type_;
  api_listen = [];
  mux_listen = [];
  mux_connect = [];
  mux_protocol = [];
  listen = [];
  connect = [];
  identity = record { claim = []; mux_connect = []; listen = [] };
  log = lit "stdout";
  log_level = level_notice;
  max_sessions = pos 128;
  max_startups = lit "10:30:60";
  no_redial = false;
  tls = none;
  mux = default_mux;
  tcp = default_tcp;
}

-- A Go map read: the zero value on a missing key.
get_str : Str → List (Str × Str) → Str
get_str k [] = []
get_str k ((j, v) ∷ m) = if str_eq j k then v else get_str k m

pub find_listen : File → Str → Str
unfolding get_str
find_listen c name = if is_empty name then c.listen else get_str name c.identity.listen

pub default_server_name : Str
default_server_name = lit "example.com"

pub server_name : File → Str
unfolding default_server_name
server_name c = elim c.tls [
  | none ↦ []
  | some t ↦ if is_empty t.server_name then default_server_name else t.server_name
]

pub alpn : File → Str
alpn c = elim c.tls [ none ↦ [] | some t ↦ t.alpn ]

-- Durations in nanoseconds; a negative setting does not pass `validate`.
abbrev second : ℕ
second = 1_000_000_000

unfoldable pub idle_timeout : File → ℕ
idle_timeout c = pos_part c.mux.idle_timeout * second

unfoldable pub ping_timeout : File → ℕ
ping_timeout c = pos_part c.mux.ping_timeout * second

unfoldable pub connect_timeout : File → ℕ
connect_timeout c = pos_part c.mux.connect_timeout * second

-- `maxStreams` of v4/server.go.
unfoldable pub max_streams : File → ℤ
max_streams c = if is_zero c.mux.max_streams then pos 1024 else c.mux.max_streams
