-- ===== src/Config/Clamp.antt =====
-- `clampInt` of v4/config/loader.go, and the clamping part of `Validate`.
use tlswrapper.Base.{if◌then◌else◌, ◌≡◌, ◌⊎◌, arith}
use tlswrapper.Base.Int.{ℤ, pos, ltb_ℤ, ◌≤ℤ◌, is_zero}
use tlswrapper.Config.Defs.{Tcp, Mux, File}

pub clamp_int : ℤ → ℤ → ℤ → ℤ
clamp_int v lo hi = if ltb_ℤ v lo then lo else if ltb_ℤ hi v then hi else v

-- `if v != 0 { clampInt(&v, lo, hi) }`
pub clamp_nonzero : ℤ → ℤ → ℤ → ℤ
unfolding clamp_int
clamp_nonzero v lo hi = if is_zero v then v else clamp_int v lo hi

abbrev pub max_int32 : ℤ
max_int32 = pos 2_147_483_647

abbrev pub day : ℤ
day = pos 86_400

abbrev clamp_tcp : Tcp → Tcp
clamp_tcp t = record t {
  read_buffer = clamp_nonzero t.read_buffer (pos 1) max_int32;
  write_buffer = clamp_nonzero t.write_buffer (pos 1) max_int32;
  backlog = clamp_int t.backlog (pos 1) (pos 4096);
}

abbrev clamp_mux : Mux → Mux
clamp_mux m = record m {
  tcp = clamp_tcp m.tcp;
  session_window = clamp_nonzero m.session_window (pos 65_535) max_int32;
  stream_window = clamp_nonzero m.stream_window (pos 65_535) max_int32;
  max_half_open = clamp_int m.max_half_open (pos 0) max_int32;
  max_streams = clamp_int m.max_streams (pos 0) max_int32;
  connect_timeout = clamp_int m.connect_timeout (pos 10) day;
  ping_timeout = clamp_int m.ping_timeout (pos 10) day;
  keep_alive = clamp_int m.keep_alive (pos 10) day;
  send_timeout = clamp_int m.send_timeout (pos 10) day;
  idle_timeout = clamp_nonzero m.idle_timeout (pos 10) day;
}

unfoldable pub clamp_file : File → File
clamp_file c = record c {
  max_sessions = clamp_int c.max_sessions (pos 0) max_int32;
  mux = clamp_mux c.mux;
  tcp = clamp_tcp c.tcp;
}

abbrev pub InRange : ℤ → ℤ → ℤ → Type 0
InRange lo hi v = (lo ≤ℤ v) × (v ≤ℤ hi)

abbrev pub ZeroOrInRange : ℤ → ℤ → ℤ → Type 0
ZeroOrInRange lo hi v = (v ≡ pos 0) ⊎ ((lo ≤ℤ v) × (v ≤ℤ hi))

pub record TcpInRange (t : Tcp) : Type 0 where
  pub read_buffer : ZeroOrInRange (pos 1) max_int32 t.read_buffer
  pub write_buffer : ZeroOrInRange (pos 1) max_int32 t.write_buffer
  pub backlog : InRange (pos 1) (pos 4096) t.backlog

pub record MuxInRange (m : Mux) : Type 0 where
  pub tcp : TcpInRange m.tcp
  pub session_window : ZeroOrInRange (pos 65_535) max_int32 m.session_window
  pub stream_window : ZeroOrInRange (pos 65_535) max_int32 m.stream_window
  pub max_half_open : InRange (pos 0) max_int32 m.max_half_open
  pub max_streams : InRange (pos 0) max_int32 m.max_streams
  pub connect_timeout : InRange (pos 10) day m.connect_timeout
  pub ping_timeout : InRange (pos 10) day m.ping_timeout
  pub keep_alive : InRange (pos 10) day m.keep_alive
  pub send_timeout : InRange (pos 10) day m.send_timeout
  pub idle_timeout : ZeroOrInRange (pos 10) day m.idle_timeout

pub record FileInRange (c : File) : Type 0 where
  pub max_sessions : InRange (pos 0) max_int32 c.max_sessions
  pub mux : MuxInRange c.mux
  pub tcp : TcpInRange c.tcp

clamp_int-InRange : (v lo hi : ℤ) → lo ≤ℤ hi → InRange lo hi (clamp_int v lo hi)
unfolding clamp_int
clamp_int-InRange v lo hi h = ground arith

clamp_nonzero-ZeroOrInRange : (v lo hi : ℤ) → lo ≤ℤ hi → ZeroOrInRange lo hi (clamp_nonzero v lo hi)
unfolding clamp_nonzero
clamp_nonzero-ZeroOrInRange v lo hi h = ground arith

clamp_int_of_InRange : (v lo hi : ℤ) → InRange lo hi v → clamp_int v lo hi ≡ v
unfolding clamp_int
clamp_int_of_InRange v lo hi h = ground arith

clamp_nonzero_of_ZeroOrInRange : (v lo hi : ℤ) → ZeroOrInRange lo hi v → clamp_nonzero v lo hi ≡ v
unfolding clamp_nonzero
clamp_nonzero_of_ZeroOrInRange v lo hi h = ground arith

clamp_tcp-TcpInRange : (t : Tcp) → TcpInRange (clamp_tcp t)
clamp_tcp-TcpInRange t = record {
  read_buffer = clamp_nonzero-ZeroOrInRange _ _ _ (omega arith);
  write_buffer = clamp_nonzero-ZeroOrInRange _ _ _ (omega arith);
  backlog = clamp_int-InRange _ _ _ (omega arith);
}

clamp_mux-MuxInRange : (m : Mux) → MuxInRange (clamp_mux m)
clamp_mux-MuxInRange m = record {
  tcp = clamp_tcp-TcpInRange m.tcp;
  session_window = clamp_nonzero-ZeroOrInRange _ _ _ (omega arith);
  stream_window = clamp_nonzero-ZeroOrInRange _ _ _ (omega arith);
  max_half_open = clamp_int-InRange _ _ _ (omega arith);
  max_streams = clamp_int-InRange _ _ _ (omega arith);
  connect_timeout = clamp_int-InRange _ _ _ (omega arith);
  ping_timeout = clamp_int-InRange _ _ _ (omega arith);
  keep_alive = clamp_int-InRange _ _ _ (omega arith);
  send_timeout = clamp_int-InRange _ _ _ (omega arith);
  idle_timeout = clamp_nonzero-ZeroOrInRange _ _ _ (omega arith);
}

pub clamp_file-FileInRange : (c : File) → FileInRange (clamp_file c)
unfolding clamp_file
clamp_file-FileInRange c = record {
  max_sessions = clamp_int-InRange _ _ _ (omega arith);
  mux = clamp_mux-MuxInRange c.mux;
  tcp = clamp_tcp-TcpInRange c.tcp;
}

clamp_tcp_of_TcpInRange : (t : Tcp) → TcpInRange t → clamp_tcp t ≡ t
clamp_tcp_of_TcpInRange t h = simp (
  clamp_nonzero_of_ZeroOrInRange t.read_buffer (pos 1) max_int32 h.read_buffer,
  clamp_nonzero_of_ZeroOrInRange t.write_buffer (pos 1) max_int32 h.write_buffer,
  clamp_int_of_InRange t.backlog (pos 1) (pos 4096) h.backlog,
)

clamp_mux_of_MuxInRange : (m : Mux) → MuxInRange m → clamp_mux m ≡ m
clamp_mux_of_MuxInRange m h = simp (
  clamp_tcp_of_TcpInRange m.tcp h.tcp,
  clamp_nonzero_of_ZeroOrInRange m.session_window (pos 65_535) max_int32 h.session_window,
  clamp_nonzero_of_ZeroOrInRange m.stream_window (pos 65_535) max_int32 h.stream_window,
  clamp_int_of_InRange m.max_half_open (pos 0) max_int32 h.max_half_open,
  clamp_int_of_InRange m.max_streams (pos 0) max_int32 h.max_streams,
  clamp_int_of_InRange m.connect_timeout (pos 10) day h.connect_timeout,
  clamp_int_of_InRange m.ping_timeout (pos 10) day h.ping_timeout,
  clamp_int_of_InRange m.keep_alive (pos 10) day h.keep_alive,
  clamp_int_of_InRange m.send_timeout (pos 10) day h.send_timeout,
  clamp_nonzero_of_ZeroOrInRange m.idle_timeout (pos 10) day h.idle_timeout,
)

pub clamp_file_of_FileInRange : (c : File) → FileInRange c → clamp_file c ≡ c
unfolding clamp_file
clamp_file_of_FileInRange c h = simp (
  clamp_int_of_InRange c.max_sessions (pos 0) max_int32 h.max_sessions,
  clamp_mux_of_MuxInRange c.mux h.mux,
  clamp_tcp_of_TcpInRange c.tcp h.tcp,
)
