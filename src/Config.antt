-- ===== src/Config.antt =====
-- v4/config: the configuration snapshot (config.go), its validation (loader.go) and the derived
-- settings (utils.go). A Go `int` is an integer; a string is its bytes.
pub mod Startups
pub mod Clamp
pub mod Validate
pub mod Load
pub mod Tests
mod Defs
pub use Defs.{Tcp, Mux, Tls, Identity, File, default_file, server_name, alpn, find_listen}
unfoldable pub use Defs.{max_streams, idle_timeout}
