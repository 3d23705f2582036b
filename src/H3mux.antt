-- ===== src/H3mux.antt =====
-- The h3mux transport of v4/mux/h3mux: sessions and streams over QUIC.
mod Utf8
pub mod Handshake
pub mod Session
pub mod Connect
pub mod Listener
mod Tests
