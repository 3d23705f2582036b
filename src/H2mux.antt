-- ===== src/H2mux.antt =====
-- The h2mux transport of v4/mux/h2mux: sessions and streams over gRPC.
pub mod Session
pub mod BufferPool
pub mod Client
pub mod EndToEnd
pub mod Handshake
pub mod Inbound
pub mod Server
pub mod Stats
pub mod Codec
pub mod Stream
mod Tests
