-- ===== src/H2mux/Tests.antt =====
-- Tests of the sessions, the streams and the codec.
mod Calls
mod Streams
mod Setup
