-- ===== src/Lib.antt =====
-- tlswrapper: a verification of the core of version 4 (v4/).
--
-- tlswrapper forwards TCP connections over multiplexed sessions. A server (v4/server.go) owns
-- tunnels (v4/tunnel.go), each of which holds at most one mux session, dials it again when it is
-- lost and drops it when it is idle or stale; local listeners, whose connections become streams of
-- a tunnel's session; a mux listener, whose sessions the server accepts, throttled by
-- v4/muxlimiter.go; a forwarder (v4/forwarder/forwarder.go), which copies between the two
-- connections of a pair and counts the pairs; and a log of recent events
-- (v4/eventlog/eventlog.go). A configuration snapshot (v4/config) drives all of it, and can be
-- reloaded while the server runs.
--
-- The files. Base and its children hold the shared types and lemmas: lists and indices over the
-- native numbers, Go's int as ℤ, strings as bytes. Every other file is named for its part:
-- - Forwarder: the shared state and its schedules; Forwarder.Machine is Start and `run` action by
--   action. Tally, Moves and Balance say what a pair holds; Counters, Finish, Limit and Race follow
--   from them. Progress and Unblocks are about one pair, whose copies wait for their peers. An
--   interleaving is a list of events, each one action of one thread.
-- - Tunnel: the tunnel, the sessions and the counters that tunnels share (`World`); install is
--   addSession, release_session and finalize_session are finalizeSession. Tunnel.Redial has dial,
--   redial, maintenance, schedule and OpenStream. Tunnel.Events puts them in any order, with a dial
--   split where it waits for the network. Tunnel.Loop is Start and run (Redials, Failures),
--   Tunnel.Watch watchIdleSession (Evicts). Frame, Books, Lifetime and Stopped are about all
--   histories, Idle and Redial.* about single calls.
-- - Server: the operations over all tunnels; Server.Load is loadTunnels, Server.Reload is
--   ReloadConfig with reloadMuxListen and reloadAPIListen, Server.Shutdown is Start and Shutdown,
--   Server.Serve is serveMuxListener and serveSession, Server.Streams Serve, LocalHandler.Serve
--   (v4/handler.go), acceptInboundStreams and handleInboundStream, Server.Stats the Stats of server
--   and tunnel, Server.Maintenance maintenanceLoop.
-- - Config: v4/config/config.go (Defs), parseMaxStartups (Startups), Validate (Clamp, Validate) and
--   Load of v4/config/loader.go, and the derived settings of v4/config/utils.go.
-- - Latency: latencyRing of v4/utils.go. Eventlog: v4/eventlog/eventlog.go. Limiter:
--   v4/muxlimiter.go. Contexts: v4/context.go. Api: the handlers of v4/api.go.
-- - H2mux: v4/mux/h2mux. Session is the server session of session.go, a step at a time (Tokens,
--   Places, Resolved, Dialed), and Client the client session; Stream is stream.go, Codec codec.go,
--   BufferPool bufferpool.go, Handshake handshake.go, Stats metrics.go; Server and Inbound are
--   muxServer and h2InboundSession of connect.go; EndToEnd puts Write, the codec and Read together.
-- - H3mux: v4/mux/h3mux. Handshake is handshake.go as bytes, Session is session.go and stream.go,
--   Connect (Agrees) and Listener (Tells) are the set-up, the inbound session and the listener of
--   connect.go.
-- The Tests modules run the theorems on concrete states.
--
-- What the code does between two waits, or under one mutex, is one function on the state. What the
-- network, the clock, the random numbers, the goroutine group, the TLS, JSON, gRPC, protobuf and
-- QUIC libraries and the MIME parser answer is an argument; where a theorem relies on what such a
-- library documents, that is a hypothesis (IsReader, IsWire, IsJson). Counters keep their width (32
-- and 64 bits), but for the two of the forwarder, which its pairs bound. No function here runs on
-- fuel: the loops of the code recur on the list that they go over, and the threads of a pair of
-- connections are shown to end by the number of actions left to them.
--
-- Not modelled: the calls that set gRPC up (Client and Server of v4/mux/h2mux/connect.go) and make
-- QUIC connections, which are third-party code, and the options of both transports (config.go); the
-- texts of the HTTP pages and the Prometheus collector, the command line and the certificate tools,
-- the texts of logs and tags, and the previous releases (v2, v3).
pub mod Api
pub mod Base
pub mod Config
pub mod Latency
pub mod Forwarder
pub mod Tunnel
pub mod Eventlog
pub mod H2mux
pub mod H3mux
pub mod Limiter
pub mod Contexts
pub mod Server
