-- ===== src/Lib.antt =====
-- Verification of warp-rust, a SOCKS5 proxy that sends its traffic through a Cloudflare WARP tunnel in user space.
-- This header says which file models which part; paths are from the repository's root.
--
-- The program. src/main.rs loads the configuration (src/config.rs) and an account (src/warp/), shakes hands with
-- one of the endpoints of the account (src/tunnel.rs, connect_candidate) and starts three long-lived tasks: the
-- health probe (src/health.rs) sends an event to the supervisor (src/supervisor.rs) each round, the supervisor climbs
-- a ladder of recovery actions, each of which replaces the tunnel under the connections that use it, and the server
-- (src/proxy/) resolves names (src/dns.rs), dials through the tunnel and relays bytes and datagrams. The dials that
-- the server makes are counted (src/egress.rs), which the health probe reads.
--
-- Files.
--   Base            numbers, lists, tests, errors (src/error.rs), times, tasks that are joined, lists without repeats
--   Net, Bytes      addresses, packets as lists of bytes, with an index out of bounds as a crash
--   Config          src/config.rs: schema and defaults; Config/Validate is validate_with, Config/Soundness and
--                   Config/Memory say what it accepts
--   Warp            src/warp/: the pool of identities (identity_pool.rs), the account file (persistence.rs), the
--                   account manager (account.rs)
--   Tunnel          src/tunnel.rs: Retirement and Generations are the live and the retired tunnels, their leases and
--                   timers; Endpoints and Connect are endpoint_attempts and connect_candidate, Hint the hint of a
--                   failed race
--   Supervisor      src/supervisor.rs: the actions, the ladder and the event loop; its theorems stand in Ladder, Events,
--                   Recovery and Commit
--   Egress, Health  src/egress.rs and src/health.rs
--   Dns             src/dns.rs: Wire and Reply are the packets, Exchange the queries through the tunnel,
--                   Query a query of either mode, Cache and Merge the cache and the dual-stack resolution, Flight the queries in flight and
--                   the callers that share them
--   Proxy           src/proxy/: Udp is the framing of datagrams, Udp/Relay the receiving side of the relay and
--                   Udp/Session the rest of it (udp.rs), Serve the accept loop, Connection a connection from its
--                   handshake on and the UDP association, Handle the reply to a request,
--                   Dial the dial of the candidates, Relay the relay of bytes behind it, LogGate the two gates of
--                   log lines and Listen the messages of a failed bind (tcp.rs)
--   Startup, Watch  src/main.rs and src/config_watch.rs
--   In each part, Tests holds runs on small inputs.
--
-- How code is translated. A function that may fail answers an Outcome: a value, an error or a crash, which stands for
-- a panic. A task that waits on several things at once is a function on the list of what it sees, in the order in
-- which it sees it, so a theorem for every such list covers every interleaving of them: the events of the supervisor,
-- of the generations, of the dial, the rounds of the probe, the datagrams of a client. Which of several running tasks
-- ends first is a position in such a list. Where tasks share state and are
-- not one loop (the relay of bytes, the callers of one query), a step relation says what each may do next, and a
-- theorem on the reachable states covers every order of the steps. Times are numbers of nanoseconds or milliseconds, as the file says. What the
-- program asks of other crates or of the system (the WARP API, the WireGuard handshake, the file system, the
-- resolver of the host, the clock, the order in which a hash map lists its keys) is an argument.
--
-- Bounds and fuel. skip_name recurses on fuel: one more than the length of the packet is enough, since each round
-- moves on by a byte at least. connect_candidate takes one position for each attempt; the dial goes as far as its events
-- do. Integers of the machine keep their width where the source relies on it: the counters of src/egress.rs wrap, the
-- saturating operations saturate, checked_add has its bound of 2 ^ 64.
--
-- Not modelled: log lines, counters, the text that a message interpolates; the vendored WireGuard and network stack
-- crates (vendor/); the layering of configuration files and the environment; the bytes of the SOCKS5 handshake; telemetry,
-- metrics and signals, which are input and output around the parts above.
pub mod Base
pub mod Net
pub mod Bytes
pub mod Config
pub mod Warp
pub mod Tunnel
pub mod Supervisor
pub mod Egress
pub mod Health
pub mod Dns
pub mod Proxy
pub mod Startup
pub mod Watch
