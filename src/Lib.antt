-- ===== src/Lib.antt =====
-- A model of the Civ VI LAN bridge: rooms of players whose game believes it is on one local
-- network, while a server relays its discovery and gameplay datagrams over WireGuard.
--
-- The parts, and the files that model them:
--   Protocol: crates/protocol/src. Ports has the identifiers and the game's ports, RoomCode the
--     codes that rooms are joined by (both of lib.rs); Relay, with Codec and Fields, the envelope of
--     relay.rs, byte by byte, in both of its versions.
--   Router: crates/router/src/lib.rs, the state machine `RoomRouter`. State has its tables, Rooms,
--     Hosts, Peers, Discovery, Gameplay, Expiry and Dispatch one function for each method. A method
--     with `&mut self` takes the router and gives its result and the router that it leaves, after
--     an error too. Invariant says when the tables describe one state of affairs; the modules
--     below it are about each method, and Reachable about sequences of calls. Directory is what
--     the router amounts to for a caller who asks where the peers are.
--   Server: server/src. Metrics (metrics.rs) has the counters, the cache of seen packets and the
--     sequence tracker; RateLimiter and State (state.rs) the limiter, the state, the allocation of
--     addresses and the restart from the database; Restoring the peers that `wg` is told of again;
--     Relay (relay.rs) how a datagram is decoded, limited, authenticated, dispatched to the router
--     and answered; WireGuard (wireguard.rs) the arguments of `wg`; Api (api.rs) the control API:
--     Handler says how a handler runs, Access has tokens and accounts, Rooms, Peers and Sessions the
--     handlers, Serve the routes. The handlers call the router's methods on the state that the relay
--     reads.
--   Client: crates/client-core/src/lib.rs. Control has `ControlClient`, Relay `RelayClient` without
--     a session; Session has `RelaySession` and what changes it, Probe, Sending and Reconnect what it
--     does on a transport. Reconnect/Resumption puts it before the server's sequence tracker.
--   Prelude has what they share: maps and sets with their laws, results, bytes.
--   Tests runs the parts at a room with a client and a host.
--
-- How the code is read. An `Instant` or a `Duration` is a number of one unit of time (seconds in
-- the server, milliseconds in the client), and what a call reads of the clock is an argument, or
-- asked of the surroundings. Identifiers are numbers; those that the source draws at random are
-- arguments, and a fresh host session is not in use. A map is an association list without repeated
-- keys; its order is that of the entries, on which only the calls of `wg` by
-- `restore_wireguard_peers` depend. A lock makes a call one step, so concurrent calls are a
-- sequence of them. A handler of the API awaits the database and `wg` between its steps; here it
-- runs to its end before another begins. The integers of the wire are bounded where they are
-- written, the counters wrap at 2^64, the client's count of sends at 2^32 (as a release build
-- does), and the connection epoch saturates at the largest number of 64 bits. The bytes
-- of a UUID and the hash of a packet are parameters; so are the database, `wg` and the crates for
-- passwords, base64 and Unicode (`World`, whose one law is that a password verifies against its own
-- hash), and the client's transport, clock and identifiers (`Net`) and its HTTP library (`Http`).
--
-- Loops are structural, but for four of the client: those of the two probes and of the retries of
-- a discovery run on fuel, and the one that strips slashes from an address, whose fuel is its
-- length. Probes need one round more than datagrams come in that are not the answer, however fast
-- they come, retries, with a pause that is not 0, as many as the window has milliseconds, and one.
-- The loops of `run_with_reconnect` do not end, and are a step each.
--
-- Not modelled: the SQL behind the database (server/src/db.rs); start-up (server/src/main.rs);
-- how sockets are opened; texts of errors, serialisation and display; poisoned locks; the clients'
-- user interfaces and adapters.
pub mod Prelude
pub mod Client
pub mod Protocol
pub mod Router
pub mod Server
pub mod Tests
