-- ===== src/Lib.antt =====
-- Lurk, a SOCKS5 and HTTP proxy.
--
-- The program accepts TCP connections, labels each by its first byte, and hands it to the handler of
-- that protocol in a task of its own. The SOCKS5 handler agrees on an authentication method, reads
-- one relay request, dials the endpoint, answers, and relays bytes. The HTTP handler finds the host
-- of each request, and answers CONNECT with a tunnel or forwards the request. Ctrl+C closes the task
-- tracker, cancels the tasks and waits for them. An HTTP endpoint reports uptime and start time.
--
-- The files, and the code that each models:
--   Common      shared names and lemmas; Bytes, Decimal and Utf8 are integers in big-endian bytes,
--               decimal texts and the UTF-8 check, and IpText the parsers of IP addresses, as the
--               Rust standard library has them.
--   Error       src/common/error.rs, anyhow's errors by what `downcast` finds, and the monad M of
--               code that reads and writes: a state is passed on, and `?` stops at an error or panic.
--   Stream      the byte stream of a socket: what will arrive, how it ends, what was written, and
--               when writing fails. `read_exact` and `write_all` are tokio's by their documentation.
--   Address     `Address` of src/net/mod.rs, with its wire format of src/proto/socks5/mod.rs.
--   Auth        src/auth.rs. A hash set is a list, its order of iteration a parameter, and the quotient
--               that forgets the order the sets of Auth/AbstractSets.
--   Io          src/io/mod.rs: the two traits through which the handler reads and writes messages.
--   Socks5      src/proto/socks5: constants and codes, Request and Response.
--               Socks5/Grammar describes the messages of a client anew, as the program takes them.
--   Net         what the handlers ask of the system (resolve, connect, keepalive, copy), as a record
--               of operations, and `to_socket_addr` of src/net/mod.rs.
--   Tunnel      src/io/tunnel.rs.
--   Tcp         src/net/tcp.rs: outgoing connections and their options, labels, `bind`, `accept`.
--   Handler     src/server/handlers/socks5.rs. A session is the connection and the events (dialed,
--               tunnelled) so far. Handler/Rfc is the server of RFC 1928, against which the handler
--               is held, and Handler/Reference what the handler does, the program's departures from the
--               RFC included.
--   HttpHost    the module `utils` of src/server/handlers/http.rs: the host of a request. The crate
--               http is the record HttpTypes, with what its documentation says of the parts of a URI.
--   Http        the rest of src/server/handlers/http.rs; hyper's client, server and upgrade are the
--               parameters `send`, `serve` and `upgrade`.
--   Stats       src/server/stats.rs. The current time is an argument, chrono a record.
--   Server      src/server/mod.rs and src/server/handlers/mod.rs. `run` is the relation Step of
--               Server/Steps, in which the environment chooses what is accepted, which task goes on or
--               ends, and when Ctrl+C comes. A task holds what its handler has done so far, and goes
--               on by one event of its handler at a time: those of Handler's `handle`, or what
--               Http's `serve_request` dials and starts, one request after another.
--   Api         src/api/mod.rs.
--   Config      src/config.rs.
--   Log         src/common/logging.rs, and how addresses and labels print. Server/Audit is the log of a
--               run of the server, and Handler/Log that of the SOCKS5 handler.
--   Conformance the unit tests of src/net/mod.rs, src/net/tcp.rs, src/auth.rs, src/proto/socks5/test.rs
--               and src/server/handlers/socks5.rs, each as a statement on the model, with its proof.
--   Main        src/main.rs: the server and the endpoint in one program. The server takes the steps of
--               Server/Steps; its start has two stores, between which the endpoint may load the stats,
--               and a health check loads the time of the start twice.
-- Functions have the source's names, `new` of a type excepted where several would meet
-- (`new_server`, `new_stats`); builders are `relay_builder`, `with_success`, `build_relay`.
--
-- A byte is a number below 256, and an address the number that its bytes spell. A text is the list of
-- its bytes where the program handles its bytes. Debug assertions depend on a parameter `debug`. All
-- loops are structural: the methods of a handshake by their count, the clients of the endpoint by the
-- list of what was accepted. The two bounds are those of the code that they model: the eight groups
-- of an IPv6 address, and the five digits of a port, which is below 65536.
--
-- Not modelled: writing the log, its lines by `info` and `trace`, and how values of other crates
-- print; the command line (clap); the integration tests, which run the program; the scheduling inside
-- tokio and hyper's own protocol; the reorderings of atomics that `Relaxed` allows; a network that
-- changes its answers in the course of a run. What a SOCKS5
-- handler has written when it is cancelled in the middle is not modelled, only what it has dialed and
-- tunnelled; the tunnels of HTTP connections are started by an event, and go on in tasks outside the
-- tracker that have no steps.
pub mod Common
pub mod Error
pub mod Stream
pub mod Address
pub mod Auth
pub mod Io
pub mod Socks5
pub mod Net
pub mod Tcp
pub mod Tunnel
pub mod Handler
pub mod Stats
pub mod Config
pub mod Server
pub mod Api
pub mod HttpHost
pub mod Http
pub mod Log
pub mod Main
pub mod Conformance
