-- ===== src/Http.antt =====
-- server/handlers/http.rs: the handler of an HTTP connection.
pub mod Host
pub mod Outcomes
pub mod Reassembly
pub mod Forwarding
pub mod Tests
use lurk.Address.{domain_name, ipv4_socket_address, ipv6_socket_address, SocketAddr, Address}
use lurk.Error.{debug_assert, from_io, panic, and_then, err, ok, Result}
use lurk.Tunnel
use lurk.Tunnel.{new_tunnel, LurkTunnel}
use lurk.HttpHost.{get_host_addr, HttpTypes, Request, Method, connect, other_method}
use lurk.Net.{Net, to_socket_addr}
use lurk.Stream.{Stream}
use lurk.Tcp.{LurkTcpConnection, LurkTcpConnectionLabel, http, establish_tcp_connection}
use text.Mathlib.Text.{◌==◌ as str_eq}
use Prim.Native.String.{String}
use lurk.Common.{
  option_map, ◌≡◌, ◌-◌, if◌then◌else◌, length, ◌==◌, true, [], none, some, ◌&&◌, ◌∷◌, false, Bool,
  ℕ, Option, List, take,
}
use lurk.Common.IpText.{parse_ipv4, parse_ipv6}

pub record Response : Type 0 where
  pub status : ℕ
  pub body : List ℕ

abbrev empty_body : List ℕ
empty_body = []

abbrev pub response : ℕ → List ℕ → Response
response status body = record { status = status; body = body }

abbrev pub ok_response : Response
ok_response = response 200 empty_body

abbrev pub bad_request : Response
bad_request = response 400 empty_body

abbrev server_error : Response
server_error = response 500 empty_body

abbrev pub is_http : LurkTcpConnectionLabel → Bool
is_http http = true
is_http _ = false

-- What a request leads to: the answer, an error of the service included, the address to which a
-- connection was asked for, and the outgoing connection for which a task with a tunnel was spawned.
pub record Served (net : Net) : Type 0 where
  pub answer : Result Response
  pub dialed : Option SocketAddr
  pub tunnel : Option net.Socket

module _ (types : HttpTypes) (net : Net) (debug : Bool) where
  abbrev answered : Result Response → Served net
  answered answer = record { answer = answer; dialed = none; tunnel = none }

  -- The answer to CONNECT. A panic is no error: it passes through.
  abbrev on_connected : SocketAddr → Result net.Socket → Served net
  on_connected remote_addr (ok outbound) = record {
    answer = ok ok_response;
    dialed = some remote_addr;
    tunnel = some outbound;
  }
  on_connected remote_addr (err e) = record {
    answer = ok server_error;
    dialed = some remote_addr;
    tunnel = none;
  }
  on_connected remote_addr panic = record {
    answer = panic;
    dialed = some remote_addr;
    tunnel = none;
  }

  -- `send` is hyper's client on a fresh connection: handshake and request.
  module _ (send : net.Socket → Request types → Result Response) where
    unfoldable pub forward : SocketAddr → Request types → Result Response
    forward remote_addr req = and_then (from_io (net.connect remote_addr)) λ stream. send stream req

    abbrev serve_to : Method → Request types → Result SocketAddr → Served net
    serve_to connect req (ok remote_addr) =
        on_connected remote_addr (establish_tcp_connection net debug remote_addr)
    serve_to (other_method name) req (ok remote_addr) = record {
      answer = forward remote_addr req;
      dialed = some remote_addr;
      tunnel = none;
    }
    serve_to method req (err e) = answered (err e)
    serve_to method req panic = answered panic

    abbrev serve_host : Option Address × Request types → Served net
    serve_host (none, req) = answered (ok bad_request)
    serve_host (some addr, req) = serve_to req.method req (to_socket_addr net addr)

    unfoldable pub serve_request : Request types → Served net
    unfolding get_host_addr forward
    serve_request req = serve_host (get_host_addr types req)

    -- `serve` is hyper's server: it calls the service for each request that it reads, and ends with
    -- the error that stopped the connection, if any.
    unfoldable pub handle :
        ((Request types → Served net) → LurkTcpConnection → Result (Unit {0}))
        → LurkTcpConnection
        → Result (Unit {0})
    unfolding serve_request
    handle serve conn =
        and_then (debug_assert debug (is_http conn.label)) λ _. serve serve_request conn

  -- The spawned task: the upgrade of the client's connection, and the tunnel, whose errors are logged.
  unfoldable pub tunnel_task :
      (Request types → Result Stream) → Request types → net.Socket → Option (LurkTunnel net)
  unfolding Tunnel.run
  tunnel_task upgrade req outbound = elim (upgrade req) [
    | ok inbound ↦
        let (result, tunnel) = Tunnel.run net (new_tunnel inbound outbound) in some tunnel
    | err e ↦ none
    | panic ↦ none
  ]
