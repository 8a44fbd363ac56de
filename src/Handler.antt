-- ===== src/Handler.antt =====
-- server/handlers/socks5.rs: the handler of a SOCKS5 connection.
pub mod Replies
pub mod Handshake
pub mod Clients
pub mod Relay
pub mod Conversation
pub mod Safety
pub mod Speech
pub mod Calmness
pub mod Reference
pub mod Rfc
pub mod Log
pub mod Tests
use lurk.Tunnel
use lurk.Tunnel.{new_tunnel}
use lurk.Socks5.{command_eq}
use lurk.Socks5.Response.{
  relay_response, build_relay, handshake_response, with_bound_address, build_handshake,
  relay_builder, handshake_builder, with_err, with_success, with_no_acceptable_method,
  with_auth_method,
}
use lurk.Socks5.Request.{handshake_request, relay_request, RelayRequest}
use lurk.Net.{to_socket_addr, Net}
use lurk.Error.{
  unsupported_socks_command, no_acceptable_authentication_method, lurk_error, tcp_connect, panic,
  fail, debug_assert, err, lift, Result, ok, ◌>>◌, ◌>>=◌, Error, LurkAuthMethod, M,
}
use lurk.Stream.{Stream}
use lurk.Tcp.{socks5, LurkTcpConnectionLabel, establish_tcp_connection, LurkTcpConnection}
use lurk.Address.{SocketAddr}
use lurk.Common.{ℕ, List, [], ◌∷◌, ◌++◌, Bool, true, false, Option, none, some, if◌then◌else◌}
use lurk.Auth.{
  select_auth_method, authenticate_connection, HashOrder, LurkAuthenticator,
  new as new_authenticator,
}

-- What the handler does beside reading and writing: the connections that it asks for, and the
-- tunnels that it runs or starts.
pub data Event : Type 0 where
  dialed : SocketAddr → Event
  tunnelled : SocketAddr → Event

-- The state of a handler: its connection, and the events so far.
pub record Session : Type 0 where
  pub conn : LurkTcpConnection
  pub events : List Event

abbrev pub with_stream : Stream → Session → Session
with_stream stream s = record s { conn = record (s.conn) { stream = stream } }

-- `conn.stream_mut()`
abbrev pub on_stream : {A : Type 0} → M Stream A → M Session A
on_stream m s = let (result, stream) = m s.conn.stream in (result, with_stream stream s)

abbrev pub note_event : Event → Session → Session
note_event event s = record s { events = s.events ++ event ∷ [] }

abbrev pub is_socks5 : LurkTcpConnectionLabel → Bool
is_socks5 socks5 = true
is_socks5 _ = false

module _ (debug : Bool) where
  -- `HandshakeResponse::builder().with_auth_method(method).build().write_to(stream)`
  unfoldable pub send_method : LurkAuthMethod → M Stream (Unit {0})
  send_method method = do
    builder ← lift (with_auth_method debug method handshake_builder)
    response ← lift (build_handshake builder)
    (handshake_response debug).write_to response

  unfoldable pub send_no_acceptable_method : M Stream (Unit {0})
  send_no_acceptable_method = do
    builder ← lift (with_no_acceptable_method debug handshake_builder)
    response ← lift (build_handshake builder)
    (handshake_response debug).write_to response

  unfoldable pub send_success : SocketAddr → M Stream (Unit {0})
  send_success bound_addr = do
    builder ← lift (with_success debug relay_builder)
    builder' ← lift (with_bound_address debug bound_addr builder)
    response ← lift (build_relay builder')
    relay_response.write_to response

  -- `on_relay_request_handling_error`, on the bound address of the connection
  unfoldable pub on_relay_request_handling_error : Error → SocketAddr → M Stream (Unit {0})
  on_relay_request_handling_error e local_addr = do
    builder ← lift (with_err debug e relay_builder)
    builder' ← lift (with_bound_address debug local_addr builder)
    response ← lift (build_relay builder')
    relay_response.write_to response

  -- The two arms of `process_handshake`.
  unfoldable pub answer_handshake : LurkAuthenticator × Option LurkAuthMethod → M Stream (Unit {0})
  answer_handshake (authenticator, some method) = do
    send_method method
    lift (authenticate_connection authenticator)
  answer_handshake (authenticator, none) = do
    send_no_acceptable_method
    fail (lurk_error no_acceptable_authentication_method)

  unfoldable pub process_handshake : HashOrder → M Stream (Unit {0})
  unfolding answer_handshake
  process_handshake order = do
    request ← handshake_request.read_from
    answer_handshake (select_auth_method order new_authenticator request.auth_methods)

module _ (net : Net) (debug : Bool) where
  -- The tunnel on an established connection; its error is logged, not returned.
  unfoldable pub run_tunnel : SocketAddr → net.Socket → M Session (Unit {0})
  unfolding Tunnel.run
  run_tunnel addr outbound_stream s =
      let (result, tunnel) = Tunnel.run net (new_tunnel s.conn.stream outbound_stream) in
      (ok tt, note_event (tunnelled addr) (with_stream tunnel.l2r s))

  abbrev after_dialing : SocketAddr → Result net.Socket → M Session (Unit {0})
  after_dialing addr (ok outbound_stream) s =
      (on_stream (send_success debug s.conn.local_addr) >> run_tunnel addr outbound_stream) s
  after_dialing addr (err e) s =
      on_stream (on_relay_request_handling_error debug e s.conn.local_addr) s
  after_dialing addr panic s = (panic, s)

  unfoldable pub dial : SocketAddr → M Session (Unit {0})
  dial addr s =
      after_dialing addr (establish_tcp_connection net debug addr) (note_event (dialed addr) s)

  unfoldable pub serve_request : RelayRequest → M Session (Unit {0})
  unfolding dial
  serve_request request s =
      if command_eq request.command tcp_connect
      then (lift (to_socket_addr net request.endpoint_address) >>= dial) s
      else on_stream
          (on_relay_request_handling_error debug
            (lurk_error (unsupported_socks_command request.command)) s.conn.local_addr)
          s

  unfoldable pub process_relay_request : M Session (Unit {0})
  unfolding serve_request
  process_relay_request = on_stream relay_request.read_from >>= serve_request

  unfoldable pub handle : HashOrder → M Session (Unit {0})
  unfolding process_handshake process_relay_request
  handle order s =
      (lift (debug_assert debug (is_socks5 s.conn.label))
          >> on_stream (process_handshake debug order)
          >> process_relay_request)
        s
